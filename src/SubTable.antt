-- ===== src/SubTable.antt =====
-- src/sub_table.rs: the subscription prefixes of one peer.
pub mod Counts
pub mod Refine
use mzmq_rs.Prelude.{
  ℕ, Bool, List, none, some, ltb, ◌==◌, if◌then◌else◌, length, map, Bytes, equal, starts_with,
  Result, ok, err, panic, position, any,
}
use mzmq_rs.Heapless.{BoundedVec, TableVecs}

pub data SubError : Type 0 where
  table_full prefix_too_long : SubError

module _ {max_entries max_len : ℕ} (vecs : TableVecs max_entries max_len) where
  open vecs use {bytes, entries}

  pub record SubTable : Type 0 where
    pub items : BoundedVec.Vec entries

  pub new : SubTable
  new = record { items = entries.new }

  -- The stored prefixes, in the order of `entries.iter()`.
  abbrev pub prefixes : SubTable → List Bytes
  prefixes t = map bytes.as_slice (entries.as_slice t.items)

  -- `self.entries.push(v).map_err(|_| SubError::TableFull)`
  push_entry : SubTable → bytes.Vec → SubTable × Result SubError (Unit {0})
  push_entry t v = elim (entries.push t.items v) [
    | some items ↦ (record { items = items }, ok tt)
    | none ↦ (t, err table_full)
  ]

  pub subscribe : SubTable → Bytes → SubTable × Result SubError (Unit {0})
  unfolding push_entry
  subscribe t prefix =
      if ltb max_len (length prefix)
      then (t, err prefix_too_long)
      else elim (bytes.extend_from_slice bytes.new prefix) [
        | some v ↦ push_entry t v
        | none ↦ (t, panic)
      ]

  pub cancel : SubTable → Bytes → SubTable
  cancel t prefix =
      elim (position (λ e. equal (bytes.as_slice e) prefix) (entries.as_slice t.items)) [
        | some pos ↦ record { items = entries.swap_remove t.items pos }
        | none ↦ t
      ]

  unfoldable pub matches : SubTable → Bytes → Bool
  matches t topic = any (λ e. starts_with topic (bytes.as_slice e)) (entries.as_slice t.items)

  unfoldable pub len : SubTable → ℕ
  len t = length (entries.as_slice t.items)

  pub is_empty : SubTable → Bool
  is_empty t = len t == 0
