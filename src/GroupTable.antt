-- ===== src/GroupTable.antt =====
-- src/group_table.rs: the groups that one peer has joined.
pub mod Members
pub mod Refine
use mzmq_rs.Prelude.{
  ℕ, Bool, none, some, ltb, ◌==◌, if◌then◌else◌, length, List, map, Bytes, equal, Result, ok, err,
  panic, position, any,
}
use mzmq_rs.Heapless.{BoundedVec, TableVecs}

pub data GroupError : Type 0 where
  table_full group_too_long : GroupError

module _ {max_entries max_len : ℕ} (vecs : TableVecs max_entries max_len) where
  open vecs use {bytes, entries}

  pub record GroupTable : Type 0 where
    pub items : BoundedVec.Vec entries

  pub new : GroupTable
  new = record { items = entries.new }

  -- The joined groups, in the order of `entries.iter()`.
  abbrev pub groups : GroupTable → List Bytes
  groups t = map bytes.as_slice (entries.as_slice t.items)

  -- `self.entries.push(v).map_err(|_| GroupError::TableFull)`
  push_entry : GroupTable → bytes.Vec → GroupTable × Result GroupError (Unit {0})
  push_entry t v = elim (entries.push t.items v) [
    | some items ↦ (record { items = items }, ok tt)
    | none ↦ (t, err table_full)
  ]

  unfoldable pub matches : GroupTable → Bytes → Bool
  matches t group = any (λ e. equal (bytes.as_slice e) group) (entries.as_slice t.items)

  -- The loop over the entries returns at one that equals `group`: the test of `matches`.
  pub join : GroupTable → Bytes → GroupTable × Result GroupError (Unit {0})
  unfolding push_entry
  join t group =
      if ltb max_len (length group)
      then (t, err group_too_long)
      else if any (λ e. equal (bytes.as_slice e) group) (entries.as_slice t.items)
      then (t, ok tt)
      else elim (bytes.extend_from_slice bytes.new group) [
        | some v ↦ push_entry t v
        | none ↦ (t, panic)
      ]

  pub leave : GroupTable → Bytes → GroupTable
  leave t group = elim (position (λ e. equal (bytes.as_slice e) group) (entries.as_slice t.items)) [
    | some pos ↦ record { items = entries.swap_remove t.items pos }
    | none ↦ t
  ]

  unfoldable pub len : GroupTable → ℕ
  len t = length (entries.as_slice t.items)

  pub is_empty : GroupTable → Bool
  is_empty t = len t == 0
