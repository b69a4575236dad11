-- ===== src/SubTable/Counts.antt =====
-- What the methods of `SubTable` do to the number of times that each prefix is stored.
use mathlib.Core.List.{Perm}
use mzmq_rs.Prelude.{
  leb, NoPanic, ℕ, ◌-◌, ◌≤◌, ◌<◌, ◌≡◌, ◌↔◌, ◌⊎◌, inl, inr, refl, sym, ap, ◌∙◌, true, [], ◌∷◌, ◌++◌,
  some, Option-cases, ltb, ◌==◌, le→ltb, lt→ltb, if◌then◌else◌, length, map, Bytes, equal,
  equal_iff, starts_with, starts_with→append, starts_with-append, position, position-some,
  any-position, any-count, count-any, count-any-equal, count-perm_cons, any-map, count, length-perm,
  map-append_one, ok, err, arith, tests, Bool-cases,
}
use mzmq_rs.Heapless.{TableVecs}
use mzmq_rs.SubTable.{
  SubTable, table_full, prefix_too_long, new, prefixes, push_entry, subscribe, cancel, matches, len,
}

module _ {max_entries max_len : ℕ} (vecs : TableVecs max_entries max_len) where
  open vecs use {bytes, entries}

  pub prefixes-new : prefixes vecs (new vecs) ≡ []
  unfolding new
  prefixes-new = ap (map bytes.as_slice) entries.as_slice-new

  -- The prefix as `heapless` stores it.
  stored :
      (prefix : Bytes)
      → length prefix ≤ max_len
      → (v : bytes.Vec) × (bytes.extend_from_slice bytes.new prefix ≡ some v)
        × (bytes.as_slice v ≡ prefix)
  stored prefix fits =
      let (v, e, s) = bytes.extend_room bytes.new prefix (rw bytes.as_slice-new (omega arith)) in
      (v, e, s ∙ ap (λ t. t ++ prefix) bytes.as_slice-new)

  -- A prefix that is too long is refused, and so is any prefix if the table is full; neither changes
  -- the table. Any other prefix is stored behind those that are there.
  pub subscribe_lem :
      (t : SubTable vecs) (prefix : Bytes)
      → (max_len < length prefix → subscribe vecs t prefix ≡ (t, err prefix_too_long))
        × (length prefix ≤ max_len
            → max_entries ≤ len vecs t
            → subscribe vecs t prefix ≡ (t, err table_full))
        × (length prefix ≤ max_len
            → len vecs t < max_entries
            → (u : SubTable vecs) × (subscribe vecs t prefix ≡ (u, ok tt))
              × (prefixes vecs u ≡ prefixes vecs t ++ prefix ∷ []))
  unfolding subscribe len push_entry
  subscribe_lem t prefix = (
    λ long. rw (lt→ltb max_len (length prefix) long) refl,
    λ fits full.
        let (v, e, s) = stored prefix fits in
        rw (le→ltb max_len (length prefix) fits, e, entries.push_full t.items v full, push_entry)
          refl,
    λ fits room.
        let (v, e, s) = stored prefix fits in
        let (w, p, q) = entries.push_room t.items v room in
        (
          record { items = w },
          rw (le→ltb max_len (length prefix) fits, e, p, push_entry) refl,
          ap (map bytes.as_slice) q
              ∙ map-append_one bytes.as_slice (entries.as_slice t.items) v
              ∙ ap (λ b. prefixes vecs t ++ b ∷ []) s,
        ),
  )

  pub subscribe-NoPanic : (t : SubTable vecs) (prefix : Bytes) → NoPanic (subscribe vecs t prefix).1
  subscribe-NoPanic t prefix =
      let (long, full, room) = subscribe_lem t prefix in
      elim (Bool-cases (ltb max_len (length prefix))) [
        | inl too_long ↦ rw (long (omega tests)) tt
        | inr fits ↦ elim (Bool-cases (leb max_entries (len vecs t))) [
          | inl at_cap ↦ rw (full (omega tests) (ground arith)) tt
          | inr below ↦ let (u, e, q) = room (omega tests) (ground arith) in rw e tt
        ]
      ]

  -- `cancel` finds no copy, or takes one away.
  pub cancel_cases :
      (t : SubTable vecs) (prefix : Bytes)
      → ((count prefix (prefixes vecs t) ≡ 0) × (cancel vecs t prefix ≡ t))
        ⊎ ((x : bytes.Vec) × (bytes.as_slice x ≡ prefix)
            × Perm (entries.as_slice t.items) (x ∷ entries.as_slice (cancel vecs t prefix).items))
  unfolding cancel
  cancel_cases t prefix =
      let same = λ (e : bytes.Vec). equal (bytes.as_slice e) prefix in
      let slices = entries.as_slice t.items in
      elim (Option-cases (position same slices)) [
        | inl absent ↦
            let view = any-map bytes.as_slice (λ b. equal b prefix) slices in
            inl (
              count-any-equal prefix (prefixes vecs t) (sym view ∙ any-position same slices absent),
              rw (absent, cancel) refl,
            )
        | inr (i, found) ↦
            let (x, at', eq) = position-some same slices i found in
            inr (
              x,
              (equal_iff (bytes.as_slice x) prefix).0 eq,
              rw (found, cancel) (entries.swap_remove-perm t.items i x at'),
            )
      ]

  -- `cancel` takes one stored copy of the prefix away, if there is one, and leaves every other prefix
  -- stored as often as before.
  pub count-cancel :
      (t : SubTable vecs) (prefix p : Bytes)
      → count p (prefixes vecs (cancel vecs t prefix))
        ≡ count p (prefixes vecs t) - (if equal prefix p then 1 else 0)
  count-cancel t prefix p = elim (cancel_cases t prefix) [
    | inl (gone, e) ↦ rw e (ground (arith, gone, equal_iff prefix p))
    | inr (x, e, d) ↦ ground (arith, e, count-perm_cons bytes.as_slice p x _ _ d)
  ]

  pub len-cancel :
      (t : SubTable vecs) (prefix : Bytes)
      → len vecs (cancel vecs t prefix)
        ≡ len vecs t - (if count prefix (prefixes vecs t) == 0 then 0 else 1)
  unfolding len
  len-cancel t prefix = elim (cancel_cases t prefix) [
    | inl (gone, e) ↦ rw e (ground (arith, gone))
    | inr (x, e, d) ↦
        let one = count-perm_cons bytes.as_slice prefix x _ _ d in
        ground (arith, one, (equal_iff (bytes.as_slice x) prefix).1 e, length-perm d)
  ]

  -- A topic matches exactly if some stored prefix begins it.
  pub matches_iff :
      (t : SubTable vecs) (topic : Bytes)
      → (matches vecs t topic ≡ true)
        ↔ ((p : Bytes) × (rest : Bytes) × (0 < count p (prefixes vecs t)) × (topic ≡ p ++ rest))
  unfolding matches
  matches_iff t topic =
      let view = any-map bytes.as_slice (starts_with topic) (entries.as_slice t.items) in
      (
        λ h.
            let (p, s, c) = any-count (starts_with topic) (prefixes vecs t) (sym view ∙ h) in
            let (rest, e) = starts_with→append topic p s in (p, rest, c, e),
        λ (p, rest, c, e).
            view
            ∙ count-any (starts_with topic) p (prefixes vecs t) (rw e (starts_with-append p rest))
                c,
      )
