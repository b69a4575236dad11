-- ===== src/GroupTable/Members.antt =====
-- What the methods of `GroupTable` do to the number of times that each group is stored.
use mathlib.Core.List.{Perm}
use mzmq_rs.Prelude.{
  equal_refl, NoPanic, leb, ◌==◌, ℕ, ◌-◌, ◌≤◌, ◌<◌, ◌≡◌, ◌↔◌, ◌⊎◌, inl, inr, refl, sym, ap, ◌∙◌,
  true, false, [], ◌∷◌, ◌++◌, some, Option-cases, ltb, ◌==◌, le→ltb, lt→ltb, if◌then◌else◌, length,
  map, Bytes, equal, equal_iff, position, position-some, any, any-position, any-map,
  any-equal-count, count-any-equal, count-perm_cons, count, count-append, length-perm, length-map,
  map-append_one, ok, err, arith, tests, Bool-cases,
}
use mzmq_rs.Heapless.{TableVecs}
use mzmq_rs.GroupTable.{
  GroupTable, table_full, group_too_long, new, groups, push_entry, join, leave, matches, len,
}

module _ {max_entries max_len : ℕ} (vecs : TableVecs max_entries max_len) where
  open vecs use {bytes, entries}

  pub groups-new : groups vecs (new vecs) ≡ []
  unfolding new
  groups-new = ap (map bytes.as_slice) entries.as_slice-new

  pub len-groups : (t : GroupTable vecs) → length (groups vecs t) ≡ len vecs t
  unfolding len
  len-groups t = length-map bytes.as_slice (entries.as_slice t.items)

  stored :
      (group : Bytes)
      → length group ≤ max_len
      → (v : bytes.Vec) × (bytes.extend_from_slice bytes.new group ≡ some v)
        × (bytes.as_slice v ≡ group)
  stored group fits =
      let (v, e, s) = bytes.extend_room bytes.new group (rw bytes.as_slice-new (omega arith)) in
      (v, e, s ∙ ap (λ t. t ++ group) bytes.as_slice-new)

  -- A group matches exactly if it is stored.
  pub matches_iff :
      (t : GroupTable vecs) (group : Bytes)
      → (matches vecs t group ≡ true) ↔ (0 < count group (groups vecs t))
  unfolding matches
  matches_iff t group =
      let view = any-map bytes.as_slice (λ b. equal b group) (entries.as_slice t.items) in
      (
        λ h. any-equal-count group (groups vecs t) (sym view ∙ h),
        λ h. elim (Bool-cases (matches vecs t group)) [
          | inl found ↦ found
          | inr absent ↦
              absurd (omega (arith, count-any-equal group (groups vecs t) (sym view ∙ absent)))
        ],
      )

  not-matches :
      (t : GroupTable vecs) (group : Bytes)
      → count group (groups vecs t) ≡ 0
      → any (λ e. equal (bytes.as_slice e) group) (entries.as_slice t.items) ≡ false
  not-matches t group e =
      let view = any-map bytes.as_slice (λ b. equal b group) (entries.as_slice t.items) in
      elim (Bool-cases (any (λ b. equal b group) (groups vecs t))) [
        | inl found ↦ absurd (omega (arith, any-equal-count group (groups vecs t) found))
        | inr absent ↦ view ∙ absent
      ]

  is-matched :
      (t : GroupTable vecs) (group : Bytes)
      → 0 < count group (groups vecs t)
      → any (λ e. equal (bytes.as_slice e) group) (entries.as_slice t.items) ≡ true
  unfolding matches
  is-matched t group h = (matches_iff t group).1 h

  -- The four answers of `join`: a group that is too long is refused; one that is stored already is
  -- accepted and not stored again; a new one is refused by a full table; any other is stored.
  pub join_lem :
      (t : GroupTable vecs) (group : Bytes)
      → (max_len < length group → join vecs t group ≡ (t, err group_too_long))
        × (length group ≤ max_len
            → 0 < count group (groups vecs t)
            → join vecs t group ≡ (t, ok tt))
        × (length group ≤ max_len
            → count group (groups vecs t) ≡ 0
            → max_entries ≤ len vecs t
            → join vecs t group ≡ (t, err table_full))
        × (length group ≤ max_len
            → count group (groups vecs t) ≡ 0
            → len vecs t < max_entries
            → (u : GroupTable vecs) × (join vecs t group ≡ (u, ok tt))
              × (groups vecs u ≡ groups vecs t ++ group ∷ []))
  unfolding join len
  join_lem t group =
      let absent = λ (e : count group (groups vecs t) ≡ 0). not-matches t group e in
      (
        λ long. rw (lt→ltb max_len (length group) long) refl,
        λ fits there. rw (le→ltb max_len (length group) fits, is-matched t group there) refl,
        λ fits new' full.
            let (v, e, s) = stored group fits in
            rw
              (
                le→ltb max_len (length group) fits,
                absent new',
                e,
                entries.push_full t.items v full,
                push_entry,
              )
              refl,
        λ fits new' room.
            let (v, e, s) = stored group fits in
            let (w, p, q) = entries.push_room t.items v room in
            (
              record { items = w },
              rw (le→ltb max_len (length group) fits, absent new', e, p, push_entry) refl,
              ap (map bytes.as_slice) q
                  ∙ map-append_one bytes.as_slice (entries.as_slice t.items) v
                  ∙ ap (λ b. groups vecs t ++ b ∷ []) s,
            ),
      )

  pub join-NoPanic : (t : GroupTable vecs) (group : Bytes) → NoPanic (join vecs t group).1
  join-NoPanic t group =
      let (long, there, full, room) = join_lem t group in
      elim (Bool-cases (ltb max_len (length group))) [
        | inl too_long ↦ rw (long (omega tests)) tt
        | inr fits ↦ elim (Bool-cases (count group (groups vecs t) == 0)) [
          | inr joined ↦ rw (there (omega tests) (ground arith)) tt
          | inl new' ↦ elim (Bool-cases (leb max_entries (len vecs t))) [
            | inl at_cap ↦ rw (full (omega tests) (ground arith) (ground arith)) tt
            | inr below ↦
                let (u, e, q) = room (omega tests) (ground arith) (ground arith) in rw e tt
          ]
        ]
      ]

  -- A group that is joined with room for one more is one that matches.
  pub join-matches :
      (t : GroupTable vecs) (group : Bytes)
      → length group ≤ max_len
      → len vecs t < max_entries
      → matches vecs (join vecs t group).0 group ≡ true
  join-matches t group short below =
      let (long, there, full, room) = join_lem t group in
      elim (Bool-cases (count group (groups vecs t) == 0)) [
        | inr joined ↦
            let some' : 0 < count group (groups vecs t) = ground arith in
            rw (there short some') ((matches_iff t group).1 some')
        | inl new' ↦
            let (u, e, q) = room short (ground arith) below in
            let one : 0 < count group (groups vecs u) =
              rw q (
                ground
                  (arith, count-append group (groups vecs t) (group ∷ []), equal_refl group)) in
            rw e ((matches_iff u group).1 one)
      ]

  -- `leave` finds no copy, or takes one away.
  pub leave_cases :
      (t : GroupTable vecs) (group : Bytes)
      → ((count group (groups vecs t) ≡ 0) × (leave vecs t group ≡ t))
        ⊎ ((x : bytes.Vec) × (bytes.as_slice x ≡ group)
            × Perm (entries.as_slice t.items) (x ∷ entries.as_slice (leave vecs t group).items))
  unfolding leave
  leave_cases t group =
      let same = λ (e : bytes.Vec). equal (bytes.as_slice e) group in
      let slices = entries.as_slice t.items in
      elim (Option-cases (position same slices)) [
        | inl absent ↦
            let view = any-map bytes.as_slice (λ b. equal b group) slices in
            inl (
              count-any-equal group (groups vecs t) (sym view ∙ any-position same slices absent),
              rw (absent, leave) refl,
            )
        | inr (i, found) ↦
            let (x, at', eq) = position-some same slices i found in
            inr (
              x,
              (equal_iff (bytes.as_slice x) group).0 eq,
              rw (found, leave) (entries.swap_remove-perm t.items i x at'),
            )
      ]

  -- `leave` takes one stored copy of the group away, if there is one, and keeps every other group
  -- as often as before.
  pub count-leave :
      (t : GroupTable vecs) (group p : Bytes)
      → count p (groups vecs (leave vecs t group))
        ≡ count p (groups vecs t) - (if equal group p then 1 else 0)
  count-leave t group p = elim (leave_cases t group) [
    | inl (gone, e) ↦ rw e (ground (arith, gone, equal_iff group p))
    | inr (x, e, d) ↦ ground (arith, e, count-perm_cons bytes.as_slice p x _ _ d)
  ]

  pub len-leave :
      (t : GroupTable vecs) (group : Bytes)
      → len vecs (leave vecs t group)
        ≡ len vecs t - (if count group (groups vecs t) == 0 then 0 else 1)
  unfolding len
  len-leave t group = elim (leave_cases t group) [
    | inl (gone, e) ↦ rw e (ground (arith, gone))
    | inr (x, e, d) ↦
        let one = count-perm_cons bytes.as_slice group x _ _ d in
        ground (arith, one, (equal_iff (bytes.as_slice x) group).1 e, length-perm d)
  ]
