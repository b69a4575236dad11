-- ===== src/GroupTable/Refine.antt =====
-- `GroupTable` against a bounded set of groups.
use mzmq_rs.Prelude.{
  ℕ, ◌+◌, ◌-◌, ◌≡◌, inl, inr, refl, sym, ap, ◌∙◌, Bool, true, false, List, [], ◌∷◌, ltb, leb,
  if◌then◌else◌, length, length-append, Bytes, equal, equal_iff, count, count-append, Result, ok,
  err, arith, tests, Bool-cases,
}
use mzmq_rs.Heapless.{TableVecs}
use mzmq_rs.GroupTable.{
  GroupTable, GroupError, table_full, group_too_long, new, groups, join, leave, matches, len,
}
use mzmq_rs.GroupTable.Members.{
  groups-new, len-groups, join_lem, count-leave, len-leave, matches_iff,
}

-- Which groups the peer is in, and how many.
pub record Membership : Type 0 where
  pub joined : Bytes → Bool
  pub total : ℕ

abbrev pub no_groups : Membership
no_groups = record { joined = λ p. false; total = 0 }

pub data Request : Type 0 where
  joining leaving : Bytes → Request

abbrev pub one_if : Bool → ℕ
one_if b = if b then 1 else 0

unfoldable pub remove : Membership → Bytes → Membership
remove s g =
    if s.joined g
    then record { joined = λ q. if equal g q then false else s.joined q; total = s.total - 1 }
    else s

module _ (max_entries max_len : ℕ) where
  unfoldable pub add : Membership → Bytes → Membership × Result GroupError (Unit {0})
  add s g =
      if ltb max_len (length g)
      then (s, err group_too_long)
      else if s.joined g
      then (s, ok tt)
      else if leb max_entries s.total
      then (s, err table_full)
      else (
        record { joined = λ q. if equal g q then true else s.joined q; total = s.total + 1 },
        ok tt,
      )

  unfoldable pub specified : Membership → List Request → Membership
  specified s [] = s
  specified s (joining g ∷ rs) = specified (add s g).0 rs
  specified s (leaving g ∷ rs) = specified (remove s g) rs

module _ {max_entries max_len : ℕ} (vecs : TableVecs max_entries max_len) where
  -- The requests of a peer, in the order of their frames.
  unfoldable pub run : GroupTable vecs → List Request → GroupTable vecs
  run t [] = t
  run t (joining g ∷ rs) = run (join vecs t g).0 rs
  run t (leaving g ∷ rs) = run (leave vecs t g) rs

  -- The table holds each group of the set once, in some order, and nothing else.
  pub record Holds (s : Membership) (t : GroupTable vecs) : Type 0 where
    pub joined_ok : (g : Bytes) → count g (groups vecs t) ≡ one_if (s.joined g)
    pub total_ok : len vecs t ≡ s.total

  pub new-Holds : Holds no_groups (new vecs)
  new-Holds = record {
    joined_ok = λ g. ap (count g) (groups-new vecs);
    total_ok = sym (len-groups vecs (new vecs)) ∙ ap length (groups-new vecs);
  }

  -- `join` answers as the specification does, on each of its four branches.
  pub join_refines :
      (s : Membership) (t : GroupTable vecs) (g : Bytes)
      → Holds s t
      → Holds (add max_entries max_len s g).0 (join vecs t g).0
        × ((join vecs t g).1 ≡ (add max_entries max_len s g).1)
  unfolding add
  join_refines s t g h =
      let (long, there, full, room) = join_lem vecs t g in
      elim (Bool-cases (ltb max_len (length g))) [
        | inl too_long ↦ rw (too_long, long (omega tests)) (h, refl)
        | inr fits ↦ elim (Bool-cases (s.joined g)) [
          | inl member ↦
              rw (fits, member, there (omega tests) (ground (arith, h.joined_ok g))) (h, refl)
          | inr new' ↦ elim (Bool-cases (leb max_entries s.total)) [
            | inl at_cap ↦
                rw
                  (
                    fits,
                    new',
                    at_cap,
                    full (omega tests) (ground (arith, h.joined_ok g)) (ground (arith, h.total_ok)),
                  )
                  (h, refl)
            | inr below ↦
                let (u, e, q) =
                  room (omega tests) (ground (arith, h.joined_ok g)) (ground (arith, h.total_ok)) in
                rw (fits, new', below, e)
                  (
                    record {
                      joined_ok = λ r.
                          ap (count r) q
                          ∙ ground (
                            arith,
                            count-append r (groups vecs t) (g ∷ []),
                            h.joined_ok r,
                            equal_iff g r,
                          );
                      total_ok = omega (
                        arith,
                        ap length q,
                        length-append (groups vecs t) (g ∷ []),
                        len-groups vecs u,
                        len-groups vecs t,
                        h.total_ok,
                      );
                    },
                    refl,
                  )
          ]
        ]
      ]

  pub leave_refines :
      (s : Membership) (t : GroupTable vecs) (g : Bytes)
      → Holds s t
      → Holds (remove s g) (leave vecs t g)
  unfolding remove
  leave_refines s t g h = elim (Bool-cases (s.joined g)) [
    | inl member ↦ rw member (record {
      joined_ok = λ q. ground (arith, count-leave vecs t g q, h.joined_ok q, equal_iff g q);
      total_ok = ground (arith, len-leave vecs t g, h.joined_ok g, h.total_ok);
    })
    | inr absent ↦ rw absent (record {
      joined_ok =
          λ q. ground (arith, count-leave vecs t g q, h.joined_ok q, h.joined_ok g, equal_iff g q);
      total_ok = ground (arith, len-leave vecs t g, h.joined_ok g, h.total_ok);
    })
  ]

  matches_joined :
      (s : Membership) (t : GroupTable vecs) (g : Bytes) → Holds s t → matches vecs t g ≡ s.joined g
  matches_joined s t g h = elim (Bool-cases (s.joined g)) [
    | inl member ↦ (matches_iff vecs t g).1 (ground (arith, h.joined_ok g)) ∙ sym member
    | inr absent ↦ elim (Bool-cases (matches vecs t g)) [
      | inl found ↦ absurd (ground (arith, (matches_iff vecs t g).0 found, h.joined_ok g))
      | inr none' ↦ none' ∙ sym absent
    ]
  ]

  run-Holds :
      (rs : List Request) (s : Membership) (t : GroupTable vecs)
      → Holds s t
      → Holds (specified max_entries max_len s rs) (run t rs)
  unfolding specified run
  run-Holds [] s t h = h
  run-Holds (joining g ∷ rs) s t h = run-Holds rs _ _ (join_refines s t g h).0
  run-Holds (leaving g ∷ rs) s t h = run-Holds rs _ _ (leave_refines s t g h)

  -- After any requests, from the empty table on: the table holds each group that the peer is in once
  -- and no other, its length is their number, and exactly these groups match.
  pub group_run_refines :
      (rs : List Request)
      → let s = specified max_entries max_len no_groups rs in
        let t = run (new vecs) rs in
        Holds s t × ((group : Bytes) → matches vecs t group ≡ s.joined group)
  group_run_refines rs =
      let s = specified max_entries max_len no_groups rs in
      let t = run (new vecs) rs in
      let h : Holds s t = run-Holds rs no_groups (new vecs) new-Holds in
      (h, λ g. matches_joined s t g h)
