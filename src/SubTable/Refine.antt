-- ===== src/SubTable/Refine.antt =====
-- `SubTable` against a bounded multiset of prefixes, which has no order.
use mzmq_rs.Prelude.{
  ℕ, ◌+◌, ◌-◌, ◌<◌, ◌≡◌, ◌↔◌, inl, inr, refl, sym, ap, ◌∙◌, true, List, [], ◌∷◌, ◌++◌, ltb, leb,
  ◌==◌, if◌then◌else◌, length, length-append, Bytes, equal, count, count-append, length-map, Result,
  ok, err, arith, tests, Bool-cases, equal_iff,
}
use mzmq_rs.Heapless.{TableVecs}
use mzmq_rs.SubTable.{
  SubTable, SubError, table_full, prefix_too_long, new, prefixes, subscribe, cancel, matches, len,
}
use mzmq_rs.SubTable.Counts.{prefixes-new, subscribe_lem, count-cancel, len-cancel, matches_iff}

-- How often each prefix is subscribed to, and how many subscriptions there are.
pub record Subscriptions : Type 0 where
  pub times : Bytes → ℕ
  pub total : ℕ

abbrev pub no_subscriptions : Subscriptions
no_subscriptions = record { times = λ p. 0; total = 0 }

pub data Request : Type 0 where
  subscribing cancelling : Bytes → Request

abbrev one_if : Bytes → Bytes → ℕ
one_if p q = if equal p q then 1 else 0

unfoldable pub remove : Subscriptions → Bytes → Subscriptions
remove s p =
    if s.times p == 0
    then s
    else record { times = λ q. s.times q - one_if p q; total = s.total - 1 }

module _ (max_entries max_len : ℕ) where
  -- The specification: a subscription is counted if it is short enough and there is room.
  unfoldable pub add : Subscriptions → Bytes → Subscriptions × Result SubError (Unit {0})
  add s p =
      if ltb max_len (length p)
      then (s, err prefix_too_long)
      else if leb max_entries s.total
      then (s, err table_full)
      else (record { times = λ q. s.times q + one_if p q; total = s.total + 1 }, ok tt)

  unfoldable pub specified : Subscriptions → List Request → Subscriptions
  specified s [] = s
  specified s (subscribing p ∷ rs) = specified (add s p).0 rs
  specified s (cancelling p ∷ rs) = specified (remove s p) rs

module _ {max_entries max_len : ℕ} (vecs : TableVecs max_entries max_len) where
  open vecs use {bytes, entries}

  -- The requests of a peer, in the order of their frames.
  unfoldable pub run : SubTable vecs → List Request → SubTable vecs
  run t [] = t
  run t (subscribing p ∷ rs) = run (subscribe vecs t p).0 rs
  run t (cancelling p ∷ rs) = run (cancel vecs t p) rs

  -- The table holds these subscriptions, in some order.
  pub record Holds (s : Subscriptions) (t : SubTable vecs) : Type 0 where
    pub times_ok : (p : Bytes) → count p (prefixes vecs t) ≡ s.times p
    pub total_ok : len vecs t ≡ s.total

  len-prefixes : (t : SubTable vecs) → length (prefixes vecs t) ≡ len vecs t
  unfolding len
  len-prefixes t = length-map bytes.as_slice (entries.as_slice t.items)

  pub new-Holds : Holds no_subscriptions (new vecs)
  new-Holds = record {
    times_ok = λ p. ap (count p) (prefixes-new vecs);
    total_ok = sym (len-prefixes (new vecs)) ∙ ap length (prefixes-new vecs);
  }

  -- `subscribe` answers as the specification does.
  pub subscribe_refines :
      (s : Subscriptions) (t : SubTable vecs) (p : Bytes)
      → Holds s t
      → Holds (add max_entries max_len s p).0 (subscribe vecs t p).0
        × ((subscribe vecs t p).1 ≡ (add max_entries max_len s p).1)
  unfolding add
  subscribe_refines s t p h =
      let (long, full, room) = subscribe_lem vecs t p in
      elim (Bool-cases (ltb max_len (length p))) [
        | inl too_long ↦ rw (too_long, long (omega tests)) (h, refl)
        | inr fits ↦ elim (Bool-cases (leb max_entries s.total)) [
          | inl at_cap ↦
              rw (fits, at_cap, full (omega tests) (ground (arith, h.total_ok))) (h, refl)
          | inr below ↦
              let (u, e, q) = room (omega tests) (ground (arith, h.total_ok)) in
              rw (fits, below, e)
                (
                  record {
                    times_ok = λ r.
                        ap (count r) q
                        ∙ omega (arith, count-append r (prefixes vecs t) (p ∷ []), h.times_ok r);
                    total_ok = omega (
                      arith,
                      ap length q,
                      length-append (prefixes vecs t) (p ∷ []),
                      len-prefixes u,
                      len-prefixes t,
                      h.total_ok,
                    );
                  },
                  refl,
                )
        ]
      ]

  pub cancel_refines :
      (s : Subscriptions) (t : SubTable vecs) (p : Bytes)
      → Holds s t
      → Holds (remove s p) (cancel vecs t p)
  unfolding remove
  cancel_refines s t p h = elim (Bool-cases (s.times p == 0)) [
    | inl none' ↦ rw none' (record {
      times_ok =
          λ q. ground (arith, count-cancel vecs t p q, h.times_ok q, h.times_ok p, equal_iff p q);
      total_ok = ground (arith, len-cancel vecs t p, h.times_ok p, h.total_ok);
    })
    | inr some' ↦ rw some' (record {
      times_ok = λ q. ground (arith, count-cancel vecs t p q, h.times_ok q);
      total_ok = ground (arith, len-cancel vecs t p, h.times_ok p, h.total_ok);
    })
  ]

  run-Holds :
      (rs : List Request) (s : Subscriptions) (t : SubTable vecs)
      → Holds s t
      → Holds (specified max_entries max_len s rs) (run t rs)
  unfolding specified run
  run-Holds [] s t h = h
  run-Holds (subscribing p ∷ rs) s t h = run-Holds rs _ _ (subscribe_refines s t p h).0
  run-Holds (cancelling p ∷ rs) s t h = run-Holds rs _ _ (cancel_refines s t p h)

  -- After any requests, from the empty table on: every prefix is stored as often as the specification
  -- counts it, the length is the number of subscriptions, and a topic matches exactly if some counted
  -- prefix begins it. The order that `swap_remove` leaves is not seen.
  pub run_refines :
      (rs : List Request)
      → let s = specified max_entries max_len no_subscriptions rs in
        let t = run (new vecs) rs in
        Holds s t
        × ((topic : Bytes)
            → (matches vecs t topic ≡ true)
              ↔ ((p : Bytes) × (rest : Bytes) × (0 < s.times p) × (topic ≡ p ++ rest)))
  run_refines rs =
      let s = specified max_entries max_len no_subscriptions rs in
      let t = run (new vecs) rs in
      let h : Holds s t = run-Holds rs no_subscriptions (new vecs) new-Holds in
      (
        h,
        λ topic. (
          λ m.
              let (p, rest, c, e) = (matches_iff vecs t topic).0 m in
              (p, rest, rw (h.times_ok p) at c, e),
          λ (p, rest, c, e). (matches_iff vecs t topic).1 (p, rest, rw (h.times_ok p) c, e),
        ),
      )
