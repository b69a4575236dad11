-- ===== src/Tests/Tables.antt =====
-- Tables of two entries of at most four bytes.
use mzmq_rs.Prelude.{◌<◌, ◌≡◌, ◌↔◌, true, List, [], ◌∷◌, ◌++◌, Bytes}
use mzmq_rs.SubTable.{new, matches}
use mzmq_rs.SubTable.Refine.{
  Request, subscribing, cancelling, no_subscriptions, specified, run, Holds, run_refines,
}
use mzmq_rs.GroupTable
use mzmq_rs.GroupTable.Refine.{group_run_refines}
use mzmq_rs.GroupTable.Refine
use mzmq_rs.Tests.Vecs.{small_vecs}

-- The third does not fit, and the fourth cancels one of two.
abbrev requests : List Request
requests =
    subscribing (1 ∷ []) ∷ subscribing (1 ∷ []) ∷ subscribing (2 ∷ []) ∷ cancelling (1 ∷ []) ∷ []

run_refines_example :
    let s = specified 2 4 no_subscriptions requests in
    let t = run small_vecs (new small_vecs) requests in
    Holds small_vecs s t
    × ((topic : Bytes)
        → (matches small_vecs t topic ≡ true)
          ↔ ((p : Bytes) × (rest : Bytes) × (0 < s.times p) × (topic ≡ p ++ rest)))
run_refines_example = run_refines small_vecs requests

abbrev memberships : List Refine.Request
memberships = Refine.joining (1 ∷ []) ∷ Refine.joining (1 ∷ []) ∷ Refine.leaving (1 ∷ []) ∷ []

group_run_refines_example :
    let s = Refine.specified 2 4 Refine.no_groups memberships in
    let t = Refine.run small_vecs (GroupTable.new small_vecs) memberships in
    Refine.Holds small_vecs s t
    × ((group : Bytes) → GroupTable.matches small_vecs t group ≡ s.joined group)
group_run_refines_example = group_run_refines small_vecs memberships
