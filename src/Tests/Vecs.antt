-- ===== src/Tests/Vecs.antt =====
-- `heapless::Vec` as a list that `push` and `extend_from_slice` keep within the capacity.
use mathlib.Core.Path.{subst}
use mathlib.Core.List.{Perm, perm_middle}
use mathlib.Core.List.Perm
use mzmq_rs.Prelude.{
  ℕ, zero, suc, ◌+◌, ◌^◌, ◌≡◌, refl, sym, ap, List, [], ◌∷◌, ◌++◌, none, some, ltb, leb, le→leb,
  lt→ltb, le→ltb, if◌then◌else◌, length, get_elem?, take, drop, arith,
}
use mzmq_rs.Heapless.{BoundedVec, TableVecs}
use mzmq_rs.Auth.{Config}

module _ {A : Type 0} where
  -- The last entry in front, where `swap_remove` puts it.
  end_first : List A → List A
  end_first [] = []
  end_first (x ∷ xs) = elim (end_first xs) [ [] ↦ x ∷ [] | z ∷ zs ↦ z ∷ x ∷ zs ]

  end_first-perm : (xs : List A) → Perm xs (end_first xs)
  unfolding end_first
  end_first-perm [] = Perm.nil
  end_first-perm (x ∷ xs) = go (end_first xs) (end_first-perm xs)
    where
      go :
          (ys : List A) → Perm xs ys → Perm (x ∷ xs) (elim ys [ [] ↦ x ∷ [] | z ∷ zs ↦ z ∷ x ∷ zs ])
      go [] p = Perm.cons x p
      go (z ∷ zs) p = Perm.trans (Perm.cons x p) (Perm.swap z x zs)

  pub remove : List A → ℕ → List A
  remove v i = take i v ++ end_first (drop (suc i) v)

  split_at :
      (v : List A) (i : ℕ) (x : A) → get_elem? v i ≡ some x → v ≡ take i v ++ x ∷ drop (suc i) v
  split_at [] i x e = cc
  split_at (y ∷ v) zero x e = ap (λ t. t ∷ v) (ground (arith, e))
  split_at (y ∷ v) (suc i) x e = ap (◌∷◌ y) (split_at v i x e)

  pub remove-perm : (v : List A) (i : ℕ) (x : A) → get_elem? v i ≡ some x → Perm v (x ∷ remove v i)
  unfolding remove
  remove-perm v i x e =
      subst (λ t. Perm t (x ∷ remove v i)) (sym (split_at v i x e))
        (Perm.trans (perm_middle (take i v) (drop (suc i) v))
          (Perm.cons x (Perm.append_left (take i v) (end_first-perm (drop (suc i) v)))))

  abbrev pub list_vec : (cap : ℕ) → BoundedVec A cap
  list_vec cap = record {
    Vec = List A;
    as_slice = λ v. v;
    new = [];
    push = λ v x. if ltb (length v) cap then some (v ++ x ∷ []) else none;
    extend_from_slice = λ v xs. if leb (length v + length xs) cap then some (v ++ xs) else none;
    swap_remove = remove;
    as_slice-new = refl;
    push_room = λ v x h. (v ++ x ∷ [], rw (lt→ltb (length v) cap h) refl, refl);
    push_full = λ v x h. rw (le→ltb (length v) cap h) refl;
    extend_room = λ v xs h. (v ++ xs, rw (le→leb (length v + length xs) cap h) refl, refl);
    swap_remove-perm = remove-perm;
  }

-- A table of two entries of at most four bytes, and a decoder for bodies of at most 64 bytes, on a
-- target of 64 bits.
abbrev pub small_vecs : TableVecs 2 4
small_vecs = record { bytes = list_vec 4; entries = list_vec 2 }

abbrev pub small : Config
small = record { usize = 2 ^ 64; max_entries = 2; max_len = 4; frame_cap = 64; vecs = small_vecs }
