-- ===== src/Prelude/Slices.antt =====
-- Byte slices: ranges, `copy_from_slice`, `==`, `starts_with`.
use Prim.Native.Nat.{ℕ, zero, suc, ◌+◌, ◌-◌, ◌≤◌, ◌<◌}
use mathlib.Core.Path.{◌≡◌, refl, sym, ap, ◌∙◌}
use mathlib.Core.Logic.{◌↔◌}
use mathlib.Core.Bool.{Bool, true, false, ◌&&◌}
use mathlib.Core.List.{[], ◌∷◌, ◌++◌, append_assoc}
use native.Mathlib.Omega.{arith}
use mzmq_rs.Prelude.Tests.{leb, ◌==◌, if◌then◌else◌, le→leb}
use mzmq_rs.Prelude.Lists.{
  length, get_or, take, drop, length-append, length-take, length-drop, take-append, drop-append,
  drop-append_add, drop-drop, take-append_add,
}
use mzmq_rs.Prelude.Results.{Result, ok, panic}
use mzmq_rs.Prelude.Words.{Bytes}

-- `a == b` on slices
unfoldable pub equal : Bytes → Bytes → Bool
equal [] [] = true
equal (x ∷ xs) (y ∷ ys) = x == y && equal xs ys
equal _ _ = false

-- `a.starts_with(b)`
unfoldable pub starts_with : Bytes → Bytes → Bool
starts_with xs [] = true
starts_with [] (y ∷ ys) = false
starts_with (x ∷ xs) (y ∷ ys) = x == y && starts_with xs ys

-- `&a[i..j]`: a range that is reversed or ends past the slice panics.
unfoldable pub slice {ℓ} : {E : Type ℓ} → Bytes → ℕ → ℕ → Result E Bytes
slice a i j = if leb i j && leb j (length a) then ok (take (j - i) (drop i a)) else panic

-- `a[i]`, which panics out of bounds.
unfoldable pub index {ℓ} : {E : Type ℓ} → Bytes → ℕ → Result E ℕ
index [] i = panic
index (x ∷ a) zero = ok x
index (x ∷ a) (suc i) = index a i

-- The contents after `a[i..i + b.len()].copy_from_slice(b)`, in bounds.
abbrev pub overwrite : Bytes → ℕ → Bytes → Bytes
overwrite a i b = take i a ++ (b ++ drop (i + length b) a)

-- `a[i..i + b.len()].copy_from_slice(b)` gives the new contents, and panics out of bounds.
unfoldable pub copy_at {ℓ} : {E : Type ℓ} → Bytes → ℕ → Bytes → Result E Bytes
copy_at a i b = if leb (i + length b) (length a) then ok (overwrite a i b) else panic

pub equal_refl : (a : Bytes) → equal a a ≡ true
unfolding equal
equal_refl [] = refl
equal_refl (x ∷ a) = ground (arith, equal_refl a)

-- Slices that compare as equal are.
equal→≡ : (b a : Bytes) → equal a b ≡ true → a ≡ b
unfolding equal
equal→≡ [] [] h = refl
equal→≡ [] (x ∷ a) h = cc
equal→≡ (y ∷ b) [] h = cc
equal→≡ (y ∷ b) (x ∷ a) h = let same = equal→≡ b a (ground (arith, h)) in ground (arith, h, same)

pub equal_iff : (a b : Bytes) → (equal a b ≡ true) ↔ (a ≡ b)
equal_iff a b = (equal→≡ b a, λ e. rw e (equal_refl b))

pub starts_with-append : (p t : Bytes) → starts_with (p ++ t) p ≡ true
unfolding starts_with
starts_with-append [] t = refl
starts_with-append (x ∷ p) t = ground (arith, starts_with-append p t)

pub starts_with→append : (t p : Bytes) → starts_with t p ≡ true → (s : Bytes) × (t ≡ p ++ s)
unfolding starts_with
starts_with→append t [] h = (t, refl)
starts_with→append [] (y ∷ p) h = cc
starts_with→append (x ∷ t) (y ∷ p) h =
    let (s, e) = starts_with→append t p (ground arith) in (s, ground arith)

module _ {ℓ} {E : Type ℓ} where
  pub slice_in :
      (a : Bytes) (i j : ℕ)
      → i ≤ j
      → j ≤ length a
      → slice {E = E} a i j ≡ ok (take (j - i) (drop i a))
  unfolding slice
  slice_in a i j h k = rw (le→leb i j h, le→leb j (length a) k)

  -- A range that covers the middle of three parts.
  pub slice-append :
      (a b c : Bytes) (i j : ℕ)
      → i ≡ length a
      → j ≡ length a + length b
      → slice {E = E} (a ++ (b ++ c)) i j ≡ ok b
  slice-append a b c i j e f =
      slice_in _ i j (omega arith) (omega (arith, length-append a (b ++ c), length-append b c))
      ∙ ap ok
          (ap (take (j - i)) (drop-append i a (b ++ c) e) ∙ take-append (j - i) b c (omega arith))

  pub slice_at :
      (s a b c : Bytes) (i j : ℕ)
      → s ≡ a ++ (b ++ c)
      → i ≡ length a
      → j ≡ length a + length b
      → slice {E = E} s i j ≡ ok b
  slice_at s a b c i j e h k = rw e (slice-append a b c i j h k)

  pub index_in : (a : Bytes) (i : ℕ) → i < length a → index {E = E} a i ≡ ok (get_or a i 0)
  unfolding index
  index_in [] i h = absurd (omega arith)
  index_in (x ∷ a) zero h = refl
  index_in (x ∷ a) (suc i) h = index_in a i (omega arith)

  pub index-append :
      (a : Bytes) (x : ℕ) (b : Bytes) (i : ℕ) → i ≡ length a → index {E = E} (a ++ x ∷ b) i ≡ ok x
  unfolding index
  index-append [] x b zero e = refl
  index-append [] x b (suc i) e = absurd (omega arith)
  index-append (y ∷ a) x b zero e = absurd (omega arith)
  index-append (y ∷ a) x b (suc i) e = index-append a x b i (omega arith)

  pub slice_reversed : (a : Bytes) (i j : ℕ) → j < i → slice {E = E} a i j ≡ panic
  unfolding slice
  slice_reversed a i j h = ground arith

  pub copy_at_in :
      (a : Bytes) (i : ℕ) (b : Bytes)
      → i + length b ≤ length a
      → copy_at {E = E} a i b ≡ ok (overwrite a i b)
  unfolding copy_at
  copy_at_in a i b h = ground arith

pub length-overwrite :
    (a : Bytes) (i : ℕ) (b : Bytes) → i + length b ≤ length a → length (overwrite a i b) ≡ length a
length-overwrite a i b h = omega (
  arith,
  length-append (take i a) (b ++ drop (i + length b) a),
  length-append b (drop (i + length b) a),
  length-take i a,
  length-drop (i + length b) a,
)

-- What stands before the end of the part written.
pub take-overwrite :
    (a : Bytes) (i : ℕ) (b : Bytes)
    → i + length b ≤ length a
    → take (i + length b) (overwrite a i b) ≡ take i a ++ b
take-overwrite a i b h =
    take-append_add i (length b) (take i a) (b ++ drop (i + length b) a)
      (omega (arith, length-take i a))
    ∙ ap (◌++◌ (take i a)) (take-append (length b) b _ refl)

pub drop-overwrite :
    (a : Bytes) (i : ℕ) (b : Bytes)
    → i + length b ≤ length a
    → drop (i + length b) (overwrite a i b) ≡ drop (i + length b) a
drop-overwrite a i b h =
    drop-append_add i (length b) (take i a) (b ++ drop (i + length b) a)
      (omega (arith, length-take i a))
    ∙ drop-append (length b) b _ refl

-- Two writes, one behind the other, are one write.
pub overwrite-overwrite :
    (a : Bytes) (i : ℕ) (b c : Bytes)
    → i + length b + length c ≤ length a
    → overwrite (overwrite a i b) (i + length b) c ≡ overwrite a i (b ++ c)
overwrite-overwrite a i b c h =
    ap (λ t. t ++ (c ++ drop (i + length b + length c) (overwrite a i b)))
      (take-overwrite a i b (omega arith))
    ∙ append_assoc (take i a) b _
    ∙ ap (λ t. take i a ++ (b ++ (c ++ t))) rest
    ∙ ap (◌++◌ (take i a)) (sym (append_assoc b c _))
  where
    rest : drop (i + length b + length c) (overwrite a i b) ≡ drop (i + length (b ++ c)) a
    rest =
        sym (drop-drop (length c) (i + length b) (overwrite a i b))
        ∙ ap (drop (length c)) (drop-overwrite a i b (omega arith))
        ∙ drop-drop (length c) (i + length b) a
        ∙ ap (λ k. drop k a) (omega (arith, length-append b c))

-- A copy right behind the part that the last one wrote.
pub copy_at_behind {ℓ} :
    {E : Type ℓ} (a : Bytes) (i : ℕ) (b c : Bytes) (j : ℕ)
    → j ≡ i + length b
    → i + length b + length c ≤ length a
    → copy_at {E = E} (overwrite a i b) j c ≡ ok (overwrite a i (b ++ c))
copy_at_behind {E} a i b c j e h = rw e (
    copy_at_in {E = E} (overwrite a i b) (i + length b) c
      (omega (arith, length-overwrite a i b (omega arith)))
    ∙ ap ok (overwrite-overwrite a i b c h))
