-- ===== src/Prelude/Bags.antt =====
-- Lists of byte strings up to order: how often each string stands in one.
use Prim.Native.Nat.{ℕ, zero, suc, ◌+◌, ◌<◌}
use mathlib.Core.Path.{◌≡◌, refl, ap, ◌∙◌}
use mathlib.Core.Logic.{inl, inr, ∥∥₁_elim}
use mathlib.Core.Bool.{Bool, true, false, ◌||◌}
use mathlib.Core.Option.{Option, none, some}
use mathlib.Core.List.{List, [], ◌∷◌, ◌++◌, map, Perm, Permᴰ}
use native.Mathlib.Nat.{ℕ_set}
use native.Mathlib.Omega.{arith}
use mzmq_rs.Prelude.Tests.{if◌then◌else◌, Bool-cases}
use mzmq_rs.Prelude.Lists.{get_elem?, length}
use mzmq_rs.Prelude.Words.{Bytes}
use mzmq_rs.Prelude.Slices.{equal, equal_iff}

-- `iter().position(test)` and `iter().any(test)`
module _ {ℓ} {A : Type ℓ} (test : A → Bool) where
  unfoldable pub position : List A → Option ℕ
  position [] = none
  position (x ∷ xs) =
      let rest = position xs in
      if test x then some 0 else elim rest [ none ↦ none | some i ↦ some (suc i) ]

  unfoldable pub any : List A → Bool
  any [] = false
  any (x ∷ xs) = test x || any xs

  pub position-some :
      (xs : List A) (i : ℕ)
      → position xs ≡ some i
      → (x : A) × (get_elem? xs i ≡ some x) × (test x ≡ true)
  unfolding position
  position-some [] i h = cc
  position-some (x ∷ xs) zero h = (x, refl, ground arith)
  position-some (x ∷ xs) (suc i) h = position-some xs i (ground arith)

  pub any-position : (xs : List A) → position xs ≡ none → any xs ≡ false
  unfolding position any
  any-position [] h = refl
  any-position (x ∷ xs) h = ground (arith, any-position xs)

  pub position-any : (xs : List A) → any xs ≡ false → position xs ≡ none
  unfolding position any
  position-any [] h = refl
  position-any (x ∷ xs) h = ground (arith, position-any xs)

-- How often `p` stands in a list.
abbrev pub count : Bytes → List Bytes → ℕ
count p [] = 0
count p (x ∷ xs) = (if equal x p then 1 else 0) + count p xs

pub count-append : (p : Bytes) (xs ys : List Bytes) → count p (xs ++ ys) ≡ count p xs + count p ys
count-append p [] ys = omega arith
count-append p (x ∷ xs) ys = omega (arith, count-append p xs ys)

pub any-count :
    (test : Bytes → Bool) (xs : List Bytes)
    → any test xs ≡ true
    → (p : Bytes) × (test p ≡ true) × (0 < count p xs)
unfolding any
any-count test [] h = cc
any-count test (x ∷ xs) h = elim (Bool-cases (test x)) [
  | inl yes' ↦ (x, yes', ground (arith, equal_iff x x))
  | inr no' ↦ let (p, t, c) = any-count test xs (ground arith) in (p, t, omega arith)
]

pub count-any :
    (test : Bytes → Bool) (p : Bytes) (xs : List Bytes)
    → test p ≡ true
    → 0 < count p xs
    → any test xs ≡ true
unfolding any
count-any test p [] t h = absurd (omega arith)
count-any test p (x ∷ xs) t h = ground (arith, equal_iff x p, count-any test p xs t)

-- Whether some string passes the test depends on the counts alone.
pub any-cong :
    (test : Bytes → Bool) (xs ys : List Bytes)
    → ((p : Bytes) → count p xs ≡ count p ys)
    → any test xs ≡ any test ys
any-cong test xs ys same = elim (Bool-cases (any test xs)) [
  | inl yes' ↦
      let (p, t, c) = any-count test xs yes' in
      cc (yes', count-any test p ys t (omega (arith, same p)))
  | inr no' ↦ elim (Bool-cases (any test ys)) [
    | inl yes' ↦
        let (p, t, c) = any-count test ys yes' in
        cc (yes', count-any test p xs t (omega (arith, same p)))
    | inr no'' ↦ cc
  ]
]

module _ {A : Type 0} (view : A → Bytes) (p : Bytes) where
  count-permᴰ : {xs ys : List A} → Permᴰ xs ys → count p (map view xs) ≡ count p (map view ys)
  count-permᴰ Permᴰ.nil = refl
  count-permᴰ (Permᴰ.cons e d) = cc (e, count-permᴰ d)
  count-permᴰ (Permᴰ.swap {a} {b} {a'} {b'} {l} e f) = rw (e, f) (omega arith)
  count-permᴰ (Permᴰ.trans d e) = count-permᴰ d ∙ count-permᴰ e

  pub count-perm : {xs ys : List A} → Perm xs ys → count p (map view xs) ≡ count p (map view ys)
  count-perm d = ∥∥₁_elim d (ℕ_set _ _) count-permᴰ

module _ {A : Type 0} where
  length-permᴰ : {xs ys : List A} → Permᴰ xs ys → length xs ≡ length ys
  length-permᴰ Permᴰ.nil = refl
  length-permᴰ (Permᴰ.cons e d) = ap suc (length-permᴰ d)
  length-permᴰ (Permᴰ.swap e f) = refl
  length-permᴰ (Permᴰ.trans d e) = length-permᴰ d ∙ length-permᴰ e

  pub length-perm : {xs ys : List A} → Perm xs ys → length xs ≡ length ys
  length-perm d = ∥∥₁_elim d (ℕ_set _ _) length-permᴰ

module _ {A : Type 0} (view : A → Bytes) where
  pub map-append_one : (xs : List A) (x : A) → map view (xs ++ x ∷ []) ≡ map view xs ++ view x ∷ []
  map-append_one [] x = refl
  map-append_one (y ∷ xs) x = ap (◌∷◌ (view y)) (map-append_one xs x)

  pub length-map : (xs : List A) → length (map view xs) ≡ length xs
  length-map [] = refl
  length-map (x ∷ xs) = ap suc (length-map xs)

  pub any-map :
      (test : Bytes → Bool) (xs : List A) → any (λ x. test (view x)) xs ≡ any test (map view xs)
  unfolding any
  any-map test [] = refl
  any-map test (x ∷ xs) = rw (any-map test xs)

  -- One less of an element that is at the front up to order.
  pub count-perm_cons :
      (p : Bytes) (x : A) (xs ys : List A)
      → Perm xs (x ∷ ys)
      → count p (map view xs) ≡ (if equal (view x) p then 1 else 0) + count p (map view ys)
  count-perm_cons p x xs ys d = count-perm view p d

pub count-any-equal :
    (p : Bytes) (xs : List Bytes) → any (λ x. equal x p) xs ≡ false → count p xs ≡ 0
unfolding any
count-any-equal p [] h = refl
count-any-equal p (x ∷ xs) h = ground (arith, count-any-equal p xs)

pub any-equal-count :
    (p : Bytes) (xs : List Bytes) → any (λ x. equal x p) xs ≡ true → 0 < count p xs
unfolding any
any-equal-count p [] h = cc
any-equal-count p (x ∷ xs) h = ground (arith, any-equal-count p xs)
