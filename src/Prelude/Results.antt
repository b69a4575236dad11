-- ===== src/Prelude/Results.antt =====
-- `Result<A, E>` of the source, with a third value for a Rust panic: an index or a slice out of
-- bounds, or a failed `expect`. A loop on fuel also answers `panic` when the fuel runs out.
use mathlib.Core.Path.{◌≡◌, refl}
use Prim.Native.Nat.{ℕ, ◌≤◌}
use mathlib.Core.Bool.{Bool, true, false}
use mathlib.Core.List.{List}
use mzmq_rs.Prelude.Lists.{length}

pub data Result {ℓ κ} (E : Type ℓ) (A : Type κ) : Type (ℓ ⊔ κ) where
  ok : A → Result E A
  err : E → Result E A
  panic : Result E A

infixl 5 ◌>>=◌ ◌>>◌
abbrev pub ◌>>=◌ {ℓ κ μ} :
    {E : Type ℓ} {A : Type κ} {B : Type μ} → Result E A → (A → Result E B) → Result E B
ok a >>= f = f a
err e >>= f = err e
panic >>= f = panic

abbrev pub ◌>>◌ {ℓ κ μ} :
    {E : Type ℓ} {A : Type κ} {B : Type μ} → Result E A → Result E B → Result E B
m >> k = m >>= λ _. k

-- `if !test { return Err(e) }`
abbrev pub guard {ℓ} : {E : Type ℓ} → Bool → E → Result E (Unit {0})
guard true e = ok tt
guard false e = err e

-- `Result::map_err`
abbrev pub map_err {ℓ κ μ} :
    {E : Type ℓ} {F : Type κ} {A : Type μ} → (E → F) → Result E A → Result F A
map_err f (ok a) = ok a
map_err f (err e) = err (f e)
map_err f panic = panic

-- `let a = m?;` in a method: an error or a panic leaves the state `s`.
abbrev pub try {ℓ κ μ ν} :
    {S : Type ν} {E : Type ℓ} {A : Type κ} {B : Type μ}
    → S
    → Result E A
    → (A → S × Result E B)
    → S × Result E B
try s (ok a) f = f a
try s (err e) f = (s, err e)
try s panic f = (s, panic)

-- `let _ = self.table.method(..);`: an error is dropped, a panic is not.
abbrev pub ignore {ℓ κ μ ν} :
    {S : Type ν} {E : Type ℓ} {F : Type κ} {A : Type μ} → S × Result F A → Result E S
ignore (s, ok a) = ok s
ignore (s, err e) = ok s
ignore (s, panic) = panic

-- The run does not end in a Rust panic.
abbrev pub NoPanic {ℓ κ} : {E : Type ℓ} {A : Type κ} → Result E A → Type 0
NoPanic (ok a) = Unit
NoPanic (err e) = Unit
NoPanic panic = ⊥

pub ignore-NoPanic {ℓ κ μ ν} :
    {S : Type ν} {E : Type ℓ} {F : Type κ} {A : Type μ} (r : S × Result F A)
    → NoPanic r.1
    → ignore {E = E} r ≡ ok r.0
ignore-NoPanic (s, ok a) h = refl
ignore-NoPanic (s, err e) h = refl
ignore-NoPanic (s, panic) h = absurd h

pub map_err-NoPanic {ℓ κ μ} :
    {E : Type ℓ} {F : Type κ} {A : Type μ} (f : E → F) (m : Result E A)
    → NoPanic m
    → NoPanic (map_err f m)
map_err-NoPanic f (ok a) h = tt
map_err-NoPanic f (err e) h = tt
map_err-NoPanic f panic h = h

-- `self.method(..)?;` in a method: what follows has the new state.
abbrev pub next {ℓ κ μ ν} :
    {S : Type ν} {E : Type ℓ} {A : Type κ} {B : Type μ}
    → S × Result E A
    → (S → A → S × Result E B)
    → S × Result E B
next (s, ok a) f = f s a
next (s, err e) f = (s, err e)
next (s, panic) f = (s, panic)

-- The count that a writer returns is within its buffer; it has not panicked.
abbrev pub Fits {ℓ κ} : {E : Type ℓ} {A : Type κ} → Result E (ℕ × List A) → Type 0
Fits (ok (n, buf)) = n ≤ length buf
Fits (err e) = Unit
Fits panic = ⊥
