-- ===== src/Prelude/Words.antt =====
-- Bytes and big-endian machine words.
use Prim.Native.Nat.{ℕ, ◌+◌, ◌*◌, ◌/◌, ◌%◌, ◌^◌, ◌<◌}
use mathlib.Core.Path.{◌≡◌}
use mathlib.Core.List.{List, [], ◌∷◌}
use native.Mathlib.Omega.{arith}

abbrev pub Bytes : Type 0
Bytes = List ℕ

abbrev pub IsByte : ℕ → Type 0
IsByte b = b < 256

-- `x as u8`
abbrev pub as_u8 : ℕ → ℕ
as_u8 x = x % 256

-- `u64::to_be_bytes`
abbrev pub to_be_bytes_u64 : ℕ → Bytes
to_be_bytes_u64 n =
    (n / 2 ^ 56 % 256)
    ∷ (n / 2 ^ 48 % 256)
    ∷ (n / 2 ^ 40 % 256)
    ∷ (n / 2 ^ 32 % 256)
    ∷ (n / 2 ^ 24 % 256)
    ∷ (n / 2 ^ 16 % 256)
    ∷ (n / 2 ^ 8 % 256)
    ∷ (n % 256)
    ∷ []

-- `u32::to_be_bytes`
abbrev pub to_be_bytes_u32 : ℕ → Bytes
to_be_bytes_u32 n = (n / 2 ^ 24 % 256) ∷ (n / 2 ^ 16 % 256) ∷ (n / 2 ^ 8 % 256) ∷ (n % 256) ∷ []

-- `u32::from_be_bytes` and `u64::from_be_bytes`, by the length of the list
abbrev pub be_value : ℕ → Bytes → ℕ
be_value acc [] = acc
be_value acc (b ∷ bs) = be_value (acc * 256 + b) bs

abbrev pub from_be_bytes : Bytes → ℕ
from_be_bytes = be_value 0

pub from_be_bytes-u64 : (n : ℕ) → n < 2 ^ 64 → from_be_bytes (to_be_bytes_u64 n) ≡ n
from_be_bytes-u64 n h = omega arith

pub from_be_bytes-u32 : (n : ℕ) → n < 2 ^ 32 → from_be_bytes (to_be_bytes_u32 n) ≡ n
from_be_bytes-u32 n h = omega arith
