-- ===== src/Greeting/Fields.antt =====
-- Which greetings are accepted, and what the early check of the first 11 bytes decides.
use mzmq_rs.Prelude.{
  ℕ, zero, suc, ◌≤◌, ◌≡◌, ◌↔◌, ◌⊎◌, refl, false, [], ◌∷◌, get_or, take, All, Bytes, equal_iff, any,
  NoPanic, ok, err, arith,
}
use mzmq_rs.Greeting.{
  greeting_partial_len, PeerGreeting, GreetingError, invalid_signature, unsupported_version_major,
  null_name, plain_name, parse_partial_greeting, parse_greeting, parse_plain_greeting, any_nonzero,
  field,
}

-- The bytes 0, 9 and 10 of RFC 23: the ends of the signature and the major version.
abbrev pub HasSignature : Bytes → Type 0
HasSignature buf = (get_or buf 0 0 ≡ 0xff) × (get_or buf 9 0 ≡ 0x7f) × (get_or buf 10 0 ≡ 0x03)

abbrev pub IsZero : ℕ → Type 0
IsZero b = b ≡ 0

any_nonzero_iff : (b : Bytes) → (any_nonzero b ≡ false) ↔ All IsZero b
unfolding any_nonzero any
any_nonzero_iff [] = ((λ e. tt), λ h. refl)
any_nonzero_iff (x ∷ b) = ground (arith, any_nonzero_iff b)

-- `parse_greeting` accepts a greeting exactly if the signature and the major version are right, the
-- mechanism field is "NULL" filled up with zeros and the as-server byte is zero, and then reports the
-- minor version, whatever stands elsewhere.
pub parse_greeting_iff :
    (buf : Bytes) (g : PeerGreeting)
    → (parse_greeting buf ≡ ok g) ↔ (
        HasSignature buf
        × (field buf 12 16 ≡ null_name)
        × All IsZero (field buf 16 32)
        × (get_or buf 32 0 ≡ 0)
        × (g ≡ record { version_minor = get_or buf 11 0 }))
unfolding parse_greeting
parse_greeting_iff buf g =
    ground (arith, equal_iff (field buf 12 16) null_name, any_nonzero_iff (field buf 16 32))

-- `parse_plain_greeting` accepts a greeting exactly if the signature and the major version are
-- right, the mechanism field is "PLAIN" filled up with zeros and the as-server byte is zero, and
-- then reports the minor version, whatever stands elsewhere.
pub parse_plain_greeting_iff :
    (buf : Bytes) (g : PeerGreeting)
    → (parse_plain_greeting buf ≡ ok g) ↔ (
        HasSignature buf
        × (field buf 12 17 ≡ plain_name)
        × All IsZero (field buf 17 32)
        × (get_or buf 32 0 ≡ 0)
        × (g ≡ record { version_minor = get_or buf 11 0 }))
unfolding parse_plain_greeting
parse_plain_greeting_iff buf g =
    ground (arith, equal_iff (field buf 12 17) plain_name, any_nonzero_iff (field buf 17 32))

get_or-take : (n i : ℕ) (b : Bytes) → suc i ≤ n → get_or (take n b) i 0 ≡ get_or b i 0
get_or-take zero i b h = absurd (omega arith)
get_or-take (suc n) i [] h = refl
get_or-take (suc n) zero (x ∷ b) h = refl
get_or-take (suc n) (suc i) (x ∷ b) h = get_or-take n i b (omega arith)

-- The errors that the first 11 bytes decide.
abbrev pub OfFirstBytes : GreetingError → Type 0
OfFirstBytes e = (e ≡ invalid_signature) ⊎ (e ≡ unsupported_version_major)

-- The early check accepts the first 11 bytes exactly if the signature and the major version are right,
-- and fails exactly if either parser fails on the whole greeting, however it goes on, with a signature
-- or a version error, which is then the error of all three.
pub parse_partial_greeting_early :
    (buf : Bytes)
    → let early = parse_partial_greeting (take greeting_partial_len buf) in
      ((early ≡ ok tt) ↔ HasSignature buf)
      × ((e : GreetingError) → (early ≡ err e) ↔ ((parse_greeting buf ≡ err e) × OfFirstBytes e))
      × ((e : GreetingError)
          → (early ≡ err e) ↔ ((parse_plain_greeting buf ≡ err e) × OfFirstBytes e))
unfolding parse_partial_greeting parse_greeting parse_plain_greeting
parse_partial_greeting_early buf =
    let at0 = get_or-take 11 0 buf (omega arith) in
    let at9 = get_or-take 11 9 buf (omega arith) in
    let at10 = get_or-take 11 10 buf (omega arith) in
    (ground arith, λ e. ground arith, λ e. ground arith)

-- The parsers index a 64-byte array: no input makes them panic.
pub parse_partial_greeting-NoPanic : (b : Bytes) → NoPanic (parse_partial_greeting b)
unfolding parse_partial_greeting
parse_partial_greeting-NoPanic b = ground arith

pub parse_greeting-NoPanic : (b : Bytes) → NoPanic (parse_greeting b)
unfolding parse_greeting
parse_greeting-NoPanic b = ground arith

pub parse_plain_greeting-NoPanic : (b : Bytes) → NoPanic (parse_plain_greeting b)
unfolding parse_plain_greeting
parse_plain_greeting-NoPanic b = ground arith
