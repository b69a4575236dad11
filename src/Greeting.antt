-- ===== src/Greeting.antt =====
-- src/greeting.rs: the 64-byte greeting. `[u8; 64]` is a list of 64 bytes, so an index below 64 is
-- in bounds and `get_or` reads it.
pub mod Fields
use mzmq_rs.Prelude.{
  ℕ, ◌+◌, ◌-◌, Bool, not, ◌||◌, [], ◌∷◌, ◌==◌, if◌then◌else◌, get_or, set, take, drop, replicate,
  Bytes, overwrite, equal, any, Result, ok, err,
}

abbrev pub greeting_len : ℕ
greeting_len = 64

abbrev sig0 : ℕ
sig0 = 0

abbrev sig9 : ℕ
sig9 = 9

abbrev version_major : ℕ
version_major = 10

abbrev version_minor : ℕ
version_minor = 11

abbrev mechanism : ℕ
mechanism = 12

abbrev as_server : ℕ
as_server = 32

abbrev pub greeting_partial_len : ℕ
greeting_partial_len = version_major + 1

pub record PeerGreeting : Type 0 where
  pub version_minor : ℕ

pub data GreetingError : Type 0 where
  invalid_signature unsupported_version_major : GreetingError
  unsupported_mechanism invalid_as_server : GreetingError

-- b"NULL" and b"PLAIN"
abbrev pub null_name : Bytes
null_name = b'N' ∷ b'U' ∷ b'L' ∷ b'L' ∷ []

abbrev pub plain_name : Bytes
plain_name = b'P' ∷ b'L' ∷ b'A' ∷ b'I' ∷ b'N' ∷ []

-- The fields that both greetings share.
abbrev signed_greeting : Bytes
signed_greeting =
    set (set (set (set (replicate greeting_len 0) sig0 0xff) sig9 0x7f) version_major 0x03)
      version_minor 0x01

unfoldable pub encode_greeting : Bytes
encode_greeting = overwrite signed_greeting mechanism null_name

unfoldable pub encode_plain_greeting : Bytes
encode_plain_greeting = set (overwrite signed_greeting mechanism plain_name) as_server 0x01

pub parse_partial_greeting : Bytes → Result GreetingError (Unit {0})
parse_partial_greeting buf =
    if not (get_or buf sig0 0 == 0xff) || not (get_or buf sig9 0 == 0x7f)
    then err invalid_signature
    else if not (get_or buf version_major 0 == 0x03)
    then err unsupported_version_major
    else ok tt

-- `buf[i..j]` of a 64-byte greeting.
abbrev field : Bytes → ℕ → ℕ → Bytes
field buf i j = take (j - i) (drop i buf)

-- `iter().any(|&b| b != 0)`
pub any_nonzero : Bytes → Bool
any_nonzero = any (λ b. not (b == 0))

pub parse_greeting : Bytes → Result GreetingError PeerGreeting
parse_greeting buf =
    if not (get_or buf sig0 0 == 0xff) || not (get_or buf sig9 0 == 0x7f)
    then err invalid_signature
    else if not (get_or buf version_major 0 == 0x03)
    then err unsupported_version_major
    else if not (equal (field buf mechanism (mechanism + 4)) null_name)
        || any_nonzero (field buf (mechanism + 4) (mechanism + 20))
    then err unsupported_mechanism
    else if not (get_or buf as_server 0 == 0x00)
    then err invalid_as_server
    else ok (record { version_minor = get_or buf version_minor 0 })

pub parse_plain_greeting : Bytes → Result GreetingError PeerGreeting
parse_plain_greeting buf =
    if not (get_or buf sig0 0 == 0xff) || not (get_or buf sig9 0 == 0x7f)
    then err invalid_signature
    else if not (get_or buf version_major 0 == 0x03)
    then err unsupported_version_major
    else if not (equal (field buf mechanism (mechanism + 5)) plain_name)
        || any_nonzero (field buf (mechanism + 5) (mechanism + 20))
    then err unsupported_mechanism
    else if not (get_or buf as_server 0 == 0x00)
    then err invalid_as_server
    else ok (record { version_minor = get_or buf version_minor 0 })
