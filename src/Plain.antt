-- ===== src/Plain.antt =====
-- src/plain.rs: the HELLO and WELCOME commands of the PLAIN mechanism.
pub mod Hello
use mzmq_rs.Prelude.{
  ℕ, ◌+◌, Bool, true, false, not, [], ◌∷◌, leb, ltb, if◌then◌else◌, length, index, Bytes, slice,
  copy_at, equal, Result, ok, err, ◌>>=◌,
}
use mzmq_rs.Null.{error_name}

pub data PlainError : Type 0 where
  buffer_too_small not_a_command unknown_command malformed_hello : PlainError
  auth_failed peer_error : PlainError

abbrev pub welcome_len : ℕ
welcome_len = 10

abbrev pub welcome_frame : Bytes
welcome_frame = 0x04 ∷ 0x08 ∷ 0x07 ∷ b'W' ∷ b'E' ∷ b'L' ∷ b'C' ∷ b'O' ∷ b'M' ∷ b'E' ∷ []

-- b"HELLO"
abbrev pub hello_name : Bytes
hello_name = b'H' ∷ b'E' ∷ b'L' ∷ b'L' ∷ b'O' ∷ []

pub encode_welcome : Bytes → Result PlainError (ℕ × Bytes)
encode_welcome buf =
    if ltb (length buf) welcome_len
    then err buffer_too_small
    else do buf' ← copy_at buf 0 welcome_frame; ok (welcome_len, buf')

-- The part from `let mut pos = 1 + name_len` on.
pub parse_credentials : Bytes → ℕ → Result PlainError (Bytes × Bytes)
parse_credentials body pos = if leb (length body) pos then err malformed_hello else do
  username_len ← index body pos
  let pos₁ = pos + 1
  let pos₂ = pos₁ + username_len
  if ltb (length body) pos₂ then err malformed_hello else do
    username ← slice body pos₁ pos₂
    if leb (length body) pos₂ then err malformed_hello else do
      password_len ← index body pos₂
      let pos₃ = pos₂ + 1
      if ltb (length body) (pos₃ + password_len)
          then err malformed_hello
          else do password ← slice body pos₃ (pos₃ + password_len); ok (username, password)

pub parse_hello_from : Bool → Bytes → Result PlainError (Bytes × Bytes)
unfolding parse_credentials
parse_hello_from false body = err not_a_command
parse_hello_from true [] = err malformed_hello
parse_hello_from true (name_len ∷ rest) =
    let body = name_len ∷ rest in
    if ltb (length body) (1 + name_len) then err malformed_hello else do
      name ← slice body 1 (1 + name_len)
      if equal name error_name
          then err peer_error
          else if not (equal name hello_name)
          then err unknown_command
          else parse_credentials body (1 + name_len)
