-- ===== src/Null.antt =====
-- src/null.rs: the READY and ERROR commands of the NULL mechanism.
pub mod Metadata
pub mod Bounds
pub mod Wrap
pub mod Reply
use mzmq_rs.Prelude.{
  ℕ, zero, suc, ◌+◌, ◌%◌, Bool, true, false, not, ◌&&◌, [], ◌∷◌, map, bit_and, ltb, leb, ◌==◌,
  if◌then◌else◌, length, index, Bytes, as_u8, from_be_bytes, slice, copy_at, equal, Result, ok, err,
  panic, ◌>>=◌, ◌>>◌, guard,
}

abbrev pub ready_len : ℕ
ready_len = 27

-- The bytes of the READY frame: flags, body size, name, property name and its value "PUB".
abbrev pub ready_frame : Bytes
ready_frame =
    0x04 ∷ 0x19 ∷ 0x05 ∷ 0x52 ∷ 0x45 ∷ 0x41 ∷ 0x44 ∷ 0x59 ∷ 0x0b ∷ 0x53 ∷ 0x6f ∷ 0x63 ∷ 0x6b ∷ 0x65
    ∷ 0x74 ∷ 0x2d ∷ 0x54 ∷ 0x79 ∷ 0x70 ∷ 0x65 ∷ 0x00 ∷ 0x00 ∷ 0x00 ∷ 0x03 ∷ 0x50 ∷ 0x55 ∷ 0x42 ∷ []

abbrev pub radio_ready_len : ℕ
radio_ready_len = 29

abbrev pub radio_ready_frame : Bytes
radio_ready_frame =
    0x04 ∷ 0x1b ∷ 0x05 ∷ 0x52 ∷ 0x45 ∷ 0x41 ∷ 0x44 ∷ 0x59 ∷ 0x0b ∷ 0x53 ∷ 0x6f ∷ 0x63 ∷ 0x6b ∷ 0x65
    ∷ 0x74 ∷ 0x2d ∷ 0x54 ∷ 0x79 ∷ 0x70 ∷ 0x65 ∷ 0x00 ∷ 0x00 ∷ 0x00 ∷ 0x05 ∷ 0x52 ∷ 0x41 ∷ 0x44
    ∷ 0x49 ∷ 0x4f ∷ []

pub data PeerSocketType : Type 0 where
  sub xsub dish : PeerSocketType

pub data NullError : Type 0 where
  buffer_too_small not_a_command unknown_command peer_error : NullError
  wrong_socket_type malformed_metadata reason_too_long : NullError

-- The byte strings of the source: b"READY", b"ERROR", b"SUB", b"XSUB", b"DISH", b"Socket-Type".
abbrev pub ready_name : Bytes
ready_name = b'R' ∷ b'E' ∷ b'A' ∷ b'D' ∷ b'Y' ∷ []

abbrev pub error_name : Bytes
error_name = b'E' ∷ b'R' ∷ b'R' ∷ b'O' ∷ b'R' ∷ []

abbrev pub sub_name : Bytes
sub_name = b'S' ∷ b'U' ∷ b'B' ∷ []

abbrev pub xsub_name : Bytes
xsub_name = b'X' ∷ b'S' ∷ b'U' ∷ b'B' ∷ []

abbrev pub dish_name : Bytes
dish_name = b'D' ∷ b'I' ∷ b'S' ∷ b'H' ∷ []

abbrev pub socket_type : Bytes
socket_type = b'S' ∷ b'o' ∷ b'c' ∷ b'k' ∷ b'e' ∷ b't' ∷ b'-' ∷ b'T' ∷ b'y' ∷ b'p' ∷ b'e' ∷ []

pub encode_ready : Bytes → Result NullError (ℕ × Bytes)
encode_ready buf =
    if ltb (length buf) ready_len
    then err buffer_too_small
    else do buf' ← copy_at buf 0 ready_frame; ok (ready_len, buf')

pub encode_ready_radio : Bytes → Result NullError (ℕ × Bytes)
encode_ready_radio buf =
    if ltb (length buf) radio_ready_len
    then err buffer_too_small
    else do buf' ← copy_at buf 0 radio_ready_frame; ok (radio_ready_len, buf')

-- `u8::to_ascii_lowercase`
pub to_ascii_lowercase : ℕ → ℕ
to_ascii_lowercase b = if leb b'A' b && leb b b'Z' then b + 32 else b

-- `eq_ignore_ascii_case`
unfoldable pub eq_ignore_ascii_case : Bytes → Bytes → Bool
unfolding to_ascii_lowercase equal
eq_ignore_ascii_case a b = equal (map to_ascii_lowercase a) (map to_ascii_lowercase b)

-- What a round of the metadata loop has read before the value: the name's length and the name, the
-- value's length, and `pos` behind that.
pub record PropHeader : Type 0 where
  pub prop_name_len : ℕ
  pub prop_name : Bytes
  pub val_len : ℕ
  pub pos : ℕ

pub read_prop_header : Bytes → ℕ → Result NullError PropHeader
read_prop_header body pos = do
  prop_name_len ← index body pos
  let pos₁ = pos + 1
  let pos₂ = pos₁ + prop_name_len
  if ltb (length body) pos₂ then err malformed_metadata else do
    prop_name ← slice body pos₁ pos₂
    guard (leb (pos₂ + 4) (length body)) malformed_metadata
    size ← slice body pos₂ (pos₂ + 4)
    ok (record {
      prop_name_len = prop_name_len;
      prop_name = prop_name;
      val_len = from_be_bytes size;
      pos = pos₂ + 4;
    })

-- `usize` is the number of values of the type. Of the sums on `pos` only the one with `val_len` can
-- pass it, since the others stay near the length of a slice. It wraps around here, as in a build
-- without overflow checks; with them it panics.
module _ (usize : ℕ) where
  -- The value, and `pos` behind it.
  pub read_prop_value : Bytes → PropHeader → Result NullError (Bytes × ℕ)
  read_prop_value body h =
      let pos' = (h.pos + h.val_len) % usize in
      if ltb (length body) pos'
      then err malformed_metadata
      else do val ← slice body h.pos pos'; ok (val, pos')

  -- The `while` over the metadata from `pos` on. A round that ends moves `pos` on by five at least,
  -- so the length of the body is fuel enough.
  unfoldable pub find_socket_type : ℕ → Bytes → ℕ → Result NullError Bytes
  unfolding read_prop_header read_prop_value
  find_socket_type zero body pos = panic
  find_socket_type (suc fuel) body pos = if leb (length body) pos then err wrong_socket_type else do
    h ← read_prop_header body pos
    (val, pos') ← read_prop_value body h
    let next = find_socket_type fuel body pos'
    if h.prop_name_len == 11 && eq_ignore_ascii_case h.prop_name socket_type then ok val else next

  pub parse_ready_command : Bool → Bytes → Result NullError Bytes
  unfolding find_socket_type
  parse_ready_command false body = err not_a_command
  parse_ready_command true [] = err malformed_metadata
  parse_ready_command true (name_len ∷ rest) =
      let body = name_len ∷ rest in
      if ltb (length body) (1 + name_len) then err malformed_metadata else do
        name ← slice body 1 (1 + name_len)
        if equal name error_name
            then err peer_error
            else if not (equal name ready_name)
            then err unknown_command
            else find_socket_type (length body) body (1 + name_len)

  pub parse_ready_from : Bool → Bytes → Result NullError PeerSocketType
  parse_ready_from is_command body = do
    val ← parse_ready_command is_command body
    if equal val sub_name
        then ok sub
        else if equal val xsub_name
        then ok xsub
        else err wrong_socket_type

  pub parse_ready_radio_from : Bool → Bytes → Result NullError PeerSocketType
  parse_ready_radio_from is_command body = do
    val ← parse_ready_command is_command body
    if equal val dish_name then ok dish else err wrong_socket_type

  pub parse_ready : Bytes → Result NullError PeerSocketType
  parse_ready buf = if ltb (length buf) 3 then err malformed_metadata else do
    flags ← index buf 0
    let is_command = not (bit_and flags 0x04 == 0)
    body_size ← index buf 1
    if ltb (length buf) (2 + body_size)
        then err malformed_metadata
        else do body ← slice buf 2 (2 + body_size); parse_ready_from is_command body

  pub parse_ready_radio : Bytes → Result NullError PeerSocketType
  parse_ready_radio buf = if ltb (length buf) 3 then err malformed_metadata else do
    flags ← index buf 0
    let is_command = not (bit_and flags 0x04 == 0)
    body_size ← index buf 1
    if ltb (length buf) (2 + body_size)
        then err malformed_metadata
        else do body ← slice buf 2 (2 + body_size); parse_ready_radio_from is_command body

pub encode_error : Bytes → Bytes → Result NullError (ℕ × Bytes)
encode_error buf reason =
    let body_size = 1 + 5 + 1 + length reason in
    let total = 2 + body_size in
    if ltb 255 body_size
    then err reason_too_long
    else if ltb (length buf) total
    then err buffer_too_small
    else do
      buf₁ ← copy_at buf 0 (0x04 ∷ as_u8 body_size ∷ 0x05 ∷ [])
      buf₂ ← copy_at buf₁ 3 error_name
      buf₃ ← copy_at buf₂ 8 (as_u8 (length reason) ∷ [])
      buf₄ ← copy_at buf₃ 9 reason
      ok (total, buf₄)
