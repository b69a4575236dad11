-- ===== src/Frame.antt =====
-- src/frame.rs: the encoders of a frame header and the streaming decoder.
-- A function that writes to `buf: &mut [u8]` returns the new contents beside its result; on an
-- error or a panic the source has written nothing yet.
pub mod Decoder
pub mod Encode
use mzmq_rs.Prelude.{
  ℕ, ◌+◌, ◌%◌, Bool, true, false, List, [], ◌∷◌, bit_or, leb, ltb, if◌then◌else◌, length, Bytes,
  as_u8, to_be_bytes_u64, Result, ok, err, ◌>>=◌, copy_at,
}

abbrev pub max_frame_header : ℕ
max_frame_header = 9

pub data FrameError : Type 0 where
  buffer_too_small reserved_flag_bits : FrameError

-- `u8::from(bool)`
abbrev pub from_bool : Bool → ℕ
from_bool true = 1
from_bool false = 0

-- `body_len as u64` is the identity: a `usize` has at most 64 bits.
pub encode_message_frame : Bytes → ℕ → Bool → Result FrameError (ℕ × Bytes)
encode_message_frame buf body_len more =
    let more_bit = from_bool more in
    if leb body_len 255
    then (if ltb (length buf) 2
        then err buffer_too_small
        else do buf' ← copy_at buf 0 (more_bit ∷ as_u8 body_len ∷ []); ok (2, buf'))
    else if ltb (length buf) 9
    then err buffer_too_small
    else do
      buf' ← copy_at buf 0 (bit_or 0x02 more_bit ∷ [])
      buf'' ← copy_at buf' 1 (to_be_bytes_u64 body_len)
      ok (9, buf'')

pub encode_command_frame : Bytes → ℕ → Result FrameError (ℕ × Bytes)
encode_command_frame buf body_len =
    if leb body_len 255
    then (if ltb (length buf) 2
        then err buffer_too_small
        else do buf' ← copy_at buf 0 (0x04 ∷ as_u8 body_len ∷ []); ok (2, buf'))
    else if ltb (length buf) 9
    then err buffer_too_small
    else do
      buf' ← copy_at buf 0 (0x06 ∷ [])
      buf'' ← copy_at buf' 1 (to_be_bytes_u64 body_len)
      ok (9, buf'')
