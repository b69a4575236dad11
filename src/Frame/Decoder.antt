-- ===== src/Frame/Decoder.antt =====
-- `FrameDecoder` of src/frame.rs. Its `loop` goes through the states in the order flags, size, body
-- and never back within one call, so each arm is a function that enters the next one; each begins
-- with the loop's own test, `pos >= input.len()`. The input is what stands from `pos` on.
pub mod Inv
pub mod Content
pub mod Chunks
pub mod Stream
pub mod RoundTrip
pub mod Refusal
use mzmq_rs.Prelude.{
  ℕ, ◌+◌, ◌-◌, ◌%◌, min, Bool, not, ◌&&◌, [], ◌∷◌, Option, none, some, bit_and, ltb, ◌==◌,
  if◌then◌else◌, length, get_or, set, take, replicate, Bytes, from_be_bytes, Result, ok, err, panic,
  copy_at,
}

pub data DecodeError : Type 0 where
  reserved_flag_bits body_too_large truncated : DecodeError

pub record DecodedFrame : Type 0 where
  pub more : Bool
  pub is_command : Bool
  pub body : Bytes

pub data State : Type 0 where
  need_flags : State
  -- more, is_command, long, size_buf, size_pos
  need_size : Bool → Bool → Bool → Bytes → ℕ → State
  -- more, is_command, remaining
  need_body : Bool → Bool → ℕ → State
  poisoned : State

pub record FrameDecoder : Type 0 where
  pub state : State
  pub buf : Bytes
  pub buf_pos : ℕ

-- `FrameDecoder::new`; the capacity is the const parameter `CAP`.
unfoldable pub new : ℕ → FrameDecoder
new cap = record { state = need_flags; buf = replicate cap 0; buf_pos = 0 }

unfoldable pub reset : FrameDecoder → FrameDecoder
reset d = record d { state = need_flags; buf_pos = 0 }

-- The consumed count and, once complete, the frame.
abbrev pub Fed : Type 0
Fed = FrameDecoder × Result DecodeError (ℕ × Option DecodedFrame)

-- After the copy in `NeedBody`: `buf` holds the bytes copied.
pub finish_body : Bool → Bool → ℕ → ℕ → FrameDecoder → ℕ → Bytes → Fed
finish_body more is_command remaining to_copy d pos buf =
    let buf_pos = d.buf_pos + to_copy in
    if remaining - to_copy == 0
    then (
      record d { state = need_flags; buf = buf; buf_pos = 0 },
      ok (
        pos + to_copy,
        some (record { more = more; is_command = is_command; body = take buf_pos buf }),
      ),
    )
    else (
      record d {
        state = need_body more is_command (remaining - to_copy);
        buf = buf;
        buf_pos = buf_pos;
      },
      ok (pos + to_copy, none),
    )

-- `State::NeedBody`
pub feed_body : Bool → Bool → ℕ → FrameDecoder → Bytes → ℕ → Fed
feed_body more is_command remaining d [] pos = (d, ok (pos, none))
feed_body more is_command remaining d (b ∷ input) pos =
    let available = length (b ∷ input) in
    let to_copy = min available remaining in
    elim (copy_at {E = DecodeError} d.buf d.buf_pos (take to_copy (b ∷ input))) [
      | ok buf ↦ finish_body more is_command remaining to_copy d pos buf
      | err e ↦ (d, err e)
      | panic ↦ (d, panic)
    ]

-- The inner `while`: the size bytes so far, their number, the input left and `pos`.
pub record Size : Type 0 where
  pub size_buf : Bytes
  pub size_pos : ℕ
  pub input : Bytes
  pub pos : ℕ

pub read_size : ℕ → Bytes → ℕ → Bytes → ℕ → Size
read_size needed size_buf size_pos [] pos = record {
  size_buf = size_buf;
  size_pos = size_pos;
  input = [];
  pos = pos;
}
read_size needed size_buf size_pos (b ∷ input) pos =
    let rest = read_size needed (set size_buf size_pos b) (size_pos + 1) input (pos + 1) in
    if ltb size_pos needed
    then rest
    else record { size_buf = size_buf; size_pos = size_pos; input = b ∷ input; pos = pos }

-- `usize` is the number of values of the type, a power of two; `as usize` wraps around at it.
module _ (usize cap : ℕ) where
  -- All size bytes have arrived.
  pub finish_size : Bool → Bool → Bool → FrameDecoder → Size → Fed
  finish_size more is_command long d s =
      let body_len = if long then from_be_bytes s.size_buf % usize else get_or s.size_buf 0 0 in
      if ltb cap body_len
      then (record d { state = poisoned }, err body_too_large)
      else if body_len == 0
      then (
        record d { buf_pos = 0; state = need_flags },
        ok (s.pos, some (record { more = more; is_command = is_command; body = [] })),
      )
      else feed_body more is_command body_len
          (record d { buf_pos = 0; state = need_body more is_command body_len }) s.input s.pos

  -- `State::NeedSize`
  pub feed_size : Bool → Bool → Bool → Bytes → ℕ → FrameDecoder → Bytes → ℕ → Fed
  feed_size more is_command long size_buf size_pos d [] pos = (d, ok (pos, none))
  feed_size more is_command long size_buf size_pos d (b ∷ input) pos =
      let size_needed = if long then 8 else 1 in
      let s = read_size size_needed size_buf size_pos (b ∷ input) pos in
      if ltb s.size_pos size_needed
      then (
        record d { state = need_size more is_command long s.size_buf s.size_pos },
        ok (s.pos, none),
      )
      else finish_size more is_command long d s

  -- `State::NeedFlags`
  pub feed_flags : FrameDecoder → Bytes → ℕ → Fed
  feed_flags d [] pos = (d, ok (pos, none))
  feed_flags d (flags ∷ input) pos =
      if not (bit_and flags 0xf8 == 0)
      then (record d { state = poisoned }, err reserved_flag_bits)
      else (let more = not (bit_and flags 0x01 == 0) in
          let long = not (bit_and flags 0x02 == 0) in
          let is_command = not (bit_and flags 0x04 == 0) in
          if is_command && more
          then (record d { state = poisoned }, err reserved_flag_bits)
          else feed_size more is_command long (replicate 8 0) 0
              (record d { state = need_size more is_command long (replicate 8 0) 0 }) input
              (pos + 1))

  -- `State::Poisoned`
  pub feed_poisoned : FrameDecoder → Bytes → ℕ → Fed
  feed_poisoned d [] pos = (d, ok (pos, none))
  feed_poisoned d (b ∷ input) pos = (d, err reserved_flag_bits)

  -- The `match` of the loop.
  pub dispatch : State → FrameDecoder → Bytes → ℕ → Fed
  dispatch poisoned = feed_poisoned
  dispatch need_flags = feed_flags
  dispatch (need_size more is_command long size_buf size_pos) =
      feed_size more is_command long size_buf size_pos
  dispatch (need_body more is_command remaining) = feed_body more is_command remaining

  unfoldable pub feed : FrameDecoder → Bytes → Fed
  unfolding dispatch feed_poisoned feed_flags feed_size feed_body finish_size finish_body read_size
      copy_at
  feed d input = dispatch d.state d input 0
