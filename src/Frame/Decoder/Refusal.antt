-- ===== src/Frame/Decoder/Refusal.antt =====
-- The frames that the decoder refuses.
use mzmq_rs.Prelude.{
  ℕ, zero, suc, ◌+◌, ◌%◌, ◌^◌, ◌≤◌, ◌<◌, ◌≡◌, ◌↔◌, ◌⊎◌, refl, Bool, true, false, not, ◌&&◌, ◌||◌,
  [], ◌∷◌, ◌++◌, bit_and, leb, ◌==◌, if◌then◌else◌, replicate, Bytes, from_be_bytes,
  to_be_bytes_u64, from_be_bytes-u64, lt→ltb, err, arith,
}
use mzmq_rs.Frame.Decoder.{
  need_flags, need_size, poisoned, reserved_flag_bits, body_too_large, FrameDecoder, Size,
  read_size, finish_size, feed_size, feed_flags, dispatch, feed,
}
use mzmq_rs.Frame.Decoder.RoundTrip.{flags_of}

-- The tests of `State::NeedFlags` on the first byte.
refused : ℕ → Bool
refused flags =
    not (bit_and flags 0xf8 == 0)
    || (not (bit_and flags 0x04 == 0) && not (bit_and flags 0x01 == 0))

abbrev bad_flags : ℕ → Bool
bad_flags flags = leb 8 flags || (flags == 5 || flags == 7)

same : Bool → Bool → Bool
same a b = if a then b else not b

-- The bytes below `limit` on which the tests and the table agree: all of them, by evaluation.
agree_below : ℕ → Bool
agree_below zero = true
agree_below (suc flags) = agree_below flags && same (refused flags) (bad_flags flags)

agree-eq :
    (limit flags : ℕ) → flags < limit → agree_below limit ≡ true → refused flags ≡ bad_flags flags
unfolding agree_below same
agree-eq zero flags h e = absurd (omega arith)
agree-eq (suc limit) flags h e = ground (arith, e, agree-eq limit flags)

agree_on_bytes : agree_below 256 ≡ true
unfolding agree_below refused same
agree_on_bytes = refl

refused-bad_flags : (flags : ℕ) → flags < 256 → refused flags ≡ bad_flags flags
refused-bad_flags flags h = agree-eq 256 flags h agree_on_bytes

module _ (usize cap : ℕ) where
  -- A decoder that waits for a frame refuses the first byte, and is poisoned, exactly if it sets a
  -- reserved bit (a byte of 8 or more) or has MORE set on a command (5, or 7 for a long one).
  pub feed_flags_refuses :
      (d : FrameDecoder) (flags : ℕ)
      → d.state ≡ need_flags
      → flags < 256
      → (feed usize cap d (flags ∷ []) ≡ (record d { state = poisoned }, err reserved_flag_bits))
        ↔ ((8 ≤ flags) ⊎ ((flags ≡ 5) ⊎ (flags ≡ 7)))
  unfolding feed dispatch feed_flags feed_size refused
  feed_flags_refuses d flags s byte = ground (arith, refused-bad_flags flags byte)

  finish_size_refuses :
      (more is_command : Bool) (d : FrameDecoder) (s : Size)
      → cap < from_be_bytes s.size_buf % usize
      → finish_size usize cap more is_command true d s
        ≡ (record d { state = poisoned }, err body_too_large)
  unfolding finish_size
  finish_size_refuses more is_command d s large =
      rw (lt→ltb cap (from_be_bytes s.size_buf % usize) large) refl

  feed_size_refuses :
      (more is_command : Bool) (d : FrameDecoder) (n : ℕ) (rest : Bytes)
      → n < 2 ^ 64
      → cap < n % usize
      → feed_size usize cap more is_command true (replicate 8 0) 0 d (to_be_bytes_u64 n ++ rest) 1
        ≡ (record d { state = poisoned }, err body_too_large)
  unfolding feed_size read_size
  feed_size_refuses more is_command d n [] wide large =
      finish_size_refuses more is_command d _ (rw (from_be_bytes-u64 n wide) large)
  feed_size_refuses more is_command d n (b ∷ bs) wide large =
      finish_size_refuses more is_command d _ (rw (from_be_bytes-u64 n wide) large)

  -- Once the flags of a long frame are read.
  abbrev sizing : FrameDecoder → Bool → Bool → FrameDecoder
  sizing d more is_command = record d { state = need_size more is_command true (replicate 8 0) 0 }

  -- A decoder that waits for a frame refuses a long frame, and is poisoned, if the length that its
  -- eight size bytes stand for, modulo the values of `usize`, is over the capacity.
  pub feed_long_refuses :
      (d : FrameDecoder) (more is_command : Bool) (n : ℕ) (rest : Bytes)
      → d.state ≡ need_flags
      → n < 2 ^ 64
      → cap < n % usize
      → feed usize cap d ((flags_of more is_command + 2) ∷ to_be_bytes_u64 n ++ rest)
        ≡ (record d { state = poisoned }, err body_too_large)
  unfolding feed dispatch feed_flags
  feed_long_refuses d true true n rest s wide large =
      rw s (feed_size_refuses false true (sizing d false true) n rest wide large)
  feed_long_refuses d false true n rest s wide large =
      rw s (feed_size_refuses false true (sizing d false true) n rest wide large)
  feed_long_refuses d true false n rest s wide large =
      rw s (feed_size_refuses true false (sizing d true false) n rest wide large)
  feed_long_refuses d false false n rest s wide large =
      rw s (feed_size_refuses false false (sizing d false false) n rest wide large)
