-- ===== src/Frame/Decoder/RoundTrip.antt =====
-- The decoder reads back what the encoders write.
use mzmq_rs.Prelude.{
  ℕ, ◌+◌, ◌%◌, ◌^◌, ◌≤◌, ◌<◌, ◌≡◌, refl, sym, ap, ◌∙◌, inl, inr, Bool-cases, not, ◌&&◌, Bool, true,
  false, [], ◌∷◌, ◌++◌, some, length, take, replicate, Bytes, from_be_bytes, from_be_bytes-u64,
  to_be_bytes_u64, get_or, overwrite, take-overwrite, take_all, leb, ltb, ◌==◌, if◌then◌else◌, ok,
  err, arith,
}
use native.Mathlib.Nat.{mod-eq_of_lt}
use mzmq_rs.Frame.{from_bool, encode_message_frame, encode_command_frame}
use mzmq_rs.Frame.Encode.{
  header_len, header, Encoded-ok, encode_message_frame_lem, encode_command_frame_lem,
}
use mzmq_rs.Frame.Decoder.{
  need_flags, need_body, poisoned, body_too_large, FrameDecoder, DecodedFrame, Fed, finish_body,
  feed_body, Size, read_size, finish_size, feed_size, feed_flags, dispatch, feed,
}
use mzmq_rs.Frame.Decoder.Stream.{feed-append}
use mzmq_rs.Frame.Decoder.Inv.{IsValid, feed-Outcome, copied, feed_body_copies}

-- What the flags byte of a header says: bit 0 is MORE, bit 2 is COMMAND.
abbrev pub flags_of : Bool → Bool → ℕ
flags_of more false = from_bool more
flags_of more true = 4

abbrev pub decoded : Bool → Bool → Bytes → DecodedFrame
decoded more is_command body = record { more = more; is_command = is_command; body = body }

finish_body_ends :
    (more is_command : Bool) (n : ℕ) (d : FrameDecoder) (pos : ℕ) (buf : Bytes)
    → (finish_body more is_command n n d pos buf).1
      ≡ ok (pos + n, some (decoded more is_command (take (d.buf_pos + n) buf)))
unfolding finish_body
finish_body_ends more is_command n d pos buf = ground arith

-- A body that is there as a whole is copied and handed out.
feed_body_whole :
    (more is_command : Bool) (d : FrameDecoder) (b : ℕ) (bs : Bytes) (pos : ℕ)
    → d.buf_pos ≡ 0
    → length (b ∷ bs) ≤ length d.buf
    → (feed_body more is_command (length (b ∷ bs)) d (b ∷ bs) pos).1
      ≡ ok (pos + length (b ∷ bs), some (decoded more is_command (b ∷ bs)))
feed_body_whole more is_command d b bs pos start fits =
    let n = length (b ∷ bs) in
    let written = λ (p k : ℕ). overwrite d.buf p (take k (b ∷ bs)) in
    let k : copied (b ∷ bs) n ≡ n = omega arith in
    ap (λ (r : Fed). r.1) (feed_body_copies more is_command n d b bs pos (omega arith))
    ∙ ap (λ (j : ℕ). (finish_body more is_command n j d pos (written d.buf_pos j)).1) k
    ∙ finish_body_ends more is_command n d pos (written d.buf_pos n)
    ∙ ap (λ t. ok (pos + n, some (decoded more is_command t)))
        (ap (λ (p : ℕ). take (p + n) (written p n)) start
          ∙ ap (λ t. take (0 + n) (overwrite d.buf 0 (b ∷ t)))
              (take_all (length bs) bs (omega arith))
          ∙ take-overwrite d.buf 0 (b ∷ bs) (omega arith))

module _ (usize cap : ℕ) where
  finish_size_whole :
      (more is_command long : Bool) (d : FrameDecoder) (s : Size)
      → length d.buf ≡ cap
      → length s.input ≤ cap
      → (if long then from_be_bytes s.size_buf % usize else get_or s.size_buf 0 0) ≡ length s.input
      → (finish_size usize cap more is_command long d s).1
        ≡ ok (s.pos + length s.input, some (decoded more is_command s.input))
  unfolding finish_size
  finish_size_whole more is_command long d s full fits e = rw e (go s.input fits)
    where
      go :
          (input : Bytes)
          → length input ≤ cap
          → (if ltb cap (length input)
              then (record d { state = poisoned }, err body_too_large)
              else if length input == 0
              then (
                record d { buf_pos = 0; state = need_flags },
                ok (s.pos, some (decoded more is_command [])),
              )
              else feed_body more is_command
                  (length input)
                  (record d { buf_pos = 0; state = need_body more is_command (length input) })
                  input
                  s.pos).1
            ≡ ok (s.pos + length input, some (decoded more is_command input))
      go [] h = ground arith
      go (b ∷ bs) h = ground (
        arith,
        feed_body_whole more is_command
            (record d { buf_pos = 0; state = need_body more is_command (length (b ∷ bs)) }) b bs
            s.pos refl,
      )

  -- A size of one byte, and one of eight, before the body that it announces.
  feed_size_short :
      (more is_command : Bool) (d : FrameDecoder) (body : Bytes)
      → length d.buf ≡ cap
      → length body ≤ cap
      → (feed_size usize cap more is_command false (replicate 8 0) 0 d (length body ∷ body) 1).1
        ≡ ok (2 + length body, some (decoded more is_command body))
  unfolding feed_size read_size
  feed_size_short more is_command d [] full fits =
      finish_size_whole more is_command false d _ full fits refl
  feed_size_short more is_command d (b ∷ bs) full fits =
      finish_size_whole more is_command false d _ full fits refl

  -- The eight bytes may announce more than `usize` counts: the length is then what is left of it.
  feed_size_long :
      (more is_command : Bool) (d : FrameDecoder) (n : ℕ) (body : Bytes)
      → length d.buf ≡ cap
      → length body ≤ cap
      → n < 2 ^ 64
      → n % usize ≡ length body
      → (feed_size usize cap more is_command true
          (replicate 8 0)
          0
          d
          (to_be_bytes_u64 n ++ body)
          1).1
        ≡ ok (9 + length body, some (decoded more is_command body))
  unfolding feed_size read_size
  feed_size_long more is_command d n [] full fits wide e =
      finish_size_whole more is_command true d _ full fits
        (ap (λ (v : ℕ). v % usize) (from_be_bytes-u64 n wide) ∙ e)
  feed_size_long more is_command d n (b ∷ bs) full fits wide e =
      finish_size_whole more is_command true d _ full fits
        (ap (λ (v : ℕ). v % usize) (from_be_bytes-u64 n wide) ∙ e)

  feed_flags_short :
      (more is_command : Bool) (d : FrameDecoder) (body : Bytes)
      → length d.buf ≡ cap
      → length body ≤ cap
      → (feed_flags usize cap d (flags_of more is_command ∷ length body ∷ body) 0).1
        ≡ ok (2 + length body, some (decoded (more && not is_command) is_command body))
  unfolding feed_flags
  feed_flags_short true true d body full fits = feed_size_short false true _ body full fits
  feed_flags_short false true d body full fits = feed_size_short false true _ body full fits
  feed_flags_short true false d body full fits = feed_size_short true false _ body full fits
  feed_flags_short false false d body full fits = feed_size_short false false _ body full fits

  feed_flags_long :
      (more is_command : Bool) (d : FrameDecoder) (n : ℕ) (body : Bytes)
      → length d.buf ≡ cap
      → length body ≤ cap
      → n < 2 ^ 64
      → n % usize ≡ length body
      → (feed_flags usize cap d ((flags_of more is_command + 2) ∷ to_be_bytes_u64 n ++ body) 0).1
        ≡ ok (9 + length body, some (decoded (more && not is_command) is_command body))
  unfolding feed_flags
  feed_flags_long true true d n body full fits wide e =
      feed_size_long false true _ n body full fits wide e
  feed_flags_long false true d n body full fits wide e =
      feed_size_long false true _ n body full fits wide e
  feed_flags_long true false d n body full fits wide e =
      feed_size_long true false _ n body full fits wide e
  feed_flags_long false false d n body full fits wide e =
      feed_size_long false false _ n body full fits wide e

  -- A header and the body that it announces.
  pub feed_whole :
      (more is_command : Bool) (d : FrameDecoder) (body : Bytes)
      → IsValid cap d
      → d.state ≡ need_flags
      → length body ≤ cap
      → length body < usize
      → length body < 2 ^ 64
      → (feed usize cap d (header (flags_of more is_command) (length body) ++ body)).1
        ≡ ok (
          header_len (length body) + length body,
          some (decoded (more && not is_command) is_command body),
        )
  unfolding feed dispatch
  feed_whole more is_command d body v s fits word wide = elim (Bool-cases (leb (length body) 255)) [
    | inl small ↦ rw (s, small) (feed_flags_short more is_command d body v.buf_full fits)
    | inr large ↦
        rw (s, large)
          (feed_flags_long more is_command d (length body) body v.buf_full fits wide
            (mod-eq_of_lt word))
  ]

  -- The answer to one whole frame with any input behind it.
  abbrev pub Reads : FrameDecoder → Bytes → ℕ → DecodedFrame → Type 0
  Reads d input n frame =
      (d' : FrameDecoder) × (feed usize cap d input ≡ (d', ok (n, some frame)))
      × IsValid cap d'
      × (d'.state ≡ need_flags)

  pub Reads-append :
      (d : FrameDecoder) (xs rest : Bytes) (n : ℕ) (frame : DecodedFrame)
      → IsValid cap d
      → (feed usize cap d xs).1 ≡ ok (n, some frame)
      → Reads d (xs ++ rest) n frame
  Reads-append d xs rest n frame v e =
      let d' = (feed usize cap d xs).0 in
      let whole : feed usize cap d xs ≡ (d', ok (n, some frame)) = ground (arith, e) in
      let o = rw whole at (feed-Outcome usize cap d xs v) in
      (d', feed-append usize cap d xs rest v ∙ rw whole, o.0, o.3)

  -- A decoder that waits for a frame reads the message frame that `encode_message_frame` begins,
  -- whatever follows it: it uses exactly the header and the body, hands out the body with the MORE
  -- flag of the call, and waits for the next frame. The decoder is valid, and the body fits its
  -- capacity, `usize` and 64 bits.
  pub feed-encode_message_frame :
      (d : FrameDecoder) (buf out body rest : Bytes) (more : Bool) (n : ℕ)
      → IsValid cap d
      → d.state ≡ need_flags
      → length body ≤ cap
      → length body < usize
      → length body < 2 ^ 64
      → encode_message_frame buf (length body) more ≡ ok (n, out)
      → Reads d ((take n out ++ body) ++ rest) (n + length body) (decoded more false body)
  feed-encode_message_frame d buf out body rest more n v s fits word wide e =
      let (k, h) =
        Encoded-ok buf out (from_bool more) (length body) n
          (sym (encode_message_frame_lem buf (length body) more) ∙ e) in
      let kept : (more && not false) ≡ more = ground arith in
      let read = rw kept at (feed_whole more false d body v s fits word wide) in
      rw (h, k) (Reads-append d (header (from_bool more) (length body) ++ body) rest _ _ v read)

  -- A decoder that waits for a frame reads the command frame that `encode_command_frame` begins,
  -- whatever follows it: it uses exactly the header and the body, hands out the body without MORE,
  -- and waits for the next frame. The decoder is valid, and the body fits its capacity, `usize` and
  -- 64 bits.
  pub feed-encode_command_frame :
      (d : FrameDecoder) (buf out body rest : Bytes) (n : ℕ)
      → IsValid cap d
      → d.state ≡ need_flags
      → length body ≤ cap
      → length body < usize
      → length body < 2 ^ 64
      → encode_command_frame buf (length body) ≡ ok (n, out)
      → Reads d ((take n out ++ body) ++ rest) (n + length body) (decoded false true body)
  feed-encode_command_frame d buf out body rest n v s fits word wide e =
      let (k, h) =
        Encoded-ok buf out 4 (length body) n
          (sym (encode_command_frame_lem buf (length body)) ∙ e) in
      rw (h, k)
        (Reads-append d (header 4 (length body) ++ body) rest _ _ v
          (feed_whole false true d body v s fits word wide))

  -- The length of a long frame is what its eight size bytes announce, modulo the values of `usize`:
  -- a valid decoder that waits for a frame reads a body of that length, if it fits, and then the
  -- next frame. On a target of 32 bits the sizes from 2 ^ 32 on are so taken for small ones.
  pub feed_long_size :
      (d : FrameDecoder) (more is_command : Bool) (n : ℕ) (body rest : Bytes)
      → IsValid cap d
      → d.state ≡ need_flags
      → length body ≤ cap
      → n < 2 ^ 64
      → n % usize ≡ length body
      → Reads d
          (((flags_of more is_command + 2) ∷ to_be_bytes_u64 n ++ body) ++ rest)
          (9 + length body)
          (decoded (more && not is_command) is_command body)
  feed_long_size d more is_command n body rest v s fits wide e =
      let size = feed_flags_long more is_command d n body v.buf_full fits wide e in
      Reads-append d ((flags_of more is_command + 2) ∷ to_be_bytes_u64 n ++ body) rest
        (9 + length body) (decoded (more && not is_command) is_command body) v
        (unfold feed dispatch in rw s size)
