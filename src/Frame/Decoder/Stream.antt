-- ===== src/Frame/Decoder/Stream.antt =====
-- Streaming: how the input is cut into calls of `FrameDecoder::feed` makes no difference.
use mzmq_rs.Prelude.{
  ℕ, ◌+◌, ◌≡◌, refl, sym, ap, ◌∙◌, inl, inr, Bool, not, [], ◌∷◌, ◌++◌, none, some, ltb, ◌==◌,
  if◌then◌else◌, bit_and, ◌&&◌, Bool-cases, tests, length, set, replicate, append-nil, Bytes, ok,
  err, panic, arith, from_be_bytes, get_or, ◌%◌,
}
use mzmq_rs.Frame.Decoder.{
  State, need_flags, need_size, need_body, poisoned, FrameDecoder, Fed, finish_body, feed_body,
  Size, read_size, finish_size, feed_size, feed_flags, feed_poisoned, dispatch, feed,
}
use mzmq_rs.Frame.Decoder.Inv.{IsValid, size_needed}
use mzmq_rs.Frame.Decoder.Chunks.{go_on, go_on-nil, feed_body-append}

-- The consumed count moved on by `n`.
abbrev pub shift : ℕ → Fed → Fed
shift n (d, ok (m, frame)) = (d, ok (n + m, frame))
shift n (d, err e) = (d, err e)
shift n (d, panic) = (d, panic)

-- The size loop on two parts of the input.
read_size-append :
    (needed : ℕ) (size_buf : Bytes) (size_pos : ℕ) (xs ys : Bytes) (pos : ℕ)
    → let s = read_size needed size_buf size_pos xs pos in
      read_size needed size_buf size_pos (xs ++ ys) pos ≡ (
        if ltb s.size_pos needed
        then read_size needed s.size_buf s.size_pos ys s.pos
        else record s { input = s.input ++ ys })
unfolding read_size
read_size-append needed size_buf size_pos [] [] pos = ground arith
read_size-append needed size_buf size_pos [] (y ∷ ys) pos = ground arith
read_size-append needed size_buf size_pos (x ∷ xs) ys pos =
    ground (arith, read_size-append needed (set size_buf size_pos x) (size_pos + 1) xs ys (pos + 1))

module _ (usize cap : ℕ) where
  -- To go on with `more` where a call has asked for more input; any other answer stands.
  abbrev pub resume : Fed → Bytes → Fed
  resume (d, ok (n, none)) more = shift n (feed usize cap d more)
  resume (d, ok (n, some frame)) more = (d, ok (n, some frame))
  resume (d, err e) more = (d, err e)
  resume (d, panic) more = (d, panic)

  finish_size-append :
      (more is_command long : Bool) (d : FrameDecoder) (s : Size) (ys : Bytes)
      → length d.buf ≡ cap
      → finish_size usize cap more is_command long d (record s { input = s.input ++ ys })
        ≡ go_on usize cap (finish_size usize cap more is_command long d s) ys
  unfolding finish_size
  finish_size-append more is_command long d s ys full =
      let n = if long then from_be_bytes s.size_buf % usize else get_or s.size_buf 0 0 in
      let d' = record d { buf_pos = 0; state = need_body more is_command n } in
      elim (Bool-cases (ltb cap n)) [
        | inl large ↦ rw large refl
        | inr fits ↦ elim (Bool-cases (n == 0)) [
          | inl empty ↦ rw (fits, empty) refl
          | inr full' ↦
              rw (fits, full')
                (feed_body-append usize cap more is_command n d' s.input ys s.pos refl
                  (omega tests))
        ]
      ]

  -- What `State::NeedSize` does once its loop has stopped.
  abbrev sized : Bool → Bool → Bool → FrameDecoder → Size → Fed
  sized more is_command long d s =
      if ltb s.size_pos (size_needed long)
      then (
        record d { state = need_size more is_command long s.size_buf s.size_pos },
        ok (s.pos, none),
      )
      else finish_size usize cap more is_command long d s

  sized-append :
      (more is_command long : Bool) (size_buf : Bytes) (size_pos : ℕ) (d : FrameDecoder)
      (xs : Bytes) (y : ℕ) (ys : Bytes) (pos : ℕ)
      → length d.buf ≡ cap
      → let read = λ (input : Bytes). read_size (size_needed long) size_buf size_pos input pos in
        sized more is_command long d (read (xs ++ y ∷ ys))
        ≡ go_on usize cap (sized more is_command long d (read xs)) (y ∷ ys)
  sized-append more is_command long size_buf size_pos d xs y ys pos full =
      let needed = size_needed long in
      let s = read_size needed size_buf size_pos xs pos in
      let both = read_size-append needed size_buf size_pos xs (y ∷ ys) pos in
      elim (Bool-cases (ltb s.size_pos needed)) [
        | inl short ↦
            let first : read_size needed size_buf size_pos (xs ++ y ∷ ys) pos
                ≡ read_size needed s.size_buf s.size_pos (y ∷ ys) s.pos =
              both ∙ rw short refl in
            ap (sized more is_command long d) first
            ∙ rw short (unfold dispatch feed_size finish_size in refl)
        | inr all ↦
            let first : read_size needed size_buf size_pos (xs ++ y ∷ ys) pos
                ≡ record s { input = s.input ++ y ∷ ys } =
              both ∙ rw all refl in
            ap (sized more is_command long d) first
            ∙ rw all (finish_size-append more is_command long d s (y ∷ ys) full)
      ]

  feed_size-append :
      (more is_command long : Bool) (size_buf : Bytes) (size_pos : ℕ) (d : FrameDecoder)
      (xs ys : Bytes) (pos : ℕ)
      → length d.buf ≡ cap
      → d.state ≡ need_size more is_command long size_buf size_pos
      → feed_size usize cap more is_command long size_buf size_pos d (xs ++ ys) pos
        ≡ go_on usize cap (feed_size usize cap more is_command long size_buf size_pos d xs pos) ys
  unfolding feed_size
  feed_size-append more is_command long size_buf size_pos d [] ys pos full e =
      unfold dispatch in rw e
  feed_size-append more is_command long size_buf size_pos d (x ∷ xs) [] pos full e =
      rw append-nil (sym (go_on-nil usize cap _))
  feed_size-append more is_command long size_buf size_pos d (x ∷ xs) (y ∷ ys) pos full e =
      sized-append more is_command long size_buf size_pos d (x ∷ xs) y ys pos full

  feed_flags-append :
      (d : FrameDecoder) (xs ys : Bytes) (pos : ℕ)
      → length d.buf ≡ cap
      → d.state ≡ need_flags
      → feed_flags usize cap d (xs ++ ys) pos ≡ go_on usize cap (feed_flags usize cap d xs pos) ys
  unfolding feed_flags
  feed_flags-append d [] ys pos full e = unfold dispatch in rw e
  feed_flags-append d (flags ∷ xs) ys pos full e =
      let more = not (bit_and flags 0x01 == 0) in
      let long = not (bit_and flags 0x02 == 0) in
      let is_command = not (bit_and flags 0x04 == 0) in
      let d' = record d { state = need_size more is_command long (replicate 8 0) 0 } in
      elim (Bool-cases (bit_and flags 0xf8 == 0)) [
        | inl clear ↦ elim (Bool-cases (is_command && more)) [
          | inl bad ↦ rw (clear, bad) refl
          | inr good ↦
              rw (clear, good)
                (feed_size-append more is_command long (replicate 8 0) 0 d' xs ys (pos + 1) full
                  refl)
        ]
        | inr reserved ↦ rw reserved refl
      ]

  dispatch-append :
      (s : State) (d : FrameDecoder) (xs ys : Bytes) (pos : ℕ)
      → IsValid cap d
      → d.state ≡ s
      → dispatch usize cap s d (xs ++ ys) pos ≡ go_on usize cap (dispatch usize cap s d xs pos) ys
  unfolding dispatch feed_poisoned
  dispatch-append need_flags d xs ys pos v e = feed_flags-append d xs ys pos v.buf_full e
  dispatch-append (need_size more is_command long size_buf size_pos) d xs ys pos v e =
      feed_size-append more is_command long size_buf size_pos d xs ys pos v.buf_full e
  dispatch-append (need_body more is_command remaining) d xs ys pos v e =
      feed_body-append usize cap more is_command remaining d xs ys pos e
        (let h = rw e at v.state_ok in omega (arith, v.buf_full))
  dispatch-append poisoned d [] ys pos v e = rw e
  dispatch-append poisoned d (x ∷ xs) ys pos v e = refl

  -- Where the loop starts in its input only moves the count.
  feed_body-shift :
      (more is_command : Bool) (remaining : ℕ) (d : FrameDecoder) (input : Bytes) (n pos : ℕ)
      → feed_body more is_command remaining d input (n + pos)
        ≡ shift n (feed_body more is_command remaining d input pos)
  unfolding feed_body finish_body
  feed_body-shift more is_command remaining d [] n pos = refl
  feed_body-shift more is_command remaining d (x ∷ xs) n pos = ground arith

  read_size-shift :
      (needed : ℕ) (size_buf : Bytes) (size_pos : ℕ) (input : Bytes) (n pos : ℕ)
      → let s = read_size needed size_buf size_pos input pos in
        read_size needed size_buf size_pos input (n + pos) ≡ record s { pos = n + s.pos }
  unfolding read_size
  read_size-shift needed size_buf size_pos [] n pos = refl
  read_size-shift needed size_buf size_pos (x ∷ xs) n pos =
      let e : n + pos + 1 ≡ n + (pos + 1) = omega arith in
      rw e (
        ground
          (arith, read_size-shift needed (set size_buf size_pos x) (size_pos + 1) xs n (pos + 1)))

  finish_size-shift :
      (more is_command long : Bool) (d : FrameDecoder) (s : Size) (n : ℕ)
      → finish_size usize cap more is_command long d (record s { pos = n + s.pos })
        ≡ shift n (finish_size usize cap more is_command long d s)
  unfolding finish_size
  finish_size-shift more is_command long d s n =
      let k = if long then from_be_bytes s.size_buf % usize else get_or s.size_buf 0 0 in
      let d' = record d { buf_pos = 0; state = need_body more is_command k } in
      ground (arith, feed_body-shift more is_command k d' s.input n s.pos)

  feed_size-shift :
      (more is_command long : Bool) (size_buf : Bytes) (size_pos : ℕ) (d : FrameDecoder)
      (input : Bytes) (n pos : ℕ)
      → feed_size usize cap more is_command long size_buf size_pos d input (n + pos)
        ≡ shift n (feed_size usize cap more is_command long size_buf size_pos d input pos)
  unfolding feed_size
  feed_size-shift more is_command long size_buf size_pos d [] n pos = refl
  feed_size-shift more is_command long size_buf size_pos d (x ∷ xs) n pos =
      let needed = size_needed long in
      let s = read_size needed size_buf size_pos (x ∷ xs) pos in
      rw (read_size-shift needed size_buf size_pos (x ∷ xs) n pos)
        (ground (arith, finish_size-shift more is_command long d s n))

  dispatch-shift :
      (s : State) (d : FrameDecoder) (input : Bytes) (n pos : ℕ)
      → dispatch usize cap s d input (n + pos) ≡ shift n (dispatch usize cap s d input pos)
  unfolding dispatch feed_flags feed_poisoned
  dispatch-shift need_flags d [] n pos = refl
  dispatch-shift need_flags d (flags ∷ xs) n pos =
      let more = not (bit_and flags 0x01 == 0) in
      let long = not (bit_and flags 0x02 == 0) in
      let is_command = not (bit_and flags 0x04 == 0) in
      let d' = record d { state = need_size more is_command long (replicate 8 0) 0 } in
      let e : n + pos + 1 ≡ n + (pos + 1) = omega arith in
      rw e
        (ground (arith, feed_size-shift more is_command long (replicate 8 0) 0 d' xs n (pos + 1)))
  dispatch-shift (need_size more is_command long size_buf size_pos) d input n pos =
      feed_size-shift more is_command long size_buf size_pos d input n pos
  dispatch-shift (need_body more is_command remaining) d input n pos =
      feed_body-shift more is_command remaining d input n pos
  dispatch-shift poisoned d [] n pos = refl
  dispatch-shift poisoned d (x ∷ xs) n pos = refl

  go_on-resume : (r : Fed) (more : Bytes) → go_on usize cap r more ≡ resume r more
  go_on-resume (d, ok (n, none)) more =
      ap (dispatch usize cap d.state d more) (let e : n ≡ n + 0 = omega arith in e)
      ∙ unfold feed in dispatch-shift d.state d more n 0
  go_on-resume (d, ok (n, some frame)) more = refl
  go_on-resume (d, err e) more = refl
  go_on-resume (d, panic) more = refl

  -- Feeding a valid decoder two pieces at once is the same as feeding it the first, and then, if that
  -- call asks for more, the second, with the counts added up. A frame or an error that the first
  -- piece gives is not changed by what follows it.
  pub feed-append :
      (d : FrameDecoder) (xs ys : Bytes)
      → IsValid cap d
      → feed usize cap d (xs ++ ys) ≡ resume (feed usize cap d xs) ys
  unfolding feed
  feed-append d xs ys v =
      dispatch-append d.state d xs ys 0 v refl ∙ go_on-resume (dispatch usize cap d.state d xs 0) ys
