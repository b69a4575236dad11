-- ===== src/Frame/Decoder/Chunks.antt =====
-- A body that arrives in two parts: `State::NeedBody` on both at once, and on one after the other.
use mzmq_rs.Prelude.{
  ℕ, ◌+◌, ◌-◌, ◌≤◌, ◌<◌, ◌≡◌, refl, sym, ap, ◌∙◌, inl, inr, Bool, [], ◌∷◌, ◌++◌, none, some, ltb,
  Bool-cases, length, take, length-append, length-take, take-append_le, take-append_add, take_all,
  append-nil, Bytes, ok, err, panic, overwrite, overwrite-overwrite, length-overwrite, arith, tests,
}
use mzmq_rs.Frame.Decoder.{
  State, need_flags, need_size, need_body, poisoned, FrameDecoder, DecodedFrame, Fed, finish_body,
  feed_body, feed_size, feed_flags, feed_poisoned, dispatch,
}
use mzmq_rs.Frame.Decoder.Inv.{copied, feed_body_copies}

module _ (usize cap : ℕ) where
  -- To go on with `more` where the loop has asked for input: the next arm starts at the position
  -- reached. Any other answer stands.
  abbrev pub go_on : Fed → Bytes → Fed
  go_on (d, ok (n, none)) more = dispatch usize cap d.state d more n
  go_on r more = r

  pub dispatch-nil :
      (s : State) (d : FrameDecoder) (pos : ℕ) → dispatch usize cap s d [] pos ≡ (d, ok (pos, none))
  unfolding dispatch feed_poisoned feed_flags feed_size feed_body
  dispatch-nil poisoned d pos = refl
  dispatch-nil need_flags d pos = refl
  dispatch-nil (need_size more is_command long size_buf size_pos) d pos = refl
  dispatch-nil (need_body more is_command remaining) d pos = refl

  pub go_on-nil : (r : Fed) → go_on r [] ≡ r
  go_on-nil (d, ok (n, none)) = dispatch-nil d.state d n
  go_on-nil (d, ok (n, some frame)) = refl
  go_on-nil (d, err e) = refl
  go_on-nil (d, panic) = refl

  go_on-some :
      (r : Fed) (more : Bytes) (n : ℕ) (frame : DecodedFrame)
      → r.1 ≡ ok (n, some frame)
      → go_on r more ≡ r
  go_on-some (d, ok (n, none)) more m frame e = absurd (cc)
  go_on-some (d, ok (n, some f)) more m frame e = refl
  go_on-some (d, err x) more m frame e = refl
  go_on-some (d, panic) more m frame e = refl

module _ (more is_command : Bool) (remaining : ℕ) (d : FrameDecoder) (pos : ℕ) where
  abbrev written : Bytes → Bytes
  written xs = overwrite d.buf d.buf_pos xs

  -- The decoder after a part of the body.
  abbrev after : Bytes → FrameDecoder
  after xs = record d {
    state = need_body more is_command (remaining - length xs);
    buf = written xs;
    buf_pos = d.buf_pos + length xs;
  }

  -- Two copies into the body are one.
  finish_body-append :
      (xs ys : Bytes)
      → length xs + length ys ≤ remaining
      → d.buf_pos + remaining ≤ length d.buf
      → finish_body more is_command remaining (length xs + length ys) d pos (written (xs ++ ys))
        ≡ finish_body more is_command
            (remaining - length xs)
            (length ys)
            (after xs)
            (pos + length xs)
            (overwrite (written xs) (d.buf_pos + length xs) ys)
  unfolding finish_body
  finish_body-append xs ys h fits =
      rw (overwrite-overwrite d.buf d.buf_pos xs ys (omega arith)) (ground arith)

  feed_body_takes :
      (x : ℕ) (xs : Bytes) (k : ℕ)
      → k ≡ copied (x ∷ xs) remaining
      → d.buf_pos + remaining ≤ length d.buf
      → feed_body more is_command remaining d (x ∷ xs) pos
        ≡ finish_body more is_command remaining k d pos (written (take k (x ∷ xs)))
  feed_body_takes x xs k e fits =
      feed_body_copies more is_command remaining d x xs pos fits
      ∙ ap (λ j. finish_body more is_command remaining j d pos (written (take j (x ∷ xs)))) (sym e)

  feed_body_asks :
      (x : ℕ) (xs : Bytes)
      → length (x ∷ xs) < remaining
      → d.buf_pos + remaining ≤ length d.buf
      → feed_body more is_command remaining d (x ∷ xs) pos
        ≡ (after (x ∷ xs), ok (pos + length (x ∷ xs), none))
  feed_body_asks x xs short fits =
      feed_body_takes x xs (length (x ∷ xs)) (omega arith) fits
      ∙ rw (take_all (length xs) xs (omega arith)) (unfold finish_body in ground arith)

  -- A body that is complete is not changed by what follows it.
  feed_body_ends :
      (x : ℕ) (xs more' : Bytes)
      → remaining ≤ length (x ∷ xs)
      → d.buf_pos + remaining ≤ length d.buf
      → (feed_body more is_command remaining d (x ∷ xs ++ more') pos
          ≡ feed_body more is_command remaining d (x ∷ xs) pos)
        × ((feed_body more is_command remaining d (x ∷ xs) pos).1
            ≡ ok (
              pos + remaining,
              some (record {
                more = more;
                is_command = is_command;
                body = take (d.buf_pos + remaining) (written (take remaining (x ∷ xs)));
              }),
            ))
  feed_body_ends x xs more' long fits = (
    feed_body_takes x (xs ++ more') remaining (omega (arith, length-append xs more')) fits
        ∙ ap (λ t. finish_body more is_command remaining remaining d pos (written t))
            (take-append_le remaining (x ∷ xs) more' long)
        ∙ sym (feed_body_takes x xs remaining (omega arith) fits),
    ap (λ (r : Fed). r.1) (feed_body_takes x xs remaining (omega arith) fits)
        ∙ unfold finish_body in ground arith,
  )

module _ (usize cap : ℕ) where
  -- A body in two parts, the first of which is too short.
  feed_body-append_asks :
      (more is_command : Bool) (remaining : ℕ) (d : FrameDecoder) (x : ℕ) (xs : Bytes) (y : ℕ)
      (ys : Bytes) (pos : ℕ)
      → length (x ∷ xs) < remaining
      → d.buf_pos + remaining ≤ length d.buf
      → feed_body more is_command remaining d (x ∷ xs ++ y ∷ ys) pos
        ≡ dispatch usize cap
            (need_body more is_command (remaining - length (x ∷ xs)))
            (after more is_command remaining d pos (x ∷ xs))
            (y ∷ ys)
            (pos + length (x ∷ xs))
  unfolding dispatch
  feed_body-append_asks more is_command remaining d x xs y ys pos short fits =
      let left = remaining - length (x ∷ xs) in
      let l = copied (y ∷ ys) left in
      let part = take l (y ∷ ys) in
      let size : length part ≡ l = omega (arith, length-take l (y ∷ ys)) in
      let d' = after more is_command remaining d pos (x ∷ xs) in
      feed_body_takes more is_command remaining d pos x (xs ++ y ∷ ys)
        (length (x ∷ xs) + length part) (omega (arith, length-append xs (y ∷ ys))) fits
      ∙ ap
          (λ t.
            finish_body more is_command remaining (length (x ∷ xs) + length part) d pos
              (overwrite d.buf d.buf_pos t))
          (ap (λ j. take (length (x ∷ xs) + j) (x ∷ xs ++ y ∷ ys)) size
            ∙ take-append_add (length (x ∷ xs)) l (x ∷ xs) (y ∷ ys) refl)
      ∙ finish_body-append more is_command remaining d pos (x ∷ xs) part (omega arith) fits
      ∙ ap
          (λ j.
            finish_body more is_command left j d' (pos + length (x ∷ xs))
              (overwrite d'.buf d'.buf_pos part))
          size
      ∙ sym (
          feed_body_takes more is_command left d' (pos + length (x ∷ xs)) y ys l refl
            (omega (arith, length-overwrite d.buf d.buf_pos (x ∷ xs) (omega arith))))

  pub feed_body-append :
      (more is_command : Bool) (remaining : ℕ) (d : FrameDecoder) (xs ys : Bytes) (pos : ℕ)
      → d.state ≡ need_body more is_command remaining
      → d.buf_pos + remaining ≤ length d.buf
      → feed_body more is_command remaining d (xs ++ ys) pos
        ≡ go_on usize cap (feed_body more is_command remaining d xs pos) ys
  feed_body-append more is_command remaining d [] ys pos e fits = unfold feed_body dispatch in rw e
  feed_body-append more is_command remaining d (x ∷ xs) [] pos e fits =
      rw append-nil (sym (go_on-nil usize cap _))
  feed_body-append more is_command remaining d (x ∷ xs) (y ∷ ys) pos e fits =
      elim (Bool-cases (ltb (length (x ∷ xs)) remaining)) [
        | inl short ↦
            rw (feed_body_asks more is_command remaining d pos x xs (omega tests) fits)
              (feed_body-append_asks more is_command remaining d x xs y ys pos (omega tests) fits)
        | inr long ↦
            let (same, r) =
              feed_body_ends more is_command remaining d pos x xs (y ∷ ys) (ground arith) fits in
            same ∙ sym (go_on-some usize cap _ (y ∷ ys) _ _ r)
      ]
