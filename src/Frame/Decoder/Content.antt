-- ===== src/Frame/Decoder/Content.antt =====
-- The decoder only moves bytes: what it stores and hands out are bytes of its input.
use mzmq_rs.Prelude.{
  ℕ, zero, suc, ◌+◌, ◌%◌, min, Bool, not, [], ◌∷◌, some, ◌==◌, bit_and, from_be_bytes, get_or,
  if◌then◌else◌, length, set, take, replicate, All, All-append, All-take, All-drop, Bytes, IsByte,
  ok, overwrite, copy_at, arith,
}
use mzmq_rs.Frame.Decoder.{
  State, need_flags, need_size, need_body, poisoned, FrameDecoder, Fed, finish_body, feed_body,
  Size, read_size, finish_size, feed_size, feed_flags, feed_poisoned, dispatch, feed, new,
}

-- Every byte kept or handed out is one.
abbrev pub AreBytes : Fed → Type 0
AreBytes (d, ok (n, some frame)) = All IsByte d.buf × All IsByte frame.body
AreBytes (d, _) = All IsByte d.buf

finish_body-AreBytes :
    (more is_command : Bool) (remaining k : ℕ) (d : FrameDecoder) (pos : ℕ) (buf : Bytes)
    → All IsByte buf
    → AreBytes (finish_body more is_command remaining k d pos buf)
unfolding finish_body
finish_body-AreBytes more is_command remaining k d pos buf h =
    ground (arith, All-take IsByte (d.buf_pos + k) buf h)

pub overwrite-bytes :
    (a : Bytes) (i : ℕ) (b : Bytes) → All IsByte a → All IsByte b → All IsByte (overwrite a i b)
overwrite-bytes a i b h k =
    All-append IsByte (take i a) _ (All-take IsByte i a h)
      (All-append IsByte b _ k (All-drop IsByte (i + length b) a h))

feed_body-AreBytes :
    (more is_command : Bool) (remaining : ℕ) (d : FrameDecoder) (input : Bytes) (pos : ℕ)
    → All IsByte d.buf
    → All IsByte input
    → AreBytes (feed_body more is_command remaining d input pos)
unfolding feed_body copy_at
feed_body-AreBytes more is_command remaining d [] pos h k = h
feed_body-AreBytes more is_command remaining d (b ∷ input) pos h k =
    let n = min (length (b ∷ input)) remaining in
    let part = take n (b ∷ input) in
    ground (
      arith,
      finish_body-AreBytes more is_command remaining n d pos (overwrite d.buf d.buf_pos part)
          (overwrite-bytes d.buf d.buf_pos part h (All-take IsByte n (b ∷ input) k)),
    )

read_size-bytes :
    (needed : ℕ) (size_buf : Bytes) (size_pos : ℕ) (input : Bytes) (pos : ℕ)
    → All IsByte input
    → All IsByte (read_size needed size_buf size_pos input pos).input
unfolding read_size
read_size-bytes needed size_buf size_pos [] pos h = tt
read_size-bytes needed size_buf size_pos (b ∷ input) pos h =
    ground
      (arith, read_size-bytes needed (set size_buf size_pos b) (size_pos + 1) input (pos + 1) h.1)

module _ (usize cap : ℕ) where
  finish_size-AreBytes :
      (more is_command long : Bool) (d : FrameDecoder) (s : Size)
      → All IsByte d.buf
      → All IsByte s.input
      → AreBytes (finish_size usize cap more is_command long d s)
  unfolding finish_size
  finish_size-AreBytes more is_command long d s h k =
      let n = if long then from_be_bytes s.size_buf % usize else get_or s.size_buf 0 0 in
      let d' = record d { buf_pos = 0; state = need_body more is_command n } in
      ground (arith, feed_body-AreBytes more is_command n d' s.input s.pos h k)

  feed_size-AreBytes :
      (more is_command long : Bool) (size_buf : Bytes) (size_pos : ℕ) (d : FrameDecoder)
      (input : Bytes) (pos : ℕ)
      → All IsByte d.buf
      → All IsByte input
      → AreBytes (feed_size usize cap more is_command long size_buf size_pos d input pos)
  unfolding feed_size
  feed_size-AreBytes more is_command long size_buf size_pos d [] pos h k = h
  feed_size-AreBytes more is_command long size_buf size_pos d (b ∷ input) pos h k =
      let needed = if long then 8 else 1 in
      let r = read_size needed size_buf size_pos (b ∷ input) pos in
      ground (
        arith,
        finish_size-AreBytes more is_command long d r h
            (read_size-bytes needed size_buf size_pos (b ∷ input) pos k),
      )

  dispatch-AreBytes :
      (s : State) (d : FrameDecoder) (input : Bytes) (pos : ℕ)
      → All IsByte d.buf
      → All IsByte input
      → AreBytes (dispatch usize cap s d input pos)
  unfolding dispatch feed_poisoned feed_flags
  dispatch-AreBytes poisoned d [] pos h k = h
  dispatch-AreBytes poisoned d (b ∷ input) pos h k = h
  dispatch-AreBytes need_flags d [] pos h k = h
  dispatch-AreBytes need_flags d (flags ∷ input) pos h k =
      let more = not (bit_and flags 0x01 == 0) in
      let long = not (bit_and flags 0x02 == 0) in
      let is_command = not (bit_and flags 0x04 == 0) in
      let d' = record d { state = need_size more is_command long (replicate 8 0) 0 } in
      ground
        (arith, feed_size-AreBytes more is_command long (replicate 8 0) 0 d' input (pos + 1) h k.1)
  dispatch-AreBytes (need_size more is_command long size_buf size_pos) d input pos h k =
      feed_size-AreBytes more is_command long size_buf size_pos d input pos h k
  dispatch-AreBytes (need_body more is_command remaining) d input pos h k =
      feed_body-AreBytes more is_command remaining d input pos h k

  pub feed-AreBytes :
      (d : FrameDecoder) (input : Bytes)
      → All IsByte d.buf
      → All IsByte input
      → AreBytes (feed usize cap d input)
  unfolding feed
  feed-AreBytes d input h k = dispatch-AreBytes d.state d input 0 h k

pub new-bytes : (cap : ℕ) → All IsByte (new cap).buf
unfolding new
new-bytes cap = go cap
  where
    go : (n : ℕ) → All IsByte (replicate n 0)
    go zero = tt
    go (suc n) = (omega arith, go n)
