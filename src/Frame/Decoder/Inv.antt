-- ===== src/Frame/Decoder/Inv.antt =====
-- What every call of `FrameDecoder::feed` keeps, and what it can return.
use mzmq_rs.Prelude.{
  ℕ, ◌+◌, ◌≤◌, ◌<◌, min, ◌≡◌, ◌≢◌, refl, Bool, [], ◌∷◌, none, some, if◌then◌else◌, not, ◌==◌,
  bit_and, from_be_bytes, get_or, ◌%◌, length, set, take, replicate, length-set, length-take,
  length-replicate, Bytes, ok, err, panic, overwrite, copy_at_in, length-overwrite, arith,
}
use mzmq_rs.Frame.Decoder.{
  State, need_flags, need_size, need_body, poisoned, DecodeError, FrameDecoder, new, Fed,
  finish_body, feed_body, Size, read_size, finish_size, feed_size, feed_flags, feed_poisoned,
  dispatch, feed,
}

abbrev pub size_needed : Bool → ℕ
size_needed long = if long then 8 else 1

-- What each state knows of the buffers: the next size byte has a place, and the rest of the body fits.
abbrev pub StateInv : ℕ → ℕ → State → Type 0
StateInv cap buf_pos need_flags = Unit
StateInv cap buf_pos (need_size more is_command long size_buf size_pos) =
    (length size_buf ≡ 8) × (size_pos < size_needed long)
StateInv cap buf_pos (need_body more is_command remaining) =
    (0 < remaining) × (buf_pos + remaining ≤ cap)
StateInv cap buf_pos poisoned = Unit

pub record IsValid (cap : ℕ) (d : FrameDecoder) : Type 0 where
  pub buf_full : length d.buf ≡ cap
  pub state_ok : StateInv cap d.buf_pos d.state

-- What a call on `total` bytes may answer: it asks for more when all are used up; or it hands out a
-- frame of at most `cap` bytes and starts anew; or it fails and is poisoned. It never panics.
abbrev pub Outcome : ℕ → ℕ → Fed → Type 0
Outcome cap total (d, ok (n, none)) = IsValid cap d × (n ≡ total)
Outcome cap total (d, ok (n, some frame)) =
    IsValid cap d × (n ≤ total) × (length frame.body ≤ cap) × (d.state ≡ need_flags)
Outcome cap total (d, err e) = IsValid cap d × (d.state ≡ poisoned)
Outcome cap total (d, panic) = ⊥

pub new-IsValid : (cap : ℕ) → IsValid cap (new cap)
unfolding new
new-IsValid cap = record { buf_full = length-replicate cap 0; state_ok = tt }

-- How many bytes a copy takes.
abbrev pub copied : Bytes → ℕ → ℕ
copied input remaining = min (length input) remaining

length-take-copied :
    (input : Bytes) (remaining : ℕ)
    → length (take (copied input remaining) input) ≡ copied input remaining
length-take-copied input remaining = omega (arith, length-take (copied input remaining) input)

-- In bounds the copy does not panic.
pub feed_body_copies :
    (more is_command : Bool) (remaining : ℕ) (d : FrameDecoder) (b : ℕ) (input : Bytes) (pos : ℕ)
    → d.buf_pos + remaining ≤ length d.buf
    → let k = copied (b ∷ input) remaining in
      feed_body more is_command remaining d (b ∷ input) pos
      ≡ finish_body more is_command remaining k d pos
          (overwrite d.buf d.buf_pos (take k (b ∷ input)))
unfolding feed_body
feed_body_copies more is_command remaining d b input pos fits =
    let part = take (copied (b ∷ input) remaining) (b ∷ input) in
    let h : d.buf_pos + length part ≤ length d.buf =
      omega (arith, length-take-copied (b ∷ input) remaining) in
    rw (copy_at_in {E = DecodeError} d.buf d.buf_pos part h, feed_body)

finish_body-Outcome :
    (cap : ℕ) (more is_command : Bool) (remaining k : ℕ) (d : FrameDecoder) (buf : Bytes)
    (pos total : ℕ)
    → length buf ≡ cap
    → k ≤ remaining
    → d.buf_pos + remaining ≤ cap
    → pos + k ≤ total
    → (k ≢ remaining → pos + k ≡ total)
    → Outcome cap total (finish_body more is_command remaining k d pos buf)
unfolding finish_body
finish_body-Outcome cap more is_command remaining k d buf pos total full le fits in' all =
    ground (arith, length-take (d.buf_pos + k) buf)

pub feed_body-Outcome :
    (cap : ℕ) (more is_command : Bool) (remaining : ℕ) (d : FrameDecoder) (input : Bytes) (pos : ℕ)
    → length d.buf ≡ cap
    → d.state ≡ need_body more is_command remaining
    → 0 < remaining
    → d.buf_pos + remaining ≤ cap
    → Outcome cap (pos + length input) (feed_body more is_command remaining d input pos)
feed_body-Outcome cap more is_command remaining d [] pos full s some' fits =
    unfold feed_body in (record { buf_full = full; state_ok = rw s (some', fits) }, omega arith)
feed_body-Outcome cap more is_command remaining d (b ∷ input) pos full s some' fits =
    let k = copied (b ∷ input) remaining in
    let written = overwrite d.buf d.buf_pos (take k (b ∷ input)) in
    let same : length written ≡ cap = omega (
      arith,
      length-overwrite d.buf d.buf_pos (take k (b ∷ input))
          (omega (arith, length-take-copied (b ∷ input) remaining)),
    ) in
    rw (feed_body_copies more is_command remaining d b input pos (omega arith)) (
      finish_body-Outcome cap more is_command remaining k d written pos _ same (omega arith) fits
        (omega arith) (λ h. omega arith))

-- What the size loop leaves.
pub record SizeInv (needed total : ℕ) (s : Size) : Type 0 where
  pub eight : length s.size_buf ≡ 8
  pub at_most : s.size_pos ≤ needed
  pub taken : s.pos + length s.input ≡ total
  pub starved : s.size_pos < needed → s.input ≡ []

pub read_size-SizeInv :
    (needed : ℕ) (size_buf : Bytes) (size_pos : ℕ) (input : Bytes) (pos : ℕ)
    → length size_buf ≡ 8
    → size_pos ≤ needed
    → SizeInv needed (pos + length input) (read_size needed size_buf size_pos input pos)
unfolding read_size
read_size-SizeInv needed size_buf size_pos [] pos e h = ground arith
read_size-SizeInv needed size_buf size_pos (b ∷ input) pos e h = ground (
  arith,
  length-set size_buf size_pos b,
  read_size-SizeInv needed (set size_buf size_pos b) (size_pos + 1) input (pos + 1),
)

module _ (usize cap : ℕ) where
  finish_size-Outcome :
      (more is_command long : Bool) (d : FrameDecoder) (s : Size) (total : ℕ)
      → length d.buf ≡ cap
      → s.pos + length s.input ≡ total
      → Outcome cap total (finish_size usize cap more is_command long d s)
  unfolding finish_size
  finish_size-Outcome more is_command long d s total full e =
      let n = if long then from_be_bytes s.size_buf % usize else get_or s.size_buf 0 0 in
      let d' = record d { buf_pos = 0; state = need_body more is_command n } in
      ground (arith, feed_body-Outcome cap more is_command n d' s.input s.pos)

  feed_size-Outcome :
      (more is_command long : Bool) (size_buf : Bytes) (size_pos : ℕ) (d : FrameDecoder)
      (input : Bytes) (pos : ℕ)
      → length d.buf ≡ cap
      → d.state ≡ need_size more is_command long size_buf size_pos
      → length size_buf ≡ 8
      → size_pos < size_needed long
      → Outcome cap
          (pos + length input)
          (feed_size usize cap more is_command long size_buf size_pos d input pos)
  unfolding feed_size
  feed_size-Outcome more is_command long size_buf size_pos d [] pos full s e h =
      (record { buf_full = full; state_ok = rw s (e, h) }, omega arith)
  feed_size-Outcome more is_command long size_buf size_pos d (b ∷ input) pos full s e h =
      let needed = size_needed long in
      let r = read_size needed size_buf size_pos (b ∷ input) pos in
      ground (
        arith,
        read_size-SizeInv needed size_buf size_pos (b ∷ input) pos e,
        finish_size-Outcome more is_command long d r (pos + length (b ∷ input)),
      )

  dispatch-Outcome :
      (s : State) (d : FrameDecoder) (input : Bytes) (pos : ℕ)
      → d.state ≡ s
      → IsValid cap d
      → Outcome cap (pos + length input) (dispatch usize cap s d input pos)
  unfolding dispatch feed_poisoned feed_flags
  dispatch-Outcome poisoned d [] pos e v = (v, omega arith)
  dispatch-Outcome poisoned d (b ∷ input) pos e v = (v, e)
  dispatch-Outcome need_flags d [] pos e v = (v, omega arith)
  dispatch-Outcome need_flags d (flags ∷ input) pos e v =
      let more = not (bit_and flags 0x01 == 0) in
      let long = not (bit_and flags 0x02 == 0) in
      let is_command = not (bit_and flags 0x04 == 0) in
      let d' = record d { state = need_size more is_command long (replicate 8 0) 0 } in
      ground (arith, feed_size-Outcome more is_command long (replicate 8 0) 0 d' input (pos + 1))
  dispatch-Outcome (need_size more is_command long size_buf size_pos) d input pos e v =
      let h = rw e at v.state_ok in
      feed_size-Outcome more is_command long size_buf size_pos d input pos v.buf_full e h.0 h.1
  dispatch-Outcome (need_body more is_command remaining) d input pos e v =
      let h = rw e at v.state_ok in
      feed_body-Outcome cap more is_command remaining d input pos v.buf_full e h.0 h.1

  -- A call on a valid decoder never panics and leaves a valid decoder. If it asks for more it has used
  -- the whole input; a frame that it hands out has at most `CAP` bytes, no more than the input was used,
  -- and the decoder waits for the next frame; an error poisons the decoder.
  pub feed-Outcome :
      (d : FrameDecoder) (input : Bytes)
      → IsValid cap d
      → Outcome cap (length input) (feed usize cap d input)
  unfolding feed
  feed-Outcome d input v = ground (arith, dispatch-Outcome d.state d input 0 refl v)
