-- ===== src/Frame/Encode.antt =====
-- The bytes that the two header encoders of src/frame.rs write.
use mzmq_rs.Prelude.{
  ℕ, ◌+◌, ◌≤◌, ◌≡◌, sym, ap, ◌∙◌, inl, inr, Bool, true, false, [], ◌∷◌, ◌++◌, leb, ltb,
  if◌then◌else◌, Bool-cases, length, take, drop, take-append, Bytes, as_u8, to_be_bytes_u64, ◌>>=◌,
  overwrite, copy_at, copy_at_in, length-overwrite, overwrite-overwrite, Result, ok, err, arith,
}
use mzmq_rs.Frame.{
  FrameError, buffer_too_small, from_bool, encode_message_frame, encode_command_frame,
}

-- The first byte, and the rest of a header for a body of `n` bytes.
abbrev pub header_len : ℕ → ℕ
header_len n = if leb n 255 then 2 else 9

abbrev pub header : ℕ → ℕ → Bytes
header flags n = if leb n 255 then flags ∷ n ∷ [] else (flags + 2) ∷ to_be_bytes_u64 n

-- Refused if the buffer cannot hold the header; else the header stands at its front.
abbrev pub Encoded : Bytes → ℕ → ℕ → Result FrameError (ℕ × Bytes)
Encoded buf flags n =
    if ltb (length buf) (header_len n)
    then err buffer_too_small
    else ok (header_len n, header flags n ++ drop (header_len n) buf)

pub length-header : (flags n : ℕ) → length (header flags n) ≡ header_len n
length-header flags n = ground arith

short_header :
    (buf : Bytes) (flags n : ℕ)
    → n ≤ 255
    → 2 ≤ length buf
    → copy_at {E = FrameError} buf 0 (flags ∷ as_u8 n ∷ []) ≡ ok (flags ∷ n ∷ drop 2 buf)
short_header buf flags n small room =
    copy_at_in buf 0 (flags ∷ as_u8 n ∷ []) room
    ∙ ap (λ (b : ℕ). ok (flags ∷ b ∷ drop 2 buf)) (let e : as_u8 n ≡ n = omega arith in e)

-- Two copies that fill the nine bytes of a long header.
long_header :
    (buf : Bytes) (flags n : ℕ)
    → 9 ≤ length buf
    → (copy_at {E = FrameError} buf 0 (flags ∷ []) >>= λ buf'. copy_at buf' 1 (to_be_bytes_u64 n))
      ≡ ok (flags ∷ to_be_bytes_u64 n ++ drop 9 buf)
long_header buf flags n room =
    let one : Bytes = flags ∷ [] in
    let fits : 0 + length one ≤ length buf = omega arith in
    let next : 1 + length (to_be_bytes_u64 n) ≤ length (overwrite buf 0 one) =
      omega (arith, length-overwrite buf 0 one fits) in
    rw (copy_at_in {E = FrameError} buf 0 one fits) (
      copy_at_in (overwrite buf 0 one) 1 (to_be_bytes_u64 n) next
      ∙ ap ok (overwrite-overwrite buf 0 one (to_be_bytes_u64 n) room))

-- `encode_message_frame` on every input: the flags byte is 1 for `more` and 0 else.
pub encode_message_frame_lem :
    (buf : Bytes) (n : ℕ) (more : Bool)
    → encode_message_frame buf n more ≡ Encoded buf (from_bool more) n
unfolding encode_message_frame
encode_message_frame_lem buf n true = ground (arith, short_header buf 1 n, long_header buf 3 n)
encode_message_frame_lem buf n false = ground (arith, short_header buf 0 n, long_header buf 2 n)

pub encode_command_frame_lem : (buf : Bytes) (n : ℕ) → encode_command_frame buf n ≡ Encoded buf 4 n
unfolding encode_command_frame
encode_command_frame_lem buf n = ground (arith, short_header buf 4 n, long_header buf 6 n)

-- The header stands in the bytes that a call claims to have written.
pub Encoded-ok :
    (buf out : Bytes) (flags n k : ℕ)
    → Encoded buf flags n ≡ ok (k, out)
    → (k ≡ header_len n) × (take k out ≡ header flags n)
Encoded-ok buf out flags n k e = elim (Bool-cases (ltb (length buf) (header_len n))) [
  | inl small ↦ absurd (cc (rw small at e))
  | inr room ↦
      let f = rw room at e in
      let written : out ≡ header flags n ++ drop (header_len n) buf = ground arith in
      let size : k ≡ header_len n = ground arith in
      (size, rw written (take-append k (header flags n) _ (size ∙ sym (length-header flags n))))
]
