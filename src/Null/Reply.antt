-- ===== src/Null/Reply.antt =====
-- The frames of `encode_ready`, `encode_ready_radio` and `encode_error`.
use mzmq_rs.Prelude.{
  ℕ, ◌+◌, ◌≤◌, ◌≡◌, refl, ap, ◌∙◌, true, [], ◌∷◌, ◌++◌, ltb, le→ltb, if◌then◌else◌, length, drop,
  Bytes, as_u8, copy_at, copy_at_in, copy_at_behind, slice, slice_at, equal, ok, err, ◌>>=◌, arith,
}
use mzmq_rs.Null.{
  NullError, buffer_too_small, reason_too_long, peer_error, error_name, encode_error, encode_ready,
  encode_ready_radio, ready_frame, radio_ready_frame, parse_ready_command,
}

-- The body of an ERROR command, and the frame around it.
abbrev pub error_body : Bytes → Bytes
error_body reason = 5 ∷ error_name ++ (length reason ∷ reason)

abbrev pub error_frame : Bytes → Bytes
error_frame reason = 4 ∷ (7 + length reason) ∷ error_body reason

length-error_frame : (reason : Bytes) → length (error_frame reason) ≡ 9 + length reason
length-error_frame reason = omega arith

-- The four writes fill the front of the buffer.
error_writes :
    (buf reason : Bytes)
    → length reason ≤ 248
    → 9 + length reason ≤ length buf
    → (do
      buf₁ ← copy_at {E = NullError} buf 0 (0x04 ∷ as_u8 (1 + 5 + 1 + length reason) ∷ 0x05 ∷ [])
      buf₂ ← copy_at buf₁ 3 error_name
      buf₃ ← copy_at buf₂ 8 (as_u8 (length reason) ∷ [])
      copy_at buf₃ 9 reason)
      ≡ ok (error_frame reason ++ drop (9 + length reason) buf)
error_writes buf reason short room =
    let size : as_u8 (1 + 5 + 1 + length reason) ≡ 7 + length reason = omega arith in
    let len : as_u8 (length reason) ≡ length reason = omega arith in
    let head : Bytes = 4 ∷ (7 + length reason) ∷ 5 ∷ [] in
    rw
      (
        size,
        len,
        copy_at_in {E = NullError} buf 0 head (omega arith),
        copy_at_behind {E = NullError} buf 0 head error_name 3 refl (omega arith),
        copy_at_behind {E = NullError} buf 0 (head ++ error_name) (length reason ∷ []) 8 refl
            (omega arith),
      )
      (copy_at_behind buf 0 (head ++ error_name ++ length reason ∷ []) reason 9 refl (omega arith)
        ∙ ap (λ (k : ℕ). ok (error_frame reason ++ drop k buf)) (omega arith))

-- A reason of more than 248 bytes is refused, then a buffer that is too small for the frame; else the
-- ERROR frame stands at the front of the buffer, and the rest of it is as before.
pub encode_error_lem :
    (buf reason : Bytes)
    → encode_error buf reason ≡ (
        if ltb 248 (length reason)
        then err reason_too_long
        else if ltb (length buf) (9 + length reason)
        then err buffer_too_small
        else ok (9 + length reason, error_frame reason ++ drop (9 + length reason) buf))
unfolding encode_error
encode_error_lem buf reason = ground (arith, error_writes buf reason)

-- The other side's READY parser reports that frame's body as the peer's error.
pub parse_ready_command-error :
    (usize : ℕ) (reason : Bytes)
    → parse_ready_command usize true (error_body reason) ≡ err peer_error
unfolding parse_ready_command equal
parse_ready_command-error usize reason =
    let body = error_body reason in
    let name : slice {E = NullError} body 1 6 ≡ ok error_name =
      slice_at body (5 ∷ []) error_name (length reason ∷ reason) 1 6 refl refl refl in
    rw (le→ltb (length body) 6 (omega arith), name) refl

-- A READY frame stands at the front of a buffer that has room for it.
pub encode_ready_lem :
    (buf : Bytes)
    → encode_ready buf
      ≡ (if ltb (length buf) 27 then err buffer_too_small else ok (27, ready_frame ++ drop 27 buf))
unfolding encode_ready
encode_ready_lem buf = ground (arith, copy_at_in {E = NullError} buf 0 ready_frame)

pub encode_ready_radio_lem :
    (buf : Bytes)
    → encode_ready_radio buf ≡ (
        if ltb (length buf) 29
        then err buffer_too_small
        else ok (29, radio_ready_frame ++ drop 29 buf))
unfolding encode_ready_radio
encode_ready_radio_lem buf = ground (arith, copy_at_in {E = NullError} buf 0 radio_ready_frame)
