-- ===== src/Null/Bounds.antt =====
-- `parse_ready_command` keeps its slices in bounds where `usize` has room for the length of the body
-- and a 32-bit value.
use native.Mathlib.Nat.{mod-eq_of_lt}
use mzmq_rs.Prelude.{
  ℕ, zero, suc, ◌+◌, ◌-◌, ◌%◌, ◌^◌, ◌≤◌, ◌<◌, ◌≡◌, Bool, true, false, [], ◌∷◌, ltb, leb, Bool-cases,
  inl, inr, length, All, All-take, All-drop, length-take, length-drop, not, bit_and, ◌==◌, get_or,
  take, drop, Bytes, IsByte, from_be_bytes, slice_in, index_in, Result, ok, err, panic, ◌>>=◌,
  NoPanic, arith, tests,
}
use mzmq_rs.Null.{
  NullError, PropHeader, read_prop_header, read_prop_value, find_socket_type, parse_ready_command,
  parse_ready_from, parse_ready_radio_from, parse_ready, parse_ready_radio,
}

-- Four bytes are below 2 ^ 32.
from_be_bytes_u32 : (b : Bytes) → All IsByte b → length b ≤ 4 → from_be_bytes b < 2 ^ 32
from_be_bytes_u32 [] h k = omega arith
from_be_bytes_u32 (a ∷ []) h k = omega (arith, h.0)
from_be_bytes_u32 (a ∷ b ∷ []) h k = omega (arith, h.0, h.1.0)
from_be_bytes_u32 (a ∷ b ∷ c ∷ []) h k = omega (arith, h.0, h.1.0, h.1.1.0)
from_be_bytes_u32 (a ∷ b ∷ c ∷ d ∷ []) h k = omega (arith, h.0, h.1.0, h.1.1.0, h.1.1.1.0)
from_be_bytes_u32 (a ∷ b ∷ c ∷ d ∷ e ∷ s) h k = absurd (omega arith)

-- The header ends in the body, at least five bytes on.
abbrev HeaderIn : Bytes → ℕ → Result NullError PropHeader → Type 0
HeaderIn body pos (ok h) = (5 + pos ≤ h.pos) × (h.pos ≤ length body) × (h.val_len < 2 ^ 32)
HeaderIn body pos (err e) = Unit
HeaderIn body pos panic = ⊥

-- The value ends in the body.
abbrev ValueIn : Bytes → ℕ → Result NullError (Bytes × ℕ) → Type 0
ValueIn body pos (ok (val, pos')) = (pos ≤ pos') × (pos' ≤ length body)
ValueIn body pos (err e) = Unit
ValueIn body pos panic = ⊥

read_prop_header-HeaderIn :
    (body : Bytes) (pos : ℕ)
    → All IsByte body
    → pos < length body
    → HeaderIn body pos (read_prop_header body pos)
unfolding read_prop_header
read_prop_header-HeaderIn body pos bytes inside =
    let n = get_or body pos 0 in
    let end = pos + 1 + n in
    rw (index_in {E = NullError} body pos inside) (elim (Bool-cases (ltb (length body) end)) [
      | inl short ↦ rw short tt
      | inr long ↦ elim (Bool-cases (leb (end + 4) (length body))) [
        | inr short ↦
            rw
              (long, slice_in {E = NullError} body (pos + 1) end (omega arith) (omega tests), short)
              tt
        | inl sized ↦
            let in' : end + 4 ≤ length body = ground arith in
            let size = take (end + 4 - end) (drop end body) in
            rw
              (
                long,
                slice_in {E = NullError} body (pos + 1) end (omega arith) (omega tests),
                sized,
                slice_in {E = NullError} body end (end + 4) (omega arith) in',
              )
              (
                omega arith,
                in',
                from_be_bytes_u32 size
                    (All-take IsByte (end + 4 - end) (drop end body)
                      (All-drop IsByte end body bytes))
                    (omega (arith, length-take (end + 4 - end) (drop end body))),
              )
      ]
    ])

module _ (body : Bytes) (pos : ℕ) where
  header_then :
      (m : Result NullError PropHeader) (f : PropHeader → Result NullError Bytes)
      → HeaderIn body pos m
      → ((h : PropHeader)
          → 5 + pos ≤ h.pos
          → h.pos ≤ length body
          → h.val_len < 2 ^ 32
          → NoPanic (f h))
      → NoPanic (m >>= f)
  header_then (ok h) f v k = k h v.0 v.1 v.2
  header_then (err e) f v k = tt
  header_then panic f v k = absurd v

  value_then :
      (m : Result NullError (Bytes × ℕ)) (f : Bytes × ℕ → Result NullError Bytes)
      → ValueIn body pos m
      → ((val : Bytes) (pos' : ℕ) → pos ≤ pos' → pos' ≤ length body → NoPanic (f (val, pos')))
      → NoPanic (m >>= f)
  value_then (ok (val, pos')) f v k = k val pos' v.0 v.1
  value_then (err e) f v k = tt
  value_then panic f v k = absurd v

module _ (usize : ℕ) (body : Bytes) (room : length body + 2 ^ 32 ≤ usize) where
  read_prop_value-ValueIn :
      (h : PropHeader)
      → h.pos ≤ length body
      → h.val_len < 2 ^ 32
      → ValueIn body h.pos (read_prop_value usize body h)
  unfolding read_prop_value
  read_prop_value-ValueIn h p v =
      let end = h.pos + h.val_len in
      let small : end % usize ≡ end = mod-eq_of_lt (omega arith) in
      elim (Bool-cases (ltb (length body) end)) [
        | inl short ↦ rw (small, short) tt
        | inr long ↦
            rw (small, long, slice_in {E = NullError} body h.pos end (omega arith) (omega tests))
              (omega arith, omega tests)
      ]

  find_socket_type-NoPanic :
      (fuel pos : ℕ)
      → All IsByte body
      → length body < fuel + pos
      → pos ≤ length body
      → NoPanic (find_socket_type usize fuel body pos)
  unfolding find_socket_type
  find_socket_type-NoPanic zero pos b f p = absurd (omega arith)
  find_socket_type-NoPanic (suc fuel) pos b f p = elim (Bool-cases (leb (length body) pos)) [
    | inl done ↦ rw done tt
    | inr more ↦ rw more (
        header_then body pos _ _ (read_prop_header-HeaderIn body pos b (omega tests))
          λ h at_least in' small.
            value_then body h.pos _ _ (read_prop_value-ValueIn h in' small)
              λ val pos' after in''. ground (arith, find_socket_type-NoPanic fuel pos'))
  ]

module _ (usize : ℕ) where
  -- On a body of bytes that is not within 2 ^ 32 of the end of `usize`, in particular on every body of
  -- a 64-bit build, parsing a READY command returns a value or an error: it never panics, and the
  -- length of the body is fuel enough for its loop.
  pub parse_ready_command-NoPanic :
      (is_command : Bool) (body : Bytes)
      → All IsByte body
      → length body + 2 ^ 32 ≤ usize
      → NoPanic (parse_ready_command usize is_command body)
  unfolding parse_ready_command
  parse_ready_command-NoPanic false body b room = tt
  parse_ready_command-NoPanic true [] b room = tt
  parse_ready_command-NoPanic true (name_len ∷ rest) b room =
      let body = name_len ∷ rest in
      elim (Bool-cases (ltb (length body) (1 + name_len))) [
        | inl short ↦ rw short tt
        | inr long ↦
            rw (long, slice_in {E = NullError} body 1 (1 + name_len) (omega arith) (omega tests))
              (ground
                (arith, find_socket_type-NoPanic usize body room (length body) (1 + name_len)))
      ]

  -- The same of the socket type of the peer.
  pub parse_ready_from-NoPanic :
      (is_command : Bool) (body : Bytes)
      → All IsByte body
      → length body + 2 ^ 32 ≤ usize
      → NoPanic (parse_ready_from usize is_command body)
  unfolding parse_ready_from
  parse_ready_from-NoPanic is_command body b room =
      ground (arith, parse_ready_command-NoPanic is_command body b room)

  pub parse_ready_radio_from-NoPanic :
      (is_command : Bool) (body : Bytes)
      → All IsByte body
      → length body + 2 ^ 32 ≤ usize
      → NoPanic (parse_ready_radio_from usize is_command body)
  unfolding parse_ready_radio_from
  parse_ready_radio_from-NoPanic is_command body b room =
      ground (arith, parse_ready_command-NoPanic is_command body b room)

  -- The same of a whole READY frame in a buffer.
  parse_ready-NoPanic :
      (buf : Bytes)
      → All IsByte buf
      → length buf + 2 ^ 32 ≤ usize
      → NoPanic (parse_ready usize buf) × NoPanic (parse_ready_radio usize buf)
  unfolding parse_ready parse_ready_radio
  parse_ready-NoPanic buf b room =
      let n = get_or buf 1 0 in
      let body = take (2 + n - 2) (drop 2 buf) in
      let is_command = not (bit_and (get_or buf 0 0) 0x04 == 0) in
      let bytes = All-take IsByte (2 + n - 2) (drop 2 buf) (All-drop IsByte 2 buf b) in
      let room' : length body + 2 ^ 32 ≤ usize =
        omega (arith, length-take (2 + n - 2) (drop 2 buf), length-drop 2 buf) in
      let flags = index_in {E = NullError} buf 0 in
      let size = index_in {E = NullError} buf 1 in
      let part = slice_in {E = NullError} buf 2 (2 + n) in
      (
        ground (arith, flags, size, part, parse_ready_from-NoPanic is_command body bytes room'),
        ground
            (arith, flags, size, part, parse_ready_radio_from-NoPanic is_command body bytes room'),
      )
