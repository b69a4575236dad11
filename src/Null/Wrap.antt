-- ===== src/Null/Wrap.antt =====
-- The sum `pos + val_len` of `parse_ready_command` where `usize` is too narrow for it.
use native.Mathlib.Nat.{mod-eq_of_lt, mod-eq-sub-mod}
use mzmq_rs.Prelude.{
  ℕ, ◌+◌, ◌-◌, ◌%◌, ◌^◌, ◌≤◌, ◌<◌, ◌≡◌, refl, true, [], ◌∷◌, ◌++◌, append-nil, le→ltb, le→leb,
  lt→leb, length, length-append, Bytes, index, to_be_bytes_u32, from_be_bytes-u32, slice, slice_at,
  slice_reversed, equal, ok, panic, arith,
}
use mzmq_rs.Null.{
  NullError, ready_name, PropHeader, read_prop_header, read_prop_value, find_socket_type,
  parse_ready_command,
}

-- A READY body whose only property has this name, and says that its value has `n` bytes.
abbrev pub cut_ready : Bytes → ℕ → Bytes
cut_ready name n = 5 ∷ ready_name ++ (length name ∷ (name ++ to_be_bytes_u32 n))

module _ (usize : ℕ) (name : Bytes) (n : ℕ) where
  abbrev value_pos : ℕ
  value_pos = 11 + length name

  abbrev cut_header : PropHeader
  cut_header = record {
    prop_name_len = length name;
    prop_name = name;
    val_len = n;
    pos = value_pos;
  }

  length-cut_ready : length (cut_ready name n) ≡ value_pos
  length-cut_ready = omega (arith, length-append name (to_be_bytes_u32 n))

  read_prop_header-cut : n < 2 ^ 32 → read_prop_header (cut_ready name n) 6 ≡ ok cut_header
  unfolding read_prop_header index
  read_prop_header-cut h =
      let body = cut_ready name n in
      let front = 5 ∷ ready_name ++ length name ∷ [] in
      let name_slice : slice {E = NullError} body 7 (7 + length name) ≡ ok name =
        slice_at body front name (to_be_bytes_u32 n) _ _ refl refl refl in
      let size_slice : slice {E = NullError} body (7 + length name) (7 + length name + 4)
          ≡ ok (to_be_bytes_u32 n) =
        slice_at body (front ++ name) (to_be_bytes_u32 n) [] _ _ (simp append-nil)
          (omega (arith, length-append front name)) (omega (arith, length-append front name)) in
      rw
        (
          le→ltb (length body) (7 + length name) (omega (arith, length-cut_ready)),
          name_slice,
          le→leb (7 + length name + 4) (length body) (omega (arith, length-cut_ready)),
          size_slice,
          from_be_bytes-u32 n h,
        )
        (ground arith)

  read_prop_value-cut :
      usize ≤ value_pos + n
      → n < usize
      → value_pos ≤ usize
      → read_prop_value usize (cut_ready name n) cut_header ≡ panic
  unfolding read_prop_value
  read_prop_value-cut h k l =
      let body = cut_ready name n in
      let end = (value_pos + n) % usize in
      let low : end < value_pos = omega (
        arith,
        mod-eq-sub-mod h,
        mod-eq_of_lt {n = value_pos + n - usize} {m = usize} (omega arith),
      ) in
      rw
        (
          le→ltb (length body) end (omega (arith, length-cut_ready)),
          slice_reversed {E = NullError} body value_pos end low,
        )
        refl

  -- Where `usize` holds the position of a value and its announced length of 32 bits, but not their
  -- sum, the check of the end lets a wrapped sum through and the slice of the value panics.
  pub parse_ready_command_wraps :
      n < 2 ^ 32
      → usize ≤ value_pos + n
      → n < usize
      → value_pos ≤ usize
      → parse_ready_command usize true (cut_ready name n) ≡ panic
  unfolding parse_ready_command find_socket_type equal
  parse_ready_command_wraps w h k l =
      let body = cut_ready name n in
      let name_slice : slice {E = NullError} body 1 6 ≡ ok ready_name =
        slice_at body (5 ∷ []) ready_name (length name ∷ (name ++ to_be_bytes_u32 n)) 1 6 refl refl
          refl in
      rw
        (
          le→ltb (length body) 6 (omega (arith, length-cut_ready)),
          name_slice,
          lt→leb (length body) 6 (omega (arith, length-cut_ready)),
          read_prop_header-cut w,
          read_prop_value-cut h k l,
        )
        refl
