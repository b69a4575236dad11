-- ===== src/Null/Metadata.antt =====
-- Metadata as a peer writes it: a list of properties, and what `parse_ready_command` finds in it.
use native.Mathlib.Nat.{mod-eq_of_lt}
use mzmq_rs.Prelude.{
  ℕ, zero, suc, ◌+◌, ◌%◌, ◌^◌, ◌<◌, ◌≡◌, refl, sym, true, List, [], ◌∷◌, ◌++◌, append_assoc,
  append-nil, ◌&&◌, ◌==◌, le→ltb, le→leb, lt→leb, if◌then◌else◌, length, length-append, All, index,
  index-append, Bytes, to_be_bytes_u32, from_be_bytes-u32, slice, slice_at, equal, Result, ok, err,
  arith,
}
use mzmq_rs.Null.{
  NullError, wrong_socket_type, ready_name, socket_type, eq_ignore_ascii_case, PropHeader,
  read_prop_header, read_prop_value, find_socket_type, parse_ready_command, parse_ready_from, sub,
  sub_name, parse_ready_radio_from, dish, dish_name,
}

pub record Property : Type 0 where
  pub name : Bytes
  pub value : Bytes

-- `name-size name value-size value`, as RFC 23 has it.
abbrev pub encode_property : Property → Bytes
encode_property p = length p.name ∷ (p.name ++ (to_be_bytes_u32 (length p.value) ++ p.value))

abbrev pub encode_properties : List Property → Bytes
encode_properties [] = []
encode_properties (p ∷ ps) = encode_property p ++ encode_properties ps

-- The sizes fit their fields.
abbrev pub IsEncodable : Property → Type 0
IsEncodable p = (length p.name < 256) × (length p.value < 2 ^ 32)

-- The value of the first property called Socket-Type, in any case.
abbrev pub first_socket_type : List Property → Result NullError Bytes
first_socket_type [] = err wrong_socket_type
first_socket_type (p ∷ ps) =
    let rest = first_socket_type ps in
    if length p.name == 11 && eq_ignore_ascii_case p.name socket_type then ok p.value else rest

length-encode_property :
    (p : Property) → length (encode_property p) ≡ 5 + length p.name + length p.value
length-encode_property p =
    omega (arith, length-append p.name (to_be_bytes_u32 (length p.value) ++ p.value))

-- What a round reads of the property at `front`.
abbrev header_of : Bytes → Property → PropHeader
header_of front p = record {
  prop_name_len = length p.name;
  prop_name = p.name;
  val_len = length p.value;
  pos = length front + 1 + length p.name + 4;
}

-- A body that holds a property behind `front`, and the parts of it that a round reads.
module _ (front : Bytes) (p : Property) (rest : Bytes) where
  abbrev body_of : Bytes
  body_of = front ++ (encode_property p ++ rest)

  abbrev size_of : Bytes
  size_of = to_be_bytes_u32 (length p.value)

  abbrev before_name : Bytes
  before_name = front ++ length p.name ∷ []

  name_part : body_of ≡ before_name ++ (p.name ++ (size_of ++ (p.value ++ rest)))
  name_part = simp append_assoc

  size_part : body_of ≡ (before_name ++ p.name) ++ (size_of ++ (p.value ++ rest))
  size_part = simp append_assoc

  value_part : body_of ≡ ((before_name ++ p.name) ++ size_of) ++ (p.value ++ rest)
  value_part = simp append_assoc

  length-body_of :
      length body_of ≡ length front + 1 + length p.name + 4 + length p.value + length rest
  length-body_of = omega (
    arith,
    length-append front (encode_property p ++ rest),
    length-append (encode_property p) rest,
    length-encode_property p,
  )

  length-before_name : length before_name ≡ length front + 1
  length-before_name = length-append front (length p.name ∷ [])

  read_prop_header-encode :
      IsEncodable p → read_prop_header body_of (length front) ≡ ok (header_of front p)
  unfolding read_prop_header
  read_prop_header-encode h =
      let name_len : index {E = NullError} body_of (length front) ≡ ok (length p.name) =
        index-append front (length p.name) _ (length front) refl in
      let n = length p.name in
      let name : slice {E = NullError} body_of (length front + 1) (length front + 1 + n)
          ≡ ok p.name =
        slice_at body_of before_name p.name _ _ _ name_part (sym length-before_name)
          (omega (arith, length-before_name)) in
      let size : slice {E = NullError} body_of (length front + 1 + n) (length front + 1 + n + 4)
          ≡ ok size_of =
        slice_at body_of (before_name ++ p.name) size_of _ _ _ size_part
          (omega (arith, length-before_name, length-append before_name p.name))
          (omega (arith, length-before_name, length-append before_name p.name)) in
      rw
        (
          name_len,
          le→ltb (length body_of) (length front + 1 + n) (omega (arith, length-body_of)),
          name,
          le→leb (length front + 1 + n + 4) (length body_of) (omega (arith, length-body_of)),
          size,
          from_be_bytes-u32 (length p.value) h.1,
        )
        refl

  read_prop_value-encode :
      (usize : ℕ)
      → length body_of < usize
      → read_prop_value usize body_of (header_of front p)
        ≡ ok (p.value, length (front ++ encode_property p))
  unfolding read_prop_value
  read_prop_value-encode usize h =
      let pos = length front + 1 + length p.name + 4 in
      let value : slice {E = NullError} body_of pos (pos + length p.value) ≡ ok p.value =
        slice_at body_of ((before_name ++ p.name) ++ size_of) p.value rest _ _ value_part
          (omega (
            arith,
            length-before_name,
            length-append before_name p.name,
            length-append (before_name ++ p.name) size_of,
          ))
          (omega (
            arith,
            length-before_name,
            length-append before_name p.name,
            length-append (before_name ++ p.name) size_of,
          )) in
      let end : pos + length p.value ≡ length (front ++ encode_property p) =
        omega (arith, length-append front (encode_property p), length-encode_property p) in
      let small : (pos + length p.value) % usize ≡ pos + length p.value =
        mod-eq_of_lt (omega (arith, length-body_of)) in
      rw
        (
          small,
          le→ltb (length body_of) (pos + length p.value) (omega (arith, length-body_of)),
          value,
          end,
        )
        refl

module _ (usize : ℕ) where
  find_socket_type-encode :
      (ps : List Property) (fuel : ℕ) (front : Bytes)
      → All IsEncodable ps
      → length (front ++ encode_properties ps) < usize
      → length (encode_properties ps) < fuel
      → find_socket_type usize fuel (front ++ encode_properties ps) (length front)
        ≡ first_socket_type ps
  unfolding find_socket_type
  find_socket_type-encode ps zero front h w f = absurd (omega arith)
  find_socket_type-encode [] (suc fuel) front h w f =
      rw (append-nil, le→leb (length front) (length front) (omega arith)) refl
  find_socket_type-encode (p ∷ ps) (suc fuel) front h w f =
      let rest = encode_properties ps in
      let more = front ++ encode_property p in
      let same : front ++ encode_properties (p ∷ ps) ≡ more ++ rest = simp append_assoc in
      let next : find_socket_type usize fuel (front ++ encode_properties (p ∷ ps)) (length more)
          ≡ first_socket_type ps =
        rw same (
          find_socket_type-encode ps fuel more h.1 (rw (← same) w)
            (omega (arith, length-append (encode_property p) rest, length-encode_property p))) in
      rw
        (
          lt→leb (length (front ++ encode_properties (p ∷ ps))) (length front)
              (omega (arith, length-body_of front p rest)),
          read_prop_header-encode front p rest h.0,
          read_prop_value-encode front p rest usize w,
          next,
        )
        refl

  -- On metadata that a peer encodes, in a READY body shorter than the address space, the parser returns
  -- the value of the first property named Socket-Type in any case, and `WrongSocketType` if there is none.
  pub parse_ready_command-encode :
      (ps : List Property)
      → All IsEncodable ps
      → length (5 ∷ ready_name ++ encode_properties ps) < usize
      → parse_ready_command usize true (5 ∷ ready_name ++ encode_properties ps)
        ≡ first_socket_type ps
  unfolding parse_ready_command equal
  parse_ready_command-encode ps h w =
      let body = 5 ∷ ready_name ++ encode_properties ps in
      let name : slice {E = NullError} body 1 6 ≡ ok ready_name =
        slice_at body (5 ∷ []) ready_name (encode_properties ps) 1 6 refl refl refl in
      rw
        (
          le→ltb (length body) 6 (omega arith),
          name,
          find_socket_type-encode ps (length body) (5 ∷ ready_name) h w (omega arith),
        )
        refl

  pub parse_ready_from-encode :
      (ps : List Property)
      → All IsEncodable ps
      → length (5 ∷ ready_name ++ encode_properties ps) < usize
      → first_socket_type ps ≡ ok sub_name
      → parse_ready_from usize true (5 ∷ ready_name ++ encode_properties ps) ≡ ok sub
  unfolding parse_ready_from equal
  parse_ready_from-encode ps h w e = rw (parse_ready_command-encode ps h w, e) refl

  pub parse_ready_radio_from-encode :
      (ps : List Property)
      → All IsEncodable ps
      → length (5 ∷ ready_name ++ encode_properties ps) < usize
      → first_socket_type ps ≡ ok dish_name
      → parse_ready_radio_from usize true (5 ∷ ready_name ++ encode_properties ps) ≡ ok dish
  unfolding parse_ready_radio_from equal
  parse_ready_radio_from-encode ps h w e = rw (parse_ready_command-encode ps h w, e) refl
