-- ===== src/Plain/Hello.antt =====
-- HELLO bodies: which are read, and what of them.
use mzmq_rs.Prelude.{
  ℕ, get_or, ◌+◌, ◌≡◌, refl, ap, append_assoc, Bool, true, false, [], ◌∷◌, ◌++◌, ltb, le→ltb,
  lt→leb, if◌then◌else◌, length, length-append, index, index-append, index_in, Bytes, slice,
  copy_at_in, drop, slice_at, equal, ok, err, NoPanic, arith,
}
use mzmq_rs.Plain.{
  buffer_too_small, welcome_frame, encode_welcome, PlainError, hello_name, parse_credentials,
  parse_hello_from,
}

-- `username-size username password-size password`, as RFC 24 has it.
abbrev pub encode_credentials : Bytes → Bytes → Bytes
encode_credentials username password = length username ∷ (username ++ (length password ∷ password))

-- The credentials behind `front`, and the parts of the body that are read.
module _ (front username password rest : Bytes) where
  abbrev body_of : Bytes
  body_of = front ++ (encode_credentials username password ++ rest)

  abbrev before_password : Bytes
  before_password = front ++ (length username ∷ username)

  length-before_password : length before_password ≡ length front + 1 + length username
  length-before_password = omega (arith, length-append front (length username ∷ username))

  username_part :
      body_of
      ≡ (front ++ length username ∷ []) ++ (username ++ (length password ∷ password ++ rest))
  username_part = simp append_assoc

  size_part : body_of ≡ before_password ++ length password ∷ (password ++ rest)
  size_part = simp append_assoc

  password_part : body_of ≡ (before_password ++ length password ∷ []) ++ (password ++ rest)
  password_part = simp append_assoc

  length-body_of :
      length body_of ≡ length front + 1 + length username + 1 + length password + length rest
  length-body_of = omega (
    arith,
    ap length size_part,
    length-before_password,
    length-append before_password (length password ∷ (password ++ rest)),
    length-append password rest,
  )

  parse_credentials-encode : parse_credentials body_of (length front) ≡ ok (username, password)
  unfolding parse_credentials
  parse_credentials-encode =
      let pos = length front + 1 in
      let pos' = pos + length username in
      let m : index {E = PlainError} body_of (length front) ≡ ok (length username) =
        index-append front _ _ _ refl in
      let n : index {E = PlainError} body_of pos' ≡ ok (length password) =
        rw size_part
          (index-append before_password _ _ pos' (omega (arith, length-before_password))) in
      let name : slice {E = PlainError} body_of pos pos' ≡ ok username =
        slice_at body_of (front ++ length username ∷ []) username _ _ _ username_part
          (omega (arith, length-append front (length username ∷ [])))
          (omega (arith, length-append front (length username ∷ []))) in
      let word : slice {E = PlainError} body_of (pos' + 1) (pos' + 1 + length password)
          ≡ ok password =
        slice_at body_of (before_password ++ length password ∷ []) password _ _ _ password_part
          (omega
            (arith, length-before_password, length-append before_password (length password ∷ [])))
          (omega (
            arith,
            length-before_password,
            length-append before_password (length password ∷ []),
          )) in
      rw
        (
          lt→leb (length body_of) (length front) (omega (arith, length-body_of)),
          m,
          le→ltb (length body_of) pos' (omega (arith, length-body_of)),
          name,
          lt→leb (length body_of) pos' (omega (arith, length-body_of)),
          n,
          le→ltb (length body_of) (pos' + 1 + length password) (omega (arith, length-body_of)),
          word,
        )
        refl

-- A HELLO body gives back the user name and the password that were written into it. Bytes behind the
-- password are ignored.
pub parse_hello_from-encode :
    (username password rest : Bytes)
    → parse_hello_from true ((5 ∷ hello_name) ++ (encode_credentials username password ++ rest))
      ≡ ok (username, password)
unfolding parse_hello_from equal
parse_hello_from-encode username password rest =
    let front = 5 ∷ hello_name in
    let body = front ++ (encode_credentials username password ++ rest) in
    let name : slice {E = PlainError} body 1 6 ≡ ok hello_name =
      slice_at body (5 ∷ []) hello_name _ 1 6 refl refl refl in
    rw (le→ltb (length body) 6 (omega (arith, length-body_of front username password rest)), name)
      (parse_credentials-encode front username password rest)

parse_credentials-NoPanic : (body : Bytes) (pos : ℕ) → NoPanic (parse_credentials body pos)
unfolding parse_credentials slice
parse_credentials-NoPanic body pos = ground (
  arith,
  index_in {E = PlainError} body pos,
  index_in {E = PlainError} body (pos + 1 + get_or body pos 0),
)

-- No body makes `parse_hello_from` panic: the name, both sizes, the user name and the password are read
-- within the body.
pub parse_hello_from-NoPanic :
    (is_command : Bool) (body : Bytes) → NoPanic (parse_hello_from is_command body)
unfolding parse_hello_from slice
parse_hello_from-NoPanic false body = tt
parse_hello_from-NoPanic true [] = tt
parse_hello_from-NoPanic true (name_len ∷ rest) =
    ground (arith, parse_credentials-NoPanic (name_len ∷ rest) (1 + name_len))

-- The WELCOME frame stands at the front of a buffer that has room for it.
pub encode_welcome_lem :
    (buf : Bytes)
    → encode_welcome buf ≡ (
        if ltb (length buf) 10 then err buffer_too_small else ok (10, welcome_frame ++ drop 10 buf))
unfolding encode_welcome
encode_welcome_lem buf = ground (arith, copy_at_in {E = PlainError} buf 0 welcome_frame)
