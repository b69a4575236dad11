-- ===== src/Tests/Handshakes.antt =====
-- The handshakes with a peer of ZMTP 3.1.
use mzmq_rs.Prelude.{
  ℕ, zero, suc, ◌^◌, ◌≡◌, refl, true, false, List, [], ◌∷◌, ◌++◌, replicate, Bytes, All, ok, arith,
}
use mzmq_rs.Auth.{AuthCheck}
use mzmq_rs.Greeting.{PeerGreeting, parse_greeting, parse_plain_greeting}
use mzmq_rs.Greeting.Fields.{IsZero, parse_greeting_iff, parse_plain_greeting_iff}
use mzmq_rs.Null.{ready_name, sub, eq_ignore_ascii_case, parse_ready_from}
use mzmq_rs.Null.Metadata.{Property, encode_properties, parse_ready_from-encode}
use mzmq_rs.Plain.{hello_name}
use mzmq_rs.Plain.Hello.{encode_credentials, parse_hello_from-encode}
use mzmq_rs.Connection.{new, new_plain, established, write_greeting, write_ready, write_welcome}
use mzmq_rs.Connection.Feed.{feed}
use mzmq_rs.Connection.Feed.Commands.{command_bytes}
use mzmq_rs.Connection.Feed.Handshake.{null_handshake}
use mzmq_rs.Connection.Feed.PlainHandshake.{plain_handshake}
use mzmq_rs.Tests.Vecs.{small}

IsZero-replicate : (n : ℕ) → All IsZero (replicate n 0)
IsZero-replicate zero = tt
IsZero-replicate (suc n) = (refl, IsZero-replicate n)

abbrev pub version_1 : PeerGreeting
version_1 = record { version_minor = 1 }

abbrev pub null_hello : Bytes
null_hello = 0xff ∷ replicate 8 0 ++ (0x7f ∷ 3 ∷ 1 ∷ b'N' ∷ b'U' ∷ b'L' ∷ b'L' ∷ replicate 48 0)

pub null_hello_ok : parse_greeting null_hello ≡ ok version_1
null_hello_ok =
    (parse_greeting_iff null_hello version_1).1
      ((refl, refl, refl), refl, IsZero-replicate 16, refl, refl)

abbrev pub plain_hello_bytes : Bytes
plain_hello_bytes =
    0xff ∷ replicate 8 0 ++ (0x7f ∷ 3 ∷ 1 ∷ b'P' ∷ b'L' ∷ b'A' ∷ b'I' ∷ b'N' ∷ replicate 47 0)

pub plain_hello_ok : parse_plain_greeting plain_hello_bytes ≡ ok version_1
plain_hello_ok =
    (parse_plain_greeting_iff plain_hello_bytes version_1).1
      ((refl, refl, refl), refl, IsZero-replicate 15, refl, refl)

abbrev pub sub_metadata : List Property
sub_metadata =
    (record {
      name = b'S' ∷ b'o' ∷ b'c' ∷ b'k' ∷ b'e' ∷ b't' ∷ b'-' ∷ b'T' ∷ b'y' ∷ b'p' ∷ b'e' ∷ [];
      value = b'S' ∷ b'U' ∷ b'B' ∷ [];
    })
    ∷ []

abbrev pub sub_ready : Bytes
sub_ready = 5 ∷ ready_name ++ encode_properties sub_metadata

pub sub_ready_ok : parse_ready_from (2 ^ 64) true sub_ready ≡ ok sub
unfolding eq_ignore_ascii_case
sub_ready_ok =
    parse_ready_from-encode (2 ^ 64) sub_metadata ((omega arith, omega arith), tt) (omega arith)
      refl

abbrev pub buffer : Bytes
buffer = replicate 64 0

null_handshake_example :
    let c₁ = (write_greeting small (new small) buffer).0 in
    let c₂ = (feed small c₁ null_hello).0 in
    let c₃ = (write_ready small c₂ buffer).0 in
    ((feed small c₃ (command_bytes sub_ready ++ (0 ∷ []))).0.state ≡ established)
    × ((feed small c₃ (command_bytes sub_ready ++ (0 ∷ []))).1 ≡ ok 27)
null_handshake_example =
    null_handshake small null_hello sub_ready (0 ∷ []) buffer buffer version_1 sub refl
      null_hello_ok (omega arith) (omega arith) (omega arith) (omega arith) sub_ready_ok
      (omega arith) (omega arith)

-- An authenticator that accepts anyone without a password.
abbrev pub no_password : AuthCheck
no_password username [] = true
no_password username (x ∷ password) = false

abbrev pub hello_body : Bytes
hello_body = (5 ∷ hello_name) ++ (encode_credentials (b'm' ∷ b'e' ∷ []) [] ++ [])

plain_handshake_example :
    let c₁ = (write_greeting small (new_plain small no_password) buffer).0 in
    let c₂ = (feed small c₁ plain_hello_bytes).0 in
    let c₃ = (feed small c₂ (command_bytes hello_body)).0 in
    let c₄ = (write_welcome small c₃ buffer).0 in
    let c₅ = (write_ready small c₄ buffer).0 in
    ((feed small c₅ (command_bytes sub_ready ++ [])).0.state ≡ established)
    × ((feed small c₅ (command_bytes sub_ready ++ [])).1 ≡ ok 27)
plain_handshake_example =
    plain_handshake small no_password plain_hello_bytes hello_body (b'm' ∷ b'e' ∷ []) [] sub_ready
      [] buffer buffer buffer version_1 sub refl plain_hello_ok (omega arith)
      (parse_hello_from-encode (b'm' ∷ b'e' ∷ []) [] []) refl (omega arith) (omega arith)
      (omega arith) (omega arith) sub_ready_ok (omega arith) (omega arith) (omega arith)
