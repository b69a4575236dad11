-- ===== src/Tests/RadioHandshakes.antt =====
-- The handshakes of a RADIO connection with a peer of ZMTP 3.1.
use mzmq_rs.Prelude.{◌^◌, ◌≡◌, refl, true, List, [], ◌∷◌, ◌++◌, Bytes, ok, arith}
use mzmq_rs.Null.{ready_name, dish, eq_ignore_ascii_case, parse_ready_radio_from}
use mzmq_rs.Null.Metadata.{Property, encode_properties, parse_ready_radio_from-encode}
use mzmq_rs.Plain.Hello.{parse_hello_from-encode}
use mzmq_rs.RadioConnection.{
  new, new_plain, established, write_greeting, write_ready, write_welcome,
}
use mzmq_rs.RadioConnection.Feed.{feed}
use mzmq_rs.RadioConnection.Feed.Commands.{command_bytes}
use mzmq_rs.RadioConnection.Feed.Handshake.{radio_null_handshake}
use mzmq_rs.RadioConnection.Feed.PlainHandshake.{radio_plain_handshake}
use mzmq_rs.Tests.Handshakes.{
  version_1, null_hello, null_hello_ok, plain_hello_bytes, plain_hello_ok, no_password, hello_body,
  buffer,
}
use mzmq_rs.Tests.Vecs.{small}

abbrev dish_metadata : List Property
dish_metadata =
    (record {
      name = b's' ∷ b'o' ∷ b'c' ∷ b'k' ∷ b'e' ∷ b't' ∷ b'-' ∷ b't' ∷ b'y' ∷ b'p' ∷ b'e' ∷ [];
      value = b'D' ∷ b'I' ∷ b'S' ∷ b'H' ∷ [];
    })
    ∷ []

abbrev pub dish_ready : Bytes
dish_ready = 5 ∷ ready_name ++ encode_properties dish_metadata

pub dish_ready_ok : parse_ready_radio_from (2 ^ 64) true dish_ready ≡ ok dish
unfolding eq_ignore_ascii_case
dish_ready_ok =
    parse_ready_radio_from-encode (2 ^ 64) dish_metadata ((omega arith, omega arith), tt)
      (omega arith) refl

radio_null_handshake_example :
    let c₁ = (write_greeting small (new small) buffer).0 in
    let c₂ = (feed small c₁ null_hello).0 in
    let c₃ = (write_ready small c₂ buffer).0 in
    ((feed small c₃ (command_bytes dish_ready ++ (0 ∷ []))).0.state ≡ established)
    × ((feed small c₃ (command_bytes dish_ready ++ (0 ∷ []))).1 ≡ ok 28)
radio_null_handshake_example =
    radio_null_handshake small null_hello dish_ready (0 ∷ []) buffer buffer version_1 dish refl
      null_hello_ok (omega arith) (omega arith) (omega arith) (omega arith) dish_ready_ok
      (omega arith) (omega arith)

radio_plain_handshake_example :
    let c₁ = (write_greeting small (new_plain small no_password) buffer).0 in
    let c₂ = (feed small c₁ plain_hello_bytes).0 in
    let c₃ = (feed small c₂ (command_bytes hello_body)).0 in
    let c₄ = (write_welcome small c₃ buffer).0 in
    let c₅ = (write_ready small c₄ buffer).0 in
    ((feed small c₅ (command_bytes dish_ready ++ [])).0.state ≡ established)
    × ((feed small c₅ (command_bytes dish_ready ++ [])).1 ≡ ok 28)
radio_plain_handshake_example =
    radio_plain_handshake small no_password plain_hello_bytes hello_body (b'm' ∷ b'e' ∷ []) []
      dish_ready [] buffer buffer buffer version_1 dish refl plain_hello_ok (omega arith)
      (parse_hello_from-encode (b'm' ∷ b'e' ∷ []) [] []) refl (omega arith) (omega arith)
      (omega arith) (omega arith) dish_ready_ok (omega arith) (omega arith) (omega arith)
