-- ===== src/Tests/Frames.antt =====
-- Frames at a decoder of 4 bytes, greetings, and commands of the handshakes.
use mzmq_rs.Prelude.{
  ◌↔◌, zero, suc, List, ◌-◌, panic, ℕ, ◌+◌, ◌^◌, ◌≡◌, inl, inr, refl, true, false, [], ◌∷◌, ◌++◌,
  Bytes, All, take, replicate, to_be_bytes_u64, ok, err, NoPanic, arith,
}
use mzmq_rs.Frame.Encode.{encode_message_frame_lem, encode_command_frame_lem}
use mzmq_rs.Frame.Decoder.{
  FrameDecoder, need_body, poisoned, reserved_flag_bits, body_too_large, new, feed,
}
use mzmq_rs.Frame.Decoder.Inv.{IsValid, Outcome, new-IsValid, feed-Outcome}
use mzmq_rs.Frame.Decoder.Stream.{resume, feed-append}
use mzmq_rs.Frame.Decoder.RoundTrip.{
  Reads, decoded, feed-encode_message_frame, feed-encode_command_frame, feed_long_size,
}
use mzmq_rs.Frame.Decoder.Refusal.{feed_flags_refuses, feed_long_refuses}
use mzmq_rs.Greeting.{
  GreetingError, parse_greeting, parse_plain_greeting, parse_partial_greeting, greeting_partial_len,
}
use mzmq_rs.Greeting.Fields.{
  IsZero, parse_greeting_iff, parse_plain_greeting_iff, parse_partial_greeting_early, HasSignature,
  OfFirstBytes,
}
use mzmq_rs.Null.{parse_ready_command, encode_error, ready_name, buffer_too_small}
use mzmq_rs.Null.Metadata.{
  Property, encode_properties, first_socket_type, parse_ready_command-encode,
}
use mzmq_rs.Null.Bounds.{parse_ready_command-NoPanic}
use mzmq_rs.Null.Wrap.{cut_ready, parse_ready_command_wraps}
use mzmq_rs.Null.Reply.{encode_error_lem}
use mzmq_rs.Plain.{hello_name, parse_hello_from}
use mzmq_rs.Plain.Hello.{encode_credentials, parse_hello_from-encode, parse_hello_from-NoPanic}

abbrev word : ℕ
word = 2 ^ 64

-- A decoder of four bytes, before any input.
abbrev fresh : FrameDecoder
fresh = new 4

-- One that has read the first of two body bytes.
abbrev halfway : FrameDecoder
halfway = record { state = need_body false false 1; buf = 0xaa ∷ 0 ∷ 0 ∷ 0 ∷ []; buf_pos = 1 }

halfway-IsValid : IsValid 4 halfway
halfway-IsValid = record { buf_full = refl; state_ok = (omega arith, omega arith) }

feed-append_example :
    feed word 4 halfway ((0xbb ∷ []) ++ (1 ∷ 0 ∷ []))
    ≡ resume word 4 (feed word 4 halfway (0xbb ∷ [])) (1 ∷ 0 ∷ [])
feed-append_example = feed-append word 4 halfway (0xbb ∷ []) (1 ∷ 0 ∷ []) halfway-IsValid

feed-Outcome_example : Outcome 4 3 (feed word 4 halfway (0xbb ∷ 1 ∷ 0 ∷ []))
feed-Outcome_example = feed-Outcome word 4 halfway (0xbb ∷ 1 ∷ 0 ∷ []) halfway-IsValid

abbrev three_bytes : Bytes
three_bytes = 0xaa ∷ 0xbb ∷ 0xcc ∷ []

abbrev nine : Bytes
nine = replicate 9 0

feed-encode_message_frame_example :
    Reads word 4 fresh
      ((take 2 (1 ∷ 3 ∷ replicate 7 0) ++ three_bytes) ++ (0 ∷ []))
      5
      (decoded true false three_bytes)
unfolding new
feed-encode_message_frame_example =
    feed-encode_message_frame word 4 fresh nine (1 ∷ 3 ∷ replicate 7 0) three_bytes (0 ∷ []) true 2
      (new-IsValid 4) refl (omega arith) (omega arith) (omega arith)
      (encode_message_frame_lem nine 3 true)

feed-encode_command_frame_example :
    Reads word 4 fresh
      ((take 2 (4 ∷ 3 ∷ replicate 7 0) ++ three_bytes) ++ [])
      5
      (decoded false true three_bytes)
unfolding new
feed-encode_command_frame_example =
    feed-encode_command_frame word 4 fresh nine (4 ∷ 3 ∷ replicate 7 0) three_bytes [] 2
      (new-IsValid 4) refl (omega arith) (omega arith) (omega arith)
      (encode_command_frame_lem nine 3)

-- On 32 bits a frame of 2 ^ 32 + 3 bytes is read as one of 3.
feed_long_size_example :
    Reads
      (2 ^ 32)
      4
      fresh
      ((2 ∷ to_be_bytes_u64 (2 ^ 32 + 3) ++ three_bytes) ++ (0 ∷ []))
      12
      (decoded false false three_bytes)
unfolding new
feed_long_size_example =
    feed_long_size (2 ^ 32) 4 fresh false false (2 ^ 32 + 3) three_bytes (0 ∷ []) (new-IsValid 4)
      refl (omega arith) (omega arith) (omega arith)

feed_flags_refuses_example :
    feed word 4 fresh (5 ∷ []) ≡ (record fresh { state = poisoned }, err reserved_flag_bits)
unfolding new
feed_flags_refuses_example =
    (feed_flags_refuses word 4 fresh 5 refl (omega arith)).1 (inr (inl refl))

feed_long_refuses_example :
    feed word 4 fresh (6 ∷ to_be_bytes_u64 5 ++ (0 ∷ []))
    ≡ (record fresh { state = poisoned }, err body_too_large)
unfolding new
feed_long_refuses_example =
    feed_long_refuses word 4 fresh false true 5 (0 ∷ []) refl (omega arith) (omega arith)

zeros : (n : ℕ) → All IsZero (replicate n 0)
zeros zero = tt
zeros (suc n) = (refl, zeros n)

-- A greeting as `encode_greeting` writes it.
abbrev null_greeting : Bytes
null_greeting = 0xff ∷ replicate 8 0 ++ (0x7f ∷ 3 ∷ 1 ∷ b'N' ∷ b'U' ∷ b'L' ∷ b'L' ∷ replicate 48 0)

parse_greeting_iff_example : parse_greeting null_greeting ≡ ok (record { version_minor = 1 })
parse_greeting_iff_example =
    (parse_greeting_iff null_greeting (record { version_minor = 1 })).1
      ((refl, refl, refl), refl, zeros 16, refl, refl)

abbrev plain_greeting : Bytes
plain_greeting =
    0xff ∷ replicate 8 0 ++ (0x7f ∷ 3 ∷ 1 ∷ b'P' ∷ b'L' ∷ b'A' ∷ b'I' ∷ b'N' ∷ replicate 47 0)

parse_plain_greeting_iff_example :
    parse_plain_greeting plain_greeting ≡ ok (record { version_minor = 1 })
parse_plain_greeting_iff_example =
    (parse_plain_greeting_iff plain_greeting (record { version_minor = 1 })).1
      ((refl, refl, refl), refl, zeros 15, refl, refl)

parse_partial_greeting_early_example :
    let early = parse_partial_greeting (take greeting_partial_len null_greeting) in
    ((early ≡ ok tt) ↔ HasSignature null_greeting)
    × ((e : GreetingError)
        → (early ≡ err e) ↔ ((parse_greeting null_greeting ≡ err e) × OfFirstBytes e))
    × ((e : GreetingError)
        → (early ≡ err e) ↔ ((parse_plain_greeting null_greeting ≡ err e) × OfFirstBytes e))
parse_partial_greeting_early_example = parse_partial_greeting_early null_greeting

-- Metadata with a second property behind an unknown one.
abbrev two_properties : List Property
two_properties =
    (record { name = b'I' ∷ b'd' ∷ []; value = 7 ∷ [] })
    ∷ (record {
      name = b's' ∷ b'o' ∷ b'c' ∷ b'k' ∷ b'e' ∷ b't' ∷ b'-' ∷ b't' ∷ b'y' ∷ b'p' ∷ b'e' ∷ [];
      value = b'S' ∷ b'U' ∷ b'B' ∷ [];
    })
    ∷ []

parse_ready_command-encode_example :
    parse_ready_command word true (5 ∷ ready_name ++ encode_properties two_properties)
    ≡ first_socket_type two_properties
parse_ready_command-encode_example =
    parse_ready_command-encode word two_properties
      ((omega arith, omega arith), ((omega arith, omega arith), tt)) (omega arith)

parse_ready_command-NoPanic_example :
    NoPanic (parse_ready_command word true (5 ∷ ready_name ++ (9 ∷ 1 ∷ [])))
parse_ready_command-NoPanic_example =
    parse_ready_command-NoPanic word true (5 ∷ ready_name ++ (9 ∷ 1 ∷ []))
      (
        omega arith,
        (
          omega arith,
          (
            omega arith,
            (omega arith, (omega arith, (omega arith, (omega arith, (omega arith, tt))))),
          ),
        ),
      )
      (omega arith)

-- On 32 bits a READY command of 12 bytes with one property announces a value of 2 ^ 32 - 1 bytes.
parse_ready_command_wraps_example :
    parse_ready_command (2 ^ 32) true (cut_ready (b'X' ∷ []) (2 ^ 32 - 1)) ≡ panic
parse_ready_command_wraps_example =
    parse_ready_command_wraps (2 ^ 32) (b'X' ∷ []) (2 ^ 32 - 1) (omega arith) (omega arith)
      (omega arith) (omega arith)

encode_error_lem_example : encode_error nine (b'n' ∷ b'o' ∷ []) ≡ err buffer_too_small
encode_error_lem_example = encode_error_lem nine (b'n' ∷ b'o' ∷ [])

parse_hello_from-encode_example :
    parse_hello_from true
      ((5 ∷ hello_name) ++ (encode_credentials (b'm' ∷ b'e' ∷ []) [] ++ (1 ∷ [])))
    ≡ ok (b'm' ∷ b'e' ∷ [], [])
parse_hello_from-encode_example = parse_hello_from-encode (b'm' ∷ b'e' ∷ []) [] (1 ∷ [])

parse_hello_from-NoPanic_example : NoPanic (parse_hello_from true (5 ∷ hello_name ++ (9 ∷ [])))
parse_hello_from-NoPanic_example = parse_hello_from-NoPanic true (5 ∷ hello_name ++ (9 ∷ []))
