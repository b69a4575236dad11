-- ===== src/Connection/Feed/Moves.antt =====
-- The moves of the state of a connection, and what the input holds at each.
pub mod Handshake
pub mod Whole
use mzmq_rs.Prelude.{
  ℕ, ◌+◌, ◌-◌, ◌≤◌, min, ◌≡◌, refl, sym, ap, ◌∙◌, ◌⊎◌, inl, inr, Bool, true, false, not, ◌&&◌, ◌||◌,
  none, some, Option, ltb, leb, ◌==◌, if◌then◌else◌, Bool-cases, length, take, Bytes, overwrite,
  copy_at, Result, ok, err, panic, ◌>>=◌, [], ◌∷◌, map_err, try, ignore, drop, replicate, slice,
  arith, tests,
}
use mzmq_rs.Auth.{Mechanism, Config}
use mzmq_rs.Frame.Decoder.{FrameDecoder, DecodedFrame, DecodeError}
use mzmq_rs.Frame.Decoder
use mzmq_rs.Greeting.{
  PeerGreeting, GreetingError, greeting_len, greeting_partial_len, parse_partial_greeting,
}
use mzmq_rs.Null.{NullError, PeerSocketType, parse_ready_from}
use mzmq_rs.Plain.{PlainError, auth_failed, parse_hello_from}
use mzmq_rs.SubTable.{subscribe}
use mzmq_rs.Connection.{
  State, greeting, ready, plain_hello, plain_ready, established, failed, ConnError, greeting_error,
  null_error, plain_error, decode_error, wrong_state, Connection,
}
use mzmq_rs.Connection.Feed.{
  parse_peer_greeting, greeted_state, Fed, greeted, check_greeting, feed_greeting, feed_frame,
  accept_ready, feed_ready_inner, feed_ready, accept_frame, feed_established, check_hello,
  feed_plain_hello, feed_plain_ready, feed_in, feed, subscribed, cancelled, queue_pong,
  named_command, command_frame, message_frame,
}

module _ (cfg : Config) where
  open cfg use {usize, frame_cap, vecs}

  -- The decoder completes this frame with the input.
  abbrev pub Takes : Connection cfg → Bytes → DecodedFrame → Type 0
  Takes c input frame =
      (n : ℕ) × ((Decoder.feed usize frame_cap c.frame_decoder input).1 ≡ ok (n, some frame))

  -- The peer's greeting is complete with the input, and the parser of the mechanism accepts it.
  abbrev pub TakesGreeting : Connection cfg → Bytes → Type 0
  TakesGreeting c input =
      let n = min (length input) (greeting_len - c.greeting_pos) in
      (g : PeerGreeting) × (c.greeting_pos + n ≡ greeting_len)
      × (parse_peer_greeting c.mechanism (overwrite c.greeting_buf c.greeting_pos (take n input))
          ≡ ok g)

  -- The input completes a HELLO with credentials that the authenticator accepts.
  abbrev pub TakesHello : Connection cfg → Bytes → Type 0
  TakesHello c input =
      (frame : DecodedFrame) × (username : Bytes) × (password : Bytes) × Takes c input frame
      × (parse_hello_from frame.is_command frame.body ≡ ok (username, password))
      × (c.auth username password ≡ true)

  -- The input completes a READY of 255 bytes at most, with a socket type that is served.
  abbrev pub TakesReady : Connection cfg → Bytes → Type 0
  TakesReady c input =
      (frame : DecodedFrame) × (peer : PeerSocketType) × Takes c input frame
      × (length frame.body ≤ 255)
      × (parse_ready_from usize frame.is_command frame.body ≡ ok peer)

  -- The ways from one state to another.
  pub data Move (c : Connection cfg) (input : Bytes) (s s' : State) : Type 0 where
    stays : s' ≡ s → Move c input s s'
    fails : s' ≡ failed → Move c input s s'
    greets :
        s ≡ greeting
        → s' ≡ greeted_state c.mechanism
        → c.our_greeting_sent ≡ true
        → TakesGreeting c input
        → Move c input s s'
    authorises : s ≡ plain_hello → s' ≡ plain_ready → TakesHello c input → Move c input s s'
    establishes :
        (s ≡ ready) ⊎ ((s ≡ plain_ready) × (c.our_welcome_sent ≡ true))
        → s' ≡ established
        → c.our_ready_sent ≡ true
        → TakesReady c input
        → Move c input s s'

  abbrev pub Moved : Connection cfg → Bytes → State → Connection cfg → Type 0
  Moved c input s d = Move c input s d.state × (d.mechanism ≡ c.mechanism)

  pub feed_frame_then :
      (handle : Connection cfg → ℕ → DecodedFrame → Fed cfg) (c : Connection cfg) (input : Bytes)
      (P : Connection cfg → Type 0)
      → ((d : FrameDecoder) → P (record c { frame_decoder = d }))
      → ((d : FrameDecoder) (n : ℕ) (frame : DecodedFrame)
          → Takes c input frame
          → P (handle (record c { frame_decoder = d }) n frame).0)
      → P (feed_frame cfg handle c input).0
  unfolding feed_frame
  feed_frame_then handle c input P idle taken =
      go (Decoder.feed usize frame_cap c.frame_decoder input) refl
    where
      go :
          (r : Decoder.Fed)
          → (Decoder.feed usize frame_cap c.frame_decoder input).1 ≡ r.1
          → P
              (try {B = ℕ}
                (record c { frame_decoder = r.0 })
                (map_err decode_error r.1)
                λ (consumed, maybe_frame). elim maybe_frame [
                  | none ↦ (record c { frame_decoder = r.0 }, ok consumed)
                  | some frame ↦ handle (record c { frame_decoder = r.0 }) consumed frame
                ]).0
      go (d, ok (n, none)) e = idle d
      go (d, ok (n, some frame)) e = taken d n frame (n, e)
      go (d, err x) e = idle d
      go (d, panic) e = idle d
