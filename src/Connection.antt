-- ===== src/Connection.antt =====
-- src/connection.rs: the PUB connection. A method that changes `self` returns the new connection
-- beside its result, and one that writes to `out` the new contents of `out`. Here are the state and
-- the methods that write handshake commands; the children have the others.
pub mod Feed
pub mod Publish
pub mod Inv
pub mod Writes
pub mod Reach
pub mod History
use mzmq_rs.Prelude.{
  ℕ, ◌+◌, ◌-◌, min, Bool, true, false, not, ◌&&◌, ◌||◌, List, [], ◌∷◌, Option, none, some, leb, ltb,
  ◌==◌, if◌then◌else◌, length, take, drop, replicate, Bytes, as_u8, equal, slice, copy_at, Result,
  ok, err, panic, ◌>>=◌, map_err, try, ignore,
}
use mzmq_rs.Auth.{Mechanism, AuthCheck, unit_check, Config}
use mzmq_rs.Frame.{FrameError, max_frame_header, encode_message_frame}
use mzmq_rs.Frame.Decoder.{DecodeError, DecodedFrame, FrameDecoder}
use mzmq_rs.Frame.Decoder
use mzmq_rs.Greeting.{
  GreetingError, PeerGreeting, greeting_len, greeting_partial_len, encode_greeting,
  encode_plain_greeting, parse_partial_greeting, parse_greeting, parse_plain_greeting,
}
use mzmq_rs.Null.{NullError, ready_len, encode_ready, encode_error, parse_ready_from}
use mzmq_rs.Plain.{PlainError, welcome_len, encode_welcome, parse_hello_from}
use mzmq_rs.SubTable.{SubTable, subscribe, cancel, matches}
use mzmq_rs.SubTable

pub data State : Type 0 where
  greeting ready plain_hello plain_ready established failed : State

abbrev state_tag : State → ℕ
state_tag greeting = 0
state_tag ready = 1
state_tag plain_hello = 2
state_tag plain_ready = 3
state_tag established = 4
state_tag failed = 5

-- The derived `==` of `State`.
abbrev pub state_eq : State → State → Bool
state_eq a b = state_tag a == state_tag b

pub data ConnError : Type 0 where
  wrong_state buffer_too_small : ConnError
  io_error : ℕ → ConnError
  greeting_error : GreetingError → ConnError
  null_error : NullError → ConnError
  plain_error : PlainError → ConnError
  frame_error : FrameError → ConnError
  decode_error : DecodeError → ConnError

pub is_io_error : ConnError → Bool
is_io_error (io_error kind) = true
is_io_error _ = false

-- b"SUBSCRIBE", b"CANCEL", b"PING", b"PONG", b"Invalid socket type"
abbrev pub subscribe_name : Bytes
subscribe_name = b'S' ∷ b'U' ∷ b'B' ∷ b'S' ∷ b'C' ∷ b'R' ∷ b'I' ∷ b'B' ∷ b'E' ∷ []

abbrev pub cancel_name : Bytes
cancel_name = b'C' ∷ b'A' ∷ b'N' ∷ b'C' ∷ b'E' ∷ b'L' ∷ []

abbrev pub ping_name : Bytes
ping_name = b'P' ∷ b'I' ∷ b'N' ∷ b'G' ∷ []

abbrev pub pong_name : Bytes
pong_name = b'P' ∷ b'O' ∷ b'N' ∷ b'G' ∷ []

abbrev pub invalid_socket_type : Bytes
invalid_socket_type =
    b'I' ∷ b'n' ∷ b'v' ∷ b'a' ∷ b'l' ∷ b'i' ∷ b'd' ∷ b' ' ∷ b's' ∷ b'o' ∷ b'c' ∷ b'k' ∷ b'e' ∷ b't'
    ∷ b' ' ∷ b't' ∷ b'y' ∷ b'p' ∷ b'e' ∷ []

-- What `write_greeting` sends, by the mechanism.
pub our_greeting : Mechanism → Bytes
our_greeting Mechanism.null = encode_greeting
our_greeting Mechanism.plain = encode_plain_greeting

module _ (cfg : Config) where
  open cfg use {usize, frame_cap, vecs}

  pub record Connection : Type 0 where
    pub state : State
    pub our_greeting_sent : Bool
    pub peer_greeting_received : Bool
    pub peer_version_minor : ℕ
    pub our_ready_sent : Bool
    pub our_welcome_sent : Bool
    pub mechanism : Mechanism
    pub greeting_buf : Bytes
    pub greeting_pos : ℕ
    pub frame_decoder : FrameDecoder
    pub sub_table : SubTable vecs
    pub pending_pong : Option (Bytes × ℕ)
    pub auth : AuthCheck

  -- What `new` and `new_plain` share.
  pub fresh : Mechanism → AuthCheck → Connection
  fresh mechanism auth = record {
    state = greeting;
    our_greeting_sent = false;
    peer_greeting_received = false;
    peer_version_minor = 0;
    our_ready_sent = false;
    our_welcome_sent = false;
    mechanism = mechanism;
    greeting_buf = replicate greeting_len 0;
    greeting_pos = 0;
    frame_decoder = Decoder.new frame_cap;
    sub_table = SubTable.new vecs;
    pending_pong = none;
    auth = auth;
  }

  pub new : Connection
  unfolding fresh
  new = fresh Mechanism.null unit_check

  pub new_plain : AuthCheck → Connection
  unfolding fresh
  new_plain auth = fresh Mechanism.plain auth

  pub peer_version : Connection → ℕ × ℕ
  peer_version c = (3, c.peer_version_minor)

  pub write_greeting : Connection → Bytes → Connection × Result ConnError (ℕ × Bytes)
  unfolding our_greeting
  write_greeting c out =
      if not (state_eq c.state greeting) || c.our_greeting_sent
      then (c, err wrong_state)
      else if ltb (length out) greeting_len
      then (c, err buffer_too_small)
      else try c (copy_at out 0 (our_greeting c.mechanism))
          λ out'. (record c { our_greeting_sent = true }, ok (greeting_len, out'))

  pub in_ready_state : Mechanism → Connection → Bool
  in_ready_state Mechanism.null c = state_eq c.state ready
  in_ready_state Mechanism.plain c =
      state_eq c.state ready || (state_eq c.state plain_ready && c.our_welcome_sent)

  pub write_ready : Connection → Bytes → Connection × Result ConnError (ℕ × Bytes)
  unfolding in_ready_state
  write_ready c out =
      if not (in_ready_state c.mechanism c)
      then (c, err wrong_state)
      else if c.our_ready_sent
      then (c, err wrong_state)
      else if ltb (length out) ready_len
      then (c, err buffer_too_small)
      else try c (map_err null_error (encode_ready out))
          λ (n, out'). (record c { our_ready_sent = true }, ok (ready_len, out'))

  pub write_error : Connection → Bytes → Result ConnError (ℕ × Bytes)
  write_error c out = map_err null_error (encode_error out invalid_socket_type)

  pub write_welcome : Connection → Bytes → Connection × Result ConnError (ℕ × Bytes)
  write_welcome c out =
      if not (state_eq c.state plain_ready) || c.our_welcome_sent
      then (c, err wrong_state)
      else try c (map_err plain_error (encode_welcome out))
          λ (n, out'). (record c { our_welcome_sent = true }, ok (welcome_len, out'))

  -- The writes of `write_pong` behind its guards.
  pong_bytes : Bytes → Bytes → ℕ → Result ConnError Bytes
  pong_bytes out ctx ctx_len = do
    out₁ ← copy_at out 0 (0x04 ∷ as_u8 (1 + 4 + ctx_len) ∷ 4 ∷ [])
    out₂ ← copy_at out₁ 3 pong_name
    context ← slice ctx 0 ctx_len
    copy_at out₂ 7 context

  pub write_pong : Connection → Bytes → Connection × Result ConnError (Option (ℕ × Bytes))
  unfolding pong_bytes
  write_pong c out = elim c.pending_pong [
    | none ↦ (c, ok none)
    | some (ctx, ctx_len) ↦
        let total = 2 + (1 + 4 + ctx_len) in
        if ltb (length out) total
        then (c, err buffer_too_small)
        else try (record c { pending_pong = none }) (pong_bytes out ctx ctx_len)
            λ out'. (record c { pending_pong = none }, ok (some (total, out')))
  ]
