-- ===== src/Connection/Feed.antt =====
-- src/connection.rs: `Connection::feed` and its arms.
pub mod Safe
pub mod Total
pub mod Moves
pub mod Commands
pub mod Pong
pub mod Handshake
pub mod PlainHandshake
use mzmq_rs.Prelude.{
  ℕ, ◌+◌, ◌-◌, min, true, not, ◌&&◌, ◌||◌, [], ◌∷◌, none, some, leb, ltb, ◌==◌, if◌then◌else◌,
  length, take, drop, replicate, Bytes, equal, slice, copy_at, Result, ok, err, panic, ◌>>=◌,
  map_err, try, ignore,
}
use mzmq_rs.Auth.{Mechanism, Config}
use mzmq_rs.Frame.Decoder.{DecodedFrame}
use mzmq_rs.Frame.Decoder
use mzmq_rs.Greeting.{
  GreetingError, PeerGreeting, greeting_len, greeting_partial_len, parse_partial_greeting,
  parse_greeting, parse_plain_greeting,
}
use mzmq_rs.Null.{malformed_metadata, parse_ready_from}
use mzmq_rs.Plain.{auth_failed, parse_hello_from}
use mzmq_rs.SubTable.{subscribe, cancel}
use mzmq_rs.Connection.{
  State, greeting, ready, plain_hello, plain_ready, established, failed, ConnError, wrong_state,
  greeting_error, null_error, plain_error, decode_error, Connection, subscribe_name, cancel_name,
  ping_name,
}

-- `parse_greeting` or `parse_plain_greeting`, by the mechanism.
unfoldable pub parse_peer_greeting : Mechanism → Bytes → Result GreetingError PeerGreeting
parse_peer_greeting Mechanism.null = parse_greeting
parse_peer_greeting Mechanism.plain = parse_plain_greeting

-- The state once both greetings are exchanged.
abbrev pub greeted_state : Mechanism → State
greeted_state Mechanism.null = ready
greeted_state Mechanism.plain = plain_hello

module _ (cfg : Config) where
  open cfg use {usize, frame_cap, vecs}

  -- `Result<usize, ConnError>` and the connection.
  abbrev pub Fed : Type 0
  Fed = Connection cfg × Result ConnError ℕ

  -- The peer's greeting is valid.
  pub greeted : Connection cfg → PeerGreeting → Connection cfg
  greeted c g =
      let c' = record c { peer_version_minor = g.version_minor; peer_greeting_received = true } in
      if c.our_greeting_sent then record c' { state = greeted_state c.mechanism } else c'

  -- The checks of `feed_greeting` once the bytes are stored; `prev_pos` is where they begin.
  pub check_greeting : Connection cfg → ℕ → ℕ → Fed
  unfolding greeted
  check_greeting c prev_pos to_copy =
      let partial =
        if ltb prev_pos greeting_partial_len && leb greeting_partial_len c.greeting_pos
        then parse_partial_greeting (take greeting_partial_len c.greeting_buf)
        else ok tt in
      let whole = parse_peer_greeting c.mechanism c.greeting_buf in
      try c (map_err greeting_error partial) λ _.
        (if c.greeting_pos == greeting_len
          then (try c (map_err greeting_error whole) λ g. (greeted c g, ok to_copy))
          else (c, ok to_copy))

  -- `GREETING_LEN - greeting_pos` does not go below zero: `Connection.Inv` bounds the position.
  pub feed_greeting : Connection cfg → Bytes → Fed
  unfolding check_greeting
  feed_greeting c input =
      let needed = greeting_len - c.greeting_pos in
      let to_copy = min (length input) needed in
      let prev_pos = c.greeting_pos in
      try c (copy_at c.greeting_buf prev_pos (take to_copy input)) λ buf.
        check_greeting (record c { greeting_buf = buf; greeting_pos = prev_pos + to_copy }) prev_pos
          to_copy

  -- The decoder takes the input, and `handle` is what follows for a complete frame.
  pub feed_frame : (Connection cfg → ℕ → DecodedFrame → Fed) → Connection cfg → Bytes → Fed
  feed_frame handle c input =
      let (d, fed) = Decoder.feed usize frame_cap c.frame_decoder input in
      let c' = record c { frame_decoder = d } in
      try c' (map_err decode_error fed) λ (consumed, maybe_frame). elim maybe_frame [
        | none ↦ (c', ok consumed)
        | some frame ↦ handle c' consumed frame
      ]

  -- The frame of `feed_ready_inner`.
  pub accept_ready : Connection cfg → ℕ → DecodedFrame → Fed
  accept_ready c consumed frame =
      if ltb 255 (length frame.body)
      then (record c { state = failed }, err (null_error malformed_metadata))
      else elim (parse_ready_from usize frame.is_command frame.body) [
        | ok peer ↦ (record c { state = established }, ok consumed)
        | err e ↦ (record c { state = failed }, err (null_error e))
        | panic ↦ (c, panic)
      ]

  pub feed_ready_inner : Connection cfg → Bytes → Fed
  feed_ready_inner = feed_frame accept_ready

  pub feed_ready : Connection cfg → Bytes → Fed
  feed_ready c input =
      if not c.our_ready_sent then (c, err wrong_state) else feed_ready_inner c input

  -- `PING`: the context behind the two bytes of its TTL, 16 bytes of it at most.
  pub queue_pong : Connection cfg → Bytes → Result ConnError (Connection cfg)
  queue_pong c payload = do
    let ctx_bytes = drop 2 payload
    let ctx_len = min (length ctx_bytes) 16
    ctx ← copy_at (replicate 16 0) 0 (take ctx_len ctx_bytes)
    ok (record c { pending_pong = some (ctx, ctx_len) })

  pub subscribed : Connection cfg → Bytes → Result ConnError (Connection cfg)
  subscribed c prefix = do
    t ← ignore (subscribe vecs c.sub_table prefix)
    ok (record c { sub_table = t })

  pub cancelled : Connection cfg → Bytes → Connection cfg
  cancelled c prefix = record c { sub_table = cancel vecs c.sub_table prefix }

  pub named_command : Connection cfg → Bytes → Bytes → Result ConnError (Connection cfg)
  unfolding queue_pong subscribed cancelled
  named_command c name payload =
      if equal name subscribe_name
      then subscribed c payload
      else if equal name cancel_name
      then ok (cancelled c payload)
      else if equal name ping_name && leb 1 c.peer_version_minor
      then queue_pong c payload
      else ok c

  -- A command frame: `[name_len: 1][name][payload]`. A malformed one is ignored.
  pub command_frame : Connection cfg → Bytes → Result ConnError (Connection cfg)
  unfolding named_command
  command_frame c [] = ok c
  command_frame c (name_len ∷ rest) =
      let body = name_len ∷ rest in
      if ltb (length body) (1 + name_len) then ok c else do
        name ← slice body 1 (1 + name_len)
        payload ← slice body (1 + name_len) (length body)
        named_command c name payload

  -- A message frame: a ZMTP 3.0 subscription, by its first byte.
  pub message_frame : Connection cfg → Bytes → Result ConnError (Connection cfg)
  unfolding subscribed cancelled
  message_frame c [] = ok c
  message_frame c (tag ∷ prefix) =
      if tag == 0x01
      then subscribed c prefix
      else if tag == 0x00
      then ok (cancelled c prefix)
      else ok c

  pub accept_frame : Connection cfg → ℕ → DecodedFrame → Fed
  unfolding command_frame message_frame
  accept_frame c consumed frame =
      let done =
        if frame.is_command then command_frame c frame.body else message_frame c frame.body in
      try c done λ c'. (c', ok consumed)

  pub feed_established : Connection cfg → Bytes → Fed
  feed_established = feed_frame accept_frame

  pub check_hello : Connection cfg → ℕ → DecodedFrame → Fed
  check_hello c consumed frame = elim (parse_hello_from frame.is_command frame.body) [
    | ok (username, password) ↦
        if c.auth username password
        then (record c { state = plain_ready }, ok consumed)
        else (record c { state = failed }, err (plain_error auth_failed))
    | err e ↦ (record c { state = failed }, err (plain_error e))
    | panic ↦ (c, panic)
  ]

  pub feed_plain_hello : Connection cfg → Bytes → Fed
  feed_plain_hello = feed_frame check_hello

  pub feed_plain_ready : Connection cfg → Bytes → Fed
  feed_plain_ready c input =
      if not c.our_welcome_sent || not c.our_ready_sent
      then (c, err wrong_state)
      else feed_ready_inner c input

  pub feed_in : State → Connection cfg → Bytes → Fed
  feed_in greeting c input = feed_greeting c input
  feed_in ready c input = feed_ready c input
  feed_in plain_hello c input = feed_plain_hello c input
  feed_in plain_ready c input = feed_plain_ready c input
  feed_in established c input = feed_established c input
  feed_in failed c input = (c, err wrong_state)

  pub feed : Connection cfg → Bytes → Fed
  feed c input = feed_in c.state c input
