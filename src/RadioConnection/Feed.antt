-- ===== src/RadioConnection/Feed.antt =====
-- src/radio_connection.rs: `RadioConnection::feed` and its arms.
pub mod Safe
pub mod Total
pub mod Moves
pub mod Commands
pub mod Pong
pub mod Handshake
pub mod PlainHandshake
use mzmq_rs.Prelude.{
  ℕ, ◌+◌, ◌-◌, min, true, not, ◌&&◌, ◌||◌, [], ◌∷◌, none, some, leb, ltb, ◌==◌, if◌then◌else◌,
  length, take, drop, replicate, Bytes, equal, slice, copy_at, Result, ok, err, panic, ◌>>=◌,
  map_err, try, ignore,
}
use mzmq_rs.Auth.{Mechanism, Config}
use mzmq_rs.Frame.Decoder.{DecodedFrame}
use mzmq_rs.Frame.Decoder
use mzmq_rs.Greeting.{
  GreetingError, PeerGreeting, greeting_len, greeting_partial_len, parse_partial_greeting,
  parse_greeting, parse_plain_greeting,
}
use mzmq_rs.Null.{malformed_metadata, parse_ready_radio_from}
use mzmq_rs.Plain.{auth_failed, parse_hello_from}
use mzmq_rs.GroupTable.{join, leave}
use mzmq_rs.RadioConnection.{
  State, greeting, ready, plain_hello, plain_ready, established, failed, ConnError, wrong_state,
  greeting_error, null_error, plain_error, decode_error, RadioConnection, join_name, leave_name,
  ping_name,
}

-- `parse_greeting` or `parse_plain_greeting`, by the mechanism.
unfoldable pub parse_peer_greeting : Mechanism → Bytes → Result GreetingError PeerGreeting
parse_peer_greeting Mechanism.null = parse_greeting
parse_peer_greeting Mechanism.plain = parse_plain_greeting

-- The state once both greetings are exchanged.
abbrev pub greeted_state : Mechanism → State
greeted_state Mechanism.null = ready
greeted_state Mechanism.plain = plain_hello

module _ (cfg : Config) where
  open cfg use {usize, frame_cap, vecs}

  -- `Result<usize, ConnError>` and the connection.
  abbrev pub Fed : Type 0
  Fed = RadioConnection cfg × Result ConnError ℕ

  -- The peer's greeting is valid.
  pub greeted : RadioConnection cfg → PeerGreeting → RadioConnection cfg
  greeted c g =
      let c' = record c { peer_version_minor = g.version_minor; peer_greeting_received = true } in
      if c.our_greeting_sent then record c' { state = greeted_state c.mechanism } else c'

  -- The checks of `feed_greeting` once the bytes are stored; `prev_pos` is where they begin.
  pub check_greeting : RadioConnection cfg → ℕ → ℕ → Fed
  unfolding greeted
  check_greeting c prev_pos to_copy =
      let partial =
        if ltb prev_pos greeting_partial_len && leb greeting_partial_len c.greeting_pos
        then parse_partial_greeting (take greeting_partial_len c.greeting_buf)
        else ok tt in
      let whole = parse_peer_greeting c.mechanism c.greeting_buf in
      try c (map_err greeting_error partial) λ _.
        (if c.greeting_pos == greeting_len
          then (try c (map_err greeting_error whole) λ g. (greeted c g, ok to_copy))
          else (c, ok to_copy))

  -- `GREETING_LEN - greeting_pos` does not go below zero: `RadioConnection.Inv` bounds the position.
  pub feed_greeting : RadioConnection cfg → Bytes → Fed
  unfolding check_greeting
  feed_greeting c input =
      let needed = greeting_len - c.greeting_pos in
      let to_copy = min (length input) needed in
      let prev_pos = c.greeting_pos in
      try c (copy_at c.greeting_buf prev_pos (take to_copy input)) λ buf.
        check_greeting (record c { greeting_buf = buf; greeting_pos = prev_pos + to_copy }) prev_pos
          to_copy

  -- The decoder takes the input, and `handle` is what follows for a complete frame.
  pub feed_frame :
      (RadioConnection cfg → ℕ → DecodedFrame → Fed) → RadioConnection cfg → Bytes → Fed
  feed_frame handle c input =
      let (d, fed) = Decoder.feed usize frame_cap c.frame_decoder input in
      let c' = record c { frame_decoder = d } in
      try c' (map_err decode_error fed) λ (consumed, maybe_frame). elim maybe_frame [
        | none ↦ (c', ok consumed)
        | some frame ↦ handle c' consumed frame
      ]

  -- The frame of `feed_ready_inner`.
  pub accept_ready : RadioConnection cfg → ℕ → DecodedFrame → Fed
  accept_ready c consumed frame =
      if ltb 255 (length frame.body)
      then (record c { state = failed }, err (null_error malformed_metadata))
      else elim (parse_ready_radio_from usize frame.is_command frame.body) [
        | ok peer ↦ (record c { state = established }, ok consumed)
        | err e ↦ (record c { state = failed }, err (null_error e))
        | panic ↦ (c, panic)
      ]

  pub feed_ready_inner : RadioConnection cfg → Bytes → Fed
  feed_ready_inner = feed_frame accept_ready

  pub feed_ready : RadioConnection cfg → Bytes → Fed
  feed_ready c input =
      if not c.our_ready_sent then (c, err wrong_state) else feed_ready_inner c input

  -- `PING`: the context behind the two bytes of its TTL, 16 bytes of it at most.
  pub queue_pong : RadioConnection cfg → Bytes → Result ConnError (RadioConnection cfg)
  queue_pong c payload = do
    let ctx_bytes = drop 2 payload
    let ctx_len = min (length ctx_bytes) 16
    ctx ← copy_at (replicate 16 0) 0 (take ctx_len ctx_bytes)
    ok (record c { pending_pong = some (ctx, ctx_len) })

  pub joined : RadioConnection cfg → Bytes → Result ConnError (RadioConnection cfg)
  joined c group = do t ← ignore (join vecs c.group_table group); ok (record c { group_table = t })

  pub left : RadioConnection cfg → Bytes → RadioConnection cfg
  left c group = record c { group_table = leave vecs c.group_table group }

  pub named_command : RadioConnection cfg → Bytes → Bytes → Result ConnError (RadioConnection cfg)
  unfolding queue_pong joined left
  named_command c name payload =
      if equal name join_name
      then joined c payload
      else if equal name leave_name
      then ok (left c payload)
      else if equal name ping_name && leb 1 c.peer_version_minor
      then queue_pong c payload
      else ok c

  -- A command frame: `[name_len: 1][name][payload]`. A malformed one is ignored.
  pub command_frame : RadioConnection cfg → Bytes → Result ConnError (RadioConnection cfg)
  unfolding named_command
  command_frame c [] = ok c
  command_frame c (name_len ∷ rest) =
      let body = name_len ∷ rest in
      if ltb (length body) (1 + name_len) then ok c else do
        name ← slice body 1 (1 + name_len)
        payload ← slice body (1 + name_len) (length body)
        named_command c name payload

  -- RADIO takes no subscription from a message frame.
  pub accept_frame : RadioConnection cfg → ℕ → DecodedFrame → Fed
  unfolding command_frame
  accept_frame c consumed frame =
      let done = if frame.is_command then command_frame c frame.body else ok c in
      try c done λ c'. (c', ok consumed)

  pub feed_established : RadioConnection cfg → Bytes → Fed
  feed_established = feed_frame accept_frame

  pub check_hello : RadioConnection cfg → ℕ → DecodedFrame → Fed
  check_hello c consumed frame = elim (parse_hello_from frame.is_command frame.body) [
    | ok (username, password) ↦
        if c.auth username password
        then (record c { state = plain_ready }, ok consumed)
        else (record c { state = failed }, err (plain_error auth_failed))
    | err e ↦ (record c { state = failed }, err (plain_error e))
    | panic ↦ (c, panic)
  ]

  pub feed_plain_hello : RadioConnection cfg → Bytes → Fed
  feed_plain_hello = feed_frame check_hello

  pub feed_plain_ready : RadioConnection cfg → Bytes → Fed
  feed_plain_ready c input =
      if not c.our_welcome_sent || not c.our_ready_sent
      then (c, err wrong_state)
      else feed_ready_inner c input

  pub feed_in : State → RadioConnection cfg → Bytes → Fed
  feed_in greeting c input = feed_greeting c input
  feed_in ready c input = feed_ready c input
  feed_in plain_hello c input = feed_plain_hello c input
  feed_in plain_ready c input = feed_plain_ready c input
  feed_in established c input = feed_established c input
  feed_in failed c input = (c, err wrong_state)

  pub feed : RadioConnection cfg → Bytes → Fed
  feed c input = feed_in c.state c input
