-- ===== src/Connection/Feed/Moves/Handshake.antt =====
-- The moves of the arms of `feed` that carry on the handshake.
use mzmq_rs.Prelude.{
  ℕ, ◌+◌, ◌-◌, ◌≤◌, min, ◌≡◌, refl, sym, ap, ◌∙◌, ◌⊎◌, inl, inr, true, ◌&&◌, ltb, leb, ◌==◌,
  if◌then◌else◌, Bool-cases, length, take, Bytes, copy_at, Result, ok, err, panic, map_err, try,
  arith,
}
use mzmq_rs.Auth.{Config}
use mzmq_rs.Frame.Decoder.{FrameDecoder, DecodedFrame}
use mzmq_rs.Greeting.{
  PeerGreeting, GreetingError, greeting_len, greeting_partial_len, parse_partial_greeting,
}
use mzmq_rs.Null.{NullError, PeerSocketType, parse_ready_from}
use mzmq_rs.Plain.{PlainError, auth_failed, parse_hello_from}
use mzmq_rs.Connection.{
  State, greeting, ready, plain_hello, plain_ready, established, failed, greeting_error, null_error,
  plain_error, Connection,
}
use mzmq_rs.Connection.Feed.{
  parse_peer_greeting, greeted_state, Fed, greeted, check_greeting, feed_greeting, accept_ready,
  check_hello,
}
use mzmq_rs.Connection.Feed.Moves.{
  Takes, TakesGreeting, stays, fails, greets, authorises, establishes, Moved,
}

module _ (cfg : Config) where
  open cfg use {usize, frame_cap, vecs}

  greeted-Moved :
      (c c' : Connection cfg) (input : Bytes) (g : PeerGreeting)
      → c'.state ≡ greeting
      → c'.mechanism ≡ c.mechanism
      → c'.our_greeting_sent ≡ c.our_greeting_sent
      → TakesGreeting cfg c input
      → Moved cfg c input greeting (greeted cfg c' g)
  unfolding greeted
  greeted-Moved c c' input g s m o t = elim (Bool-cases c'.our_greeting_sent) [
    | inl sent ↦ rw sent (greets refl (ap greeted_state m) (sym o ∙ sent) t, m)
    | inr unsent ↦ rw unsent (stays s, m)
  ]

  check_greeting-Moved :
      (c c' : Connection cfg) (input : Bytes) (prev_pos n : ℕ)
      → c'.state ≡ greeting
      → c'.mechanism ≡ c.mechanism
      → c'.our_greeting_sent ≡ c.our_greeting_sent
      → ((g : PeerGreeting)
          → c'.greeting_pos ≡ greeting_len
          → parse_peer_greeting c'.mechanism c'.greeting_buf ≡ ok g
          → TakesGreeting cfg c input)
      → Moved cfg c input greeting (check_greeting cfg c' prev_pos n).0
  unfolding check_greeting
  check_greeting-Moved c c' input prev_pos n s m o t = go (
      if ltb prev_pos greeting_partial_len && leb greeting_partial_len c'.greeting_pos
      then parse_partial_greeting (take greeting_partial_len c'.greeting_buf)
      else ok tt)
    where
      read :
          c'.greeting_pos ≡ greeting_len
          → (r : Result GreetingError PeerGreeting)
          → parse_peer_greeting c'.mechanism c'.greeting_buf ≡ r
          → Moved cfg c input greeting
              (try c' (map_err greeting_error r) λ g. (greeted cfg c' g, ok n)).0
      read full (ok g) e = greeted-Moved c c' input g s m o (t g full e)
      read full (err x) e = (stays s, m)
      read full panic e = (stays s, m)

      go :
          (r : Result GreetingError (Unit {0}))
          → Moved cfg c input greeting
              (try c' (map_err greeting_error r) λ _.
                (if c'.greeting_pos == greeting_len
                  then (try c'
                      (map_err greeting_error (parse_peer_greeting c'.mechanism c'.greeting_buf))
                      λ g. (greeted cfg c' g, ok n))
                  else (c', ok n))).0
      go (ok a) = elim (Bool-cases (c'.greeting_pos == greeting_len)) [
        | inl full ↦
            rw full (read (ground arith) (parse_peer_greeting c'.mechanism c'.greeting_buf) refl)
        | inr part ↦ rw part (stays s, m)
      ]
      go (err x) = (stays s, m)
      go panic = (stays s, m)

  pub feed_greeting-Moved :
      (c : Connection cfg) (input : Bytes)
      → c.state ≡ greeting
      → Moved cfg c input greeting (feed_greeting cfg c input).0
  unfolding feed_greeting copy_at
  feed_greeting-Moved c input s =
      let n = min (length input) (greeting_len - c.greeting_pos) in
      elim (Bool-cases (leb (c.greeting_pos + length (take n input)) (length c.greeting_buf))) [
        | inl fits ↦
            rw fits
              (check_greeting-Moved c _ input c.greeting_pos n s refl refl λ g full e. (g, full, e))
        | inr over ↦ rw over (stays s, refl)
      ]

  pub check_hello-Moved :
      (c : Connection cfg) (input : Bytes) (d : FrameDecoder) (n : ℕ) (frame : DecodedFrame)
      → c.state ≡ plain_hello
      → Takes cfg c input frame
      → Moved cfg c input plain_hello (check_hello cfg (record c { frame_decoder = d }) n frame).0
  unfolding check_hello
  check_hello-Moved c input d n frame s t = go (parse_hello_from frame.is_command frame.body) refl
    where
      go :
          (r : Result PlainError (Bytes × Bytes))
          → parse_hello_from frame.is_command frame.body ≡ r
          → (let c' = record c { frame_decoder = d } in
              Moved cfg c input plain_hello
                (elim r as (λ _. Fed cfg) [
                  | ok (username, password) ↦
                      if c.auth username password
                      then (record c' { state = plain_ready }, ok n)
                      else (record c' { state = failed }, err (plain_error auth_failed))
                  | err e ↦ (record c' { state = failed }, err (plain_error e))
                  | panic ↦ (c', panic)
                ]).0)
      go (ok (username, password)) e = elim (Bool-cases (c.auth username password)) [
        | inl accepted ↦
            rw accepted (authorises refl refl (frame, username, password, t, e, accepted), refl)
        | inr refused ↦ rw refused (fails refl, refl)
      ]
      go (err x) e = (fails refl, refl)
      go panic e = (stays s, refl)

  pub accept_ready-Moved :
      (c : Connection cfg) (input : Bytes) (s : State) (d : FrameDecoder) (n : ℕ)
      (frame : DecodedFrame)
      → c.state ≡ s
      → (s ≡ ready) ⊎ ((s ≡ plain_ready) × (c.our_welcome_sent ≡ true))
      → c.our_ready_sent ≡ true
      → Takes cfg c input frame
      → Moved cfg c input s (accept_ready cfg (record c { frame_decoder = d }) n frame).0
  unfolding accept_ready
  accept_ready-Moved c input s d n frame e w o t = elim (Bool-cases (ltb 255 (length frame.body))) [
    | inl long ↦ rw long (fails refl, refl)
    | inr short ↦
        rw short (go (ground arith) (parse_ready_from usize frame.is_command frame.body) refl)
  ]
    where
      go :
          length frame.body ≤ 255
          → (r : Result NullError PeerSocketType)
          → parse_ready_from usize frame.is_command frame.body ≡ r
          → (let c' = record c { frame_decoder = d } in
              Moved cfg c input s
                (elim r as (λ _. Fed cfg) [
                  | ok peer ↦ (record c' { state = established }, ok n)
                  | err x ↦ (record c' { state = failed }, err (null_error x))
                  | panic ↦ (c', panic)
                ]).0)
      go h (ok peer) q = (establishes w refl o (frame, peer, t, h, q), refl)
      go h (err x) q = (fails refl, refl)
      go h panic q = (stays e, refl)
