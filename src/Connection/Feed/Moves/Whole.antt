-- ===== src/Connection/Feed/Moves/Whole.antt =====
-- How `feed` moves the state, whatever it is fed.
use mzmq_rs.Prelude.{
  ℕ, ◌+◌, min, ◌≡◌, refl, ◌∙◌, inl, inr, Bool, true, false, not, ◌||◌, some, ltb, if◌then◌else◌,
  Bool-cases, length, take, Bytes, copy_at, Result, ok, err, panic, ◌>>=◌, [], ◌∷◌, try, ignore,
  drop, replicate, slice, arith,
}
use mzmq_rs.Auth.{Config}
use mzmq_rs.Frame.Decoder.{FrameDecoder, DecodedFrame}
use mzmq_rs.SubTable.{subscribe}
use mzmq_rs.Connection.{
  State, greeting, ready, plain_hello, plain_ready, established, failed, ConnError, wrong_state,
  Connection,
}
use mzmq_rs.Connection.Feed.{
  Fed, feed_frame, accept_ready, feed_ready_inner, feed_ready, accept_frame, feed_established,
  check_hello, feed_plain_hello, feed_plain_ready, feed_in, feed, subscribed, cancelled, queue_pong,
  named_command, command_frame, message_frame,
}
use mzmq_rs.Connection.Feed.Moves.{stays, Moved, feed_frame_then}
use mzmq_rs.Connection.Feed.Moves.Handshake.{
  feed_greeting-Moved, check_hello-Moved, accept_ready-Moved,
}

module _ (cfg : Config) where
  open cfg use {usize, frame_cap, vecs}

  -- The frames of an established connection change neither its state nor its mechanism.
  abbrev Same : Connection cfg → Result ConnError (Connection cfg) → Type 0
  Same c (ok d) = (d.state ≡ c.state) × (d.mechanism ≡ c.mechanism)
  Same c (err e) = Unit
  Same c panic = Unit

  Same-then :
      {A : Type 0} (c : Connection cfg) (m : Result ConnError A)
      (f : A → Result ConnError (Connection cfg))
      → ((a : A) → Same c (f a))
      → Same c (m >>= f)
  Same-then c (ok a) f k = k a
  Same-then c (err e) f k = tt
  Same-then c panic f k = tt

  subscribed-Same : (c : Connection cfg) (prefix : Bytes) → Same c (subscribed cfg c prefix)
  unfolding subscribed
  subscribed-Same c prefix =
      Same-then c (ignore (subscribe vecs c.sub_table prefix))
        (λ t. ok (record c { sub_table = t })) λ t. (refl, refl)

  queue_pong-Same : (c : Connection cfg) (payload : Bytes) → Same c (queue_pong cfg c payload)
  unfolding queue_pong
  queue_pong-Same c payload =
      let n = min (length (drop 2 payload)) 16 in
      Same-then c (copy_at (replicate 16 0) 0 (take n (drop 2 payload)))
        (λ ctx. ok (record c { pending_pong = some (ctx, n) })) λ ctx. (refl, refl)

  named_command-Same :
      (c : Connection cfg) (name payload : Bytes) → Same c (named_command cfg c name payload)
  unfolding named_command cancelled
  named_command-Same c name payload =
      ground (arith, subscribed-Same c payload, queue_pong-Same c payload)

  command_frame-Same : (c : Connection cfg) (body : Bytes) → Same c (command_frame cfg c body)
  unfolding command_frame
  command_frame-Same c [] = (refl, refl)
  command_frame-Same c (name_len ∷ rest) =
      elim (Bool-cases (ltb (length (name_len ∷ rest)) (1 + name_len))) [
        | inl short ↦ rw short (refl, refl)
        | inr long ↦ rw long (
            let body = name_len ∷ rest in
            Same-then c (slice body 1 (1 + name_len)) _ λ name.
              Same-then c (slice body (1 + name_len) (length body)) (named_command cfg c name)
                (named_command-Same c name))
      ]

  message_frame-Same : (c : Connection cfg) (body : Bytes) → Same c (message_frame cfg c body)
  unfolding message_frame cancelled
  message_frame-Same c [] = (refl, refl)
  message_frame-Same c (tag ∷ prefix) = ground (arith, subscribed-Same c prefix)

  Same-Moved :
      (c : Connection cfg) (input : Bytes) (d : FrameDecoder) (n : ℕ)
      (m : Result ConnError (Connection cfg))
      → c.state ≡ established
      → (let c' = record c { frame_decoder = d } in
          Same c' m → Moved cfg c input established (try c' m λ c''. (c'', ok n)).0)
  Same-Moved c input d n (ok c') s k = (stays (k.0 ∙ s), k.1)
  Same-Moved c input d n (err e) s k = (stays s, refl)
  Same-Moved c input d n panic s k = (stays s, refl)

  accept_frame-Moved :
      (c : Connection cfg) (input : Bytes) (d : FrameDecoder) (n : ℕ) (frame : DecodedFrame)
      → c.state ≡ established
      → Moved cfg c input established (accept_frame cfg (record c { frame_decoder = d }) n frame).0
  unfolding accept_frame
  accept_frame-Moved c input d n frame s =
      let c' = record c { frame_decoder = d } in
      Same-Moved c input d n
        (if frame.is_command
          then command_frame cfg c' frame.body
          else message_frame cfg c' frame.body)
        s (ground (arith, command_frame-Same c' frame.body, message_frame-Same c' frame.body))

  -- The guards of `feed_ready` and `feed_plain_ready`.
  unless-Moved :
      (c : Connection cfg) (input : Bytes) (s : State) (refused : Bool) (rest : Fed cfg)
      → c.state ≡ s
      → (refused ≡ false → Moved cfg c input s rest.0)
      → Moved cfg c input s (if refused then (c, err wrong_state) else rest).0
  unless-Moved c input s true rest e k = (stays e, refl)
  unless-Moved c input s false rest e k = k refl

  feed_in-Moved :
      (s : State) (c : Connection cfg) (input : Bytes)
      → c.state ≡ s
      → Moved cfg c input s (feed_in cfg s c input).0
  unfolding feed_in feed_ready feed_ready_inner feed_established feed_plain_hello feed_plain_ready
  feed_in-Moved greeting c input e = feed_greeting-Moved cfg c input e
  feed_in-Moved ready c input e =
      unless-Moved c input ready (not c.our_ready_sent) (feed_frame cfg (accept_ready cfg) c input)
        e
        λ both.
          let sent : c.our_ready_sent ≡ true = ground arith in
          feed_frame_then cfg (accept_ready cfg) c input (Moved cfg c input ready)
            (λ d. (stays e, refl))
            λ d n frame t. accept_ready-Moved cfg c input ready d n frame e (inl refl) sent t
  feed_in-Moved plain_hello c input e =
      feed_frame_then cfg (check_hello cfg) c input (Moved cfg c input plain_hello)
        (λ d. (stays e, refl)) λ d n frame t. check_hello-Moved cfg c input d n frame e t
  feed_in-Moved plain_ready c input e =
      unless-Moved c input plain_ready (not c.our_welcome_sent || not c.our_ready_sent)
        (feed_frame cfg (accept_ready cfg) c input) e
        λ both.
          let welcome : c.our_welcome_sent ≡ true = ground arith in
          let sent : c.our_ready_sent ≡ true = ground arith in
          feed_frame_then cfg (accept_ready cfg) c input (Moved cfg c input plain_ready)
            (λ d. (stays e, refl))
            λ d n frame t.
              accept_ready-Moved cfg c input plain_ready d n frame e (inr (refl, welcome)) sent t
  feed_in-Moved established c input e =
      feed_frame_then cfg (accept_frame cfg) c input (Moved cfg c input established)
        (λ d. (stays e, refl)) λ d n frame t. accept_frame-Moved c input d n frame e
  feed_in-Moved failed c input e = (stays e, refl)

  -- Whatever is fed to a connection, its state stays, becomes Failed, or moves on: from Greeting if ours
  -- is sent and the peer's is complete and accepted, to Ready or PlainHello by the mechanism; from
  -- PlainHello to PlainReady by a HELLO that the authenticator accepts; and from Ready or, once WELCOME
  -- is sent, PlainReady to Established by an accepted READY, once ours is sent.
  pub feed-Moved :
      (c : Connection cfg) (input : Bytes) → Moved cfg c input c.state (feed cfg c input).0
  unfolding feed
  feed-Moved c input = feed_in-Moved c.state c input refl
