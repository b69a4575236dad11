-- ===== src/Connection/Writes/Room.antt =====
-- What a method of `Connection` writes fits its buffer.
use mzmq_rs.Prelude.{
  panic, le→ltb, Option, Fits, length-overwrite, length-append, ℕ, ◌+◌, ◌≤◌, ◌≡◌, refl, inl, inr,
  true, ◌++◌, none, some, ltb, Bool-cases, Option-cases, length, take, drop, Bytes, copy_at_in,
  length-take, Result, ok, err, arith, tests,
}
use mzmq_rs.Auth.{Config}
use mzmq_rs.Greeting.{greeting_len, encode_greeting}
use mzmq_rs.Null.Reply.{encode_ready_lem, encode_error_lem}
use mzmq_rs.Plain.Hello.{encode_welcome_lem}
use mzmq_rs.Connection.{
  write_error, new, fresh, invalid_socket_type, ConnError, Connection, our_greeting, write_greeting,
  write_ready, write_welcome, write_pong,
}
use mzmq_rs.Connection.Inv.{PongIn}
use mzmq_rs.Connection.Writes.{our_greeting_len, pong_frame, write_pong_lem}

module _ (cfg : Config) where
  -- What each method has written is in its buffer.
  pub write_greeting-Fits : (c : Connection cfg) (out : Bytes) → Fits (write_greeting cfg c out).1
  unfolding write_greeting
  write_greeting-Fits c out =
      let g = our_greeting c.mechanism in
      ground (
        arith,
        our_greeting_len c.mechanism,
        copy_at_in {E = ConnError} out 0 g,
        length-overwrite out 0 g,
      )

  pub write_ready-Fits : (c : Connection cfg) (out : Bytes) → Fits (write_ready cfg c out).1
  unfolding write_ready
  write_ready-Fits c out = ground (arith, encode_ready_lem out)

  pub write_welcome-Fits : (c : Connection cfg) (out : Bytes) → Fits (write_welcome cfg c out).1
  unfolding write_welcome
  write_welcome-Fits c out = ground (arith, encode_welcome_lem out)

  pub write_error-Fits : (c : Connection cfg) (out : Bytes) → Fits (write_error cfg c out)
  unfolding write_error
  write_error-Fits c out = ground (arith, encode_error_lem out invalid_socket_type)

  -- The PONG that `write_pong` has written is in its buffer.
  abbrev pub PongFits : Result ConnError (Option (ℕ × Bytes)) → Type 0
  PongFits (ok none) = Unit
  PongFits (ok (some (n, buf))) = n ≤ length buf
  PongFits (err e) = Unit
  PongFits panic = ⊥

  pub write_pong-PongFits :
      (c : Connection cfg) (out : Bytes) → PongIn c.pending_pong → PongFits (write_pong cfg c out).1
  write_pong-PongFits c out v =
      let (idle, small, room) = write_pong_lem cfg c out v in
      elim (Option-cases c.pending_pong) [
        | inl e ↦ rw (idle e) tt
        | inr ((ctx, n), e) ↦ elim (Bool-cases (ltb (length out) (7 + n))) [
          | inl short ↦ rw (small ctx n e (omega tests)) tt
          | inr long ↦ rw (room ctx n e (omega tests)) (
              let in' = rw e at v in
              omega (
                arith,
                length-take n ctx,
                length-append (pong_frame (take n ctx)) (drop (7 + n) out),
              ))
        ]
      ]

  -- The greeting of a new NULL connection.
  pub write_greeting-new :
      (out : Bytes)
      → 64 ≤ length out
      → write_greeting cfg (new cfg) out
        ≡ (record (new cfg) { our_greeting_sent = true }, ok (64, encode_greeting ++ drop 64 out))
  unfolding write_greeting new fresh our_greeting encode_greeting
  write_greeting-new out room =
      rw
        (
          le→ltb (length out) greeting_len room,
          copy_at_in {E = ConnError} out 0 encode_greeting room,
        )
        refl
