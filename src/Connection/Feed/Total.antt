-- ===== src/Connection/Feed/Total.antt =====
-- `Connection::feed` keeps a valid connection valid and never panics.
use mathlib.Core.Path.{subst}
use mzmq_rs.Prelude.{
  ℕ, ◌+◌, ◌^◌, ◌≤◌, ◌≡◌, refl, sym, ◌∙◌, inl, inr, true, not, ◌||◌, [], ◌∷◌, ltb, if◌then◌else◌,
  Bool-cases, length, All, Bytes, IsByte, slice_in, Result, ok, err, panic, try, NoPanic, arith,
  tests,
}
use mzmq_rs.Auth.{Config}
use mzmq_rs.Frame.Decoder.{DecodedFrame}
use mzmq_rs.Null.{NullError, PeerSocketType, parse_ready_from}
use mzmq_rs.Null.Bounds.{parse_ready_from-NoPanic}
use mzmq_rs.Plain.{PlainError, auth_failed, parse_hello_from}
use mzmq_rs.Plain.Hello.{parse_hello_from-NoPanic}
use mzmq_rs.Connection.{
  State, greeting, ready, plain_hello, plain_ready, established, failed, ConnError, null_error,
  plain_error, Connection,
}
use mzmq_rs.Connection.Feed.{
  accept_ready, feed_ready_inner, feed_ready, cancelled, named_command, command_frame,
  message_frame, accept_frame, feed_established, check_hello, feed_plain_hello, feed_plain_ready,
  feed_in, feed,
}
use mzmq_rs.Connection.Inv.{Reached, progress, IsValid}
use mzmq_rs.Connection.Feed.Safe.{
  Safe, feed_greeting-Safe, feed_frame-Safe, in_state-IsValid, Kept, subscribed-Kept,
  cancelled-IsValid, queue_pong-Kept,
}

module _ (cfg : Config) where
  open cfg use {usize, frame_cap, vecs}

  named_command-Kept :
      (c : Connection cfg) (name payload : Bytes)
      → IsValid cfg c
      → Kept cfg c (named_command cfg c name payload)
  unfolding named_command cancelled
  named_command-Kept c name payload v = ground (
    arith,
    v,
    subscribed-Kept cfg c payload v,
    cancelled-IsValid cfg c payload v,
    queue_pong-Kept cfg c payload v,
  )

  command_frame-Kept :
      (c : Connection cfg) (body : Bytes) → IsValid cfg c → Kept cfg c (command_frame cfg c body)
  unfolding command_frame
  command_frame-Kept c [] v = (v, refl)
  command_frame-Kept c (name_len ∷ rest) v =
      let body = name_len ∷ rest in
      elim (Bool-cases (ltb (length body) (1 + name_len))) [
        | inl short ↦ rw short (v, refl)
        | inr long ↦
            rw
              (
                long,
                slice_in {E = ConnError} body 1 (1 + name_len) (omega arith) (omega tests),
                slice_in {E = ConnError} body (1 + name_len) (length body) (omega tests)
                    (omega arith),
              )
              (named_command-Kept c _ _ v)
      ]

  message_frame-Kept :
      (c : Connection cfg) (body : Bytes) → IsValid cfg c → Kept cfg c (message_frame cfg c body)
  unfolding message_frame cancelled
  message_frame-Kept c [] v = (v, refl)
  message_frame-Kept c (tag ∷ prefix) v =
      ground (arith, v, subscribed-Kept cfg c prefix v, cancelled-IsValid cfg c prefix v)

  Kept-then :
      (total n : ℕ) (c : Connection cfg) (m : Result ConnError (Connection cfg))
      → n ≤ total
      → Kept cfg c m
      → Safe cfg total (try c m λ c'. (c', ok n))
  Kept-then total n c (ok c') h k = (k.0, h)
  Kept-then total n c (err e) h k = absurd k
  Kept-then total n c panic h k = absurd k

  accept_frame-Safe :
      (total : ℕ) (c : Connection cfg) (n : ℕ) (frame : DecodedFrame)
      → IsValid cfg c
      → n ≤ total
      → Safe cfg total (accept_frame cfg c n frame)
  unfolding accept_frame
  accept_frame-Safe total c n frame v h =
      Kept-then total n c _ h
        (ground (arith, command_frame-Kept c frame.body v, message_frame-Kept c frame.body v))

  check_hello-Safe :
      (total : ℕ) (c : Connection cfg) (n : ℕ) (frame : DecodedFrame)
      → IsValid cfg c
      → c.state ≡ plain_hello
      → n ≤ total
      → Safe cfg total (check_hello cfg c n frame)
  unfolding check_hello
  check_hello-Safe total c n frame v s h =
      go (parse_hello_from frame.is_command frame.body)
        (parse_hello_from-NoPanic frame.is_command frame.body)
    where
      go :
          (r : Result PlainError (Bytes × Bytes))
          → NoPanic r
          → Safe cfg total (elim r [
            | ok (username, password) ↦
                if c.auth username password
                then (record c { state = plain_ready }, ok n)
                else (record c { state = failed }, err (plain_error auth_failed))
            | err e ↦ (record c { state = failed }, err (plain_error e))
            | panic ↦ (c, panic)
          ])
      go (ok (username, password)) p = elim (Bool-cases (c.auth username password)) [
        | inl accepted ↦
            let r = rw s at v.reached in
            rw accepted
              (in_state-IsValid cfg c plain_ready v (r.0, r.1, (username, password, accepted)), h)
        | inr refused ↦ rw refused (in_state-IsValid cfg c failed v tt)
      ]
      go (err e) p = in_state-IsValid cfg c failed v tt
      go panic p = absurd p

  accept_ready-Safe :
      (total : ℕ) (c : Connection cfg) (n : ℕ) (frame : DecodedFrame)
      → 255 + 2 ^ 32 ≤ usize
      → IsValid cfg c
      → Reached (progress cfg c) established
      → n ≤ total
      → All IsByte frame.body
      → Safe cfg total (accept_ready cfg c n frame)
  unfolding accept_ready
  accept_ready-Safe total c n frame room v r h b = elim (Bool-cases (ltb 255 (length frame.body))) [
    | inl long ↦ rw long (in_state-IsValid cfg c failed v tt)
    | inr short ↦ rw short (
        go (parse_ready_from usize frame.is_command frame.body)
          (parse_ready_from-NoPanic usize frame.is_command frame.body b (ground arith)))
  ]
    where
      go :
          (m : Result NullError PeerSocketType)
          → NoPanic m
          → Safe cfg total (elim m [
            | ok peer ↦ (record c { state = established }, ok n)
            | err e ↦ (record c { state = failed }, err (null_error e))
            | panic ↦ (c, panic)
          ])
      go (ok peer) p = (in_state-IsValid cfg c established v r, h)
      go (err e) p = in_state-IsValid cfg c failed v tt
      go panic p = absurd p

  feed_ready_inner-Safe :
      (c : Connection cfg) (input : Bytes)
      → 255 + 2 ^ 32 ≤ usize
      → IsValid cfg c
      → Reached (progress cfg c) established
      → All IsByte input
      → Safe cfg (length input) (feed_ready_inner cfg c input)
  unfolding feed_ready_inner
  feed_ready_inner-Safe c input room v r b =
      feed_frame-Safe cfg (accept_ready cfg) c input v b λ c' n frame v' s e h b'.
        accept_ready-Safe (length input) c' n frame room v'
          (subst (λ p. Reached p established) (sym e) r) h b'

  feed_in-Safe :
      (s : State) (c : Connection cfg) (input : Bytes)
      → 255 + 2 ^ 32 ≤ usize
      → c.state ≡ s
      → IsValid cfg c
      → All IsByte input
      → Safe cfg (length input) (feed_in cfg s c input)
  unfolding feed_in feed_ready feed_established feed_plain_hello feed_plain_ready
  feed_in-Safe greeting c input room e v b = feed_greeting-Safe cfg c input v e
  feed_in-Safe ready c input room e v b = elim (Bool-cases c.our_ready_sent) [
    | inr unsent ↦ ground (arith, v)
    | inl sent ↦
        let r = rw e at v.reached in
        let safe = feed_ready_inner-Safe c input room v (r.1, sent, rw r.0 tt) b in
        ground (arith, safe)
  ]
  feed_in-Safe plain_hello c input room e v b =
      feed_frame-Safe cfg (check_hello cfg) c input v b
        λ c' n frame v' s p h b'. check_hello-Safe (length input) c' n frame v' (s ∙ e) h
  feed_in-Safe plain_ready c input room e v b =
      elim (Bool-cases (not c.our_welcome_sent || not c.our_ready_sent)) [
        | inl unsent ↦ ground (arith, v)
        | inr both ↦
            let r = rw e at v.reached in
            let welcome : c.our_welcome_sent ≡ true = ground arith in
            let sent : c.our_ready_sent ≡ true = ground arith in
            let safe = feed_ready_inner-Safe c input room v (r.1, sent, rw r.0 (r.2, welcome)) b in
            ground (arith, safe)
      ]
  feed_in-Safe established c input room e v b =
      feed_frame-Safe cfg (accept_frame cfg) c input v b
        λ c' n frame v' s p h b'. accept_frame-Safe (length input) c' n frame v' h
  feed_in-Safe failed c input room e v b = v

  -- Where `usize` has room for a 32-bit value and a READY body, as it has at 64 bits, any bytes fed to a
  -- valid connection in any state leave it valid, and the call returns an error or how many bytes it
  -- used, at most all of them: it never panics. A connection is so in state Established only if both
  -- greetings and its READY are exchanged, and, for PLAIN, only if its authenticator accepts some
  -- credentials and its WELCOME is sent.
  pub feed-Safe :
      (c : Connection cfg) (input : Bytes)
      → 255 + 2 ^ 32 ≤ usize
      → IsValid cfg c
      → All IsByte input
      → Safe cfg (length input) (feed cfg c input)
  unfolding feed
  feed-Safe c input room v b = feed_in-Safe c.state c input room refl v b
