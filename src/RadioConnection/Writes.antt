-- ===== src/RadioConnection/Writes.antt =====
-- The methods of `RadioConnection` that write handshake commands and PONG, on a valid connection.
pub mod Room
use mzmq_rs.Prelude.{
  panic, le→ltb, Option, length-overwrite, length-append, ℕ, ◌+◌, ◌≤◌, ◌<◌, ◌≡◌, refl, sym, ap, ap₂,
  ◌∙◌, inl, inr, true, not, ◌||◌, [], ◌∷◌, ◌++◌, none, some, ltb, Bool-cases, Option-cases, length,
  take, drop, Bytes, as_u8, copy_at_in, copy_at_behind, length-take, slice, slice_at,
  take-append-drop, Result, ok, err, NoPanic, arith, tests,
}
use mzmq_rs.Auth.{Mechanism, Config}
use mzmq_rs.Greeting.{greeting_len, encode_greeting, encode_plain_greeting}
use mzmq_rs.Null.Reply.{encode_ready_radio_lem, encode_error_lem}
use mzmq_rs.Plain.Hello.{encode_welcome_lem}
use mzmq_rs.RadioConnection.{
  write_error, new, fresh, invalid_socket_type, State, greeting, ready, plain_hello, plain_ready,
  established, failed, ConnError, buffer_too_small, RadioConnection, state_eq, our_greeting,
  write_greeting, write_ready, write_welcome, pong_bytes, write_pong, pong_name,
}
use mzmq_rs.RadioConnection.Inv.{PongIn, Progress, PlainDone, Reached, progress, IsValid}

pub our_greeting_len : (m : Mechanism) → length (our_greeting m) ≡ greeting_len
unfolding our_greeting encode_greeting encode_plain_greeting
our_greeting_len Mechanism.null = refl
our_greeting_len Mechanism.plain = refl

-- The PONG frame with this context.
abbrev pub pong_frame : Bytes → Bytes
pong_frame context = 4 ∷ (5 + length context) ∷ 4 ∷ pong_name ++ context

state_eq-greeting : (s : State) → state_eq s greeting ≡ true → s ≡ greeting
state_eq-greeting greeting h = refl
state_eq-greeting ready h = cc
state_eq-greeting plain_hello h = cc
state_eq-greeting plain_ready h = cc
state_eq-greeting established h = cc
state_eq-greeting failed h = cc

-- What our READY and our WELCOME add takes nothing away.
ready-PlainDone :
    (p : Progress) (m : Mechanism)
    → PlainDone p m
    → PlainDone (record p { our_ready_sent = true }) m
ready-PlainDone p Mechanism.null h = tt
ready-PlainDone p Mechanism.plain h = h

welcome-PlainDone :
    (p : Progress) (m : Mechanism)
    → PlainDone p m
    → PlainDone (record p { our_welcome_sent = true }) m
welcome-PlainDone p Mechanism.null h = tt
welcome-PlainDone p Mechanism.plain h = (h.0, refl)

ready-Reached :
    (p : Progress) (s : State) → Reached p s → Reached (record p { our_ready_sent = true }) s
ready-Reached p greeting h = tt
ready-Reached p ready h = h
ready-Reached p plain_hello h = h
ready-Reached p plain_ready h = h
ready-Reached p established h = (h.0, refl, ready-PlainDone p p.mechanism h.2)
ready-Reached p failed h = tt

welcome-Reached :
    (p : Progress) (s : State) → Reached p s → Reached (record p { our_welcome_sent = true }) s
welcome-Reached p greeting h = tt
welcome-Reached p ready h = h
welcome-Reached p plain_hello h = h
welcome-Reached p plain_ready h = h
welcome-Reached p established h = (h.0, h.1, welcome-PlainDone p p.mechanism h.2)
welcome-Reached p failed h = tt

module _ (cfg : Config) where
  -- Valid, and no panic.
  abbrev pub Written : {A : Type 0} → RadioConnection cfg × Result ConnError A → Type 0
  Written (c, r) = IsValid cfg c × NoPanic r

  with_progress-IsValid :
      (c d : RadioConnection cfg)
      → IsValid cfg c
      → Reached (progress cfg d) d.state
      → d.greeting_buf ≡ c.greeting_buf
      → d.greeting_pos ≡ c.greeting_pos
      → d.frame_decoder ≡ c.frame_decoder
      → PongIn d.pending_pong
      → IsValid cfg d
  with_progress-IsValid c d v r e f g p = record {
    greeting_full = ap length e ∙ v.greeting_full;
    greeting_in = rw f v.greeting_in;
    decoder_ok = rw g v.decoder_ok;
    decoder_bytes = rw g v.decoder_bytes;
    pong_in = p;
    reached = r;
  }

  pub write_greeting-Written :
      (c : RadioConnection cfg) (out : Bytes) → IsValid cfg c → Written (write_greeting cfg c out)
  unfolding write_greeting
  write_greeting-Written c out v =
      elim (Bool-cases (not (state_eq c.state greeting) || c.our_greeting_sent)) [
        | inl wrong ↦ rw wrong (v, tt)
        | inr right ↦ elim (Bool-cases (ltb (length out) greeting_len)) [
          | inl small ↦ rw (right, small) (v, tt)
          | inr room ↦
              let s : c.state ≡ greeting = state_eq-greeting c.state (ground arith) in
              rw
                (
                  right,
                  room,
                  copy_at_in {E = ConnError} out 0 (our_greeting c.mechanism)
                      (omega (tests, our_greeting_len c.mechanism)),
                )
                (with_progress-IsValid c _ v (rw s tt) refl refl refl v.pong_in, tt)
        ]
      ]

  pub write_ready-Written :
      (c : RadioConnection cfg) (out : Bytes) → IsValid cfg c → Written (write_ready cfg c out)
  unfolding write_ready
  write_ready-Written c out v =
      let sent : IsValid cfg (record c { our_ready_sent = true }) =
        with_progress-IsValid c _ v (ready-Reached (progress cfg c) c.state v.reached) refl refl
          refl v.pong_in in
      ground (arith, v, sent, encode_ready_radio_lem out)

  pub write_welcome-Written :
      (c : RadioConnection cfg) (out : Bytes) → IsValid cfg c → Written (write_welcome cfg c out)
  unfolding write_welcome
  write_welcome-Written c out v =
      let sent : IsValid cfg (record c { our_welcome_sent = true }) =
        with_progress-IsValid c _ v (welcome-Reached (progress cfg c) c.state v.reached) refl refl
          refl v.pong_in in
      ground (arith, v, sent, encode_welcome_lem out)

  pong_bytes_lem :
      (out ctx : Bytes) (n : ℕ)
      → length ctx ≡ 16
      → n ≤ 16
      → 7 + n ≤ length out
      → pong_bytes cfg out ctx n ≡ ok (pong_frame (take n ctx) ++ drop (7 + n) out)
  unfolding pong_bytes
  pong_bytes_lem out ctx n full fits room =
      let size : as_u8 (1 + 4 + n) ≡ 5 + n = omega arith in
      let part : length (take n ctx) ≡ n = omega (arith, length-take n ctx) in
      let head : Bytes = 4 ∷ (5 + n) ∷ 4 ∷ [] in
      let same : head ++ pong_name ++ take n ctx ≡ pong_frame (take n ctx) = rw part refl in
      let context : slice {E = ConnError} ctx 0 n ≡ ok (take n ctx) =
        slice_at ctx [] (take n ctx) (drop n ctx) 0 n (sym (take-append-drop n ctx)) refl
          (omega arith) in
      rw
        (
          size,
          copy_at_in {E = ConnError} out 0 head (omega arith),
          copy_at_behind {E = ConnError} out 0 head pong_name 3 refl (omega arith),
          context,
        )
        (copy_at_behind out 0 (head ++ pong_name) (take n ctx) 7 refl (omega arith)
          ∙ ap₂ (λ (front : Bytes) (k : ℕ). ok (front ++ drop k out)) same (omega arith))

  -- With no PING to answer, `write_pong` writes nothing. With a buffer that is too small it fails and the
  -- PONG stays pending. Else the PONG frame with the context that is kept stands at the front of the
  -- buffer, and nothing is pending any more.
  pub radio_write_pong_lem :
      (c : RadioConnection cfg) (out : Bytes)
      → PongIn c.pending_pong
      → (c.pending_pong ≡ none → write_pong cfg c out ≡ (c, ok none))
        × ((ctx : Bytes) (n : ℕ)
            → c.pending_pong ≡ some (ctx, n)
            → length out < 7 + n
            → write_pong cfg c out ≡ (c, err buffer_too_small))
        × ((ctx : Bytes) (n : ℕ)
            → c.pending_pong ≡ some (ctx, n)
            → 7 + n ≤ length out
            → write_pong cfg c out ≡ (
              record c { pending_pong = none },
              ok (some (7 + n, pong_frame (take n ctx) ++ drop (7 + n) out)),
            ))
  unfolding write_pong
  radio_write_pong_lem c out v = (
    λ e. rw e refl,
    λ ctx n e small. let h = rw e at v in rw e (ground arith),
    λ ctx n e room.
        let h = rw e at v in rw e (ground (arith, pong_bytes_lem out ctx n h.0 h.1 room)),
  )

  pub write_pong-Written :
      (c : RadioConnection cfg) (out : Bytes) → IsValid cfg c → Written (write_pong cfg c out)
  write_pong-Written c out v =
      let (idle, small, room) = radio_write_pong_lem c out v.pong_in in
      elim (Option-cases c.pending_pong) [
        | inl e ↦ rw (idle e) (v, tt)
        | inr ((ctx, n), e) ↦ elim (Bool-cases (ltb (length out) (7 + n))) [
          | inl short ↦ rw (small ctx n e (omega tests)) (v, tt)
          | inr long ↦
              rw (room ctx n e (omega tests))
                (with_progress-IsValid c _ v v.reached refl refl refl tt, tt)
        ]
      ]
