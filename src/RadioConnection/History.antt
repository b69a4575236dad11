-- ===== src/RadioConnection/History.antt =====
-- What has happened before a `RadioConnection` is established.
use mzmq_rs.Prelude.{
  ℕ, ◌+◌, ◌^◌, ◌≤◌, ◌≡◌, refl, sym, ◌∙◌, ◌⊎◌, inl, inr, true, Bytes, All, IsByte, length, ltb,
  arith, copy_at, Option, none, some, Result, ok, err, panic, try, if◌then◌else◌, Bool-cases,
}
use mathlib.Core.Path.{subst}
use mzmq_rs.Auth.{Mechanism, Config}
use mzmq_rs.Null.Reply.{encode_ready_radio_lem}
use mzmq_rs.Plain.Hello.{encode_welcome_lem}
use mzmq_rs.RadioConnection.{
  State, greeting, ready, plain_hello, plain_ready, established, failed, RadioConnection, fresh,
  new, new_plain, write_greeting, write_ready, write_welcome, write_pong, pong_bytes, ConnError,
  buffer_too_small,
}
use mzmq_rs.RadioConnection.Feed.{greeted_state, feed}
use mzmq_rs.RadioConnection.Feed.Moves.{
  TakesGreeting, TakesHello, TakesReady, Move, stays, fails, greets, authorises, establishes,
}
use mzmq_rs.RadioConnection.Feed.Moves.Whole.{feed-Moved}
use mzmq_rs.RadioConnection.Reach.{
  Step, feeding, greeting_written, ready_written, welcome_written, pong_written, Reachable,
  from_new, from_new_plain, after, radio_reachable_flags,
}
use mzmq_rs.RadioConnection.Inv.{Greeted, progress}

module _ (cfg : Config) where
  open cfg use {usize}

  -- Any calls between two connections.
  pub data Run (c : RadioConnection cfg) : RadioConnection cfg → Type 0 where
    at_once : Run c c
    and_then : {d e : RadioConnection cfg} → Run c d → Step cfg d e → Run c e

  -- A reachable connection that these bytes were fed to, and any calls from there on.
  pub record FedBefore (c : RadioConnection cfg) : Type 0 where
    pub at : RadioConnection cfg
    pub input : Bytes
    pub reachable : Reachable cfg at
    pub onwards : Run (feed cfg at input).0 c

  -- The peer's greeting has come, in state Greeting.
  abbrev pub Greets : RadioConnection cfg → Type 0
  Greets c = (b : FedBefore c) × (b.at.state ≡ greeting) × TakesGreeting cfg b.at b.input

  -- Later a HELLO has come, in state PlainHello.
  abbrev pub Authorises : RadioConnection cfg → Type 0
  Authorises c =
      (b : FedBefore c) × (b.at.state ≡ plain_hello) × TakesHello cfg b.at b.input × Greets b.at

  -- Later a READY has come, in state Ready of NULL or PlainReady of PLAIN.
  abbrev pub Establishes : RadioConnection cfg → Type 0
  Establishes c =
      (b : FedBefore c) × TakesReady cfg b.at b.input
      × (((c.mechanism ≡ Mechanism.null) × (b.at.state ≡ ready) × Greets b.at)
          ⊎ ((c.mechanism ≡ Mechanism.plain) × (b.at.state ≡ plain_ready) × Authorises b.at))

  -- What has come before each state.
  abbrev Seen : RadioConnection cfg → State → Type 0
  Seen c greeting = Unit
  Seen c ready = (c.mechanism ≡ Mechanism.null) × Greets c
  Seen c plain_hello = (c.mechanism ≡ Mechanism.plain) × Greets c
  Seen c plain_ready = (c.mechanism ≡ Mechanism.plain) × Authorises c
  Seen c established = Establishes c
  Seen c failed = Unit

  abbrev Unmoved : RadioConnection cfg → RadioConnection cfg → Type 0
  Unmoved c d = (d.state ≡ c.state) × (d.mechanism ≡ c.mechanism)

  write_greeting-Unmoved :
      (c : RadioConnection cfg) (out : Bytes) → Unmoved c (write_greeting cfg c out).0
  unfolding write_greeting copy_at
  write_greeting-Unmoved c out = ground arith

  write_ready-Unmoved :
      (c : RadioConnection cfg) (out : Bytes) → Unmoved c (write_ready cfg c out).0
  unfolding write_ready
  write_ready-Unmoved c out = ground (arith, encode_ready_radio_lem out)

  write_welcome-Unmoved :
      (c : RadioConnection cfg) (out : Bytes) → Unmoved c (write_welcome cfg c out).0
  unfolding write_welcome
  write_welcome-Unmoved c out = ground (arith, encode_welcome_lem out)

  write_pong-Unmoved : (c : RadioConnection cfg) (out : Bytes) → Unmoved c (write_pong cfg c out).0
  unfolding write_pong
  write_pong-Unmoved c out = go c.pending_pong
    where
      sent :
          (ctx : Bytes) (n : ℕ) (r : Result ConnError Bytes)
          → Unmoved c
              (try {B = Option (ℕ × Bytes)}
                (record c { pending_pong = none })
                r
                λ out'. (record c { pending_pong = none }, ok (some (2 + (1 + 4 + n), out')))).0
      sent ctx n (ok out') = (refl, refl)
      sent ctx n (err e) = (refl, refl)
      sent ctx n panic = (refl, refl)

      go :
          (pong : Option (Bytes × ℕ))
          → Unmoved c
              (elim pong as (λ _. RadioConnection cfg × Result ConnError (Option (ℕ × Bytes))) [
                | none ↦ (c, ok none)
                | some (ctx, ctx_len) ↦
                    let total = 2 + (1 + 4 + ctx_len) in
                    if ltb (length out) total
                    then (c, err buffer_too_small)
                    else try
                        (record c { pending_pong = none })
                        (pong_bytes cfg out ctx ctx_len)
                        λ out'. (record c { pending_pong = none }, ok (some (total, out')))
              ]).0
      go none = (refl, refl)
      go (some (ctx, n)) = elim (Bool-cases (ltb (length out) (2 + (1 + 4 + n)))) [
        | inl small ↦ rw small (refl, refl)
        | inr room ↦ rw room (sent ctx n (pong_bytes cfg out ctx n))
      ]

  abbrev onwards_by : {c d : RadioConnection cfg} → Step cfg c d → FedBefore c → FedBefore d
  onwards_by s b = record {
    at = b.at;
    input = b.input;
    reachable = b.reachable;
    onwards = and_then b.onwards s;
  }

  abbrev now :
      (c : RadioConnection cfg) (input : Bytes) → Reachable cfg c → FedBefore (feed cfg c input).0
  now c input r = record { at = c; input = input; reachable = r; onwards = at_once }

  Greets-onwards_by : {c d : RadioConnection cfg} → Step cfg c d → Greets c → Greets d
  Greets-onwards_by s (b, e, t) = (onwards_by s b, e, t)

  Authorises-onwards_by : {c d : RadioConnection cfg} → Step cfg c d → Authorises c → Authorises d
  Authorises-onwards_by s (b, e, t, g) = (onwards_by s b, e, t, g)

  -- A call that changes neither the state nor the mechanism.
  Seen-onwards_by :
      {c d : RadioConnection cfg} (s : State)
      → Step cfg c d
      → d.mechanism ≡ c.mechanism
      → Seen c s
      → Seen d s
  Seen-onwards_by greeting call m h = tt
  Seen-onwards_by ready call m h = (m ∙ h.0, Greets-onwards_by call h.1)
  Seen-onwards_by plain_hello call m h = (m ∙ h.0, Greets-onwards_by call h.1)
  Seen-onwards_by plain_ready call m h = (m ∙ h.0, Authorises-onwards_by call h.1)
  Seen-onwards_by established call m (b, taken, inl (n, e, h)) =
      (onwards_by call b, taken, inl (m ∙ n, e, h))
  Seen-onwards_by established call m (b, taken, inr (p, e, h)) =
      (onwards_by call b, taken, inr (m ∙ p, e, h))
  Seen-onwards_by failed call m h = tt

  Seen-greeted :
      (m : Mechanism) (c : RadioConnection cfg)
      → c.mechanism ≡ m
      → Greets c
      → Seen c (greeted_state m)
  Seen-greeted Mechanism.null c e g = (e, g)
  Seen-greeted Mechanism.plain c e g = (e, g)

  feed-Seen :
      (c : RadioConnection cfg) (input : Bytes)
      → All IsByte input
      → Reachable cfg c
      → Seen c c.state
      → let d = (feed cfg c input).0 in Seen d d.state
  feed-Seen c input bytes r h = go (feed-Moved cfg c input).0
    where
      d : RadioConnection cfg
      d = (feed cfg c input).0

      same : d.mechanism ≡ c.mechanism
      same = (feed-Moved cfg c input).1

      call' : Step cfg c d
      call' = feeding input bytes

      here : FedBefore d
      here = now c input r

      from :
          (s : State)
          → c.state ≡ s
          → (s ≡ ready) ⊎ ((s ≡ plain_ready) × (c.our_welcome_sent ≡ true))
          → TakesReady cfg c input
          → Establishes d
      from s e (inl f) taken =
          let g = subst (Seen c) (e ∙ f) h in (here, taken, inl (same ∙ g.0, e ∙ f, g.1))
      from s e (inr f) taken =
          let g = subst (Seen c) (e ∙ f.0) h in (here, taken, inr (same ∙ g.0, e ∙ f.0, g.1))

      go : Move cfg c input c.state d.state → Seen d d.state
      go (stays e) = subst (Seen d) (sym e) (Seen-onwards_by c.state call' same h)
      go (fails e) = subst (Seen d) (sym e) tt
      go (greets e f sent taken) =
          subst (Seen d) (sym f) (Seen-greeted c.mechanism d same (here, e, taken))
      go (authorises e f taken) =
          let g = subst (Seen c) e h in subst (Seen d) (sym f) (same ∙ g.0, (here, e, taken, g.1))
      go (establishes e f sent taken) = subst (Seen d) (sym f) (from c.state refl e taken)

  written-Seen :
      (c d : RadioConnection cfg) → Step cfg c d → Unmoved c d → Seen c c.state → Seen d d.state
  written-Seen c d call (s, m) h = subst (Seen d) (sym s) (Seen-onwards_by c.state call m h)

  reachable-Seen : {c : RadioConnection cfg} → Reachable cfg c → Seen c c.state
  unfolding new new_plain fresh
  reachable-Seen from_new = tt
  reachable-Seen (from_new_plain auth) = tt
  reachable-Seen (after {c} r (feeding input bytes)) = feed-Seen c input bytes r (reachable-Seen r)
  reachable-Seen (after {c} r (greeting_written out)) =
      written-Seen c _ (greeting_written out) (write_greeting-Unmoved c out) (reachable-Seen r)
  reachable-Seen (after {c} r (ready_written out)) =
      written-Seen c _ (ready_written out) (write_ready-Unmoved c out) (reachable-Seen r)
  reachable-Seen (after {c} r (welcome_written out)) =
      written-Seen c _ (welcome_written out) (write_welcome-Unmoved c out) (reachable-Seen r)
  reachable-Seen (after {c} r (pong_written out)) =
      written-Seen c _ (pong_written out) (write_pong-Unmoved c out) (reachable-Seen r)

  -- Where `usize` has room for a 32-bit value and a READY body, as it has at 64 bits, a connection that
  -- is established after any calls has sent its greeting, received one and sent its READY; with PLAIN
  -- its authenticator accepts some credentials, and it has sent its WELCOME.
  -- On the way here a READY was fed to it that the parser accepts, with a socket type that is served:
  -- with NULL in state Ready, with PLAIN in state PlainReady, and so after a HELLO, fed in state
  -- PlainHello, whose credentials the authenticator accepts. Before these a whole greeting was fed to
  -- it, in state Greeting, that the parser of its mechanism accepts.
  pub radio_reachable-established :
      255 + 2 ^ 32 ≤ usize
      → {c : RadioConnection cfg} → Reachable cfg c
      → c.state ≡ established
      → Greeted (progress cfg c)
        × (c.our_ready_sent ≡ true)
        × (c.mechanism ≡ Mechanism.plain
            → ((username : Bytes) × (password : Bytes) × (c.auth username password ≡ true))
              × (c.our_welcome_sent ≡ true))
        × Establishes c
  radio_reachable-established room {c} r e =
      let flags = radio_reachable_flags cfg room r e in
      (flags.0, flags.1, flags.2, subst (Seen c) e (reachable-Seen r))
