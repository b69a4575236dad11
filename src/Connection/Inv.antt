-- ===== src/Connection/Inv.antt =====
-- What holds of a `Connection` between two calls.
use mzmq_rs.Prelude.{
  ℕ, ◌≤◌, ◌≡◌, Bool, true, Option, none, some, length, length-replicate, All, Bytes, IsByte, arith,
}
use mzmq_rs.Auth.{Mechanism, AuthCheck, Config, unit_check}
use mzmq_rs.Frame.Decoder.Inv.{new-IsValid}
use mzmq_rs.Frame.Decoder.Inv
use mzmq_rs.Frame.Decoder.Content.{new-bytes}
use mzmq_rs.Greeting.{greeting_len}
use mzmq_rs.Connection.{
  State, greeting, ready, plain_hello, plain_ready, established, failed, Connection, fresh, new,
  new_plain,
}

-- A context of at most 16 bytes, in an array of 16.
abbrev pub PongIn : Option (Bytes × ℕ) → Type 0
PongIn none = Unit
PongIn (some (ctx, ctx_len)) = (length ctx ≡ 16) × (ctx_len ≤ 16)

-- The fields that say how far the handshake has come.
pub record Progress : Type 0 where
  pub our_greeting_sent : Bool
  pub peer_greeting_received : Bool
  pub our_ready_sent : Bool
  pub our_welcome_sent : Bool
  pub mechanism : Mechanism
  pub auth : AuthCheck

-- Both greetings are exchanged.
abbrev pub Greeted : Progress → Type 0
Greeted p = (p.our_greeting_sent ≡ true) × (p.peer_greeting_received ≡ true)

-- The authenticator accepts some credentials.
abbrev pub Authorised : Progress → Type 0
Authorised p = (username : Bytes) × (password : Bytes) × (p.auth username password ≡ true)

-- What PLAIN asks for more than NULL.
abbrev pub PlainDone : Progress → Mechanism → Type 0
PlainDone p Mechanism.null = Unit
PlainDone p Mechanism.plain = Authorised p × (p.our_welcome_sent ≡ true)

-- What has been exchanged in each state.
abbrev pub Reached : Progress → State → Type 0
Reached p greeting = Unit
Reached p ready = (p.mechanism ≡ Mechanism.null) × Greeted p
Reached p plain_hello = (p.mechanism ≡ Mechanism.plain) × Greeted p
Reached p plain_ready = (p.mechanism ≡ Mechanism.plain) × Greeted p × Authorised p
Reached p established = Greeted p × (p.our_ready_sent ≡ true) × PlainDone p p.mechanism
Reached p failed = Unit

module _ (cfg : Config) where
  open cfg use {frame_cap}

  abbrev pub progress : Connection cfg → Progress
  progress c = record {
    our_greeting_sent = c.our_greeting_sent;
    peer_greeting_received = c.peer_greeting_received;
    our_ready_sent = c.our_ready_sent;
    our_welcome_sent = c.our_welcome_sent;
    mechanism = c.mechanism;
    auth = c.auth;
  }

  pub record IsValid (c : Connection cfg) : Type 0 where
    pub greeting_full : length c.greeting_buf ≡ greeting_len
    pub greeting_in : c.greeting_pos ≤ greeting_len
    pub decoder_ok : Inv.IsValid frame_cap c.frame_decoder
    pub decoder_bytes : All IsByte c.frame_decoder.buf
    pub pong_in : PongIn c.pending_pong
    pub reached : Reached (progress c) c.state

  fresh-IsValid : (m : Mechanism) (auth : AuthCheck) → IsValid (fresh cfg m auth)
  unfolding fresh
  fresh-IsValid m auth = record {
    greeting_full = length-replicate {A = ℕ} greeting_len 0;
    greeting_in = omega arith;
    decoder_ok = new-IsValid frame_cap;
    decoder_bytes = new-bytes frame_cap;
    pong_in = tt;
    reached = tt;
  }

  pub new-IsValid_null : IsValid (new cfg)
  unfolding new
  new-IsValid_null = fresh-IsValid Mechanism.null unit_check

  pub new_plain-IsValid : (auth : AuthCheck) → IsValid (new_plain cfg auth)
  unfolding new_plain
  new_plain-IsValid auth = fresh-IsValid Mechanism.plain auth
