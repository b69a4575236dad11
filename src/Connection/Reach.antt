-- ===== src/Connection/Reach.antt =====
-- The runs of a `Connection`: any calls of its methods, in any order, with any bytes from the peer.
use mathlib.Core.Path.{subst}
use mzmq_rs.Prelude.{ℕ, ◌+◌, ◌^◌, ◌≤◌, ◌≡◌, true, Bytes, All, IsByte, ok, err, panic}
use mzmq_rs.Auth.{Mechanism, AuthCheck, Config}
use mzmq_rs.Connection.{
  Connection, new, new_plain, established, write_greeting, write_ready, write_welcome, write_pong,
}
use mzmq_rs.Connection.Feed.{Fed, feed}
use mzmq_rs.Connection.Feed.Safe.{Safe}
use mzmq_rs.Connection.Feed.Total.{feed-Safe}
use mzmq_rs.Connection.Inv.{
  Greeted, PlainDone, progress, IsValid, new-IsValid_null, new_plain-IsValid,
}
use mzmq_rs.Connection.Writes.{
  write_greeting-Written, write_ready-Written, write_welcome-Written, write_pong-Written,
}

module _ (cfg : Config) where
  open cfg use {usize}

  -- One call that can change the connection.
  pub data Step (c : Connection cfg) : Connection cfg → Type 0 where
    feeding : (input : Bytes) → All IsByte input → Step c (feed cfg c input).0
    greeting_written : (out : Bytes) → Step c (write_greeting cfg c out).0
    ready_written : (out : Bytes) → Step c (write_ready cfg c out).0
    welcome_written : (out : Bytes) → Step c (write_welcome cfg c out).0
    pong_written : (out : Bytes) → Step c (write_pong cfg c out).0

  pub data Reachable : Connection cfg → Type 0 where
    from_new : Reachable (new cfg)
    from_new_plain : (auth : AuthCheck) → Reachable (new_plain cfg auth)
    after : {c d : Connection cfg} → Reachable c → Step c d → Reachable d

  Safe-IsValid : (total : ℕ) (r : Fed cfg) → Safe cfg total r → IsValid cfg r.0
  Safe-IsValid total (c, ok n) s = s.0
  Safe-IsValid total (c, err e) s = s
  Safe-IsValid total (c, panic) s = absurd s

  module _ (room : 255 + 2 ^ 32 ≤ usize) where
    Step-IsValid : {c d : Connection cfg} → Step c d → IsValid cfg c → IsValid cfg d
    Step-IsValid {c} (feeding input b) v =
        Safe-IsValid _ (feed cfg c input) (feed-Safe cfg c input room v b)
    Step-IsValid {c} (greeting_written out) v = (write_greeting-Written cfg c out v).0
    Step-IsValid {c} (ready_written out) v = (write_ready-Written cfg c out v).0
    Step-IsValid {c} (welcome_written out) v = (write_welcome-Written cfg c out v).0
    Step-IsValid {c} (pong_written out) v = (write_pong-Written cfg c out v).0

    pub reachable-IsValid : {c : Connection cfg} → Reachable c → IsValid cfg c
    reachable-IsValid from_new = new-IsValid_null cfg
    reachable-IsValid (from_new_plain auth) = new_plain-IsValid cfg auth
    reachable-IsValid (after r s) = Step-IsValid s (reachable-IsValid r)

    -- The flags of an established connection.
    pub reachable_flags :
        {c : Connection cfg}
        → Reachable c
        → c.state ≡ established
        → Greeted (progress cfg c)
          × (c.our_ready_sent ≡ true)
          × (c.mechanism ≡ Mechanism.plain
              → ((username : Bytes) × (password : Bytes) × (c.auth username password ≡ true))
                × (c.our_welcome_sent ≡ true))
    reachable_flags {c} r e =
        let v = rw e at (reachable-IsValid r).reached in
        (v.0, v.1, λ p. subst (PlainDone (progress cfg c)) p v.2)
