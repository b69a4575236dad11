-- ===== src/RadioConnection/Feed/Handshake.antt =====
-- The handshakes of NULL and PLAIN, from a new connection to the state Established.
use mzmq_rs.Prelude.{
  ℕ, ◌+◌, ◌^◌, ◌≤◌, ◌<◌, min, ◌≡◌, refl, ap, ◌∙◌, true, false, ◌++◌, append-nil, le→ltb, length,
  take, take_all, drop_all, replicate, Bytes, copy_at, copy_at_in, ok, arith,
}
use mzmq_rs.Auth.{Mechanism, AuthCheck, unit_check, Config}
use mzmq_rs.Frame.Encode.{header_len}
use mzmq_rs.Frame.Decoder.{FrameDecoder, need_flags}
use mzmq_rs.Frame.Decoder.Inv.{new-IsValid}
use mzmq_rs.Frame.Decoder.Inv
use mzmq_rs.Frame.Decoder
use mzmq_rs.Frame.Decoder.RoundTrip.{decoded, Reads-append, feed_whole}
use mzmq_rs.Greeting.{
  PeerGreeting, greeting_len, greeting_partial_len, parse_partial_greeting, parse_greeting,
}
use mzmq_rs.Greeting.Fields.{
  parse_partial_greeting_early, parse_greeting_iff, parse_plain_greeting_iff,
}
use mzmq_rs.Null.{PeerSocketType, parse_ready_radio_from}
use mzmq_rs.Null.Reply.{encode_ready_radio_lem}
use mzmq_rs.RadioConnection.{
  State, ready, established, ConnError, RadioConnection, fresh, new, our_greeting, write_greeting,
  in_ready_state, write_ready,
}
use mzmq_rs.RadioConnection.Feed.{
  parse_peer_greeting, greeted_state, Fed, greeted, check_greeting, feed_greeting, accept_ready,
  feed_ready_inner, feed_ready, feed_in, feed,
}
use mzmq_rs.RadioConnection.Feed.Commands.{command_bytes, feed_frame_reads}
use mzmq_rs.RadioConnection.Writes.{our_greeting_len}

early_ok :
    (m : Mechanism) (g : Bytes) (v : PeerGreeting)
    → parse_peer_greeting m g ≡ ok v
    → parse_partial_greeting (take greeting_partial_len g) ≡ ok tt
unfolding parse_peer_greeting
early_ok Mechanism.null g v e =
    (parse_partial_greeting_early g).0.1 ((parse_greeting_iff g v).0 e).0
early_ok Mechanism.plain g v e =
    (parse_partial_greeting_early g).0.1 ((parse_plain_greeting_iff g v).0 e).0

module _ (cfg : Config) where
  open cfg use {usize, frame_cap}

  check_greeting_whole :
      (c : RadioConnection cfg) (v : PeerGreeting)
      → c.greeting_pos ≡ 64
      → parse_peer_greeting c.mechanism c.greeting_buf ≡ ok v
      → check_greeting cfg c 0 64 ≡ (greeted cfg c v, ok 64)
  unfolding check_greeting
  check_greeting_whole c v p e =
      let early = early_ok c.mechanism c.greeting_buf v e in ground (arith, p, e, early)

  -- A new connection that has sent its greeting.
  abbrev pub greeting_sent : Mechanism → AuthCheck → RadioConnection cfg
  greeting_sent m auth = record (fresh cfg m auth) { our_greeting_sent = true }

  -- The same once the peer's greeting has arrived.
  abbrev pub both_greeted : Mechanism → AuthCheck → Bytes → PeerGreeting → RadioConnection cfg
  both_greeted m auth g v = record (greeting_sent m auth) {
    state = greeted_state m;
    peer_greeting_received = true;
    peer_version_minor = v.version_minor;
    greeting_buf = g;
    greeting_pos = 64;
  }

  pub write_greeting-fresh :
      (m : Mechanism) (auth : AuthCheck) (out : Bytes)
      → 64 ≤ length out
      → (write_greeting cfg (fresh cfg m auth) out).0 ≡ greeting_sent m auth
  unfolding write_greeting fresh
  write_greeting-fresh m auth out room =
      rw
        (
          le→ltb (length out) greeting_len room,
          copy_at_in {E = ConnError} out 0 (our_greeting m) (omega (arith, our_greeting_len m)),
        )
        refl

  copy_whole :
      (g : Bytes) → length g ≡ 64 → copy_at {E = ConnError} (replicate 64 0) 0 (take 64 g) ≡ ok g
  copy_whole g size =
      ap (λ (t : Bytes). copy_at {E = ConnError} (replicate 64 0) 0 t) (take_all 64 g (omega arith))
      ∙ copy_at_in (replicate 64 0) 0 g (omega arith)
      ∙ ap ok (
          ap (λ (t : Bytes). g ++ t) (drop_all (0 + length g) (replicate 64 0) (omega arith))
          ∙ append-nil g)

  -- A valid greeting in one piece, after ours.
  pub feed-greeting_sent :
      (m : Mechanism) (auth : AuthCheck) (g : Bytes) (v : PeerGreeting)
      → length g ≡ 64
      → parse_peer_greeting m g ≡ ok v
      → feed cfg (greeting_sent m auth) g ≡ (both_greeted m auth g v, ok 64)
  unfolding feed feed_in feed_greeting greeted fresh
  feed-greeting_sent m auth g v size e =
      let n : min (length g) 64 ≡ 64 = omega arith in
      rw (n, copy_whole g size)
        (check_greeting_whole
          (record (greeting_sent m auth) { greeting_buf = g; greeting_pos = 64 }) v refl e)

  pub write_ready-unsent :
      (c : RadioConnection cfg) (out : Bytes)
      → in_ready_state cfg c.mechanism c ≡ true
      → c.our_ready_sent ≡ false
      → 29 ≤ length out
      → (write_ready cfg c out).0 ≡ record c { our_ready_sent = true }
  unfolding write_ready
  write_ready-unsent c out s unsent room = ground (arith, encode_ready_radio_lem out)

  accept_ready-ok :
      (c : RadioConnection cfg) (n : ℕ) (body : Bytes) (peer : PeerSocketType)
      → length body ≤ 255
      → parse_ready_radio_from usize true body ≡ ok peer
      → accept_ready cfg c n (decoded false true body) ≡ (record c { state = established }, ok n)
  unfolding accept_ready
  accept_ready-ok c n body peer short e = rw (le→ltb 255 (length body) short, e) refl

  -- A READY frame that fits, on a connection that may become established by it.
  pub feed_ready_inner-reads :
      (c : RadioConnection cfg) (body rest : Bytes) (peer : PeerSocketType)
      → Inv.IsValid frame_cap c.frame_decoder
      → c.frame_decoder.state ≡ need_flags
      → length body ≤ frame_cap
      → length body ≤ 255
      → frame_cap < usize
      → usize ≤ 2 ^ 64
      → parse_ready_radio_from usize true body ≡ ok peer
      → (d : FrameDecoder) × (feed_ready_inner cfg c (command_bytes body ++ rest) ≡ (
        record c { frame_decoder = d; state = established },
        ok (header_len (length body) + length body),
      ))
  unfolding feed_ready_inner
  feed_ready_inner-reads c body rest peer v s fits short small word e =
      let (d, read, v', s') =
        Reads-append usize frame_cap c.frame_decoder (command_bytes body) rest _
          (decoded false true body) v
          (feed_whole usize frame_cap false true c.frame_decoder body v s fits (omega arith)
            (omega arith)) in
      (
        d,
        feed_frame_reads cfg (accept_ready cfg) c (command_bytes body ++ rest) d _ _ read
            ∙ accept_ready-ok (record c { frame_decoder = d }) _ body peer short e,
      )

  feed-ready :
      (c : RadioConnection cfg) (input : Bytes)
      → c.state ≡ ready
      → c.our_ready_sent ≡ true
      → feed cfg c input ≡ feed_ready_inner cfg c input
  unfolding feed feed_in feed_ready
  feed-ready c input s sent = ap (λ (t : State). feed_in cfg t c input) s ∙ ground (arith, sent)

  -- A NULL connection becomes established: on a new one, `write_greeting`, a valid greeting of the
  -- peer, `write_ready` and a READY command of the peer with Socket-Type DISH, of at most 255 bytes,
  -- with buffers that are large enough and a decoder that has room for the READY body and is smaller
  -- than the address space of at most 64 bits, lead to the state Established, and the last call uses
  -- exactly the READY frame, whatever follows it.
  pub radio_null_handshake :
      (g body rest out₁ out₂ : Bytes) (v : PeerGreeting) (peer : PeerSocketType)
      → length g ≡ 64
      → parse_greeting g ≡ ok v
      → length body ≤ frame_cap
      → length body ≤ 255
      → frame_cap < usize
      → usize ≤ 2 ^ 64
      → parse_ready_radio_from usize true body ≡ ok peer
      → 64 ≤ length out₁
      → 29 ≤ length out₂
      → let c₁ = (write_greeting cfg (new cfg) out₁).0 in
        let c₂ = (feed cfg c₁ g).0 in
        let c₃ = (write_ready cfg c₂ out₂).0 in
        ((feed cfg c₃ (command_bytes body ++ rest)).0.state ≡ established)
        × ((feed cfg c₃ (command_bytes body ++ rest)).1
            ≡ ok (header_len (length body) + length body))
  unfolding new fresh in_ready_state Decoder.new parse_peer_greeting
  radio_null_handshake g body rest out₁ out₂ v peer size e fits short small word r room₁ room₂ =
      let input = command_bytes body ++ rest in
      let c₂ = both_greeted Mechanism.null unit_check g v in
      let c₃ = record c₂ { our_ready_sent = true } in
      let (d, last) =
        feed_ready_inner-reads c₃ body rest peer (new-IsValid frame_cap) refl fits short small word
          r in
      let done : feed cfg c₃ input ≡ (
        record c₃ { frame_decoder = d; state = established },
        ok (header_len (length body) + length body),
      ) =
        feed-ready c₃ input refl refl ∙ last in
      let path =
        ap (λ (c : RadioConnection cfg). (write_ready cfg (feed cfg c g).0 out₂).0)
          (write_greeting-fresh Mechanism.null unit_check out₁ room₁)
        ∙ ap (λ (f : Fed cfg). (write_ready cfg f.0 out₂).0)
            (feed-greeting_sent Mechanism.null unit_check g v size e)
        ∙ write_ready-unsent c₂ out₂ refl refl room₂ in
      (
        ap (λ (c : RadioConnection cfg). (feed cfg c input).0.state) path
            ∙ ap (λ (f : Fed cfg). f.0.state) done,
        ap (λ (c : RadioConnection cfg). (feed cfg c input).1) path
            ∙ ap (λ (f : Fed cfg). f.1) done,
      )
