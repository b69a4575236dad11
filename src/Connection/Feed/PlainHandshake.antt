-- ===== src/Connection/Feed/PlainHandshake.antt =====
-- The handshake of PLAIN, from a new connection to the state Established.
use mzmq_rs.Prelude.{
  ℕ, ◌+◌, ◌^◌, ◌≤◌, ◌<◌, ◌≡◌, refl, sym, ap, ◌∙◌, true, false, [], ◌++◌, append-nil, length, Bytes,
  ok, arith,
}
use mzmq_rs.Auth.{Mechanism, AuthCheck, Config}
use mzmq_rs.Frame.Encode.{header_len}
use mzmq_rs.Frame.Decoder.{FrameDecoder, need_flags}
use mzmq_rs.Frame.Decoder.Inv.{new-IsValid}
use mzmq_rs.Frame.Decoder.Inv
use mzmq_rs.Frame.Decoder
use mzmq_rs.Frame.Decoder.RoundTrip.{decoded, Reads-append, feed_whole}
use mzmq_rs.Greeting.{PeerGreeting, parse_plain_greeting}
use mzmq_rs.Null.{PeerSocketType, parse_ready_from}
use mzmq_rs.Plain.{parse_hello_from}
use mzmq_rs.Plain.Hello.{encode_welcome_lem}
use mzmq_rs.Connection.{
  State, plain_hello, plain_ready, established, Connection, fresh, new_plain, write_greeting,
  in_ready_state, write_ready, write_welcome,
}
use mzmq_rs.Connection.Feed.{
  parse_peer_greeting, Fed, feed_ready_inner, check_hello, feed_plain_hello, feed_plain_ready,
  feed_in, feed,
}
use mzmq_rs.Connection.Feed.Commands.{command_bytes, feed_frame_reads}
use mzmq_rs.Connection.Feed.Handshake.{
  both_greeted, write_greeting-fresh, feed-greeting_sent, write_ready-unsent,
  feed_ready_inner-reads,
}

module _ (cfg : Config) where
  open cfg use {usize, frame_cap}

  check_hello-accepts :
      (c : Connection cfg) (n : ℕ) (body username password : Bytes)
      → parse_hello_from true body ≡ ok (username, password)
      → c.auth username password ≡ true
      → check_hello cfg c n (decoded false true body) ≡ (record c { state = plain_ready }, ok n)
  unfolding check_hello
  check_hello-accepts c n body username password e a = rw (e, check_hello) (ground (arith, a))

  -- A HELLO frame with credentials that are accepted.
  feed-hello :
      (c : Connection cfg) (body username password : Bytes)
      → Inv.IsValid frame_cap c.frame_decoder
      → c.frame_decoder.state ≡ need_flags
      → c.state ≡ plain_hello
      → length body ≤ frame_cap
      → frame_cap < usize
      → usize ≤ 2 ^ 64
      → parse_hello_from true body ≡ ok (username, password)
      → c.auth username password ≡ true
      → (d : FrameDecoder) × Inv.IsValid frame_cap d
        × (d.state ≡ need_flags)
        × (feed cfg c (command_bytes body) ≡ (
          record c { frame_decoder = d; state = plain_ready },
          ok (header_len (length body) + length body),
        ))
  unfolding feed feed_in feed_plain_hello
  feed-hello c body username password v s h fits small word e a =
      let (d, read, v', s') =
        Reads-append usize frame_cap c.frame_decoder (command_bytes body) [] _
          (decoded false true body) v
          (feed_whole usize frame_cap false true c.frame_decoder body v s fits (omega arith)
            (omega arith)) in
      let read' =
        ap (λ (t : Bytes). Decoder.feed usize frame_cap c.frame_decoder t)
          (sym (append-nil (command_bytes body)))
        ∙ read in
      (
        d,
        v',
        s',
        ap (λ (t : State). feed_in cfg t c (command_bytes body)) h
            ∙ feed_frame_reads cfg (check_hello cfg) c (command_bytes body) d _ _ read'
            ∙ check_hello-accepts (record c { frame_decoder = d }) _ body username password e a,
      )

  write_welcome-unsent :
      (c : Connection cfg) (out : Bytes)
      → c.state ≡ plain_ready
      → c.our_welcome_sent ≡ false
      → 10 ≤ length out
      → (write_welcome cfg c out).0 ≡ record c { our_welcome_sent = true }
  unfolding write_welcome
  write_welcome-unsent c out s unsent room = rw s (ground (arith, unsent, encode_welcome_lem out))

  feed-plain_ready :
      (c : Connection cfg) (input : Bytes)
      → c.state ≡ plain_ready
      → c.our_welcome_sent ≡ true
      → c.our_ready_sent ≡ true
      → feed cfg c input ≡ feed_ready_inner cfg c input
  unfolding feed feed_in feed_plain_ready
  feed-plain_ready c input s welcome sent =
      ap (λ (t : State). feed_in cfg t c input) s ∙ ground (arith, welcome, sent)

  -- A PLAIN connection becomes established: on a new one, `write_greeting`, a valid PLAIN greeting
  -- of the peer, a HELLO command with credentials that the authenticator accepts, `write_welcome`,
  -- `write_ready` and a READY command of the peer with Socket-Type SUB or XSUB, of at most 255
  -- bytes, with buffers that are large enough and a decoder that has room for both bodies and is
  -- smaller than the address space of at most 64 bits, lead to the state Established, and the last
  -- call uses exactly the READY frame, whatever follows it.
  pub plain_handshake :
      (auth : AuthCheck) (g hello username password body rest out₁ out₂ out₃ : Bytes)
      (v : PeerGreeting)
      → (peer : PeerSocketType) → length g ≡ 64
      → parse_plain_greeting g ≡ ok v
      → length hello ≤ frame_cap
      → parse_hello_from true hello ≡ ok (username, password)
      → auth username password ≡ true
      → length body ≤ frame_cap
      → length body ≤ 255
      → frame_cap < usize
      → usize ≤ 2 ^ 64
      → parse_ready_from usize true body ≡ ok peer
      → 64 ≤ length out₁
      → 10 ≤ length out₂
      → 27 ≤ length out₃
      → let c₁ = (write_greeting cfg (new_plain cfg auth) out₁).0 in
        let c₂ = (feed cfg c₁ g).0 in
        let c₃ = (feed cfg c₂ (command_bytes hello)).0 in
        let c₄ = (write_welcome cfg c₃ out₂).0 in
        let c₅ = (write_ready cfg c₄ out₃).0 in
        ((feed cfg c₅ (command_bytes body ++ rest)).0.state ≡ established)
        × ((feed cfg c₅ (command_bytes body ++ rest)).1
            ≡ ok (header_len (length body) + length body))
  unfolding new_plain fresh in_ready_state Decoder.new parse_peer_greeting
  plain_handshake auth g hello username password body rest out₁ out₂ out₃ v peer size e fits_hello h
        a fits short small word r room₁ room₂ room₃ =
      let input = command_bytes body ++ rest in
      let c₂ = both_greeted cfg Mechanism.plain auth g v in
      let (d, w, s, greet) =
        feed-hello c₂ hello username password (new-IsValid frame_cap) refl refl fits_hello small
          word h a in
      let c₃ = record c₂ { frame_decoder = d; state = plain_ready } in
      let c₄ = record c₃ { our_welcome_sent = true } in
      let c₅ = record c₄ { our_ready_sent = true } in
      let (d', last) = feed_ready_inner-reads cfg c₅ body rest peer w s fits short small word r in
      let done = feed-plain_ready c₅ input refl refl refl ∙ last in
      let path =
        ap
          (λ (c : Connection cfg).
            (write_ready cfg
              (write_welcome cfg (feed cfg (feed cfg c g).0 (command_bytes hello)).0 out₂).0
              out₃).0)
          (write_greeting-fresh cfg Mechanism.plain auth out₁ room₁)
        ∙ ap
            (λ (f : Fed cfg).
              (write_ready cfg (write_welcome cfg (feed cfg f.0 (command_bytes hello)).0 out₂).0
                out₃).0)
            (feed-greeting_sent cfg Mechanism.plain auth g v size e)
        ∙ ap (λ (f : Fed cfg). (write_ready cfg (write_welcome cfg f.0 out₂).0 out₃).0) greet
        ∙ ap (λ (c : Connection cfg). (write_ready cfg c out₃).0)
            (write_welcome-unsent c₃ out₂ refl refl room₂)
        ∙ write_ready-unsent cfg c₄ out₃ refl refl room₃ in
      (
        ap (λ (c : Connection cfg). (feed cfg c input).0.state) path
            ∙ ap (λ (f : Fed cfg). f.0.state) done,
        ap (λ (c : Connection cfg). (feed cfg c input).1) path ∙ ap (λ (f : Fed cfg). f.1) done,
      )
