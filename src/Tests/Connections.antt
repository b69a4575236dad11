-- ===== src/Tests/Connections.antt =====
-- An established connection with one subscription, and the runs of the handshakes.
use mzmq_rs.Prelude.{
  ◌^◌, ◌≡◌, refl, Bool, true, false, ◌&&◌, [], ◌∷◌, ◌++◌, none, some, any, starts_with, drop, Bytes,
  All, IsByte, ltb, ok, arith,
}
use mzmq_rs.Auth.{Mechanism, unit_check}
use mzmq_rs.Frame.Decoder.{FrameDecoder, need_flags}
use mzmq_rs.Frame.Decoder
use mzmq_rs.Frame.Decoder.Inv.{new-IsValid}
use mzmq_rs.Frame.Decoder.Content.{new-bytes}
use mzmq_rs.Frame.Decoder.RoundTrip.{decoded}
use mzmq_rs.SubTable.{len, matches, subscribe}
use mzmq_rs.Connection.{
  Connection, new, established, write_greeting, write_ready, write_pong, subscribe_name, ping_name,
}
use mzmq_rs.Connection.Feed.{feed}
use mzmq_rs.Connection.Feed.Safe.{Safe}
use mzmq_rs.Connection.Feed.Commands.{
  Between, Tabled, command_body, command_bytes, feed_subscriptions, feed-publish,
}
use mzmq_rs.Connection.Feed.Handshake.{null_handshake}
use mzmq_rs.Connection.Feed.Pong.{feed-write_pong}
use mzmq_rs.Connection.Inv.{Greeted, progress}
use mzmq_rs.Connection.Publish.{publish}
use mzmq_rs.Connection.Publish.Output.{message_bytes, publish_lem, publish-decoded}
use mzmq_rs.Connection.Reach.{Reachable, from_new, after, feeding, greeting_written, ready_written}
use mzmq_rs.Connection.History.{Establishes, reachable-established}
use mzmq_rs.Connection.Writes.{pong_frame}
use mzmq_rs.Null.{sub}
use mzmq_rs.Tests.Vecs.{small}
use mzmq_rs.Tests.Handshakes.{buffer, null_hello, null_hello_ok, sub_ready, sub_ready_ok, version_1}

unfoldable pub are_bytes : Bytes → Bool
are_bytes [] = true
are_bytes (b ∷ bs) = ltb b 256 && are_bytes bs

pub are_bytes-All : (bs : Bytes) → are_bytes bs ≡ true → All IsByte bs
unfolding are_bytes
are_bytes-All [] h = tt
are_bytes-All (b ∷ bs) h = (ground (arith, h), are_bytes-All bs (ground (arith, h)))

-- A new NULL connection, then the four calls that establish it.
abbrev called_1 : Connection small
called_1 = (write_greeting small (new small) buffer).0

abbrev called_2 : Connection small
called_2 = (feed small called_1 null_hello).0

abbrev called_3 : Connection small
called_3 = (write_ready small called_2 buffer).0

abbrev called_4 : Connection small
called_4 = (feed small called_3 (command_bytes sub_ready ++ [])).0

called_4-established : called_4.state ≡ established
called_4-established =
    (null_handshake small null_hello sub_ready [] buffer buffer version_1 sub refl null_hello_ok
      (omega arith) (omega arith) (omega arith) (omega arith) sub_ready_ok (omega arith)
      (omega arith)).0

called_4-Reachable : Reachable small called_4
unfolding are_bytes
called_4-Reachable =
    after
      (after
        (after (after from_new (greeting_written buffer))
          (feeding null_hello (are_bytes-All null_hello refl)))
        (ready_written buffer))
      (feeding (command_bytes sub_ready ++ []) (are_bytes-All (command_bytes sub_ready ++ []) refl))

reachable-established_example :
    Greeted (progress small called_4)
    × (called_4.our_ready_sent ≡ true)
    × (called_4.mechanism ≡ Mechanism.plain
        → ((username : Bytes) × (password : Bytes) × (called_4.auth username password ≡ true))
          × (called_4.our_welcome_sent ≡ true))
    × Establishes small called_4
reachable-established_example =
    reachable-established small (omega arith) called_4-Reachable called_4-established

-- Subscribed to the topics that begin with 7.
abbrev pub subscribed : Connection small
subscribed = record {
  state = established;
  our_greeting_sent = true;
  peer_greeting_received = true;
  peer_version_minor = 1;
  our_ready_sent = true;
  our_welcome_sent = false;
  mechanism = Mechanism.null;
  greeting_buf = null_hello;
  greeting_pos = 64;
  frame_decoder = Decoder.new 64;
  sub_table = record { items = (7 ∷ []) ∷ [] };
  pending_pong = none;
  auth = unit_check;
}

subscribed-Between : Between small subscribed
unfolding Decoder.new
subscribed-Between = record {
  valid = record {
    greeting_full = refl;
    greeting_in = omega arith;
    decoder_ok = new-IsValid 64;
    decoder_bytes = new-bytes 64;
    pong_in = tt;
    reached = ((refl, refl), refl, tt);
  };
  is_established = refl;
  waits = refl;
  cap_small = omega arith;
  word = omega arith;
}

pub subscribed-matches : matches small.vecs subscribed.sub_table (7 ∷ 8 ∷ []) ≡ true
unfolding matches any starts_with
subscribed-matches = refl

feed_subscriptions_example :
    Tabled small subscribed
      (subscribe small.vecs subscribed.sub_table (9 ∷ [])).0
      13
      (feed small subscribed (command_bytes (command_body subscribe_name (9 ∷ [])) ++ []))
feed_subscriptions_example =
    (feed_subscriptions small subscribed (9 ∷ []) [] subscribed-Between (omega arith)).0

feed-publish_example :
    publish small
      (feed small subscribed (command_bytes (command_body subscribe_name (9 ∷ [])) ++ [])).0
      (9 ∷ 1 ∷ [])
      (5 ∷ [])
      buffer
    ≡ ok (7, message_bytes (9 ∷ 1 ∷ []) (5 ∷ []) ++ drop 7 buffer)
unfolding len
feed-publish_example =
    feed-publish small subscribed (9 ∷ []) (1 ∷ []) [] (5 ∷ []) buffer subscribed-Between
      (omega arith) (omega arith) (omega arith) (omega arith)

feed-write_pong_example :
    (c' : Connection small) × (c'.pending_pong ≡ none)
    × (write_pong small
          (feed small subscribed
            (command_bytes (command_body ping_name (0 ∷ 1 ∷ 3 ∷ 4 ∷ [])) ++ [])).0
          buffer
        ≡ (c', ok (some (9, pong_frame (3 ∷ 4 ∷ []) ++ drop 9 buffer))))
feed-write_pong_example =
    feed-write_pong small subscribed 0 1 (3 ∷ 4 ∷ []) [] buffer subscribed-Between (omega arith)
      (omega arith) (omega arith)

publish_lem_example :
    publish small subscribed (7 ∷ 8 ∷ []) (5 ∷ []) buffer
    ≡ ok (7, message_bytes (7 ∷ 8 ∷ []) (5 ∷ []) ++ drop 7 buffer)
publish_lem_example =
    (publish_lem small subscribed (7 ∷ 8 ∷ []) (5 ∷ []) buffer).2 refl subscribed-matches

publish-decoded_example :
    (d₁ : FrameDecoder) × (d₂ : FrameDecoder) × (Decoder.feed
        (2 ^ 64)
        64
        (Decoder.new 64)
        (message_bytes (7 ∷ 8 ∷ []) (5 ∷ []) ++ (4 ∷ []))
      ≡ (d₁, ok (4, some (decoded true false (7 ∷ 8 ∷ [])))))
    × (Decoder.feed (2 ^ 64) 64 d₁ (0 ∷ 1 ∷ 5 ∷ 4 ∷ [])
        ≡ (d₂, ok (3, some (decoded false false (5 ∷ [])))))
    × (d₂.state ≡ need_flags)
unfolding Decoder.new
publish-decoded_example =
    publish-decoded small (2 ^ 64) 64 (Decoder.new 64) subscribed (7 ∷ 8 ∷ []) (5 ∷ []) buffer
      (message_bytes (7 ∷ 8 ∷ []) (5 ∷ []) ++ drop 7 buffer) (4 ∷ []) 7 (new-IsValid 64) refl
      (omega arith) (omega arith) (omega arith) (omega arith) refl subscribed-matches
      ((publish_lem small subscribed (7 ∷ 8 ∷ []) (5 ∷ []) buffer).2 refl subscribed-matches)
