-- ===== src/Tests/RadioConnections.antt =====
-- An established RADIO connection with one group, and the runs of the handshakes.
use mzmq_rs.Prelude.{
  ◌^◌, ◌≡◌, refl, true, false, [], ◌∷◌, ◌++◌, none, some, any, equal, drop, Bytes, ok, arith,
}
use mzmq_rs.Auth.{Mechanism, unit_check}
use mzmq_rs.Frame.Decoder.{FrameDecoder, need_flags}
use mzmq_rs.Frame.Decoder
use mzmq_rs.Frame.Decoder.Inv.{new-IsValid}
use mzmq_rs.Frame.Decoder.Content.{new-bytes}
use mzmq_rs.Frame.Decoder.RoundTrip.{decoded}
use mzmq_rs.GroupTable.{len, matches, join}
use mzmq_rs.RadioConnection.{
  RadioConnection, new, established, write_greeting, write_ready, write_pong, join_name, ping_name,
}
use mzmq_rs.RadioConnection.Feed.{feed}
use mzmq_rs.RadioConnection.Feed.Safe.{Safe}
use mzmq_rs.RadioConnection.Feed.Commands.{
  Between, Tabled, command_body, command_bytes, feed_memberships, radio_feed-publish,
}
use mzmq_rs.RadioConnection.Feed.Handshake.{radio_null_handshake}
use mzmq_rs.RadioConnection.Feed.Pong.{radio_feed-write_pong}
use mzmq_rs.RadioConnection.Inv.{Greeted, progress}
use mzmq_rs.RadioConnection.Publish.{publish}
use mzmq_rs.RadioConnection.Publish.Output.{message_bytes, radio_publish_lem, radio_publish-decoded}
use mzmq_rs.RadioConnection.Reach.{
  Reachable, from_new, after, feeding, greeting_written, ready_written,
}
use mzmq_rs.RadioConnection.History.{Establishes, radio_reachable-established}
use mzmq_rs.RadioConnection.Writes.{pong_frame}
use mzmq_rs.Null.{dish}
use mzmq_rs.Tests.Connections.{are_bytes, are_bytes-All}
use mzmq_rs.Tests.Vecs.{small}
use mzmq_rs.Tests.Handshakes.{buffer, null_hello, null_hello_ok, version_1}
use mzmq_rs.Tests.RadioHandshakes.{dish_ready, dish_ready_ok}

-- A new NULL connection, then the four calls that establish it.
abbrev called_1 : RadioConnection small
called_1 = (write_greeting small (new small) buffer).0

abbrev called_2 : RadioConnection small
called_2 = (feed small called_1 null_hello).0

abbrev called_3 : RadioConnection small
called_3 = (write_ready small called_2 buffer).0

abbrev called_4 : RadioConnection small
called_4 = (feed small called_3 (command_bytes dish_ready ++ [])).0

called_4-established : called_4.state ≡ established
called_4-established =
    (radio_null_handshake small null_hello dish_ready [] buffer buffer version_1 dish refl
      null_hello_ok (omega arith) (omega arith) (omega arith) (omega arith) dish_ready_ok
      (omega arith) (omega arith)).0

called_4-Reachable : Reachable small called_4
unfolding are_bytes
called_4-Reachable =
    after
      (after
        (after (after from_new (greeting_written buffer))
          (feeding null_hello (are_bytes-All null_hello refl)))
        (ready_written buffer))
      (feeding (command_bytes dish_ready ++ [])
        (are_bytes-All (command_bytes dish_ready ++ []) refl))

radio_reachable-established_example :
    Greeted (progress small called_4)
    × (called_4.our_ready_sent ≡ true)
    × (called_4.mechanism ≡ Mechanism.plain
        → ((username : Bytes) × (password : Bytes) × (called_4.auth username password ≡ true))
          × (called_4.our_welcome_sent ≡ true))
    × Establishes small called_4
radio_reachable-established_example =
    radio_reachable-established small (omega arith) called_4-Reachable called_4-established

-- The peer is in the group 7 8.
abbrev pub joined : RadioConnection small
joined = record {
  state = established;
  our_greeting_sent = true;
  peer_greeting_received = true;
  peer_version_minor = 1;
  our_ready_sent = true;
  our_welcome_sent = false;
  mechanism = Mechanism.null;
  greeting_buf = null_hello;
  greeting_pos = 64;
  frame_decoder = Decoder.new 64;
  group_table = record { items = (7 ∷ 8 ∷ []) ∷ [] };
  pending_pong = none;
  auth = unit_check;
}

joined-Between : Between small joined
unfolding Decoder.new
joined-Between = record {
  valid = record {
    greeting_full = refl;
    greeting_in = omega arith;
    decoder_ok = new-IsValid 64;
    decoder_bytes = new-bytes 64;
    pong_in = tt;
    reached = ((refl, refl), refl, tt);
  };
  is_established = refl;
  waits = refl;
  cap_small = omega arith;
  word = omega arith;
}

pub joined-matches : matches small.vecs joined.group_table (7 ∷ 8 ∷ []) ≡ true
unfolding matches any equal
joined-matches = refl

feed_memberships_example :
    Tabled small joined
      (join small.vecs joined.group_table (9 ∷ [])).0
      8
      (feed small joined (command_bytes (command_body join_name (9 ∷ [])) ++ []))
feed_memberships_example =
    (feed_memberships small joined (9 ∷ []) [] joined-Between (omega arith)).0

radio_feed-publish_example :
    publish small
      (feed small joined (command_bytes (command_body join_name (9 ∷ [])) ++ [])).0
      (9 ∷ [])
      (5 ∷ [])
      buffer
    ≡ ok (6, message_bytes (9 ∷ []) (5 ∷ []) ++ drop 6 buffer)
unfolding len
radio_feed-publish_example =
    radio_feed-publish small joined (9 ∷ []) [] (5 ∷ []) buffer joined-Between (omega arith)
      (omega arith) (omega arith) (omega arith)

radio_feed-write_pong_example :
    (c' : RadioConnection small) × (c'.pending_pong ≡ none)
    × (write_pong small
          (feed small joined (command_bytes (command_body ping_name (0 ∷ 1 ∷ 3 ∷ 4 ∷ [])) ++ [])).0
          buffer
        ≡ (c', ok (some (9, pong_frame (3 ∷ 4 ∷ []) ++ drop 9 buffer))))
radio_feed-write_pong_example =
    radio_feed-write_pong small joined 0 1 (3 ∷ 4 ∷ []) [] buffer joined-Between (omega arith)
      (omega arith) (omega arith)

radio_publish_lem_example :
    publish small joined (7 ∷ 8 ∷ []) (5 ∷ []) buffer
    ≡ ok (7, message_bytes (7 ∷ 8 ∷ []) (5 ∷ []) ++ drop 7 buffer)
radio_publish_lem_example =
    (radio_publish_lem small joined (7 ∷ 8 ∷ []) (5 ∷ []) buffer).2 refl joined-matches

radio_publish-decoded_example :
    (d₁ : FrameDecoder) × (d₂ : FrameDecoder) × (Decoder.feed
        (2 ^ 64)
        64
        (Decoder.new 64)
        (message_bytes (7 ∷ 8 ∷ []) (5 ∷ []) ++ (4 ∷ []))
      ≡ (d₁, ok (4, some (decoded true false (7 ∷ 8 ∷ [])))))
    × (Decoder.feed (2 ^ 64) 64 d₁ (0 ∷ 1 ∷ 5 ∷ 4 ∷ [])
        ≡ (d₂, ok (3, some (decoded false false (5 ∷ [])))))
    × (d₂.state ≡ need_flags)
unfolding Decoder.new
radio_publish-decoded_example =
    radio_publish-decoded small (2 ^ 64) 64 (Decoder.new 64) joined (7 ∷ 8 ∷ []) (5 ∷ []) buffer
      (message_bytes (7 ∷ 8 ∷ []) (5 ∷ []) ++ drop 7 buffer) (4 ∷ []) 7 (new-IsValid 64) refl
      (omega arith) (omega arith) (omega arith) (omega arith) refl joined-matches
      ((radio_publish_lem small joined (7 ∷ 8 ∷ []) (5 ∷ []) buffer).2 refl joined-matches)
