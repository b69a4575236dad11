-- ===== src/Tests/Drivers.antt =====
-- A driver over a transport that keeps what is written and reads from what it is given.
use mzmq_rs.Prelude.{
  ◌≤◌, ◌≡◌, refl, [], ◌∷◌, ◌++◌, inr, map, length, length-take, take, drop, replicate, All,
  All-take, Bytes, IsByte, as_u8, ok, arith,
}
use mathlib.Core.Path.{subst}
use mathlib.Core.Sum.{inr-injective}
use mzmq_rs.Greeting.{encode_greeting}
use mzmq_rs.Connection.Publish.Output.{message_bytes}
use mzmq_rs.Driver.{Transport, Driver, poll, publish}
use mzmq_rs.Driver.Reach.{opened_null}
use mzmq_rs.Driver.Sends.{publish_sends}
use mzmq_rs.Tests.Vecs.{small}
use mzmq_rs.Connection.Feed.Commands.{command_bytes}
use mzmq_rs.Tests.Handshakes.{sub_ready}
use mzmq_rs.Tests.Connections.{subscribed, subscribed-matches}

-- What is left to read, and what has been written.
pub record Pipe : Type 0 where
  pub left : Bytes
  pub written : Bytes

pub as_u8-bytes : (b : Bytes) → All IsByte (map as_u8 b)
as_u8-bytes [] = tt
as_u8-bytes (x ∷ b) = (omega arith, as_u8-bytes b)

abbrev pub pipe : Transport
pipe = record {
  Socket = Pipe;
  write_all = λ s bytes. (record s { written = s.written ++ bytes }, ok tt);
  read = λ s room. (record s { left = drop room s.left }, inr (take room (map as_u8 s.left)));
  read_fits = λ s room kind bytes e.
      subst (λ b. (length b ≤ room) × All IsByte b) (inr-injective _ _ e)
        (
          rw (length-take room (map as_u8 s.left)) (omega arith),
          All-take IsByte room (map as_u8 s.left) (as_u8-bytes s.left),
        );
}

-- A peer that greets like this side, and then says READY.
abbrev peer : Pipe
peer = record { left = encode_greeting ++ command_bytes sub_ready; written = [] }

abbrev greeted : Pipe
greeted = record peer { written = encode_greeting }

abbrev once : Driver small pipe
once = (poll small pipe (opened_null small pipe greeted)).0

abbrev ready_to_publish : Driver small pipe
ready_to_publish = record {
  conn = subscribed;
  socket = record { left = []; written = [] };
  rx_buf = replicate 512 0;
  rx_len = 0;
}

publish_sends_example : publish small pipe ready_to_publish (7 ∷ 8 ∷ []) (5 ∷ []) ≡ (
  record ready_to_publish {
    socket = record { left = []; written = message_bytes (7 ∷ 8 ∷ []) (5 ∷ []) };
  },
  ok 7,
)
publish_sends_example =
    publish_sends small pipe ready_to_publish (7 ∷ 8 ∷ []) (5 ∷ []) refl subscribed-matches
