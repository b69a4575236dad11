-- ===== src/Tests/RadioDrivers.antt =====
-- A RADIO driver over the transport of the tests.
use mzmq_rs.Prelude.{◌≡◌, refl, [], ◌∷◌, ◌++◌, ok, replicate}
use mzmq_rs.Greeting.{encode_greeting}
use mzmq_rs.RadioConnection.Feed.Commands.{command_bytes}
use mzmq_rs.RadioConnection.Publish.Output.{message_bytes}
use mzmq_rs.RadioDriver.{RadioDriver, poll, publish}
use mzmq_rs.RadioDriver.Reach.{opened_null}
use mzmq_rs.RadioDriver.Sends.{radio_publish_sends}
use mzmq_rs.Tests.Vecs.{small}
use mzmq_rs.Tests.Drivers.{Pipe, pipe}
use mzmq_rs.Tests.RadioHandshakes.{dish_ready}
use mzmq_rs.Tests.RadioConnections.{joined, joined-matches}

-- A peer that greets like this side, and then says READY.
abbrev peer : Pipe
peer = record { left = encode_greeting ++ command_bytes dish_ready; written = [] }

abbrev greeted : Pipe
greeted = record peer { written = encode_greeting }

abbrev once : RadioDriver small pipe
once = (poll small pipe (opened_null small pipe greeted)).0

abbrev ready_to_publish : RadioDriver small pipe
ready_to_publish = record {
  conn = joined;
  socket = record { left = []; written = [] };
  rx_buf = replicate 512 0;
  rx_len = 0;
}

radio_publish_sends_example : publish small pipe ready_to_publish (7 ∷ 8 ∷ []) (5 ∷ []) ≡ (
  record ready_to_publish {
    socket = record { left = []; written = message_bytes (7 ∷ 8 ∷ []) (5 ∷ []) };
  },
  ok 7,
)
radio_publish_sends_example =
    radio_publish_sends small pipe ready_to_publish (7 ∷ 8 ∷ []) (5 ∷ []) refl joined-matches
