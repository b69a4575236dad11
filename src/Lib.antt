-- ===== src/Lib.antt =====
-- A verification of mzmq_rs, a ZMTP 3.1 publisher without an allocator: PUB and RADIO
-- connections as state machines that do no input or output themselves, and blocking drivers
-- that run them over a transport.
--
-- The program. A connection (`src/connection.rs`, `src/radio_connection.rs`) is fed the bytes
-- that a peer sends and writes what is to be sent into buffers of its caller. It reads the
-- peer's greeting (`src/greeting.rs`), for PLAIN its HELLO (`src/plain.rs`), then its READY
-- (`src/null.rs`), each behind the streaming frame decoder (`src/frame.rs`); once established
-- it keeps the subscriptions or the groups of the peer in a table (`src/sub_table.rs`,
-- `src/group_table.rs`) and publishes a message, as two frames, if the table asks for it.
--
-- The files, and what they model:
--   Frame, Frame/Decoder: `src/frame.rs`. `feed` enters the arms of the decoder's loop one
--     after the other: `feed_flags`, `feed_size`, `feed_body`.
--   SubTable, GroupTable: the tables, over the interface of Heapless, which states what the
--     crate heapless documents of `Vec`.
--   Greeting, Null, Plain, Auth: the files of the same names under `src/`.
--   Connection, Connection/Feed, Connection/Publish: `src/connection.rs`; a method that changes
--     `self` returns the new connection beside its result. RadioConnection and its children:
--     `src/radio_connection.rs`, in the same way.
--   Driver: `Driver` of `src/io/sync.rs`, which owns a connection, a transport and a buffer of 512
--     bytes. Transport is the interface of the crate embedded_io, whose `write_all` may panic;
--     Writes says that it does not. `drain` is the loop of `drain_buffer`.
--   RadioDriver: `RadioDriver` of the same file, over a RADIO connection.
--   Prelude: lists and byte slices, machine words, and `Result`, whose third value is a panic.
--   The other files hold lemmas and theorems on the module that they stand below. Tests applies
--   the theorems to concrete values.
--
-- Bytes are natural numbers, below 256 where a theorem needs it. `usize` is a parameter: the
-- number of values of the type, 2 ^ 64 or 2 ^ 32. A cast to it wraps around, and so does the
-- one sum that can pass it, `pos + val_len` in `src/null.rs`; the other sums stay near the
-- length of a slice. Fuel stands in two loops. In the metadata loop of `parse_ready_command`
-- it is the length of the body, which is enough since a round moves on by five bytes at least;
-- in `drain` it is one more than the bytes in the buffer, of which a round that goes on uses
-- up one at least. Running out of it would show as a panic. The cargo feature `plain` is on.
-- An index or a slice out of bounds is a panic of the model, in HELLO and READY as elsewhere.
-- Two arrays of a fixed length are read without this test: greetings, at constants below their
-- length, and size buffers, at positions that the decoder's invariant bounds. A first byte is
-- read by the pattern of a list that is not empty.
--
-- Not modelled: the async drivers (`src/io/async.rs`); the adapter of smoltcp
-- (`src/io/smoltcp.rs`), which forwards to a socket of that crate, and of which Writes does
-- not hold while its transmit buffer is full; `Default`, accessors that return a field, tests,
-- fuzz targets, examples and `sizing/`.
pub mod Prelude
pub mod Frame
pub mod Heapless
pub mod SubTable
pub mod GroupTable
pub mod Greeting
pub mod Null
pub mod Plain
pub mod Auth
pub mod Connection
pub mod RadioConnection
pub mod Driver
pub mod Tests
pub mod RadioDriver
