-- ===== src/Driver/Reach.antt =====
-- The runs of a driver from its opening on.
use mzmq_rs.Greeting.{encode_greeting}
use mzmq_rs.Prelude.{
  [], ap, ◌∙◌, drop, slice_at, ℕ, ◌≡◌, refl, true, length, replicate, Bytes, slice, Result, ok, err,
  panic, try, map_err, ◌>>=◌, arith,
}
use mzmq_rs.Auth.{AuthCheck, Config}
use mzmq_rs.Connection.{Connection, ConnError, io_error, new}
use mzmq_rs.Connection.Inv
use mzmq_rs.Connection.Writes.Room.{write_greeting-new}
use mzmq_rs.Driver.{Transport, Writes, Driver, start, open_null, open_plain, poll}
use mzmq_rs.Driver.Send.{IsValid}

greeting_size : length encode_greeting ≡ 64
unfolding encode_greeting
greeting_size = refl

module _ (cfg : Config) (transport : Transport) where
  open cfg use {usize}

  -- A driver that is opened is valid; the opening does not panic.
  abbrev Opened : transport.Socket × Result ConnError (Driver cfg transport) → Type 0
  Opened (s, ok d) = IsValid cfg transport d
  Opened (s, err e) = Unit
  Opened (s, panic) = ⊥

  -- The driver that `open_null` makes on this transport.
  abbrev pub opened_null : transport.Socket → Driver cfg transport
  opened_null socket = record {
    conn = record (new cfg) { our_greeting_sent = true };
    socket = socket;
    rx_buf = replicate 512 0;
    rx_len = 0;
  }

  -- Opening a NULL driver writes the greeting, in one `write_all`, and, if that succeeds, makes a driver
  -- with an empty buffer.
  pub open_null_lem :
      (socket : transport.Socket)
      → let (socket', done) = transport.write_all socket encode_greeting in
        open_null cfg transport socket
        ≡ (socket', map_err io_error done >>= λ _. ok (opened_null socket'))
  unfolding open_null start
  open_null_lem socket =
      ap send_greeting (write_greeting-new cfg (replicate 64 0) (omega arith))
      ∙ (ap made (
            slice_at _ [] encode_greeting (drop 64 (replicate 64 0)) 0 64 refl refl
              (omega (arith, greeting_size)))
          ∙ go (transport.write_all socket encode_greeting))
    where
      send_greeting :
          Connection cfg × Result ConnError (ℕ × Bytes)
          → transport.Socket × Result ConnError (Driver cfg transport)
      send_greeting (c, r) = try socket r λ (n, buf). try socket (slice buf 0 n) λ bytes.
          (let (socket', done) = transport.write_all socket bytes in
            try socket' (map_err io_error done) λ _. (
              socket',
              ok (record { conn = c; socket = socket'; rx_buf = replicate 512 0; rx_len = 0 }),
            ))

      made : Result ConnError Bytes → transport.Socket × Result ConnError (Driver cfg transport)
      made r = try socket r λ bytes.
          (let (socket', done) = transport.write_all socket bytes in
            try socket' (map_err io_error done) λ _. (socket', ok (opened_null socket')))

      go :
          (r : transport.Socket × Result ℕ (Unit {0}))
          → ◌≡◌ {A = transport.Socket × Result ConnError (Driver cfg transport)}
              (try r.0 (map_err io_error r.1) λ _. (r.0, ok (opened_null r.0)))
              (r.0, map_err io_error r.1 >>= λ _. ok (opened_null r.0))
      go (s, ok a) = refl
      go (s, err kind) = refl
      go (s, panic) = refl

  -- A driver that was opened with either mechanism and then polled any number of times.
  pub data Polled : Driver cfg transport → Type 0 where
    null_opened :
        (s s' : transport.Socket) {d : Driver cfg transport}
        → open_null cfg transport s ≡ (s', ok d)
        → Polled d
    plain_opened :
        (auth : AuthCheck) (s s' : transport.Socket) {d : Driver cfg transport}
        → open_plain cfg transport auth s ≡ (s', ok d)
        → Polled d
    polled : {d : Driver cfg transport} → Polled d → Polled (poll cfg transport d).0
