-- ===== src/RadioDriver.antt =====
-- src/io/sync.rs: the blocking driver of a RADIO connection. A method returns the new driver beside its
-- result.
pub mod Send
pub mod Drain
pub mod Safe
pub mod Reach
pub mod Sends
use mzmq_rs.Prelude.{
  ℕ, zero, suc, ◌+◌, ◌-◌, ◌≤◌, ◌≡◌, Bool, true, false, not, ◌&&◌, Option, none, some, ◌⊎◌, inl, inr,
  ltb, leb, ◌==◌, if◌then◌else◌, length, take, drop, replicate, All, Bytes, IsByte, slice,
  overwrite, copy_at, Result, ok, err, panic, try, next, map_err,
}
use mzmq_rs.Auth.{AuthCheck, Config}
use mzmq_rs.Plain.{welcome_len}
use mzmq_rs.Driver.{Transport}
use mzmq_rs.RadioConnection.{
  State, greeting, ready, plain_hello, plain_ready, established, failed, state_eq, ConnError,
  wrong_state, io_error, RadioConnection, new, new_plain, write_greeting, write_ready,
  write_welcome, write_error, write_pong,
}
use mzmq_rs.RadioConnection.Feed.{feed}
use mzmq_rs.RadioConnection.Publish.{publish_headers}

module _ (cfg : Config) (transport : Transport) where
  open transport use {Socket}

  pub record RadioDriver : Type 0 where
    pub conn : RadioConnection cfg
    pub socket : Socket
    pub rx_buf : Bytes
    pub rx_len : ℕ

  abbrev pub Step : Type 0 → Type 0
  Step A = RadioDriver × Result ConnError A

  -- `self.transport.write_all(..).map_err(..)`
  pub send : RadioDriver → Bytes → Step (Unit {0})
  send d bytes =
      let (socket, done) = transport.write_all d.socket bytes in
      (record d { socket = socket }, map_err io_error done)

  -- A method of the connection that writes into a buffer, and the sending of what it has written.
  pub send_written :
      RadioDriver → RadioConnection cfg × Result ConnError (ℕ × Bytes) → Step (Unit {0})
  unfolding send
  send_written d (c, r) =
      let d' = record d { conn = c } in
      try d' r λ (n, buf). try d' (slice buf 0 n) λ bytes. send d' bytes

  pub send_ready : RadioDriver → Step (Unit {0})
  unfolding send_written
  send_ready d = send_written d (write_ready cfg d.conn (replicate 32 0))

  pub send_pong : RadioDriver → Step (Unit {0})
  unfolding send
  send_pong d =
      let (c, r) = write_pong cfg d.conn (replicate 23 0) in
      let d' = record d { conn = c } in
      try d' r λ maybe. elim maybe [
        | none ↦ (d', ok tt)
        | some (n, buf) ↦ try d' (slice buf 0 n) λ bytes. send d' bytes
      ]

  -- The end of `drain_buffer`: what is used up goes, and the rest moves to the front.
  pub discard : RadioDriver → ℕ → Step (Unit {0})
  discard d total_consumed =
      if ltb 0 total_consumed
      then (try d (slice d.rx_buf total_consumed d.rx_len) λ rest.
          try d (copy_at d.rx_buf 0 rest)
            λ buf. (record d { rx_buf = buf; rx_len = d.rx_len - total_consumed }, ok tt))
      else (d, ok tt)

  -- `let _ = self.transport.write_all(..);`: an error is dropped, a panic is not.
  pub sent : Step (Unit {0}) → Step (Unit {0})
  sent (d, ok a) = (d, ok tt)
  sent (d, err e) = (d, ok tt)
  sent (d, panic) = (d, panic)

  -- The ERROR frame, if the connection has failed; what becomes of it is ignored.
  pub report : RadioDriver → Step (Unit {0})
  unfolding send sent
  report d =
      if state_eq d.conn.state failed
      then elim (write_error cfg d.conn (replicate 32 0)) [
        | ok (n, buf) ↦ try d (slice buf 0 n) λ bytes. sent (send d bytes)
        | err e ↦ (d, ok tt)
        | panic ↦ (d, panic)
      ]
      else (d, ok tt)

  -- The `while` of `drain_buffer`. A round that goes on has used a byte at least.
  pub drain : ℕ → RadioDriver → ℕ → Step (Unit {0})
  unfolding send_ready send_pong discard report
  drain zero d total_consumed = (d, panic)
  drain (suc fuel) d total_consumed =
      if leb d.rx_len total_consumed
      then discard d total_consumed
      else try d (slice d.rx_buf total_consumed d.rx_len) λ input.
        (let (c, fed) = feed cfg d.conn input in
          let d' = record d { conn = c } in
          elim fed [
            | ok consumed ↦
                let total = total_consumed + consumed in
                if state_eq c.state ready && not (state_eq d.conn.state ready)
                then next (send_ready d') (λ e _. discard e total)
                else next (send_pong d')
                    (λ e _. if consumed == 0 then discard e total else drain fuel e total)
            | err e ↦ next (report d') (λ d'' _. (d'', err e))
            | panic ↦ (d', panic)
          ])

  pub drain_buffer : RadioDriver → Step (Unit {0})
  unfolding drain
  drain_buffer d = drain (suc d.rx_len) d 0

  -- `RadioDriver::new`, from the new connection on: the greeting is sent at once.
  start : RadioConnection cfg → Socket → Socket × Result ConnError RadioDriver
  start conn socket =
      let (c, r) = write_greeting cfg conn (replicate 64 0) in
      try socket r λ (n, buf). try socket (slice buf 0 n) λ bytes.
        (let (socket', done) = transport.write_all socket bytes in
          try socket' (map_err io_error done) λ _. (
            socket',
            ok (record { conn = c; socket = socket'; rx_buf = replicate 512 0; rx_len = 0 }),
          ))

  pub open_null : Socket → Socket × Result ConnError RadioDriver
  unfolding start
  open_null socket = start (new cfg) socket

  is_established : RadioDriver → Bool
  is_established d = state_eq d.conn.state established

  -- The read of `poll`, and the draining of what has come.
  pub read_more : RadioDriver → Step Bool
  unfolding drain_buffer is_established
  read_more d = try d (slice d.rx_buf d.rx_len (length d.rx_buf)) λ free.
      (let (socket, r) = transport.read d.socket (length free) in
        let d' = record d { socket = socket } in
        elim r [
          | inl kind ↦ (d', err (io_error kind))
          | inr bytes ↦
              if length bytes == 0
              then (d', err (io_error 0))
              else try d' (copy_at d'.rx_buf d'.rx_len bytes) λ buf.
                next (drain_buffer (record d' { rx_buf = buf; rx_len = d'.rx_len + length bytes }))
                  (λ e _. (e, ok (is_established e)))
        ])

  -- `poll` from the test of `rx_len` on.
  pub drain_or_read : RadioDriver → Step Bool
  unfolding read_more
  drain_or_read d =
      if ltb 0 d.rx_len
      then next (drain_buffer d)
          (λ e _. if ltb e.rx_len d.rx_len then (e, ok (is_established e)) else read_more e)
      else read_more d

  pub poll : RadioDriver → Step Bool
  unfolding drain_or_read
  poll d =
      if state_eq d.conn.state ready
      then (let (c, r) = write_ready cfg d.conn (replicate 32 0) in
          let d' = record d { conn = c } in
          elim r [
            | ok (n, buf) ↦
                try d' (slice buf 0 n) λ bytes. next (send d' bytes) (λ e _. (e, ok false))
            | err wrong_state ↦ drain_or_read d'
            | err e ↦ (d', err e)
            | panic ↦ (d', panic)
          ])
      else drain_or_read d

  -- With no peer in the group, nothing is sent.
  pub publish : RadioDriver → Bytes → Bytes → Step ℕ
  unfolding send
  publish d group body = try d (publish_headers cfg d.conn group body) λ headers. elim headers [
    | none ↦ (d, ok 0)
    | some (gh, gh_n, bh, bh_n) ↦ try d (slice gh 0 gh_n) λ group_header.
        next (send d group_header) λ d₁ _. next (send d₁ group) λ d₂ _.
          try d₂ (slice bh 0 bh_n) λ body_header.
            next (send d₂ body_header) λ d₃ _.
              next (send d₃ body) λ d₄ _. (d₄, ok (gh_n + length group + bh_n + length body))
  ]
