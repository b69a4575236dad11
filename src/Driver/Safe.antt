-- ===== src/Driver/Safe.antt =====
-- The driver never panics.
use mzmq_rs.Prelude.{
  drop, length-take, ℕ, ◌+◌, ◌-◌, ◌^◌, ◌≤◌, ◌≡◌, refl, ◌∙◌, Bool, false, Bool-cases, ◌⊎◌, inl, inr,
  ltb, ◌==◌, if◌then◌else◌, length, take, replicate, All, Bytes, IsByte, slice, slice_in, overwrite,
  length-overwrite, copy_at, copy_at_in, Result, ok, err, panic, try, next, Fits, arith,
}
use mzmq_rs.Auth.{Config}
use mzmq_rs.Frame.Decoder.Content.{overwrite-bytes}
use mzmq_rs.Connection.{ready, state_eq, ConnError, wrong_state, io_error, Connection, write_ready}
use mzmq_rs.Connection.Inv
use mzmq_rs.Connection.Writes.{write_ready-Written}
use mzmq_rs.Connection.Writes.Room.{write_ready-Fits}
use mzmq_rs.Driver.{
  Transport, Writes, Driver, Step, send, drain_buffer, is_established, read_more, drain_or_read,
  poll,
}
use mzmq_rs.Driver.Send.{IsValid, Good, next_then, with_conn, with_socket, send-Kept}
use mzmq_rs.Driver.Drain.{drain_buffer-Good}

module _ (cfg : Config) (transport : Transport) where
  open cfg use {usize}

  module _ (room : 255 + 2 ^ 32 ≤ usize) (writes : Writes transport) where
    Good-next :
        {A B : Type 0} (m : Step cfg transport A)
        (f : Driver cfg transport → A → Step cfg transport B)
        → Good cfg transport m
        → ((d : Driver cfg transport) (a : A)
            → IsValid cfg transport d
            → Good cfg transport (f d a))
        → Good cfg transport (next m f)
    Good-next (d, ok a) f k g = g d a k
    Good-next (d, err e) f k g = k
    Good-next (d, panic) f k g = absurd k

    read_more-Good :
        (d : Driver cfg transport)
        → IsValid cfg transport d
        → Good cfg transport (read_more cfg transport d)
    unfolding read_more
    read_more-Good d v =
        let free = take (length d.rx_buf - d.rx_len) (drop d.rx_len d.rx_buf) in
        rw
          (slice_in {E = ConnError} d.rx_buf d.rx_len (length d.rx_buf)
            (omega (arith, v.len_in, v.buf_full)) (omega arith))
          (go (transport.read d.socket (length free)) λ kind bytes e.
            let (size, are) = transport.read_fits d.socket (length free) kind bytes e in
            (
              omega
                  (arith, size, length-take (length d.rx_buf - d.rx_len) (drop d.rx_len d.rx_buf)),
              are,
            ))
      where
        go :
            (r : transport.Socket × (ℕ ⊎ Bytes))
            → (ℕ
                → (bytes : Bytes) → r.1 ≡ inr bytes
                → (length bytes ≤ length d.rx_buf - d.rx_len) × All IsByte bytes)
            → (let d' = record d { socket = r.0 } in
                Good cfg transport {A = Bool} (elim r.1 [
                  | inl kind ↦ (d', err (io_error kind))
                  | inr bytes ↦
                      if length bytes == 0
                      then (d', err (io_error 0))
                      else try d' (copy_at d'.rx_buf d'.rx_len bytes) λ buf.
                        next
                          (drain_buffer cfg transport
                            (record d' { rx_buf = buf; rx_len = d'.rx_len + length bytes }))
                          (λ e _. (e, ok (is_established cfg transport e)))
                ]))
        go (s, inl kind) h = with_socket cfg transport d s v
        go (s, inr bytes) h = elim (Bool-cases (length bytes == 0)) [
          | inl end ↦ rw end (with_socket cfg transport d s v)
          | inr some' ↦
              let (size, are) = h 0 bytes refl in
              let fits : d.rx_len + length bytes ≤ length d.rx_buf =
                omega (arith, v.len_in, v.buf_full) in
              let buf = overwrite d.rx_buf d.rx_len bytes in
              let d' = record d { socket = s; rx_buf = buf; rx_len = d.rx_len + length bytes } in
              rw (some', copy_at_in {E = ConnError} d.rx_buf d.rx_len bytes fits)
                (Good-next (drain_buffer cfg transport d') _
                  (drain_buffer-Good cfg transport room writes d' (record {
                    conn_ok = v.conn_ok;
                    buf_full = length-overwrite d.rx_buf d.rx_len bytes fits ∙ v.buf_full;
                    len_in = omega (arith, v.buf_full);
                    buf_bytes = overwrite-bytes d.rx_buf d.rx_len bytes v.buf_bytes are;
                  }))
                  λ e _ u. u)
        ]

    drain_or_read-Good :
        (d : Driver cfg transport)
        → IsValid cfg transport d
        → Good cfg transport (drain_or_read cfg transport d)
    unfolding drain_or_read
    drain_or_read-Good d v = elim (Bool-cases (ltb 0 d.rx_len)) [
      | inr empty ↦ rw empty (read_more-Good d v)
      | inl buffered ↦ rw buffered (
          Good-next (drain_buffer cfg transport d) _
            (drain_buffer-Good cfg transport room writes d v)
            λ e _ u. elim (Bool-cases (ltb e.rx_len d.rx_len)) [
              | inl less ↦ rw less u
              | inr same ↦ rw same (read_more-Good e u)
            ])
    ]

    -- Where `usize` has room for a 32-bit value and a READY body, as it has at 64 bits: with a
    -- transport whose `write_all` does not panic, a call of `poll` on a valid driver leaves it valid and returns or fails. It does not
    -- panic, whatever bytes arrive, and its loop ends.
    pub poll-Good :
        (d : Driver cfg transport)
        → IsValid cfg transport d
        → Good cfg transport (poll cfg transport d)
    unfolding poll
    poll-Good d v = elim (Bool-cases (state_eq d.conn.state ready)) [
      | inr other ↦ rw other (drain_or_read-Good d v)
      | inl is_ready ↦ rw is_ready (
          go (write_ready cfg d.conn (replicate 32 0))
            (write_ready-Written cfg d.conn (replicate 32 0) v.conn_ok).0
            (write_ready-Fits cfg d.conn (replicate 32 0)))
    ]
      where
        go :
            (r : Connection cfg × Result ConnError (ℕ × Bytes))
            → Inv.IsValid cfg r.0
            → Fits r.1
            → (let d' = record d { conn = r.0 } in
                Good cfg transport {A = Bool} (elim r.1 [
                  | ok (n, buf) ↦
                      try d'
                        (slice buf 0 n)
                        λ bytes. next (send cfg transport d' bytes) (λ e _. (e, ok false))
                  | err wrong_state ↦ drain_or_read cfg transport d'
                  | err e ↦ (d', err e)
                  | panic ↦ (d', panic)
                ]))
        go (c, ok (n, buf)) w f = rw (slice_in {E = ConnError} buf 0 n (omega arith) f) (
            next_then cfg transport d.rx_len
              (send cfg transport (record d { conn = c }) (take (n - 0) buf)) _
              (send-Kept cfg transport writes (record d { conn = c }) (take (n - 0) buf)
                (with_conn cfg transport d c v w))
              λ e _ u k. u)
        go (c, err wrong_state) w f =
            drain_or_read-Good (record d { conn = c }) (with_conn cfg transport d c v w)
        go (c, err e) w f = with_conn cfg transport d c v w
        go (c, panic) w f = absurd f
