-- ===== src/Driver/Send.antt =====
-- What the driver's writes keep.
use mzmq_rs.Prelude.{
  ℕ, ◌-◌, ◌≤◌, ◌≡◌, refl, Bool-cases, Option, none, some, inl, inr, length, take, replicate, All,
  Bytes, IsByte, slice, slice_in, Result, ok, err, panic, try, next, Fits, map_err, NoPanic, arith,
}
use mzmq_rs.Auth.{Config}
use mzmq_rs.Plain.{welcome_len}
use mzmq_rs.Connection.{failed, state_eq, ConnError, io_error, Connection, write_error, write_pong}
use mzmq_rs.Connection.Inv
use mzmq_rs.Connection.Writes.{write_ready-Written, write_welcome-Written, write_pong-Written}
use mzmq_rs.Connection.Writes.Room.{
  write_ready-Fits, write_welcome-Fits, write_error-Fits, PongFits, write_pong-PongFits,
}
use mzmq_rs.Driver.{
  Transport, Writes, Driver, Step, send, send_written, send_ready, send_welcome, send_pong, report,
  sent,
}

module _ (cfg : Config) (transport : Transport) where
  open cfg use {usize}

  pub record IsValid (d : Driver cfg transport) : Type 0 where
    pub conn_ok : Inv.IsValid cfg d.conn
    pub buf_full : length d.rx_buf ≡ 512
    pub len_in : d.rx_len ≤ 512
    pub buf_bytes : All IsByte d.rx_buf

  -- A valid driver, and no panic.
  abbrev pub Good : {A : Type 0} → Step cfg transport A → Type 0
  Good (d, ok a) = IsValid d
  Good (d, err e) = IsValid d
  Good (d, panic) = ⊥

  -- The same, and no change to what is buffered.
  abbrev pub Kept : {A : Type 0} → ℕ → Step cfg transport A → Type 0
  Kept n (d, ok a) = IsValid d × (d.rx_len ≡ n)
  Kept n (d, err e) = IsValid d × (d.rx_len ≡ n)
  Kept n (d, panic) = ⊥

  pub next_then :
      {A B : Type 0} (n : ℕ) (m : Step cfg transport A)
      (f : Driver cfg transport → A → Step cfg transport B)
      → Kept n m
      → ((d : Driver cfg transport) (a : A) → IsValid d → d.rx_len ≡ n → Good (f d a))
      → Good (next m f)
  next_then n (d, ok a) f k g = g d a k.0 k.1
  next_then n (d, err e) f k g = k.0
  next_then n (d, panic) f k g = absurd k

  pub with_conn :
      (d : Driver cfg transport) (c : Connection cfg)
      → IsValid d
      → Inv.IsValid cfg c
      → IsValid (record d { conn = c })
  with_conn d c v w = record {
    conn_ok = w;
    buf_full = v.buf_full;
    len_in = v.len_in;
    buf_bytes = v.buf_bytes;
  }

  pub with_socket :
      (d : Driver cfg transport) (s : transport.Socket)
      → IsValid d
      → IsValid (record d { socket = s })
  with_socket d s v = record {
    conn_ok = v.conn_ok;
    buf_full = v.buf_full;
    len_in = v.len_in;
    buf_bytes = v.buf_bytes;
  }

  module _ (writes : Writes transport) where
    pub send-Kept :
        (d : Driver cfg transport) (bytes : Bytes)
        → IsValid d
        → Kept d.rx_len (send cfg transport d bytes)
    unfolding send
    send-Kept d bytes v = go (transport.write_all d.socket bytes) (writes d.socket bytes)
      where
        go :
            (r : transport.Socket × Result ℕ (Unit {0}))
            → NoPanic r.1
            → Kept {A = Unit} d.rx_len (record d { socket = r.0 }, map_err io_error r.1)
        go (s, ok a) h = (with_socket d s v, refl)
        go (s, err kind) h = (with_socket d s v, refl)
        go (s, panic) h = absurd h

    send_written-Kept :
        (d : Driver cfg transport) (r : Connection cfg × Result ConnError (ℕ × Bytes))
        → IsValid d
        → Inv.IsValid cfg r.0
        → Fits r.1
        → Kept d.rx_len (send_written cfg transport d r)
    unfolding send_written
    send_written-Kept d (c, ok (n, buf)) v w f =
        rw (slice_in {E = ConnError} buf 0 n (omega arith) f)
          (send-Kept (record d { conn = c }) (take (n - 0) buf) (with_conn d c v w))
    send_written-Kept d (c, err e) v w f = (with_conn d c v w, refl)
    send_written-Kept d (c, panic) v w f = absurd f

    pub send_ready-Kept :
        (d : Driver cfg transport) → IsValid d → Kept d.rx_len (send_ready cfg transport d)
    unfolding send_ready
    send_ready-Kept d v =
        send_written-Kept d _ v (write_ready-Written cfg d.conn (replicate 32 0) v.conn_ok).0
          (write_ready-Fits cfg d.conn (replicate 32 0))

    pub send_welcome-Kept :
        (d : Driver cfg transport) → IsValid d → Kept d.rx_len (send_welcome cfg transport d)
    unfolding send_welcome
    send_welcome-Kept d v =
        send_written-Kept d _ v
          (write_welcome-Written cfg d.conn (replicate welcome_len 0) v.conn_ok).0
          (write_welcome-Fits cfg d.conn (replicate welcome_len 0))

    pub send_pong-Kept :
        (d : Driver cfg transport) → IsValid d → Kept d.rx_len (send_pong cfg transport d)
    unfolding send_pong
    send_pong-Kept d v =
        go (write_pong cfg d.conn (replicate 23 0))
          (write_pong-Written cfg d.conn (replicate 23 0) v.conn_ok).0
          (write_pong-PongFits cfg d.conn (replicate 23 0) v.conn_ok.pong_in)
      where
        go :
            (r : Connection cfg × Result ConnError (Option (ℕ × Bytes)))
            → Inv.IsValid cfg r.0
            → PongFits cfg r.1
            → Kept {A = Unit} d.rx_len (
                try
                  (record d { conn = r.0 })
                  r.1
                  λ maybe. elim maybe [
                    | none ↦ (record d { conn = r.0 }, ok tt)
                    | some (n, buf) ↦
                        try
                          (record d { conn = r.0 })
                          (slice buf 0 n)
                          λ bytes. send cfg transport (record d { conn = r.0 }) bytes
                  ])
        go (c, ok none) w f = (with_conn d c v w, refl)
        go (c, ok (some (n, buf))) w f =
            rw (slice_in {E = ConnError} buf 0 n (omega arith) f)
              (send-Kept (record d { conn = c }) (take (n - 0) buf) (with_conn d c v w))
        go (c, err e) w f = (with_conn d c v w, refl)
        go (c, panic) w f = absurd f

    pub report-Kept :
        (d : Driver cfg transport) → IsValid d → Kept d.rx_len (report cfg transport d)
    unfolding report sent
    report-Kept d v = elim (Bool-cases (state_eq d.conn.state failed)) [
      | inr other ↦ rw other (v, refl)
      | inl failed' ↦ rw failed' (
          go (write_error cfg d.conn (replicate 32 0))
            (write_error-Fits cfg d.conn (replicate 32 0)))
    ]
      where
        dropped :
            (r : Step cfg transport Unit) → Kept d.rx_len r → Kept d.rx_len (sent cfg transport r)
        dropped (e, ok a) k = k
        dropped (e, err x) k = k
        dropped (e, panic) k = absurd k

        go :
            (r : Result ConnError (ℕ × Bytes))
            → Fits r
            → Kept {A = Unit} d.rx_len (elim r [
              | ok (n, buf) ↦
                  try d (slice buf 0 n) λ bytes. sent cfg transport (send cfg transport d bytes)
              | err e ↦ (d, ok tt)
              | panic ↦ (d, panic)
            ])
        go (ok (n, buf)) f =
            rw (slice_in {E = ConnError} buf 0 n (omega arith) f)
              (dropped (send cfg transport d (take (n - 0) buf)) (send-Kept d (take (n - 0) buf) v))
        go (err e) f = (v, refl)
        go panic f = absurd f
