-- ===== src/Driver/Drain.antt =====
-- The loop of `drain_buffer` ends, and keeps the driver valid.
use mzmq_rs.Prelude.{
  ℕ, zero, suc, ◌+◌, ◌-◌, ◌^◌, ◌≤◌, ◌<◌, ◌∙◌, ◌&&◌, Bool-cases, inl, inr, ltb, leb, ◌==◌,
  if◌then◌else◌, length, length-take, take, drop, All-take, All-drop, IsByte, slice_in,
  length-overwrite, copy_at_in, Result, ok, err, panic, next, arith,
}
use mzmq_rs.Auth.{Config}
use mzmq_rs.Frame.Decoder.Content.{overwrite-bytes}
use mzmq_rs.Connection.{greeting, ready, plain_hello, plain_ready, state_eq, ConnError, Connection}
use mzmq_rs.Connection.Feed.{feed}
use mzmq_rs.Connection.Feed.Safe.{Safe}
use mzmq_rs.Connection.Feed.Total.{feed-Safe}
use mzmq_rs.Driver.{
  Transport, Writes, Driver, send_ready, send_welcome, send_pong, discard, report, drain,
  drain_buffer,
}
use mzmq_rs.Driver.Send.{
  IsValid, Good, next_then, with_conn, send_ready-Kept, send_welcome-Kept, send_pong-Kept,
  report-Kept,
}

module _ (cfg : Config) (transport : Transport) where
  open cfg use {usize}

  discard-Good :
      (d : Driver cfg transport) (total : ℕ)
      → IsValid cfg transport d
      → total ≤ d.rx_len
      → Good cfg transport (discard cfg transport d total)
  unfolding discard
  discard-Good d total v h = elim (Bool-cases (ltb 0 total)) [
    | inr unused ↦ rw unused v
    | inl used ↦
        let rest = take (d.rx_len - total) (drop total d.rx_buf) in
        let size : length rest ≤ 512 =
          omega (arith, v.len_in, length-take (d.rx_len - total) (drop total d.rx_buf)) in
        rw
          (
            used,
            slice_in {E = ConnError} d.rx_buf total d.rx_len h
                (omega (arith, v.len_in, v.buf_full)),
            copy_at_in {E = ConnError} d.rx_buf 0 rest (omega (arith, v.buf_full)),
          )
          (record {
            conn_ok = v.conn_ok;
            buf_full = length-overwrite d.rx_buf 0 rest (omega (arith, v.buf_full)) ∙ v.buf_full;
            len_in = omega (arith, v.len_in);
            buf_bytes = overwrite-bytes d.rx_buf 0 rest v.buf_bytes (
                All-take IsByte (d.rx_len - total) (drop total d.rx_buf)
                  (All-drop IsByte total d.rx_buf v.buf_bytes));
          })
  ]

  module _ (room : 255 + 2 ^ 32 ≤ usize) (writes : Writes transport) where
    drain-Good :
        (fuel : ℕ) (d : Driver cfg transport) (total : ℕ)
        → IsValid cfg transport d
        → total ≤ d.rx_len
        → d.rx_len < fuel + total
        → Good cfg transport (drain cfg transport fuel d total)
    unfolding drain
    drain-Good zero d total v h f = absurd (omega arith)
    drain-Good (suc fuel) d total v h f = elim (Bool-cases (leb d.rx_len total)) [
      | inl done ↦ rw done (discard-Good d total v h)
      | inr more ↦
          let input = take (d.rx_len - total) (drop total d.rx_buf) in
          rw
            (
              more,
              slice_in {E = ConnError} d.rx_buf total d.rx_len h
                  (omega (arith, v.len_in, v.buf_full)),
            )
            (go (λ e t. drain-Good fuel e t) (feed cfg d.conn input)
              (feed-Safe cfg d.conn input room v.conn_ok (
                All-take IsByte (d.rx_len - total) (drop total d.rx_buf)
                  (All-drop IsByte total d.rx_buf v.buf_bytes)))
              (omega (arith, length-take (d.rx_len - total) (drop total d.rx_buf))))
    ]
      where
        go :
            ((e : Driver cfg transport) (t : ℕ)
              → IsValid cfg transport e
              → t ≤ e.rx_len
              → e.rx_len < fuel + t
              → Good cfg transport (drain cfg transport fuel e t))
            → (r : Connection cfg × Result ConnError ℕ)
            → Safe cfg (length (take (d.rx_len - total) (drop total d.rx_buf))) r
            → length (take (d.rx_len - total) (drop total d.rx_buf)) ≤ d.rx_len - total
            → (let (c, fed) = r in
                let d' = record d { conn = c } in
                Good cfg transport {A = Unit} (elim fed [
                  | ok consumed ↦
                      let total' = total + consumed in
                      if state_eq d.conn.state greeting && state_eq c.state ready
                      then next
                          (send_ready cfg transport d')
                          (λ e _. discard cfg transport e total')
                      else if state_eq d.conn.state plain_hello && state_eq c.state plain_ready
                      then next (send_welcome cfg transport d') (λ e _.
                        next (send_ready cfg transport e) (λ f _. discard cfg transport f total'))
                      else next (send_pong cfg transport d') (λ e _.
                        if consumed == 0
                        then discard cfg transport e total'
                        else drain cfg transport fuel e total')
                  | err e ↦ next (report cfg transport d') (λ d'' _. (d'', err e))
                  | panic ↦ (d', panic)
                ]))
        go again (c, ok consumed) s l =
            let d' = record d { conn = c } in
            let w = with_conn cfg transport d c v s.0 in
            let total' = total + consumed in
            elim (Bool-cases (state_eq d.conn.state greeting && state_eq c.state ready)) [
              | inl a ↦ rw a (
                  next_then cfg transport d.rx_len (send_ready cfg transport d') _
                    (send_ready-Kept cfg transport writes d' w)
                    λ e _ u k. discard-Good e total' u (omega (arith, s.1)))
              | inr a ↦
                  elim (Bool-cases
                    (state_eq d.conn.state plain_hello && state_eq c.state plain_ready)) [
                      | inl b ↦
                          rw (a, b)
                            (next_then cfg transport d.rx_len (send_welcome cfg transport d') _
                              (send_welcome-Kept cfg transport writes d' w)
                              λ e _ u k.
                                next_then cfg transport e.rx_len (send_ready cfg transport e) _
                                  (send_ready-Kept cfg transport writes e u)
                                  λ g _ x m. discard-Good g total' x (omega (arith, s.1)))
                      | inr b ↦
                          rw (a, b)
                            (next_then cfg transport d.rx_len (send_pong cfg transport d') _
                              (send_pong-Kept cfg transport writes d' w)
                              λ e _ u k. elim (Bool-cases (consumed == 0)) [
                                | inl stuck ↦
                                    rw stuck (discard-Good e total' u (omega (arith, s.1)))
                                | inr moved ↦ rw moved (
                                    again e total' u (omega (arith, s.1))
                                      (ground (arith, moved, k, f)))
                              ])
                    ]
            ]
        go again (c, err e) s l =
            next_then cfg transport d.rx_len (report cfg transport (record d { conn = c })) _
              (report-Kept cfg transport writes (record d { conn = c })
                (with_conn cfg transport d c v s))
              λ d'' _ u k. u
        go again (c, panic) s l = absurd s

    pub drain_buffer-Good :
        (d : Driver cfg transport)
        → IsValid cfg transport d
        → Good cfg transport (drain_buffer cfg transport d)
    unfolding drain_buffer
    drain_buffer-Good d v = drain-Good (suc d.rx_len) d 0 v (omega arith) (omega arith)
