-- ===== src/RadioConnection/Feed/Pong.antt =====
-- PING and its answer.
use mzmq_rs.Prelude.{
  ℕ, ◌+◌, ◌≤◌, min, ◌≡◌, refl, sym, ap, ◌∙◌, true, false, ◌∷◌, ◌++◌, none, some, le→leb, length,
  length-append, take, drop, replicate, length-take, take-append, Bytes, overwrite,
  length-overwrite, copy_at_in, equal, ok, arith,
}
use mzmq_rs.Auth.{Config}
use mzmq_rs.Frame.Decoder.RoundTrip.{decoded}
use mzmq_rs.RadioConnection.{ConnError, RadioConnection, ping_name, write_pong}
use mzmq_rs.RadioConnection.Feed.{Fed, queue_pong, named_command, accept_frame, feed}
use mzmq_rs.RadioConnection.Feed.Commands.{
  Between, command_body, command_bytes, frame_then, command_frame-body,
}
use mzmq_rs.RadioConnection.Writes.{pong_frame, radio_write_pong_lem}

-- The array that `feed` keeps for the PONG, of a context of at least `n` bytes.
abbrev kept_context : Bytes → ℕ → Bytes
kept_context ctx n = overwrite (replicate 16 0) 0 (take n ctx)

module _ (cfg : Config) where
  queue_pong_lem :
      (c : RadioConnection cfg) (a b : ℕ) (ctx : Bytes)
      → let n = min (length ctx) 16 in
        queue_pong cfg c (a ∷ b ∷ ctx)
        ≡ ok (record c { pending_pong = some (kept_context ctx n, n) })
  unfolding queue_pong
  queue_pong_lem c a b ctx =
      let n = min (length ctx) 16 in
      rw
        (copy_at_in {E = ConnError} (replicate 16 0) 0 (take n ctx)
          (omega (arith, length-take n ctx)))
        refl

  accept_ping :
      (c : RadioConnection cfg) (k a b : ℕ) (ctx : Bytes)
      → 1 ≤ c.peer_version_minor
      → let n = min (length ctx) 16 in
        accept_frame cfg c k (decoded false true (command_body ping_name (a ∷ b ∷ ctx)))
        ≡ (record c { pending_pong = some (kept_context ctx n, n) }, ok k)
  unfolding accept_frame named_command equal
  accept_ping c k a b ctx h =
      rw
        (
          command_frame-body cfg c ping_name (a ∷ b ∷ ctx),
          le→leb 1 c.peer_version_minor h,
          queue_pong_lem c a b ctx,
        )
        refl

  -- A PING command, whose data is a TTL of two bytes and a context, makes a valid established
  -- connection between two frames, with a peer of version 3.1 or later, answer, if the command fits
  -- the decoder: `write_pong` then writes, into a buffer that has room for it, the PONG frame with
  -- the context, cut off behind 16 bytes, and nothing is pending any more.
  pub radio_feed-write_pong :
      (c : RadioConnection cfg) (a b : ℕ) (ctx rest out : Bytes)
      → Between cfg c
      → 7 + length ctx ≤ cfg.frame_cap
      → 1 ≤ c.peer_version_minor
      → let n = min (length ctx) 16 in
        7 + n ≤ length out
        → (c' : RadioConnection cfg) × (c'.pending_pong ≡ none)
          × (write_pong cfg
                (feed cfg c (command_bytes (command_body ping_name (a ∷ b ∷ ctx)) ++ rest)).0
                out
              ≡ (c', ok (some (7 + n, pong_frame (take n ctx) ++ drop (7 + n) out))))
  radio_feed-write_pong c a b ctx rest out v fits version room =
      let n = min (length ctx) 16 in
      let (d, s, e) =
        frame_then cfg c (command_body ping_name (a ∷ b ∷ ctx)) rest true v
          (omega (arith, length-append ping_name (a ∷ b ∷ ctx))) in
      let next = record c { frame_decoder = d; pending_pong = some (kept_context ctx n, n) } in
      let size : length (take n ctx) ≡ n = omega (arith, length-take n ctx) in
      let kept : take n (kept_context ctx n) ≡ take n ctx =
        take-append n (take n ctx) (drop (0 + length (take n ctx)) (replicate 16 0)) (sym size) in
      let array : length (kept_context ctx n) ≡ 16 =
        length-overwrite (replicate 16 0) 0 (take n ctx) (omega arith) in
      let written =
        (radio_write_pong_lem cfg next out (array, omega arith)).2 (kept_context ctx n) n refl
          room in
      (
        record next { pending_pong = none },
        refl,
        ap (λ (r : Fed cfg). write_pong cfg r.0 out)
              (e ∙ accept_ping (record c { frame_decoder = d }) _ a b ctx version)
            ∙ written
            ∙ ap
                (λ (t : Bytes). (
                  record next { pending_pong = none },
                  ok (some (7 + n, pong_frame t ++ drop (7 + n) out)),
                ))
                kept,
      )
