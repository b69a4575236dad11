-- ===== src/RadioConnection/Feed/Safe.antt =====
-- `RadioConnection::feed` on a valid connection.
use mzmq_rs.Prelude.{
  ℕ, ◌+◌, ◌-◌, ◌≤◌, min, ◌≡◌, refl, ◌∙◌, inl, inr, Bool, true, false, ◌&&◌, none, some, leb, ltb,
  ◌==◌, if◌then◌else◌, Bool-cases, length, take, drop, replicate, length-take, All, Bytes, IsByte,
  overwrite, length-overwrite, copy_at_in, Result, ok, err, panic, map_err, try, NoPanic,
  map_err-NoPanic, ignore-NoPanic, arith,
}
use mzmq_rs.Auth.{Mechanism, Config}
use mzmq_rs.Frame.Decoder.{FrameDecoder, DecodedFrame, need_flags, poisoned}
use mzmq_rs.Frame.Decoder
use mzmq_rs.Frame.Decoder.Inv.{feed-Outcome, Outcome}
use mzmq_rs.Frame.Decoder.Inv
use mzmq_rs.Frame.Decoder.Content.{feed-AreBytes, AreBytes}
use mzmq_rs.Greeting.{PeerGreeting, greeting_len, greeting_partial_len, parse_partial_greeting}
use mzmq_rs.Greeting.Fields.{
  parse_partial_greeting-NoPanic, parse_greeting-NoPanic, parse_plain_greeting-NoPanic,
}
use mzmq_rs.GroupTable.{GroupTable, join, leave}
use mzmq_rs.GroupTable.Members.{join-NoPanic}
use mzmq_rs.RadioConnection.{
  State, greeting, ConnError, greeting_error, decode_error, RadioConnection,
}
use mzmq_rs.RadioConnection.Feed.{
  parse_peer_greeting, greeted_state, Fed, greeted, check_greeting, feed_greeting, feed_frame,
  queue_pong, joined, left,
}
use mzmq_rs.RadioConnection.Inv.{Reached, progress, IsValid}

parse_peer_greeting-NoPanic : (m : Mechanism) (b : Bytes) → NoPanic (parse_peer_greeting m b)
unfolding parse_peer_greeting
parse_peer_greeting-NoPanic Mechanism.null b = parse_greeting-NoPanic b
parse_peer_greeting-NoPanic Mechanism.plain b = parse_plain_greeting-NoPanic b

module _ (cfg : Config) where
  open cfg use {usize, frame_cap, vecs}

  -- A count of at most `total` bytes, or an error, and a valid connection; no panic.
  abbrev pub Safe : ℕ → Fed cfg → Type 0
  Safe total (c, ok n) = IsValid cfg c × (n ≤ total)
  Safe total (c, err e) = IsValid cfg c
  Safe total (c, panic) = ⊥

  try_then :
      {A : Type 0} (total : ℕ) (c : RadioConnection cfg) (m : Result ConnError A) (f : A → Fed cfg)
      → IsValid cfg c
      → NoPanic m
      → ((a : A) → m ≡ ok a → Safe total (f a))
      → Safe total (try c m f)
  try_then total c (ok a) f v h k = k a refl
  try_then total c (err e) f v h k = v
  try_then total c panic f v h k = absurd h

  -- The reading of the peer's greeting, by whether ours is sent and by the mechanism.
  greeted_by-IsValid :
      (c : RadioConnection cfg) (g : PeerGreeting) (sent : Bool) (m : Mechanism)
      → IsValid cfg c
      → c.state ≡ greeting
      → c.our_greeting_sent ≡ sent
      → c.mechanism ≡ m
      → let c' = record c { peer_version_minor = g.version_minor; peer_greeting_received = true } in
        IsValid cfg (if sent then record c' { state = greeted_state m } else c')
  greeted_by-IsValid c g true Mechanism.null v s e f = record {
    greeting_full = v.greeting_full;
    greeting_in = v.greeting_in;
    decoder_ok = v.decoder_ok;
    decoder_bytes = v.decoder_bytes;
    pong_in = v.pong_in;
    reached = (f, (e, refl));
  }
  greeted_by-IsValid c g true Mechanism.plain v s e f = record {
    greeting_full = v.greeting_full;
    greeting_in = v.greeting_in;
    decoder_ok = v.decoder_ok;
    decoder_bytes = v.decoder_bytes;
    pong_in = v.pong_in;
    reached = (f, (e, refl));
  }
  greeted_by-IsValid c g false m v s e f = record {
    greeting_full = v.greeting_full;
    greeting_in = v.greeting_in;
    decoder_ok = v.decoder_ok;
    decoder_bytes = v.decoder_bytes;
    pong_in = v.pong_in;
    reached = rw s tt;
  }

  greeted-IsValid :
      (c : RadioConnection cfg) (g : PeerGreeting)
      → IsValid cfg c
      → c.state ≡ greeting
      → IsValid cfg (greeted cfg c g)
  unfolding greeted
  greeted-IsValid c g v s = greeted_by-IsValid c g c.our_greeting_sent c.mechanism v s refl refl

  check_greeting-Safe :
      (c : RadioConnection cfg) (prev_pos n total : ℕ)
      → IsValid cfg c
      → c.state ≡ greeting
      → n ≤ total
      → Safe total (check_greeting cfg c prev_pos n)
  unfolding check_greeting
  check_greeting-Safe c prev_pos n total v s h =
      let partial =
        if ltb prev_pos greeting_partial_len && leb greeting_partial_len c.greeting_pos
        then parse_partial_greeting (take greeting_partial_len c.greeting_buf)
        else ok tt in
      let partial_ok : NoPanic partial =
        ground (arith, parse_partial_greeting-NoPanic (take greeting_partial_len c.greeting_buf)) in
      try_then total c (map_err greeting_error partial) _ v
        (map_err-NoPanic greeting_error partial partial_ok)
        λ _ _. elim (Bool-cases (c.greeting_pos == greeting_len)) [
          | inl whole ↦ rw whole (
              try_then total c _ _ v
                (map_err-NoPanic greeting_error _
                  (parse_peer_greeting-NoPanic c.mechanism c.greeting_buf))
                λ g _. (greeted-IsValid c g v s, h))
          | inr part ↦ rw part (v, h)
        ]

  pub feed_greeting-Safe :
      (c : RadioConnection cfg) (input : Bytes)
      → IsValid cfg c
      → c.state ≡ greeting
      → Safe (length input) (feed_greeting cfg c input)
  unfolding feed_greeting
  feed_greeting-Safe c input v s =
      let n = min (length input) (greeting_len - c.greeting_pos) in
      let size : length (take n input) ≡ n = omega (arith, length-take n input) in
      let buf = overwrite c.greeting_buf c.greeting_pos (take n input) in
      let fits : c.greeting_pos + length (take n input) ≤ length c.greeting_buf =
        omega (arith, v.greeting_in, v.greeting_full) in
      rw (copy_at_in {E = ConnError} c.greeting_buf c.greeting_pos (take n input) fits) (
        check_greeting-Safe (record c { greeting_buf = buf; greeting_pos = c.greeting_pos + n })
          c.greeting_pos n (length input)
          (record {
            greeting_full =
                length-overwrite c.greeting_buf c.greeting_pos (take n input) fits
                ∙ v.greeting_full;
            greeting_in = omega (arith, v.greeting_in);
            decoder_ok = v.decoder_ok;
            decoder_bytes = v.decoder_bytes;
            pong_in = v.pong_in;
            reached = rw s tt;
          })
          s (omega arith))

  with_decoder-IsValid :
      (c : RadioConnection cfg) (d : FrameDecoder)
      → IsValid cfg c
      → Inv.IsValid frame_cap d
      → All IsByte d.buf
      → IsValid cfg (record c { frame_decoder = d })
  with_decoder-IsValid c d v w h = record {
    greeting_full = v.greeting_full;
    greeting_in = v.greeting_in;
    decoder_ok = w;
    decoder_bytes = h;
    pong_in = v.pong_in;
    reached = v.reached;
  }

  -- A frame that has come with the input, and the connection that has the decoder's new state.
  pub feed_frame-Safe :
      (handle : RadioConnection cfg → ℕ → DecodedFrame → Fed cfg)
      → (c : RadioConnection cfg) (input : Bytes) → IsValid cfg c
      → All IsByte input
      → ((c' : RadioConnection cfg) (n : ℕ) (frame : DecodedFrame)
          → IsValid cfg c'
          → c'.state ≡ c.state
          → progress cfg c' ≡ progress cfg c
          → n ≤ length input
          → All IsByte frame.body
          → Safe (length input) (handle c' n frame))
      → Safe (length input) (feed_frame cfg handle c input)
  unfolding feed_frame
  feed_frame-Safe handle c input v b k =
      go (Decoder.feed usize frame_cap c.frame_decoder input)
        (feed-Outcome usize frame_cap c.frame_decoder input v.decoder_ok)
        (feed-AreBytes usize frame_cap c.frame_decoder input v.decoder_bytes b)
    where
      go :
          (r : Decoder.Fed)
          → Outcome frame_cap (length input) r
          → AreBytes r
          → Safe (length input) (
              try
                (record c { frame_decoder = r.0 })
                (map_err decode_error r.1)
                λ (consumed, maybe_frame). elim maybe_frame [
                  | none ↦ (record c { frame_decoder = r.0 }, ok consumed)
                  | some frame ↦ handle (record c { frame_decoder = r.0 }) consumed frame
                ])
      go (d, ok (n, none)) o h = (with_decoder-IsValid c d v o.0 h, omega (arith, o.1))
      go (d, ok (n, some frame)) o h =
          k (record c { frame_decoder = d }) n frame (with_decoder-IsValid c d v o.0 h.0) refl refl
            o.1 h.1
      go (d, err e) o h = with_decoder-IsValid c d v o.0 h
      go (d, panic) o h = absurd o

  -- A new state, once what it asks for is reached.
  pub in_state-IsValid :
      (c : RadioConnection cfg) (s : State)
      → IsValid cfg c
      → Reached (progress cfg c) s
      → IsValid cfg (record c { state = s })
  in_state-IsValid c s v h = record {
    greeting_full = v.greeting_full;
    greeting_in = v.greeting_in;
    decoder_ok = v.decoder_ok;
    decoder_bytes = v.decoder_bytes;
    pong_in = v.pong_in;
    reached = h;
  }

  with_table-IsValid :
      (c : RadioConnection cfg) (t : GroupTable vecs)
      → IsValid cfg c
      → IsValid cfg (record c { group_table = t })
  with_table-IsValid c t v = record {
    greeting_full = v.greeting_full;
    greeting_in = v.greeting_in;
    decoder_ok = v.decoder_ok;
    decoder_bytes = v.decoder_bytes;
    pong_in = v.pong_in;
    reached = v.reached;
  }

  -- The frames of an established connection: a valid connection in the same state; no panic.
  abbrev pub Kept : RadioConnection cfg → Result ConnError (RadioConnection cfg) → Type 0
  Kept c (ok c') = IsValid cfg c' × (c'.state ≡ c.state)
  Kept c (err e) = ⊥
  Kept c panic = ⊥

  pub joined-Kept :
      (c : RadioConnection cfg) (group : Bytes) → IsValid cfg c → Kept c (joined cfg c group)
  unfolding joined
  joined-Kept c group v =
      rw
        (ignore-NoPanic {E = ConnError} (join vecs c.group_table group)
          (join-NoPanic vecs c.group_table group))
        (with_table-IsValid c (join vecs c.group_table group).0 v, refl)

  pub left-IsValid :
      (c : RadioConnection cfg) (group : Bytes) → IsValid cfg c → IsValid cfg (left cfg c group)
  unfolding left
  left-IsValid c group v = with_table-IsValid c (leave vecs c.group_table group) v

  pub queue_pong-Kept :
      (c : RadioConnection cfg) (payload : Bytes)
      → IsValid cfg c
      → Kept c (queue_pong cfg c payload)
  unfolding queue_pong
  queue_pong-Kept c payload v =
      let ctx = drop 2 payload in
      let n = min (length ctx) 16 in
      let fits : 0 + length (take n ctx) ≤ 16 = omega (arith, length-take n ctx) in
      rw (copy_at_in {E = ConnError} (replicate 16 0) 0 (take n ctx) fits) (
        record {
          greeting_full = v.greeting_full;
          greeting_in = v.greeting_in;
          decoder_ok = v.decoder_ok;
          decoder_bytes = v.decoder_bytes;
          pong_in = (length-overwrite (replicate 16 0) 0 (take n ctx) fits, omega arith);
          reached = v.reached;
        },
        refl,
      )
