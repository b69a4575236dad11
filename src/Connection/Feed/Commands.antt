-- ===== src/Connection/Feed/Commands.antt =====
-- What a whole frame does to an established connection.
use mzmq_rs.Prelude.{
  ℕ, ◌+◌, ◌^◌, ◌≤◌, ◌<◌, ◌≡◌, refl, ap, ◌∙◌, Bool, true, false, [], ◌∷◌, ◌++◌, append-nil, none,
  some, le→ltb, if◌then◌else◌, length, length-append, drop, Bytes, slice, slice_at, equal,
  equal_refl, count, count-append, ok, map_err, try, ignore-NoPanic, arith,
}
use mzmq_rs.Auth.{Config}
use mzmq_rs.Frame.Encode.{header, header_len}
use mzmq_rs.Frame.Decoder.{FrameDecoder, DecodedFrame, need_flags}
use mzmq_rs.Frame.Decoder
use mzmq_rs.Frame.Decoder.RoundTrip.{decoded, Reads-append, feed_whole}
use mzmq_rs.SubTable.{SubTable, subscribe, cancel, matches, prefixes, len}
use mzmq_rs.SubTable.Counts.{subscribe_lem, subscribe-NoPanic, matches_iff}
use mzmq_rs.Connection.{
  State, established, ConnError, decode_error, Connection, subscribe_name, cancel_name,
}
use mzmq_rs.Connection.Feed.{
  Fed, feed_frame, subscribed, cancelled, named_command, command_frame, message_frame, accept_frame,
  feed_established, feed_in, feed,
}
use mzmq_rs.Connection.Inv.{IsValid}
use mzmq_rs.Connection.Publish.Output.{publish_lem, message_len, message_bytes}
use mzmq_rs.Connection.Publish.{publish}

-- The body of a command, `name-size name data`, and the frame around a body.
abbrev pub command_body : Bytes → Bytes → Bytes
command_body name payload = (length name ∷ name) ++ payload

abbrev pub command_bytes : Bytes → Bytes
command_bytes body = header 4 (length body) ++ body

abbrev pub message_frame_bytes : Bytes → Bytes
message_frame_bytes body = header 0 (length body) ++ body

module _ (cfg : Config) where
  open cfg use {usize, frame_cap, vecs}

  -- An established connection between two frames, and an address space for its buffer.
  pub record Between (c : Connection cfg) : Type 0 where
    pub valid : IsValid cfg c
    pub is_established : c.state ≡ established
    pub waits : c.frame_decoder.state ≡ need_flags
    pub cap_small : frame_cap < usize
    pub word : usize ≤ 2 ^ 64

  pub feed_frame_reads :
      (handle : Connection cfg → ℕ → DecodedFrame → Fed cfg)
      → (c : Connection cfg) (input : Bytes) (d : FrameDecoder) (n : ℕ) (frame : DecodedFrame)
      → Decoder.feed usize frame_cap c.frame_decoder input ≡ (d, ok (n, some frame))
      → feed_frame cfg handle c input ≡ handle (record c { frame_decoder = d }) n frame
  unfolding feed_frame
  feed_frame_reads handle c input d n frame e =
      ap
        (λ (r : Decoder.Fed).
          try (record c { frame_decoder = r.0 }) (map_err decode_error r.1)
            λ (consumed, maybe_frame). elim maybe_frame [
              | none ↦ (record c { frame_decoder = r.0 }, ok consumed)
              | some f ↦ handle (record c { frame_decoder = r.0 }) consumed f
            ])
        e

  pub command_frame-body :
      (c : Connection cfg) (name payload : Bytes)
      → command_frame cfg c (command_body name payload) ≡ named_command cfg c name payload
  unfolding command_frame
  command_frame-body c name payload =
      let body = command_body name payload in
      let n : slice {E = ConnError} body 1 (1 + length name) ≡ ok name =
        slice_at body (length name ∷ []) name payload _ _ refl refl refl in
      let p : slice {E = ConnError} body (1 + length name) (length body) ≡ ok payload =
        slice_at body (length name ∷ name) payload [] _ _ (simp append-nil) (omega arith)
          (omega (arith, length-append name payload)) in
      rw (le→ltb (length body) (1 + length name) (omega (arith, length-append name payload)), n, p)
        refl

  -- A frame that fits: what is done with it once it is read.
  pub frame_then :
      (c : Connection cfg) (body rest : Bytes) (is_command : Bool)
      → Between c
      → length body ≤ frame_cap
      → (d : FrameDecoder) × (d.state ≡ need_flags)
        × (feed cfg c ((header (if is_command then 4 else 0) (length body) ++ body) ++ rest)
            ≡ accept_frame cfg
                (record c { frame_decoder = d })
                (header_len (length body) + length body)
                (decoded false is_command body))
  unfolding feed feed_in feed_established
  frame_then c body rest true b fits =
      let (d, read, v, s) =
        Reads-append usize frame_cap c.frame_decoder (command_bytes body) rest _
          (decoded false true body) b.valid.decoder_ok
          (feed_whole usize frame_cap false true c.frame_decoder body b.valid.decoder_ok b.waits
            fits (omega (arith, b.cap_small)) (omega (arith, b.cap_small, b.word))) in
      (
        d,
        s,
        ap (λ (t : State). feed_in cfg t c (command_bytes body ++ rest)) b.is_established
            ∙ feed_frame_reads (accept_frame cfg) c (command_bytes body ++ rest) d _ _ read,
      )
  frame_then c body rest false b fits =
      let (d, read, v, s) =
        Reads-append usize frame_cap c.frame_decoder (message_frame_bytes body) rest _
          (decoded false false body) b.valid.decoder_ok
          (feed_whole usize frame_cap false false c.frame_decoder body b.valid.decoder_ok b.waits
            fits (omega (arith, b.cap_small)) (omega (arith, b.cap_small, b.word))) in
      (
        d,
        s,
        ap (λ (t : State). feed_in cfg t c (message_frame_bytes body ++ rest)) b.is_established
            ∙ feed_frame_reads (accept_frame cfg) c (message_frame_bytes body ++ rest) d _ _ read,
      )

  -- `SUBSCRIBE` and `CANCEL` commands, and the messages of ZMTP 3.0 that mean the same.
  subscribed_lem :
      (c : Connection cfg) (prefix : Bytes)
      → subscribed cfg c prefix
        ≡ ok (record c { sub_table = (subscribe vecs c.sub_table prefix).0 })
  unfolding subscribed
  subscribed_lem c prefix =
      rw
        (ignore-NoPanic {E = ConnError} (subscribe vecs c.sub_table prefix)
          (subscribe-NoPanic vecs c.sub_table prefix))
        refl

  accept_subscribe :
      (c : Connection cfg) (n : ℕ) (prefix : Bytes)
      → accept_frame cfg c n (decoded false true (command_body subscribe_name prefix))
        ≡ (record c { sub_table = (subscribe vecs c.sub_table prefix).0 }, ok n)
  unfolding accept_frame named_command equal
  accept_subscribe c n prefix =
      rw (command_frame-body c subscribe_name prefix, subscribed_lem c prefix) refl

  accept_subscribe_message :
      (c : Connection cfg) (n : ℕ) (prefix : Bytes)
      → accept_frame cfg c n (decoded false false (1 ∷ prefix))
        ≡ (record c { sub_table = (subscribe vecs c.sub_table prefix).0 }, ok n)
  unfolding accept_frame message_frame
  accept_subscribe_message c n prefix = rw (subscribed_lem c prefix) refl

  accept_cancel :
      (c : Connection cfg) (n : ℕ) (prefix : Bytes)
      → accept_frame cfg c n (decoded false true (command_body cancel_name prefix))
        ≡ (record c { sub_table = cancel vecs c.sub_table prefix }, ok n)
  unfolding accept_frame named_command cancelled equal
  accept_cancel c n prefix = rw (command_frame-body c cancel_name prefix) refl

  accept_cancel_message :
      (c : Connection cfg) (n : ℕ) (prefix : Bytes)
      → accept_frame cfg c n (decoded false false (0 ∷ prefix))
        ≡ (record c { sub_table = cancel vecs c.sub_table prefix }, ok n)
  unfolding accept_frame message_frame cancelled
  accept_cancel_message c n prefix = refl

  -- The answer to a frame of this many bytes that leaves this table: only the table and the decoder,
  -- which waits for the next frame, are new.
  abbrev pub Tabled : Connection cfg → SubTable vecs → ℕ → Fed cfg → Type 0
  Tabled c t n r =
      (d : FrameDecoder) × (d.state ≡ need_flags)
      × (r ≡ (record c { frame_decoder = d; sub_table = t }, ok n))

  -- On an established connection between two frames, with any input behind the frame: a SUBSCRIBE
  -- command and a message that begins with 1 both subscribe to what follows, and a CANCEL command
  -- and a message that begins with 0 both cancel it. The call uses exactly the frame, and changes
  -- the table and the decoder alone. The connection is valid, and the frame's body fits its decoder.
  pub feed_subscriptions :
      (c : Connection cfg) (prefix rest : Bytes)
      → Between c
      → 10 + length prefix ≤ frame_cap
      → let subscribing = command_body subscribe_name prefix in
        let cancelling = command_body cancel_name prefix in
        let frame_len = λ (n : ℕ). header_len n + n in
        Tabled c
          (subscribe vecs c.sub_table prefix).0
          (frame_len (length subscribing))
          (feed cfg c (command_bytes subscribing ++ rest))
        × Tabled c
            (subscribe vecs c.sub_table prefix).0
            (frame_len (length (1 ∷ prefix)))
            (feed cfg c (message_frame_bytes (1 ∷ prefix) ++ rest))
        × Tabled c
            (cancel vecs c.sub_table prefix)
            (frame_len (length cancelling))
            (feed cfg c (command_bytes cancelling ++ rest))
        × Tabled c
            (cancel vecs c.sub_table prefix)
            (frame_len (length (0 ∷ prefix)))
            (feed cfg c (message_frame_bytes (0 ∷ prefix) ++ rest))
  feed_subscriptions c prefix rest b fits =
      let (d₁, s₁, e₁) =
        frame_then c (command_body subscribe_name prefix) rest true b
          (omega (arith, length-append subscribe_name prefix)) in
      let (d₂, s₂, e₂) = frame_then c (1 ∷ prefix) rest false b (omega arith) in
      let (d₃, s₃, e₃) =
        frame_then c (command_body cancel_name prefix) rest true b
          (omega (arith, length-append cancel_name prefix)) in
      let (d₄, s₄, e₄) = frame_then c (0 ∷ prefix) rest false b (omega arith) in
      (
        (d₁, s₁, e₁ ∙ accept_subscribe _ _ prefix),
        (d₂, s₂, e₂ ∙ accept_subscribe_message _ _ prefix),
        (d₃, s₃, e₃ ∙ accept_cancel _ _ prefix),
        (d₄, s₄, e₄ ∙ accept_cancel_message _ _ prefix),
      )

  -- Once a valid established connection, between two frames and with room in its table, has read a
  -- SUBSCRIBE command, which fits its decoder, for a prefix that is short enough, it publishes every
  -- topic that the prefix begins: a buffer that has room for both frames holds them then.
  pub feed-publish :
      (c : Connection cfg) (prefix suffix rest payload out : Bytes)
      → Between c
      → 10 + length prefix ≤ frame_cap
      → length prefix ≤ cfg.max_len
      → len vecs c.sub_table < cfg.max_entries
      → message_len (prefix ++ suffix) payload ≤ length out
      → publish cfg
          (feed cfg c (command_bytes (command_body subscribe_name prefix) ++ rest)).0
          (prefix ++ suffix)
          payload
          out
        ≡ ok (
          message_len (prefix ++ suffix) payload,
          message_bytes (prefix ++ suffix) payload
              ++ drop (message_len (prefix ++ suffix) payload) out,
        )
  feed-publish c prefix suffix rest payload out b fits short room large =
      let topic = prefix ++ suffix in
      let body = command_body subscribe_name prefix in
      let (d, s, e) = (feed_subscriptions c prefix rest b fits).0 in
      let (t, f, q) = (subscribe_lem vecs c.sub_table prefix).2 short room in
      let stored : 0 < count prefix (prefixes vecs t) = rw q (
        ground (
          arith,
          count-append prefix (prefixes vecs c.sub_table) (prefix ∷ []),
          equal_refl prefix,
        )) in
      let found : matches vecs t topic ≡ true =
        (matches_iff vecs t topic).1 (prefix, suffix, stored, refl) in
      let next = record c { frame_decoder = d; sub_table = t } in
      let written = (publish_lem cfg next topic payload out).2 b.is_established found in
      ap (λ (r : Fed cfg). publish cfg r.0 topic payload out)
        (e
          ∙ ap
              (λ u. (
                record c { frame_decoder = d; sub_table = u },
                ok (header_len (length body) + length body),
              ))
              (ap (λ r. r.0) f))
      ∙ written
      ∙ rw (le→ltb (length out) (message_len topic payload) large) refl
