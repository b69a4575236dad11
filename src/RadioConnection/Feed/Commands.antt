-- ===== src/RadioConnection/Feed/Commands.antt =====
-- What a whole frame does to an established connection.
use mzmq_rs.Prelude.{
  ℕ, ◌+◌, ◌^◌, ◌≤◌, ◌<◌, ◌≡◌, refl, ap, ◌∙◌, Bool, true, false, [], ◌∷◌, ◌++◌, append-nil, none,
  some, le→ltb, if◌then◌else◌, length, length-append, drop, Bytes, slice, slice_at, equal, ok,
  map_err, try, ignore-NoPanic, arith,
}
use mzmq_rs.Auth.{Config}
use mzmq_rs.Frame.Encode.{header, header_len}
use mzmq_rs.Frame.Decoder.{FrameDecoder, DecodedFrame, need_flags}
use mzmq_rs.Frame.Decoder
use mzmq_rs.Frame.Decoder.RoundTrip.{decoded, Reads-append, feed_whole}
use mzmq_rs.GroupTable.{GroupTable, join, leave, len}
use mzmq_rs.GroupTable.Members.{join-NoPanic, join-matches}
use mzmq_rs.RadioConnection.{
  State, established, ConnError, decode_error, RadioConnection, join_name, leave_name,
}
use mzmq_rs.RadioConnection.Feed.{
  Fed, feed_frame, joined, left, named_command, command_frame, accept_frame, feed_established,
  feed_in, feed,
}
use mzmq_rs.RadioConnection.Inv.{IsValid}
use mzmq_rs.RadioConnection.Publish.Output.{radio_publish_lem, message_len, message_bytes}
use mzmq_rs.RadioConnection.Publish.{publish}

-- The body of a command, `name-size name data`, and the frame around a body.
abbrev pub command_body : Bytes → Bytes → Bytes
command_body name payload = (length name ∷ name) ++ payload

abbrev pub command_bytes : Bytes → Bytes
command_bytes body = header 4 (length body) ++ body

abbrev pub message_frame_bytes : Bytes → Bytes
message_frame_bytes body = header 0 (length body) ++ body

module _ (cfg : Config) where
  open cfg use {usize, frame_cap, vecs}

  -- An established connection between two frames, and an address space for its buffer.
  pub record Between (c : RadioConnection cfg) : Type 0 where
    pub valid : IsValid cfg c
    pub is_established : c.state ≡ established
    pub waits : c.frame_decoder.state ≡ need_flags
    pub cap_small : frame_cap < usize
    pub word : usize ≤ 2 ^ 64

  pub feed_frame_reads :
      (handle : RadioConnection cfg → ℕ → DecodedFrame → Fed cfg)
      → (c : RadioConnection cfg) (input : Bytes) (d : FrameDecoder) (n : ℕ) (frame : DecodedFrame)
      → Decoder.feed usize frame_cap c.frame_decoder input ≡ (d, ok (n, some frame))
      → feed_frame cfg handle c input ≡ handle (record c { frame_decoder = d }) n frame
  unfolding feed_frame
  feed_frame_reads handle c input d n frame e =
      ap
        (λ (r : Decoder.Fed).
          try (record c { frame_decoder = r.0 }) (map_err decode_error r.1)
            λ (consumed, maybe_frame). elim maybe_frame [
              | none ↦ (record c { frame_decoder = r.0 }, ok consumed)
              | some f ↦ handle (record c { frame_decoder = r.0 }) consumed f
            ])
        e

  pub command_frame-body :
      (c : RadioConnection cfg) (name payload : Bytes)
      → command_frame cfg c (command_body name payload) ≡ named_command cfg c name payload
  unfolding command_frame
  command_frame-body c name payload =
      let body = command_body name payload in
      let n : slice {E = ConnError} body 1 (1 + length name) ≡ ok name =
        slice_at body (length name ∷ []) name payload _ _ refl refl refl in
      let p : slice {E = ConnError} body (1 + length name) (length body) ≡ ok payload =
        slice_at body (length name ∷ name) payload [] _ _ (simp append-nil) (omega arith)
          (omega (arith, length-append name payload)) in
      rw (le→ltb (length body) (1 + length name) (omega (arith, length-append name payload)), n, p)
        refl

  -- A frame that fits: what is done with it once it is read.
  pub frame_then :
      (c : RadioConnection cfg) (body rest : Bytes) (is_command : Bool)
      → Between c
      → length body ≤ frame_cap
      → (d : FrameDecoder) × (d.state ≡ need_flags)
        × (feed cfg c ((header (if is_command then 4 else 0) (length body) ++ body) ++ rest)
            ≡ accept_frame cfg
                (record c { frame_decoder = d })
                (header_len (length body) + length body)
                (decoded false is_command body))
  unfolding feed feed_in feed_established
  frame_then c body rest true b fits =
      let (d, read, v, s) =
        Reads-append usize frame_cap c.frame_decoder (command_bytes body) rest _
          (decoded false true body) b.valid.decoder_ok
          (feed_whole usize frame_cap false true c.frame_decoder body b.valid.decoder_ok b.waits
            fits (omega (arith, b.cap_small)) (omega (arith, b.cap_small, b.word))) in
      (
        d,
        s,
        ap (λ (t : State). feed_in cfg t c (command_bytes body ++ rest)) b.is_established
            ∙ feed_frame_reads (accept_frame cfg) c (command_bytes body ++ rest) d _ _ read,
      )
  frame_then c body rest false b fits =
      let (d, read, v, s) =
        Reads-append usize frame_cap c.frame_decoder (message_frame_bytes body) rest _
          (decoded false false body) b.valid.decoder_ok
          (feed_whole usize frame_cap false false c.frame_decoder body b.valid.decoder_ok b.waits
            fits (omega (arith, b.cap_small)) (omega (arith, b.cap_small, b.word))) in
      (
        d,
        s,
        ap (λ (t : State). feed_in cfg t c (message_frame_bytes body ++ rest)) b.is_established
            ∙ feed_frame_reads (accept_frame cfg) c (message_frame_bytes body ++ rest) d _ _ read,
      )

  -- `JOIN` and `LEAVE` commands.
  joined_lem :
      (c : RadioConnection cfg) (group : Bytes)
      → joined cfg c group ≡ ok (record c { group_table = (join vecs c.group_table group).0 })
  unfolding joined
  joined_lem c group =
      rw
        (ignore-NoPanic {E = ConnError} (join vecs c.group_table group)
          (join-NoPanic vecs c.group_table group))
        refl

  accept_join :
      (c : RadioConnection cfg) (n : ℕ) (group : Bytes)
      → accept_frame cfg c n (decoded false true (command_body join_name group))
        ≡ (record c { group_table = (join vecs c.group_table group).0 }, ok n)
  unfolding accept_frame named_command equal
  accept_join c n group = rw (command_frame-body c join_name group, joined_lem c group) refl

  accept_leave :
      (c : RadioConnection cfg) (n : ℕ) (group : Bytes)
      → accept_frame cfg c n (decoded false true (command_body leave_name group))
        ≡ (record c { group_table = leave vecs c.group_table group }, ok n)
  unfolding accept_frame named_command left equal
  accept_leave c n group = rw (command_frame-body c leave_name group) refl

  -- The answer to a frame of this many bytes that leaves this table: only the table and the decoder,
  -- which waits for the next frame, are new.
  abbrev pub Tabled : RadioConnection cfg → GroupTable vecs → ℕ → Fed cfg → Type 0
  Tabled c t n r =
      (d : FrameDecoder) × (d.state ≡ need_flags)
      × (r ≡ (record c { frame_decoder = d; group_table = t }, ok n))

  -- On an established connection between two frames, with any input behind the frame, a JOIN command
  -- joins the group that follows its name, and a LEAVE command leaves it. The call uses exactly the
  -- frame, and changes the table and the decoder alone. The connection is valid, and the frame's
  -- body fits its decoder.
  pub feed_memberships :
      (c : RadioConnection cfg) (group rest : Bytes)
      → Between c
      → 6 + length group ≤ frame_cap
      → let joining = command_body join_name group in
        let leaving = command_body leave_name group in
        let frame_len = λ (n : ℕ). header_len n + n in
        Tabled c
          (join vecs c.group_table group).0
          (frame_len (length joining))
          (feed cfg c (command_bytes joining ++ rest))
        × Tabled c
            (leave vecs c.group_table group)
            (frame_len (length leaving))
            (feed cfg c (command_bytes leaving ++ rest))
  feed_memberships c group rest b fits =
      let (d₁, s₁, e₁) =
        frame_then c (command_body join_name group) rest true b
          (omega (arith, length-append join_name group)) in
      let (d₂, s₂, e₂) =
        frame_then c (command_body leave_name group) rest true b
          (omega (arith, length-append leave_name group)) in
      ((d₁, s₁, e₁ ∙ accept_join _ _ group), (d₂, s₂, e₂ ∙ accept_leave _ _ group))

  -- Once a valid established connection, between two frames and with room in its table, has read a
  -- JOIN command, which fits its decoder, for a group that is short enough, joined before or not, it
  -- publishes to that group: a buffer that has room for both frames holds them then.
  pub radio_feed-publish :
      (c : RadioConnection cfg) (group rest payload out : Bytes)
      → Between c
      → 6 + length group ≤ frame_cap
      → length group ≤ cfg.max_len
      → len vecs c.group_table < cfg.max_entries
      → message_len group payload ≤ length out
      → publish cfg
          (feed cfg c (command_bytes (command_body join_name group) ++ rest)).0
          group
          payload
          out
        ≡ ok (
          message_len group payload,
          message_bytes group payload ++ drop (message_len group payload) out,
        )
  radio_feed-publish c group rest payload out b fits short room large =
      let body = command_body join_name group in
      let (d, s, e) = (feed_memberships c group rest b fits).0 in
      let t = (join vecs c.group_table group).0 in
      let next = record c { frame_decoder = d; group_table = t } in
      let written =
        (radio_publish_lem cfg next group payload out).2 b.is_established
          (join-matches vecs c.group_table group short room) in
      ap (λ (r : Fed cfg). publish cfg r.0 group payload out) e
      ∙ written
      ∙ rw (le→ltb (length out) (message_len group payload) large) refl
