-- ===== src/Connection/Publish/Output.antt =====
-- What `publish` writes, and what a subscriber's decoder reads of it.
use mzmq_rs.Prelude.{
  ℕ, ◌+◌, ◌-◌, ◌^◌, ◌≤◌, ◌<◌, ◌≡◌, ◌≢◌, refl, sym, ap, ap₂, ◌∙◌, inl, inr, Bool, true, false, [],
  ◌++◌, append_assoc, none, some, ltb, if◌then◌else◌, Bool-cases, length, length-append, take,
  take-append, drop, drop-append, replicate, Bytes, copy_at_in, copy_at_behind, slice, slice_at, ok,
  err, arith,
}
use mzmq_rs.Auth.{Config}
use mzmq_rs.Frame.{max_frame_header, encode_message_frame}
use mzmq_rs.Frame.Encode.{header_len, header, length-header, encode_message_frame_lem}
use mzmq_rs.Frame.Decoder.{FrameDecoder, need_flags}
use mzmq_rs.Frame.Decoder
use mzmq_rs.Frame.Decoder.Inv
use mzmq_rs.Frame.Decoder.RoundTrip.{decoded, Reads-append, feed_whole}
use mzmq_rs.SubTable.{matches}
use mzmq_rs.Connection.{
  State, greeting, ready, plain_hello, plain_ready, failed, established, state_eq, ConnError,
  wrong_state, buffer_too_small, Connection,
}
use mzmq_rs.Connection.Publish.{PublishHeaders, publish_headers, write_parts, publish}

-- A message of two frames: the topic with MORE set, then the payload.
abbrev pub message_bytes : Bytes → Bytes → Bytes
message_bytes topic payload =
    header 1 (length topic) ++ (topic ++ (header 0 (length payload) ++ payload))

abbrev pub message_len : Bytes → Bytes → ℕ
message_len topic payload =
    header_len (length topic) + length topic + header_len (length payload) + length payload

pub length-message_bytes :
    (topic payload : Bytes) → length (message_bytes topic payload) ≡ message_len topic payload
length-message_bytes topic payload = omega (
  arith,
  length-append (header 1 (length topic)) (topic ++ (header 0 (length payload) ++ payload)),
  length-append topic (header 0 (length payload) ++ payload),
  length-append (header 0 (length payload)) payload,
  length-header 1 (length topic),
  length-header 0 (length payload),
)

not_established : (s : State) → s ≢ established → state_eq s established ≡ false
not_established greeting h = refl
not_established ready h = refl
not_established plain_hello h = refl
not_established plain_ready h = refl
not_established established h = absurd (h refl)
not_established failed h = refl

-- A header in the nine bytes of its buffer.
abbrev pub padded : ℕ → ℕ → Bytes
padded flags n = header flags n ++ drop (header_len n) (replicate max_frame_header 0)

header_padded :
    (n : ℕ) (more : Bool) (flags : ℕ)
    → (if more then 1 else 0) ≡ flags
    → encode_message_frame (replicate max_frame_header 0) n more ≡ ok (header_len n, padded flags n)
header_padded n true flags e =
    encode_message_frame_lem (replicate max_frame_header 0) n true ∙ rw (← e) (ground arith)
header_padded n false flags e =
    encode_message_frame_lem (replicate max_frame_header 0) n false ∙ rw (← e) (ground arith)

pub slice-padded :
    (flags n : ℕ) → slice {E = ConnError} (padded flags n) 0 (header_len n) ≡ ok (header flags n)
slice-padded flags n =
    slice_at _ [] (header flags n) (drop (header_len n) (replicate max_frame_header 0)) 0 _ refl
      refl (omega (arith, length-header flags n))

module _ (cfg : Config) where
  open cfg use {vecs}

  abbrev pub headers_of : Bytes → Bytes → PublishHeaders
  headers_of topic payload = (
    padded 1 (length topic),
    header_len (length topic),
    padded 0 (length payload),
    header_len (length payload),
  )

  pub publish_headers_match :
      (c : Connection cfg) (topic payload : Bytes)
      → c.state ≡ established
      → matches vecs c.sub_table topic ≡ true
      → publish_headers cfg c topic payload ≡ ok (some (headers_of topic payload))
  unfolding publish_headers
  publish_headers_match c topic payload s m =
      rw
        (
          s,
          m,
          header_padded (length topic) true 1 refl,
          header_padded (length payload) false 0 refl,
        )
        refl

  publish_headers_wrong :
      (c : Connection cfg) (topic payload : Bytes)
      → c.state ≢ established
      → publish_headers cfg c topic payload ≡ err wrong_state
  unfolding publish_headers
  publish_headers_wrong c topic payload other = rw (not_established c.state other) refl

  publish_headers_silent :
      (c : Connection cfg) (topic payload : Bytes)
      → c.state ≡ established
      → matches vecs c.sub_table topic ≡ false
      → publish_headers cfg c topic payload ≡ ok none
  unfolding publish_headers
  publish_headers_silent c topic payload s m = rw (s, m) refl

  write_parts_lem :
      (topic payload out : Bytes)
      → message_len topic payload ≤ length out
      → write_parts cfg topic payload out (headers_of topic payload)
        ≡ ok (
          message_len topic payload,
          message_bytes topic payload ++ drop (message_len topic payload) out,
        )
  unfolding write_parts
  write_parts_lem topic payload out room =
      let m = header_len (length topic) in
      let n = header_len (length payload) in
      let th = header 1 (length topic) in
      let ph = header 0 (length payload) in
      let a = length-header 1 (length topic) in
      let b = length-header 0 (length payload) in
      let size : 0 + length (((th ++ topic) ++ ph) ++ payload) ≡ message_len topic payload =
        omega (arith, ap length same, length-message_bytes topic payload) in
      rw
        (
          slice-padded 1 (length topic),
          copy_at_in {E = ConnError} out 0 th (omega arith),
          copy_at_behind {E = ConnError} out 0 th topic (0 + m) (omega arith) (omega arith),
          slice-padded 0 (length payload),
          copy_at_behind {E = ConnError} out 0 (th ++ topic) ph (0 + m + length topic)
              (omega (arith, length-append th topic)) (omega (arith, length-append th topic)),
          copy_at_behind {E = ConnError} out 0 ((th ++ topic) ++ ph) payload
              (0 + m + length topic + n)
              (omega (arith, length-append th topic, length-append (th ++ topic) ph))
              (omega (arith, length-append th topic, length-append (th ++ topic) ph)),
        )
        (ap₂
            (λ (front : Bytes) (k : ℕ).
              ok (0 + m + length topic + n + length payload, front ++ drop k out))
            same size
          ∙ ap
              (λ (k : ℕ).
                ok (k, message_bytes topic payload ++ drop (message_len topic payload) out))
              (omega arith))
    where
      same :
          ((header 1 (length topic) ++ topic) ++ header 0 (length payload)) ++ payload
          ≡ message_bytes topic payload
      same = simp append_assoc

  -- `publish` on every input. Unless the connection is established it fails. Without a subscription
  -- whose prefix begins the topic it writes nothing. With a buffer that is too small for both frames it
  -- fails. Else the frames of topic and payload stand at the front of the buffer, the rest of the buffer
  -- is as before, and the count is the length of both frames.
  pub publish_lem :
      (c : Connection cfg) (topic payload out : Bytes)
      → (c.state ≢ established → publish cfg c topic payload out ≡ err wrong_state)
        × (c.state ≡ established
            → matches vecs c.sub_table topic ≡ false
            → publish cfg c topic payload out ≡ ok (0, out))
        × (c.state ≡ established
            → matches vecs c.sub_table topic ≡ true
            → publish cfg c topic payload out ≡ (
                if ltb (length out) (message_len topic payload)
                then err buffer_too_small
                else ok (
                  message_len topic payload,
                  message_bytes topic payload ++ drop (message_len topic payload) out,
                )))
  unfolding publish
  publish_lem c topic payload out = (
    λ other. rw (publish_headers_wrong c topic payload other) refl,
    λ s m. rw (publish_headers_silent c topic payload s m) refl,
    λ s m.
        rw (publish_headers_match c topic payload s m)
          (ground (arith, write_parts_lem topic payload out)),
  )

  -- What a call that succeeds on a topic with a subscriber has written.
  publish-ok :
      (c : Connection cfg) (topic payload out out' : Bytes) (n : ℕ)
      → c.state ≡ established
      → matches vecs c.sub_table topic ≡ true
      → publish cfg c topic payload out ≡ ok (n, out')
      → (n ≡ message_len topic payload) × (take n out' ≡ message_bytes topic payload)
  publish-ok c topic payload out out' n s m e =
      let exact = sym ((publish_lem c topic payload out).2 s m) ∙ e in
      elim (Bool-cases (ltb (length out) (message_len topic payload))) [
        | inl short ↦ absurd (cc (rw short at exact))
        | inr room ↦
            let f = rw room at exact in
            let size : n ≡ message_len topic payload = ground arith in
            let written : out'
                ≡ message_bytes topic payload ++ drop (message_len topic payload) out =
              ground arith in
            (
              size,
              rw written (
                  take-append n (message_bytes topic payload) _
                    (size ∙ sym (length-message_bytes topic payload))),
            )
      ]

  -- What an established connection publishes on a topic with a subscriber comes back from a decoder
  -- that waits for a frame, whatever follows it: one call reads the topic, with MORE set, and a call
  -- on the rest reads the payload, without; together they use exactly the bytes that `publish`
  -- counts, and the decoder waits for the next frame. The topic and the payload have to fit the
  -- decoder's capacity, which is below the size of an address space of at most 64 bits.
  pub publish-decoded :
      (usize cap : ℕ) (d : FrameDecoder) (c : Connection cfg) (topic payload out out' rest : Bytes)
      (n : ℕ)
      → Inv.IsValid cap d
      → d.state ≡ need_flags
      → length topic ≤ cap
      → length payload ≤ cap
      → cap < usize
      → usize ≤ 2 ^ 64
      → c.state ≡ established
      → matches vecs c.sub_table topic ≡ true
      → publish cfg c topic payload out ≡ ok (n, out')
      → let input = take n out' ++ rest in
        let k = header_len (length topic) + length topic in
        (d₁ : FrameDecoder) × (d₂ : FrameDecoder) × (Decoder.feed usize cap d input
          ≡ (d₁, ok (k, some (decoded true false topic))))
        × (Decoder.feed usize cap d₁ (drop k input)
            ≡ (d₂, ok (n - k, some (decoded false false payload))))
        × (d₂.state ≡ need_flags)
  publish-decoded usize cap d c topic payload out out' rest n v s t p small word established' m e =
      let (size, written) = publish-ok c topic payload out out' n established' m e in
      let first_frame = header 1 (length topic) ++ topic in
      let second_frame = header 0 (length payload) ++ payload in
      let k = header_len (length topic) + length topic in
      let input : take n out' ++ rest ≡ first_frame ++ (second_frame ++ rest) =
        rw written (simp append_assoc) in
      let left : n - k ≡ header_len (length payload) + length payload = omega arith in
      let (d₁, read₁, v₁, s₁) =
        Reads-append usize cap d first_frame (second_frame ++ rest) k (decoded true false topic) v
          (feed_whole usize cap true false d topic v s t (omega arith) (omega arith)) in
      let (d₂, read₂, v₂, s₂) =
        Reads-append usize cap d₁ second_frame rest _ (decoded false false payload) v₁
          (feed_whole usize cap false false d₁ payload v₁ s₁ p (omega arith) (omega arith)) in
      (
        d₁,
        d₂,
        ap (λ (i : Bytes). Decoder.feed usize cap d i) input ∙ read₁,
        ap (λ (i : Bytes). Decoder.feed usize cap d₁ i)
              (ap (drop k) input
                ∙ drop-append k first_frame (second_frame ++ rest) (
                    omega (
                      arith,
                      length-append (header 1 (length topic)) topic,
                      length-header 1 (length topic),
                    )))
            ∙ read₂
            ∙ ap (λ (j : ℕ). (d₂, ok (j, some (decoded false false payload)))) (sym left),
        s₂,
      )
