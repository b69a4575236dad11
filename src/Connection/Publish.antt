-- ===== src/Connection/Publish.antt =====
-- src/connection.rs: `publish_headers` and `publish`. Neither changes the connection.
pub mod Output
use mzmq_rs.Prelude.{
  ℕ, ◌+◌, true, false, not, Option, none, some, ltb, if◌then◌else◌, length, replicate, Bytes, slice,
  copy_at, Result, ok, err, ◌>>=◌, map_err,
}
use mzmq_rs.Auth.{Config}
use mzmq_rs.Frame.{max_frame_header, encode_message_frame}
use mzmq_rs.SubTable.{matches}
use mzmq_rs.Connection.{
  established, state_eq, ConnError, wrong_state, buffer_too_small, frame_error, Connection,
}

-- Topic header and its length, payload header and its length.
abbrev pub PublishHeaders : Type 0
PublishHeaders = Bytes × ℕ × Bytes × ℕ

module _ (cfg : Config) where
  open cfg use {vecs}

  pub publish_headers : Connection cfg → Bytes → Bytes → Result ConnError (Option PublishHeaders)
  publish_headers c topic payload =
      if not (state_eq c.state established)
      then err wrong_state
      else if not (matches vecs c.sub_table topic)
      then ok none
      else do
        let empty = replicate max_frame_header 0
        (th_n, th) ← map_err frame_error (encode_message_frame empty (length topic) true)
        (ph_n, ph) ← map_err frame_error (encode_message_frame empty (length payload) false)
        ok (some (th, th_n, ph, ph_n))

  -- The four copies of `publish`, one behind the other.
  pub write_parts : Bytes → Bytes → Bytes → PublishHeaders → Result ConnError (ℕ × Bytes)
  write_parts topic payload out (th, th_n, ph, ph_n) = do
    topic_header ← slice th 0 th_n
    out₁ ← copy_at out 0 topic_header
    let written₁ = 0 + th_n
    out₂ ← copy_at out₁ written₁ topic
    let written₂ = written₁ + length topic
    payload_header ← slice ph 0 ph_n
    out₃ ← copy_at out₂ written₂ payload_header
    let written₃ = written₂ + ph_n
    out₄ ← copy_at out₃ written₃ payload
    ok (written₃ + length payload, out₄)

  -- With no subscription that matches, nothing is written.
  pub publish : Connection cfg → Bytes → Bytes → Bytes → Result ConnError (ℕ × Bytes)
  unfolding write_parts
  publish c topic payload out = do
    headers ← publish_headers c topic payload
    elim headers [
      | none ↦ ok (0, out)
      | some (th, th_n, ph, ph_n) ↦
          let total = th_n + length topic + ph_n + length payload in
          if ltb (length out) total
          then err buffer_too_small
          else write_parts topic payload out (th, th_n, ph, ph_n)
    ]
