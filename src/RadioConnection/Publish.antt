-- ===== src/RadioConnection/Publish.antt =====
-- src/radio_connection.rs: `publish_headers` and `publish`. Neither changes the connection.
pub mod Output
use mzmq_rs.Prelude.{
  ℕ, ◌+◌, true, false, not, Option, none, some, ltb, if◌then◌else◌, length, replicate, Bytes, slice,
  copy_at, Result, ok, err, ◌>>=◌, map_err,
}
use mzmq_rs.Auth.{Config}
use mzmq_rs.Frame.{max_frame_header, encode_message_frame}
use mzmq_rs.GroupTable.{matches}
use mzmq_rs.RadioConnection.{
  established, state_eq, ConnError, wrong_state, buffer_too_small, frame_error, RadioConnection,
}

-- Group header and its length, body header and its length.
abbrev pub PublishHeaders : Type 0
PublishHeaders = Bytes × ℕ × Bytes × ℕ

module _ (cfg : Config) where
  open cfg use {vecs}

  pub publish_headers :
      RadioConnection cfg → Bytes → Bytes → Result ConnError (Option PublishHeaders)
  publish_headers c group body =
      if not (state_eq c.state established)
      then err wrong_state
      else if not (matches vecs c.group_table group)
      then ok none
      else do
        let empty = replicate max_frame_header 0
        (gh_n, gh) ← map_err frame_error (encode_message_frame empty (length group) true)
        (bh_n, bh) ← map_err frame_error (encode_message_frame empty (length body) false)
        ok (some (gh, gh_n, bh, bh_n))

  -- The four copies of `publish`, one behind the other.
  pub write_parts : Bytes → Bytes → Bytes → PublishHeaders → Result ConnError (ℕ × Bytes)
  write_parts group body out (gh, gh_n, bh, bh_n) = do
    group_header ← slice gh 0 gh_n
    out₁ ← copy_at out 0 group_header
    let written₁ = 0 + gh_n
    out₂ ← copy_at out₁ written₁ group
    let written₂ = written₁ + length group
    body_header ← slice bh 0 bh_n
    out₃ ← copy_at out₂ written₂ body_header
    let written₃ = written₂ + bh_n
    out₄ ← copy_at out₃ written₃ body
    ok (written₃ + length body, out₄)

  -- With no peer in the group, nothing is written.
  pub publish : RadioConnection cfg → Bytes → Bytes → Bytes → Result ConnError (ℕ × Bytes)
  unfolding write_parts
  publish c group body out = do
    headers ← publish_headers c group body
    elim headers [
      | none ↦ ok (0, out)
      | some (gh, gh_n, bh, bh_n) ↦
          let total = gh_n + length group + bh_n + length body in
          if ltb (length out) total
          then err buffer_too_small
          else write_parts group body out (gh, gh_n, bh, bh_n)
    ]
