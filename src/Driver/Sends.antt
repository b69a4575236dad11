-- ===== src/Driver/Sends.antt =====
-- What `Driver::publish` sends.
use mzmq_rs.Prelude.{
  ℕ, ◌≡◌, refl, true, List, [], ◌∷◌, length, Bytes, Result, ok, err, panic, next, map_err, ◌>>=◌,
}
use mzmq_rs.Auth.{Config}
use mzmq_rs.Frame.Encode.{header}
use mzmq_rs.SubTable.{matches}
use mzmq_rs.Connection.{established, ConnError, io_error}
use mzmq_rs.Connection.Publish.Output.{message_len, slice-padded, publish_headers_match}
use mzmq_rs.Driver.{Transport, Driver, Step, send, publish}

-- Writes in order, up to the first that does not succeed.
abbrev pub send_all :
    (transport : Transport) → transport.Socket → List Bytes → transport.Socket × Result ℕ (Unit {0})
send_all transport s [] = (s, ok tt)
send_all transport s (part ∷ parts) =
    next (transport.write_all s part) λ s' _. send_all transport s' parts

-- The four writes of a message.
abbrev pub message_parts : Bytes → Bytes → List Bytes
message_parts topic payload =
    header 1 (length topic) ∷ topic ∷ header 0 (length payload) ∷ payload ∷ []

module _ (cfg : Config) (transport : Transport) where
  open cfg use {vecs}

  -- `n` if all writes succeed.
  abbrev pub answer : {A : Type 0} → A → Result ℕ (Unit {0}) → Result ConnError A
  answer n done = map_err io_error done >>= λ _. ok n

  send_then :
      {A : Type 0} (d : Driver cfg transport) (part : Bytes) (parts : List Bytes) (n : A)
      → (f : Driver cfg transport → Unit {0} → Step cfg transport A)
      → ((s : transport.Socket)
          → f (record d { socket = s }) tt ≡ (
            record d { socket = (send_all transport s parts).0 },
            answer n (send_all transport s parts).1,
          ))
      → next (send cfg transport d part) f ≡ (
        record d { socket = (send_all transport d.socket (part ∷ parts)).0 },
        answer n (send_all transport d.socket (part ∷ parts)).1,
      )
  unfolding send
  send_then {A} d part parts n f h = go (transport.write_all d.socket part)
    where
      go :
          (r : transport.Socket × Result ℕ (Unit {0}))
          → (let all = next r λ s _. send_all transport s parts in
              next (record d { socket = r.0 }, map_err io_error r.1) f
              ≡ (record d { socket = all.0 }, answer n all.1))
      go (s, ok a) = h s
      go (s, err kind) = refl
      go (s, panic) = refl

  -- On an established connection with a subscription that begins the topic, `publish` writes the
  -- topic's header, the topic, the payload's header and the payload, in this order, up to the first
  -- write that fails, and changes nothing but the transport. It returns the length of both frames, or
  -- the failure; a panic of a write stops it too.
  pub publish_sends :
      (d : Driver cfg transport) (topic payload : Bytes)
      → d.conn.state ≡ established
      → matches vecs d.conn.sub_table topic ≡ true
      → publish cfg transport d topic payload ≡ (
        record d { socket = (send_all transport d.socket (message_parts topic payload)).0 },
        answer
            (message_len topic payload)
            (send_all transport d.socket (message_parts topic payload)).1,
      )
  unfolding publish
  publish_sends d topic payload s m =
      let n = message_len topic payload in
      let th = header 1 (length topic) in
      let ph = header 0 (length payload) in
      rw
        (
          publish_headers_match cfg d.conn topic payload s m,
          slice-padded 1 (length topic),
          slice-padded 0 (length payload),
        )
        (send_then d th (topic ∷ ph ∷ payload ∷ []) n _ λ s₁.
          send_then (record d { socket = s₁ }) topic (ph ∷ payload ∷ []) n _
            λ s₂.
              send_then (record d { socket = s₂ }) ph (payload ∷ []) n _
                λ s₃. send_then (record d { socket = s₃ }) payload [] n _ λ s₄. refl)
