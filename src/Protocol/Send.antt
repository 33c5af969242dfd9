-- ===== src/Protocol/Send.antt =====
-- `Send` of vsock/protocol/m.go: a value through its codec and the messenger.
use poprocks.Prelude.{ℕ, Option, none, some, List, if◌then◌else◌}
use poprocks.Vsock.Errors.{Error, Result, ok, err}
use poprocks.Vsock.Send.{MessengerConfig}
use poprocks.Vsock.Source.{stream_source_from_payload, send_stream}
use poprocks.Vsock.Messenger.Calls.{Outbox, post}
use poprocks.Protocol.Codec.{Codec, Formats, generate_id, to_message}

-- The error of a send, `none` if the random numbers run out, and what was sent.
abbrev pub Sent : Type 0
Sent = Option (Option Error) × Outbox

-- The error of Go's pair.
abbrev pub error_of {ℓ} : {A : Type ℓ} → Result A → Option Error
error_of (ok a) = none
error_of (err e) = some e

module _ {ℓ} {T : Type ℓ} (formats : Formats T) (codec : Codec) (config : MessengerConfig) where
  -- The stream codec's half.
  unfoldable pub send_payload : List (Result ℕ) → T → Outbox → Sent
  unfolding send_stream stream_source_from_payload
  send_payload draws v w = elim (stream_source_from_payload (formats.as_payload v)) [
    | err e ↦ (some (some e), w)
    | ok (r, payload_len) ↦
        let (id, l, a, _) =
          send_stream config w.link w.acks draws codec.type_id payload_len (some r) in
        let w' : Outbox = record { link = l; acks = a } in
        elim id [ none ↦ (none, w') | some x ↦ (some (error_of x), w') ]
  ]

  -- The other half, which makes a message of the value.
  unfoldable pub send_encoded : List (Result ℕ) → T → Outbox → Sent
  unfolding generate_id to_message
  send_encoded draws v w = elim (generate_id draws) [
    | none ↦ (none, w)
    | some drawn ↦ elim (to_message formats codec drawn v) [
      | err e ↦ (some (some e), w)
      | ok m ↦ let (e, w') = post config m w in (some e, w')
    ]
  ]

  -- `(*M[T]).Send`
  unfoldable pub send : List (Result ℕ) → T → Outbox → Sent
  unfolding send_payload send_encoded
  send draws v w = if codec.stream then send_payload draws v w else send_encoded draws v w
