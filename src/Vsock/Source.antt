-- ===== src/Vsock/Source.antt =====
-- vsock/stream.go: payloads that are streams, fresh message IDs, and `SendStream`.
use poprocks.Prelude.{ℕ, ◌==◌, ◌≡◌, ◌≢◌, Option, none, some, List, [], ◌∷◌, arith, if◌then◌else◌}
use poprocks.Vsock.Errors.{
  Result, ok, err, or_err, reader_required, payload_required, not_a_stream_source,
}
use poprocks.Vsock.Link.{Link}
use poprocks.Vsock.Ack.{Acks}
use poprocks.Vsock.Send.{Reader, MessengerConfig, send_stream_with_id}

-- What a `StreamSource` method returns: a reader, which may be nil, and a length, or an error.
abbrev pub Sourced : Type 0
Sourced = Result (Option Reader × ℕ)

-- A payload of type `any`: nil, a `StreamSource` with what its method returns, or anything else.
pub data Payload : Type 0 where
  nil_payload not_a_source : Payload
  source : Sourced → Payload

-- `(ReaderPayload).StreamSource`
unfoldable pub reader_payload_source : Option Reader → ℕ → Sourced
reader_payload_source none length = err reader_required
reader_payload_source (some r) length = ok (some r, length)

-- `StreamSourceFromPayload`; the closer that it returns is always nil.
unfoldable pub stream_source_from_payload : Payload → Result (Reader × ℕ)
stream_source_from_payload nil_payload = err payload_required
stream_source_from_payload not_a_source = err not_a_stream_source
stream_source_from_payload (source (err e)) = err e
stream_source_from_payload (source (ok (none, length))) = err reader_required
stream_source_from_payload (source (ok (some r, length))) = ok (r, length)

-- `newMessageID`, by the numbers that are drawn; `none` if they run out before one is not zero.
unfoldable pub new_message_id : List (Result ℕ) → Option (Result ℕ)
new_message_id [] = none
new_message_id (err e ∷ draws) = some (err e)
new_message_id (ok id ∷ draws) = if id == 0 then new_message_id draws else some (ok id)

pub new_message_id_nonzero :
    (draws : List (Result ℕ)) (id : ℕ) → new_message_id draws ≡ some (ok id) → id ≢ 0
unfolding new_message_id
new_message_id_nonzero [] id e = ground arith
new_message_id_nonzero (err x ∷ draws) id e = ground arith
new_message_id_nonzero (ok n ∷ draws) id e = ground (arith, new_message_id_nonzero draws id)

-- `SendStream`: the ID or the error, and what the send changed.
unfoldable pub send_stream :
    MessengerConfig
    → Link
    → Acks
    → List (Result ℕ)
    → ℕ
    → ℕ
    → Option Reader
    → Option (Result ℕ) × Link × Acks × Option Reader
unfolding new_message_id send_stream_with_id
send_stream c l a draws msg_type payload_len r = elim (new_message_id draws) [
  | none ↦ (none, l, a, r)
  | some (err e) ↦ (some (err e), l, a, r)
  | some (ok id) ↦
      let (e, l', a', r') = send_stream_with_id c l a id msg_type payload_len r in
      (some (or_err e id), l', a', r')
]
