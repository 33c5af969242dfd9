-- ===== src/Protocol/Ask.antt =====
-- `Request` of vsock/protocol/r.go: a typed request over the messenger's `Request` and
-- `RequestStream`.
pub mod Laws
use poprocks.Prelude.{ℕ, Option, none, some, List, [], if◌then◌else◌}
use poprocks.Vsock.Errors.{Result, ok, err}
use poprocks.Vsock.Io.{bytes_reader}
use poprocks.Vsock.Message.{Message}
use poprocks.Vsock.Send.{MessengerConfig}
use poprocks.Vsock.Source.{stream_source_from_payload}
use poprocks.Vsock.Request.{Requests, RespEvent}
use poprocks.Vsock.Messenger.Calls.{Outbox, Reply, request_message, request_stream}
use poprocks.Protocol.Codec.{Codec, Formats, generate_id, to_message, decode}

-- The response or the error, `none` while the request waits; the table of pending responses; and
-- what was sent.
abbrev pub Answer {ℓ} : Type ℓ → Type ℓ
Answer Resp = Option (Result Resp) × Requests × Outbox

module _ {ℓ κ} {Req : Type ℓ} {Resp : Type κ} (req_formats : Formats Req)
    (resp_formats : Formats Resp) (req_codec resp_codec : Codec) (config : MessengerConfig) where
  -- The message that answers the request: by `RequestStream` for a stream.
  unfoldable pub ask_stream : List (Result ℕ) → Req → List RespEvent → Requests → Outbox → Reply
  unfolding stream_source_from_payload request_stream
  ask_stream draws v es q w = elim (stream_source_from_payload (req_formats.as_payload v)) [
    | err e ↦ (some (err e), q, w)
    | ok (reader, payload_len) ↦
        request_stream config draws req_codec.type_id payload_len (some reader) resp_codec.type_id
          es q w
  ]

  -- By `Request` for a value that is encoded.
  unfoldable pub ask_encoded : List (Result ℕ) → Req → List RespEvent → Requests → Outbox → Reply
  unfolding generate_id to_message request_message
  ask_encoded draws v es q w = elim (generate_id draws) [
    | none ↦ (none, q, w)
    | some drawn ↦ elim (to_message req_formats req_codec drawn v) [
      | err e ↦ (some (err e), q, w)
      | ok m ↦ request_message config m resp_codec.type_id es q w
    ]
  ]

  -- A response is decoded off its own pipe.
  abbrev pub decoded : Result Message → Result Resp
  decoded (err e) = err e
  decoded (ok m) = (decode resp_formats resp_codec m (bytes_reader [])).0

  abbrev pub decoded_reply : Reply → Answer Resp
  decoded_reply (none, q, w) = (none, q, w)
  decoded_reply (some m, q, w) = (some (decoded m), q, w)

  -- `(*R[Req, Resp]).Request`
  unfoldable pub request : List (Result ℕ) → Req → List RespEvent → Requests → Outbox → Answer Resp
  unfolding decode ask_stream ask_encoded
  request draws v es q w =
      decoded_reply
        (if req_codec.stream then ask_stream draws v es q w else ask_encoded draws v es q w)
