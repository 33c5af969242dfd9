-- ===== src/Protocol/Heartbeat/Create.antt =====
-- `NewHeartbeat` of vsock/protocol/common/heartbeat.go: its two codecs, and the handler that it
-- registers, over the state `S` that the messenger's handlers change.
use poprocks.Prelude.{ℕ, ◌+◌, Option, none, some, ◌⊎◌, inl, inr, false}
use poprocks.Vsock.Errors.{Error, Result, ok, err}
use poprocks.Vsock.Message.{Message}
use poprocks.Vsock.Send.{Reader}
use poprocks.Vsock.Messenger.{Handlers}
use poprocks.Protocol.Codec.{Codec, codec_msgpack, make_codec, Formats, new_codec_of_type}
use poprocks.Protocol.Receive.{M, on_receive}
use poprocks.Protocol.Respond.{new_r}
use poprocks.Protocol.Heartbeat.{
  ConfigError, HeartbeatConfig, HeartbeatPayload, Heartbeat, validate, handle_request,
  type_heartbeat,
}

-- `NewCodecOfType[HeartbeatPayload](TypeHeartbeat, vsock.CodecMsgpack)`
abbrev pub request_codec : Codec
request_codec = make_codec type_heartbeat codec_msgpack

abbrev pub response_codec : Codec
response_codec = make_codec (type_heartbeat + 100) codec_msgpack

-- A heartbeat that was not made: by its configuration, or by what it is registered with.
abbrev pub CreateError : Type 0
CreateError = ConfigError ⊎ Error

module _ {ℓ} {H : Type 0} {S : Type ℓ} (clock : S → ℕ) (heartbeat_of : S → Heartbeat H)
    (put_heartbeat : Heartbeat H → S → S) where
  abbrev pub Receiver : Type ℓ
  Receiver = HeartbeatPayload H → S → Result (HeartbeatPayload H) × S

  -- `h.handleRequest`
  unfoldable pub receive_request : Receiver
  unfolding handle_request
  receive_request req s =
      let (resp, h) = handle_request (clock s) req (heartbeat_of s) in (ok resp, put_heartbeat h s)

  module _ (formats : Formats (HeartbeatPayload H)) (send : Message → S → Option Error × S)
      (send_stream_with_id : ℕ → ℕ → ℕ → Reader → S → Option Error × S)
      (handler_of : S → Option Receiver) where
    -- `OnRequest` of what `NewR` gave, and the heartbeat.
    abbrev finish :
        HeartbeatConfig
        → Result (M Receiver × Handlers S)
        → CreateError ⊎ (Heartbeat H × M Receiver × Handlers S)
    finish cfg (err e) = inl (inr e)
    finish cfg (ok (transport, d)) =
        let (e, m) = on_receive (some receive_request) transport in
        elim e [
          | some x ↦ inl (inr x)
          | none ↦ inr (
            record {
              config = cfg;
              state = record { sent = 0; received = 0; status = 0; health = none };
              started = false;
              provider = none;
            },
            m,
            d,
          )
        ]

    -- `NewHeartbeat`
    unfoldable pub new_heartbeat :
        Option (Handlers S)
        → HeartbeatConfig
        → CreateError ⊎ (Heartbeat H × M Receiver × Handlers S)
    unfolding validate new_codec_of_type new_r on_receive receive_request
    new_heartbeat messenger cfg = elim (validate cfg) [
      | some e ↦ inl (inl e)
      | none ↦ elim (new_codec_of_type type_heartbeat codec_msgpack) [
        | err e ↦ inl (inr e)
        | ok req_codec ↦ elim (new_codec_of_type (type_heartbeat + 100) codec_msgpack) [
          | err e ↦ inl (inr e)
          | ok resp_codec ↦ finish cfg (
              new_r formats formats send send_stream_with_id handler_of messenger (some req_codec)
                (some resp_codec))
        ]
      ]
    ]
