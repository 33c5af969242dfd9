-- ===== src/Protocol/Respond.antt =====
-- What `NewR` of vsock/protocol/r.go registers. What the messenger's `Send` and `SendStreamWithID` do
-- with the response are arguments, functions on the messenger's state.
use poprocks.Prelude.{ℕ, ◌≡◌, refl, false, Option, none, some, if◌then◌else◌}
use poprocks.Vsock.Errors.{Error, Result, ok, err, nil_transport, nil_codec}
use poprocks.Vsock.Io.{Stream}
use poprocks.Vsock.Message.{Message, new_message_from_header}
use poprocks.Vsock.Send.{Reader}
use poprocks.Vsock.Source.{stream_source_from_payload}
use poprocks.Vsock.Messenger
use poprocks.Vsock.Messenger.{Handler, Handlers}
use poprocks.Vsock.Messenger.Serve.{IsRespectful, untouched}
use poprocks.Protocol.Codec.{Codec, Formats, decode, to_message_with_id}
use poprocks.Protocol.Receive.{M, handle, handle-IsRespectful}

module _ {ℓ κ μ} {Req : Type ℓ} {Resp : Type κ} {S : Type μ} (req_formats : Formats Req)
    (resp_formats : Formats Resp) (req_codec resp_codec : Codec)
    (send : Message → S → Option Error × S)
    (send_stream_with_id : ℕ → ℕ → ℕ → Reader → S → Option Error × S) where
  -- A response that is a stream keeps the ID of its request.
  unfoldable pub respond_stream : ℕ → Resp → S → Option Error × S
  unfolding stream_source_from_payload
  respond_stream id resp s = elim (stream_source_from_payload (resp_formats.as_payload resp)) [
    | err e ↦ (some e, s)
    | ok (reader, payload_len) ↦ send_stream_with_id id resp_codec.type_id payload_len reader s
  ]

  -- A response that is encoded keeps it too.
  unfoldable pub respond_encoded : ℕ → Resp → S → Option Error × S
  unfolding to_message_with_id
  respond_encoded id resp s = elim (to_message_with_id resp_formats resp_codec id resp) [
    | err e ↦ (some e, s)
    | ok out ↦ send out s
  ]

  -- What is done with a request, by the ID of its message.
  unfoldable pub respond : (Req → S → Result Resp × S) → ℕ → Req → S → Option Error × S
  unfolding respond_stream respond_encoded
  respond handler id req s =
      let (resp, s') = handler req s in
      elim resp [
        | err e ↦ (some e, s')
        | ok r ↦ if resp_codec.stream then respond_stream id r s' else respond_encoded id r s'
      ]

  -- The handler, over the one of the moment.
  unfoldable pub handle_request : Option (Req → S → Result Resp × S) → Handler S
  unfolding decode respond
  handle_request none s m conn = (none, s, m, conn)
  handle_request (some handler) s m conn =
      let (req, m', conn') = decode req_formats req_codec m conn in
      elim req [
        | err e ↦ (some e, s, m', conn')
        | ok r ↦ let (e, s') = respond handler m.id r s in (e, s', m', conn')
      ]

  -- What `NewR` registers looks up the handler when a message comes, which `handler_of` finds in the
  -- state.
  unfoldable pub handle_current_request : (S → Option (Req → S → Result Resp × S)) → Handler S
  unfolding handle_request
  handle_current_request handler_of s m conn = handle_request (handler_of s) s m conn

  handle_request-handle :
      (handler : Req → S → Result Resp × S) (s : S) (m : Message) (conn : Stream)
      → handle_request (some handler) s m conn
        ≡ handle req_formats req_codec (some (respond handler m.id)) s m conn
  unfolding handle_request handle
  handle_request-handle handler s m conn = refl

  -- The handler of requests goes by its own message alone, as that of `NewM` does, if the codec of the
  -- requests does not stream.
  pub handle_request-IsRespectful :
      (handler : Option (Req → S → Result Resp × S))
      → req_codec.stream ≡ false
      → IsRespectful (handle_request handler)
  unfolding handle_request handle
  handle_request-IsRespectful none z = record {
    same_error = λ s h conn f. refl;
    same_state = λ s h conn f. refl;
    leaves_rest = λ s h conn f. untouched h conn f;
  }
  handle_request-IsRespectful (some handler) z =
      let as_m =
        λ (id : ℕ). handle-IsRespectful req_formats req_codec (some (respond handler id)) z in
      record {
        same_error = λ s h conn f. (as_m (new_message_from_header h).id).same_error s h conn f;
        same_state = λ s h conn f. (as_m (new_message_from_header h).id).same_state s h conn f;
        leaves_rest = λ s h conn f. (as_m (new_message_from_header h).id).leaves_rest s h conn f;
      }

module _ {ℓ κ μ} {Req : Type ℓ} {Resp : Type κ} {S : Type μ} (req_formats : Formats Req)
    (resp_formats : Formats Resp) (send : Message → S → Option Error × S)
    (send_stream_with_id : ℕ → ℕ → ℕ → Reader → S → Option Error × S)
    (handler_of : S → Option (Req → S → Result Resp × S)) where
  -- `NewR`
  unfoldable pub new_r :
      Option (Handlers S)
      → Option Codec
      → Option Codec
      → Result (M (Req → S → Result Resp × S) × Handlers S)
  unfolding Messenger.on_receive handle_current_request
  new_r none req_codec resp_codec = err nil_transport
  new_r (some d) none resp_codec = err nil_codec
  new_r (some d) (some req_codec) none = err nil_codec
  new_r (some d) (some req_codec) (some resp_codec) =
      let handler =
        handle_current_request req_formats resp_formats req_codec resp_codec send
          send_stream_with_id handler_of in
      let (e, d') = Messenger.on_receive req_codec.type_id (some handler) d in
      elim e [ some x ↦ err x | none ↦ ok (record { receiver = none }, d') ]
