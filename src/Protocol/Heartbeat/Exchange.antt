-- ===== src/Protocol/Heartbeat/Exchange.antt =====
-- `ping` on one side and `handleRequest` on the other, of vsock/protocol/common/heartbeat.go, over a
-- typed request.
use poprocks.Prelude.{
  ℕ, ◌≡◌, refl, ◌<◌, ◌^◌, Option, none, some, List, ◌∷◌, ◌++◌, length, arith, nat_eq, lookup, Bytes,
  All,
}
use poprocks.Vsock.Errors.{Error, Result, ok, eof}
use poprocks.Vsock.Io.{Stream, content, failure}
use poprocks.Vsock.Message.{Message, new_message_from_header}
use poprocks.Vsock.Send.{MessengerConfig}
use poprocks.Vsock.Request.{Requests, RespEvent, incoming}
use poprocks.Vsock.Request.Laws.{IsFresh}
use poprocks.Vsock.Request.Answer.{IsOther}
use poprocks.Vsock.Messenger.Calls.{Outbox, post}
use poprocks.Protocol.Codec.{codec_msgpack, Formats, generate_id, to_message_with_id, encode}
use poprocks.Protocol.Ask.{request}
use poprocks.Protocol.Ask.Laws.{asked, request-to_message_with_id}
use poprocks.Protocol.Heartbeat.{
  HeartbeatPayload, Heartbeat, ping, ping_payload, snapshot_health, handle_request, status_ok,
}
use poprocks.Protocol.Heartbeat.Create.{request_codec, response_codec}

-- The answer of a peer, for a ping of `h`.
abbrev pub answer_of : {H : Type 0} → ℕ → ℕ → Heartbeat H → Heartbeat H → HeartbeatPayload H
answer_of now then_ h peer = (handle_request then_ (ping_payload now h) peer).0

-- A heartbeat whose request is answered by a peer's `handleRequest` has no error, and both sides
-- have the status OK and the health of the other. It is taken that the format unmarshals what it
-- marshals of the answer, that the channels in the tables were handed out before, that nobody
-- waits for the ID of the request yet, that the request is sent without error, and that the
-- answer is what `Request` returns when the peer's message comes whole behind messages with other
-- IDs.
pub ping-handle_request :
    {H : Type 0} (formats : Formats (HeartbeatPayload H)) (config : MessengerConfig)
    (draws : List (Result ℕ)) (q : Requests) (w : Outbox) (now then_ later : ℕ)
    (h peer : Heartbeat H) (id : ℕ) (out back : Message) (p rest : Bytes)
    (before after : List RespEvent) (conn : Stream) (answer : Result (HeartbeatPayload H))
    (ctx_err : Option Error)
    → ((b : Bytes)
        → formats.marshal codec_msgpack (answer_of now then_ h peer) ≡ ok b
        → formats.unmarshal codec_msgpack b ≡ ok (answer_of now then_ h peer))
    → IsFresh q
    → generate_id draws ≡ some (ok id)
    → asked formats formats request_codec response_codec config draws (ping_payload now h) q w id
      ≡ ok out
    → lookup id q.pending_responses ≡ none
    → (post config out w).0 ≡ none
    → to_message_with_id formats response_codec id (answer_of now then_ h peer) ≡ ok back
    → encode formats response_codec (answer_of now then_ h peer) ≡ ok p
    → length p < 2 ^ 32
    → content conn ≡ p ++ rest
    → failure conn ≡ eof
    → All (IsOther id) before
    → (request formats formats request_codec response_codec config draws
        (ping_payload now h)
        (before ++ (incoming (new_message_from_header back.header) conn ∷ after))
        q
        w).0
      ≡ some answer
    → let (e, h') = ping now answer ctx_err later h in
      let peer' = (handle_request then_ (ping_payload now h) peer).1 in
      (e ≡ none)
      × (h'.state.status ≡ status_ok)
      × (h'.state.health ≡ snapshot_health peer)
      × (peer'.state.status ≡ status_ok)
      × (peer'.state.health ≡ snapshot_health h)
unfolding ping handle_request
ping-handle_request formats config draws q w now then_ later h peer id out back p rest before after
      conn answer ctx_err law fresh drawn coded free posted made encoded small arrives ends_well
      others answered =
    let same =
      request-to_message_with_id formats formats request_codec response_codec config draws
        (ping_payload now h) q w id out back (answer_of now then_ h peer) p rest before after conn
        refl refl (omega arith) law fresh drawn coded free posted made encoded small arrives
        ends_well others in
    let got : answer ≡ ok (answer_of now then_ h peer) = ground arith in
    (ground arith, ground arith, ground arith, ground arith, ground arith)
