-- ===== src/Tests/Beats.antt =====
-- Heartbeats between two messengers: vsock/protocol/common/heartbeat.go.
use poprocks.Prelude.{
  true, ◌+◌, Option-cases, inl, inr, ℕ, ◌≡◌, refl, none, some, [], ◌∷◌, arith, nat_eq, Bytes,
}
use poprocks.Vsock.Errors.{Result, ok, err, eof}
use poprocks.Vsock.Io
use poprocks.Vsock.Io.{Stream, chunk, ended, bytes_reader}
use poprocks.Vsock.Wire.{put_header, put_uint}
use poprocks.Vsock.Message.{Message, new_message, new_message_from_header}
use poprocks.Vsock.Link.{write_all}
use poprocks.Vsock.Ack.{should_await_acknowledge}
use poprocks.Vsock.Send.{
  plan, attempts_loop, send_stream_attempt, send_stream_once, body_loop, send_stream_with_id,
}
use poprocks.Vsock.Request.{incoming}
use poprocks.Vsock.Messenger.{
  Handlers, State, default_messenger_config, serve, serve_end, first_error,
}
use poprocks.Vsock.Messenger.Calls.{post}
use poprocks.Protocol.Codec.{to_message_with_id, encode, encode_with}
use poprocks.Protocol.Ask.{request}
use poprocks.Protocol.Ask.Laws.{asked, request-to_message_with_id}
use poprocks.Vsock.Source.{not_a_source}
use poprocks.Protocol.Codec.{Formats, codec_msgpack}
use poprocks.Protocol.Heartbeat.{
  HeartbeatPayload, Heartbeat, default_heartbeat_config, type_heartbeat, status_ok, ping,
  ping_payload, snapshot_health, handle_request,
}
use poprocks.Protocol.Heartbeat.Create.{request_codec, response_codec}
use poprocks.Protocol.Heartbeat.Exchange.{answer_of, ping-handle_request}
use poprocks.Tests.Types.{program, node}
use poprocks.Tests.Serve.{requests, requests-IsFresh}
use poprocks.Tests.Calls.{nine, outbox, noise, draws_nine, free, noise_other}

-- Heartbeats, whose health is a byte: the format writes it, and the status in front of it.
abbrev beat : HeartbeatPayload ℕ → Bytes
beat p = p.sent_at ∷ p.status ∷ elim p.health [ none ↦ [] | some h ↦ h ∷ [] ]

abbrev unbeat : Bytes → Result (HeartbeatPayload ℕ)
unbeat [] = err eof
unbeat (t ∷ []) = err eof
unbeat (t ∷ s ∷ []) = ok (record { sent_at = t; status = s; health = none })
unbeat (t ∷ s ∷ h ∷ bs) = ok (record { sent_at = t; status = s; health = some h })

unbeat-beat : (p : HeartbeatPayload ℕ) → unbeat (beat p) ≡ ok p
unbeat-beat p = elim (Option-cases p.health) [ inl n ↦ ground arith | inr (h, e) ↦ ground arith ]

abbrev beats : Formats (HeartbeatPayload ℕ)
beats = record {
  marshal = λ t v. ok (beat v);
  unmarshal = λ t p. unbeat p;
  reflection = program;
  payload_type = node;
  from_value = λ v. record { sent_at = 0; status = 0; health = none };
  as_payload = λ v. not_a_source;
}

-- One side has the health 5, the other 6.
abbrev side : ℕ → Heartbeat ℕ
side health = record {
  config = default_heartbeat_config;
  state = record { sent = 0; received = 0; status = 0; health = none };
  started = true;
  provider = some (some health);
}

abbrev ping_message : Message
ping_message = new_message 9 type_heartbeat (3 ∷ 1 ∷ 5 ∷ [])

abbrev pong_message : Message
pong_message = new_message 9 (type_heartbeat + 100) (3 ∷ 1 ∷ 6 ∷ [])

abbrev pong : HeartbeatPayload ℕ
pong = record { sent_at = 3; status = 1; health = some 6 }

abbrev pong_stream : Stream
pong_stream = chunk (3 ∷ 1 ∷ 6 ∷ []) (ended eof)

beat_law :
    (b : Bytes)
    → beats.marshal codec_msgpack (answer_of 3 4 (side 5) (side 6)) ≡ ok b
    → beats.unmarshal codec_msgpack b ≡ ok (answer_of 3 4 (side 5) (side 6))
beat_law b e = ground (arith, unbeat-beat (answer_of 3 4 (side 5) (side 6)))

pings :
    asked beats beats request_codec response_codec default_messenger_config nine
      (ping_payload 3 (side 5))
      requests
      outbox
      9
    ≡ ok ping_message
unfolding to_message_with_id encode_with encode snapshot_health
pings = refl

pongs :
    to_message_with_id beats response_codec 9 (answer_of 3 4 (side 5) (side 6)) ≡ ok pong_message
unfolding to_message_with_id encode_with encode handle_request snapshot_health
pongs = refl

codes_pong : encode beats response_codec (answer_of 3 4 (side 5) (side 6)) ≡ ok (3 ∷ 1 ∷ 6 ∷ [])
unfolding encode encode_with handle_request snapshot_health
codes_pong = refl

ping_posted : (post default_messenger_config ping_message outbox).0 ≡ none
unfolding put_header encode poprocks.Vsock.Messenger.send poprocks.Vsock.Message.read_all
    new_message plan should_await_acknowledge attempts_loop send_stream_attempt send_stream_once
    write_all put_uint body_loop Io.read send_stream_with_id
ping_posted = refl

pong_comes :
    (request beats beats request_codec response_codec default_messenger_config nine
      (ping_payload 3 (side 5))
      (noise ∷ incoming (new_message_from_header pong_message.header) pong_stream ∷ [])
      requests
      outbox).0
    ≡ some (ok (answer_of 3 4 (side 5) (side 6)))
pong_comes =
    request-to_message_with_id beats beats request_codec response_codec default_messenger_config
      nine (ping_payload 3 (side 5)) requests outbox 9 ping_message pong_message
      (answer_of 3 4 (side 5) (side 6)) (3 ∷ 1 ∷ 6 ∷ []) [] (noise ∷ []) [] pong_stream refl refl
      (omega arith) beat_law requests-IsFresh draws_nine pings free ping_posted pongs codes_pong
      (omega arith) refl refl (noise_other, tt)

ping-handle_request_example :
    let (e, h') = ping 3 (ok (answer_of 3 4 (side 5) (side 6))) none 7 (side 5) in
    let peer' = (handle_request 4 (ping_payload 3 (side 5)) (side 6)).1 in
    (e ≡ none)
    × (h'.state.status ≡ status_ok)
    × (h'.state.health ≡ snapshot_health (side 6))
    × (peer'.state.status ≡ status_ok)
    × (peer'.state.health ≡ snapshot_health (side 5))
ping-handle_request_example =
    ping-handle_request beats default_messenger_config nine requests outbox 3 4 7 (side 5) (side 6)
      9 ping_message pong_message (3 ∷ 1 ∷ 6 ∷ []) [] (noise ∷ []) [] pong_stream
      (ok (answer_of 3 4 (side 5) (side 6))) none beat_law requests-IsFresh draws_nine pings free
      ping_posted pongs codes_pong (omega arith) refl refl (noise_other, tt) pong_comes
