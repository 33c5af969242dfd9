-- ===== src/Tests/Calls.antt =====
-- Values sent from one messenger to another, and typed requests: vsock/protocol/m.go and r.go.
use poprocks.Prelude.{
  ℕ, ◌≡◌, refl, ◌≢◌, false, Option, none, some, List, [], ◌∷◌, ◌++◌, arith, nat_eq, lookup, insert,
  Bytes, length, ◌<◌, ◌^◌, ◌&&◌,
}
use poprocks.Prelude.Int.{pos, ltb_ℤ}
use poprocks.Vsock.Errors.{Error, Result, ok, eof}
use poprocks.Vsock.Io
use poprocks.Vsock.Io.{Stream, chunk, ended, bytes_reader}
use poprocks.Vsock.Wire.{Header, put_header, put_uint}
use poprocks.Vsock.Message.{Message, sink, write_to, new_message, new_message_from_header}
use poprocks.Vsock.Link.{Link, write_all}
use poprocks.Vsock.Ack.{should_await_acknowledge}
use poprocks.Vsock.Send.{
  plan, attempts_loop, send_stream_attempt, send_stream_once, body_loop, send_stream_with_id,
}
use poprocks.Vsock.Request.{RespEvent, incoming, piped}
use poprocks.Vsock.Messenger.{
  Handlers, State, default_messenger_config, serve, serve_end, first_error,
}
use poprocks.Vsock.Messenger.Serve.{AreRespectful}
use poprocks.Vsock.Messenger.Calls.{Outbox, post}
use poprocks.Protocol.Codec.{generate_id, to_message_with_id, encode, encode_with, decode}
use poprocks.Protocol.Send.{send}
use poprocks.Protocol.Receive.{new_m, handle_current}
use poprocks.Protocol.Deliver.{serve-send}
use poprocks.Protocol.Ask.{request}
use poprocks.Protocol.Ask.Laws.{asked, request-to_message_with_id, request_decodes}
use poprocks.Tests.Serve.{formats, codec, collect, requests, requests-IsFresh}

abbrev link : Link
link = record { sent = []; writes = []; cancel_after = none; reason = eof; waits = [] }

abbrev pub outbox : Outbox
outbox = record { link = link; acks = record { pending_acks = []; next_chan = 0; closed = [] } }

-- The first number that is drawn is no ID.
abbrev draws : List (Result ℕ)
draws = ok 0 ∷ ok 7 ∷ []

abbrev header : Header
header = record { id = 7; msg_type = 3; length = 2 }

abbrev sent : Outbox
sent = record outbox { link = record link { sent = put_header header ++ (1 ∷ 9 ∷ []) } }

sends : send formats codec default_messenger_config draws (9 ∷ []) outbox ≡ (some none, sent)
unfolding send put_header encode poprocks.Vsock.Messenger.send poprocks.Vsock.Message.read_all
    new_message plan should_await_acknowledge attempts_loop send_stream_attempt send_stream_once
    write_all put_uint body_loop Io.read
sends = refl

abbrev always : List Bytes → Option (Bytes → List Bytes → Option Error × List Bytes)
always s = some collect

abbrev no_handlers : Handlers (List Bytes)
no_handlers = record { receivers = []; unknown = none }

abbrev one_handler : Handlers (List Bytes)
one_handler = record { receivers = (3, handle_current formats always codec) ∷ []; unknown = none }

registers :
    new_m formats always (some no_handlers) (some codec)
    ≡ ok (record { receiver = none }, one_handler)
unfolding new_m lookup insert
registers = refl

no_handlers-AreRespectful : AreRespectful no_handlers
unfolding lookup
no_handlers-AreRespectful = record {
  of_type = λ t f e. ground arith;
  of_unknown = λ f e. ground arith;
}

abbrev idle : State (List Bytes)
idle = record {
  user = [];
  acks = record { pending_acks = []; next_chan = 0; closed = [] };
  requests = record { pending_responses = []; next_chan = 0; delivered = [] };
  acknowledging = [];
}

abbrev wire : Stream
wire = chunk (put_header header) (chunk (1 ∷ []) (chunk (9 ∷ []) (ended eof)))

encoded : (p : Bytes) → encode formats codec (9 ∷ []) ≡ ok p → p ≡ 1 ∷ 9 ∷ []
unfolding encode encode_with
encoded p e = ground arith

pub small :
    (p : Bytes)
    → encode formats codec (9 ∷ []) ≡ ok p
    → (length p < 2 ^ 32) × ((ltb_ℤ (pos 0) (pos 64) && ltb_ℤ (pos 64) (pos (length p))) ≡ false)
small p e = rw (encoded p e) (omega arith, refl)

ids : (id : ℕ) → generate_id draws ≡ some (ok id) → id < 2 ^ 64
unfolding generate_id
ids id e = ground arith

serve-send_example :
    (out : Option Error × State (List Bytes)) × (serve 2 none (pos 64) one_handler idle wire
      ≡ some out)
    × (out.0 ≡ none)
    × (out.1.user ≡ (9 ∷ []) ∷ [])
serve-send_example =
    serve-send formats codec default_messenger_config draws (9 ∷ []) outbox sent always collect
      no_handlers one_handler (record { receiver = none }) idle (pos 64) none 2 wire refl
      (omega arith) (λ q e. ground arith) small ids (omega arith) refl refl sends registers
      no_handlers-AreRespectful refl refl (λ i. put_header header ++ (1 ∷ 9 ∷ [])) refl
      (omega arith)

-- A typed request that is answered with the value 9, behind a message with another ID.
abbrev answered : Stream
answered = chunk (1 ∷ 9 ∷ 4 ∷ []) (ended eof)

abbrev pub noise : RespEvent
noise = incoming (new_message_from_header (record { id = 8; msg_type = 3; length = 1 })) answered

abbrev pub question : Message
question = new_message 9 3 (1 ∷ 5 ∷ [])

abbrev pub answer : Message
answer = new_message 9 3 (1 ∷ 9 ∷ [])

abbrev pub nine : List (Result ℕ)
nine = ok 9 ∷ []

asks :
    asked formats formats codec codec default_messenger_config nine (5 ∷ []) requests outbox 9
    ≡ ok question
unfolding to_message_with_id encode_with encode
asks = refl

pub answers : to_message_with_id formats codec 9 (9 ∷ []) ≡ ok answer
unfolding to_message_with_id encode_with encode
answers = refl

pub posted : (post default_messenger_config question outbox).0 ≡ none
unfolding put_header encode poprocks.Vsock.Messenger.send poprocks.Vsock.Message.read_all
    new_message plan should_await_acknowledge attempts_loop send_stream_attempt send_stream_once
    write_all put_uint body_loop Io.read send_stream_with_id
posted = refl

pub free : lookup 9 requests.pending_responses ≡ none
unfolding lookup
free = refl

pub codes_nine : encode formats codec (9 ∷ []) ≡ ok (1 ∷ 9 ∷ [])
unfolding encode encode_with
codes_nine = refl

pub draws_nine : generate_id nine ≡ some (ok 9)
unfolding generate_id
draws_nine = refl

pub noise_other : (new_message_from_header (record { id = 8; msg_type = 3; length = 1 })).id ≢ 9
unfolding new_message_from_header
noise_other = omega arith

request-to_message_with_id_example :
    (request formats formats codec codec default_messenger_config nine
      (5 ∷ [])
      (noise ∷ incoming (new_message_from_header answer.header) answered ∷ [])
      requests
      outbox).0
    ≡ some (ok (9 ∷ []))
request-to_message_with_id_example =
    request-to_message_with_id formats formats codec codec default_messenger_config nine (5 ∷ [])
      requests outbox 9 question answer (9 ∷ []) (1 ∷ 9 ∷ []) (4 ∷ []) (noise ∷ []) [] answered refl
      refl (omega arith) (λ q e. ground arith) requests-IsFresh draws_nine asks free posted answers
      codes_nine (omega arith) refl refl (noise_other, tt)

request_decodes_example :
    (before after : List RespEvent) × (m : Message) × (conn : Stream) × (noise
        ∷ incoming (new_message_from_header answer.header) answered
        ∷ []
      ≡ before ++ (incoming m conn ∷ after))
    × (m.id ≡ 9)
    × (m.msg_type ≡ 3)
    × ((decode formats codec (piped m (write_to m sink conn).0) (bytes_reader [])).0 ≡ ok (9 ∷ []))
request_decodes_example =
    request_decodes formats formats codec codec default_messenger_config nine (5 ∷ []) requests
      outbox 9 question (noise ∷ incoming (new_message_from_header answer.header) answered ∷ [])
      (9 ∷ []) refl (omega arith) requests-IsFresh draws_nine asks
      request-to_message_with_id_example
