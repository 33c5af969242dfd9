-- ===== src/Tests/Answers.antt =====
-- A typed request and the peer that answers it: vsock/protocol/r.go.
use poprocks.Prelude.{
  ℕ, ◌≡◌, refl, ◌∙◌, Option, none, some, List, [], ◌∷◌, ◌++◌, arith, nat_eq, lookup, insert, Bytes,
}
use poprocks.Prelude.Int.{pos}
use poprocks.Vsock.Errors.{Error, Result, ok}
use poprocks.Vsock.Io
use poprocks.Vsock.Io.{Stream, chunk, ended, content}
use poprocks.Vsock.Errors.{eof}
use poprocks.Vsock.Wire.{Header, put_header, put_uint}
use poprocks.Vsock.Message.{Message, new_message}
use poprocks.Vsock.Link.{write_all}
use poprocks.Vsock.Ack.{should_await_acknowledge}
use poprocks.Vsock.Send.{
  Reader, plan, attempts_loop, send_stream_attempt, send_stream_once, body_loop,
  send_stream_with_id,
}
use poprocks.Vsock.Messenger.{Handlers, State, default_messenger_config, serve}
use poprocks.Vsock.Messenger.Serve.{AreRespectful}
use poprocks.Vsock.Messenger.Calls.{post}
use poprocks.Protocol.Codec.{encode, encode_with}
use poprocks.Protocol.Respond.{new_r}
use poprocks.Protocol.Deliver.Request.{registered_handler, serve-post}
use poprocks.Tests.Serve.{formats, codec}
use poprocks.Tests.Calls.{outbox, question, answer, answers, posted}

-- The peer's state is the responses that it sent.
abbrev send : Message → List Message → Option Error × List Message
send m s = (none, m ∷ s)

abbrev send_stream : ℕ → ℕ → ℕ → Reader → List Message → Option Error × List Message
send_stream id t n r s = (none, s)

-- It answers everything with the value 9.
abbrev nine_for : Bytes → List Message → Result Bytes × List Message
nine_for v s = (ok (9 ∷ []), s)

abbrev always : List Message → Option (Bytes → List Message → Result Bytes × List Message)
always s = some nine_for

abbrev no_handlers : Handlers (List Message)
no_handlers = record { receivers = []; unknown = none }

abbrev one_handler : Handlers (List Message)
one_handler = record {
  receivers = (3, registered_handler formats formats codec codec send send_stream always) ∷ [];
  unknown = none;
}

registers :
    new_r formats formats send send_stream always (some no_handlers) (some codec) (some codec)
    ≡ ok (record { receiver = none }, one_handler)
unfolding new_r lookup insert
registers = refl

no_handlers-AreRespectful : AreRespectful no_handlers
unfolding lookup
no_handlers-AreRespectful = record {
  of_type = λ t f e. ground arith;
  of_unknown = λ f e. ground arith;
}

abbrev idle : State (List Message)
idle = record {
  user = [];
  acks = record { pending_acks = []; next_chan = 0; closed = [] };
  requests = record { pending_responses = []; next_chan = 0; delivered = [] };
  acknowledging = [];
}

abbrev header : Header
header = record { id = 9; msg_type = 3; length = 2 }

abbrev wire : Stream
wire = chunk (put_header header ++ (1 ∷ [])) (chunk (5 ∷ []) (ended eof))

asked : encode formats codec (5 ∷ []) ≡ ok (1 ∷ 5 ∷ [])
unfolding encode encode_with
asked = refl

wire_posted :
    put_header header ++ (1 ∷ 5 ∷ []) ≡ (post default_messenger_config question outbox).1.link.sent
unfolding put_header encode poprocks.Vsock.Messenger.send poprocks.Vsock.Message.read_all
    new_message plan should_await_acknowledge attempts_loop send_stream_attempt send_stream_once
    write_all put_uint body_loop Io.read send_stream_with_id
wire_posted = refl

wire_content : content wire ≡ put_header header ++ (1 ∷ 5 ∷ [])
unfolding put_header put_uint
wire_content = refl

serve-post_example :
    (out : Option Error × State (List Message)) × (serve 2 none (pos 64) one_handler idle wire
      ≡ some out)
    × (out.0 ≡ none)
    × (out.1.user ≡ answer ∷ [])
serve-post_example =
    serve-post formats formats codec codec send send_stream always default_messenger_config 9
      (5 ∷ []) (1 ∷ 5 ∷ []) outbox nine_for (9 ∷ []) [] answer no_handlers one_handler
      (record { receiver = none }) idle (pos 64) none 2 wire refl refl (omega arith)
      (λ q e. ground arith) asked (omega arith) refl (omega arith) (omega arith) (omega arith) refl
      refl posted registers no_handlers-AreRespectful refl refl answers refl
      (wire_content ∙ wire_posted) refl (omega arith)
