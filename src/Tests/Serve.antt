-- ===== src/Tests/Serve.antt =====
-- Connections served to handlers that are registered by `NewM`, and requests: vsock/messenger.go,
-- vsock/request.go, vsock/codec.go and vsock/protocol/m.go.
use poprocks.Prelude.{
  ℕ, ◌≡◌, refl, ◌+◌, true, false, Option, none, some, List, [], ◌∷◌, ◌++◌, arith, nat_eq, lookup,
  insert, delete, Bytes, All,
}
use poprocks.Prelude.Int.{pos}
use poprocks.Vsock.Errors.{Error, eof, ok, err, handler_already_registered}
use poprocks.Vsock.Io
use poprocks.Vsock.Io.{Stream, chunk, ended, content, fill}
use poprocks.Vsock.Wire.{Header, put_header, put_uint}
use poprocks.Vsock.Source.{not_a_source}
use poprocks.Vsock.Message.{Message, new_message_from_header, write_to, sink, read_rest}
use poprocks.Vsock.Request.{
  Requests, register_pending_response, unregister_pending_response, piped, resolve_response,
  incoming, RespEvent, await_response, request,
}
use poprocks.Vsock.Request.Laws.{IsFresh, request_gone}
use poprocks.Vsock.Messenger.{Handler, Handlers, State, serve, serve_end}
use poprocks.Vsock.Messenger.Serve.{IsRespectful, AreRespectful}
use poprocks.Vsock.Messenger.Frames.{Frame, wire, IsFrame, dispatch, serve_frames}
use poprocks.Protocol.Codec.{Codec, Formats, codec_json, encode, encode_with}
use poprocks.Tests.Types.{program, node}
use poprocks.Protocol.Receive.{
  M, on_receive, remove_receiver, on_receive_once, handle, handle-IsRespectful,
}

-- Values are byte strings, and a format adds a byte in front of them.
abbrev pub formats : Formats Bytes
formats = record {
  marshal = λ t v. ok (1 ∷ v);
  unmarshal = λ t p. elim p [ [] ↦ err eof | b ∷ bs ↦ ok bs ];
  reflection = program;
  payload_type = node;
  from_value = λ v. [];
  as_payload = λ v. not_a_source;
}

abbrev pub codec : Codec
codec = record { codec = codec_json; type_id = 3; stream = false }

-- The state is the list of the values that came.
abbrev pub collect : Bytes → List Bytes → Option Error × List Bytes
collect v s = (none, v ∷ s)

abbrev handlers : Handlers (List Bytes)
handlers = record { receivers = (3, handle formats codec (some collect)) ∷ []; unknown = none }

collect-IsRespectful : IsRespectful (handle formats codec (some collect))
collect-IsRespectful = handle-IsRespectful formats codec (some collect) refl

abbrev handler : Handler (List Bytes)
handler = handle formats codec (some collect)

only_handler :
    (t : ℕ) (f : Handler (List Bytes)) → lookup t handlers.receivers ≡ some f → f ≡ handler
unfolding lookup
only_handler t f e = ground arith

handlers-AreRespectful : AreRespectful handlers
unfolding lookup
handlers-AreRespectful = record {
  of_type = λ t f e. rw (only_handler t f e) collect-IsRespectful;
  of_unknown = λ f e. ground arith;
}

abbrev pub state : State (List Bytes)
state = record {
  user = [];
  acks = record { pending_acks = []; next_chan = 0; closed = [] };
  requests = record { pending_responses = []; next_chan = 0; delivered = [] };
  acknowledging = [];
}

-- A frame for the handler, and one of a type that nobody knows.
abbrev frames : List Frame
frames =
    (record { id = 7; msg_type = 3; length = 2 }, 1 ∷ 9 ∷ [])
    ∷ (record { id = 8; msg_type = 4; length = 1 }, 5 ∷ [])
    ∷ []

-- They come in two reads.
abbrev conn : Stream
conn = chunk (put_header (record { id = 7; msg_type = 3; length = 2 })) (
    chunk ((1 ∷ 9 ∷ []) ++ (put_header (record { id = 8; msg_type = 4; length = 1 }) ++ (5 ∷ [])))
      (ended eof))

frames-IsFrame : All (IsFrame (pos 64)) frames
frames-IsFrame = (
  record {
    header_fits = record {
      id_fits = omega arith;
      type_fits = omega arith;
      length_fits = omega arith;
    };
    has_id = omega arith;
    whole = refl;
    allowed = refl;
  },
  (
    record {
      header_fits = record {
        id_fits = omega arith;
        type_fits = omega arith;
        length_fits = omega arith;
      };
      has_id = omega arith;
      whole = refl;
      allowed = refl;
    },
    tt,
  ),
)

conn-content : content conn ≡ wire frames
unfolding put_header put_uint
conn-content = refl

serve_frames_example :
    serve 3 none (pos 64) handlers state conn
    ≡ some (dispatch (serve_end none eof) handlers state frames)
serve_frames_example =
    serve_frames (pos 64) none handlers handlers-AreRespectful frames 3 state conn refl
      frames-IsFrame conn-content (omega arith)

-- Somebody waits on channel 2 for the response to 7 of type 3.
abbrev pub requests : Requests
requests = record {
  pending_responses = (7, record { msg_type = 3; ch = 2 }) ∷ [];
  next_chan = 5;
  delivered = [];
}

abbrev response : Header
response = record { id = 7; msg_type = 3; length = 2 }

abbrev pub body : Stream
body = chunk (1 ∷ 9 ∷ 4 ∷ []) (ended eof)

body_writes : (write_to (new_message_from_header response) sink body).1 ≡ none
unfolding write_to new_message_from_header read_rest Io.read_all fill
body_writes = refl

-- A request for 9 while the one for 7 waits; a send that works adds one to a count.
abbrev send : ℕ → Option Error × ℕ
send n = (none, n + 1)

abbrev answers : List RespEvent
answers = incoming (new_message_from_header (record { id = 9; msg_type = 6; length = 1 })) body ∷ []

pub requests-IsFresh : IsFresh requests
unfolding lookup
requests-IsFresh = record { entries = λ j p e. ground arith; channels = λ c m e. ground arith }

abbrev answer : Message
answer = piped (new_message_from_header (record { id = 9; msg_type = 6; length = 1 })) (1 ∷ [])

answer_comes : (request 9 6 send answers requests 0).0 ≡ some (ok answer)
unfolding request register_pending_response await_response resolve_response write_to
    new_message_from_header read_rest Io.read_all fill lookup insert delete
    unregister_pending_response
answer_comes = refl

request_gone_example : lookup 9 (request 9 6 send answers requests 0).1.pending_responses ≡ none
unfolding lookup
request_gone_example = request_gone 9 6 send answers requests 0 (ok answer) refl answer_comes

codec_encodes : encode formats codec (9 ∷ []) ≡ ok (1 ∷ 9 ∷ [])
unfolding encode encode_with
codec_encodes = refl

codec_law :
    (p : Bytes)
    → formats.marshal codec_json (9 ∷ []) ≡ ok p
    → formats.unmarshal codec_json p ≡ ok (9 ∷ [])
codec_law p e = ground arith

on_receive_once_example :
    let m : M ℕ = record { receiver = some 1 } in
    (on_receive (some 2) m ≡ (some handler_already_registered, m))
    × ((remove_receiver m).0 ≡ true)
    × ((on_receive (some 2) (remove_receiver m).1).0 ≡ none)
unfolding on_receive
on_receive_once_example =
    on_receive_once 1 2 (record { receiver = none }) (record { receiver = some 1 }) refl
