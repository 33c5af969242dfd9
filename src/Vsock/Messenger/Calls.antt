-- ===== src/Vsock/Messenger/Calls.antt =====
-- `Request` and `RequestStream` of vsock/request.go on a messenger: the pending response is kept
-- while the messenger sends.
use poprocks.Prelude.{ℕ, ◌==◌, ◌||◌, Option, none, some, List, [], if◌then◌else◌}
use poprocks.Vsock.Errors.{Error, Result, ok, err, invalid_type_id, reader_required}
use poprocks.Vsock.Io.{bytes_reader}
use poprocks.Vsock.Message.{Message}
use poprocks.Vsock.Link.{Link}
use poprocks.Vsock.Ack.{Acks}
use poprocks.Vsock.Send.{Reader, MessengerConfig, send_stream_with_id}
use poprocks.Vsock.Source.{new_message_id}
use poprocks.Vsock.Request.{Requests, RespEvent}
use poprocks.Vsock.Request
use poprocks.Vsock.Messenger.{send}

-- What a messenger sends with: its connection and its table of acknowledgements.
pub record Outbox : Type 0 where
  pub link : Link
  pub acks : Acks

-- `Send` of a message that reads no connection.
abbrev pub post : MessengerConfig → Message → Outbox → Option Error × Outbox
post c m w =
    let (e, l, a, _, _) = send c w.link w.acks m (bytes_reader []) in
    (e, record { link = l; acks = a })

-- `SendStreamWithID`
abbrev pub post_stream :
    MessengerConfig → ℕ → ℕ → ℕ → Option Reader → Outbox → Option Error × Outbox
post_stream c id msg_type payload_len r w =
    let (e, l, a, _) = send_stream_with_id c w.link w.acks id msg_type payload_len r in
    (e, record { link = l; acks = a })

-- The response or the error, `none` while the request waits; the table of pending responses; and
-- what was sent.
abbrev pub Reply : Type 0
Reply = Option (Result Message) × Requests × Outbox

-- `(*Messenger).Request`, by what happens while it waits.
unfoldable pub request_message :
    MessengerConfig → Message → ℕ → List RespEvent → Requests → Outbox → Reply
unfolding Request.request send
request_message c m response_type es q w =
    let reply = Request.request m.id response_type (post c m) es q w in
    if response_type == 0 then (some (err invalid_type_id), q, w) else reply

-- `(*Messenger).RequestStream`
unfoldable pub request_stream :
    MessengerConfig
    → List (Result ℕ)
    → ℕ
    → ℕ
    → Option Reader
    → ℕ
    → List RespEvent
    → Requests
    → Outbox
    → Reply
unfolding Request.request new_message_id
request_stream c draws msg_type payload_len none response_type es q w =
    (some (err reader_required), q, w)
request_stream c draws msg_type payload_len (some r) response_type es q w =
    if msg_type == 0 || response_type == 0
    then (some (err invalid_type_id), q, w)
    else elim (new_message_id draws) [
      | none ↦ (none, q, w)
      | some (err e) ↦ (some (err e), q, w)
      | some (ok id) ↦
          Request.request id response_type (post_stream c id msg_type payload_len (some r)) es q w
    ]
