-- ===== src/Tests/Send.antt =====
-- Sends on concrete links: vsock/stream.go, vsock/ack.go and `Send` of vsock/messenger.go.
use poprocks.Prelude.{
  ◌≡◌, refl, ◌↔◌, ◌≤◌, ◌+◌, ◌*◌, inr, true, false, none, some, [], ◌∷◌, ◌++◌, arith, nat_eq, lookup,
  insert, delete, length, Bytes,
}
use poprocks.Prelude.Int.{pos}
use poprocks.Vsock.Errors.{canceled, eof, ok}
use poprocks.Vsock.Io.{Stream, chunk, ended, read}
use poprocks.Vsock.Wire.{put_header, put_uint}
use poprocks.Vsock.Message.{Message, new_message, read_all}
use poprocks.Vsock.Link.{Link, accept, ack_received, write_all, write_loop, poll}
use poprocks.Vsock.Link.Laws.{IsLive}
use poprocks.Vsock.Ack.{
  Acks, is_closed, should_await_acknowledge, register_pending_ack, unregister_pending_ack,
  resolve_ack, await_chan, wait_for_acknowledge,
}
use poprocks.Vsock.Ack.Laws.{Acknowledged, Owns, wait_for_acknowledge_iff}
use poprocks.Vsock.Send.{
  Reader, MessengerConfig, body_loop, send_stream_once, send_stream_attempt, attempts_loop, plan,
  send_stream_with_id,
}
use poprocks.Vsock.Send.Attempts.{frame}
use poprocks.Vsock.Send.WithId.{
  send_stream_with_id_whole, send_stream_with_id_bound, send_stream_with_id_gone,
  send_stream_with_id_live,
}
use poprocks.Vsock.Messenger.{send}

-- A link that takes three bytes, then two, then all, with an acknowledgement of 7 to come.
abbrev link : Link
link = record {
  sent = 1 ∷ [];
  writes = accept 3 ∷ accept 2 ∷ [];
  cancel_after = none;
  reason = canceled;
  waits = (ack_received 8 ∷ ack_received 7 ∷ []) ∷ [];
}

abbrev no_acks : Acks
no_acks = record { pending_acks = []; next_chan = 4; closed = [] }

-- Acknowledged sends, with one retry.
abbrev config : MessengerConfig
config = record {
  require_acknowledge = true;
  timeout = pos 1;
  max_retries = pos 1;
  max_message_size = pos 100;
  max_message_size_received = pos 100;
}

abbrev plain : MessengerConfig
plain = record config { require_acknowledge = false }

abbrev payload : Stream
payload = chunk (10 ∷ 20 ∷ []) (chunk (30 ∷ []) (ended eof))

abbrev reader : Reader
reader = record { stream = payload; seeker = some [] }

abbrev once : Reader
once = record { stream = payload; seeker = none }

link-IsLive : IsLive link
link-IsLive = record { not_cancelled = refl; accepting = (tt, (tt, tt)) }

-- A wait for the acknowledgement of 7, on channel 4.
abbrev acks : Acks
acks = record { pending_acks = (7, 4) ∷ (9, 5) ∷ []; next_chan = 6; closed = [] }

acks-Owns : Owns 7 4 acks
unfolding is_closed lookup
acks-Owns = record { is_open = refl; alone = λ j h. ground arith }

-- All that a send calls.
config_sends : (send_stream_with_id config link no_acks 7 3 3 (some reader)).0 ≡ none
unfolding send_stream_with_id should_await_acknowledge plan attempts_loop send_stream_attempt
    send_stream_once put_header put_uint write_all write_loop poll body_loop read
    register_pending_ack wait_for_acknowledge await_chan resolve_ack unregister_pending_ack
    is_closed lookup insert delete
config_sends = refl

plain_sends : (send_stream_with_id plain link no_acks 7 3 3 (some once)).0 ≡ none
unfolding send_stream_with_id should_await_acknowledge plan attempts_loop send_stream_attempt
    send_stream_once put_header put_uint write_all write_loop poll body_loop read
plain_sends = refl

plain_awaits : should_await_acknowledge plain.require_acknowledge 3 ≡ false
unfolding should_await_acknowledge
plain_awaits = refl

send_stream_with_id_whole_example :
    (junk : Bytes) × ((send_stream_with_id config link no_acks 7 3 3 (some reader)).1.sent
      ≡ (1 ∷ []) ++ (junk ++ frame 7 3 3 payload))
    × (3 ≤ 3)
send_stream_with_id_whole_example =
    send_stream_with_id_whole config link no_acks 7 3 3 reader (omega arith) config_sends

send_stream_with_id_live_example :
    ((send_stream_with_id plain link no_acks 7 3 3 (some reader)).0 ≡ none)
    × ((send_stream_with_id plain link no_acks 7 3 3 (some reader)).1.sent
        ≡ (1 ∷ []) ++ frame 7 3 3 payload)
send_stream_with_id_live_example =
    send_stream_with_id_live plain link no_acks 7 3 3 reader refl link-IsLive refl (omega arith)
      (omega arith) (inr (omega arith))

send_stream_with_id_bound_example :
    length (send_stream_with_id config link no_acks 7 3 3 (some reader)).1.sent ≤ 1 + 2 * 19
send_stream_with_id_bound_example = send_stream_with_id_bound config link no_acks 7 3 3 reader

send_stream_with_id_gone_example :
    lookup 7 (send_stream_with_id config link no_acks 7 3 3 (some reader)).2.pending_acks ≡ none
unfolding lookup
send_stream_with_id_gone_example =
    send_stream_with_id_gone config link no_acks 7 3 3 (some reader) refl

wait_for_acknowledge_iff_example :
    ((wait_for_acknowledge 7 (some 4) link acks).0 ≡ none)
    ↔ Acknowledged 7 (ack_received 8 ∷ ack_received 7 ∷ [])
unfolding lookup
wait_for_acknowledge_iff_example = wait_for_acknowledge_iff 7 4 link acks refl acks-Owns

abbrev message : Message
message = new_message 7 3 (10 ∷ 20 ∷ [])

message_sends :
    ((read_all message (ended eof)).0 ≡ ok (10 ∷ 20 ∷ []))
    × ((send plain link no_acks message (ended eof)).0 ≡ none)
unfolding send read_all new_message send_stream_with_id should_await_acknowledge plan attempts_loop
    send_stream_attempt send_stream_once put_header put_uint write_all write_loop poll body_loop
    read
message_sends = (refl, refl)
