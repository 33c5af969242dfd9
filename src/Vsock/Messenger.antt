-- ===== src/Vsock/Messenger.antt =====
-- vsock/messenger.go and `readHeader` of vsock/stream.go. A handler is a function on the state `S`
-- of what the program registers, on the message, and on the connection that the message reads.
pub mod Config
pub mod Serve
pub mod Frames
pub mod Calls
pub mod Create
use poprocks.Prelude.{
  ℕ, zero, suc, ◌+◌, ◌*◌, ◌==◌, Bool, true, false, ◌&&◌, ◌||◌, Option, none, some, List, [], ◌∷◌,
  length, if◌then◌else◌, GoMap, lookup, insert, nat_eq, ◌%◌, ◌^◌,
}
use poprocks.Prelude.Int.{ℤ, pos, ltb_ℤ, leb_ℤ}
use poprocks.Vsock.Errors.{
  Error, Result, ok, err, or_err, nil_handler, invalid_type_id, handler_already_registered,
  id_required, received_too_large, negative_retries, negative_size, size_over_limit,
  timeout_required, eof, net_closed,
}
use poprocks.Vsock.Io.{Stream, content, read_full, bytes_reader}
use poprocks.Vsock.Wire.{Header, header_length, get_header}
use poprocks.Vsock.Message
use poprocks.Vsock.Message.{Message, new_message_from_header, drain}
use poprocks.Vsock.Link.{Link}
use poprocks.Vsock.Ack.{Acks, acknowledge_type_id, resolve_ack}
use poprocks.Vsock.Send.{Reader, MessengerConfig, send_stream_with_id}
use poprocks.Vsock.Request.{Requests, resolve_response}

abbrev pub default_max_message_size : ℕ
default_max_message_size = 4 * 1024 * 1024

abbrev pub absolute_max_message_size : ℕ
absolute_max_message_size = 64 * 1024 * 1024

-- `DefaultMessengerConfig`
abbrev pub default_messenger_config : MessengerConfig
default_messenger_config = record {
  require_acknowledge = false;
  timeout = pos (5 * 1000000000);
  max_retries = pos 3;
  max_message_size = pos default_max_message_size;
  max_message_size_received = pos default_max_message_size;
}

-- `(*MessengerConfig).Validate`
unfoldable pub validate : MessengerConfig → Option Error
validate c =
    let over = λ (n : ℤ). ltb_ℤ (pos absolute_max_message_size) n in
    if ltb_ℤ c.max_retries (pos 0)
    then some negative_retries
    else if ltb_ℤ c.max_message_size (pos 0) || ltb_ℤ c.max_message_size_received (pos 0)
    then some negative_size
    else if over c.max_message_size || over c.max_message_size_received
    then some size_over_limit
    else if c.require_acknowledge && leb_ℤ c.timeout (pos 0)
    then some timeout_required
    else none

-- `(*Messenger).Send`: the frame carries `uint32(len(payload))`.
unfoldable pub send :
    MessengerConfig → Link → Acks → Message → Stream → Option Error × Link × Acks × Message × Stream
send c l a m conn =
    let (p, m', conn') = Message.read_all m conn in
    elim p [
      | err x ↦ (some x, l, a, m', conn')
      | ok bs ↦
          let r : Reader = record { stream = bytes_reader bs; seeker = some [] } in
          let (e, l', a', _) =
            send_stream_with_id c l a m.id m.msg_type (length bs % 2 ^ 32) (some r) in
          (e, l', a', m', conn')
    ]

-- `readHeader`, by the limit on what is received.
unfoldable pub read_header : ℤ → Stream → Result Header × Stream
read_header max_received conn =
    let (bs, e, conn') = read_full conn header_length in
    let h = get_header bs in
    elim e [
      | some x ↦ (err x, conn')
      | none ↦
          if h.id == 0
          then (err id_required, conn')
          else if ltb_ℤ (pos 0) max_received && ltb_ℤ max_received (pos h.length)
          then (err received_too_large, conn')
          else (ok h, conn')
    ]

abbrev pub Handler {ℓ} : Type ℓ → Type ℓ
Handler S = S → Message → Stream → Option Error × S × Message × Stream

-- The handlers of a messenger.
pub record Handlers {ℓ} (S : Type ℓ) : Type ℓ where
  pub receivers : GoMap ℕ (Handler S)
  pub unknown : Option (Handler S)

-- What handling messages changes. `acknowledging` has the IDs of the acknowledgements that
-- goroutines were started for, the latest first.
pub record State {ℓ} (S : Type ℓ) : Type ℓ where
  pub user : S
  pub acks : Acks
  pub requests : Requests
  pub acknowledging : List ℕ

-- What `Serve` returns when `readHeader` fails, by `ctx.Err()` at that moment.
abbrev pub serve_end : Option Error → Error → Option Error
serve_end (some c) e = some c
serve_end none eof = none
serve_end none net_closed = none
serve_end none e = some e

-- The first of the errors of a round.
abbrev pub first_error : Option Error → Option Error → Option Error
first_error (some e) _ = some e
first_error none e = e

module _ {ℓ} {S : Type ℓ} where
  -- `OnUnknown`; a nil receiver is none.
  unfoldable pub on_unknown : Option (Handler S) → Handlers S → Option Error × Handlers S
  on_unknown none d = (some nil_handler, d)
  on_unknown (some f) d = (none, record d { unknown = some f })

  -- `OnReceive`
  unfoldable pub on_receive : ℕ → Option (Handler S) → Handlers S → Option Error × Handlers S
  on_receive t none d = (some nil_handler, d)
  on_receive t (some f) d =
      if t == 0 then (some invalid_type_id, d) else elim (lookup t d.receivers) [
        | some _ ↦ (some handler_already_registered, d)
        | none ↦ (none, record d { receivers = insert t f d.receivers })
      ]

  -- `sendAcknowledge` starts a goroutine that sends the acknowledgement, and returns nil.
  unfoldable pub send_acknowledge : Message → State S → State S
  send_acknowledge m st =
      if m.msg_type == acknowledge_type_id
      then st
      else record st { acknowledging = m.id ∷ st.acknowledging }

  -- What a handler does to the state, and the acknowledgement if it returns nil.
  unfoldable pub run_handler :
      Handler S → State S → Message → Stream → Option Error × State S × Message × Stream
  unfolding send_acknowledge
  run_handler f st m conn =
      let (e, u, m', conn') = f st.user m conn in
      let st' = record st { user = u } in
      elim e [
        | some x ↦ (some x, st', m', conn')
        | none ↦ (none, send_acknowledge m st', m', conn')
      ]

  -- `handleMessage`
  unfoldable pub handle_message :
      Handlers S → State S → Message → Stream → Option Error × State S × Message × Stream
  handle_message d st m conn =
      let (resolved, e, q, m', conn') = resolve_response m conn st.requests in
      let st' = record st { requests = q } in
      elim e [
        | some x ↦ (some x, st', m', conn')
        | none ↦
            if resolved
            then (none, send_acknowledge m st', m', conn')
            else if m.msg_type == acknowledge_type_id
            then (none, record st' { acks = resolve_ack m.id st'.acks }, m', conn')
            else elim (lookup m.msg_type d.receivers) [
              | some f ↦ run_handler f st' m' conn'
              | none ↦ elim d.unknown [
                | some f ↦ run_handler f st' m' conn'
                | none ↦ (none, send_acknowledge m st', m', conn')
              ]
            ]
      ]

  -- `Serve`: the error and the state when it returns; `none` if the rounds run out.
  unfoldable pub serve :
      ℕ → Option Error → ℤ → Handlers S → State S → Stream → Option (Option Error × State S)
  serve zero ctx_err max_received d st conn = none
  serve (suc rounds) ctx_err max_received d st conn =
      let (h, conn1) = read_header max_received conn in
      elim h [
        | err x ↦ some (serve_end ctx_err x, st)
        | ok hd ↦
            let (e, st', m, conn2) = handle_message d st (new_message_from_header hd) conn1 in
            let (e', _, conn3) = drain m conn2 in
            let rest = serve rounds ctx_err max_received d st' conn3 in
            elim (first_error e e') [ some x ↦ some (some x, st') | none ↦ rest ]
      ]
