-- ===== src/Vsock/Send.antt =====
-- vsock/stream.go: `SendStream` and what it is made of. An ID comes from the random source as a list
-- of candidates; `Seek` back to the start gives again the stream that stood there.
pub mod Body
pub mod Once
pub mod Attempts
pub mod WithId
use poprocks.Prelude.{
  ℕ, zero, suc, ◌+◌, ◌-◌, ◌*◌, ◌==◌, min, Bool, true, false, ◌&&◌, Option, none, some, List, [],
  ◌∷◌, length, if◌then◌else◌, Bytes,
}
use poprocks.Prelude.Int.{ℤ, pos, pos_part, ◌+ℤ◌, ltb_ℤ}
use poprocks.Vsock.Errors.{
  Error, Result, ok, err, eof, unexpected_eof, stalled, nil_transport, reader_required, id_required,
  message_too_large,
}
use poprocks.Vsock.Io.{Stream, read, weight}
use poprocks.Vsock.Wire.{header_length, put_header}
use poprocks.Vsock.Link.{Link, poll, write_all}
use poprocks.Vsock.Ack.{
  Acks, should_await_acknowledge, register_pending_ack, unregister_pending_ack,
  wait_for_acknowledge,
}

-- `make([]byte, 32*1024)`
abbrev pub buffer_size : ℕ
buffer_size = 32 * 1024

-- What an error of `r.Read` becomes, with so much of the payload still to come.
abbrev pub after_read : Error → ℕ → Option Error
after_read eof zero = none
after_read eof (suc n) = some unexpected_eof
after_read e n = some e

-- The copy loop of `sendStreamOnce`; `none` if the rounds run out.
unfoldable pub body_loop : ℕ → Link → ℕ → Stream → Option (Option Error × Link × Stream)
body_loop zero l remaining r = none
body_loop (suc rounds) l remaining r =
    let (stop, l') = poll l in
    let (bs, e, r') = read r (min buffer_size remaining) in
    let (failed, l'') = write_all l' bs in
    let remaining' = remaining - length bs in
    let rest = body_loop rounds l'' remaining' r' in
    if remaining == 0
    then some (none, l, r)
    else if stop
    then some (some l.reason, l', r)
    else elim failed [
      | some x ↦ some (some x, l'', r')
      | none ↦ elim e [ some x ↦ some (after_read x remaining', l'', r') | none ↦ rest ]
    ]

abbrev pub or_stalled :
    Link → Stream → Option (Option Error × Link × Stream) → Option Error × Link × Stream
or_stalled l r none = (some stalled, l, r)
or_stalled l r (some x) = x

-- `sendStreamOnce`
unfoldable pub send_stream_once : Link → ℕ → ℕ → ℕ → Stream → Option Error × Link × Stream
send_stream_once l id msg_type payload_len r =
    let header = put_header (record { id = id; msg_type = msg_type; length = payload_len }) in
    let (e, l') = write_all l header in
    let body = or_stalled l' r (body_loop (suc (weight r)) l' payload_len r) in
    elim e [ some x ↦ (some x, l', r) | none ↦ body ]

-- An `io.Reader`, and if it is an `io.ReadSeeker` the errors of the next `Seek` calls.
pub record Reader : Type 0 where
  pub stream : Stream
  pub seeker : Option (List (Option Error))

-- What a send changes.
pub record Sender : Type 0 where
  pub link : Link
  pub acks : Acks
  pub reader : Reader

abbrev pub Outcome : Type 0
Outcome = Option Error × Sender

-- `sendStreamAttempt`
unfoldable pub send_stream_attempt : Sender → ℕ → ℕ → ℕ → Bool → Outcome
send_stream_attempt s id msg_type payload_len false =
    let (e, l, r) = send_stream_once s.link id msg_type payload_len s.reader.stream in
    (e, record s { link = l; reader = record s.reader { stream = r } })
send_stream_attempt s id msg_type payload_len true =
    let (wait, acks) = register_pending_ack id s.acks in
    let (e, l, r) = send_stream_once s.link id msg_type payload_len s.reader.stream in
    let reader = record s.reader { stream = r } in
    elim e [
      | some x ↦ (
        some x,
        record s { link = l; acks = unregister_pending_ack id wait acks; reader = reader },
      )
      | none ↦
          let (e', l', acks') = wait_for_acknowledge id (some wait) l acks in
          (e', record s { link = l'; acks = acks'; reader = reader })
    ]

-- `Seek` to where the reader reads `start`; a reader with no `Seek` is never asked.
abbrev pub seek : Stream → Reader → Option Error × Reader
seek start r = elim r.seeker [
  | none ↦ (none, record r { stream = start })
  | some [] ↦ (none, record r { stream = start })
  | some (none ∷ later) ↦ (none, record r { stream = start; seeker = some later })
  | some (some e ∷ later) ↦ (some e, record r { seeker = some later })
]

-- Every attempt but the first seeks back.
abbrev pub sought : Bool → Stream → Reader → Option Error × Reader
sought true start r = seek start r
sought false start r = (none, r)

-- The attempts of `SendStreamWithID` that are left, the first of which seeks back or not.
unfoldable pub attempts_loop : ℕ → Bool → Stream → Sender → ℕ → ℕ → ℕ → Bool → Outcome
attempts_loop zero again start s id msg_type payload_len await_ack = (none, s)
attempts_loop (suc left) again start s id msg_type payload_len await_ack =
    let (failed, reader) = sought again start s.reader in
    let (e, s') =
      send_stream_attempt (record s { reader = reader }) id msg_type payload_len await_ack in
    let (stop, l) = poll s'.link in
    let s'' = record s' { link = l } in
    let rest = attempts_loop left true start s'' id msg_type payload_len await_ack in
    elim failed [
      | some x ↦ (some x, record s { reader = reader })
      | none ↦ elim e [
        | none ↦ (none, s')
        | some x ↦
            if stop then (some s'.link.reason, s'') else if left == 0 then (some x, s'') else rest
      ]
    ]

-- The fields of `MessengerConfig`; a duration is in nanoseconds.
pub record MessengerConfig : Type 0 where
  pub require_acknowledge : Bool
  pub timeout : ℤ
  pub max_retries : ℤ
  pub max_message_size : ℤ
  pub max_message_size_received : ℤ

-- `SendStreamWithID` up to its loop: the error of `Seek(0, io.SeekCurrent)`, the attempts, and the
-- reader. Only an acknowledged send from a reader that seeks has more than one attempt.
unfoldable pub plan : MessengerConfig → Reader → Bool → Option Error × ℕ × Reader
plan c r false = (none, 1, r)
plan c r true = elim r.seeker [
  | none ↦ (none, 1, r)
  | some _ ↦ let (failed, r') = seek r.stream r in (failed, pos_part (pos 1 +ℤ c.max_retries), r')
]

-- `SendStreamWithID` on a connection; a nil reader is none.
unfoldable pub send_stream_with_id :
    MessengerConfig
    → Link
    → Acks
    → ℕ
    → ℕ
    → ℕ
    → Option Reader
    → Option Error × Link × Acks × Option Reader
send_stream_with_id c l a id msg_type payload_len none = (some reader_required, l, a, none)
send_stream_with_id c l a id msg_type payload_len (some r) =
    let await_ack = should_await_acknowledge c.require_acknowledge msg_type in
    let (failed, attempts, r') = plan c r await_ack in
    let s : Sender = record { link = l; acks = a; reader = r' } in
    let (e, s') = attempts_loop attempts false r.stream s id msg_type payload_len await_ack in
    if id == 0
    then (some id_required, l, a, some r)
    else if ltb_ℤ (pos 0) c.max_message_size
        && ltb_ℤ c.max_message_size (pos (header_length + payload_len))
    then (some message_too_large, l, a, some r)
    else elim failed [
      | some x ↦ (some x, l, a, some r')
      | none ↦ (e, s'.link, s'.acks, some s'.reader)
    ]
