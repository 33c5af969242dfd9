-- ===== src/Vsock/Request.antt =====
-- vsock/request.go: requests that wait for the response with their ID and type. The pipe behind a
-- response is read to its end by whoever asked for it.
pub mod Laws
pub mod Answer
pub mod Origin
use poprocks.Prelude.{
  ℕ, suc, ◌==◌, Bool, true, false, ◌&&◌, not, Option, none, some, List, [], ◌∷◌, length,
  if◌then◌else◌, GoMap, lookup, insert, delete, nat_eq,
}
use poprocks.Vsock.Errors.{
  Error, Result, ok, err, duplicate_message_id, nil_message, invalid_type_id, reader_required,
}
use poprocks.Vsock.Io.{Stream}
use poprocks.Vsock.Message.{Message, own_bytes, sink, write_to}

pub record PendingResponse : Type 0 where
  pub msg_type : ℕ
  pub ch : ℕ

-- A channel holds one message at most, and is closed behind it.
pub record Requests : Type 0 where
  pub pending_responses : GoMap ℕ PendingResponse
  pub next_chan : ℕ
  pub delivered : GoMap ℕ Message

-- `m.pendingResponses[id] = pendingResponse{…}`, with a channel of its own.
abbrev pub registered : ℕ → ℕ → Requests → Requests
registered id msg_type q = record q {
  pending_responses =
      insert id (record { msg_type = msg_type; ch = q.next_chan }) q.pending_responses;
  next_chan = suc q.next_chan;
}

-- `registerPendingResponse`
unfoldable pub register_pending_response : ℕ → ℕ → Requests → Result ℕ × Requests
register_pending_response id msg_type q = elim (lookup id q.pending_responses) [
  | some _ ↦ (err duplicate_message_id, q)
  | none ↦ (ok q.next_chan, registered id msg_type q)
]

-- `unregisterPendingResponse`
unfoldable pub unregister_pending_response : ℕ → ℕ → Requests → Requests
unregister_pending_response id ch q = elim (lookup id q.pending_responses) [
  | none ↦ q
  | some current ↦
      if current.ch == ch then record q { pending_responses = delete id q.pending_responses } else q
]

-- The message at the other end of the pipe, once `p` has been written into it and it was closed.
abbrev pub piped : Message → List ℕ → Message
piped m p = record { header = m.header; payload_reader = some (own_bytes p); payload_cache = none }

abbrev pub deliver : Message → PendingResponse → List ℕ → Requests → Requests
deliver m entry p q = record q {
  pending_responses = delete m.id q.pending_responses;
  delivered = insert entry.ch (piped m p) q.delivered;
}

-- `resolveResponse`: whether the message was a response that somebody waits for.
unfoldable pub resolve_response :
    Message → Stream → Requests → Bool × Option Error × Requests × Message × Stream
resolve_response m conn q =
    let (p, e, m', conn') = write_to m sink conn in
    elim (lookup m.id q.pending_responses) [
      | none ↦ (false, none, q, m, conn)
      | some entry ↦
          if entry.msg_type == m.msg_type
          then elim e [
            | none ↦ (true, none, deliver m entry p q, m', conn')
            | some x ↦ (false, some x, deliver m entry p q, m', conn')
          ]
          else (false, none, q, m, conn)
    ]

-- What happens while a request waits: `Serve` has a message off its connection, or the context ends.
pub data RespEvent : Type 0 where
  incoming : Message → Stream → RespEvent
  ctx_done : Error → RespEvent

-- The `select` of `request`; `none` if it waits for ever.
unfoldable pub await_response : ℕ → List RespEvent → Requests → Option (Result Message) × Requests
await_response ch [] q = elim (lookup ch q.delivered) [
  | some m ↦ (some (ok m), q)
  | none ↦ (none, q)
]
await_response ch (ctx_done e ∷ es) q = elim (lookup ch q.delivered) [
  | some m ↦ (some (ok m), q)
  | none ↦ (some (err e), q)
]
await_response ch (incoming m conn ∷ es) q =
    let rest = await_response ch es (resolve_response m conn q).2 in
    elim (lookup ch q.delivered) [ some r ↦ (some (ok r), q) | none ↦ rest ]

-- `request`, which unregisters when it returns: what `send` does to the rest of the state is its own affair.
unfoldable pub request {ℓ} :
    {W : Type ℓ}
    → ℕ
    → ℕ
    → (W → Option Error × W)
    → List RespEvent
    → Requests
    → W
    → Option (Result Message) × Requests × W
request id response_type send es q w =
    let (wait, q') = register_pending_response id response_type q in
    let (e, w') = send w in
    elim wait [
      | err x ↦ (some (err x), q', w)
      | ok ch ↦ elim e [
        | some x ↦ (some (err x), unregister_pending_response id ch q', w')
        | none ↦
            let (r, q'') = await_response ch es q' in
            elim r [
              | none ↦ (none, q'', w')
              | some x ↦ (some x, unregister_pending_response id ch q'', w')
            ]
      ]
    ]
