-- ===== src/Vsock/Request/Laws.antt =====
-- `request` and `resolveResponse` of vsock/request.go.
use poprocks.Prelude.{
  ℕ, ◌<◌, ◌==◌, ◌≡◌, refl, ◌⊎◌, inl, inr, true, Option, none, some, Option-cases, Bool-cases, List,
  [], ◌∷◌, arith, nat_eq, lookup, lookup-insert, lookup-delete, lookup-insert_self,
  lookup-delete_self,
}
use native.Mathlib.Decide.{ℕ_discrete}
use poprocks.Vsock.Errors.{Error, Result, ok, err, duplicate_message_id}
use poprocks.Vsock.Io.{Stream}
use poprocks.Vsock.Message.{Message, sink, write_to}
use poprocks.Vsock.Request.{
  PendingResponse, Requests, registered, register_pending_response, unregister_pending_response,
  piped, resolve_response, RespEvent, incoming, ctx_done, await_response, request,
}

-- Channels are handed out once.
pub record IsFresh (q : Requests) : Type 0 where
  pub entries :
      (j : ℕ) (p : PendingResponse) → lookup j q.pending_responses ≡ some p → p.ch < q.next_chan
  pub channels : (c : ℕ) (m : Message) → lookup c q.delivered ≡ some m → c < q.next_chan

-- The channel `ch` is for the response to `id` of the given type, and for nothing else.
pub record Awaits (id msg_type ch : ℕ) (q : Requests) : Type 0 where
  pub entry :
      (j : ℕ) (p : PendingResponse)
      → lookup j q.pending_responses ≡ some p
      → p.ch ≡ ch
      → (j ≡ id) × (p.msg_type ≡ msg_type)
  pub message :
      (m : Message) → lookup ch q.delivered ≡ some m → (m.id ≡ id) × (m.msg_type ≡ msg_type)

pub resolve-Awaits :
    (id t ch : ℕ) (m : Message) (conn : Stream) (q : Requests)
    → Awaits id t ch q
    → Awaits id t ch (resolve_response m conn q).2
unfolding resolve_response
resolve-Awaits id t ch m conn q a = record {
  entry = λ j p h same. ground (arith, a.entry j p, lookup-delete m.id j q.pending_responses);
  message = λ r h. elim (Option-cases (lookup m.id q.pending_responses)) [
    | inl n ↦ ground (arith, a.message r)
    | inr (p, s) ↦
        let body = (write_to m sink conn).0 in
        ground
          (arith, a.message r, a.entry m.id p s, lookup-insert p.ch ch (piped m body) q.delivered)
  ];
}

await-Awaits :
    (id t ch : ℕ) (es : List RespEvent) (q : Requests) {r : Message}
    → Awaits id t ch q
    → (await_response ch es q).0 ≡ some (ok r)
    → (r.id ≡ id) × (r.msg_type ≡ t)
unfolding await_response
await-Awaits id t ch [] q {r} a e = elim (Option-cases (lookup ch q.delivered)) [
  | inl n ↦ ground arith
  | inr (m, s) ↦ ground (arith, a.message m s)
]
await-Awaits id t ch (ctx_done x ∷ es) q {r} a e = elim (Option-cases (lookup ch q.delivered)) [
  | inl n ↦ ground arith
  | inr (m, s) ↦ ground (arith, a.message m s)
]
await-Awaits id t ch (incoming m conn ∷ es) q {r} a e =
    elim (Option-cases (lookup ch q.delivered)) [
      | inl n ↦
          await-Awaits id t ch es (resolve_response m conn q).2 {r = r}
            (resolve-Awaits id t ch m conn q a) (ground arith)
      | inr (m', s) ↦ ground (arith, a.message m' s)
    ]

-- The entry of a request is its own or gone.
abbrev Registered : ℕ → ℕ → Requests → Type 0
Registered id ch q =
    (lookup id q.pending_responses ≡ none)
    ⊎ ((p : PendingResponse) × (lookup id q.pending_responses ≡ some p) × (p.ch ≡ ch))

resolve-Registered :
    (id ch : ℕ) (m : Message) (conn : Stream) (q : Requests)
    → Registered id ch q
    → Registered id ch (resolve_response m conn q).2
unfolding resolve_response
resolve-Registered id ch m conn q (inl n) =
    inl (ground (arith, lookup-delete m.id id q.pending_responses))
resolve-Registered id ch m conn q (inr (p, s, c)) = elim (ℕ_discrete m.id id) [
  | yes same ↦ elim (Bool-cases (p.msg_type == m.msg_type)) [
    | inl hit ↦ inl (ground (arith, lookup-delete m.id id q.pending_responses))
    | inr miss ↦ inr (p, ground arith, c)
  ]
  | no other ↦ inr (p, ground (arith, lookup-delete m.id id q.pending_responses), c)
]

await-Registered :
    (id ch : ℕ) (es : List RespEvent) (q : Requests)
    → Registered id ch q
    → Registered id ch (await_response ch es q).1
unfolding await_response
await-Registered id ch [] q h = elim (Option-cases (lookup ch q.delivered)) [
  | inl n ↦ rw (n, await_response) h
  | inr (m, s) ↦ rw (s, await_response) h
]
await-Registered id ch (ctx_done x ∷ es) q h = elim (Option-cases (lookup ch q.delivered)) [
  | inl n ↦ rw (n, await_response) h
  | inr (m, s) ↦ rw (s, await_response) h
]
await-Registered id ch (incoming m conn ∷ es) q h = elim (Option-cases (lookup ch q.delivered)) [
  | inl n ↦
      rw (n, await_response)
        (await-Registered id ch es (resolve_response m conn q).2
          (resolve-Registered id ch m conn q h))
  | inr (r, s) ↦ rw (s, await_response) h
]

unregister_gone :
    (id ch : ℕ) (q : Requests)
    → Registered id ch q
    → lookup id (unregister_pending_response id ch q).pending_responses ≡ none
unfolding unregister_pending_response
unregister_gone id ch q (inl n) = ground arith
unregister_gone id ch q (inr (p, s, c)) = ground (arith, lookup-delete_self id q.pending_responses)

-- A response that is waited for, by its ID and its type, and whose payload was read without an
-- error, is delivered to the channel of who waits with its payload, and nobody waits for it any
-- more.
pub resolve_response_delivers :
    (m : Message) (conn : Stream) (q : Requests) (p : PendingResponse)
    → lookup m.id q.pending_responses ≡ some p
    → p.msg_type ≡ m.msg_type
    → (write_to m sink conn).1 ≡ none
    → let r = resolve_response m conn q in
      (r.0 ≡ true)
      × (lookup m.id r.2.pending_responses ≡ none)
      × (lookup p.ch r.2.delivered ≡ some (piped m (write_to m sink conn).0))
unfolding resolve_response
resolve_response_delivers m conn q p s h w = (
  ground arith,
  ground (arith, lookup-delete_self m.id q.pending_responses),
  ground (arith, lookup-insert_self p.ch (piped m (write_to m sink conn).0) q.delivered),
)

pub registered-Awaits :
    (id t : ℕ) (q : Requests)
    → IsFresh q
    → lookup id q.pending_responses ≡ none
    → Awaits id t q.next_chan (registered id t q)
registered-Awaits id t q f n =
    let own : PendingResponse = record { msg_type = t; ch = q.next_chan } in
    record {
      entry =
          λ j p h same. ground (arith, lookup-insert id j own q.pending_responses, f.entries j p);
      message = λ m h. absurd (omega (arith, f.channels q.next_chan m h));
    }

registered-Registered : (id t : ℕ) (q : Requests) → Registered id q.next_chan (registered id t q)
registered-Registered id t q =
    let own : PendingResponse = record { msg_type = t; ch = q.next_chan } in
    inr (own, lookup-insert_self id own q.pending_responses, refl)

module _ {ℓ} {W : Type ℓ} (id t : ℕ) (send : W → Option Error × W) (es : List RespEvent)
    (q : Requests) (w : W) where
  -- A message that a request returns has the request's ID and the type that it asked for, if the
  -- channels in the tables were handed out before.
  pub request_matches :
      {r : Message}
      → IsFresh q
      → (request id t send es q w).0 ≡ some (ok r)
      → (r.id ≡ id) × (r.msg_type ≡ t)
  unfolding request register_pending_response
  request_matches {r} f e = elim (Option-cases (lookup id q.pending_responses)) [
    | inr (p, s) ↦ ground arith
    | inl n ↦
        let q' = registered id t q in
        await-Awaits id t q.next_chan es q' {r = r} (registered-Awaits id t q f n) (ground arith)
  ]

  -- A request with an ID that is already waited for is refused, and changes nothing.
  pub request_duplicate :
      (p : PendingResponse)
      → lookup id q.pending_responses ≡ some p
      → request id t send es q w ≡ (some (err duplicate_message_id), q, w)
  unfolding request register_pending_response
  request_duplicate p h = ground arith

  -- When a request has returned, nobody waits for its ID any more, if nobody did before.
  pub request_gone :
      (x : Result Message)
      → lookup id q.pending_responses ≡ none
      → (request id t send es q w).0 ≡ some x
      → lookup id (request id t send es q w).1.pending_responses ≡ none
  unfolding request register_pending_response
  request_gone x n returned =
      let ch = q.next_chan in
      let q' = registered id t q in
      let own = registered-Registered id t q in
      ground (
        arith,
        unregister_gone id ch q' own,
        unregister_gone id ch (await_response ch es q').1 (await-Registered id ch es q' own),
      )
