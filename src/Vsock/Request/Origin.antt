-- ===== src/Vsock/Request/Origin.antt =====
-- Where the message that `request` of vsock/request.go returns came from.
use poprocks.Prelude.{
  ℕ, ◌≡◌, refl, ap, ◌⊎◌, inl, inr, Option, none, some, Option-cases, List, [], ◌∷◌, ◌++◌, arith,
  nat_eq, lookup, lookup-insert,
}
use poprocks.Vsock.Errors.{Error, ok}
use poprocks.Vsock.Io.{Stream}
use poprocks.Vsock.Message.{Message, sink, write_to}
use poprocks.Vsock.Request.{
  Requests, registered, register_pending_response, piped, resolve_response, RespEvent, incoming,
  ctx_done, await_response, request,
}
use poprocks.Vsock.Request.Laws.{IsFresh, Awaits, resolve-Awaits, registered-Awaits}

-- The message came off the connection among the events, with this ID and this type, and `r` is it
-- with the payload that stood behind it.
pub record IsFrom (id msg_type : ℕ) (es : List RespEvent) (r : Message) : Type 0 where
  pub before : List RespEvent
  pub after : List RespEvent
  pub came : Message
  pub conn : Stream
  pub among : es ≡ before ++ (incoming came conn ∷ after)
  pub own_id : came.id ≡ id
  pub own_type : came.msg_type ≡ msg_type
  pub is : r ≡ piped came (write_to came sink conn).0

module _ (id t ch : ℕ) where
  later :
      (e : RespEvent) (es : List RespEvent) (r : Message)
      → IsFrom id t es r
      → IsFrom id t (e ∷ es) r
  later e es r f = record {
    before = e ∷ f.before;
    after = f.after;
    came = f.came;
    conn = f.conn;
    among = ap (λ x. e ∷ x) f.among;
    own_id = f.own_id;
    own_type = f.own_type;
    is = f.is;
  }

  -- What a message puts on the channel.
  resolve-IsFrom :
      (m : Message) (conn : Stream) (es : List RespEvent) (q : Requests) (r : Message)
      → Awaits id t ch q
      → lookup ch q.delivered ≡ none
      → lookup ch (resolve_response m conn q).2.delivered ≡ some r
      → IsFrom id t (incoming m conn ∷ es) r
  unfolding resolve_response
  resolve-IsFrom m conn es q r a silent h = elim (Option-cases (lookup m.id q.pending_responses)) [
    | inl n ↦ absurd (ground arith)
    | inr (p, s) ↦
        let body = (write_to m sink conn).0 in
        let put = lookup-insert p.ch ch (piped m body) q.delivered in
        record {
          before = [];
          after = es;
          came = m;
          conn = conn;
          among = refl;
          own_id = ground (arith, put, a.entry m.id p s);
          own_type = ground (arith, put, a.entry m.id p s);
          is = ground (arith, put);
        }
  ]

  await-IsFrom :
      (es : List RespEvent) (q : Requests) (r : Message)
      → Awaits id t ch q
      → (await_response ch es q).0 ≡ some (ok r)
      → (lookup ch q.delivered ≡ some r) ⊎ IsFrom id t es r
  unfolding await_response
  await-IsFrom [] q r a e = elim (Option-cases (lookup ch q.delivered)) [
    | inl n ↦ absurd (ground arith)
    | inr (m, s) ↦ inl (ground arith)
  ]
  await-IsFrom (ctx_done x ∷ es) q r a e = elim (Option-cases (lookup ch q.delivered)) [
    | inl n ↦ absurd (ground arith)
    | inr (m, s) ↦ inl (ground arith)
  ]
  await-IsFrom (incoming m conn ∷ es) q r a e = elim (Option-cases (lookup ch q.delivered)) [
    | inr (m', s) ↦ inl (ground arith)
    | inl n ↦
        elim (await-IsFrom es (resolve_response m conn q).2 r (resolve-Awaits id t ch m conn q a)
          (ground arith)) [
            | inl h ↦ inr (resolve-IsFrom m conn es q r a n h)
            | inr f ↦ inr (later (incoming m conn) es r f)
          ]
  ]

-- A message that a request returns is one that came off the connection while it waited, with its
-- ID and the type that it asked for, if the channels in the tables were handed out before.
pub request-IsFrom {ℓ} :
    {W : Type ℓ} (id t : ℕ) (send : W → Option Error × W) (es : List RespEvent) (q : Requests)
    (w : W) (r : Message)
    → IsFresh q
    → (request id t send es q w).0 ≡ some (ok r)
    → IsFrom id t es r
unfolding request register_pending_response
request-IsFrom id t send es q w r f e = elim (Option-cases (lookup id q.pending_responses)) [
  | inr (p, s) ↦ absurd (ground arith)
  | inl n ↦
      elim (await-IsFrom id t q.next_chan es (registered id t q) r (registered-Awaits id t q f n)
        (ground arith)) [
          | inr h ↦ h
          | inl h ↦ let old = f.channels q.next_chan r (ground arith) in absurd (omega arith)
        ]
]
