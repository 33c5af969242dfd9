-- ===== src/Vsock/Request/Answer.antt =====
-- `request` of vsock/request.go, when the response comes after messages that are not for it.
use poprocks.Prelude.{
  ℕ, ◌≡◌, ◌≢◌, inl, inr, Option, none, some, Option-cases, List, [], ◌∷◌, ◌++◌, arith, nat_eq,
  lookup, lookup-insert, lookup-delete, lookup-insert_self, All,
}
use poprocks.Vsock.Errors.{Error, ok}
use poprocks.Vsock.Io.{Stream}
use poprocks.Vsock.Message.{Message, sink, write_to}
use poprocks.Vsock.Request.{
  PendingResponse, Requests, registered, register_pending_response, piped, resolve_response,
  RespEvent, incoming, ctx_done, await_response, request,
}
use poprocks.Vsock.Request.Laws.{IsFresh, resolve_response_delivers}

-- A message with another ID.
abbrev pub IsOther : ℕ → RespEvent → Type 0
IsOther id (incoming m conn) = m.id ≢ id
IsOther id (ctx_done e) = ⊥

-- The channel `ch` is for the response to `id` only, and nothing has come on it.
record IsOpen (id msg_type ch : ℕ) (q : Requests) : Type 0 where
  entry : lookup id q.pending_responses ≡ some (record { msg_type = msg_type; ch = ch })
  silent : lookup ch q.delivered ≡ none
  alone : (j : ℕ) (p : PendingResponse) → lookup j q.pending_responses ≡ some p → p.ch ≡ ch → j ≡ id

module _ (id t ch : ℕ) where
  resolve-IsOpen :
      (m : Message) (conn : Stream) (q : Requests)
      → m.id ≢ id
      → IsOpen id t ch q
      → IsOpen id t ch (resolve_response m conn q).2
  unfolding resolve_response
  resolve-IsOpen m conn q other o =
      let body = (write_to m sink conn).0 in
      let own = o.entry in
      let silent = o.silent in
      record {
        entry = ground (arith, lookup-delete m.id id q.pending_responses);
        silent = elim (Option-cases (lookup m.id q.pending_responses)) [
          | inl n ↦ ground arith
          | inr (p, s) ↦
              ground (arith, o.alone m.id p s, lookup-insert p.ch ch (piped m body) q.delivered)
        ];
        alone = λ j p h same. ground (arith, o.alone j p, lookup-delete m.id j q.pending_responses);
      }

  await_response_comes :
      (before after : List RespEvent) (m : Message) (conn : Stream) (q : Requests)
      → All (IsOther id) before
      → IsOpen id t ch q
      → m.id ≡ id
      → m.msg_type ≡ t
      → (write_to m sink conn).1 ≡ none
      → (await_response ch (before ++ (incoming m conn ∷ after)) q).0
        ≡ some (ok (piped m (write_to m sink conn).0))
  unfolding await_response
  await_response_comes [] after m conn q b o i k w =
      let own = o.entry in
      let silent = o.silent in
      let p : PendingResponse = record { msg_type = t; ch = ch } in
      let (x, y, z) = resolve_response_delivers m conn q p (ground arith) (ground arith) w in
      rw (silent, await_response)
        (await_response_first ch after (resolve_response m conn q).2
          (piped m (write_to m sink conn).0) z)
    where
      await_response_first :
          (ch : ℕ) (es : List RespEvent) (q : Requests) (r : Message)
          → lookup ch q.delivered ≡ some r
          → (await_response ch es q).0 ≡ some (ok r)
      await_response_first ch [] q r h = ground arith
      await_response_first ch (ctx_done e ∷ es) q r h = ground arith
      await_response_first ch (incoming m conn ∷ es) q r h = ground arith
  await_response_comes (incoming m' conn' ∷ before) after m conn q b o i k w =
      let silent = o.silent in
      rw (silent, await_response)
        (await_response_comes before after m conn (resolve_response m' conn' q).2 b.1
          (resolve-IsOpen m' conn' q b.0 o) i k w)
  await_response_comes (ctx_done e ∷ before) after m conn q b o i k w = absurd b.0

registered-IsOpen :
    (id t : ℕ) (q : Requests) → IsFresh q → IsOpen id t q.next_chan (registered id t q)
registered-IsOpen id t q f =
    let own : PendingResponse = record { msg_type = t; ch = q.next_chan } in
    record {
      entry = lookup-insert_self id own q.pending_responses;
      silent = elim (Option-cases (lookup q.next_chan q.delivered)) [
        | inl n ↦ n
        | inr (m, s) ↦ absurd (omega (arith, f.channels q.next_chan m s))
      ];
      alone =
          λ j p h same. ground (arith, lookup-insert id j own q.pending_responses, f.entries j p);
    }

-- A request that was sent returns the message with its ID and the type that it asked for, when the
-- message comes, whatever comes before with other IDs.
pub request_answered {ℓ} :
    {W : Type ℓ} (id t : ℕ) (send : W → Option Error × W) (before after : List RespEvent)
    (m : Message) (conn : Stream) (q : Requests) (w : W)
    → IsFresh q
    → lookup id q.pending_responses ≡ none
    → (send w).0 ≡ none
    → All (IsOther id) before
    → m.id ≡ id
    → m.msg_type ≡ t
    → (write_to m sink conn).1 ≡ none
    → (request id t send (before ++ (incoming m conn ∷ after)) q w).0
      ≡ some (ok (piped m (write_to m sink conn).0))
unfolding request register_pending_response
request_answered id t send before after m conn q w f n sent b i k e =
    let comes =
      await_response_comes id t q.next_chan before after m conn (registered id t q) b
        (registered-IsOpen id t q f) i k e in
    ground arith
