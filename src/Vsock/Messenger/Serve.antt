-- ===== src/Vsock/Messenger/Serve.antt =====
-- One message in `handleMessage` of vsock/messenger.go, on a connection that goes on behind it.
use poprocks.Prelude.{
  ℕ, ◌≡◌, refl, sym, ap, ◌∙◌, ◌⊎◌, inl, inr, true, false, Option, none, some, Option-cases,
  Bool-cases, ◌==◌, arith, nat_eq, lookup, take, take-take,
}
use poprocks.Vsock.Errors.{Error, eof}
use poprocks.Vsock.Io.{Stream, content, failure, bytes_reader}
use poprocks.Vsock.Io.Laws.{content-bytes_reader, failure-bytes_reader}
use poprocks.Vsock.Wire.{Header}
use poprocks.Vsock.Message.{Message, new_message_from_header, sink, write_to}
use poprocks.Vsock.Message.Laws.{LeavesRest, write_to-new_message_from_header}
use poprocks.Vsock.Ack.{acknowledge_type_id, resolve_ack}
use poprocks.Vsock.Request.{Requests, resolve_response, deliver}
use poprocks.Vsock.Messenger.{
  Handler, Handlers, State, send_acknowledge, run_handler, handle_message,
}

-- The payload of a message off the connection, as a connection of its own.
abbrev pub alone : Header → Stream → Stream
alone h conn = bytes_reader (take h.length (content conn))

-- A handler that reads its own message only, and goes by what it reads, not by how it came.
pub record IsRespectful {ℓ} {S : Type ℓ} (f : Handler S) : Type ℓ where
  pub same_error :
      (s : S) (h : Header) (conn : Stream)
      → failure conn ≡ eof
      → (f s (new_message_from_header h) conn).0
        ≡ (f s (new_message_from_header h) (alone h conn)).0
  pub same_state :
      (s : S) (h : Header) (conn : Stream)
      → failure conn ≡ eof
      → (f s (new_message_from_header h) conn).1
        ≡ (f s (new_message_from_header h) (alone h conn)).1
  pub leaves_rest :
      (s : S) (h : Header) (conn : Stream)
      → failure conn ≡ eof
      → LeavesRest h conn
          (f s (new_message_from_header h) conn).2
          (f s (new_message_from_header h) conn).3

-- All that are registered are.
pub record AreRespectful {ℓ} {S : Type ℓ} (d : Handlers S) : Type ℓ where
  pub of_type : (t : ℕ) (f : Handler S) → lookup t d.receivers ≡ some f → IsRespectful f
  pub of_unknown : (f : Handler S) → d.unknown ≡ some f → IsRespectful f

pub untouched :
    (h : Header) (conn : Stream)
    → failure conn ≡ eof
    → LeavesRest h conn (new_message_from_header h) conn
unfolding new_message_from_header
untouched h conn e = record { behind = refl; ends = e; reader_ends = e }

pub same_payload :
    (h : Header) (conn : Stream)
    → take h.length (content (alone h conn)) ≡ take h.length (content conn)
same_payload h conn =
    ap (take h.length) (content-bytes_reader _) ∙ take-take h.length (content conn)

-- `resolveResponse` goes by the payload, too: it leaves a message alone, or takes it whole.
abbrev Resolution : Header → Stream → Requests → Type 0
Resolution h conn q =
    let m = new_message_from_header h in
    ((resolve_response m conn q ≡ (false, none, q, m, conn))
      × (resolve_response m (alone h conn) q ≡ (false, none, q, m, alone h conn)))
    ⊎ ((q' : Requests) × (resolve_response m conn q
          ≡ (true, none, q', (write_to m sink conn).2, (write_to m sink conn).3))
        × (resolve_response m (alone h conn) q ≡ (
          true,
          none,
          q',
          (write_to m sink (alone h conn)).2,
          (write_to m sink (alone h conn)).3,
        )))

resolve-alone :
    (h : Header) (conn : Stream) (q : Requests) → failure conn ≡ eof → Resolution h conn q
unfolding resolve_response
resolve-alone h conn q e =
    let m = new_message_from_header h in
    let (p, w, _) = write_to-new_message_from_header h conn e in
    let (p', w', _) = write_to-new_message_from_header h (alone h conn) (failure-bytes_reader _) in
    let same : (write_to m sink conn).0 ≡ (write_to m sink (alone h conn)).0 =
      p ∙ sym (same_payload h conn) ∙ sym p' in
    elim (Option-cases (lookup m.id q.pending_responses)) [
      | inl n ↦ inl (ground arith, ground arith)
      | inr (entry, s) ↦ elim (Bool-cases (entry.msg_type == m.msg_type)) [
        | inl hit ↦
            inr (deliver m entry (write_to m sink conn).0 q, ground arith, ground (arith, same))
        | inr miss ↦ inl (ground arith, ground arith)
      ]
    ]

-- What two runs of a handler on the same message agree on: `r` over the connection, `r'` alone.
pub record Agree {ℓ} {S : Type ℓ} (h : Header) (conn : Stream)
    (r r' : Option Error × State S × Message × Stream) : Type ℓ where
  pub errors : r.0 ≡ r'.0
  pub states : r.1 ≡ r'.1
  pub rest : LeavesRest h conn r.2 r.3

Agree-by {ℓ} :
    {S : Type ℓ} {h : Header} {conn : Stream}
    {r r' x x' : Option Error × State S × Message × Stream}
    → r ≡ x
    → r' ≡ x'
    → Agree h conn x x'
    → Agree h conn r r'
Agree-by e e' a = rw (e, e') a

module _ {ℓ} {S : Type ℓ} where
  run_handler_rest :
      (f : Handler S) (st : State S) (m : Message) (conn : Stream)
      → ((run_handler f st m conn).2 ≡ (f st.user m conn).2)
        × ((run_handler f st m conn).3 ≡ (f st.user m conn).3)
  unfolding run_handler
  run_handler_rest f st m conn = elim (Option-cases (f st.user m conn).0) [
    | inl n ↦ (rw (n, run_handler), rw (n, run_handler))
    | inr (c, n) ↦ (rw (n, run_handler), rw (n, run_handler))
  ]

  run_handler_cases :
      (f : Handler S) (st : State S) (m : Message) (conn conn' : Stream)
      → (f st.user m conn).0 ≡ (f st.user m conn').0
      → (f st.user m conn).1 ≡ (f st.user m conn').1
      → ((run_handler f st m conn).0 ≡ (run_handler f st m conn').0)
        × ((run_handler f st m conn).1 ≡ (run_handler f st m conn').1)
  unfolding run_handler
  run_handler_cases f st m conn conn' x y = (ground arith, ground arith)

  run_alone :
      (f : Handler S) (st : State S) (h : Header) (conn : Stream)
      → IsRespectful f
      → failure conn ≡ eof
      → let m = new_message_from_header h in
        Agree h conn (run_handler f st m conn) (run_handler f st m (alone h conn))
  run_alone f st h conn v e =
      let m = new_message_from_header h in
      let c =
        run_handler_cases f st m conn (alone h conn) (v.same_error st.user h conn e)
          (v.same_state st.user h conn e) in
      record {
        errors = c.0;
        states = c.1;
        rest =
            rw ((run_handler_rest f st m conn).0, (run_handler_rest f st m conn).1)
              (v.leaves_rest st.user h conn e);
      }

  module _ (d : Handlers S) (ok_handlers : AreRespectful d) where
    -- Handling a message depends on its header and payload alone, and leaves the rest of the
    -- connection as it is.
    pub handle_alone :
        (st : State S) (h : Header) (conn : Stream)
        → failure conn ≡ eof
        → let m = new_message_from_header h in
          Agree h conn (handle_message d st m conn) (handle_message d st m (alone h conn))
    unfolding handle_message
    handle_alone st h conn e =
        let m = new_message_from_header h in
        let q = st.requests in
        let acked : State S = send_acknowledge m st in
        let dispatched : (c : Stream) → Option Error × State S × Message × Stream =
          λ c. (none, acked, m, c) in
        let resolved : State S → Stream → Option Error × State S × Message × Stream =
          λ s c. (none, s, (write_to m sink c).2, (write_to m sink c).3) in
        let cleared : State S = record st { acks = resolve_ack m.id st.acks } in
        let here : Stream = conn in
        let there : Stream = alone h conn in
        elim (resolve-alone h conn q e) [
          | inl (r, r') ↦ elim (Bool-cases (m.msg_type == acknowledge_type_id)) [
            | inl a ↦
                Agree-by {x = (none, cleared, m, here)} {x' = (none, cleared, m, there)}
                  (ground arith) (ground arith)
                  (record { errors = refl; states = refl; rest = untouched h conn e })
            | inr a ↦ elim (Option-cases (lookup m.msg_type d.receivers)) [
              | inr (f, l) ↦
                  Agree-by {x = run_handler f st m here} {x' = run_handler f st m there}
                    (ground arith) (ground arith)
                    (run_alone f st h conn (ok_handlers.of_type m.msg_type f l) e)
              | inl l ↦ elim (Option-cases d.unknown) [
                | inr (f, u) ↦
                    Agree-by {x = run_handler f st m here} {x' = run_handler f st m there}
                      (ground arith) (ground arith)
                      (run_alone f st h conn (ok_handlers.of_unknown f u) e)
                | inl u ↦
                    Agree-by {x = dispatched here} {x' = dispatched there} (ground arith)
                      (ground arith)
                      (record { errors = refl; states = refl; rest = untouched h conn e })
              ]
            ]
          ]
          | inr (q', r, r') ↦
              Agree-by {x = resolved (send_acknowledge m (record st { requests = q' })) here}
                {x' = resolved (send_acknowledge m (record st { requests = q' })) there}
                (ground arith) (ground arith)
                (record {
                  errors = refl;
                  states = refl;
                  rest = (write_to-new_message_from_header h conn e).2;
                })
        ]
