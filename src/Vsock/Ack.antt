-- ===== src/Vsock/Ack.antt =====
-- vsock/ack.go: the table of sends that wait for an acknowledgement. A channel is a number, and is
-- closed once it stands in `closed`.
pub mod Laws
use poprocks.Prelude.{
  ℕ, suc, ◌==◌, Bool, true, false, ◌&&◌, ◌||◌, not, Option, none, some, List, [], ◌∷◌,
  if◌then◌else◌, GoMap, lookup, insert, delete, nat_eq,
}
use poprocks.Vsock.Errors.{Error, ack_channel_required, ack_timeout}
use poprocks.Vsock.Link.{Link, WaitEvent, ack_received, ctx_done, timer_fired}

abbrev pub acknowledge_type_id : ℕ
acknowledge_type_id = 0xFFFF_FFFF

pub record Acks : Type 0 where
  pub pending_acks : GoMap ℕ ℕ
  -- The next channel that `make` gives.
  pub next_chan : ℕ
  pub closed : List ℕ

unfoldable pub is_closed : ℕ → List ℕ → Bool
is_closed ch [] = false
is_closed ch (c ∷ cs) = (c == ch) || is_closed ch cs

-- `shouldAwaitAcknowledge`, by the messenger's `RequireAcknowledge`.
unfoldable pub should_await_acknowledge : Bool → ℕ → Bool
should_await_acknowledge require_acknowledge msg_type =
    require_acknowledge && not (msg_type == acknowledge_type_id)

-- `registerPendingAck`
unfoldable pub register_pending_ack : ℕ → Acks → ℕ × Acks
register_pending_ack id a = (
  a.next_chan,
  record a { pending_acks = insert id a.next_chan a.pending_acks; next_chan = suc a.next_chan },
)

-- `unregisterPendingAck`
unfoldable pub unregister_pending_ack : ℕ → ℕ → Acks → Acks
unregister_pending_ack id ch a = elim (lookup id a.pending_acks) [
  | none ↦ a
  | some current ↦ if current == ch then record a { pending_acks = delete id a.pending_acks } else a
]

-- `resolveAck`
unfoldable pub resolve_ack : ℕ → Acks → Acks
resolve_ack id a = elim (lookup id a.pending_acks) [
  | none ↦ a
  | some ch ↦ record a { pending_acks = delete id a.pending_acks; closed = ch ∷ a.closed }
]

-- The case that the `select` of `waitForAcknowledge` takes.
pub data WaitEnd : Type 0 where
  acknowledged done timed_out : WaitEnd

-- The `select`, by what happens; the timer fires when nothing else does.
unfoldable pub await_chan : ℕ → List WaitEvent → Acks → WaitEnd × Acks
unfolding is_closed resolve_ack
await_chan ch [] a = if is_closed ch a.closed then (acknowledged, a) else (timed_out, a)
await_chan ch (ack_received id ∷ es) a =
    let rest = await_chan ch es (resolve_ack id a) in
    if is_closed ch a.closed then (acknowledged, a) else rest
await_chan ch (ctx_done ∷ es) a = if is_closed ch a.closed then (acknowledged, a) else (done, a)
await_chan ch (timer_fired ∷ es) a =
    if is_closed ch a.closed then (acknowledged, a) else (timed_out, a)

-- The next wait's events, and the link behind it.
abbrev pub next_wait : Link → List WaitEvent × Link
next_wait l = elim l.waits [ [] ↦ ([], l) | es ∷ rest ↦ (es, record l { waits = rest }) ]

-- What each case returns; a done context stays done.
abbrev pub wait_result : WaitEnd → Link → Option Error × Link
wait_result acknowledged l = (none, l)
wait_result done l = (some l.reason, record l { cancel_after = some 0 })
wait_result timed_out l = (some ack_timeout, l)

-- `waitForAcknowledge`, with its deferred `unregisterPendingAck`.
unfoldable pub wait_for_acknowledge : ℕ → Option ℕ → Link → Acks → Option Error × Link × Acks
unfolding await_chan unregister_pending_ack
wait_for_acknowledge id none l a = (some ack_channel_required, l, a)
wait_for_acknowledge id (some ch) l a =
    let (es, l') = next_wait l in
    let (end, a') = await_chan ch es a in
    let (e, l'') = wait_result end l' in (e, l'', unregister_pending_ack id ch a')
