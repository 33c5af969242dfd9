-- ===== src/Vsock/Ack/Laws.antt =====
-- `waitForAcknowledge` of vsock/ack.go.
use poprocks.Prelude.{
  ℕ, ◌≡◌, ◌≢◌, ◌⊎◌, ◌↔◌, inl, inr, true, false, none, some, Option-cases, List, [], ◌∷◌, arith,
  lookup, nat_eq, lookup-delete_self, lookup-delete,
}
use native.Mathlib.Decide.{ℕ_discrete}
use poprocks.Vsock.Link.{Link, WaitEvent, ack_received, ctx_done, timer_fired}
use poprocks.Vsock.Ack.{
  Acks, is_closed, unregister_pending_ack, resolve_ack, await_chan, next_wait, acknowledged,
  wait_for_acknowledge,
}

-- An acknowledgement of the message is among the events.
abbrev pub Acknowledged : ℕ → List WaitEvent → Type 0
Acknowledged id [] = ⊥
Acknowledged id (ack_received i ∷ es) = (i ≡ id) ⊎ Acknowledged id es
Acknowledged id (ctx_done ∷ es) = ⊥
Acknowledged id (timer_fired ∷ es) = ⊥

-- The channels of the table are open ones, and each stands at one ID: `ch` belongs to `id` alone.
pub record Owns (id ch : ℕ) (a : Acks) : Type 0 where
  pub is_open : is_closed ch a.closed ≡ false
  pub alone : (j : ℕ) → lookup j a.pending_acks ≡ some ch → j ≡ id

resolve_other : (id ch i : ℕ) (a : Acks) → i ≢ id → Owns id ch a → Owns id ch (resolve_ack i a)
unfolding resolve_ack is_closed
resolve_other id ch i a ne o = elim (Option-cases (lookup i a.pending_acks)) [
  | inl n ↦ rw (n, resolve_ack) o
  | inr (c, s) ↦
      rw (s, resolve_ack)
        (record {
          is_open = ground (arith, o.is_open, o.alone i);
          alone = λ j h. ground (arith, lookup-delete i j a.pending_acks, o.alone j);
        })
]

-- A wait succeeds only if an acknowledgement of its own message came before the context was done
-- and before the timer.
pub await_chan_only :
    (id ch : ℕ) (es : List WaitEvent) (a : Acks)
    → Owns id ch a
    → (await_chan ch es a).0 ≡ acknowledged
    → Acknowledged id es
unfolding await_chan
await_chan_only id ch [] a o e = ground (arith, o.is_open)
await_chan_only id ch (ack_received i ∷ es) a o e = elim (ℕ_discrete i id) [
  | yes p ↦ inl p
  | no ne ↦ inr (
      await_chan_only id ch es (resolve_ack i a) (resolve_other id ch i a ne o)
        (ground (arith, o.is_open)))
]
await_chan_only id ch (ctx_done ∷ es) a o e = ground (arith, o.is_open)
await_chan_only id ch (timer_fired ∷ es) a o e = ground (arith, o.is_open)

await_chan_closed :
    (ch : ℕ) (es : List WaitEvent) (a : Acks)
    → is_closed ch a.closed ≡ true
    → await_chan ch es a ≡ (acknowledged, a)
unfolding await_chan
await_chan_closed ch [] a h = ground arith
await_chan_closed ch (ack_received i ∷ es) a h = ground arith
await_chan_closed ch (ctx_done ∷ es) a h = ground arith
await_chan_closed ch (timer_fired ∷ es) a h = ground arith

resolve_closes :
    (id ch : ℕ) (a : Acks)
    → lookup id a.pending_acks ≡ some ch
    → is_closed ch (resolve_ack id a).closed ≡ true
unfolding resolve_ack is_closed
resolve_closes id ch a h = ground arith

resolve_keeps :
    (id ch i : ℕ) (a : Acks)
    → i ≢ id
    → lookup id a.pending_acks ≡ some ch
    → lookup id (resolve_ack i a).pending_acks ≡ some ch
unfolding resolve_ack
resolve_keeps id ch i a ne h = ground (arith, lookup-delete i id a.pending_acks)

-- And it succeeds whenever one did.
pub await_chan_if :
    (id ch : ℕ) (es : List WaitEvent) (a : Acks)
    → lookup id a.pending_acks ≡ some ch
    → Acknowledged id es
    → (await_chan ch es a).0 ≡ acknowledged
unfolding await_chan
await_chan_if id ch [] a h k = absurd k
await_chan_if id ch (ack_received i ∷ es) a h (inl p) =
    let now = await_chan_closed ch es (resolve_ack id a) (resolve_closes id ch a h) in
    ground (arith, now)
await_chan_if id ch (ack_received i ∷ es) a h (inr k) = elim (ℕ_discrete i id) [
  | yes p ↦
      let now = await_chan_closed ch es (resolve_ack id a) (resolve_closes id ch a h) in
      ground (arith, now)
  | no ne ↦
      ground (arith, await_chan_if id ch es (resolve_ack i a) (resolve_keeps id ch i a ne h) k)
]
await_chan_if id ch (ctx_done ∷ es) a h k = absurd k
await_chan_if id ch (timer_fired ∷ es) a h k = absurd k

-- The entry of a message is its own channel or gone.
abbrev Registered : ℕ → ℕ → Acks → Type 0
Registered id ch a = (lookup id a.pending_acks ≡ some ch) ⊎ (lookup id a.pending_acks ≡ none)

resolve-Registered :
    (id ch i : ℕ) (a : Acks) → Registered id ch a → Registered id ch (resolve_ack i a)
unfolding resolve_ack
resolve-Registered id ch i a h = ground (arith, lookup-delete i id a.pending_acks)

await_chan-Registered :
    (id ch : ℕ) (es : List WaitEvent) (a : Acks)
    → Registered id ch a
    → Registered id ch (await_chan ch es a).1
unfolding await_chan
await_chan-Registered id ch [] a h = ground arith
await_chan-Registered id ch (ack_received i ∷ es) a h =
    ground
      (arith, await_chan-Registered id ch es (resolve_ack i a) (resolve-Registered id ch i a h))
await_chan-Registered id ch (ctx_done ∷ es) a h = ground arith
await_chan-Registered id ch (timer_fired ∷ es) a h = ground arith

pub unregister_gone :
    (id ch : ℕ) (a : Acks)
    → Registered id ch a
    → lookup id (unregister_pending_ack id ch a).pending_acks ≡ none
unfolding unregister_pending_ack
unregister_gone id ch a h = ground (arith, lookup-delete_self id a.pending_acks)

-- However `waitForAcknowledge` ends, the entry of its message is gone from the table, if it was
-- the registered one.
pub wait_for_acknowledge_gone :
    (id ch : ℕ) (l : Link) (a : Acks)
    → lookup id a.pending_acks ≡ some ch
    → lookup id (wait_for_acknowledge id (some ch) l a).2.pending_acks ≡ none
unfolding wait_for_acknowledge
wait_for_acknowledge_gone id ch l a h =
    unregister_gone id ch _ (await_chan-Registered id ch (next_wait l).0 a (inl h))

-- `waitForAcknowledge` returns nil exactly when an acknowledgement of its message is among the
-- events before the context is done and before the timer fires, if the channel is open, and
-- registered for its message alone.
pub wait_for_acknowledge_iff :
    (id ch : ℕ) (l : Link) (a : Acks)
    → lookup id a.pending_acks ≡ some ch
    → Owns id ch a
    → ((wait_for_acknowledge id (some ch) l a).0 ≡ none) ↔ Acknowledged id (next_wait l).0
unfolding wait_for_acknowledge
wait_for_acknowledge_iff id ch l a h o = (
  λ e. await_chan_only id ch (next_wait l).0 a o (ground arith),
  λ k. ground (arith, await_chan_if id ch (next_wait l).0 a h k),
)
