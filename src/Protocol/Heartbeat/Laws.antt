-- ===== src/Protocol/Heartbeat/Laws.antt =====
-- `Validate` and the loop of vsock/protocol/common/heartbeat.go.
use poprocks.Prelude.{ℕ, ◌≡◌, ◌↔◌, Option, none, some, arith, if◌then◌else◌}
use poprocks.Prelude.Int.{pos, ◌<ℤ◌}
use poprocks.Vsock.Errors.{Error, Result, ok, err}
use poprocks.Protocol.Heartbeat.{
  HeartbeatConfig, validate, HeartbeatPayload, Heartbeat, start, on_health, set_status, stop, ping,
  round, handle_request, World, Step, calls_start, replaces_health, answers, rounds, finishes,
  Reaches, stays, goes, status_error, status_warning, unless_deadline, snapshot_health,
}

-- `Validate` lets exactly the intervals through that are positive and shorter than the timeout.
pub heartbeat_validate_iff :
    (c : HeartbeatConfig)
    → (validate c ≡ none) ↔ ((pos 0 <ℤ c.interval) × (c.interval <ℤ c.timeout))
unfolding validate
heartbeat_validate_iff c = (λ e. (ground arith, ground arith), λ v. ground (arith, v.0, v.1))

-- A heartbeat that is started has one loop, and one that is not has none.
abbrev pub HasOneLoop : {H : Type 0} → World H → Type 0
HasOneLoop w = w.loops ≡ (if w.heartbeat.started then 1 else 0)

started-round :
    {H : Type 0} (now later : ℕ) (answer : Result (HeartbeatPayload H)) (ctx_err : Option Error)
    (h : Heartbeat H)
    → (round now answer ctx_err later h).started ≡ h.started
unfolding round ping set_status snapshot_health
started-round now later answer ctx_err h = ground arith

Step-HasOneLoop : {H : Type 0} {w v : World H} → Step w v → HasOneLoop w → HasOneLoop v
unfolding start on_health stop handle_request
Step-HasOneLoop {w = w} calls_start h = ground arith
Step-HasOneLoop (replaces_health p) h = h
Step-HasOneLoop (answers now req) h = h
Step-HasOneLoop {w = w} (rounds now later answer ctx_err p) h =
    rw (started-round now later answer ctx_err w.heartbeat) h
Step-HasOneLoop {w = w} (finishes p) h = ground arith

-- Whatever is called, in whatever order and however often, a heartbeat that is started has one
-- goroutine in its loop, and one that is not has none, if that was so at the start.
pub Reaches-HasOneLoop : {H : Type 0} {w v : World H} → Reaches w v → HasOneLoop w → HasOneLoop v
Reaches-HasOneLoop stays h = h
Reaches-HasOneLoop (goes r s) h = Step-HasOneLoop s (Reaches-HasOneLoop r h)

-- The status behind a round of the heartbeat's loop, for every answer: the other side's if it
-- answered, an error if the context is done, a warning if the answer took too long, and an error
-- otherwise.
pub status-round :
    {H : Type 0} (now later : ℕ) (answer : Result (HeartbeatPayload H)) (ctx_err : Option Error)
    (h : Heartbeat H)
    → (round now answer ctx_err later h).state.status ≡ elim answer [
      | ok resp ↦ resp.status
      | err e ↦ elim ctx_err [
        | some x ↦ status_error
        | none ↦ elim (unless_deadline e) [ none ↦ status_warning | some x ↦ status_error ]
      ]
    ]
unfolding round ping set_status snapshot_health
status-round now later answer ctx_err h = ground arith
