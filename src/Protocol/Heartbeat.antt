-- ===== src/Protocol/Heartbeat.antt =====
-- vsock/protocol/common/heartbeat.go. Times are numbers; the health map is of any type `H`, and nil
-- is `none`. Each operation holds the lock as long as it changes the state.
pub mod Laws
pub mod Create
pub mod Exchange
use poprocks.Prelude.{
  ℕ, suc, ◌+◌, ◌-◌, ◌<◌, ◌≡◌, Bool, true, false, Option, none, some, if◌then◌else◌,
}
use poprocks.Prelude.Int.{ℤ, pos, leb_ℤ}
use poprocks.Vsock.Errors.{Error, Result, ok, err, deadline_exceeded}

abbrev pub type_heartbeat : ℕ
type_heartbeat = 0xFFFF_1001

-- `HeartbeatStatusUnknown` and so on are the numbers from 0; a payload may hold any other.
abbrev pub status_ok : ℕ
status_ok = 1

abbrev pub status_warning : ℕ
status_warning = 2

abbrev pub status_error : ℕ
status_error = 3

abbrev pub status_starting : ℕ
status_starting = 4

abbrev pub status_stopping : ℕ
status_stopping = 5

pub record HeartbeatConfig : Type 0 where
  pub interval : ℤ
  pub timeout : ℤ

-- `DefaultHeartbeatConfig`
abbrev pub default_heartbeat_config : HeartbeatConfig
default_heartbeat_config = record { interval = pos 15000000000; timeout = pos 45000000000 }

pub data ConfigError : Type 0 where
  interval_not_positive timeout_not_positive timeout_not_longer : ConfigError

-- `(*HeartbeatConfig).Validate`
unfoldable pub validate : HeartbeatConfig → Option ConfigError
validate c =
    if leb_ℤ c.interval (pos 0)
    then some interval_not_positive
    else if leb_ℤ c.timeout (pos 0)
    then some timeout_not_positive
    else if leb_ℤ c.timeout c.interval
    then some timeout_not_longer
    else none

pub record HeartbeatState (H : Type 0) : Type 0 where
  pub sent : ℕ
  pub received : ℕ
  pub status : ℕ
  pub health : Option H

pub record HeartbeatPayload (H : Type 0) : Type 0 where
  pub sent_at : ℕ
  pub status : ℕ
  pub health : Option H

-- `provider` is what the health function gives, if there is one.
pub record Heartbeat (H : Type 0) : Type 0 where
  pub config : HeartbeatConfig
  pub state : HeartbeatState H
  pub started : Bool
  pub provider : Option (Option H)

-- The error of a ping; that it took too long is none.
abbrev pub unless_deadline : Error → Option Error
unless_deadline deadline_exceeded = none
unless_deadline e = some e

module _ {H : Type 0} where
  -- `Start`: whether a goroutine is started on the loop.
  unfoldable pub start : Heartbeat H → Bool × Heartbeat H
  start h = if h.started then (false, h) else (true, record h { started = true })

  -- `OnHealth`
  unfoldable pub on_health : Option (Option H) → Heartbeat H → Heartbeat H
  on_health provider h = record h { provider = provider }

  -- `snapshotHealth`
  unfoldable pub snapshot_health : Heartbeat H → Option H
  snapshot_health h = elim h.provider [ none ↦ none | some m ↦ m ]

  -- `setStatus`
  unfoldable pub set_status : ℕ → Heartbeat H → Heartbeat H
  set_status s h = record h { state = record h.state { status = s } }

  -- `stop`
  unfoldable pub stop : Heartbeat H → Heartbeat H
  stop h = record h { state = record h.state { status = status_stopping }; started = false }

  -- `ping`, by the time it starts at, what `Request` gives, `ctx.Err()` behind it, and the time of
  -- the answer.
  unfoldable pub ping :
      ℕ → Result (HeartbeatPayload H) → Option Error → ℕ → Heartbeat H → Option Error × Heartbeat H
  unfolding snapshot_health set_status
  ping now answer ctx_err then_ h =
      let h1 : Heartbeat H = record h {
        state = record h.state { sent = now; health = snapshot_health h };
      } in
      elim answer [
        | ok resp ↦ (
          none,
          record h1 {
            state = record {
              sent = now;
              received = then_;
              status = resp.status;
              health = resp.health;
            };
          },
        )
        | err e ↦ elim ctx_err [
          | some x ↦ (some x, h1)
          | none ↦ (unless_deadline e, set_status status_warning h1)
        ]
      ]

  -- The payload that `ping` sends.
  abbrev pub ping_payload : ℕ → Heartbeat H → HeartbeatPayload H
  ping_payload now h = record { sent_at = now; status = status_ok; health = snapshot_health h }

  -- `State`; that the map of the copy is another one is not seen here.
  abbrev pub state_of : Heartbeat H → HeartbeatState H
  state_of h = h.state

  -- `timeout`
  abbrev pub timeout_of : Heartbeat H → ℤ
  timeout_of h = h.config.timeout

  -- `interval`
  abbrev pub interval_of : Heartbeat H → ℤ
  interval_of h = h.config.interval

  -- A round of `loop`, up to its wait for the next.
  unfoldable pub round :
      ℕ → Result (HeartbeatPayload H) → Option Error → ℕ → Heartbeat H → Heartbeat H
  unfolding ping set_status
  round now answer ctx_err then_ h =
      let (e, h') = ping now answer ctx_err then_ (set_status status_starting h) in
      elim e [ some x ↦ set_status status_error h' | none ↦ h' ]

  -- `handleRequest`: the response, and the state afterwards.
  unfoldable pub handle_request :
      ℕ → HeartbeatPayload H → Heartbeat H → HeartbeatPayload H × Heartbeat H
  unfolding snapshot_health
  handle_request now req h = (
    record { sent_at = req.sent_at; status = status_ok; health = snapshot_health h },
    record h {
      state = record h.state { received = now; status = req.status; health = req.health };
    },
  )

-- A heartbeat and the number of goroutines in its loop.
pub record World (H : Type 0) : Type 0 where
  pub heartbeat : Heartbeat H
  pub loops : ℕ

-- `go h.loop(ctx)` when `Start` says so.
abbrev pub after_start : {H : Type 0} → World H → World H
after_start w = record {
  heartbeat = (start w.heartbeat).1;
  loops = if (start w.heartbeat).0 then suc w.loops else w.loops;
}

-- What can happen: calls from outside, and, in the loop of a goroutine, a round or its end.
pub data Step {H : Type 0} (w : World H) : World H → Type 0 where
  calls_start : Step w (after_start w)
  replaces_health :
      (p : Option (Option H)) → Step w (record w { heartbeat = on_health p w.heartbeat })
  answers :
      (now : ℕ) (req : HeartbeatPayload H)
      → Step w (record w { heartbeat = (handle_request now req w.heartbeat).1 })
  rounds :
      (now later : ℕ) (answer : Result (HeartbeatPayload H)) (ctx_err : Option Error)
      → 0 < w.loops
      → Step w (record w { heartbeat = round now answer ctx_err later w.heartbeat })
  finishes : 0 < w.loops → Step w (record { heartbeat = stop w.heartbeat; loops = w.loops - 1 })

-- Any number of steps.
pub data Reaches {H : Type 0} (w : World H) : World H → Type 0 where
  stays : Reaches w w
  goes : {u v : World H} → Reaches w u → Step u v → Reaches w v
