-- ===== src/Vm/Lifecycle/Laws.antt =====
-- The operations of vm/status.go, vm/vm.go and vm/drive.go that lock the mutex.
use poprocks.Prelude.{
  ◌==◌, ◌≡◌, refl, not, Bool, false, Option, none, some, Option-cases, ◌&&◌, Bool-cases, inl, inr,
  length, arith, if◌then◌else◌, Bytes,
}
use poprocks.Vm.Hardware.{Drive}
use poprocks.Vm.Lifecycle.{
  Probe, Vm, Call, returned, blocked, with_lock, status_check, is_active, is_started, status,
  when_started, start, stop, cleanup, add_drive_locked, has_drive, remove_drive, hot_add_drive,
  hot_remove_drive, unknown_drive, invalid_parameter, already_started, stop_failed, put_drive,
}

when_started_blocked {ℓ} :
    {A : Type ℓ} (probe : Probe) (rest : Bool → Vm → Call A) (v : Vm)
    → with_lock (when_started probe rest) v ≡ blocked
unfolding with_lock is_started
when_started_blocked probe rest v = elim (Bool-cases v.locked) [
  | inl l ↦ ground arith
  | inr l ↦ ground arith
]

-- No call of `Start`, `Stop` or `HotAddDrive` comes back: each locks the mutex, and calls
-- `IsStarted`, which locks it again.
pub start_blocked :
    (probe : Probe) (fails : Bool) (v : Vm)
    → (start probe fails v ≡ blocked) × (stop probe v ≡ blocked) × (hot_add_drive probe v ≡ blocked)
unfolding start stop hot_add_drive
start_blocked probe fails v =
    (when_started_blocked probe _ v, when_started_blocked probe _ v, when_started_blocked probe _ v)

-- Whether a drive passes the checks that come before the mutex.
abbrev pub is_addable : Option Drive → Bool
is_addable none = false
is_addable (some d) = elim d.parameters [
  | none ↦ false
  | some p ↦ d.is_valid && not (length p.id == 0)
]

-- `addDriveLocked` comes back only to refuse a drive that is nil, not valid, or has no parameters
-- or no ID.
pub add_drive_locked_blocked :
    (probe : Probe) (d : Option Drive) (v : Vm)
    → add_drive_locked probe d v
      ≡ (if is_addable d then blocked else returned (some invalid_parameter) v)
unfolding add_drive_locked
add_drive_locked_blocked probe none v = refl
add_drive_locked_blocked probe (some d) v = elim (Option-cases d.parameters) [
  | inl n ↦ ground arith
  | inr (p, n) ↦ ground (
    arith,
    when_started_blocked probe
        (λ started w.
          if started then returned (some already_started) w else returned none (put_drive p.id d w))
        v,
  )
]

-- `RemoveDrive` on a VM whose mutex is free comes back only if there is no drive of that ID.
pub remove_drive_blocked :
    (probe : Probe) (id : Bytes) (v : Vm)
    → v.locked ≡ false
    → remove_drive probe id v
      ≡ (if has_drive id v then blocked else returned (some unknown_drive) v)
unfolding remove_drive with_lock is_started
remove_drive_blocked probe id v l = ground arith

-- `IsStarted`, `Status`, `HotRemoveDrive` and `Cleanup` on a VM whose mutex is free come back
-- with their answers, and leave it free.
pub unlocked_returns :
    (probe : Probe) (fails : Bool) (id : Bytes) (v : Vm)
    → v.locked ≡ false
    → (is_started probe v ≡ returned (is_active (status_check probe v)) v)
      × (status probe v ≡ returned (status_check probe v) v)
      × (hot_remove_drive id v ≡ returned (if has_drive id v then none else some unknown_drive) v)
      × (cleanup fails v ≡ (
          if fails
          then returned (some stop_failed) v
          else returned none (record v { machine_on = false })))
unfolding is_started status hot_remove_drive cleanup with_lock status_check
unlocked_returns probe fails id v l = (ground arith, ground arith, ground arith, ground arith)
