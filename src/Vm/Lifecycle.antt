-- ===== src/Vm/Lifecycle.antt =====
-- vm/status.go, vm/vm.go and the drives of vm/drive.go. Go's mutex is not reentrant: a call that
-- locks it while it is held does not come back until someone else unlocks it. `blocked` says that
-- the one who waits is the one who holds it.
pub mod Laws
use poprocks.Prelude.{
  ℕ, ◌==◌, ◌&&◌, ◌||◌, not, Bool, true, false, Option, none, some, List, [], ◌∷◌, length,
  if◌then◌else◌, Bytes, GoMap, lookup, insert, delete, bytes_eq_inst,
}
use poprocks.Vm.Hardware.{Drive, DriveParameters}

-- `STOPPED` and so on; `error` is written out.
pub data Status : Type 0 where
  unknown created starting running stopping stopped error_status : Status

-- What `os.Stat` on the API socket and `DescribeInstanceInfo` find.
pub data Probe : Type 0 where
  no_socket described timed_out refused : Probe

pub data VmError : Type 0 where
  already_started not_started failed_to_start invalid_parameter unknown_drive stop_failed : VmError

pub record Vm : Type 0 where
  pub locked : Bool
  pub api_sock : Bytes
  pub drives : Option (GoMap Bytes (Option Drive))
  pub machine_on : Bool

-- A call that comes back, with the VM afterwards, or one that waits for itself.
pub data Call {ℓ} (A : Type ℓ) : Type ℓ where
  returned : A → Vm → Call A
  blocked : Call A

-- `v.lock.Lock()`, the body, and the deferred `v.lock.Unlock()`.
unfoldable pub with_lock {ℓ} : {A : Type ℓ} → (Vm → Call A) → Vm → Call A
with_lock body v = if v.locked then blocked else elim (body (record v { locked = true })) [
  | blocked ↦ blocked
  | returned a v' ↦ returned a (record v' { locked = false })
]

-- `statusCheck`, whose error is always nil.
unfoldable pub status_check : Probe → Vm → Status
status_check probe v = if length v.api_sock == 0 then created else elim probe [
  | no_socket ↦ created
  | described ↦ running
  | timed_out ↦ unknown
  | refused ↦ stopped
]

-- `status == RUNNING || status == STARTING || status == STOPPING`
abbrev pub is_active : Status → Bool
is_active running = true
is_active starting = true
is_active stopping = true
is_active _ = false

-- `IsStarted`
unfoldable pub is_started : Probe → Vm → Call Bool
unfolding with_lock status_check
is_started probe v = with_lock (λ v. returned (is_active (status_check probe v)) v) v

-- `Status`
unfoldable pub status : Probe → Vm → Call Status
unfolding with_lock status_check
status probe v = with_lock (λ v. returned (status_check probe v) v) v

-- What follows `isStarted, err := v.IsStarted()` in the operations below.
abbrev pub when_started {ℓ} : {A : Type ℓ} → Probe → (Bool → Vm → Call A) → Vm → Call A
when_started probe rest v = elim (is_started probe v) [
  | blocked ↦ blocked
  | returned b v' ↦ rest b v'
]

-- `Start`, by the error of `Machine.Start`.
unfoldable pub start : Probe → Bool → Vm → Call (Option VmError)
unfolding with_lock
start probe fails = with_lock (
    when_started probe (λ started v.
      if started
      then returned (some already_started) v
      else if fails
      then returned (some failed_to_start) v
      else returned none (record v { machine_on = true })))

-- `Stop`, which ignores the error of `StopVMM`.
unfoldable pub stop : Probe → Vm → Call (Option VmError)
unfolding with_lock
stop probe = with_lock (
    when_started probe (λ started v.
      if started
      then returned none (record v { machine_on = false })
      else returned (some not_started) v))

-- `Cleanup`, by the error of `StopVMM`.
unfoldable pub cleanup : Bool → Vm → Call (Option VmError)
unfolding with_lock
cleanup fails = with_lock (λ v.
    if fails
    then returned (some stop_failed) v
    else returned none (record v { machine_on = false }))

-- `v.hardware.Drives[id] = driveObj`, after a nil map was made one.
abbrev pub put_drive : Bytes → Drive → Vm → Vm
put_drive id d v = record v {
  drives = elim v.drives [
    | none ↦ some (insert id (some d) [])
    | some m ↦ some (insert id (some d) m)
  ];
}

-- `addDriveLocked`
unfoldable pub add_drive_locked : Probe → Option Drive → Vm → Call (Option VmError)
unfolding with_lock
add_drive_locked probe none v = returned (some invalid_parameter) v
add_drive_locked probe (some d) v =
    if not d.is_valid then returned (some invalid_parameter) v else elim d.parameters [
      | none ↦ returned (some invalid_parameter) v
      | some p ↦
          if length p.id == 0
          then returned (some invalid_parameter) v
          else with_lock
              (when_started probe (λ started w.
                if started
                then returned (some already_started) w
                else returned none (put_drive p.id d w)))
              v
    ]

-- `driveObj, ok := v.hardware.Drives[driveID]; !ok || driveObj == nil`
abbrev pub has_drive : Bytes → Vm → Bool
has_drive id v = elim v.drives [
  | none ↦ false
  | some m ↦ elim (lookup id m) [ some (some d) ↦ true | _ ↦ false ]
]

abbrev pub without_drive : Bytes → Vm → Vm
without_drive id v = elim v.drives [ none ↦ v | some m ↦ record v { drives = some (delete id m) } ]

-- `RemoveDrive`
unfoldable pub remove_drive : Probe → Bytes → Vm → Call (Option VmError)
unfolding with_lock
remove_drive probe id = with_lock (λ v.
    let rest =
      when_started probe
        (λ started w.
          if started then returned (some already_started) w else returned none (without_drive id w))
        v in
    if has_drive id v then rest else returned (some unknown_drive) v)

-- `HotAddDrive`
unfoldable pub hot_add_drive : Probe → Vm → Call (Option VmError)
unfolding with_lock
hot_add_drive probe = with_lock (
    when_started probe
      (λ started v. if started then returned (some already_started) v else returned none v))

-- `HotRemoveDrive`
unfoldable pub hot_remove_drive : Bytes → Vm → Call (Option VmError)
unfolding with_lock
hot_remove_drive id =
    with_lock (λ v. returned (if has_drive id v then none else some unknown_drive) v)
