-- ===== src/Drive/Life.antt =====
-- A drive that several goroutines use: the critical sections of drive/base_drive.go as steps. The
-- one goroutine that is unmounting is in `phase`; the others are counted by `in_flight`.
pub mod Safety
pub mod Stuck
use poprocks.Prelude.{
  ℕ, suc, ◌≡◌, ◌∷◌, ◌⊎◌, inl, inr, Bool, true, false, Option, none, some, [], Bytes,
}
use poprocks.Drive.Errors.{DriveError}
use poprocks.Drive.Os.{Os, Log, Call}
use poprocks.Drive.Base.{BaseDrive, mount, begin_unmount, finish_unmount}
use poprocks.Drive.Files.{begin_write, begin_load, end_io}

-- `waiting` for `ioWG`, or past it and `unmounting_now`.
pub data Phase : Type 0 where
  idle waiting unmounting_now : Phase

pub record System : Type 0 where
  pub drive : BaseDrive
  pub phase : Phase
  pub log : Log

module _ (os : Os) where
  -- The steps that change the drive, and any call of the operating system. The calls that are refused
  -- change nothing.
  pub data Step : System → System → Type 0 where
    mounts :
        {s : System} {d : BaseDrive} {log : Log} (point : Bytes)
        → mount os point s.drive s.log ≡ (inr d, log)
        → Step s (record s { drive = d; log = log })
    begins_unmount :
        {s : System} {d : BaseDrive}
        → s.phase ≡ idle
        → begin_unmount s.drive ≡ inr d
        → Step s (record s { drive = d; phase = waiting })
    waits :
        {s : System}
        → s.phase ≡ waiting
        → s.drive.in_flight ≡ 0
        → Step s (record s { phase = unmounting_now })
    finishes_unmount :
        {s : System} {d : BaseDrive} {log : Log} (e : Option DriveError)
        → s.phase ≡ unmounting_now
        → finish_unmount os s.drive s.log ≡ (e, d, log)
        → Step s (record { drive = d; phase = idle; log = log })
    begins_write :
        {s : System} {d : BaseDrive} (file : Bytes)
        → begin_write file s.drive ≡ inr d
        → Step s (record s { drive = d })
    begins_load :
        {s : System} {d : BaseDrive} (file : Bytes)
        → begin_load file s.drive ≡ inr d
        → Step s (record s { drive = d })
    ends_io :
        {s : System} (n : ℕ)
        → s.drive.in_flight ≡ suc n
        → Step s (record s { drive = end_io s.drive })
    calls : {s : System} (c : Call) → Step s (record s { log = c ∷ s.log })

  pub data Reaches : System → System → Type 0 where
    stays : {s : System} → Reaches s s
    goes : {s t u : System} → Reaches s t → Step t u → Reaches s u
