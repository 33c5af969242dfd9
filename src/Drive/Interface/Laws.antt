-- ===== src/Drive/Interface/Laws.antt =====
-- What the clients of a `Drive` of drive/drive.go may take of it.
use poprocks.Prelude.{◌≡◌, Bool, false, Option, none, some, Bytes}
use poprocks.Drive.Errors.{DriveError, not_mounted}
use poprocks.Drive.Os.{Log}
use poprocks.Drive.Files.{Reader}
use poprocks.Drive.Interface.{Drive}

-- The call returned, left the drive with no read or write under way, and, if it gave no error, off.
pub record IsOff {D : Type 0} (on : D → Bool) (IsQuiet : D → Type 0)
    (r : Option (Option DriveError × D × Log)) : Type 0 where
  pub error : Option DriveError
  pub drive : D
  pub log : Log
  pub returned : r ≡ some (error, drive, log)
  pub quiet : IsQuiet drive
  pub off : error ≡ none → on drive ≡ false

-- A drive that nobody else uses: `IsQuiet` says that no read or write is under way.
pub record IsLawful {D : Type 0} (ops : Drive D) (IsQuiet : D → Type 0) : Type 0 where
  pub mount-IsQuiet :
      (point : Bytes) (d : D) (log : Log) → IsQuiet d → IsQuiet (ops.mount point d log).1
  pub write_leaves :
      (file : Bytes) (r : Reader) (d : D) (log : Log) → (ops.write_to_drive file r d log).1 ≡ d
  pub load_leaves : (file : Bytes) (d : D) (log : Log) → (ops.load_from_drive file d log).1 ≡ d
  pub unmount-IsOff :
      (d : D) (log : Log) → IsQuiet d → IsOff ops.mounted IsQuiet (ops.unmount d log)
  pub unmount_unmounted :
      (d : D) (log : Log)
      → ops.mounted d ≡ false
      → ops.unmount d log ≡ some (some not_mounted, d, log)
  pub delete-IsOff : (d : D) (log : Log) → IsQuiet d → IsOff ops.mounted IsQuiet (ops.delete d log)
