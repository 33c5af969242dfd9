-- ===== src/Drive/Files.antt =====
-- `WriteToDrive` and `LoadFromDrive` of drive/base_drive.go. What the reader gives is its bytes, and
-- an error if it does not end with `io.EOF`.
pub mod Laws
use poprocks.Prelude.{
  ℕ, suc, ◌+◌, ◌-◌, not, Bool, true, false, Option, none, some, List, [], ◌∷◌, ◌⊎◌, inl, inr,
  if◌then◌else◌, Bytes, bytes_eq,
}
use poprocks.Vsock.Errors.{Error, Result, ok, err}
use poprocks.FilePath.{dir}
use poprocks.Drive.Errors.{
  DriveError, invalid_parameter, drive_not_valid, unmounted, unmounting, read_only_drive,
  squashfs_drive, file_not_found, failed,
}
use poprocks.Drive.Options.{DriveOptions, squashfs, fs_type_of, validate}
use poprocks.Drive.Paths.{Stat, missing, unreadable, found, no_sym_links, path_check}
use poprocks.Drive.Os.{
  Log, Os, Run, ◌>>=◌, ◌>>◌, pure, throw, reject_if, run, mkdir_all, open_write, write_bytes,
  close_file, read_file,
}
use poprocks.Drive.Base.{BaseDrive, validate_drive}

-- The checks of `WriteToDrive` up to `ioWG.Add`: the drive with one more call under way.
unfoldable pub begin_write : Bytes → BaseDrive → DriveError ⊎ BaseDrive
unfolding bytes_eq fs_type_of validate
begin_write file d = elim d.params [
  | none ↦ if bytes_eq file [] then inl invalid_parameter else inl drive_not_valid
  | some p ↦
      if bytes_eq file []
      then inl invalid_parameter
      else if not (validate p)
      then inl drive_not_valid
      else if not d.mounted
      then inl unmounted
      else if d.un_mounting
      then inl unmounting
      else if p.readonly
      then inl read_only_drive
      else if bytes_eq (fs_type_of p) squashfs
      then inl squashfs_drive
      else inr (record d { in_flight = suc d.in_flight })
]

-- The checks of `LoadFromDrive`, likewise.
unfoldable pub begin_load : Bytes → BaseDrive → DriveError ⊎ BaseDrive
unfolding bytes_eq validate_drive
begin_load file d =
    if bytes_eq file []
    then inl invalid_parameter
    else if not (validate_drive d)
    then inl drive_not_valid
    else if not d.mounted
    then inl unmounted
    else if d.un_mounting
    then inl unmounting
    else inr (record d { in_flight = suc d.in_flight })

-- `ioWG.Done`
unfoldable pub end_io : BaseDrive → BaseDrive
end_io d = record d { in_flight = d.in_flight - 1 }

-- What a reader gives.
pub record Reader : Type 0 where
  pub content : Bytes
  pub problem : Option Error

module _ (os : Os) where
  -- `pathCheck`, by what the operating system finds now.
  abbrev pub check_path : Bytes → Bytes → Bool → Run Log Bytes
  check_path point file allow log = (path_check os.getwd (os.lstat log) point file allow, log)

  -- `noSymLinks`, likewise.
  abbrev pub check_links : Bytes → Bytes → Run Log (Unit {0})
  check_links point path log = elim (no_sym_links os.getwd (os.lstat log) point path false) [
    | some e ↦ (inl e, log)
    | none ↦ (inr tt, log)
  ]

  -- The test of the target itself.
  unfoldable pub check_target : Bytes → Run Log (Unit {0})
  check_target target log = elim (os.lstat log target) [
    | missing ↦ (inr tt, log)
    | unreadable e ↦ (inl (failed e), log)
    | found true ↦ (inl invalid_parameter, log)
    | found false ↦ (inr tt, log)
  ]

  -- `io.Copy` to the open file and `Close`; the error of the copy comes first.
  unfoldable pub copy_and_close : Bytes → Reader → Run Log (Unit {0})
  copy_and_close target r log =
      let written : Log = write_bytes target r.content ∷ log in
      let closed : Log = close_file target ∷ written in
      elim (os.fails log (write_bytes target r.content)) [
        | some e ↦ (inl (failed e), closed)
        | none ↦ elim r.problem [
          | some e ↦ (inl (failed e), closed)
          | none ↦ elim (os.fails written (close_file target)) [
            | some e ↦ (inl (failed e), closed)
            | none ↦ (inr tt, closed)
          ]
        ]
      ]

  -- `WriteToDrive` after its checks.
  unfoldable pub write_body : Bytes → Bytes → Reader → Run Log (Unit {0})
  unfolding path_check no_sym_links dir check_target copy_and_close
  write_body point file r = do
    target ← check_path point file true
    run os (mkdir_all (dir target))
    check_links point (dir target)
    check_target target
    run os (open_write target)
    copy_and_close target r

  -- `LoadFromDrive` after its checks.
  unfoldable pub load_body : Bytes → Bytes → Run Log Bytes
  unfolding path_check
  load_body point file = do
    target ← check_path point file false
    (λ log. elim (os.gives log (read_file target)) [
      | ok content ↦ (inr content, read_file target ∷ log)
      | err e ↦
          (if os.is_not_exist e then inl file_not_found else inl (failed e), read_file target ∷ log)
    ])

  -- `WriteToDrive`, with no other call between its steps.
  unfoldable pub write_to_drive :
      Bytes → Reader → BaseDrive → Log → (DriveError ⊎ Unit {0}) × BaseDrive × Log
  unfolding begin_write write_body end_io
  write_to_drive file r d log = elim (begin_write file d) [
    | inl e ↦ (inl e, d, log)
    | inr d' ↦ let done = write_body d'.mount_point file r log in (done.0, end_io d', done.1)
  ]

  -- `LoadFromDrive`, likewise.
  unfoldable pub load_from_drive : Bytes → BaseDrive → Log → (DriveError ⊎ Bytes) × BaseDrive × Log
  unfolding begin_load load_body end_io
  load_from_drive file d log = elim (begin_load file d) [
    | inl e ↦ (inl e, d, log)
    | inr d' ↦ let done = load_body d'.mount_point file log in (done.0, end_io d', done.1)
  ]
