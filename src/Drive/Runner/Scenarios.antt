-- ===== src/Drive/Runner/Scenarios.antt =====
-- The scenarios of drive/test_runner/main.go, and its `main`.
use poprocks.Prelude.{
  ℕ, ◌||◌, not, Bool, true, false, Option, none, some, [], ◌∷◌, ◌++◌, inl, inr, if◌then◌else◌,
  Bytes, bytes_eq, codes,
}
use poprocks.Prelude.Int.{ℤ, pos}
use poprocks.FilePath.{base, join}
use poprocks.Drive.Errors.{DriveError, no_mount_method, panicked}
use poprocks.Drive.Options.{
  DriveOptions, guestmount, loop, ext4, squashfs, new_drive_options, default_to,
}
use poprocks.Drive.Os.{
  Log, Os, Run, ◌>>◌, pure, run, remove, close_file, open_file, create_file, copy_file, set_path,
}
use poprocks.Drive.Keys.{new_sha256_passphrase_key}
use poprocks.Drive.Base.{BaseDrive}
use poprocks.Drive.Encrypted.{EncryptedDrive}
use poprocks.Drive.Detect.{
  Image, FileInfo, no_file, directory, file_of_size, base_drive_from_image,
  encrypted_drive_from_image,
}
use poprocks.Drive.Interface.{base_drive, encrypted_drive}
use poprocks.Drive.Runner.{
  Failure, failed_with, no_info, unexpected_method, not_read_only, detected, unexpected_error,
  unknown_scenario, Ran, called, and_then, write_and_load, read_only_checks, with_mount, gone,
}

-- The outcome of a scenario.
abbrev pub Outcome : Type 0
Outcome = Option (Option Failure × Log)

-- A scenario's result is that of the part on its drive.
abbrev pub finished : {D : Type 0} → Ran D → Outcome
finished none = none
finished (some (f, d, log)) = some (f, log)

-- `info.Size()`, if `os.Stat` finds anything.
abbrev pub size_of : FileInfo → Option ℤ
size_of no_file = none
size_of (directory size) = some size
size_of (file_of_size size) = some size

-- The error's text has that of `ErrNoMountMethodAvailable`.
abbrev pub is_no_mount_method : DriveError → Bool
is_no_mount_method no_mount_method = true
is_no_mount_method _ = false

-- The code of a program that panics is 2.
abbrev pub is_panic : Failure → Bool
is_panic (failed_with panicked) = true
is_panic _ = false

module _ (os bare : Os) (images : Log → Bytes → Image) (temp_dir path : Bytes)
    (map_name_of sha256 : Bytes → Bytes) where
  -- `copyFixture`
  unfoldable pub copy_fixture : Bytes → Run Log Bytes
  unfolding base join
  copy_fixture src =
      let dst : Bytes = join temp_dir (base src ++ codes "-copy.img") in
      do
        run os (open_file src)
        run os (create_file dst)
        (λ log.
            let copied = run os (copy_file src dst) log in (copied.0, close_file dst ∷ copied.1))
        pure dst

  -- A part on a drive of an image with the size of the image among its options.
  unfoldable pub on_image :
      Bytes → Bool → Bool → Bytes → Bytes → Bytes → (BaseDrive → Log → Outcome) → Log → Outcome
  unfolding new_drive_options base_drive_from_image
  on_image id read_only ephemeral fs_type method image part log =
      elim (size_of (images log image).info) [
        | none ↦ some (some no_info, log)
        | some size ↦
            elim (base_drive_from_image os (images log) image
              (some (new_drive_options id read_only false [] [] ephemeral size fs_type method))) [
                | inl e ↦ some (some (failed_with e), log)
                | inr d ↦ part d log
              ]
      ]

  -- What a scenario does with its own copy of an image.
  unfoldable pub on_copy : Bytes → (Bytes → Log → Outcome) → Log → Outcome
  unfolding copy_fixture
  on_copy src part log =
      let copied = copy_fixture src log in
      elim copied.0 [
        | inl e ↦ some (some (failed_with e), copied.1)
        | inr image ↦ part image copied.1
      ]

  -- `runRWScenario`
  unfoldable pub run_rw_scenario : Bytes → Bytes → Log → Outcome
  unfolding on_copy on_image base_drive with_mount and_then write_and_load
  run_rw_scenario src method =
      let ops = base_drive os in
      on_copy src (λ image. on_image (codes "scenario-rw") false false ext4 method image (λ d log.
        finished (
          with_mount ops os (codes "drive-mnt-")
            (and_then (write_and_load ops (codes "/scenario/file.txt") (codes "scenario payload"))
              (λ d' log'. called (ops.unmount d' log')))
            d log)))

  -- The part of `runAutoRWScenario` on its drive.
  unfoldable pub auto_part : BaseDrive → Log → Outcome
  unfolding base_drive with_mount write_and_load bytes_eq
  auto_part d log =
      let ops = base_drive os in
      elim (ops.parameters d) [
        | none ↦ some (some (failed_with panicked), log)
        | some p ↦
            if not (bytes_eq p.mount_method guestmount || bytes_eq p.mount_method loop)
            then some (some unexpected_method, log)
            else finished (
                with_mount ops os (codes "drive-auto-mnt-")
                  (write_and_load ops (codes "/scenario/auto.txt") (codes "auto scenario payload"))
                  d log)
      ]

  -- `runAutoRWScenario` with its copy of the image.
  unfoldable pub auto_on : Bytes → Log → Outcome
  unfolding base_drive_from_image auto_part
  auto_on image log = elim (base_drive_from_image os (images log) image none) [
    | inl e ↦ some (some (failed_with e), log)
    | inr d ↦ auto_part d log
  ]

  -- `runAutoRWScenario`
  unfoldable pub run_auto_rw_scenario : Bytes → Log → Outcome
  unfolding on_copy auto_on
  run_auto_rw_scenario src = on_copy src auto_on

  -- `runAutoDetectNoBackendScenario` with its copy of the image; PATH is as it was at the end.
  unfoldable pub no_backend_on : Bytes → Log → Outcome
  unfolding base_drive_from_image
  no_backend_on image log =
      let changed = run os (set_path (codes "/nonexistent")) log in
      elim changed.0 [
        | inl e ↦ some (some (failed_with e), changed.1)
        | inr _ ↦ elim (base_drive_from_image bare (images changed.1) image none) [
          | inr d ↦ some (some detected, set_path path ∷ changed.1)
          | inl e ↦ some (
            (if is_no_mount_method e then none else some unexpected_error),
            set_path path ∷ changed.1,
          )
        ]
      ]

  -- `runAutoDetectNoBackendScenario`
  unfoldable pub run_auto_detect_no_backend_scenario : Bytes → Log → Outcome
  unfolding on_copy no_backend_on
  run_auto_detect_no_backend_scenario src = on_copy src no_backend_on

  -- The part of `runSquashfsReadonlyScenario` on its drive.
  unfoldable pub squashfs_part : BaseDrive → Log → Outcome
  unfolding base_drive with_mount read_only_checks
  squashfs_part d log =
      let ops = base_drive os in
      elim (ops.parameters d) [
        | none ↦ some (some (failed_with panicked), log)
        | some p ↦
            if not p.readonly
            then some (some not_read_only, log)
            else finished (with_mount ops os (codes "drive-sq-mnt-") (read_only_checks ops) d log)
      ]

  -- `runSquashfsReadonlyScenario`
  unfoldable pub run_squashfs_readonly_scenario : Bytes → Log → Outcome
  unfolding on_image squashfs_part
  run_squashfs_readonly_scenario src =
      on_image (codes "scenario-squash") true false squashfs loop src squashfs_part

  -- `runDeleteEphemeralScenario`
  unfoldable pub run_delete_ephemeral_scenario : Bytes → Log → Outcome
  unfolding on_copy on_image base_drive and_then gone
  run_delete_ephemeral_scenario src =
      let ops = base_drive os in
      on_copy src (λ image. on_image (codes "ephemeral") false true ext4 loop image (λ d log.
        finished (and_then (λ d' log'. called (ops.delete d' log')) (gone ops os image) d log)))

  -- The part of `runLUKSRWScenario` on its mounted drive.
  unfoldable pub luks_part : Bytes → EncryptedDrive → Log → Ran EncryptedDrive
  unfolding encrypted_drive and_then write_and_load gone
  luks_part image =
      let ops = encrypted_drive os map_name_of in
      and_then (write_and_load ops (codes "/secure/data.txt") (codes "luks scenario payload")) (
        and_then (λ d log. called (ops.unmount d log))
          (and_then (λ d log. called (ops.delete d log)) (gone ops os image)))

  -- `runLUKSRWScenario`
  unfoldable pub run_luks_rw_scenario : Log → Outcome
  unfolding join new_drive_options new_sha256_passphrase_key encrypted_drive_from_image
      encrypted_drive with_mount luks_part
  run_luks_rw_scenario log =
      let image : Bytes = join temp_dir (codes "drive-luks-scenario.img") in
      let log' : Log = remove image ∷ log in
      let options : DriveOptions =
        new_drive_options (codes "scenario-luks") false false [] [] true (pos 33554432) ext4 loop in
      let made = new_sha256_passphrase_key sha256 (codes "scenario-passphrase") in
      elim made.0 [
        | inl e ↦ some (some (failed_with e), log')
        | inr key ↦
            elim (encrypted_drive_from_image os (images log') image (some key) (some options)) [
              | inl e ↦ some (some (failed_with e), log')
              | inr d ↦ finished (
                  with_mount (encrypted_drive os map_name_of) os (codes "drive-luks-mnt-")
                    (luks_part image) d log')
            ]
      ]

  -- The `switch` of `main`.
  unfoldable pub run_scenario : Bytes → Bytes → Log → Outcome
  unfolding bytes_eq join run_rw_scenario run_auto_rw_scenario run_auto_detect_no_backend_scenario
      run_squashfs_readonly_scenario run_delete_ephemeral_scenario run_luks_rw_scenario
  run_scenario scenario fixtures log =
      let image : Bytes = join fixtures (codes "ext4.img") in
      if bytes_eq scenario (codes "guestmount_nonroot_ext4_rw")
      then run_rw_scenario image guestmount log
      else if bytes_eq scenario (codes "guestmount_auto_ext4_rw")
      then run_auto_rw_scenario image log
      else if bytes_eq scenario (codes "auto_detect_none_available")
      then run_auto_detect_no_backend_scenario image log
      else if bytes_eq scenario (codes "root_loop_ext4_rw")
      then run_rw_scenario image loop log
      else if bytes_eq scenario (codes "squashfs_readonly")
      then run_squashfs_readonly_scenario (join fixtures (codes "squashfs.img")) log
      else if bytes_eq scenario (codes "delete_ephemeral")
      then run_delete_ephemeral_scenario image log
      else if bytes_eq scenario (codes "luks_dmcrypt_ext4_rw")
      then run_luks_rw_scenario log
      else some (some unknown_scenario, log)

  -- `main`, by the scenario and the directory that the environment names: its exit code.
  unfoldable pub main : Bytes → Bytes → Log → Option (ℕ × Log)
  unfolding run_scenario
  main scenario fixture_dir log =
      elim (run_scenario scenario (default_to (codes "/fixtures") fixture_dir) log) [
        | none ↦ none
        | some (none, log') ↦ some (0, log')
        | some (some f, log') ↦ some (if is_panic f then 2 else 1, log')
      ]
