-- ===== src/Drive/Runner.antt =====
-- drive/test_runner/main.go: the program that mounts and uses drives on a real system. The images that
-- it finds may depend on what was done before; `bare` is the system while PATH is /nonexistent. What
-- an error prints is not here, but which error it is.
pub mod Scenarios
pub mod Laws
pub mod Returns
pub mod Calls
pub mod Ends
pub mod Main
use poprocks.Prelude.{
  ℕ, ◌||◌, not, Bool, true, false, Option, none, some, List, [], ◌∷◌, ◌++◌, ◌⊎◌, inl, inr,
  if◌then◌else◌, Bytes, bytes_eq, codes, has_prefix,
}
use poprocks.Prelude.Int.{ℤ, pos}
use poprocks.Vsock.Errors.{ok, err}
use poprocks.FilePath.{base, join}
use poprocks.Drive.Errors.{DriveError, no_mount_method, failed}
use poprocks.Drive.Options.{
  DriveOptions, guestmount, loop, ext4, squashfs, new_drive_options, default_to,
}
use poprocks.Drive.Os.{
  Log, Os, Run, ◌>>=◌, ◌>>◌, pure, run, remove, mkdir_temp, remove_all, close_file, open_file,
  create_file, copy_file, set_path,
}
use poprocks.Drive.Paths.{Stat, missing, unreadable, found}
use poprocks.Drive.Keys.{new_sha256_passphrase_key}
use poprocks.Drive.Base.{BaseDrive}
use poprocks.Drive.Files.{Reader}
use poprocks.Drive.Detect.{
  Image, FileInfo, no_file, directory, file_of_size, base_drive_from_image,
  encrypted_drive_from_image,
}
use poprocks.Drive.Interface.{Drive, base_drive, encrypted_drive}

-- Why a scenario fails.
pub data Failure : Type 0 where
  failed_with : DriveError → Failure
  no_info unexpected_method payload_mismatch not_read_only unexpected_content : Failure
  write_succeeded detected unexpected_error still_there unknown_scenario : Failure

-- What a part of a scenario does with its drive; `none` if it waits.
abbrev pub Ran : Type 0 → Type 0
Ran D = Option (Option Failure × D × Log)

abbrev pub Part : Type 0 → Type 0
Part D = D → Log → Ran D

-- `if err != nil { return err }`
abbrev pub raised : Option DriveError → Option Failure
raised none = none
raised (some e) = some (failed_with e)

-- A call of the drive in a part.
abbrev pub called {ℓ} :
    {A : Type ℓ} → Option (Option DriveError × A × Log) → Option (Option Failure × A × Log)
called none = none
called (some (e, d, log)) = some (raised e, d, log)

-- One part, and the other if it does not fail.
unfoldable pub and_then : {D : Type 0} → Part D → Part D → Part D
and_then m k d log = elim (m d log) [
  | none ↦ none
  | some (none, d', log') ↦ k d' log'
  | some (some f, d', log') ↦ some (some f, d', log')
]

-- A part with a `defer`, of which the error is dropped.
unfoldable pub deferred : {D : Type 0} → Part D → Part D → Part D
deferred body cleanup d log = elim (body d log) [
  | none ↦ none
  | some (f, d', log') ↦ elim (cleanup d' log') [
    | none ↦ none
    | some (g, d'', log'') ↦ some (f, d'', log'')
  ]
]

-- `strings.Contains`
unfoldable pub contains : Bytes → Bytes → Bool
unfolding has_prefix
contains [] part = has_prefix [] part
contains (b ∷ bs) part = has_prefix (b ∷ bs) part || contains bs part

abbrev pub reader_of : Bytes → Reader
reader_of content = record { content = content; problem = none }

module _ {D : Type 0} (ops : Drive D) where
  -- `d.WriteToDrive`, `d.LoadFromDrive`, and the comparison of what they wrote and read.
  unfoldable pub write_and_load : Bytes → Bytes → Part D
  unfolding bytes_eq
  write_and_load file want d log =
      let written = ops.write_to_drive file (reader_of want) d log in
      elim written.0 [
        | inl e ↦ some (some (failed_with e), written.1, written.2)
        | inr _ ↦
            let loaded = ops.load_from_drive file written.1 written.2 in
            elim loaded.0 [
              | inl e ↦ some (some (failed_with e), loaded.1, loaded.2)
              | inr got ↦
                  some (
                    (if bytes_eq got want then none else some payload_mismatch),
                    loaded.1,
                    loaded.2,
                  )
            ]
      ]

  -- The checks of `runSquashfsReadonlyScenario` on its mounted drive.
  unfoldable pub read_only_checks : Part D
  unfolding contains
  read_only_checks d log =
      let loaded = ops.load_from_drive (codes "/data/hello.txt") d log in
      elim loaded.0 [
        | inl e ↦ some (some (failed_with e), loaded.1, loaded.2)
        | inr got ↦
            let written =
              ops.write_to_drive (codes "/data/new.txt") (reader_of (codes "x")) loaded.1
                loaded.2 in
            if not (contains got (codes "hello from squashfs fixture"))
            then some (some unexpected_content, loaded.1, loaded.2)
            else elim written.0 [
              | inl e ↦ some (none, written.1, written.2)
              | inr _ ↦ some (some write_succeeded, written.1, written.2)
            ]
      ]

  module _ (os : Os) where
    -- A fresh mount point, with the drive mounted for a part: the `Unmount` and then the
    -- `os.RemoveAll` are deferred.
    unfoldable pub with_mount : Bytes → Part D → Part D
    unfolding and_then deferred
    with_mount prefix body d log = elim (os.gives log (mkdir_temp prefix)) [
      | err e ↦ some (some (failed_with (failed e)), d, mkdir_temp prefix ∷ log)
      | ok dir ↦
          deferred
            (and_then (λ d' log'. called (some (ops.mount dir d' log')))
              (deferred body (λ d' log'. called (ops.unmount d' log'))))
            (λ d' log'. some (none, d', remove_all dir ∷ log')) d (mkdir_temp prefix ∷ log)
    ]

    -- The test that an image is gone.
    unfoldable pub gone : Bytes → Part D
    gone image d log = elim (os.stat log image) [
      | missing ↦ some (none, d, log)
      | unreadable e ↦ some (some still_there, d, log)
      | found link ↦ some (some still_there, d, log)
    ]
