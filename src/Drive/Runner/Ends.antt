-- ===== src/Drive/Runner/Ends.antt =====
-- The scenarios of drive/test_runner/main.go end.
use poprocks.Prelude.{
  ◌≢◌, Bool, true, false, ◌≡◌, inl, inr, Option, none, some, [], ◌∷◌, Bytes, bytes_eq, codes, ◌||◌,
  arith, Option-cases, Bool-cases, Sum-cases, if◌then◌else◌,
}
use poprocks.FilePath.{join}
use poprocks.Drive.Errors.{DriveError, panicked}
use poprocks.Drive.Os.{Log, Os, remove, run, set_path}
use poprocks.Drive.Base.{BaseDrive}
use poprocks.Drive.Encrypted.{EncryptedDrive}
use poprocks.Drive.Options.{DriveOptions, new_drive_options, guestmount, loop, ext4}
use poprocks.Drive.Detect.{Image, base_drive_from_image, encrypted_drive_from_image}
use poprocks.Prelude.Int.{pos}
use poprocks.Drive.Keys.{new_sha256_passphrase_key}
use poprocks.Drive.Interface.{base_drive, encrypted_drive}
use poprocks.Drive.Interface.Calm.{
  IsReadyBase, IsReadyEncrypted, base_drive-IsCalm, encrypted_drive-IsCalm,
}
use poprocks.Drive.Calm.Made.{base_calm, base_ready, encrypted_calm, encrypted_ready}
use poprocks.Drive.Interface.BaseLaws.{IsQuietBase, base_drive-IsLawful}
use poprocks.Drive.Interface.EncryptedLaws.{IsQuietEncrypted, encrypted_drive-IsLawful}
use poprocks.Drive.Runner.{
  Failure, failed_with, no_info, unexpected_method, not_read_only, detected, unexpected_error, Ran,
  with_mount, write_and_load, read_only_checks,
}
use poprocks.Drive.Runner.Returns.{HasReturned, and_then-Returns}
use poprocks.Drive.Runner.Calls.{
  unmount-Returns, delete-Returns, write_and_load-Returns, read_only_checks-Returns, gone-Returns,
  with_mount-Returns,
}
use poprocks.Drive.Runner.Scenarios.{
  Outcome, finished, copy_fixture, on_image, on_copy, run_rw_scenario, auto_part,
  run_delete_ephemeral_scenario, luks_part, run_luks_rw_scenario, is_no_mount_method, auto_on,
  no_backend_on, squashfs_part, size_of,
}

abbrev pub Ends : Outcome → Type 0
Ends o =
    (f : Option Failure) × (log : Log) × (o ≡ some (f, log)) × (f ≢ some (failed_with panicked))

finished-Ends :
    {D : Type 0} (IsQuiet : D → Type 0) (r : Ran D) → HasReturned IsQuiet r → Ends (finished r)
finished-Ends IsQuiet r h = let e = h.returned in (h.failure, h.log, ground arith, h.calm)

module _ (os bare : Os) (images : Log → Bytes → Image) (temp_dir path : Bytes)
    (map_name_of sha256 : Bytes → Bytes) where
  copy_fixture-calm :
      (src : Bytes) (log : Log) (e : DriveError)
      → (copy_fixture os bare images temp_dir path map_name_of sha256 src log).0 ≡ inl e
      → e ≢ panicked
  unfolding copy_fixture
  copy_fixture-calm src log e h x = ground arith

  pub on_image-Ends :
      (id : Bytes) (ro eph : Bool) (fs method image : Bytes) (part : BaseDrive → Log → Outcome)
      (log : Log)
      → ((d : BaseDrive) (l : Log) → IsReadyBase d → Ends (part d l))
      → Ends (
          on_image os bare images temp_dir path map_name_of sha256 id ro eph fs method image part
            log)
  unfolding on_image
  on_image-Ends id ro eph fs method image part log h =
      elim (Option-cases (size_of (images log image).info)) [
        | inl e ↦ (some no_info, log, ground arith, λ y. ground arith)
        | inr (size, e) ↦
            elim (Sum-cases (
              base_drive_from_image os (images log) image
                (some (new_drive_options id ro false [] [] eph size fs method)))) [
                  | inl (x, z) ↦ (
                    some (failed_with x),
                    log,
                    ground arith,
                    λ y. ground (arith, base_calm os (images log) image _ x z),
                  )
                  | inr (d, z) ↦
                      let (f, l, r, n) = h d log (base_ready os (images log) image _ d z) in
                      (f, l, ground arith, n)
                ]
      ]

  pub on_copy-Ends :
      (src : Bytes) (part : Bytes → Log → Outcome) (log : Log)
      → ((image : Bytes) (l : Log) → Ends (part image l))
      → Ends (on_copy os bare images temp_dir path map_name_of sha256 src part log)
  unfolding on_copy
  on_copy-Ends src part log h =
      let copied = copy_fixture os bare images temp_dir path map_name_of sha256 src log in
      elim (Sum-cases copied.0) [
        | inl (e, z) ↦ (
          some (failed_with e),
          copied.1,
          ground arith,
          λ y. ground (arith, copy_fixture-calm src log e z),
        )
        | inr (image, z) ↦ let (f, l, r, n) = h image copied.1 in (f, l, ground arith, n)
      ]

  auto_part-Ends :
      (d : BaseDrive) (log : Log)
      → IsReadyBase d
      → Ends (auto_part os bare images temp_dir path map_name_of sha256 d log)
  unfolding auto_part
  auto_part-Ends d log q =
      let ops = base_drive os in
      let kept = write_and_load ops (codes "/scenario/auto.txt") (codes "auto scenario payload") in
      let ran = with_mount ops os (codes "drive-auto-mnt-") kept d log in
      let law = base_drive-IsLawful os in
      let safe = base_drive-IsCalm os in
      let (f, l, r, n) = finished-Ends IsQuietBase ran (
        with_mount-Returns IsQuietBase IsReadyBase ops law safe os (codes "drive-auto-mnt-") kept
          (write_and_load-Returns IsQuietBase IsReadyBase ops law safe (codes "/scenario/auto.txt")
            (codes "auto scenario payload"))
          d log q) in
      elim (Option-cases (ops.parameters d)) [
        | inl e ↦ absurd (ground (arith, q.has_options))
        | inr (p, e) ↦
            elim (Bool-cases (bytes_eq p.mount_method guestmount || bytes_eq p.mount_method loop)) [
              | inl c ↦ (f, l, ground arith, n)
              | inr c ↦ (some unexpected_method, log, ground arith, λ y. ground arith)
            ]
      ]

  pub run_rw_scenario-Ends :
      (src method : Bytes) (log : Log)
      → Ends (run_rw_scenario os bare images temp_dir path map_name_of sha256 src method log)
  unfolding run_rw_scenario
  run_rw_scenario-Ends src method log =
      let ops = base_drive os in
      let law = base_drive-IsLawful os in
      let safe = base_drive-IsCalm os in
      on_copy-Ends src _ log (λ image l.
        on_image-Ends (codes "scenario-rw") false false ext4 method image _ l (λ d l' q.
          finished-Ends IsQuietBase _ (
            with_mount-Returns IsQuietBase IsReadyBase ops law safe os (codes "drive-mnt-") _
              (and_then-Returns IsQuietBase IsQuietBase _ _
                (write_and_load-Returns IsQuietBase IsReadyBase ops law safe
                  (codes "/scenario/file.txt") (codes "scenario payload"))
                (unmount-Returns IsQuietBase IsReadyBase ops law safe))
              d l' q)))

  pub auto_on-Ends :
      (image : Bytes) (log : Log)
      → Ends (auto_on os bare images temp_dir path map_name_of sha256 image log)
  unfolding auto_on
  auto_on-Ends image log = elim (Sum-cases (base_drive_from_image os (images log) image none)) [
    | inl (e, z) ↦ (
      some (failed_with e),
      log,
      ground arith,
      λ y. ground (arith, base_calm os (images log) image none e z),
    )
    | inr (d, z) ↦
        let (f, l, r, n) = auto_part-Ends d log (base_ready os (images log) image none d z) in
        (f, l, ground arith, n)
  ]

  pub no_backend_on-Ends :
      (image : Bytes) (log : Log)
      → Ends (no_backend_on os bare images temp_dir path map_name_of sha256 image log)
  unfolding no_backend_on
  no_backend_on-Ends image log =
      let changed = run os (set_path (codes "/nonexistent")) log in
      elim (Sum-cases changed.0) [
        | inl (e, z) ↦ (some (failed_with e), changed.1, ground arith, λ y. ground arith)
        | inr (u, z) ↦ elim (Sum-cases (base_drive_from_image bare (images changed.1) image none)) [
          | inr (d, y) ↦ (some detected, set_path path ∷ changed.1, ground arith, λ y. ground arith)
          | inl (e, y) ↦ (
            (if is_no_mount_method e then none else some unexpected_error),
            set_path path ∷ changed.1,
            ground arith,
            λ y. ground arith,
          )
        ]
      ]

  pub squashfs_part-Ends :
      (d : BaseDrive) (log : Log)
      → IsReadyBase d
      → Ends (squashfs_part os bare images temp_dir path map_name_of sha256 d log)
  unfolding squashfs_part
  squashfs_part-Ends d log q =
      let ops = base_drive os in
      let (f, l, r, n) =
        finished-Ends IsQuietBase
          (with_mount ops os (codes "drive-sq-mnt-") (read_only_checks ops) d log)
          (with_mount-Returns IsQuietBase IsReadyBase ops (base_drive-IsLawful os)
            (base_drive-IsCalm os) os (codes "drive-sq-mnt-") (read_only_checks ops)
            (read_only_checks-Returns IsQuietBase IsReadyBase ops (base_drive-IsLawful os)
              (base_drive-IsCalm os))
            d log q) in
      elim (Option-cases (ops.parameters d)) [
        | inl e ↦ absurd (ground (arith, q.has_options))
        | inr (p, e) ↦ elim (Bool-cases p.readonly) [
          | inl c ↦ (f, l, ground arith, n)
          | inr c ↦ (some not_read_only, log, ground arith, λ y. ground arith)
        ]
      ]

  pub delete_ephemeral-Ends :
      (src : Bytes) (log : Log)
      → Ends (run_delete_ephemeral_scenario os bare images temp_dir path map_name_of sha256 src log)
  unfolding run_delete_ephemeral_scenario
  delete_ephemeral-Ends src log =
      let ops = base_drive os in
      let law = base_drive-IsLawful os in
      let safe = base_drive-IsCalm os in
      on_copy-Ends src _ log (λ image l.
        on_image-Ends (codes "ephemeral") false true ext4 loop image _ l (λ d l' q.
          finished-Ends IsQuietBase _ (
            and_then-Returns IsQuietBase IsQuietBase _ _
              (delete-Returns IsQuietBase IsReadyBase ops law safe)
              (gone-Returns IsQuietBase IsReadyBase ops law safe os image) d l' q.quiet)))

  luks_part-Returns :
      (image : Bytes) (d : EncryptedDrive) (log : Log)
      → IsQuietEncrypted d
      → HasReturned IsQuietEncrypted
          (luks_part os bare images temp_dir path map_name_of sha256 image d log)
  unfolding luks_part
  luks_part-Returns image =
      let ops = encrypted_drive os map_name_of in
      let law = encrypted_drive-IsLawful os map_name_of in
      let safe = encrypted_drive-IsCalm os map_name_of in
      and_then-Returns IsQuietEncrypted IsQuietEncrypted _ _
        (write_and_load-Returns IsQuietEncrypted IsReadyEncrypted ops law safe
          (codes "/secure/data.txt") (codes "luks scenario payload"))
        (and_then-Returns IsQuietEncrypted IsQuietEncrypted _ _
          (unmount-Returns IsQuietEncrypted IsReadyEncrypted ops law safe)
          (and_then-Returns IsQuietEncrypted IsQuietEncrypted _ _
            (delete-Returns IsQuietEncrypted IsReadyEncrypted ops law safe)
            (gone-Returns IsQuietEncrypted IsReadyEncrypted ops law safe os image)))

  pub luks-Ends :
      (log : Log) → Ends (run_luks_rw_scenario os bare images temp_dir path map_name_of sha256 log)
  unfolding run_luks_rw_scenario
  luks-Ends log =
      let image : Bytes = join temp_dir (codes "drive-luks-scenario.img") in
      let log' : Log = remove image ∷ log in
      let options : DriveOptions =
        new_drive_options (codes "scenario-luks") false false [] [] true (pos 33554432) ext4 loop in
      let made = new_sha256_passphrase_key sha256 (codes "scenario-passphrase") in
      elim (Sum-cases made.0) [
        | inl (e, z) ↦ (some (failed_with e), log', ground arith, λ y. ground arith)
        | inr (key, z) ↦
            elim (Sum-cases
              (encrypted_drive_from_image os (images log') image (some key) (some options))) [
                | inl (e, y) ↦ (
                  some (failed_with e),
                  log',
                  ground arith,
                  λ u.
                      ground (
                        arith,
                        encrypted_calm os (images log') image (some key) (some options) e y,
                      ),
                )
                | inr (d, y) ↦
                    let q = encrypted_ready os (images log') image key (some options) d y in
                    let (f, l, r, n) = finished-Ends IsQuietEncrypted _ (
                      with_mount-Returns IsQuietEncrypted IsReadyEncrypted
                        (encrypted_drive os map_name_of) (encrypted_drive-IsLawful os map_name_of)
                        (encrypted_drive-IsCalm os map_name_of) os (codes "drive-luks-mnt-") _
                        (luks_part-Returns image) d log' q) in
                    (f, l, ground arith, n)
              ]
      ]
