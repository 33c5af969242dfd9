-- ===== src/Drive/Encrypted/Files.antt =====
-- `WriteToDrive` and `LoadFromDrive` of drive/encrypted_drive.go. After their checks they do what
-- those of a `BaseDrive` do.
use poprocks.Prelude.{
  suc, ◌-◌, ◌≡◌, refl, ap, ◌∙◌, not, true, false, Option, none, some, [], ◌⊎◌, inl, inr,
  if◌then◌else◌, Bytes, bytes_eq, arith, Option-cases, bytes_eq_iff,
}
use poprocks.Drive.Errors.{
  DriveError, invalid_parameter, drive_not_valid, unmounted, unmounting, read_only_drive,
}
use poprocks.Drive.Options.{DriveOptions, squashfs, ext4, fs_type_of, validate}
use poprocks.Drive.Os.{Log, Os}
use poprocks.Drive.Base.{BaseDrive, Unmounter, validate_drive}
use poprocks.Drive.Files.{Reader, write_body, load_body}
use poprocks.Drive.Files
use poprocks.Drive.Encrypted.{EncryptedDrive, validate_encrypted}

-- The checks of `WriteToDrive` up to `ioWG.Add`.
unfoldable pub begin_write : Bytes → EncryptedDrive → DriveError ⊎ EncryptedDrive
unfolding bytes_eq validate_encrypted
begin_write file d = elim d.params [
  | none ↦ if bytes_eq file [] then inl invalid_parameter else inl drive_not_valid
  | some p ↦
      if bytes_eq file []
      then inl invalid_parameter
      else if not (validate_encrypted d)
      then inl drive_not_valid
      else if not d.mounted
      then inl unmounted
      else if d.un_mounting
      then inl unmounting
      else if p.readonly
      then inl read_only_drive
      else inr (record d { in_flight = suc d.in_flight })
]

-- The checks of `LoadFromDrive`, likewise.
unfoldable pub begin_load : Bytes → EncryptedDrive → DriveError ⊎ EncryptedDrive
unfolding bytes_eq validate_encrypted
begin_load file d =
    if bytes_eq file []
    then inl invalid_parameter
    else if not (validate_encrypted d)
    then inl drive_not_valid
    else if not d.mounted
    then inl unmounted
    else if d.un_mounting
    then inl unmounting
    else inr (record d { in_flight = suc d.in_flight })

-- `ioWG.Done`
unfoldable pub end_io : EncryptedDrive → EncryptedDrive
end_io d = record d { in_flight = d.in_flight - 1 }

module _ (os : Os) where
  -- `WriteToDrive`, with no other call between its steps.
  unfoldable pub write_to_drive :
      Bytes → Reader → EncryptedDrive → Log → (DriveError ⊎ Unit {0}) × EncryptedDrive × Log
  unfolding begin_write write_body end_io
  write_to_drive file r d log = elim (begin_write file d) [
    | inl e ↦ (inl e, d, log)
    | inr d' ↦ let done = write_body os d'.mount_point file r log in (done.0, end_io d', done.1)
  ]

  -- `LoadFromDrive`, likewise.
  unfoldable pub load_from_drive :
      Bytes → EncryptedDrive → Log → (DriveError ⊎ Bytes) × EncryptedDrive × Log
  unfolding begin_load load_body end_io
  load_from_drive file d log = elim (begin_load file d) [
    | inl e ↦ (inl e, d, log)
    | inr d' ↦ let done = load_body os d'.mount_point file log in (done.0, end_io d', done.1)
  ]

-- The drive without its encryption; its way to unmount is another.
abbrev pub as_base : Option Unmounter → EncryptedDrive → BaseDrive
as_base u d = record {
  params = d.params;
  image_path = d.image_path;
  mounted = d.mounted;
  mount_point = d.mount_point;
  unmount_func = u;
  in_flight = d.in_flight;
  un_mounting = d.un_mounting;
}

ext4_is_other : bytes_eq ext4 squashfs ≡ false
unfolding bytes_eq
ext4_is_other = refl

valid_parts :
    (d : EncryptedDrive)
    → validate_encrypted d ≡ true
    → (p : DriveOptions) × (d.params ≡ some p)
      × (validate p ≡ true)
      × (bytes_eq (fs_type_of p) squashfs ≡ false)
unfolding validate_encrypted
valid_parts d h = elim (Option-cases d.params) [
  | inl e ↦ absurd (ground arith)
  | inr (p, e) ↦ elim (Option-cases d.key) [
    | inl f ↦ absurd (ground arith)
    | inr (k, f) ↦
        let t : fs_type_of p ≡ ext4 = ground (arith, bytes_eq_iff (fs_type_of p) ext4) in
        (p, e, ground arith, ap (λ s. bytes_eq s squashfs) t ∙ ext4_is_other)
  ]
]

module _ (os : Os) (u : Option Unmounter) (file : Bytes) (d : EncryptedDrive) (log : Log)
    (valid : validate_encrypted d ≡ true) where
  -- A write to a valid encrypted drive is a write to the drive without its encryption: it has the
  -- same result, asks the same of the system, and leaves the same drive.
  pub write_to_drive-as_base :
      (r : Reader)
      → ((write_to_drive os file r d log).0 ≡ (Files.write_to_drive os file r (as_base u d) log).0)
        × (as_base u (write_to_drive os file r d log).1
            ≡ (Files.write_to_drive os file r (as_base u d) log).1)
        × ((write_to_drive os file r d log).2
            ≡ (Files.write_to_drive os file r (as_base u d) log).2)
  unfolding write_to_drive begin_write end_io Files.write_to_drive Files.begin_write Files.end_io
  write_to_drive-as_base r = let (p, e, v, t) = valid_parts d valid in ground arith

  -- And so is a read.
  pub load_from_drive-as_base :
      ((load_from_drive os file d log).0 ≡ (Files.load_from_drive os file (as_base u d) log).0)
      × (as_base u (load_from_drive os file d log).1
          ≡ (Files.load_from_drive os file (as_base u d) log).1)
      × ((load_from_drive os file d log).2 ≡ (Files.load_from_drive os file (as_base u d) log).2)
  unfolding load_from_drive begin_load end_io Files.load_from_drive Files.begin_load Files.end_io
      validate_drive
  load_from_drive-as_base = let (p, e, v, t) = valid_parts d valid in ground arith
