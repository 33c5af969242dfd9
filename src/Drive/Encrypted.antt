-- ===== src/Drive/Encrypted.antt =====
-- drive/encrypted_drive.go. The state of a mount is the key and the log of what was asked: a use of
-- the key may use it up. `map_name_of` is what `mapName` makes of the digest of a path.
pub mod Unmount
pub mod Mapping
pub mod Balance
pub mod Files
pub mod OneShot
use poprocks.Prelude.{
  ℕ, zero, suc, ◌-◌, ◌==◌, ◌&&◌, ◌||◌, not, Bool, true, false, Option, none, some, List, [], ◌∷◌,
  ◌++◌, ◌⊎◌, inl, inr, if◌then◌else◌, Bytes, bytes_eq, codes, length,
}
use poprocks.Prelude.Int.{ℤ, pos, leb_ℤ}
use poprocks.Vsock.Errors.{Error, Result, ok, err}
use poprocks.FilePath.{abs, dir}
use poprocks.Drive.Errors.{
  DriveError, invalid_parameter, drive_not_valid, already_mounted, not_mounted, unmounting,
  no_mount_point, no_unmount_function, needs_root, encryption_unavailable, failed, panicked,
  is_not_mounted,
}
use poprocks.Drive.Options.{DriveOptions, loop, ext4, validate, fs_type_of, new_drive_options}
use poprocks.Drive.Os.{
  Call, Log, Os, Run, ◌>>=◌, ◌>>◌, pure, throw, reject_if, or_else, run, ask, attempt, is_luks,
  luks_format, luks_open, luks_close, truncate, make_ext4, mount_device, umount, mkdir_temp,
  mkdir_all, remove_all, remove,
}
use poprocks.Drive.Paths.{Stat, missing, unreadable, found}
use poprocks.Drive.Keys.{Key, destroy, with_reader}
use poprocks.Drive.Base.{is_ephemeral, mount_opts}

-- `unmountFunc` holds the mount point and the name of the mapping.
pub record Unmounter : Type 0 where
  pub point : Bytes
  pub map_name : Bytes

pub record EncryptedDrive : Type 0 where
  pub params : Option DriveOptions
  pub image_path : Bytes
  pub key : Option Key
  pub mounted : Bool
  pub mount_point : Bytes
  pub unmount_func : Option Unmounter
  pub in_flight : ℕ
  pub un_mounting : Bool

-- `Validate`
unfoldable pub validate_encrypted : EncryptedDrive → Bool
unfolding validate fs_type_of bytes_eq
validate_encrypted d = elim d.params [
  | none ↦ false
  | some p ↦ if not (validate p) then false else elim d.key [
    | none ↦ false
    | some k ↦ not (bytes_eq d.image_path []) && bytes_eq (fs_type_of p) ext4
  ]
]

-- What the computations of a mount share.
pub record Held : Type 0 where
  pub key : Option Key
  pub log : Log

-- A computation that does not look at the key.
abbrev pub with_log {ℓ} : {A : Type ℓ} → Run Log A → Run Held A
with_log m h = let r = m h.log in (r.0, record h { log = r.1 })

abbrev pub attempt_held : Call → Held → Held
attempt_held c h = record h { log = c ∷ h.log }

-- `if err := ...; err != nil { return err }`
abbrev pub throw_some : Option DriveError → Run Held (Unit {0})
throw_some none = pure tt
throw_some (some e) = throw e

-- A call of which the error is dropped.
abbrev pub ignore : Call → Run Held (Unit {0})
ignore c h = (inr tt, record h { log = c ∷ h.log })

abbrev pub tools : List Bytes
tools =
    codes "cryptsetup" ∷ codes "truncate" ∷ codes "mkfs.ext4" ∷ codes "mount" ∷ codes "umount" ∷ []

abbrev pub missing_tools : (Bytes → Bool) → List Bytes → List Bytes
missing_tools has_tool [] = []
missing_tools has_tool (t ∷ ts) =
    let rest = missing_tools has_tool ts in if has_tool t then rest else t ∷ rest

-- A look at the parameters.
abbrev pub look : Option DriveOptions → Run Held DriveOptions
look none = throw panicked
look (some p) = pure p

-- The check of `Mount` of an empty mount point.
abbrev pub check_point : Option DriveOptions → Bytes → Run Held (Unit {0})
check_point params [] = do p ← look params; reject_if (not p.ephemeral) no_mount_point
check_point params (b ∷ bs) = pure tt

module _ (os : Os) where
  -- `ensureEncryptionTooling`
  unfoldable pub ensure_encryption_tooling : Option DriveError
  ensure_encryption_tooling =
      if length (missing_tools os.has_tool tools) == 0 then none else some encryption_unavailable

  -- The mount point, or a fresh one.
  abbrev pub point_or_fresh : Bytes → Run Held Bytes
  point_or_fresh [] = with_log (ask os (mkdir_temp (codes "encrypted-drive-mount-")))
  point_or_fresh (b ∷ bs) = pure (b ∷ bs)

  -- `runCryptsetupWithKey`, by what cryptsetup is run for with the bytes that the key gives.
  unfoldable pub run_cryptsetup_with_key : (Bytes → Call) → Run Held (Unit {0})
  unfolding with_reader
  run_cryptsetup_with_key c h = elim h.key [
    | none ↦ (inl panicked, h)
    | some k ↦
        let r = with_reader os (λ bytes. run os (c bytes)) k h.log in
        (r.0, record { key = some r.1; log = r.2 })
  ]

module _ (map_name_of : Bytes → Bytes) where
  -- `mapName`
  unfoldable pub map_name : Bytes → Bytes
  map_name image = codes "drvcrypt-" ++ map_name_of image

  -- `mapperPath`
  unfoldable pub mapper_path : Bytes → Bytes
  unfolding map_name
  mapper_path image = codes "/dev/mapper/" ++ map_name image

module _ (os : Os) (map_name_of : Bytes → Bytes) where
  -- `ensureLUKSImage` from the name of the mapping on.
  unfoldable pub format_image : Bytes → Run Held (Unit {0})
  unfolding map_name mapper_path run_cryptsetup_with_key
  format_image image = do
    run_cryptsetup_with_key os (luks_format image)
    run_cryptsetup_with_key os (luks_open image (map_name map_name_of image))
    or_else (with_log (run os (make_ext4 (mapper_path map_name_of image))))
        (attempt_held (luks_close (map_name map_name_of image)))
    ignore (luks_close (map_name map_name_of image))

  -- `ensureLUKSImage` for an image that is not there.
  unfoldable pub create_luks_image : Option DriveOptions → Bytes → Run Held (Unit {0})
  unfolding dir format_image
  create_luks_image params image = do
    p ← look params
    reject_if (leb_ℤ p.size_bytes (pos 0)) invalid_parameter
    with_log (run os (mkdir_all (dir image)))
    with_log (run os (truncate p.size_bytes image))
    format_image image

  -- `ensureLUKSImage`
  unfoldable pub ensure_luks_image : Option DriveOptions → Bytes → Run Held (Unit {0})
  unfolding create_luks_image
  ensure_luks_image params image h = elim (os.stat h.log image) [
    | found link ↦ elim (os.fails h.log (is_luks image)) [
      | none ↦ (inr tt, attempt_held (is_luks image) h)
      | some e ↦ (inl invalid_parameter, attempt_held (is_luks image) h)
    ]
    | unreadable e ↦ (inl (failed e), h)
    | missing ↦ create_luks_image params image h
  ]

  abbrev pub mounted_at : Bytes → EncryptedDrive → EncryptedDrive
  mounted_at point d = record d {
    mounted = true;
    mount_point = point;
    unmount_func = some (record { point = point; map_name = map_name map_name_of d.image_path });
  }

  -- `Mount`, once it is neither mounted nor being unmounted, up to the mapping.
  unfoldable pub prepare : Option DriveOptions → Bytes → Bytes → Run Held Bytes
  unfolding ensure_luks_image
  prepare params mount_point image = do
    check_point params mount_point
    reject_if (not os.is_root) needs_root
    throw_some (ensure_encryption_tooling os)
    point ← point_or_fresh os mount_point
    ensure_luks_image params image
    pure point

  -- And from there on.
  unfoldable pub map_and_mount :
      Option DriveOptions → Bytes → EncryptedDrive → Run Held EncryptedDrive
  unfolding fs_type_of map_name mapper_path run_cryptsetup_with_key
  map_and_mount params point d = do
    run_cryptsetup_with_key os (luks_open d.image_path (map_name map_name_of d.image_path))
    p ← look params
    or_else
        (with_log (
          run os (
            mount_device (fs_type_of p) (mount_opts p.readonly)
              (mapper_path map_name_of d.image_path) point)))
        (attempt_held (luks_close (map_name map_name_of d.image_path)))
    pure (mounted_at point d)

  -- The two together.
  unfoldable pub mount_with : Bytes → EncryptedDrive → Run Held EncryptedDrive
  unfolding prepare map_and_mount
  mount_with mount_point d = do
    point ← prepare d.params mount_point d.image_path
    map_and_mount d.params point d

  -- `Mount`: the drive has the key that the mount leaves, and else, if it fails, is as it was.
  unfoldable pub mount : Bytes → EncryptedDrive → Log → Option DriveError × EncryptedDrive × Log
  unfolding mount_with
  mount mount_point d log =
      let r = mount_with mount_point d (record { key = d.key; log = log }) in
      if d.mounted
      then (some already_mounted, d, log)
      else if d.un_mounting
      then (some unmounting, d, log)
      else elim r.0 [
        | inl e ↦ (some e, record d { key = r.1.key }, r.1.log)
        | inr d' ↦ (none, record d' { key = r.1.key }, r.1.log)
      ]
