-- ===== src/Drive/Detect.antt =====
-- drive/autodetect.go, drive/mount_method.go and `EncryptedDriveFromImage`. A path is read as its
-- runes, which are its bytes if it is ASCII. Of the errors' texts only that of
-- `DetectBestMountMethod` is here.
pub mod Laws
use poprocks.Prelude.{
  ℕ, suc, ◌==◌, ◌&&◌, ◌||◌, not, leb, Bool, true, false, Option, none, some, List, [], ◌∷◌, ◌++◌,
  ◌⊎◌, inl, inr, if◌then◌else◌, Bytes, bytes_eq, codes, map, take, drop, length, trim, is_space,
}
use poprocks.Prelude.Int.{ℤ, pos, leb_ℤ}
use poprocks.Vsock.Errors.{Error, Result, ok, err}
use poprocks.FilePath.{abs, base}
use poprocks.Drive.Errors.{DriveError, invalid_parameter, drive_not_valid, no_mount_method}
use poprocks.Drive.Options.{
  DriveOptions, guestmount, loop, ext4, squashfs, new_drive_options, validate, fs_type_of,
  default_to,
}
use poprocks.Drive.Os.{Os}
use poprocks.Drive.Keys.{Key}
use poprocks.Drive.Base.{BaseDrive, validate_drive}
use poprocks.Drive.Encrypted.{EncryptedDrive, validate_encrypted}

-- What there is at a path: `os.Stat` finds nothing, or a directory or a file with its size; the content
-- that opening and reading the file gives, and what blkid, if it is there, prints about it.
pub data FileInfo : Type 0 where
  no_file : FileInfo
  directory : ℤ → FileInfo
  file_of_size : ℤ → FileInfo

pub record Image : Type 0 where
  pub info : FileInfo
  pub content : Result Bytes
  pub blkid : Result Bytes

-- `DetectBestMountMethod`
unfoldable pub detect_best_mount_method : Os → DriveError ⊎ Bytes
detect_best_mount_method os =
    if os.has_tool guestmount && os.has_tool (codes "guestunmount")
    then inr guestmount
    else if os.is_root
        && os.has_tool (codes "losetup")
        && os.has_tool (codes "mount")
        && os.has_tool (codes "umount")
    then inr loop
    else inl no_mount_method

-- `strings.Join(reasons, ", ")`, or "ok" if there are none.
abbrev joined : List Bytes → Bytes
joined [] = []
joined (r ∷ []) = r
joined (r ∷ s ∷ rs) = r ++ (codes ", " ++ joined (s ∷ rs))

abbrev or_ok : List Bytes → Bytes
or_ok [] = codes "ok"
or_ok (r ∷ rs) = joined (r ∷ rs)

abbrev unless : Bool → Bytes → List Bytes
unless b reason = if b then [] else reason ∷ []

-- `reasonFromTooling`, by which tools there are.
unfoldable pub reason_from_tooling : Bool → Bool → Bytes
reason_from_tooling guest_mount guest_unmount = or_ok (
    unless guest_mount (codes "guestmount missing")
    ++ unless guest_unmount (codes "guestunmount missing"))

-- `reasonFromLoopTooling`
unfoldable pub reason_from_loop_tooling : Bool → Bool → Bool → Bool → Bytes
reason_from_loop_tooling is_root losetup mount umount = or_ok (
    unless is_root (codes "requires root")
    ++ (unless losetup (codes "losetup missing")
        ++ (unless mount (codes "mount missing") ++ unless umount (codes "umount missing"))))

-- The text of the error that `DetectBestMountMethod` makes.
unfoldable pub no_mount_method_text : Os → Bytes
unfolding reason_from_tooling reason_from_loop_tooling
no_mount_method_text os =
    codes "guestmount="
    ++ (reason_from_tooling (os.has_tool guestmount) (os.has_tool (codes "guestunmount"))
        ++ (codes "; loop="
            ++ reason_from_loop_tooling os.is_root (os.has_tool (codes "losetup"))
                (os.has_tool (codes "mount")) (os.has_tool (codes "umount"))))

-- `header[i]`, which is within the header where it is asked for.
abbrev pub byte_at : ℕ → Bytes → ℕ
byte_at i header = elim (drop i header) [ [] ↦ 0 | b ∷ bs ↦ b ]

abbrev pub has_magic : Bytes → Bytes → Bool
has_magic header magic = leb 4 (length header) && bytes_eq (take 4 header) magic

-- `detectImageFilesystem` for the header: the type, and whether it is read-only.
unfoldable pub detect_header : Bytes → Result Bytes → DriveError ⊎ (Bytes × Bool)
unfolding bytes_eq trim
detect_header header blkid =
    if has_magic header (codes "hsqs") || has_magic header (codes "sqsh")
    then inr (squashfs, true)
    else if leb 1082 (length header) && (byte_at 1080 header == 83) && (byte_at 1081 header == 239)
    then inr (ext4, false)
    else if has_magic header (81 ∷ 70 ∷ 73 ∷ 251 ∷ [])
    then inl invalid_parameter
    else elim blkid [
      | err e ↦ inl invalid_parameter
      | ok out ↦ elim (trim is_space out) [
        | [] ↦ inl invalid_parameter
        | b ∷ bs ↦ inr (b ∷ bs, bytes_eq (b ∷ bs) squashfs)
      ]
    ]

-- `detectImageFilesystem`; reading nothing at all is `io.EOF`, and fails.
unfoldable pub detect_image_filesystem : Image → DriveError ⊎ (Bytes × Bool)
unfolding detect_header
detect_image_filesystem image = elim image.content [
  | err e ↦ inl invalid_parameter
  | ok [] ↦ inl invalid_parameter
  | ok (b ∷ bs) ↦ detect_header (take 4096 (b ∷ bs)) image.blkid
]

-- What stands before the last full stop, if there is one.
abbrev pub before_dot : Bytes → Option Bytes
before_dot [] = none
before_dot (b ∷ bs) = elim (before_dot bs) [
  | some front ↦ some (b ∷ front)
  | none ↦ if b == 46 then some [] else none
]

-- `strings.TrimSuffix(s, filepath.Ext(s))`
abbrev pub without_ext : Bytes → Bytes
without_ext s = elim (before_dot s) [ some front ↦ front | none ↦ s ]

-- `r == '-' || r == '_' || r == '.'`
abbrev pub is_mark : ℕ → Bool
is_mark r = r == 45 || r == 95 || r == 46

abbrev pub is_id_rune : ℕ → Bool
is_id_rune r = leb 97 r && leb r 122 || leb 65 r && leb r 90 || leb 48 r && leb r 57 || is_mark r

abbrev pub id_rune : ℕ → ℕ
id_rune r = if is_id_rune r then r else 45

-- `deriveDriveIDFromPath`
unfoldable pub derive_drive_id_from_path : Bytes → Bytes
unfolding trim base
derive_drive_id_from_path image_path =
    default_to (codes "drive")
      (trim is_mark (map id_rune (trim is_space (without_ext (base image_path)))))

module _ (os : Os) (image_at : Bytes → Image) where
  -- The parameters of `BaseDriveFromImage`: the ones given, with a mount method, or detected ones.
  unfoldable pub drive_params :
      Bytes → ℤ → Bytes → Bool → Option DriveOptions → DriveError ⊎ DriveOptions
  unfolding detect_best_mount_method derive_drive_id_from_path new_drive_options bytes_eq
  drive_params path size fs_type read_only none = elim (detect_best_mount_method os) [
    | inl e ↦ inl e
    | inr method ↦ inr (
        new_drive_options (derive_drive_id_from_path path) read_only false [] [] false size fs_type
          method)
  ]
  drive_params path size fs_type read_only (some p) =
      if not (bytes_eq p.mount_method []) then inr p else elim (detect_best_mount_method os) [
        | inl e ↦ inl e
        | inr method ↦ inr (record p { mount_method = method })
      ]

  abbrev pub new_drive : DriveOptions → Bytes → BaseDrive
  new_drive p path = record {
    params = some p;
    image_path = path;
    mounted = false;
    mount_point = [];
    unmount_func = none;
    in_flight = 0;
    un_mounting = false;
  }

  -- The end of `BaseDriveFromImage`.
  unfoldable pub check_drive : Bytes → Bytes → Bool → DriveOptions → DriveError ⊎ BaseDrive
  unfolding validate fs_type_of bytes_eq
  check_drive path fs_type read_only p =
      if not (validate p)
      then inl drive_not_valid
      else if not (bytes_eq (fs_type_of p) fs_type)
      then inl invalid_parameter
      else if read_only && not p.readonly
      then inl invalid_parameter
      else inr (new_drive p path)

  -- `BaseDriveFromImage`
  unfoldable pub base_drive_from_image : Bytes → Option DriveOptions → DriveError ⊎ BaseDrive
  unfolding abs detect_image_filesystem drive_params check_drive
  base_drive_from_image [] options = inl invalid_parameter
  base_drive_from_image (b ∷ bs) options = elim (abs os.getwd (b ∷ bs)) [
    | err e ↦ inl invalid_parameter
    | ok path ↦ elim (image_at path).info [
      | no_file ↦ inl invalid_parameter
      | directory size ↦ inl invalid_parameter
      | file_of_size size ↦
          if leb_ℤ size (pos 0)
          then inl invalid_parameter
          else elim (detect_image_filesystem (image_at path)) [
            | inl e ↦ inl e
            | inr (fs_type, read_only) ↦ elim (drive_params path size fs_type read_only options) [
              | inl e ↦ inl e
              | inr p ↦ check_drive path fs_type read_only p
            ]
          ]
    ]
  ]

  abbrev pub new_encrypted : DriveOptions → Bytes → Key → EncryptedDrive
  new_encrypted p path key = record {
    params = some p;
    image_path = path;
    key = some key;
    mounted = false;
    mount_point = [];
    unmount_func = none;
    in_flight = 0;
    un_mounting = false;
  }

  -- The parameters of `EncryptedDriveFromImage`.
  unfoldable pub encrypted_params : Bytes → Option DriveOptions → Option DriveOptions
  unfolding derive_drive_id_from_path new_drive_options
  encrypted_params path (some p) = some p
  encrypted_params path none = elim (image_at path).info [
    | no_file ↦ none
    | directory size ↦
        some (
          new_drive_options (derive_drive_id_from_path path) false false [] [] false size ext4 loop)
    | file_of_size size ↦
        some (
          new_drive_options (derive_drive_id_from_path path) false false [] [] false size ext4 loop)
  ]

  -- `EncryptedDriveFromImage`
  unfoldable pub encrypted_drive_from_image :
      Bytes → Option Key → Option DriveOptions → DriveError ⊎ EncryptedDrive
  unfolding abs encrypted_params fs_type_of bytes_eq validate_encrypted
  encrypted_drive_from_image [] key options = inl invalid_parameter
  encrypted_drive_from_image (b ∷ bs) none options = inl invalid_parameter
  encrypted_drive_from_image (b ∷ bs) (some key) options = elim (abs os.getwd (b ∷ bs)) [
    | err e ↦ inl invalid_parameter
    | ok path ↦ elim (encrypted_params path options) [
      | none ↦ inl invalid_parameter
      | some p ↦
          if not (bytes_eq (fs_type_of p) ext4)
          then inl invalid_parameter
          else if not (validate_encrypted (new_encrypted p path key))
          then inl drive_not_valid
          else inr (new_encrypted p path key)
    ]
  ]
