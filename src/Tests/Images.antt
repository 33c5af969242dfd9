-- ===== src/Tests/Images.antt =====
-- Keys, encrypted drives and images of drives.
use poprocks.Prelude.{
  arith, ◌≡◌, refl, ◌≢◌, ◌⊎◌, inr, ◌||◌, Bool, true, false, Option, none, some, [], ◌∷◌, Bytes,
  codes,
}
use poprocks.Prelude.Int.{ℤ, pos, leb_ℤ}
use poprocks.Vsock.Errors.{Error, ok, err, other}
use poprocks.FilePath.{abs}
use poprocks.Drive.Errors.{DriveError, failed}
use poprocks.Drive.Options.{DriveOptions, loop, ext4, guestmount, squashfs, validate, fs_type_of}
use poprocks.Drive.Os.{Os, Log, Call, wait_command}
use poprocks.Drive.Keys.{Key, in_memory, command_key, new_one_shot_key}
use poprocks.Drive.Encrypted.OneShot.{mount-new_one_shot_key}
use poprocks.Drive.Paths.{missing}
use poprocks.Drive.Base.{BaseDrive}
use poprocks.Drive.Files
use poprocks.Drive.Encrypted.{
  EncryptedDrive, mount, map_name, validate_encrypted, ensure_encryption_tooling,
}
use poprocks.Drive.Encrypted.Files.{write_to_drive, as_base, write_to_drive-as_base}
use poprocks.Drive.Encrypted.Mapping.{is_open}
use poprocks.Drive.Encrypted.Balance.Mount.{mount_balance}
use poprocks.Drive.Detect.{Image, file_of_size, detect_image_filesystem, base_drive_from_image}
use poprocks.Drive.Detect.Laws.{base_drive_from_image_ok}
use poprocks.Tests.Drive.{os}

abbrev plain : DriveOptions
plain = record {
  id = codes "d";
  readonly = false;
  is_root = false;
  part_uuid = [];
  cache_type = [];
  ephemeral = false;
  size_bytes = pos 4096;
  fs_type = ext4;
  mount_method = loop;
}

abbrev key : Key
key = in_memory (1 ∷ [])

abbrev encrypted : EncryptedDrive
encrypted = record {
  params = some plain;
  image_path = codes "/d.img";
  key = some key;
  mounted = false;
  mount_point = [];
  unmount_func = none;
  in_flight = 0;
  un_mounting = false;
}

abbrev name_of : Bytes → Bytes
name_of path = codes "00"

mount_balance_example :
    (((mount os name_of (codes "/m") encrypted []).0 ≡ none)
      × (is_open os
            (map_name name_of (codes "/d.img"))
            (mount os name_of (codes "/m") encrypted []).2
          ≡ true))
    ⊎ ((e : DriveError) × ((mount os name_of (codes "/m") encrypted []).0 ≡ some e)
        × (is_open os
              (map_name name_of (codes "/d.img"))
              (mount os name_of (codes "/m") encrypted []).2
            ≡ false))
mount_balance_example =
    mount_balance os name_of (codes "/m") encrypted plain key [] refl refl tt refl

mounts : (mount os name_of (codes "/m") encrypted []).0 ≡ none
unfolding mount ensure_encryption_tooling
mounts = refl

-- A command that gives the key, is read to its end, and then fails: the mapping stays open.
abbrev wait_fails : Log → Call → Option Error
wait_fails log (wait_command name args) = some (other 7)
wait_fails log _ = none

abbrev waiting_os : Os
waiting_os = record os { fails = wait_fails }

abbrev commanded : EncryptedDrive
commanded = record encrypted { key = some (command_key (codes "pass") []) }

abbrev left_open : Option DriveError × EncryptedDrive × Log
left_open = mount waiting_os name_of (codes "/m") commanded []

mapping_left :
    (left_open.0 ≡ some (failed (other 7)))
    × (is_open waiting_os (map_name name_of (codes "/d.img")) left_open.2 ≡ true)
unfolding mount ensure_encryption_tooling
mapping_left = (refl, refl)

abbrev mounted_drive : EncryptedDrive
mounted_drive = record encrypted { mounted = true; mount_point = codes "/m" }

mounted_is_valid : validate_encrypted mounted_drive ≡ true
unfolding validate_encrypted
mounted_is_valid = refl

abbrev reader : Files.Reader
reader = record { content = 1 ∷ []; problem = none }

write_to_drive-as_base_example :
    ((write_to_drive os (codes "a") reader mounted_drive []).0
      ≡ (Files.write_to_drive os (codes "a") reader (as_base none mounted_drive) []).0)
    × (as_base none (write_to_drive os (codes "a") reader mounted_drive []).1
        ≡ (Files.write_to_drive os (codes "a") reader (as_base none mounted_drive) []).1)
    × ((write_to_drive os (codes "a") reader mounted_drive []).2
        ≡ (Files.write_to_drive os (codes "a") reader (as_base none mounted_drive) []).2)
write_to_drive-as_base_example =
    write_to_drive-as_base os none (codes "a") mounted_drive [] mounted_is_valid reader

-- No file is there.
abbrev empty_os : Os
empty_os = record os { stat = λ log path. missing }

abbrev with_one_shot : EncryptedDrive
with_one_shot = record encrypted { key = some (new_one_shot_key key) }

mount-new_one_shot_key_example :
    ((e : DriveError) × ((mount empty_os name_of (codes "/m") with_one_shot []).0 ≡ some e))
    × ((mount empty_os name_of (codes "/m") with_one_shot []).1.mounted ≡ false)
mount-new_one_shot_key_example =
    mount-new_one_shot_key empty_os name_of key (codes "/m") with_one_shot [] refl
      (λ e. ground arith) refl

-- With a key that can be used again, the image is made and mounted.
empty_mounts : (mount empty_os name_of (codes "/m") encrypted []).0 ≡ none
unfolding mount ensure_encryption_tooling
empty_mounts = refl

-- A squashfs image, by its magic number.
abbrev image : Image
image = record { info = file_of_size (pos 4); content = ok (codes "hsqs"); blkid = err (other 0) }

abbrev image_at : Bytes → Image
image_at path = image

abbrev detected : BaseDrive
detected = record {
  params = some (record {
    id = codes "disk";
    readonly = true;
    is_root = false;
    part_uuid = [];
    cache_type = [];
    ephemeral = false;
    size_bytes = pos 4;
    fs_type = squashfs;
    mount_method = guestmount;
  });
  image_path = codes "/disk.img";
  mounted = false;
  mount_point = [];
  unmount_func = none;
  in_flight = 0;
  un_mounting = false;
}

is_detected : base_drive_from_image os image_at (codes "disk.img") none ≡ inr detected
unfolding base_drive_from_image
is_detected = refl

base_drive_from_image_ok_example :
    (abs os.getwd (codes "disk.img") ≡ ok detected.image_path)
    × ((size : ℤ) × (image.info ≡ file_of_size size) × (leb_ℤ size (pos 0) ≡ false))
    × ((p : DriveOptions) × (read_only : Bool) × (detected.params ≡ some p)
        × (validate p ≡ true)
        × (p.mount_method ≢ [])
        × (detect_image_filesystem image ≡ inr (fs_type_of p, read_only))
        × (p.readonly ≡ (p.readonly || read_only)))
    × (detected.mounted ≡ false)
base_drive_from_image_ok_example =
    base_drive_from_image_ok os image_at (codes "disk.img") none detected is_detected
