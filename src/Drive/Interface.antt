-- ===== src/Drive/Interface.antt =====
-- The interface `Drive` of drive/drive.go, and the two kinds of drive as implementations of it.
pub mod Laws
pub mod BaseLaws
pub mod EncryptedLaws
pub mod Calm
use poprocks.Prelude.{Bool, Option, none, some, ◌⊎◌, inl, inr, Bytes}
use poprocks.Drive.Errors.{DriveError}
use poprocks.Drive.Options.{DriveOptions}
use poprocks.Drive.Os.{Log, Os}
use poprocks.Drive.Base.{BaseDrive, validate_drive}
use poprocks.Drive.Base
use poprocks.Drive.Files.{Reader}
use poprocks.Drive.Files
use poprocks.Drive.Encrypted.{EncryptedDrive, validate_encrypted}
use poprocks.Drive.Encrypted
use poprocks.Drive.Encrypted.Unmount as EncryptedUnmount
use poprocks.Drive.Encrypted.Files as EncryptedFiles

-- A call of a drive gives its error, the drive that it leaves, and what was asked of the system;
-- `none` if it waits for the end of a read or a write.
pub record Drive (D : Type 0) : Type 0 where
  pub validate : D → Bool
  pub parameters : D → Option DriveOptions
  pub image_path : D → Bytes
  pub write_to_drive : Bytes → Reader → D → Log → (DriveError ⊎ Unit {0}) × D × Log
  pub load_from_drive : Bytes → D → Log → (DriveError ⊎ Bytes) × D × Log
  pub mounted : D → Bool
  pub mount : Bytes → D → Log → Option DriveError × D × Log
  pub unmount : D → Log → Option (Option DriveError × D × Log)
  pub delete : D → Log → Option (Option DriveError × D × Log)

-- A drive that fails to mount stays as it was.
abbrev pub left : BaseDrive → (DriveError ⊎ BaseDrive) × Log → Option DriveError × BaseDrive × Log
left d (inl e, log) = (some e, d, log)
left d (inr d', log) = (none, d', log)

-- What a drive's `Delete` leaves, without the key for whoever still holds it.
abbrev pub without_key {ℓ κ} :
    {A : Type ℓ} {B : Type κ}
    → Option (Option DriveError × A × Log × B)
    → Option (Option DriveError × A × Log)
without_key none = none
without_key (some (e, d, log, key)) = some (e, d, log)

module _ (os : Os) where
  -- `*BaseDrive`
  unfoldable pub base_drive : Drive BaseDrive
  unfolding validate_drive Base.mount Base.unmount Base.delete Files.write_to_drive
      Files.load_from_drive
  base_drive = record {
    validate = validate_drive;
    parameters = λ d. d.params;
    image_path = λ d. d.image_path;
    write_to_drive = Files.write_to_drive os;
    load_from_drive = Files.load_from_drive os;
    mounted = λ d. d.mounted;
    mount = λ point d log. left d (Base.mount os point d log);
    unmount = Base.unmount os;
    delete = Base.delete os;
  }

  -- `*EncryptedDrive`
  unfoldable pub encrypted_drive : (Bytes → Bytes) → Drive EncryptedDrive
  unfolding validate_encrypted Encrypted.mount EncryptedUnmount.unmount EncryptedUnmount.delete
      EncryptedFiles.write_to_drive EncryptedFiles.load_from_drive
  encrypted_drive map_name_of = record {
    validate = validate_encrypted;
    parameters = λ d. d.params;
    image_path = λ d. d.image_path;
    write_to_drive = EncryptedFiles.write_to_drive os;
    load_from_drive = EncryptedFiles.load_from_drive os;
    mounted = λ d. d.mounted;
    mount = Encrypted.mount os map_name_of;
    unmount = EncryptedUnmount.unmount os;
    delete = λ d log. without_key (EncryptedUnmount.delete os d log);
  }
