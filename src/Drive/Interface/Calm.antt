-- ===== src/Drive/Interface/Calm.antt =====
-- A `Drive` of drive/drive.go whose calls do not panic, and that the two kinds of drive are such.
use poprocks.Prelude.{◌≡◌, ◌≢◌, inl, inr, Option, some, Bytes, arith, Option-cases, true}
use poprocks.Drive.Errors.{DriveError, panicked}
use poprocks.Drive.Os.{Log, Os}
use poprocks.Drive.Os.Laws.{Run-cases}
use poprocks.Drive.Options.{DriveOptions}
use poprocks.Drive.Keys.{Key}
use poprocks.Drive.Base.{BaseDrive}
use poprocks.Drive.Base
use poprocks.Drive.Files.{Reader}
use poprocks.Drive.Encrypted.{EncryptedDrive}
use poprocks.Drive.Encrypted.Unmount as EncryptedUnmount
use poprocks.Drive.Calm
use poprocks.Drive.Calm.Held
use poprocks.Drive.Interface.BaseLaws.{IsQuietBase}
use poprocks.Drive.Interface.EncryptedLaws.{IsQuietEncrypted}
use poprocks.Drive.Interface.{Drive, base_drive, encrypted_drive, left, without_key}

-- A call that returned without a panic, if it returned.
abbrev pub IsCalmCall : {D : Type 0} → Option (Option DriveError × D × Log) → Type 0
IsCalmCall {D} r =
    (e : Option DriveError) (d : D) (log : Log) → r ≡ some (e, d, log) → e ≢ some panicked

-- Of a drive that `IsReady` a mount does not panic, and the other calls never do.
pub record IsCalm {D : Type 0} (ops : Drive D) (IsQuiet IsReady : D → Type 0) : Type 0 where
  pub ready-IsQuiet : (d : D) → IsReady d → IsQuiet d
  pub mount_calm :
      (point : Bytes) (d : D) (log : Log) → IsReady d → (ops.mount point d log).0 ≢ some panicked
  pub write_calm :
      (file : Bytes) (r : Reader) (d : D) (log : Log)
      → (ops.write_to_drive file r d log).0 ≢ inl panicked
  pub load_calm :
      (file : Bytes) (d : D) (log : Log) → (ops.load_from_drive file d log).0 ≢ inl panicked
  pub unmount_calm : (d : D) (log : Log) → IsCalmCall (ops.unmount d log)
  pub delete_calm : (d : D) (log : Log) → IsCalmCall (ops.delete d log)

-- It has parameters, and no read or write is under way.
pub record IsReadyBase (d : BaseDrive) : Type 0 where
  pub options : DriveOptions
  pub has_options : d.params ≡ some options
  pub quiet : d.in_flight ≡ 0

-- It has a key, too.
pub record IsReadyEncrypted (d : EncryptedDrive) : Type 0 where
  pub options : DriveOptions
  pub has_options : d.params ≡ some options
  pub key : Key
  pub has_key : d.key ≡ some key
  pub quiet : d.in_flight ≡ 0

module _ (os : Os) where
  base_mount_calm :
      (point : Bytes) (d : BaseDrive) (log : Log)
      → IsReadyBase d
      → (left d (Base.mount os point d log)).0 ≢ some panicked
  base_mount_calm point d log r e = elim (Run-cases (Base.mount os point d) log) [
    | inl (x, t, h) ↦ Calm.mount-calm os point d r.options log r.has_options (ground arith)
    | inr (d', t, h) ↦ ground arith
  ]

  base_unmount_calm : (d : BaseDrive) (log : Log) → IsCalmCall (Base.unmount os d log)
  unfolding Base.unmount Base.begin_unmount
  base_unmount_calm d log e d1 l h p = elim (Option-cases d.unmount_func) [
    | inl f ↦ ground arith
    | inr (u, f) ↦
        let marked : BaseDrive = record d { un_mounting = true } in
        ground (arith, Calm.finish_unmount-calm os marked u log f)
  ]

  base_delete_calm : (d : BaseDrive) (log : Log) → IsCalmCall (Base.delete os d log)
  unfolding Base.delete
  base_delete_calm d log e d1 l h p = elim (Option-cases (Base.unmount os d log)) [
    | inl f ↦ ground arith
    | inr ((x, d2, l2), f) ↦
        ground (arith, base_unmount_calm d log x d2 l2 f, Calm.finish_delete-calm os d2 l2)
  ]

  pub base_drive-IsCalm : IsCalm (base_drive os) IsQuietBase IsReadyBase
  unfolding base_drive
  base_drive-IsCalm = record {
    ready-IsQuiet = λ d r. r.quiet;
    mount_calm = base_mount_calm;
    write_calm = Calm.write_to_drive-calm os;
    load_calm = Calm.load_from_drive-calm os;
    unmount_calm = base_unmount_calm;
    delete_calm = base_delete_calm;
  }

  encrypted_unmount_calm :
      (d : EncryptedDrive) (log : Log) → IsCalmCall (EncryptedUnmount.unmount os d log)
  unfolding EncryptedUnmount.unmount EncryptedUnmount.begin_unmount
  encrypted_unmount_calm d log e d1 l h p = elim (Option-cases d.unmount_func) [
    | inl f ↦ ground arith
    | inr (u, f) ↦
        let marked : EncryptedDrive = record d { un_mounting = true } in
        ground (arith, Held.finish_unmount-calm os marked u log f)
  ]

  encrypted_delete_calm :
      (d : EncryptedDrive) (log : Log) → IsCalmCall (without_key (EncryptedUnmount.delete os d log))
  unfolding EncryptedUnmount.delete
  encrypted_delete_calm d log e d1 l h p = elim (Option-cases (EncryptedUnmount.unmount os d log)) [
    | inl f ↦ ground arith
    | inr ((x, d2, l2), f) ↦
        ground (arith, encrypted_unmount_calm d log x d2 l2 f, Held.finish_delete-calm os d2 l2)
  ]

  pub encrypted_drive-IsCalm :
      (map_name_of : Bytes → Bytes)
      → IsCalm (encrypted_drive os map_name_of) IsQuietEncrypted IsReadyEncrypted
  unfolding encrypted_drive
  encrypted_drive-IsCalm map_name_of = record {
    ready-IsQuiet = λ d r. r.quiet;
    mount_calm = λ point d log r.
        Held.mount-calm os map_name_of point d r.options r.key log r.has_options r.has_key;
    write_calm = Held.write_to_drive-calm os;
    load_calm = Held.load_from_drive-calm os;
    unmount_calm = encrypted_unmount_calm;
    delete_calm = encrypted_delete_calm;
  }
