-- ===== src/Drive/Interface/EncryptedLaws.antt =====
-- `*EncryptedDrive` of drive/encrypted_drive.go as a `Drive`.
use poprocks.Prelude.{
  ◌≡◌, refl, ap, ◌∙◌, inl, inr, suc, ◌-◌, false, some, Bytes, arith, Sum-cases, Option-cases,
  Bool-cases,
}
use poprocks.Drive.Errors.{not_mounted, is_not_mounted}
use poprocks.Drive.Os.{Log, Os}
use poprocks.Drive.Os.Laws.{Run-cases, >>=-inr}
use poprocks.Drive.Files.{Reader}
use poprocks.Drive.Encrypted.{EncryptedDrive, Held, prepare, map_and_mount, mount_with}
use poprocks.Drive.Encrypted
use poprocks.Drive.Encrypted.Unmount as EncryptedUnmount
use poprocks.Drive.Encrypted.Files as EncryptedFiles
use poprocks.Drive.Interface.Laws.{IsOff, IsLawful}
use poprocks.Drive.Interface.{without_key, encrypted_drive}

abbrev pub IsQuietEncrypted : EncryptedDrive → Type 0
IsQuietEncrypted d = d.in_flight ≡ 0

module _ (os : Os) where
  encrypted_finish-IsOff :
      (d : EncryptedDrive) (log : Log)
      → d.in_flight ≡ 0
      → IsOff (λ x. x.mounted) IsQuietEncrypted (some (EncryptedUnmount.finish_unmount os d log))
  unfolding EncryptedUnmount.finish_unmount
  encrypted_finish-IsOff d log q = record {
    error = (EncryptedUnmount.finish_unmount os d log).0;
    drive = (EncryptedUnmount.finish_unmount os d log).1;
    log = (EncryptedUnmount.finish_unmount os d log).2;
    returned = refl;
    quiet = ground arith;
    off = λ e. ground arith;
  }

  encrypted_unmount-IsOff :
      (d : EncryptedDrive) (log : Log)
      → d.in_flight ≡ 0
      → IsOff (λ x. x.mounted) IsQuietEncrypted (EncryptedUnmount.unmount os d log)
  unfolding EncryptedUnmount.unmount EncryptedUnmount.begin_unmount
  encrypted_unmount-IsOff d log q = elim (Sum-cases (EncryptedUnmount.begin_unmount d)) [
    | inl (e, h) ↦ record {
      error = some e;
      drive = d;
      log = log;
      returned = ground arith;
      quiet = q;
      off = λ x. ground arith;
    }
    | inr (d', h) ↦
        let q' : d'.in_flight ≡ 0 = ground arith in
        let f = encrypted_finish-IsOff d' log q' in
        record {
          error = f.error;
          drive = f.drive;
          log = f.log;
          returned = ground arith;
          quiet = f.quiet;
          off = f.off;
        }
  ]

  encrypted_finish_delete-IsOff :
      (d : EncryptedDrive) (log : Log)
      → d.in_flight ≡ 0
      → IsOff (λ x. x.mounted) IsQuietEncrypted (some (EncryptedUnmount.finish_delete os d log))
  unfolding EncryptedUnmount.finish_delete
  encrypted_finish_delete-IsOff d log q = record {
    error = (EncryptedUnmount.finish_delete os d log).0;
    drive = (EncryptedUnmount.finish_delete os d log).1;
    log = (EncryptedUnmount.finish_delete os d log).2;
    returned = refl;
    quiet = ground arith;
    off = λ e. ground arith;
  }

  encrypted_delete-IsOff :
      (d : EncryptedDrive) (log : Log)
      → d.in_flight ≡ 0
      → IsOff (λ x. x.mounted) IsQuietEncrypted (without_key (EncryptedUnmount.delete os d log))
  unfolding EncryptedUnmount.delete
  encrypted_delete-IsOff d log q =
      let u = encrypted_unmount-IsOff d log q in
      let f = encrypted_finish_delete-IsOff u.drive u.log u.quiet in
      let r = u.returned in
      elim (Option-cases u.error) [
        | inl e ↦ record {
          error = f.error;
          drive = f.drive;
          log = f.log;
          returned = ground (arith, f.returned);
          quiet = f.quiet;
          off = f.off;
        }
        | inr (x, e) ↦ elim (Bool-cases (is_not_mounted x)) [
          | inl c ↦ record {
            error = f.error;
            drive = f.drive;
            log = f.log;
            returned = ground (arith, f.returned);
            quiet = f.quiet;
            off = f.off;
          }
          | inr c ↦ record {
            error = some x;
            drive = u.drive;
            log = u.log;
            returned = ground arith;
            quiet = u.quiet;
            off = λ y. ground arith;
          }
        ]
      ]

  encrypted_unmount_unmounted :
      (d : EncryptedDrive) (log : Log)
      → d.mounted ≡ false
      → EncryptedUnmount.unmount os d log ≡ some (some not_mounted, d, log)
  unfolding EncryptedUnmount.unmount EncryptedUnmount.begin_unmount
  encrypted_unmount_unmounted d log e = ground arith

  begin_write_counted :
      (file : Bytes) (d d' : EncryptedDrive)
      → EncryptedFiles.begin_write file d ≡ inr d'
      → d' ≡ record d { in_flight = suc d.in_flight }
  unfolding EncryptedFiles.begin_write
  begin_write_counted file d d' h = elim (Option-cases d.params) [
    | inl e ↦ absurd (ground arith)
    | inr (p, e) ↦ ground arith
  ]

  begin_load_counted :
      (file : Bytes) (d d' : EncryptedDrive)
      → EncryptedFiles.begin_load file d ≡ inr d'
      → d' ≡ record d { in_flight = suc d.in_flight }
  unfolding EncryptedFiles.begin_load
  begin_load_counted file d d' h = ground arith

  end_io_again :
      (d d' : EncryptedDrive)
      → d' ≡ record d { in_flight = suc d.in_flight }
      → EncryptedFiles.end_io d' ≡ d
  unfolding EncryptedFiles.end_io
  end_io_again d d' e =
      let z : suc d.in_flight - 1 ≡ d.in_flight = omega arith in
      ap EncryptedFiles.end_io e ∙ ap (λ n. record d { in_flight = n }) z

  encrypted_write_leaves :
      (file : Bytes) (r : Reader) (d : EncryptedDrive) (log : Log)
      → (EncryptedFiles.write_to_drive os file r d log).1 ≡ d
  unfolding EncryptedFiles.write_to_drive
  encrypted_write_leaves file r d log = elim (Sum-cases (EncryptedFiles.begin_write file d)) [
    | inl (e, h) ↦ ground arith
    | inr (d', h) ↦ let z = end_io_again d d' (begin_write_counted file d d' h) in ground arith
  ]

  encrypted_load_leaves :
      (file : Bytes) (d : EncryptedDrive) (log : Log)
      → (EncryptedFiles.load_from_drive os file d log).1 ≡ d
  unfolding EncryptedFiles.load_from_drive
  encrypted_load_leaves file d log = elim (Sum-cases (EncryptedFiles.begin_load file d)) [
    | inl (e, h) ↦ ground arith
    | inr (d', h) ↦ let z = end_io_again d d' (begin_load_counted file d d' h) in ground arith
  ]

  module _ (map_name_of : Bytes → Bytes) where
    mount_with_keeps :
        (point : Bytes) (d d' : EncryptedDrive) (h h' : Held)
        → mount_with os map_name_of point d h ≡ (inr d', h')
        → d'.in_flight ≡ d.in_flight
    unfolding mount_with map_and_mount
    mount_with_keeps point d d' h h' e =
        let (p, h1, prepared, e1) =
          >>=-inr (prepare os map_name_of d.params point d.image_path)
            (λ p. map_and_mount os map_name_of d.params p d) h h' d' e in
        ground arith

    encrypted_mount-IsQuiet :
        (point : Bytes) (d : EncryptedDrive) (log : Log)
        → d.in_flight ≡ 0
        → (Encrypted.mount os map_name_of point d log).1.in_flight ≡ 0
    unfolding Encrypted.mount
    encrypted_mount-IsQuiet point d log q =
        elim (Run-cases (mount_with os map_name_of point d) (record { key = d.key; log = log })) [
          | inl (e, t, h) ↦ ground arith
          | inr (d', t, h) ↦ let m = mount_with_keeps point d d' _ t h in ground arith
        ]

    pub encrypted_drive-IsLawful : IsLawful (encrypted_drive os map_name_of) IsQuietEncrypted
    unfolding encrypted_drive
    encrypted_drive-IsLawful = record {
      mount-IsQuiet = encrypted_mount-IsQuiet;
      write_leaves = encrypted_write_leaves;
      load_leaves = encrypted_load_leaves;
      unmount-IsOff = encrypted_unmount-IsOff;
      unmount_unmounted = encrypted_unmount_unmounted;
      delete-IsOff = encrypted_delete-IsOff;
    }
