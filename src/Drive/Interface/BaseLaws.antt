-- ===== src/Drive/Interface/BaseLaws.antt =====
-- `*BaseDrive` of drive/base_drive.go as a `Drive`.
use poprocks.Prelude.{
  ◌≡◌, refl, ap, inl, inr, false, some, Bytes, arith, Sum-cases, Option-cases, Bool-cases,
}
use poprocks.Drive.Errors.{not_mounted, is_not_mounted}
use poprocks.Drive.Os.{Log, Os}
use poprocks.Drive.Os.Laws.{Run-cases}
use poprocks.Drive.Base.{BaseDrive}
use poprocks.Drive.Base
use poprocks.Drive.Files.{Reader}
use poprocks.Drive.Files
use poprocks.Drive.Files.Laws.{begin_load_ok, write_begun, end_io_again}
use poprocks.Drive.Life.Safety.{mount_ok}
use poprocks.Drive.Interface.Laws.{IsOff, IsLawful}
use poprocks.Drive.Interface.{left, base_drive}

abbrev pub IsQuietBase : BaseDrive → Type 0
IsQuietBase d = d.in_flight ≡ 0

module _ (os : Os) where
  base_finish-IsOff :
      (d : BaseDrive) (log : Log)
      → d.in_flight ≡ 0
      → IsOff (λ x. x.mounted) IsQuietBase (some (Base.finish_unmount os d log))
  unfolding Base.finish_unmount
  base_finish-IsOff d log q = record {
    error = (Base.finish_unmount os d log).0;
    drive = (Base.finish_unmount os d log).1;
    log = (Base.finish_unmount os d log).2;
    returned = refl;
    quiet = ground arith;
    off = λ e. ground arith;
  }

  base_unmount-IsOff :
      (d : BaseDrive) (log : Log)
      → d.in_flight ≡ 0
      → IsOff (λ x. x.mounted) IsQuietBase (Base.unmount os d log)
  unfolding Base.unmount Base.begin_unmount
  base_unmount-IsOff d log q = elim (Sum-cases (Base.begin_unmount d)) [
    | inl (e, h) ↦ record {
      error = some e;
      drive = d;
      log = log;
      returned = ground arith;
      quiet = q;
      off = λ x. ground arith;
    }
    | inr (d', h) ↦
        let q' : d'.in_flight ≡ 0 = ground arith in
        let f = base_finish-IsOff d' log q' in
        record {
          error = f.error;
          drive = f.drive;
          log = f.log;
          returned = ground arith;
          quiet = f.quiet;
          off = f.off;
        }
  ]

  base_finish_delete-IsOff :
      (d : BaseDrive) (log : Log)
      → d.in_flight ≡ 0
      → IsOff (λ x. x.mounted) IsQuietBase (some (Base.finish_delete os d log))
  unfolding Base.finish_delete
  base_finish_delete-IsOff d log q = record {
    error = (Base.finish_delete os d log).0;
    drive = (Base.finish_delete os d log).1;
    log = (Base.finish_delete os d log).2;
    returned = refl;
    quiet = ground arith;
    off = λ e. ground arith;
  }

  base_delete-IsOff :
      (d : BaseDrive) (log : Log)
      → d.in_flight ≡ 0
      → IsOff (λ x. x.mounted) IsQuietBase (Base.delete os d log)
  unfolding Base.delete
  base_delete-IsOff d log q =
      let u = base_unmount-IsOff d log q in
      let f = base_finish_delete-IsOff u.drive u.log u.quiet in
      let r = u.returned in
      elim (Option-cases u.error) [
        | inl e ↦ record {
          error = f.error;
          drive = f.drive;
          log = f.log;
          returned = ground (arith, f.returned);
          quiet = f.quiet;
          off = f.off;
        }
        | inr (x, e) ↦ elim (Bool-cases (is_not_mounted x)) [
          | inl c ↦ record {
            error = f.error;
            drive = f.drive;
            log = f.log;
            returned = ground (arith, f.returned);
            quiet = f.quiet;
            off = f.off;
          }
          | inr c ↦ record {
            error = some x;
            drive = u.drive;
            log = u.log;
            returned = ground arith;
            quiet = u.quiet;
            off = λ y. ground arith;
          }
        ]
      ]

  base_unmount_unmounted :
      (d : BaseDrive) (log : Log)
      → d.mounted ≡ false
      → Base.unmount os d log ≡ some (some not_mounted, d, log)
  unfolding Base.unmount Base.begin_unmount
  base_unmount_unmounted d log e = ground arith

  base_write_leaves :
      (file : Bytes) (r : Reader) (d : BaseDrive) (log : Log)
      → (Files.write_to_drive os file r d log).1 ≡ d
  unfolding Files.write_to_drive
  base_write_leaves file r d log = elim (Sum-cases (Files.begin_write file d)) [
    | inl (e, h) ↦ ground arith
    | inr (d', h) ↦ ap (λ x. x.1) (write_begun os file r d d' log h)
  ]

  base_load_leaves :
      (file : Bytes) (d : BaseDrive) (log : Log) → (Files.load_from_drive os file d log).1 ≡ d
  unfolding Files.load_from_drive
  base_load_leaves file d log = elim (Sum-cases (Files.begin_load file d)) [
    | inl (e, h) ↦ ground arith
    | inr (d', h) ↦ let z = end_io_again os d d' (begin_load_ok file d d' h).1 in ground arith
  ]

  base_mount-IsQuiet :
      (point : Bytes) (d : BaseDrive) (log : Log)
      → d.in_flight ≡ 0
      → (left d (Base.mount os point d log)).1.in_flight ≡ 0
  base_mount-IsQuiet point d log q = elim (Run-cases (Base.mount os point d) log) [
    | inl (e, t, h) ↦ ground arith
    | inr (d', t, h) ↦ let m = mount_ok os point d d' log t h in ground arith
  ]

  pub base_drive-IsLawful : IsLawful (base_drive os) IsQuietBase
  unfolding base_drive
  base_drive-IsLawful = record {
    mount-IsQuiet = base_mount-IsQuiet;
    write_leaves = base_write_leaves;
    load_leaves = base_load_leaves;
    unmount-IsOff = base_unmount-IsOff;
    unmount_unmounted = base_unmount_unmounted;
    delete-IsOff = base_delete-IsOff;
  }
