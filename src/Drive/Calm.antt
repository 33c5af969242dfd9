-- ===== src/Drive/Calm.antt =====
-- The calls of drive/base_drive.go do not panic on a drive that has parameters.
pub mod Held
pub mod Made
use poprocks.Prelude.{
  ◌≡◌, ◌≢◌, ◌&&◌, ◌||◌, not, inl, inr, Bool, true, false, Option, none, some, List, [], ◌∷◌, Bytes,
  bytes_eq, codes, arith, Option-cases, Bool-cases, Sum-cases,
}
use poprocks.Vsock.Errors.{Result, Result-cases}
use poprocks.FilePath.{abs, rel, join, dir, dot, slash, clean}
use poprocks.FilePath.Rel.{escapes}
use poprocks.Prelude.{split, trim_prefix}
use poprocks.Drive.Errors.{DriveError, failed, panicked}
use poprocks.Drive.Options.{DriveOptions, default_to, fs_type_of, guestmount, loop}
use poprocks.Drive.Os.{Call, Log, Os, run, mkdir_temp, mkdir_all, open_write, remove_all, remove}
use poprocks.Drive.Paths.{Stat, safe_drive_path, walk, no_sym_links, path_check}
use poprocks.Drive.Paths.Cases.{Stat-cases}
use poprocks.Drive.Base.{
  BaseDrive, Unmounter, guest_unmounter, loop_unmounter, mount_opts, mount, mount_with,
  mount_with_guest_mount, mount_with_loop_device, run_unmounter, begin_unmount, finish_unmount,
  unmount, finish_delete, delete, is_ephemeral,
}
use poprocks.Drive.Files.{
  Reader, begin_write, begin_load, check_target, copy_and_close, write_body, load_body,
  write_to_drive, load_from_drive,
}

module _ (getwd : Result Bytes) where
  safe_drive_path-calm : (point file : Bytes) → safe_drive_path getwd point file ≢ inl panicked
  unfolding safe_drive_path
  safe_drive_path-calm point file e =
      let target = clean (join point (default_to dot (trim_prefix slash file))) in
      elim (Result-cases (abs getwd point)) [
        | inl (x, f) ↦ ground arith
        | inr (a, f) ↦ elim (Result-cases (abs getwd target)) [
          | inl (x, g) ↦ ground arith
          | inr (b, g) ↦ elim (Result-cases (rel a b)) [
            | inl (x, h) ↦ ground arith
            | inr (path, h) ↦ elim (Bool-cases (escapes path)) [
              | inl i ↦ ground arith
              | inr i ↦ ground arith
            ]
          ]
        ]
      ]

  module _ (lstat : Bytes → Stat) where
    walk-calm :
        (allow : Bool) (current : Bytes) (segments : List Bytes)
        → walk getwd lstat allow current segments ≢ some panicked
    unfolding walk
    walk-calm allow current [] e = ground arith
    walk-calm allow current (s ∷ ss) e =
        ground (arith, walk-calm allow current ss, walk-calm allow (join current s) ss)

    no_sym_links-calm :
        (point target : Bytes) (allow : Bool)
        → no_sym_links getwd lstat point target allow ≢ some panicked
    unfolding no_sym_links
    no_sym_links-calm point target allow e = elim (Result-cases (abs getwd point)) [
      | inl (x, f) ↦ ground arith
      | inr (a, f) ↦ elim (Result-cases (abs getwd target)) [
        | inl (x, g) ↦ ground arith
        | inr (b, g) ↦ elim (Result-cases (rel a b)) [
          | inl (x, h) ↦ ground arith
          | inr (path, h) ↦ ground (arith, walk-calm allow a (split slash path))
        ]
      ]
    ]

    path_check-calm :
        (point file : Bytes) (allow : Bool) → path_check getwd lstat point file allow ≢ inl panicked
    unfolding path_check
    path_check-calm point file allow e = elim (Sum-cases (safe_drive_path getwd point file)) [
      | inl (x, h) ↦ ground (arith, safe_drive_path-calm point file)
      | inr (safe, h) ↦ ground (arith, no_sym_links-calm point safe allow)
    ]

module _ (os : Os) where
  check_target-calm : (t : Bytes) (log : Log) → (check_target os t log).0 ≢ inl panicked
  unfolding check_target
  check_target-calm t log e = ground arith

  copy_and_close-calm :
      (t : Bytes) (r : Reader) (log : Log) → (copy_and_close os t r log).0 ≢ inl panicked
  unfolding copy_and_close
  copy_and_close-calm t r log e = ground arith

  pub write_body-calm :
      (point file : Bytes) (r : Reader) (log : Log)
      → (write_body os point file r log).0 ≢ inl panicked
  unfolding write_body
  write_body-calm point file r log e =
      elim (Sum-cases (path_check os.getwd (os.lstat log) point file true)) [
        | inl (x, h) ↦ ground (arith, path_check-calm os.getwd (os.lstat log) point file true)
        | inr (t, h) ↦
            let made : Log = mkdir_all (dir t) ∷ log in
            ground (
              arith,
              no_sym_links-calm os.getwd (os.lstat made) point (dir t) false,
              check_target-calm t made,
              copy_and_close-calm t r (open_write t ∷ made),
            )
      ]

  pub load_body-calm :
      (point file : Bytes) (log : Log) → (load_body os point file log).0 ≢ inl panicked
  unfolding load_body
  load_body-calm point file log e =
      elim (Sum-cases (path_check os.getwd (os.lstat log) point file false)) [
        | inl (x, h) ↦ ground (arith, path_check-calm os.getwd (os.lstat log) point file false)
        | inr (t, h) ↦ ground arith
      ]

  loop-calm :
      (image point fs opts : Bytes) (d : BaseDrive) (log : Log)
      → (mount_with_loop_device os image point fs opts d log).0 ≢ inl panicked
  unfolding mount_with_loop_device
  loop-calm image point fs opts d log e = ground arith

  guest-calm :
      (image point : Bytes) (readonly : Bool) (d : BaseDrive) (log : Log)
      → (mount_with_guest_mount os image point readonly d log).0 ≢ inl panicked
  unfolding mount_with_guest_mount
  guest-calm image point readonly d log e = ground arith

  pub mount-calm :
      (point : Bytes) (d : BaseDrive) (p : DriveOptions) (log : Log)
      → d.params ≡ some p
      → (mount os point d log).0 ≢ inl panicked
  unfolding mount mount_with
  mount-calm point d p log e h = elim (Bool-cases (bytes_eq point [])) [
    | inl c ↦ elim (Result-cases (os.gives log (mkdir_temp (codes "drive-mount-")))) [
      | inl (x, f) ↦ ground arith
      | inr (dir, f) ↦
          let log' : Log = mkdir_temp (codes "drive-mount-") ∷ log in
          ground (
            arith,
            guest-calm d.image_path dir p.readonly d log',
            loop-calm d.image_path dir (fs_type_of p) (mount_opts p.readonly) d log',
          )
    ]
    | inr c ↦ ground (
      arith,
      guest-calm d.image_path point p.readonly d log,
      loop-calm d.image_path point (fs_type_of p) (mount_opts p.readonly) d log,
    )
  ]

  unmounter-calm : (u : Unmounter) (log : Log) → (run_unmounter os u log).0 ≢ inl panicked
  unfolding run_unmounter
  unmounter-calm (guest_unmounter point) log e = ground arith
  unmounter-calm (loop_unmounter point device) log e = ground arith

  pub finish_unmount-calm :
      (d : BaseDrive) (u : Unmounter) (log : Log)
      → d.unmount_func ≡ some u
      → (finish_unmount os d log).0 ≢ some panicked
  unfolding finish_unmount
  finish_unmount-calm d u log h e = ground (arith, unmounter-calm u log)

  pub finish_delete-calm : (d : BaseDrive) (log : Log) → (finish_delete os d log).0 ≢ some panicked
  unfolding finish_delete
  finish_delete-calm d log e = ground arith

  pub write_to_drive-calm :
      (file : Bytes) (r : Reader) (d : BaseDrive) (log : Log)
      → (write_to_drive os file r d log).0 ≢ inl panicked
  unfolding write_to_drive begin_write
  write_to_drive-calm file r d log e = elim (Sum-cases (begin_write file d)) [
    | inl (x, h) ↦ ground arith
    | inr (d', h) ↦ ground (arith, write_body-calm d'.mount_point file r log)
  ]

  pub load_from_drive-calm :
      (file : Bytes) (d : BaseDrive) (log : Log) → (load_from_drive os file d log).0 ≢ inl panicked
  unfolding load_from_drive begin_load
  load_from_drive-calm file d log e = elim (Sum-cases (begin_load file d)) [
    | inl (x, h) ↦ ground arith
    | inr (d', h) ↦ ground (arith, load_body-calm d'.mount_point file log)
  ]
