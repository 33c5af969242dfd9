-- ===== src/Drive/Files/Laws.antt =====
-- What `WriteToDrive` of drive/base_drive.go asks of the operating system.
use poprocks.Prelude.{
  suc, ◌-◌, ◌≡◌, refl, sym, ap, ◌∙◌, ◌≢◌, ◌⊎◌, inl, inr, true, false, none, some, [], ◌∷◌, ◌++◌,
  Bytes, arith, Option-cases, Sum-cases, bytes_eq_iff, All,
}
use poprocks.Vsock.Errors.{ok}
use poprocks.FilePath.{abs, dir}
use poprocks.FilePath.Join.{IsGetwd}
use poprocks.FilePath.Tree.{IsUnder}
use poprocks.Drive.Options.{DriveOptions, squashfs, fs_type_of}
use poprocks.Drive.Paths.{path_check}
use poprocks.Drive.Paths.Links.{path_check-IsPlain}
use poprocks.Drive.Os.{Call, Log, Os, mkdir_all, open_write, write_bytes, close_file}
use poprocks.Drive.Base.{BaseDrive}
use poprocks.Drive.Files.{
  begin_write, end_io, begin_load, Reader, check_target, copy_and_close, write_body, write_to_drive,
}

-- When a write begins, and what it counts.
pub record IsBegun (d d' : BaseDrive) : Type 0 where
  pub parameters :
      (p : DriveOptions) × (d.params ≡ some p) × (p.readonly ≡ false) × (fs_type_of p ≢ squashfs)
  pub on : d.mounted ≡ true
  pub un_marked : d.un_mounting ≡ false
  pub counted : d' ≡ record d { in_flight = suc d.in_flight }

pub begin_write_ok : (file : Bytes) (d d' : BaseDrive) → begin_write file d ≡ inr d' → IsBegun d d'
unfolding begin_write
begin_write_ok file d d' h = elim (Option-cases d.params) [
  | inl e ↦ absurd (ground arith)
  | inr (p, e) ↦ record {
    parameters = (p, e, ground arith, λ x. ground (arith, bytes_eq_iff (fs_type_of p) squashfs));
    on = ground arith;
    un_marked = ground arith;
    counted = ground arith;
  }
]

pub begin_load_ok :
    (file : Bytes) (d d' : BaseDrive)
    → begin_load file d ≡ inr d'
    → (d.un_mounting ≡ false) × (d' ≡ record d { in_flight = suc d.in_flight })
unfolding begin_load
begin_load_ok file d d' h = ground arith

-- How far a write got.
abbrev pub IsWriteLog : Bytes → Bytes → Log → Log → Type 0
IsWriteLog t content log log' =
    (log' ≡ mkdir_all (dir t) ∷ log)
    ⊎ ((log' ≡ open_write t ∷ mkdir_all (dir t) ∷ log)
        ⊎ (log' ≡ close_file t ∷ write_bytes t content ∷ open_write t ∷ mkdir_all (dir t) ∷ log))

module _ (os : Os) where
  copy_and_close_log :
      (t : Bytes) (r : Reader) (log : Log)
      → (copy_and_close os t r log).1 ≡ close_file t ∷ write_bytes t r.content ∷ log
  unfolding copy_and_close
  copy_and_close_log t r log = ground arith

  check_target_log : (t : Bytes) (log : Log) → (check_target os t log).1 ≡ log
  unfolding check_target
  check_target_log t log = ground arith

  write_body_log :
      (point file : Bytes) (r : Reader) (log : Log)
      → ((write_body os point file r log).1 ≡ log)
        ⊎ ((t : Bytes) × (path_check os.getwd (os.lstat log) point file true ≡ inr t)
            × IsWriteLog t r.content log (write_body os point file r log).1)
  unfolding write_body
  write_body_log point file r log =
      elim (Sum-cases (path_check os.getwd (os.lstat log) point file true)) [
        | inl (e, h) ↦ inl (ground arith)
        | inr (t, h) ↦
            let log1 : Log = mkdir_all (dir t) ∷ log in
            let log2 : Log = open_write t ∷ log1 in
            inr (t, h, ground (arith, check_target_log t log1, copy_and_close_log t r log2))
      ]

  pub end_io_again :
      (d d' : BaseDrive) → d' ≡ record d { in_flight = suc d.in_flight } → end_io d' ≡ d
  unfolding end_io
  end_io_again d d' e =
      let z : suc d.in_flight - 1 ≡ d.in_flight = omega arith in
      ap end_io e ∙ ap (λ n. record d { in_flight = n }) z

  pub write_begun :
      (file : Bytes) (r : Reader) (d d' : BaseDrive) (log : Log)
      → begin_write file d ≡ inr d'
      → write_to_drive os file r d log ≡ (
        (write_body os d.mount_point file r log).0,
        d,
        (write_body os d.mount_point file r log).1,
      )
  unfolding write_to_drive
  write_begun file r d d' log h =
      let c = (begin_write_ok file d d' h).counted in
      let p : d'.mount_point ≡ d.mount_point = ap (λ x. x.mount_point) c in
      let e = end_io_again d d' c in ground arith

  copy_and_close_ok :
      (t : Bytes) (r : Reader) (log : Log)
      → (copy_and_close os t r log).0 ≡ inr tt
      → (r.problem ≡ none) × (os.fails log (write_bytes t r.content) ≡ none)
  unfolding copy_and_close
  copy_and_close_ok t r log h = ground arith

  write_body_ok :
      (point file : Bytes) (r : Reader) (log : Log)
      → (write_body os point file r log).0 ≡ inr tt
      → (t : Bytes) × (path_check os.getwd (os.lstat log) point file true ≡ inr t)
        × ((write_body os point file r log).1
            ≡ close_file t ∷ write_bytes t r.content ∷ open_write t ∷ mkdir_all (dir t) ∷ log)
        × (r.problem ≡ none)
        × (os.fails (open_write t ∷ mkdir_all (dir t) ∷ log) (write_bytes t r.content) ≡ none)
  unfolding write_body
  write_body_ok point file r log s =
      elim (Sum-cases (path_check os.getwd (os.lstat log) point file true)) [
        | inl (e, h) ↦ absurd (ground arith)
        | inr (t, h) ↦
            let log1 : Log = mkdir_all (dir t) ∷ log in
            let log2 : Log = open_write t ∷ log1 in
            (
              t,
              h,
              ground (arith, check_target_log t log1, copy_and_close_log t r log2),
              ground (arith, check_target_log t log1, copy_and_close_ok t r log2),
              ground (arith, check_target_log t log1, copy_and_close_ok t r log2),
            )
      ]

-- A call that changes files only in the tree below the mount point; `os.MkdirAll` is asked for the
-- directory of a file there.
abbrev pub IsConfined : Bytes → Call → Type 0
IsConfined m (mkdir_all p) = (t : Bytes) × IsUnder m t × (p ≡ dir t)
IsConfined m (open_write p) = IsUnder m p
IsConfined m (write_bytes p bs) = IsUnder m p
IsConfined m (close_file p) = IsUnder m p
IsConfined m _ = ⊥

module _ (os : Os) (g : IsGetwd os.getwd) (file : Bytes) (r : Reader) (d : BaseDrive) (log : Log)
    (m : Bytes) (mount_abs : abs os.getwd d.mount_point ≡ ok m) where
  target-IsUnder :
      (t : Bytes) → path_check os.getwd (os.lstat log) d.mount_point file true ≡ inr t → IsUnder m t
  target-IsUnder t h =
      (path_check-IsPlain (os.lstat log) os.getwd g d.mount_point m mount_abs file t true h).0

  log-IsConfined :
      (t : Bytes) (log' : Log)
      → IsUnder m t
      → IsWriteLog t r.content log log'
      → (new : Log) × (log' ≡ new ++ log) × All (IsConfined m) new
  log-IsConfined t log' u (inl e) = (mkdir_all (dir t) ∷ [], e, ((t, u, refl), tt))
  log-IsConfined t log' u (inr (inl e)) =
      (open_write t ∷ mkdir_all (dir t) ∷ [], e, (u, ((t, u, refl), tt)))
  log-IsConfined t log' u (inr (inr e)) = (
    close_file t ∷ write_bytes t r.content ∷ open_write t ∷ mkdir_all (dir t) ∷ [],
    e,
    (u, (u, (u, ((t, u, refl), tt)))),
  )

  -- A write, whether it succeeds or not, opens, writes and closes only files in the tree below
  -- the mount point and makes only the directories of such files, and leaves the drive as it was.
  -- It is taken that `os.Getwd` gives an absolute path and that the mount point has one.
  pub write_to_drive-IsConfined :
      (new : Log) × ((write_to_drive os file r d log).2 ≡ new ++ log)
      × All (IsConfined m) new
      × ((write_to_drive os file r d log).1 ≡ d)
  unfolding write_to_drive
  write_to_drive-IsConfined = elim (Sum-cases (begin_write file d)) [
    | inl (e, h) ↦ ([], ground arith, tt, ground arith)
    | inr (d', h) ↦
        let w = write_begun os file r d d' log h in
        elim (write_body_log os d.mount_point file r log) [
          | inl e ↦ ([], ap (λ x. x.2) w ∙ e, tt, ap (λ x. x.1) w)
          | inr (t, c, e) ↦
              let (new, f, k) = log-IsConfined t _ (target-IsUnder t c) e in
              (new, ap (λ x. x.2) w ∙ f, k, ap (λ x. x.1) w)
        ]
  ]

  -- A write that succeeds found the drive mounted, not being unmounted and writable, and put all
  -- that the reader gave into one file in the tree below the mount point, opened and closed for
  -- it, without an error of the reader or of the write. It is taken that `os.Getwd` gives an
  -- absolute path and that the mount point has one.
  pub write_to_drive_ok :
      (write_to_drive os file r d log).0 ≡ inr tt
      → (t : Bytes) × IsUnder m t
        × (d.mounted ≡ true)
        × (d.un_mounting ≡ false)
        × ((p : DriveOptions) × (d.params ≡ some p)
            × (p.readonly ≡ false)
            × (fs_type_of p ≢ squashfs))
        × (r.problem ≡ none)
        × ((write_to_drive os file r d log).2
            ≡ close_file t ∷ write_bytes t r.content ∷ open_write t ∷ mkdir_all (dir t) ∷ log)
        × (os.fails (open_write t ∷ mkdir_all (dir t) ∷ log) (write_bytes t r.content) ≡ none)
  unfolding write_to_drive
  write_to_drive_ok s = elim (Sum-cases (begin_write file d)) [
    | inl (e, h) ↦ absurd (ground arith)
    | inr (d', h) ↦
        let w = write_begun os file r d d' log h in
        let b = begin_write_ok file d d' h in
        let (t, c, e, n, f) =
          write_body_ok os d.mount_point file r log (sym (ap (λ x. x.0) w) ∙ s) in
        (t, target-IsUnder t c, b.on, b.un_marked, b.parameters, n, ap (λ x. x.2) w ∙ e, f)
  ]
