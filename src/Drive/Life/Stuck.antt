-- ===== src/Drive/Life/Stuck.antt =====
-- The end of drive/base_drive.go's `Unmount` when an ephemeral mount point cannot be removed.
use poprocks.Prelude.{
  ◌≡◌, refl, ◌≢◌, inl, inr, true, some, [], ◌∷◌, Bytes, arith, Option-cases, ap, ◌∙◌, bytes_eq_iff,
}
use poprocks.Vsock.Errors.{Error}
use poprocks.Drive.Errors.{unmounting, already_mounted, failed}
use poprocks.Drive.Options.{DriveOptions}
use poprocks.Drive.Os.{Os, Log, remove_all}
use poprocks.Drive.Base.{
  BaseDrive, Unmounter, mount, begin_unmount, finish_unmount, unmount, delete, run_unmounter,
}
use poprocks.Drive.Files.{begin_write, begin_load, end_io}
use poprocks.Drive.Life.{
  idle, System, Step, mounts, begins_unmount, waits, finishes_unmount, begins_write, begins_load,
  ends_io, calls, Reaches, stays, goes,
}

-- Marked as being unmounted, and nobody is.
abbrev pub IsStuck : System → Type 0
IsStuck s = (s.phase ≡ idle) × (s.drive.mounted ≡ true) × (s.drive.un_mounting ≡ true)

refuses_write :
    (file : Bytes) (d d' : BaseDrive) → d.un_mounting ≡ true → begin_write file d ≢ inr d'
unfolding begin_write
refuses_write file d d' m h = elim (Option-cases d.params) [
  | inl e ↦ ground arith
  | inr (p, e) ↦ ground arith
]

refuses_load : (file : Bytes) (d d' : BaseDrive) → d.un_mounting ≡ true → begin_load file d ≢ inr d'
unfolding begin_load
refuses_load file d d' m h = ground arith

module _ (os : Os) where
  Step-IsStuck : {s t : System} → IsStuck s → Step os s t → IsStuck t
  unfolding mount begin_unmount begin_write begin_load end_io
  Step-IsStuck v (mounts point h) = ground arith
  Step-IsStuck v (begins_unmount i h) = ground arith
  Step-IsStuck v (waits i h) = ground arith
  Step-IsStuck v (finishes_unmount e i h) = ground arith
  Step-IsStuck {s} v (begins_write {d = d} file h) = absurd (refuses_write file s.drive d v.2 h)
  Step-IsStuck {s} v (begins_load {d = d} file h) = absurd (refuses_load file s.drive d v.2 h)
  Step-IsStuck v (ends_io n h) = ground arith
  Step-IsStuck v (calls c) = ground arith

  Reaches-IsStuck : {s t : System} → Reaches os s t → IsStuck s → IsStuck t
  Reaches-IsStuck stays v = v
  Reaches-IsStuck (goes r k) v = Step-IsStuck (Reaches-IsStuck r v) k

  -- A drive that was being unmounted, whose unmount ran but whose ephemeral mount point could not
  -- be removed, is stuck: the unmount reports that error, and after whatever steps follow,
  -- mounting, unmounting and ending it are refused, and no read or write begins. It is taken that
  -- nobody else is unmounting it.
  pub stuck_for_good :
      {t : System} (d : BaseDrive) (u : Unmounter) (p : DriveOptions) (log log1 : Log) (x : Error)
      (point file : Bytes) (d' : BaseDrive)
      → d.unmount_func ≡ some u
      → d.params ≡ some p
      → p.ephemeral ≡ true
      → d.mount_point ≢ []
      → d.mounted ≡ true
      → d.un_mounting ≡ true
      → run_unmounter os u log ≡ (inr tt, log1)
      → os.fails log1 (remove_all d.mount_point) ≡ some x
      → Reaches os
          (record {
            drive = (finish_unmount os d log).1;
            phase = idle;
            log = (finish_unmount os d log).2;
          })
          t
      → ((finish_unmount os d log).0 ≡ some (failed x))
        × ((mount os point t.drive t.log).0 ≡ inl already_mounted)
        × (unmount os t.drive t.log ≡ some (some unmounting, t.drive, t.log))
        × (delete os t.drive t.log ≡ some (some unmounting, t.drive, t.log))
        × (begin_write file t.drive ≢ inr d')
        × (begin_load file t.drive ≢ inr d')
  unfolding finish_unmount mount unmount begin_unmount delete
  stuck_for_good {t} d u p log log1 x point file d' f q e n m w r c h =
      let k : finish_unmount os d log ≡ (some (failed x), d, remove_all d.mount_point ∷ log1) =
        ground (arith, bytes_eq_iff d.mount_point []) in
      let (i, j, l) =
        Reaches-IsStuck h (refl, ap (λ y. y.1.mounted) k ∙ m, ap (λ y. y.1.un_mounting) k ∙ w) in
      (
        ap (λ y. y.0) k,
        ground arith,
        ground arith,
        ground arith,
        λ b. refuses_write file t.drive d' l b,
        λ b. refuses_load file t.drive d' l b,
      )
