-- ===== src/Drive/Life/Safety.antt =====
-- What holds of a drive between the critical sections of drive/base_drive.go.
use poprocks.Prelude.{
  ◌≡◌, ◌≢◌, refl, ◌⊎◌, inl, inr, Bool, true, false, none, [], ◌∷◌, Bytes, arith, Option-cases,
  Bool-cases, codes, bytes_eq,
}
use poprocks.Vsock.Errors.{Result-cases}
use poprocks.Drive.Options.{fs_type_of}
use poprocks.Drive.Os.{Os, Log, mkdir_temp}
use poprocks.Drive.Base.{
  Unmounter, BaseDrive, mount, mount_with, mount_with_guest_mount, mount_with_loop_device,
  mounted_at, mount_opts,
}
use poprocks.Drive.Life.{idle, unmounting_now, System}

-- The drive is mounted exactly while it has what unmounts it; who unmounts it has marked it so; and
-- nothing is read or written while it is being unmounted.
pub record IsSafe (s : System) : Type 0 where
  pub has_unmounter : s.drive.mounted ≡ true → s.drive.unmount_func ≢ none
  pub no_unmounter : s.drive.mounted ≡ false → s.drive.unmount_func ≡ none
  pub marked : s.drive.un_mounting ≡ true → s.drive.mounted ≡ true
  pub by_one : (s.phase ≡ idle) ⊎ (s.drive.un_mounting ≡ true)
  pub alone : s.phase ≡ unmounting_now → s.drive.in_flight ≡ 0

-- What a mount leaves.
abbrev pub IsMount : BaseDrive → BaseDrive → Type 0
IsMount d d' =
    (d'.mounted ≡ true)
    × (d'.unmount_func ≢ none)
    × (d'.un_mounting ≡ d.un_mounting)
    × (d'.in_flight ≡ d.in_flight)

mounted_at-IsMount : (p : Bytes) (u : Unmounter) (d : BaseDrive) → IsMount d (mounted_at p u d)
mounted_at-IsMount p u d = (refl, λ e. ground arith, refl, refl)

module _ (os : Os) where
  loop-IsMount :
      (image point fs opts : Bytes) (d d' : BaseDrive) (log log' : Log)
      → mount_with_loop_device os image point fs opts d log ≡ (inr d', log')
      → IsMount d d'
  unfolding mount_with_loop_device
  loop-IsMount image point fs opts d d' log log' h = ground arith

  guest-IsMount :
      (image point : Bytes) (readonly : Bool) (d d' : BaseDrive) (log log' : Log)
      → mount_with_guest_mount os image point readonly d log ≡ (inr d', log')
      → IsMount d d'
  unfolding mount_with_guest_mount
  guest-IsMount image point readonly d d' log log' h = ground arith

  -- A mount that succeeds.
  pub mount_ok :
      (point : Bytes) (d d' : BaseDrive) (log log' : Log)
      → mount os point d log ≡ (inr d', log')
      → (d.mounted ≡ false) × (d.un_mounting ≡ false) × IsMount d d'
  unfolding mount mount_with
  mount_ok point d d' log log' h = elim (Option-cases d.params) [
    | inl e ↦ ground arith
    | inr (p, e) ↦ elim (Bool-cases (bytes_eq point [])) [
      | inl c ↦ elim (Result-cases (os.gives log (mkdir_temp (codes "drive-mount-")))) [
        | inl (x, f) ↦ ground arith
        | inr (dir, f) ↦ ground (
          arith,
          guest-IsMount d.image_path dir p.readonly d d' (mkdir_temp (codes "drive-mount-") ∷ log)
              log',
          loop-IsMount d.image_path dir (fs_type_of p) (mount_opts p.readonly) d d'
              (mkdir_temp (codes "drive-mount-") ∷ log) log',
        )
      ]
      | inr c ↦ ground (
        arith,
        guest-IsMount d.image_path point p.readonly d d' log log',
        loop-IsMount d.image_path point (fs_type_of p) (mount_opts p.readonly) d d' log log',
      )
    ]
  ]
