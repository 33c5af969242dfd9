-- ===== src/Drive/Base.antt =====
-- drive/base_drive.go: the mounting and unmounting of a drive, and its end. The closure that unmounts
-- is a value of `Unmounter`; `in_flight` is the counter of `ioWG`. The lock is what makes each
-- section between `Lock` and `Unlock` one step.
use poprocks.Prelude.{
  ℕ, ◌==◌, ◌&&◌, not, Bool, true, false, Option, none, some, List, [], ◌∷◌, ◌++◌, ◌⊎◌, inl, inr,
  if◌then◌else◌, Bytes, bytes_eq, codes, trim, is_space,
}
use poprocks.Drive.Errors.{
  DriveError, already_mounted, not_mounted, unmounting, no_mount_point, no_unmount_function,
  squashfs_writable, unsupported_method, needs_root, no_guestmount, failed, panicked,
  is_not_mounted,
}
use poprocks.Drive.Options.{DriveOptions, guestmount, loop, squashfs, validate, fs_type_of}
use poprocks.Drive.Os.{
  Log, Os, Run, ◌>>=◌, ◌>>◌, pure, throw, reject_if, or_else, or_try, run, ask, attempt,
  guest_mount, guest_unmount, attach_loop, detach_loop, mount_device, umount, mkdir_temp,
  remove_all, remove,
}

-- What `unmountFunc` holds: the mount point, and the loop device if there is one.
pub data Unmounter : Type 0 where
  guest_unmounter : Bytes → Unmounter
  loop_unmounter : Bytes → Bytes → Unmounter

pub record BaseDrive : Type 0 where
  pub params : Option DriveOptions
  pub image_path : Bytes
  pub mounted : Bool
  pub mount_point : Bytes
  pub unmount_func : Option Unmounter
  pub in_flight : ℕ
  pub un_mounting : Bool

-- `Validate`
unfoldable pub validate_drive : BaseDrive → Bool
unfolding validate
validate_drive d = elim d.params [ none ↦ false | some p ↦ validate p ]

-- `d.params != nil && d.params.Ephemeral()`
abbrev pub is_ephemeral : Option DriveOptions → Bool
is_ephemeral none = false
is_ephemeral (some p) = p.ephemeral

abbrev pub mount_opts : Bool → Bytes
mount_opts readonly =
    if readonly then codes "nosuid,nodev,noexec,ro" else codes "nosuid,nodev,noexec"

-- The three fields that a mount sets.
abbrev pub mounted_at : Bytes → Unmounter → BaseDrive → BaseDrive
mounted_at point u d = record d { mounted = true; mount_point = point; unmount_func = some u }

-- And those that an unmount sets.
abbrev pub cleared : BaseDrive → BaseDrive
cleared d = record d { mounted = false; mount_point = []; unmount_func = none; un_mounting = false }

-- The arguments of guestmount: the image, how to find the file system, and the mount point.
abbrev pub guest_args : Bytes → Bool → List Bytes → Bytes → List Bytes
guest_args image readonly how point =
    (codes "-a" ∷ image ∷ (if readonly then codes "--ro" ∷ [] else [])) ++ (how ++ (point ∷ []))

-- `Unmount` up to its wait for the reads and writes under way.
unfoldable pub begin_unmount : BaseDrive → DriveError ⊎ BaseDrive
begin_unmount d =
    if not d.mounted
    then inl not_mounted
    else if d.un_mounting
    then inl unmounting
    else elim d.unmount_func [
      | none ↦ inl no_unmount_function
      | some u ↦ inr (record d { un_mounting = true })
    ]

-- The last step of `Delete`.
abbrev pub deleted : BaseDrive → BaseDrive
deleted d = record d {
  params = none;
  image_path = [];
  mounted = false;
  mount_point = [];
  unmount_func = none;
  un_mounting = false;
}

module _ (os : Os) where
  -- `mountWithGuestMount`
  unfoldable pub mount_with_guest_mount : Bytes → Bytes → Bool → BaseDrive → Run Log BaseDrive
  mount_with_guest_mount image point readonly d =
      let try_with : List Bytes → Run Log (Unit {0}) =
        λ how. run os (guest_mount (guest_args image readonly how point)) in
      do
        reject_if (not (os.has_tool guestmount)) no_guestmount
        reject_if (not (os.has_tool (codes "guestunmount"))) no_guestmount
        or_try (try_with (codes "-i" ∷ [])) (
            or_try (try_with (codes "-m" ∷ codes "/dev/sda1" ∷ []))
              (try_with (codes "-m" ∷ codes "/dev/sda" ∷ [])))
        pure (mounted_at point (guest_unmounter point) d)

  -- `mountWithLoopDevice`
  unfoldable pub mount_with_loop_device :
      Bytes → Bytes → Bytes → Bytes → BaseDrive → Run Log BaseDrive
  unfolding trim
  mount_with_loop_device image point fs_type opts d = do
    reject_if (not os.is_root) needs_root
    output ← ask os (attach_loop image)
    or_else (run os (mount_device fs_type opts (trim is_space output) point))
        (attempt (detach_loop (trim is_space output)))
    pure (mounted_at point (loop_unmounter point (trim is_space output)) d)

  -- `Mount`, once it is neither mounted nor being unmounted, with parameters.
  unfoldable pub mount_with : DriveOptions → Bytes → BaseDrive → Run Log BaseDrive
  unfolding fs_type_of bytes_eq mount_with_guest_mount mount_with_loop_device
  mount_with p mount_point d = do
    reject_if (bytes_eq mount_point [] && not p.ephemeral) no_mount_point
    reject_if (bytes_eq (fs_type_of p) squashfs && not p.readonly) squashfs_writable
    point ←
        (if bytes_eq mount_point []
          then ask os (mkdir_temp (codes "drive-mount-"))
          else pure mount_point)
    (if bytes_eq p.mount_method guestmount
        then mount_with_guest_mount d.image_path point p.readonly d
        else if bytes_eq p.mount_method loop
        then mount_with_loop_device d.image_path point (fs_type_of p) (mount_opts p.readonly) d
        else throw unsupported_method)

  -- `Mount`; a drive that fails to mount stays as it was.
  unfoldable pub mount : Bytes → BaseDrive → Run Log BaseDrive
  unfolding mount_with
  mount mount_point d = do
    reject_if d.mounted already_mounted
    reject_if d.un_mounting unmounting
    (elim d.params [ none ↦ throw panicked | some p ↦ mount_with p mount_point d ])

  -- The call of `unmountFunc`.
  unfoldable pub run_unmounter : Unmounter → Run Log (Unit {0})
  run_unmounter (guest_unmounter point) = run os (guest_unmount point)
  run_unmounter (loop_unmounter point device) = do
    or_else (run os (umount point)) (attempt (detach_loop device))
    run os (detach_loop device)

  -- `Unmount` after the wait: its error, and the drive that it leaves.
  unfoldable pub finish_unmount : BaseDrive → Log → Option DriveError × BaseDrive × Log
  unfolding run_unmounter bytes_eq
  finish_unmount d log = elim d.unmount_func [
    | none ↦ (some panicked, d, log)
    | some u ↦
        let ended = run_unmounter u log in
        elim ended.0 [
          | inl e ↦ (some e, record d { un_mounting = false }, ended.1)
          | inr _ ↦
              let removed = run os (remove_all d.mount_point) ended.1 in
              if is_ephemeral d.params && not (bytes_eq d.mount_point [])
              then elim removed.0 [
                | inl e ↦ (some e, d, removed.1)
                | inr _ ↦ (none, cleared d, removed.1)
              ]
              else (none, cleared d, ended.1)
        ]
  ]

  -- `Unmount` with no other call between its steps; `none` if it waits for a read or a write.
  unfoldable pub unmount : BaseDrive → Log → Option (Option DriveError × BaseDrive × Log)
  unfolding begin_unmount finish_unmount
  unmount d log = elim (begin_unmount d) [
    | inl e ↦ some (some e, d, log)
    | inr d' ↦ if d'.in_flight == 0 then some (finish_unmount d' log) else none
  ]

  -- `Delete` after its `Unmount`.
  unfoldable pub finish_delete : BaseDrive → Log → Option DriveError × BaseDrive × Log
  unfolding bytes_eq
  finish_delete d log =
      let gone = os.fails log (remove d.image_path) in
      let log' : Log = remove d.image_path ∷ log in
      if is_ephemeral d.params && not (bytes_eq d.image_path [])
      then elim gone [
        | none ↦ (none, deleted d, log')
        | some e ↦ if os.is_not_exist e then (none, deleted d, log') else (some (failed e), d, log')
      ]
      else (none, deleted d, log)

  -- `Delete`, with no other call between its steps; `none` if it waits.
  unfoldable pub delete : BaseDrive → Log → Option (Option DriveError × BaseDrive × Log)
  unfolding unmount finish_delete
  delete d log = elim (unmount d log) [
    | none ↦ none
    | some (none, d', log') ↦ some (finish_delete d' log')
    | some (some e, d', log') ↦
        if is_not_mounted e then some (finish_delete d' log') else some (some e, d', log')
  ]
