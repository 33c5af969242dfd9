-- ===== src/Drive/Encrypted/Unmount.antt =====
-- `Unmount` and `Delete` of drive/encrypted_drive.go.
use poprocks.Prelude.{
  ◌==◌, ◌&&◌, not, true, false, Option, none, some, [], ◌∷◌, ◌⊎◌, inl, inr, if◌then◌else◌, bytes_eq,
}
use poprocks.Drive.Errors.{
  DriveError, not_mounted, unmounting, no_unmount_function, failed, panicked, is_not_mounted,
}
use poprocks.Drive.Os.{
  Log, Os, Run, ◌>>◌, or_else, run, attempt, luks_close, umount, remove_all, remove,
}
use poprocks.Drive.Keys.{Key, destroy}
use poprocks.Drive.Base.{is_ephemeral}
use poprocks.Drive.Encrypted.{Unmounter, EncryptedDrive}

-- The fields that an unmount sets.
abbrev pub cleared : EncryptedDrive → EncryptedDrive
cleared d = record d { mounted = false; mount_point = []; unmount_func = none; un_mounting = false }

-- `Unmount` up to its wait for the reads and writes under way.
unfoldable pub begin_unmount : EncryptedDrive → DriveError ⊎ EncryptedDrive
begin_unmount d =
    if not d.mounted
    then inl not_mounted
    else if d.un_mounting
    then inl unmounting
    else elim d.unmount_func [
      | none ↦ inl no_unmount_function
      | some u ↦ inr (record d { un_mounting = true })
    ]

-- The last step of `Delete`.
abbrev pub deleted : EncryptedDrive → EncryptedDrive
deleted d = record d {
  params = none;
  image_path = [];
  key = none;
  mounted = false;
  mount_point = [];
  unmount_func = none;
  un_mounting = false;
}

-- `d.key.Destroy()`, if there is a key.
unfoldable pub destroy_key : Option Key → Option Key
unfolding destroy
destroy_key none = none
destroy_key (some k) = some (destroy k)

-- The end of `Delete`, and what becomes of the key that the drive had.
abbrev pub with_key :
    EncryptedDrive
    → Option DriveError × EncryptedDrive × Log
    → Option DriveError × EncryptedDrive × Log × Option Key
with_key d (none, d', log) = (none, d', log, destroy_key d.key)
with_key d (some e, d', log) = (some e, d', log, d.key)

module _ (os : Os) where
  -- The call of `unmountFunc`.
  unfoldable pub run_unmounter : Unmounter → Run Log (Unit {0})
  run_unmounter u = do
    or_else (run os (umount u.point)) (attempt (luks_close u.map_name))
    run os (luks_close u.map_name)

  -- `Unmount` after the wait: its error, and the drive that it leaves.
  unfoldable pub finish_unmount : EncryptedDrive → Log → Option DriveError × EncryptedDrive × Log
  unfolding run_unmounter bytes_eq
  finish_unmount d log = elim d.unmount_func [
    | none ↦ (some panicked, d, log)
    | some u ↦
        let ended = run_unmounter u log in
        elim ended.0 [
          | inl e ↦ (some e, record d { un_mounting = false }, ended.1)
          | inr _ ↦
              let removed = run os (remove_all d.mount_point) ended.1 in
              if is_ephemeral d.params && not (bytes_eq d.mount_point [])
              then elim removed.0 [
                | inl e ↦ (some e, d, removed.1)
                | inr _ ↦ (none, cleared d, removed.1)
              ]
              else (none, cleared d, ended.1)
        ]
  ]

  -- `Unmount` with no other call between its steps; `none` if it waits for a read or a write.
  unfoldable pub unmount : EncryptedDrive → Log → Option (Option DriveError × EncryptedDrive × Log)
  unfolding begin_unmount finish_unmount
  unmount d log = elim (begin_unmount d) [
    | inl e ↦ some (some e, d, log)
    | inr d' ↦ if d'.in_flight == 0 then some (finish_unmount d' log) else none
  ]

  -- `Delete` after its `Unmount`.
  unfoldable pub finish_delete : EncryptedDrive → Log → Option DriveError × EncryptedDrive × Log
  unfolding bytes_eq
  finish_delete d log =
      let gone = os.fails log (remove d.image_path) in
      let log' : Log = remove d.image_path ∷ log in
      if is_ephemeral d.params && not (bytes_eq d.image_path [])
      then elim gone [
        | none ↦ (none, deleted d, log')
        | some e ↦ if os.is_not_exist e then (none, deleted d, log') else (some (failed e), d, log')
      ]
      else (none, deleted d, log)

  -- `Delete`, with no other call between its steps; `none` if it waits. The key that it drops is
  -- destroyed, for whoever still holds it.
  unfoldable pub delete :
      EncryptedDrive → Log → Option (Option DriveError × EncryptedDrive × Log × Option Key)
  unfolding unmount finish_delete destroy_key
  delete d log = elim (unmount d log) [
    | none ↦ none
    | some (none, d', log') ↦ some (with_key d' (finish_delete d' log'))
    | some (some e, d', log') ↦
        if is_not_mounted e
        then some (with_key d' (finish_delete d' log'))
        else some (some e, d', log', d'.key)
  ]
