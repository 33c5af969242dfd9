-- ===== src/Drive/Encrypted/Balance/Unmount.antt =====
-- `Unmount` of drive/encrypted_drive.go, by the mapping that it leaves.
use poprocks.Prelude.{
  ◌&&◌, ◌≡◌, inl, inr, false, not, some, [], ◌∷◌, arith, Option-cases, Bool-cases, Sum-cases,
  bytes_eq,
}
use poprocks.Drive.Os.{Log, Os, luks_close, umount, remove_all}
use poprocks.Drive.Base.{is_ephemeral}
use poprocks.Drive.Encrypted.{Unmounter, EncryptedDrive}
use poprocks.Drive.Encrypted.Unmount.{finish_unmount, run_unmounter}
use poprocks.Drive.Encrypted.Mapping.{is_open, is_open_closed}

module _ (os : Os) where
  run_unmounter_closes :
      (u : Unmounter) (log : Log) → is_open os u.map_name (run_unmounter os u log).1 ≡ false
  unfolding run_unmounter
  run_unmounter_closes u log = elim (Option-cases (os.fails log (umount u.point))) [
    | inr (x, e) ↦ ground (arith, is_open_closed os u.map_name (umount u.point ∷ log))
    | inl e ↦ elim (Option-cases (os.fails (umount u.point ∷ log) (luks_close u.map_name))) [
      | inl f ↦ ground (arith, is_open_closed os u.map_name (umount u.point ∷ log))
      | inr (x, f) ↦ ground (arith, is_open_closed os u.map_name (umount u.point ∷ log))
    ]
  ]

  -- Once the function that unmounts an encrypted drive was called, whether it succeeds or not, the
  -- closing of the mapping was asked for.
  pub finish_unmount_closes :
      (d : EncryptedDrive) (u : Unmounter) (log : Log)
      → d.unmount_func ≡ some u
      → is_open os u.map_name (finish_unmount os d log).2 ≡ false
  unfolding finish_unmount
  finish_unmount_closes d u log h =
      let c = run_unmounter_closes u log in
      elim (Sum-cases (run_unmounter os u log).0) [
        | inl (e, f) ↦ ground arith
        | inr (x, f) ↦
            elim (Bool-cases (is_ephemeral d.params && not (bytes_eq d.mount_point []))) [
              | inr b ↦ ground arith
              | inl b ↦
                  elim (Option-cases
                    (os.fails (run_unmounter os u log).1 (remove_all d.mount_point))) [
                      | inl g ↦ ground arith
                      | inr (y, g) ↦ ground arith
                    ]
            ]
      ]
