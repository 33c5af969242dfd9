-- ===== src/Drive/Encrypted/Balance/Mount.antt =====
-- A whole `Mount` of drive/encrypted_drive.go, by the mapping that it leaves.
use poprocks.Prelude.{
  ◌≡◌, sym, ap, ◌∙◌, ◌⊎◌, inl, inr, true, false, none, some, Bytes, arith, Bool-cases,
}
use poprocks.Drive.Errors.{DriveError, already_mounted, unmounting}
use poprocks.Drive.Options.{DriveOptions, fs_type_of}
use poprocks.Drive.Os.{Log, Os, luks_close, mount_device}
use poprocks.Drive.Os.Ends.{Ends, >>=-Ends, >>-Ends, pure-Ends, or_else-Ends}
use mathlib.Core.Path.{subst}
use poprocks.Drive.Keys.{Key}
use poprocks.Drive.Base.{mount_opts}
use poprocks.Drive.Encrypted.{
  Held, map_and_mount, mount_with, mount, map_name, mapper_path, mounted_at, EncryptedDrive,
  attempt_held,
}
use poprocks.Drive.Encrypted.Mapping.{
  is_open, IsDirect, IsDirectOption, held, IsClosed, IsOpened, open-Ends,
}
use poprocks.Drive.Encrypted.Balance.{attempt_held-IsClosed, run-Ends, prepare-Ends}

module _ (os : Os) (map_name_of : Bytes → Bytes) where
  map_and_mount-Ends :
      (p : DriveOptions) (point : Bytes) (d : EncryptedDrive)
      → Ends
          (IsClosed os (map_name map_name_of d.image_path))
          (map_and_mount os map_name_of (some p) point d)
          (IsClosed os (map_name map_name_of d.image_path))
          (IsOpened os (map_name map_name_of d.image_path))
  unfolding map_and_mount
  map_and_mount-Ends p point d =
      let name = map_name map_name_of d.image_path in
      >>-Ends (open-Ends os name d.image_path) (
        >>=-Ends (pure-Ends p) (λ q.
          >>-Ends
            (or_else-Ends (attempt_held (luks_close name))
              (run-Ends os (IsOpened os (map_name map_name_of d.image_path))
                (mount_device (fs_type_of q) (mount_opts q.readonly)
                  (mapper_path map_name_of d.image_path) point)
                (λ h v. v))
              (attempt_held-IsClosed os name))
            (pure-Ends (mounted_at os map_name_of point d))))

  mount_with-Ends :
      (p : DriveOptions) (mount_point : Bytes) (d : EncryptedDrive)
      → d.params ≡ some p
      → Ends
          (IsClosed os (map_name map_name_of d.image_path))
          (mount_with os map_name_of mount_point d)
          (IsClosed os (map_name map_name_of d.image_path))
          (IsOpened os (map_name map_name_of d.image_path))
  unfolding mount_with
  mount_with-Ends p mount_point d hp =
      >>=-Ends (prepare-Ends os map_name_of d.params mount_point d.image_path) (λ point.
        subst
          (λ o.
            Ends (IsClosed os (map_name map_name_of d.image_path))
              (map_and_mount os map_name_of o point d)
              (IsClosed os (map_name map_name_of d.image_path))
              (IsOpened os (map_name map_name_of d.image_path)))
          (sym hp) (map_and_mount-Ends p point d))

  module _ (mount_point : Bytes) (d : EncryptedDrive) (log : Log) where
    abbrev mounting : (DriveError ⊎ EncryptedDrive) × Held
    mounting = mount_with os map_name_of mount_point d (held d.key log)

    mount_fails :
        (e : DriveError)
        → d.mounted ≡ false
        → d.un_mounting ≡ false
        → mounting.0 ≡ inl e
        → mount os map_name_of mount_point d log
          ≡ (some e, record d { key = mounting.1.key }, mounting.1.log)
    unfolding mount
    mount_fails e a b f = ground arith

    mount_succeeds :
        (d' : EncryptedDrive)
        → d.mounted ≡ false
        → d.un_mounting ≡ false
        → mounting.0 ≡ inr d'
        → mount os map_name_of mount_point d log
          ≡ (none, record d' { key = mounting.1.key }, mounting.1.log)
    unfolding mount
    mount_succeeds d' a b f = ground arith

  -- A mount of an encrypted drive that succeeds leaves the mapping of its name open. One that
  -- fails leaves it as one of which the closing was asked for after it was last opened, or that
  -- was not opened, if that was so before, the drive has parameters, and its key is not one that
  -- a command gives.
  pub mount_balance :
      (mount_point : Bytes) (d : EncryptedDrive) (p : DriveOptions) (k : Key) (log : Log)
      → d.params ≡ some p
      → d.key ≡ some k
      → IsDirect k
      → is_open os (map_name map_name_of d.image_path) log ≡ false
      → (((mount os map_name_of mount_point d log).0 ≡ none)
          × (is_open os
                (map_name map_name_of d.image_path)
                (mount os map_name_of mount_point d log).2
              ≡ true))
        ⊎ ((e : DriveError) × ((mount os map_name_of mount_point d log).0 ≡ some e)
            × (is_open os
                  (map_name map_name_of d.image_path)
                  (mount os map_name_of mount_point d log).2
                ≡ false))
  unfolding mount
  mount_balance mount_point d p k log hp hk v n =
      let direct : IsDirectOption d.key = subst IsDirectOption (sym hk) v in
      elim (Bool-cases d.mounted) [
        | inl a ↦ inr (already_mounted, ground arith, ground arith)
        | inr a ↦ elim (Bool-cases d.un_mounting) [
          | inl b ↦ inr (unmounting, ground arith, ground arith)
          | inr b ↦ elim ((mount_with-Ends p mount_point d hp).ends (held d.key log) (direct, n)) [
            | inl (e, f, w) ↦
                let m = mount_fails mount_point d log e a b f in
                inr (
                  e,
                  ap (λ x. x.0) m,
                  ap (λ x. is_open os (map_name map_name_of d.image_path) x.2) m ∙ w.1,
                )
            | inr (d', f, w) ↦
                let m = mount_succeeds mount_point d log d' a b f in
                inl (
                  ap (λ x. x.0) m,
                  ap (λ x. is_open os (map_name map_name_of d.image_path) x.2) m ∙ w.1,
                )
          ]
        ]
      ]
