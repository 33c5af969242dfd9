-- ===== src/Drive/Encrypted/Balance.antt =====
-- `Mount` and `Unmount` of drive/encrypted_drive.go, by the mapping that they leave.
pub mod Mount
pub mod Unmount
use poprocks.Prelude.{
  ℕ, ◌≡◌, refl, sym, ap, ◌∙◌, ◌≢◌, ◌⊎◌, inl, inr, Bool, true, false, not, Option, none, some, [],
  ◌∷◌, Bytes, arith, Option-cases, Bool-cases, Sum-cases, if◌then◌else◌, bytes_eq, codes,
}
use poprocks.Prelude.Int.{pos, leb_ℤ}
use poprocks.Vsock.Errors.{Error, Result-cases, ok, err}
use poprocks.FilePath.{dir}
use poprocks.Drive.Errors.{
  DriveError, invalid_parameter, failed, panicked, no_mount_point, needs_root, already_mounted,
  unmounting,
}
use poprocks.Drive.Options.{DriveOptions, fs_type_of}
use poprocks.Drive.Os.{
  Call, Log, Os, Run, reject_if, or_else, pure, run, ask, is_luks, luks_format, luks_open,
  luks_close, truncate, make_ext4, mount_device, umount, mkdir_temp, mkdir_all, open_key,
  open_reader_with, start_command,
}
use poprocks.Drive.Os.Ends.{
  Ends, IsEnd, >>=-Ends, >>-Ends, pure-Ends, throw-Ends, reject_if-Ends, or_else-Ends,
}
use mathlib.Core.Path.{subst}
use poprocks.Drive.Paths.Cases.{Stat-cases}
use poprocks.Drive.Keys.{
  Key, in_memory, reader_key, file_key, command_key, one_shot, one_shot_nil, destroy, with_reader,
}
use poprocks.Drive.Base.{mount_opts}
use poprocks.Drive.Encrypted.{
  Unmounter, Held, format_image, run_cryptsetup_with_key, create_luks_image, ensure_luks_image,
  prepare, map_and_mount, mount_with, mount, map_name, mapper_path, mounted_at, EncryptedDrive,
  attempt_held, ignore, with_log, look, check_point, throw_some, point_or_fresh,
  ensure_encryption_tooling,
}
use poprocks.Drive.Encrypted.Unmount.{finish_unmount, run_unmounter}
use poprocks.Drive.Encrypted.Mapping.{
  is_open, is_open_closed, IsDirect, IsDirectOption, held, IsClosed, IsOpened, format-Ends,
  open-Ends,
}

module _ (os : Os) where
  ran :
      (c : Call) (h : Held) (o : Option Error)
      → os.fails h.log c ≡ o
      → (with_log (run os c) h).1 ≡ attempt_held c h
  ran c h none e = ground arith
  ran c h (some x) e = ground arith

  asked : (h : Held) (c : Call) → (with_log (ask os c) h).1 ≡ attempt_held c h
  asked h c = elim (Result-cases (os.gives h.log c)) [
    | inl (e, f) ↦ ground arith
    | inr (a, f) ↦ ground arith
  ]

  pub run-Ends :
      (P : Held → Type 0) (c : Call)
      → ((h : Held) → P h → P (attempt_held c h))
      → Ends P (with_log (run os c)) P P
  run-Ends P c keep = record {
    ends = λ h v. elim (Option-cases (os.fails h.log c)) [
      | inl e ↦ inr (tt, ground arith, subst P (sym (ran c h none e)) (keep h v))
      | inr (x, e) ↦ inl (failed x, ground arith, subst P (sym (ran c h (some x) e)) (keep h v))
    ];
  }

  pub attempt_held-IsClosed :
      (own : Bytes) (h : Held)
      → IsOpened os own h
      → IsClosed os own (attempt_held (luks_close own) h)
  attempt_held-IsClosed own h v = (v.0, is_open_closed os own h.log)

  close-Ends :
      (own : Bytes)
      → Ends (IsOpened os own) (ignore (luks_close own)) (IsClosed os own) (IsClosed os own)
  close-Ends own = record { ends = λ h v. inr (tt, refl, attempt_held-IsClosed own h v) }

  module _ (map_name_of : Bytes → Bytes) where
    -- Everything that `ensureLUKSImage` opens it asks to be closed.
    format_image-Ends :
        (image : Bytes)
        → Ends
            (IsClosed os (map_name map_name_of image))
            (format_image os map_name_of image)
            (IsClosed os (map_name map_name_of image))
            (IsClosed os (map_name map_name_of image))
    unfolding format_image
    format_image-Ends image = >>-Ends (format-Ends os (map_name map_name_of image) image) (
        >>-Ends (open-Ends os (map_name map_name_of image) image) (
          >>-Ends
            (or_else-Ends (attempt_held (luks_close (map_name map_name_of image)))
              (run-Ends (IsOpened os (map_name map_name_of image))
                (make_ext4 (mapper_path map_name_of image)) (λ h v. v))
              (attempt_held-IsClosed (map_name map_name_of image)))
            (close-Ends (map_name map_name_of image))))

    create-Ends :
        (params : Option DriveOptions) (image : Bytes)
        → Ends
            (IsClosed os (map_name map_name_of image))
            (create_luks_image os map_name_of params image)
            (IsClosed os (map_name map_name_of image))
            (IsClosed os (map_name map_name_of image))
    unfolding create_luks_image
    create-Ends none image = throw-Ends panicked
    create-Ends (some p) image =
        >>-Ends (reject_if-Ends (leb_ℤ p.size_bytes (pos 0)) invalid_parameter) (
          >>-Ends
            (run-Ends (IsClosed os (map_name map_name_of image)) (mkdir_all (dir image)) (λ h v. v))
            (>>-Ends
              (run-Ends (IsClosed os (map_name map_name_of image)) (truncate p.size_bytes image)
                (λ h v. v))
              (format_image-Ends image)))

    ensure-Ends :
        (params : Option DriveOptions) (image : Bytes)
        → Ends
            (IsClosed os (map_name map_name_of image))
            (ensure_luks_image os map_name_of params image)
            (IsClosed os (map_name map_name_of image))
            (IsClosed os (map_name map_name_of image))
    unfolding ensure_luks_image
    ensure-Ends params image = record {
      ends = λ h v.
          let same : (r : (DriveError ⊎ Unit {0}) × Held)
              → ensure_luks_image os map_name_of params image h ≡ r
              → IsEnd (IsClosed os (map_name map_name_of image))
                  (IsClosed os (map_name map_name_of image)) r
              → IsEnd (IsClosed os (map_name map_name_of image))
                  (IsClosed os (map_name map_name_of image))
                  (ensure_luks_image os map_name_of params image h) =
            λ r e i.
              subst
                (IsEnd (IsClosed os (map_name map_name_of image))
                  (IsClosed os (map_name map_name_of image)))
                (sym e) i in
          elim (Stat-cases (os.stat h.log image)) [
            | inl e ↦
                same (create_luks_image os map_name_of params image h) (ground arith)
                  ((create-Ends params image).ends h v)
            | inr (inl (x, e)) ↦ same (inl (failed x), h) (ground arith) (inl (failed x, refl, v))
            | inr (inr (l, e)) ↦ elim (Option-cases (os.fails h.log (is_luks image))) [
              | inl f ↦
                  same (inr tt, attempt_held (is_luks image) h) (ground arith) (inr (tt, refl, v))
              | inr (x, f) ↦
                  same (inl invalid_parameter, attempt_held (is_luks image) h) (ground arith)
                    (inl (invalid_parameter, refl, v))
            ]
          ];
    }

    check_point-Ends :
        (own : Bytes) (params : Option DriveOptions) (point : Bytes)
        → Ends (IsClosed os own) (check_point params point) (IsClosed os own) (IsClosed os own)
    check_point-Ends own none [] = throw-Ends panicked
    check_point-Ends own (some p) [] = reject_if-Ends (not p.ephemeral) no_mount_point
    check_point-Ends own params (b ∷ bs) = pure-Ends tt

    throw_some-Ends :
        (own : Bytes) (o : Option DriveError)
        → Ends (IsClosed os own) (throw_some o) (IsClosed os own) (IsClosed os own)
    throw_some-Ends own none = pure-Ends tt
    throw_some-Ends own (some e) = throw-Ends e

    point-Ends :
        (own mount_point : Bytes)
        → Ends (IsClosed os own) (point_or_fresh os mount_point) (IsClosed os own) (IsClosed os own)
    point-Ends own [] =
        let c = mkdir_temp (codes "encrypted-drive-mount-") in
        record {
          ends = λ h v. elim (Result-cases (os.gives h.log c)) [
            | inl (e, f) ↦ inl (failed e, ground arith, subst (IsClosed os own) (sym (asked h c)) v)
            | inr (a, f) ↦ inr (a, ground arith, subst (IsClosed os own) (sym (asked h c)) v)
          ];
        }
    point-Ends own (b ∷ bs) = pure-Ends (b ∷ bs)

    pub prepare-Ends :
        (params : Option DriveOptions) (mount_point image : Bytes)
        → Ends
            (IsClosed os (map_name map_name_of image))
            (prepare os map_name_of params mount_point image)
            (IsClosed os (map_name map_name_of image))
            (IsClosed os (map_name map_name_of image))
    unfolding prepare
    prepare-Ends params mount_point image =
        >>-Ends (check_point-Ends (map_name map_name_of image) params mount_point) (
          >>-Ends (reject_if-Ends (not os.is_root) needs_root) (
            >>-Ends (throw_some-Ends (map_name map_name_of image) (ensure_encryption_tooling os)) (
              >>=-Ends (point-Ends (map_name map_name_of image) mount_point)
                (λ point. >>-Ends (ensure-Ends params image) (pure-Ends point)))))
