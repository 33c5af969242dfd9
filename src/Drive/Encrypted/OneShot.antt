-- ===== src/Drive/Encrypted/OneShot.antt =====
-- `Mount` of drive/encrypted_drive.go for an image that is not there, with a `OneShotKey`.
use mathlib.Core.Path.{subst}
use poprocks.Prelude.{
  ◌≡◌, refl, sym, ◌≢◌, inl, inr, true, not, Option, none, some, [], ◌∷◌, Bytes, arith, Bool-cases,
  Sum-cases,
}
use poprocks.Prelude.Int.{pos, leb_ℤ}
use poprocks.FilePath.{dir}
use poprocks.Drive.Errors.{
  DriveError, invalid_parameter, panicked, needs_root, already_mounted, unmounting,
}
use poprocks.Drive.Options.{DriveOptions}
use poprocks.Drive.Os.{
  Call, Log, Os, Run, run, make_ext4, luks_close, or_else, pure, luks_format, luks_open, truncate,
  mkdir_all,
}
use poprocks.Drive.Os.Ends.{Ends, IsEnd, >>=-Ends, >>-Ends, pure-Ends, throw-Ends, reject_if-Ends}
use poprocks.Drive.Paths.{missing}
use poprocks.Drive.Keys.{Key, one_shot, new_one_shot_key, destroy, with_reader}
use poprocks.Drive.Encrypted.{
  Held, with_log, ignore, attempt_held, mapper_path, format_image, run_cryptsetup_with_key,
  create_luks_image, ensure_luks_image, prepare, map_and_mount, mount_with, mount, map_name,
  EncryptedDrive, check_point, throw_some, ensure_encryption_tooling,
}
use poprocks.Drive.Encrypted.Balance.{run-Ends}

-- No state at all: what ends in it does not end without an error.
abbrev Never : Held → Type 0
Never h = ⊥

abbrev Any : Held → Type 0
Any h = Unit

Never-Ends {ℓ} : {A : Type ℓ} (m : Run Held A) → Ends Never m Any Never
Never-Ends m = record { ends = λ s p. absurd p }

forget-Ends {ℓ} :
    {A : Type ℓ} {P Q R : Held → Type 0} {m : Run Held A} → Ends P m Q R → Ends P m Any R
forget-Ends h = record {
  ends = λ s p. elim (h.ends s p) [ inl (e, f, q) ↦ inl (e, f, tt) | inr r ↦ inr r ];
}

-- A one-shot key that was not used, and one that was.
abbrev IsNew : Key → Held → Type 0
IsNew k h = h.key ≡ some (new_one_shot_key k)

abbrev IsUsed : Held → Type 0
IsUsed h = (k : Key) × (h.key ≡ some (one_shot true true k))

module _ (os : Os) (c : Bytes → Call) where
  IsNew-Ends : (k : Key) → Ends (IsNew k) (run_cryptsetup_with_key os c) Any IsUsed
  unfolding run_cryptsetup_with_key with_reader
  IsNew-Ends k = record {
    ends = λ h n. elim (Sum-cases (run_cryptsetup_with_key os c h).0) [
      | inl (e, f) ↦ inl (e, f, tt)
      | inr (a, f) ↦
          inr (a, f, (destroy (with_reader os (λ bytes. run os (c bytes)) k h.log).1, ground arith))
    ];
  }

  IsUsed-Ends : Ends IsUsed (run_cryptsetup_with_key os c) Any Never
  unfolding run_cryptsetup_with_key with_reader
  IsUsed-Ends = record { ends = λ h u. inl (invalid_parameter, rw (u.1) refl, tt) }

module _ (os : Os) (map_name_of : Bytes → Bytes) (k : Key) where
  format_image-Ends : (image : Bytes) → Ends (IsNew k) (format_image os map_name_of image) Any Never
  unfolding format_image
  format_image-Ends image = >>-Ends (IsNew-Ends os (luks_format image) k) (
      >>-Ends (IsUsed-Ends os (luks_open image (map_name map_name_of image))) (
        >>-Ends
          (Never-Ends (
            or_else (with_log (run os (make_ext4 (mapper_path map_name_of image))))
              (attempt_held (luks_close (map_name map_name_of image)))))
          (Never-Ends (ignore (luks_close (map_name map_name_of image))))))

  create-Ends :
      (params : Option DriveOptions) (image : Bytes)
      → Ends (IsNew k) (create_luks_image os map_name_of params image) Any Never
  unfolding create_luks_image
  create-Ends none image = record { ends = λ h n. inl (panicked, refl, tt) }
  create-Ends (some p) image =
      >>-Ends (forget-Ends (reject_if-Ends (leb_ℤ p.size_bytes (pos 0)) invalid_parameter)) (
        >>-Ends (forget-Ends (run-Ends os (IsNew k) (mkdir_all (dir image)) (λ h v. v))) (
          >>-Ends (forget-Ends (run-Ends os (IsNew k) (truncate p.size_bytes image) (λ h v. v)))
            (format_image-Ends image)))

  module _ (h0 : Held) (new : IsNew k h0) where
    -- Still where the mount began.
    abbrev IsFirst : Held → Type 0
    IsFirst h = h ≡ h0

    ensure-Ends :
        (params : Option DriveOptions) (image : Bytes)
        → os.stat h0.log image ≡ missing
        → Ends IsFirst (ensure_luks_image os map_name_of params image) Any Never
    unfolding ensure_luks_image
    ensure-Ends params image m = record {
      ends = λ h f.
          let found : os.stat h.log image ≡ missing = rw f m in
          let same : ensure_luks_image os map_name_of params image h
              ≡ create_luks_image os map_name_of params image h =
            ground arith in
          subst (IsEnd Any Never) (sym same) ((create-Ends params image).ends h (rw f new));
    }

    check_point-Ends :
        (params : Option DriveOptions) (b : _) (bs : Bytes)
        → Ends IsFirst (check_point params (b ∷ bs)) Any IsFirst
    check_point-Ends params b bs = forget-Ends (pure-Ends {P = IsFirst} {Q = Any} tt)

    throw_some-Ends : (o : Option DriveError) → Ends IsFirst (throw_some o) Any IsFirst
    throw_some-Ends none = pure-Ends tt
    throw_some-Ends (some e) = forget-Ends (throw-Ends e)

    prepare-Ends :
        (params : Option DriveOptions) (point image : Bytes)
        → point ≢ []
        → os.stat h0.log image ≡ missing
        → Ends IsFirst (prepare os map_name_of params point image) Any Never
    unfolding prepare
    prepare-Ends params [] image n m = absurd (n refl)
    prepare-Ends params (b ∷ bs) image n m = >>-Ends (check_point-Ends params b bs) (
        >>-Ends (forget-Ends (reject_if-Ends (not os.is_root) needs_root)) (
          >>-Ends (throw_some-Ends (ensure_encryption_tooling os)) (
            >>=-Ends {R = IsFirst} (pure-Ends (b ∷ bs))
              (λ point. >>-Ends (ensure-Ends params image m) (Never-Ends (pure point))))))

    mount_with-Ends :
        (point : Bytes) (d : EncryptedDrive)
        → point ≢ []
        → os.stat h0.log d.image_path ≡ missing
        → Ends IsFirst (mount_with os map_name_of point d) Any Never
    unfolding mount_with
    mount_with-Ends point d n m =
        >>=-Ends (prepare-Ends d.params point d.image_path n m)
          (λ p. Never-Ends (map_and_mount os map_name_of d.params p d))

  -- A mount at a given mount point of an encrypted drive whose image is not there yet fails, and
  -- leaves the drive as mounted or unmounted as it was, if its key is a one-shot key: creating
  -- the image uses the key for `luksFormat`, and again to open it.
  pub mount-new_one_shot_key :
      (point : Bytes) (d : EncryptedDrive) (log : Log)
      → d.key ≡ some (new_one_shot_key k)
      → point ≢ []
      → os.stat log d.image_path ≡ missing
      → ((e : DriveError) × ((mount os map_name_of point d log).0 ≡ some e))
        × ((mount os map_name_of point d log).1.mounted ≡ d.mounted)
  unfolding mount
  mount-new_one_shot_key point d log hk n m =
      let h0 : Held = record { key = d.key; log = log } in
      elim ((mount_with-Ends h0 hk point d n m).ends h0 refl) [
        | inr (a, f, never) ↦ absurd never
        | inl (e, f, any) ↦ elim (Bool-cases d.mounted) [
          | inl a ↦ ((already_mounted, ground arith), ground arith)
          | inr a ↦ elim (Bool-cases d.un_mounting) [
            | inl b ↦ ((unmounting, ground arith), ground arith)
            | inr b ↦ ((e, ground arith), ground arith)
          ]
        ]
      ]
