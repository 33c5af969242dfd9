-- ===== src/Drive/Calm/Held.antt =====
-- The calls of drive/encrypted_drive.go do not panic on a drive that has parameters and a key.
use mathlib.Core.Path.{subst}
use poprocks.Prelude.{
  ◌≡◌, sym, ap, ◌≢◌, ◌⊎◌, inl, inr, Bool, true, false, not, Option, none, some, [], ◌∷◌, Bytes,
  codes, arith, Option-cases, Sum-cases,
}
use poprocks.Prelude.Int.{pos, leb_ℤ}
use poprocks.Vsock.Errors.{Result-cases}
use poprocks.FilePath.{dir}
use poprocks.Drive.Errors.{DriveError, invalid_parameter, panicked, no_mount_point, needs_root}
use poprocks.Drive.Options.{DriveOptions, fs_type_of}
use poprocks.Drive.Os.{
  Call, Log, Os, Run, ◌>>=◌, ◌>>◌, reject_if, pure, or_else, run, ask, is_luks, luks_format,
  luks_open, luks_close, truncate, make_ext4, mount_device, mkdir_temp, mkdir_all,
}
use poprocks.Drive.Os.Laws.{Run-cases}
use poprocks.Drive.Paths.Cases.{Stat-cases}
use poprocks.Drive.Keys.{
  Key, in_memory, reader_key, file_key, command_key, one_shot, one_shot_nil, with_reader,
}
use poprocks.Drive.Base.{mount_opts}
use poprocks.Drive.Files.{Reader}
use poprocks.Drive.Calm.{write_body-calm, load_body-calm}
use poprocks.Drive.Encrypted.{
  Unmounter, Held, EncryptedDrive, with_log, ignore, attempt_held, mapper_path, map_name,
  mounted_at, format_image, run_cryptsetup_with_key, create_luks_image, ensure_luks_image, prepare,
  map_and_mount, mount_with, mount, check_point, throw_some, point_or_fresh,
  ensure_encryption_tooling,
}
use poprocks.Drive.Encrypted.Unmount.{run_unmounter, finish_unmount, finish_delete}
use poprocks.Drive.Encrypted.Files.{begin_write, begin_load, write_to_drive, load_from_drive}

-- There is a key.
abbrev pub HasKey : Held → Type 0
HasKey h = (k : Key) × (h.key ≡ some k)

abbrev Calm {ℓ} : {A : Type ℓ} → (DriveError ⊎ A) × Held → Type ℓ
Calm r = (r.0 ≢ inl panicked) × HasKey r.1

-- With a key, it does not panic, and leaves one.
record IsCalm {ℓ} {A : Type ℓ} (m : Run Held A) : Type ℓ where
  calm : (h : Held) → HasKey h → Calm (m h)

>>=-IsCalm {ℓ κ} :
    {A : Type ℓ} {B : Type κ} {m : Run Held A} {f : A → Run Held B}
    → IsCalm m
    → ((a : A) → IsCalm (f a))
    → IsCalm (m >>= f)
>>=-IsCalm {m = m} {f = f} hm hf = record {
  calm = λ h k.
      let c = hm.calm h k in
      elim (Run-cases m h) [
        | inl (e, t, r) ↦
            let same : (m >>= f) h ≡ (inl e, t) = ground arith in
            subst Calm (sym same) (λ x. c.0 (ground arith), subst HasKey (ap (λ y. y.1) r) c.1)
        | inr (a, t, r) ↦
            let same : (m >>= f) h ≡ f a t = ground arith in
            subst Calm (sym same) ((hf a).calm t (subst HasKey (ap (λ y. y.1) r) c.1))
      ];
}

>>-IsCalm {ℓ κ} :
    {A : Type ℓ} {B : Type κ} {m : Run Held A} {k : Run Held B}
    → IsCalm m
    → IsCalm k
    → IsCalm (m >> k)
>>-IsCalm {k = k} hm hk = >>=-IsCalm {f = λ _. k} hm (λ a. hk)

pure-IsCalm {ℓ} : {A : Type ℓ} (a : A) → IsCalm (pure a)
pure-IsCalm a = record { calm = λ h k. (λ e. ground arith, k) }

reject_if-IsCalm : (b : Bool) (e : DriveError) → e ≢ panicked → IsCalm (reject_if b e)
reject_if-IsCalm true e n = record { calm = λ h k. (λ x. n (ground arith), k) }
reject_if-IsCalm false e n = record { calm = λ h k. (λ x. ground arith, k) }

or_else-IsCalm {ℓ} :
    {A : Type ℓ} {m : Run Held A} (c : Call) → IsCalm m → IsCalm (or_else m (attempt_held c))
or_else-IsCalm {m = m} c hm = record {
  calm = λ h k.
      let v = hm.calm h k in
      elim (Run-cases m h) [
        | inl (e, t, r) ↦
            let same : or_else m (attempt_held c) h ≡ (inl e, attempt_held c t) = ground arith in
            subst Calm (sym same) (λ x. v.0 (ground arith), subst HasKey (ap (λ y. y.1) r) v.1)
        | inr (a, t, r) ↦
            let same : or_else m (attempt_held c) h ≡ (inr a, t) = ground arith in
            subst Calm (sym same) (λ x. ground arith, subst HasKey (ap (λ y. y.1) r) v.1)
      ];
}

module _ (os : Os) where
  run-IsCalm : (c : Call) → IsCalm (with_log (run os c))
  run-IsCalm c = record {
    calm = λ h k. elim (Option-cases (os.fails h.log c)) [
      | inl e ↦ (λ x. ground arith, (k.0, ground arith))
      | inr (y, e) ↦ (λ x. ground arith, (k.0, ground arith))
    ];
  }

  ask-IsCalm : (c : Call) → IsCalm (with_log (ask os c))
  ask-IsCalm c = record {
    calm = λ h k. elim (Result-cases (os.gives h.log c)) [
      | inl (y, e) ↦ (λ x. ground arith, (k.0, ground arith))
      | inr (y, e) ↦ (λ x. ground arith, (k.0, ground arith))
    ];
  }

  ignore-IsCalm : (c : Call) → IsCalm (ignore c)
  ignore-IsCalm c = record { calm = λ h k. (λ x. ground arith, k) }

  with_reader-calm :
      (c : Bytes → Call) (key : Key) (log : Log)
      → (with_reader os (λ bytes. run os (c bytes)) key log).0 ≢ inl panicked
  unfolding with_reader
  with_reader-calm c (in_memory []) log e = ground arith
  with_reader-calm c (in_memory (b ∷ bs)) log e = ground arith
  with_reader-calm c (reader_key none) log e = ground arith
  with_reader-calm c (reader_key (some n)) log e = ground arith
  with_reader-calm c (file_key []) log e = ground arith
  with_reader-calm c (file_key (b ∷ bs)) log e = ground arith
  with_reader-calm c (command_key [] args) log e = ground arith
  with_reader-calm c (command_key (b ∷ bs) args) log e = ground arith
  with_reader-calm c (one_shot true gone key) log e = ground arith
  with_reader-calm c (one_shot false true key) log e = ground arith
  with_reader-calm c (one_shot false false key) log e = with_reader-calm c key log e
  with_reader-calm c (one_shot_nil used) log e = ground arith

  cryptsetup-IsCalm : (c : Bytes → Call) → IsCalm (run_cryptsetup_with_key os c)
  unfolding run_cryptsetup_with_key
  cryptsetup-IsCalm c = record {
    calm = λ h k.
        let (key, e) = k in
        (
          λ x. with_reader-calm c key h.log (ground arith),
          ((with_reader os (λ bytes. run os (c bytes)) key h.log).1, ground arith),
        );
  }

  throw_some-IsCalm : (o : Option DriveError) → o ≢ some panicked → IsCalm (throw_some o)
  throw_some-IsCalm none n = pure-IsCalm tt
  throw_some-IsCalm (some e) n = record { calm = λ h k. (λ x. n (ground arith), k) }

  tooling-calm : ensure_encryption_tooling os ≢ some panicked
  unfolding ensure_encryption_tooling
  tooling-calm e = ground arith

  point-IsCalm : (point : Bytes) → IsCalm (point_or_fresh os point)
  point-IsCalm [] = ask-IsCalm (mkdir_temp (codes "encrypted-drive-mount-"))
  point-IsCalm (b ∷ bs) = pure-IsCalm (b ∷ bs)

  check_point-IsCalm : (p : DriveOptions) (point : Bytes) → IsCalm (check_point (some p) point)
  check_point-IsCalm p [] = reject_if-IsCalm (not p.ephemeral) no_mount_point (λ e. ground arith)
  check_point-IsCalm p (b ∷ bs) = pure-IsCalm tt

  module _ (map_name_of : Bytes → Bytes) where
    format_image-IsCalm : (image : Bytes) → IsCalm (format_image os map_name_of image)
    unfolding format_image
    format_image-IsCalm image = >>-IsCalm (cryptsetup-IsCalm (luks_format image)) (
        >>-IsCalm (cryptsetup-IsCalm (luks_open image (map_name map_name_of image))) (
          >>-IsCalm
            (or_else-IsCalm (luks_close (map_name map_name_of image))
              (run-IsCalm (make_ext4 (mapper_path map_name_of image))))
            (ignore-IsCalm (luks_close (map_name map_name_of image)))))

    create-IsCalm :
        (p : DriveOptions) (image : Bytes)
        → IsCalm (create_luks_image os map_name_of (some p) image)
    unfolding create_luks_image
    create-IsCalm p image =
        >>-IsCalm
          (reject_if-IsCalm (leb_ℤ p.size_bytes (pos 0)) invalid_parameter (λ e. ground arith))
          (>>-IsCalm (run-IsCalm (mkdir_all (dir image)))
            (>>-IsCalm (run-IsCalm (truncate p.size_bytes image)) (format_image-IsCalm image)))

    ensure-IsCalm :
        (p : DriveOptions) (image : Bytes)
        → IsCalm (ensure_luks_image os map_name_of (some p) image)
    unfolding ensure_luks_image
    ensure-IsCalm p image = record {
      calm = λ h k. elim (Stat-cases (os.stat h.log image)) [
        | inl e ↦
            let same : ensure_luks_image os map_name_of (some p) image h
                ≡ create_luks_image os map_name_of (some p) image h =
              ground arith in
            subst Calm (sym same) ((create-IsCalm p image).calm h k)
        | inr (inl (x, e)) ↦ (λ y. ground arith, (k.0, ground arith))
        | inr (inr (l, e)) ↦ elim (Option-cases (os.fails h.log (is_luks image))) [
          | inl f ↦ (λ y. ground arith, (k.0, ground arith))
          | inr (x, f) ↦ (λ y. ground arith, (k.0, ground arith))
        ]
      ];
    }

    prepare-IsCalm :
        (p : DriveOptions) (point image : Bytes)
        → IsCalm (prepare os map_name_of (some p) point image)
    unfolding prepare
    prepare-IsCalm p point image = >>-IsCalm (check_point-IsCalm p point) (
        >>-IsCalm (reject_if-IsCalm (not os.is_root) needs_root (λ e. ground arith)) (
          >>-IsCalm (throw_some-IsCalm (ensure_encryption_tooling os) tooling-calm) (
            >>=-IsCalm (point-IsCalm point)
              (λ at. >>-IsCalm (ensure-IsCalm p image) (pure-IsCalm at)))))

    map_and_mount-IsCalm :
        (p : DriveOptions) (point : Bytes) (d : EncryptedDrive)
        → IsCalm (map_and_mount os map_name_of (some p) point d)
    unfolding map_and_mount
    map_and_mount-IsCalm p point d =
        let name = map_name map_name_of d.image_path in
        >>-IsCalm (cryptsetup-IsCalm (luks_open d.image_path name)) (
          >>=-IsCalm (pure-IsCalm p) (λ q.
            >>-IsCalm
              (or_else-IsCalm (luks_close name) (
                run-IsCalm (
                  mount_device (fs_type_of q) (mount_opts q.readonly)
                    (mapper_path map_name_of d.image_path) point)))
              (pure-IsCalm (mounted_at os map_name_of point d))))

    mount_with-IsCalm :
        (p : DriveOptions) (point : Bytes) (d : EncryptedDrive)
        → d.params ≡ some p
        → IsCalm (mount_with os map_name_of point d)
    unfolding mount_with
    mount_with-IsCalm p point d hp =
        >>=-IsCalm
          (subst (λ o. IsCalm (prepare os map_name_of o point d.image_path)) (sym hp)
            (prepare-IsCalm p point d.image_path))
          (λ at.
            subst (λ o. IsCalm (map_and_mount os map_name_of o at d)) (sym hp)
              (map_and_mount-IsCalm p at d))

    pub mount-calm :
        (point : Bytes) (d : EncryptedDrive) (p : DriveOptions) (k : Key) (log : Log)
        → d.params ≡ some p
        → d.key ≡ some k
        → (mount os map_name_of point d log).0 ≢ some panicked
    unfolding mount
    mount-calm point d p k log hp hk e =
        let c = (mount_with-IsCalm p point d hp).calm (record { key = d.key; log = log }) (k, hk) in
        elim (Run-cases (mount_with os map_name_of point d) (record { key = d.key; log = log })) [
          | inl (x, t, r) ↦ c.0 (ground arith)
          | inr (x, t, r) ↦ ground arith
        ]

  unmounter-calm : (u : Unmounter) (log : Log) → (run_unmounter os u log).0 ≢ inl panicked
  unfolding run_unmounter
  unmounter-calm u log e = ground arith

  pub finish_unmount-calm :
      (d : EncryptedDrive) (u : Unmounter) (log : Log)
      → d.unmount_func ≡ some u
      → (finish_unmount os d log).0 ≢ some panicked
  unfolding finish_unmount
  finish_unmount-calm d u log h e = ground (arith, unmounter-calm u log)

  pub finish_delete-calm :
      (d : EncryptedDrive) (log : Log) → (finish_delete os d log).0 ≢ some panicked
  unfolding finish_delete
  finish_delete-calm d log e = ground arith

  pub write_to_drive-calm :
      (file : Bytes) (r : Reader) (d : EncryptedDrive) (log : Log)
      → (write_to_drive os file r d log).0 ≢ inl panicked
  unfolding write_to_drive begin_write
  write_to_drive-calm file r d log e = elim (Sum-cases (begin_write file d)) [
    | inl (x, h) ↦ ground arith
    | inr (d', h) ↦ ground (arith, write_body-calm os d'.mount_point file r log)
  ]

  pub load_from_drive-calm :
      (file : Bytes) (d : EncryptedDrive) (log : Log)
      → (load_from_drive os file d log).0 ≢ inl panicked
  unfolding load_from_drive begin_load
  load_from_drive-calm file d log e = elim (Sum-cases (begin_load file d)) [
    | inl (x, h) ↦ ground arith
    | inr (d', h) ↦ ground (arith, load_body-calm os d'.mount_point file log)
  ]
