-- ===== src/Vm/Attach.antt =====
-- `AttachDiskImage` and `AttachEncryptedDiskImage` of vm/drive.go.
use poprocks.Prelude.{
  ◌≡◌, refl, ◌≢◌, Bool, true, Option, none, some, [], ◌∷◌, ◌⊎◌, inl, inr, arith, if◌then◌else◌,
  Bytes, bytes_eq, not, length, ◌==◌, Option-cases, Sum-cases,
}
use poprocks.Prelude.Int.{ℤ}
use poprocks.Drive.Errors.{DriveError, invalid_parameter}
use poprocks.Drive.Options.{DriveOptions, loop, ext4, new_drive_options, default_to}
use poprocks.Drive.Os.{Os}
use poprocks.Drive.Keys.{Key, destroy, new_sha256_passphrase_key}
use poprocks.Drive.Base.{BaseDrive, validate_drive}
use poprocks.Drive.Encrypted.{EncryptedDrive, validate_encrypted}
use poprocks.Drive.Detect.{Image, base_drive_from_image, encrypted_drive_from_image}
use poprocks.Drive.Detect.Laws.{base_drive_from_image_ok}
use poprocks.Drive.Options.Laws.{validate_iff}
use poprocks.Vm.Lifecycle.Laws.{is_addable, add_drive_locked_blocked}
use poprocks.Vm.Hardware.{Drive}
use poprocks.Vm.Lifecycle.{Probe, Vm, VmError, Call, returned, blocked, add_drive_locked}

pub record EncryptedDriveOptions : Type 0 where
  pub id : Bytes
  pub readonly : Bool
  pub is_root : Bool
  pub part_uuid : Bytes
  pub cache_type : Bytes
  pub ephemeral : Bool
  pub size_bytes : ℤ
  pub mount_method : Bytes
  pub key : Option Key
  pub passphrase : Bytes

has_length : (s : Bytes) → s ≢ [] → not (length s == 0) ≡ true
has_length [] n = absurd (n refl)
has_length (b ∷ bs) n = ground arith

-- What `addDriveLocked` asks of a drive.
abbrev pub view : Option DriveOptions → Bool → Drive
view params is_valid = record {
  parameters = elim params [
    | none ↦ none
    | some p ↦ some (record { id = p.id; is_root = p.is_root })
  ];
  is_valid = is_valid;
}

-- The error of a call of drive/, or of the VM.
abbrev pub AttachError : Type 0
AttachError = DriveError ⊎ VmError

-- The key of the options, or one of the passphrase.
unfoldable pub key_of : (Bytes → Bytes) → EncryptedDriveOptions → DriveError ⊎ Key
unfolding new_sha256_passphrase_key
key_of sha256 opts = elim opts.key [
  | some k ↦ inr k
  | none ↦ (new_sha256_passphrase_key sha256 opts.passphrase).0
]

module _ (os : Os) (image_at : Bytes → Image) (probe : Probe) where
  -- `AttachDiskImage`
  unfoldable pub attach_disk_image :
      Bytes → Option DriveOptions → Vm → Call (AttachError ⊎ BaseDrive)
  unfolding base_drive_from_image validate_drive add_drive_locked
  attach_disk_image image_path opts v = elim (base_drive_from_image os image_at image_path opts) [
    | inl e ↦ returned (inl (inl e)) v
    | inr d ↦ elim (add_drive_locked probe (some (view d.params (validate_drive d))) v) [
      | blocked ↦ blocked
      | returned (some e) w ↦ returned (inl (inr e)) w
      | returned none w ↦ returned (inr d) w
    ]
  ]

  -- The parameters of `AttachEncryptedDiskImage`.
  abbrev pub encrypted_options : EncryptedDriveOptions → DriveOptions
  encrypted_options opts =
      new_drive_options opts.id opts.readonly opts.is_root opts.part_uuid opts.cache_type
        opts.ephemeral opts.size_bytes ext4 (default_to loop opts.mount_method)

  -- `AttachEncryptedDiskImage` with its key: the result, and the key as its other holders find it.
  unfoldable pub attach_with_key :
      Bytes → EncryptedDriveOptions → Key → Vm → Call ((AttachError ⊎ EncryptedDrive) × Key)
  unfolding new_drive_options encrypted_drive_from_image validate_encrypted add_drive_locked destroy
  attach_with_key image_path opts k v =
      elim (encrypted_drive_from_image os image_at image_path (some k)
        (some (encrypted_options opts))) [
          | inl e ↦ returned (inl (inl e), destroy k) v
          | inr d ↦ elim (add_drive_locked probe (some (view d.params (validate_encrypted d))) v) [
            | blocked ↦ blocked
            | returned (some e) w ↦ returned (inl (inr e), destroy k) w
            | returned none w ↦ returned (inr d, k) w
          ]
        ]

  -- `AttachEncryptedDiskImage`
  unfoldable pub attach_encrypted_disk_image :
      (Bytes → Bytes)
      → Bytes
      → EncryptedDriveOptions
      → Vm
      → Call ((AttachError ⊎ EncryptedDrive) × Option Key)
  unfolding key_of attach_with_key bytes_eq
  attach_encrypted_disk_image sha256 image_path opts v =
      if bytes_eq image_path []
      then returned (inl (inl invalid_parameter), opts.key) v
      else if bytes_eq opts.id []
      then returned (inl (inl invalid_parameter), opts.key) v
      else elim (key_of sha256 opts) [
        | inl e ↦ returned (inl (inl e), opts.key) v
        | inr k ↦ elim (attach_with_key image_path opts k v) [
          | blocked ↦ blocked
          | returned r w ↦ returned (r.0, some r.1) w
        ]
      ]

  Call-cases {ℓ} :
      {A : Type ℓ} (c : Call A) → (c ≡ blocked) ⊎ ((a : A) × (w : Vm) × (c ≡ returned a w))
  Call-cases blocked = inl refl
  Call-cases (returned a w) = inr (a, w, refl)

  -- An attaching that comes back with an error has destroyed the key that it used.
  pub attach_with_key_destroys :
      (image_path : Bytes) (opts : EncryptedDriveOptions) (k k' : Key) (v w : Vm) (e : AttachError)
      → attach_with_key image_path opts k v ≡ returned (inl e, k') w
      → k' ≡ destroy k
  unfolding attach_with_key
  attach_with_key_destroys image_path opts k k' v w e h =
      elim (Sum-cases (
        encrypted_drive_from_image os image_at image_path (some k)
          (some (encrypted_options opts)))) [
            | inl (x, f) ↦ ground arith
            | inr (d, f) ↦
                elim (Call-cases
                  (add_drive_locked probe (some (view d.params (validate_encrypted d))) v)) [
                    | inl g ↦ ground arith
                    | inr (o, u, g) ↦ elim (Option-cases o) [
                      | inl i ↦ ground arith
                      | inr (x, i) ↦ ground arith
                    ]
                  ]
          ]

  -- A drive that was made of an image passes the checks that come before the mutex.
  made_is_addable :
      (image_path : Bytes) (opts : Option DriveOptions) (d : BaseDrive)
      → base_drive_from_image os image_at image_path opts ≡ inr d
      → is_addable (some (view d.params (validate_drive d))) ≡ true
  unfolding validate_drive
  made_is_addable image_path opts d h =
      let (p, read_only, e, v, m, t, r) =
        (base_drive_from_image_ok os image_at image_path opts d h).2 in
      let i = ((validate_iff p).0 v).has_id in ground (arith, has_length p.id i)

  -- `AttachDiskImage` comes back only with an error of `BaseDriveFromImage`: with a drive that
  -- was made of the image it waits for the mutex that it holds itself.
  pub attach_disk_image_blocked :
      (image_path : Bytes) (opts : Option DriveOptions) (v : Vm)
      → attach_disk_image image_path opts v
        ≡ elim (base_drive_from_image os image_at image_path opts) [
          | inl e ↦ returned (inl (inl e)) v
          | inr d ↦ blocked
        ]
  unfolding attach_disk_image
  attach_disk_image_blocked image_path opts v =
      elim (Sum-cases (base_drive_from_image os image_at image_path opts)) [
        | inl (e, h) ↦ ground arith
        | inr (d, h) ↦
            let b = made_is_addable image_path opts d h in
            let a = add_drive_locked_blocked probe (some (view d.params (validate_drive d))) v in
            ground arith
      ]
