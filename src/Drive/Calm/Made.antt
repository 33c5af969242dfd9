-- ===== src/Drive/Calm/Made.antt =====
-- The drives that drive/autodetect.go makes of an image have parameters, and the second kind a key;
-- and none of its errors is a panic.
use poprocks.Prelude.{
  ◌≡◌, ◌≢◌, refl, inl, inr, Bool, Option, none, some, [], ◌∷◌, Bytes, arith, Sum-cases, Bool-cases,
  Option-cases, ◌⊎◌, bytes_eq, trim, is_space, take, if◌then◌else◌, true, false,
}
use poprocks.Prelude.Int.{ℤ, pos, leb_ℤ}
use poprocks.Vsock.Errors.{Result, ok, err, Result-cases}
use poprocks.FilePath.{abs}
use poprocks.Drive.Errors.{DriveError, panicked, invalid_parameter}
use poprocks.Drive.Options.{DriveOptions, squashfs, ext4}
use poprocks.Drive.Os.{Os}
use poprocks.Drive.Keys.{Key}
use poprocks.Drive.Base.{BaseDrive}
use poprocks.Drive.Encrypted.{EncryptedDrive}
use poprocks.Drive.Detect.{
  Image, base_drive_from_image, encrypted_drive_from_image, encrypted_params, check_drive,
  drive_params, detect_image_filesystem, detect_header, detect_best_mount_method,
}
use poprocks.Drive.Detect.Laws.{Info-cases}
use poprocks.Drive.Interface.Calm.{IsReadyBase, IsReadyEncrypted}

if-calm {ℓ} :
    {A : Type ℓ} (b : Bool) (r s : DriveError ⊎ A)
    → r ≢ inl panicked
    → s ≢ inl panicked
    → (if b then r else s) ≢ inl panicked
if-calm true r s h k = h
if-calm false r s h k = k

-- What is made of the answer of blkid.
abbrev by_blkid : Result Bytes → DriveError ⊎ (Bytes × Bool)
by_blkid blkid = elim blkid [
  | err e ↦ inl invalid_parameter
  | ok out ↦ elim (trim is_space out) [
    | [] ↦ inl invalid_parameter
    | b ∷ bs ↦ inr (b ∷ bs, bytes_eq (b ∷ bs) squashfs)
  ]
]

blkid-calm : (blkid : Result Bytes) → by_blkid blkid ≢ inl panicked
blkid-calm (err e) x = ground arith
blkid-calm (ok out) x = elim (List-cases (trim is_space out)) [
  | inl e ↦ ground arith
  | inr (b, bs, e) ↦ ground arith
]
  where
    List-cases : (s : Bytes) → (s ≡ []) ⊎ ((b : _) × (bs : Bytes) × (s ≡ b ∷ bs))
    List-cases [] = inl refl
    List-cases (b ∷ bs) = inr (b, bs, refl)

detect_header-calm :
    (header : Bytes) (blkid : Result Bytes) → detect_header header blkid ≢ inl panicked
unfolding detect_header
detect_header-calm header blkid =
    if-calm _ (inr (squashfs, true)) _ (λ x. ground arith)
      (if-calm _ (inr (ext4, false)) _ (λ x. ground arith)
        (if-calm _ (inl invalid_parameter) (by_blkid blkid) (λ x. ground arith) (blkid-calm blkid)))

detect_image_filesystem-calm : (image : Image) → detect_image_filesystem image ≢ inl panicked
unfolding detect_image_filesystem
detect_image_filesystem-calm image x = elim (Result-cases image.content) [
  | inl (e, f) ↦ ground arith
  | inr ([], f) ↦ ground arith
  | inr (b ∷ bs, f) ↦ detect_header-calm (take 4096 (b ∷ bs)) image.blkid (ground arith)
]

detect_best-calm : (os : Os) (e : DriveError) → detect_best_mount_method os ≡ inl e → e ≢ panicked
unfolding detect_best_mount_method
detect_best-calm os e h x = ground arith

module _ (os : Os) (image_at : Bytes → Image) where
  drive_params-calm :
      (path : Bytes) (size : ℤ) (fs : Bytes) (ro : Bool) (options : Option DriveOptions)
      (e : DriveError)
      → drive_params os image_at path size fs ro options ≡ inl e
      → e ≢ panicked
  unfolding drive_params
  drive_params-calm path size fs ro none e h x = elim (Sum-cases (detect_best_mount_method os)) [
    | inl (y, f) ↦ detect_best-calm os y f (ground arith)
    | inr (y, f) ↦ ground arith
  ]
  drive_params-calm path size fs ro (some p) e h x =
      elim (Sum-cases (detect_best_mount_method os)) [
        | inl (y, f) ↦ ground (arith, detect_best-calm os y f)
        | inr (y, f) ↦ ground arith
      ]

  check_drive-calm :
      (path fs : Bytes) (ro : Bool) (p : DriveOptions) (e : DriveError)
      → check_drive os image_at path fs ro p ≡ inl e
      → e ≢ panicked
  unfolding check_drive
  check_drive-calm path fs ro p e h x = ground arith

  check_drive_ready :
      (path fs : Bytes) (ro : Bool) (p : DriveOptions) (d : BaseDrive)
      → check_drive os image_at path fs ro p ≡ inr d
      → IsReadyBase d
  unfolding check_drive
  check_drive_ready path fs ro p d h = record {
    options = p;
    has_options = ground arith;
    quiet = ground arith;
  }

  pub base_calm :
      (image : Bytes) (options : Option DriveOptions) (x : DriveError)
      → base_drive_from_image os image_at image options ≡ inl x
      → x ≢ panicked
  unfolding base_drive_from_image
  base_calm [] options x h n = ground arith
  base_calm (b ∷ bs) options x h n = elim (Result-cases (abs os.getwd (b ∷ bs))) [
    | inl (y, e) ↦ ground arith
    | inr (at, e) ↦ elim (Info-cases (image_at at).info) [
      | inl f ↦ ground arith
      | inr (inl (size, f)) ↦ ground arith
      | inr (inr (size, f)) ↦ elim (Bool-cases (leb_ℤ size (pos 0))) [
        | inl g ↦ ground arith
        | inr g ↦ elim (Sum-cases (detect_image_filesystem (image_at at))) [
          | inl (y, i) ↦ detect_image_filesystem-calm (image_at at) (ground arith)
          | inr ((fs, ro), i) ↦ elim (Sum-cases (drive_params os image_at at size fs ro options)) [
            | inl (y, j) ↦ drive_params-calm at size fs ro options y j (ground arith)
            | inr (p, j) ↦ check_drive-calm at fs ro p x (ground arith) n
          ]
        ]
      ]
    ]
  ]

  pub base_ready :
      (image : Bytes) (options : Option DriveOptions) (d : BaseDrive)
      → base_drive_from_image os image_at image options ≡ inr d
      → IsReadyBase d
  unfolding base_drive_from_image
  base_ready [] options d h = absurd (ground arith)
  base_ready (b ∷ bs) options d h = elim (Result-cases (abs os.getwd (b ∷ bs))) [
    | inl (x, e) ↦ absurd (ground arith)
    | inr (at, e) ↦ elim (Info-cases (image_at at).info) [
      | inl f ↦ absurd (ground arith)
      | inr (inl (size, f)) ↦ absurd (ground arith)
      | inr (inr (size, f)) ↦ elim (Bool-cases (leb_ℤ size (pos 0))) [
        | inl g ↦ absurd (ground arith)
        | inr g ↦ elim (Sum-cases (detect_image_filesystem (image_at at))) [
          | inl (x, i) ↦ absurd (ground arith)
          | inr ((fs, ro), i) ↦ elim (Sum-cases (drive_params os image_at at size fs ro options)) [
            | inl (x, j) ↦ absurd (ground arith)
            | inr (p, j) ↦ check_drive_ready at fs ro p d (ground arith)
          ]
        ]
      ]
    ]
  ]

  pub encrypted_calm :
      (image : Bytes) (key : Option Key) (options : Option DriveOptions) (x : DriveError)
      → encrypted_drive_from_image os image_at image key options ≡ inl x
      → x ≢ panicked
  unfolding encrypted_drive_from_image
  encrypted_calm [] key options x h n = ground arith
  encrypted_calm (b ∷ bs) none options x h n = ground arith
  encrypted_calm (b ∷ bs) (some k) options x h n = ground arith

  pub encrypted_ready :
      (image : Bytes) (k : Key) (options : Option DriveOptions) (d : EncryptedDrive)
      → encrypted_drive_from_image os image_at image (some k) options ≡ inr d
      → IsReadyEncrypted d
  unfolding encrypted_drive_from_image
  encrypted_ready [] k options d h = absurd (ground arith)
  encrypted_ready (b ∷ bs) k options d h = elim (Result-cases (abs os.getwd (b ∷ bs))) [
    | inl (x, e) ↦ absurd (ground arith)
    | inr (at, e) ↦ elim (Option-cases (encrypted_params os image_at at options)) [
      | inl f ↦ absurd (ground arith)
      | inr (p, f) ↦ record {
        options = p;
        has_options = ground arith;
        key = k;
        has_key = ground arith;
        quiet = ground arith;
      }
    ]
  ]
