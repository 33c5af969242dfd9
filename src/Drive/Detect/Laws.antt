-- ===== src/Drive/Detect/Laws.antt =====
-- The drives that `BaseDriveFromImage` and `EncryptedDriveFromImage` make of an image.
use poprocks.Prelude.{
  ℕ, ◌≡◌, refl, sym, ap, ◌∙◌, ◌≢◌, ◌⊎◌, inl, inr, Bool, true, false, Option, none, some, [], ◌∷◌,
  Bytes, arith, ◌||◌, Option-cases, Bool-cases, Sum-cases, if◌then◌else◌, bytes_eq, bytes_eq_iff,
  not, All, map, trim, trim_left, trim_right, is_space, codes,
}
use poprocks.Prelude.Int.{ℤ, pos, leb_ℤ}
use poprocks.Vsock.Errors.{Result-cases, ok}
use poprocks.FilePath.{abs, base}
use poprocks.Drive.Errors.{invalid_parameter, drive_not_valid}
use poprocks.Drive.Options.{DriveOptions, guestmount, loop, ext4, validate, fs_type_of, default_to}
use poprocks.Drive.Os.{Os}
use poprocks.Drive.Base.{BaseDrive}
use poprocks.Drive.Keys.{Key}
use poprocks.Drive.Encrypted.{EncryptedDrive, validate_encrypted}
use poprocks.Drive.Detect.{
  new_encrypted, encrypted_params, encrypted_drive_from_image, Image, FileInfo, no_file, directory,
  file_of_size, detect_best_mount_method, detect_image_filesystem, drive_params, check_drive,
  base_drive_from_image, derive_drive_id_from_path, is_id_rune, id_rune, is_mark, without_ext,
  new_drive,
}

abbrev pub IsIdText : Bytes → Type 0
IsIdText s = All (λ r. is_id_rune r ≡ true) s

map-IsIdText : (s : Bytes) → IsIdText (map id_rune s)
map-IsIdText [] = tt
map-IsIdText (r ∷ rs) = (ground arith, map-IsIdText rs)

module _ (is_cut : ℕ → Bool) where
  trim_left-IsIdText : (s : Bytes) → IsIdText s → IsIdText (trim_left is_cut s)
  unfolding trim_left
  trim_left-IsIdText [] v = tt
  trim_left-IsIdText (b ∷ bs) v = elim (Bool-cases (is_cut b)) [
    | inl e ↦ rw e (trim_left-IsIdText bs v.1)
    | inr e ↦ rw e v
  ]

  or_cut :
      (b : ℕ) (rest : Bytes)
      → is_id_rune b ≡ true
      → IsIdText rest
      → IsIdText (elim rest [ [] ↦ if is_cut b then [] else b ∷ [] | c ∷ cs ↦ b ∷ c ∷ cs ])
  or_cut b [] v w = elim (Bool-cases (is_cut b)) [ inl e ↦ rw e tt | inr e ↦ rw e (v, tt) ]
  or_cut b (c ∷ cs) v w = (v, w)

  trim_right-IsIdText : (s : Bytes) → IsIdText s → IsIdText (trim_right is_cut s)
  unfolding trim_right
  trim_right-IsIdText [] v = tt
  trim_right-IsIdText (b ∷ bs) v = or_cut b (trim_right is_cut bs) v.0 (trim_right-IsIdText bs v.1)

or_drive :
    (s : Bytes)
    → IsIdText s
    → (default_to (codes "drive") s ≢ []) × IsIdText (default_to (codes "drive") s)
or_drive [] v = (λ e. ground arith, (refl, (refl, (refl, (refl, (refl, tt))))))
or_drive (b ∷ bs) v = (λ e. ground arith, v)

-- The ID that is derived from a path is not empty, and has only letters, digits, and `-`, `_` and `.`.
pub derive_drive_id_from_path-IsIdText :
    (path : Bytes)
    → (derive_drive_id_from_path path ≢ []) × IsIdText (derive_drive_id_from_path path)
unfolding derive_drive_id_from_path trim
derive_drive_id_from_path-IsIdText path =
    let s = map id_rune (trim is_space (without_ext (base path))) in
    or_drive (trim is_mark s) (
      trim_right-IsIdText is_mark (trim_left is_mark s)
        (trim_left-IsIdText is_mark s (map-IsIdText (trim is_space (without_ext (base path))))))

pub Info-cases :
    (i : FileInfo)
    → (i ≡ no_file) ⊎ (((n : ℤ) × (i ≡ directory n)) ⊎ ((n : ℤ) × (i ≡ file_of_size n)))
Info-cases no_file = inl refl
Info-cases (directory n) = inr (inl (n, refl))
Info-cases (file_of_size n) = inr (inr (n, refl))

module _ (os : Os) (image_at : Bytes → Image) where
  check_drive_ok :
      (path fs_type : Bytes) (read_only : Bool) (p : DriveOptions) (d : BaseDrive)
      → check_drive os image_at path fs_type read_only p ≡ inr d
      → (d ≡ new_drive os image_at p path)
        × (validate p ≡ true)
        × (fs_type_of p ≡ fs_type)
        × (p.readonly ≡ (p.readonly || read_only))
  unfolding check_drive
  check_drive_ok path fs_type read_only p d h = ground (arith, bytes_eq_iff (fs_type_of p) fs_type)

  detected_method :
      (m : Bytes) → detect_best_mount_method os ≡ inr m → (m ≡ guestmount) ⊎ (m ≡ loop)
  unfolding detect_best_mount_method
  detected_method m h = ground arith

  -- What the parameters are made of.
  params_method :
      (path : Bytes) (size : ℤ) (fs_type : Bytes) (read_only : Bool) (options : Option DriveOptions)
      (p : DriveOptions)
      → drive_params os image_at path size fs_type read_only options ≡ inr p
      → p.mount_method ≢ []
  unfolding drive_params
  params_method path size fs_type read_only none p h e =
      elim (Sum-cases (detect_best_mount_method os)) [
        | inl (x, f) ↦ ground arith
        | inr (m, f) ↦ ground (arith, detected_method m f)
      ]
  params_method path size fs_type read_only (some q) p h e =
      elim (Bool-cases (bytes_eq q.mount_method [])) [
        | inr c ↦ ground (arith, bytes_eq_iff q.mount_method [])
        | inl c ↦ elim (Sum-cases (detect_best_mount_method os)) [
          | inl (x, f) ↦ ground arith
          | inr (m, f) ↦ ground (arith, detected_method m f)
        ]
      ]

  -- A drive that `BaseDriveFromImage` makes is that of the absolute path of a file that is not
  -- empty; it is not mounted, its parameters are valid and have a mount method, their file system
  -- type is the one detected in the image, and they are read-only if the detection says that the
  -- image is.
  pub base_drive_from_image_ok :
      (image_path : Bytes) (options : Option DriveOptions) (d : BaseDrive)
      → base_drive_from_image os image_at image_path options ≡ inr d
      → (abs os.getwd image_path ≡ ok d.image_path)
        × ((size : ℤ) × ((image_at d.image_path).info ≡ file_of_size size)
            × (leb_ℤ size (pos 0) ≡ false))
        × ((p : DriveOptions) × (read_only : Bool) × (d.params ≡ some p)
            × (validate p ≡ true)
            × (p.mount_method ≢ [])
            × (detect_image_filesystem (image_at d.image_path) ≡ inr (fs_type_of p, read_only))
            × (p.readonly ≡ (p.readonly || read_only)))
        × (d.mounted ≡ false)
  unfolding base_drive_from_image
  base_drive_from_image_ok [] options d h = absurd (ground arith)
  base_drive_from_image_ok (b ∷ bs) options d h = elim (Result-cases (abs os.getwd (b ∷ bs))) [
    | inl (x, e) ↦ absurd (ground arith)
    | inr (path, e) ↦ elim (Info-cases (image_at path).info) [
      | inl f ↦ absurd (ground arith)
      | inr (inl (size, f)) ↦ absurd (ground arith)
      | inr (inr (size, f)) ↦ elim (Bool-cases (leb_ℤ size (pos 0))) [
        | inl g ↦ absurd (ground arith)
        | inr g ↦ elim (Sum-cases (detect_image_filesystem (image_at path))) [
          | inl (x, i) ↦ absurd (ground arith)
          | inr (found, i) ↦
              elim (Sum-cases (drive_params os image_at path size found.0 found.1 options)) [
                | inl (x, j) ↦ absurd (ground arith)
                | inr (p, j) ↦
                    let k : check_drive os image_at path found.0 found.1 p ≡ inr d = ground arith in
                    let (l, v, t, r) = check_drive_ok path found.0 found.1 p d k in
                    let at_path : d.image_path ≡ path = ap (λ x. x.image_path) l in
                    (
                      e ∙ ap ok (sym at_path),
                      (size, ap (λ x. (image_at x).info) at_path ∙ f, g),
                      (
                        p,
                        found.1,
                        ap (λ x. x.params) l,
                        v,
                        params_method path size found.0 found.1 options p j,
                        ap (λ x. detect_image_filesystem (image_at x)) at_path
                            ∙ i
                            ∙ ap (λ x. inr (x, found.1)) (sym t),
                        r,
                      ),
                      ap (λ x. x.mounted) l,
                    )
              ]
        ]
      ]
    ]
  ]

  encrypted_ok :
      (path : Bytes) (key : Key) (p : DriveOptions) (d : EncryptedDrive)
      → (if not (bytes_eq (fs_type_of p) ext4)
          then inl invalid_parameter
          else if not (validate_encrypted (new_encrypted os image_at p path key))
          then inl drive_not_valid
          else inr (new_encrypted os image_at p path key))
        ≡ inr d
      → (d ≡ new_encrypted os image_at p path key) × (validate_encrypted d ≡ true)
  encrypted_ok path key p d h = elim (Bool-cases (bytes_eq (fs_type_of p) ext4)) [
    | inr a ↦ absurd (ground arith)
    | inl a ↦ elim (Bool-cases (validate_encrypted (new_encrypted os image_at p path key))) [
      | inr b ↦ absurd (ground arith)
      | inl b ↦
          let e : new_encrypted os image_at p path key ≡ d = ground arith in
          (sym e, ap validate_encrypted (sym e) ∙ b)
    ]
  ]

  -- A drive that `EncryptedDriveFromImage` makes is valid: it has parameters for an ext4 file system,
  -- and the key that was given. It is that of the absolute path of the image, and not mounted.
  pub encrypted_drive_from_image_ok :
      (image_path : Bytes) (key : Option Key) (options : Option DriveOptions) (d : EncryptedDrive)
      → encrypted_drive_from_image os image_at image_path key options ≡ inr d
      → (validate_encrypted d ≡ true)
        × (d.key ≡ key)
        × (abs os.getwd image_path ≡ ok d.image_path)
        × (d.mounted ≡ false)
        × (encrypted_params os image_at d.image_path options ≡ d.params)
  unfolding encrypted_drive_from_image
  encrypted_drive_from_image_ok [] key options d h = absurd (ground arith)
  encrypted_drive_from_image_ok (b ∷ bs) none options d h = absurd (ground arith)
  encrypted_drive_from_image_ok (b ∷ bs) (some key) options d h =
      elim (Result-cases (abs os.getwd (b ∷ bs))) [
        | inl (x, e) ↦ absurd (ground arith)
        | inr (path, e) ↦ elim (Option-cases (encrypted_params os image_at path options)) [
          | inl f ↦ absurd (ground arith)
          | inr (p, f) ↦
              let (l, v) = encrypted_ok path key p d (ground arith) in
              let at_path : d.image_path ≡ path = ap (λ x. x.image_path) l in
              (
                v,
                ap (λ x. x.key) l,
                e ∙ ap ok (sym at_path),
                ap (λ x. x.mounted) l,
                ap (λ x. encrypted_params os image_at x options) at_path
                    ∙ f
                    ∙ sym (ap (λ x. x.params) l),
              )
        ]
      ]
