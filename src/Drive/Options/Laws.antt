-- ===== src/Drive/Options/Laws.antt =====
-- `Validate`, `FSType`, `MarshalJSON` and `UnmarshalJSON` of drive/options.go.
use poprocks.Prelude.{
  ℕ, zero, suc, ◌≡◌, refl, ap, ◌∙◌, ◌≢◌, ◌↔◌, ◌⊎◌, true, [], ◌∷◌, arith, Bytes, bytes_eq_iff,
}
use poprocks.Prelude.Int.{ℤ, pos, negsuc, ltb_ℤ}
use poprocks.Vsock.Errors.{Result, ok}
use poprocks.Drive.Options.{
  guestmount, loop, ext4, DriveOptions, Serializable, default_to, is_known_method, validate,
  fs_type_of, to_serializable, marshal_json, from_serializable, unmarshal_json,
}

-- The options that `Validate` takes.
pub record IsOptions (p : DriveOptions) : Type 0 where
  pub has_id : p.id ≢ []
  pub has_size : (n : ℕ) × (p.size_bytes ≡ pos (suc n))
  pub known_method :
      (p.mount_method ≡ []) ⊎ ((p.mount_method ≡ guestmount) ⊎ (p.mount_method ≡ loop))

size_iff : (n : ℤ) → (ltb_ℤ (pos 0) n ≡ true) ↔ ((k : ℕ) × (n ≡ pos (suc k)))
size_iff (pos zero) = (λ h. ground arith, λ h. ground arith)
size_iff (pos (suc k)) = (λ h. (k, refl), λ h. ground arith)
size_iff (negsuc k) = (λ h. ground arith, λ h. ground arith)

known_iff : (m : Bytes) → (is_known_method m ≡ true) ↔ ((m ≡ []) ⊎ ((m ≡ guestmount) ⊎ (m ≡ loop)))
unfolding is_known_method
known_iff m = ground (arith, bytes_eq_iff m [], bytes_eq_iff m guestmount, bytes_eq_iff m loop)

-- `Validate` takes exactly the options with an ID, a positive size, and no mount method or one of
-- the two.
pub validate_iff : (p : DriveOptions) → (validate p ≡ true) ↔ IsOptions p
unfolding validate
validate_iff p = (
  λ h. record {
    has_id = λ e. ground (arith, bytes_eq_iff p.id []);
    has_size = (size_iff p.size_bytes).0 (ground arith);
    known_method = (known_iff p.mount_method).0 (ground arith);
  },
  λ h. ground (
    arith,
    bytes_eq_iff p.id [],
    h.has_id,
    (size_iff p.size_bytes).1 h.has_size,
    (known_iff p.mount_method).1 h.known_method,
  ),
)

default_again : (d s : Bytes) (b : ℕ) (bs : Bytes) → s ≡ b ∷ bs → default_to d s ≡ s
default_again d [] b bs e = ground arith
default_again d (x ∷ xs) b bs e = refl

fs_type_nonempty : (p : DriveOptions) (d : Bytes) → default_to d (fs_type_of p) ≡ fs_type_of p
unfolding fs_type_of
fs_type_nonempty p d = ground arith

from_serializable-to_serializable :
    (p : DriveOptions)
    → validate p ≡ true
    → from_serializable (to_serializable p) ≡ record p { fs_type = fs_type_of p }
unfolding from_serializable to_serializable validate
from_serializable-to_serializable p v =
    let k : is_known_method p.mount_method ≡ true = ground arith in
    rw (k, fs_type_nonempty p ext4) refl

-- What `UnmarshalJSON` reads from the JSON of valid options is those options with the file system
-- type written out, and valid, if `json.Unmarshal` reads what `json.Marshal` wrote of these
-- options, as it does of strings that are valid UTF-8.
pub unmarshal_json-marshal_json :
    (marshal : Serializable → Result Bytes) (unmarshal : Bytes → Result Serializable)
    (p : DriveOptions) (raw : Bytes)
    → (marshal (to_serializable p) ≡ ok raw → unmarshal raw ≡ ok (to_serializable p))
    → validate p ≡ true
    → marshal_json marshal p ≡ ok raw
    → (q : DriveOptions) × (unmarshal_json unmarshal raw ≡ ok q)
      × (q ≡ record p { fs_type = fs_type_of p })
      × (validate q ≡ true)
unfolding marshal_json unmarshal_json validate
unmarshal_json-marshal_json marshal unmarshal p raw json v h =
    let e = json h in
    let f = from_serializable-to_serializable p v in
    (from_serializable (to_serializable p), ground (arith, e), f, ap validate f ∙ v)
