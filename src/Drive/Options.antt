-- ===== src/Drive/Options.antt =====
-- drive/options.go. A `MountMethod` is a string; a nil pointer is `none`.
pub mod Laws
use poprocks.Prelude.{
  ℕ, ◌&&◌, ◌||◌, not, Bool, true, false, Option, none, some, [], ◌∷◌, if◌then◌else◌, Bytes,
  bytes_eq, codes,
}
use poprocks.Prelude.Int.{ℤ, pos, ltb_ℤ}
use poprocks.Vsock.Errors.{Error, Result, ok, err}

-- `MountMethodGuestMount`
abbrev pub guestmount : Bytes
guestmount = codes "guestmount"

-- `MountMethodLoop`
abbrev pub loop : Bytes
loop = codes "loop"

abbrev pub ext4 : Bytes
ext4 = codes "ext4"

abbrev pub squashfs : Bytes
squashfs = codes "squashfs"

pub record DriveOptions : Type 0 where
  pub id : Bytes
  pub readonly : Bool
  pub is_root : Bool
  pub part_uuid : Bytes
  pub cache_type : Bytes
  pub ephemeral : Bool
  pub size_bytes : ℤ
  pub fs_type : Bytes
  pub mount_method : Bytes

-- `driveOptionsSerializable`
pub record Serializable : Type 0 where
  pub id : Bytes
  pub readonly : Bool
  pub is_root : Bool
  pub part_uuid : Bytes
  pub cache_type : Bytes
  pub ephemeral : Bool
  pub size_bytes : ℤ
  pub fs_type : Bytes
  pub mount_method : Bytes

-- The string, or another one if it is empty.
abbrev pub default_to : Bytes → Bytes → Bytes
default_to d [] = d
default_to d (b ∷ bs) = b ∷ bs

-- `NewDriveOptions`, and `NewDriveOptionsPtr` of it.
unfoldable pub new_drive_options :
    Bytes → Bool → Bool → Bytes → Bytes → Bool → ℤ → Bytes → Bytes → DriveOptions
new_drive_options id readonly is_root part_uuid cache_type ephemeral size_bytes fs_type
      mount_method =
    record {
      id = id;
      readonly = readonly;
      is_root = is_root;
      part_uuid = part_uuid;
      cache_type = cache_type;
      ephemeral = ephemeral;
      size_bytes = size_bytes;
      fs_type = default_to ext4 fs_type;
      mount_method = mount_method;
    }

-- The cases of the switches on a mount method.
unfoldable pub is_known_method : Bytes → Bool
unfolding bytes_eq
is_known_method method = bytes_eq method [] || bytes_eq method guestmount || bytes_eq method loop

-- `Validate`
unfoldable pub validate : DriveOptions → Bool
unfolding bytes_eq is_known_method
validate p = not (bytes_eq p.id []) && ltb_ℤ (pos 0) p.size_bytes && is_known_method p.mount_method

-- `FSType`
unfoldable pub fs_type_of : DriveOptions → Bytes
fs_type_of p = default_to (if p.readonly then squashfs else ext4) p.fs_type

-- What `MarshalJSON` gives to `json.Marshal`.
unfoldable pub to_serializable : DriveOptions → Serializable
unfolding fs_type_of
to_serializable p = record {
  id = p.id;
  readonly = p.readonly;
  is_root = p.is_root;
  part_uuid = p.part_uuid;
  cache_type = p.cache_type;
  ephemeral = p.ephemeral;
  size_bytes = p.size_bytes;
  fs_type = fs_type_of p;
  mount_method = p.mount_method;
}

-- `MarshalJSON`
unfoldable pub marshal_json : (Serializable → Result Bytes) → DriveOptions → Result Bytes
unfolding to_serializable
marshal_json marshal p = marshal (to_serializable p)

-- The fields that `UnmarshalJSON` sets.
unfoldable pub from_serializable : Serializable → DriveOptions
unfolding is_known_method
from_serializable s = record {
  id = s.id;
  readonly = s.readonly;
  is_root = s.is_root;
  part_uuid = s.part_uuid;
  cache_type = s.cache_type;
  ephemeral = s.ephemeral;
  size_bytes = s.size_bytes;
  fs_type = default_to ext4 s.fs_type;
  mount_method = if is_known_method s.mount_method then s.mount_method else [];
}

-- `UnmarshalJSON`
unfoldable pub unmarshal_json : (Bytes → Result Serializable) → Bytes → Result DriveOptions
unfolding from_serializable
unmarshal_json unmarshal raw = elim (unmarshal raw) [
  | err e ↦ err e
  | ok s ↦ ok (from_serializable s)
]
