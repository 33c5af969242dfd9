-- ===== src/Tests/Formats.antt =====
-- The JSON of drive options, and the paths of file transfers.
use poprocks.Prelude.{
  ◌==◌, ◌&&◌, not, ◌≡◌, refl, Bool, true, false, if◌then◌else◌, [], arith, Bytes, codes, bytes_eq,
  bytes_eq_iff,
}
use poprocks.Prelude.Int.{ℤ, pos, negsuc}
use poprocks.Vsock.Errors.{Result, ok, err, other}
use poprocks.FilePath.{abs}
use poprocks.FilePath.Tree.{IsUnder}
use poprocks.Transfer.Paths.{
  resolve_sender_path_under_root, resolve_sender_path_under_root-IsUnder, resolve_host_path_by_name,
}
use poprocks.Drive.Options.{
  to_serializable, DriveOptions, Serializable, loop, ext4, validate, fs_type_of, marshal_json,
  unmarshal_json,
}
use poprocks.Drive.Options.Laws.{unmarshal_json-marshal_json}
use poprocks.Tests.Drive.{root-IsGetwd}

abbrev plain : DriveOptions
plain = record {
  id = codes "d";
  readonly = false;
  is_root = false;
  part_uuid = [];
  cache_type = [];
  ephemeral = false;
  size_bytes = pos 4096;
  fs_type = ext4;
  mount_method = loop;
}

-- A format that knows the options `plain`, whatever their ID.
abbrev with_id : Bytes → Serializable
with_id id = record {
  id = id;
  readonly = false;
  is_root = false;
  part_uuid = [];
  cache_type = [];
  ephemeral = false;
  size_bytes = pos 4096;
  fs_type = ext4;
  mount_method = loop;
}

abbrev is_4096 : ℤ → Bool
is_4096 (pos n) = n == 4096
is_4096 (negsuc n) = false

abbrev is_plain : Serializable → Bool
is_plain s =
    not s.readonly
    && not s.is_root
    && bytes_eq s.part_uuid []
    && bytes_eq s.cache_type []
    && not s.ephemeral
    && is_4096 s.size_bytes
    && bytes_eq s.fs_type ext4
    && bytes_eq s.mount_method loop

abbrev marshal : Serializable → Result Bytes
marshal s = if is_plain s then ok s.id else err (other 0)

abbrev unmarshal : Bytes → Result Serializable
unmarshal raw = ok (with_id raw)

is_4096_only : (n : ℤ) → is_4096 n ≡ true → n ≡ pos 4096
is_4096_only (pos n) h = ground arith
is_4096_only (negsuc n) h = ground arith

unmarshal-marshal : (s : Serializable) (raw : Bytes) → marshal s ≡ ok raw → unmarshal raw ≡ ok s
unmarshal-marshal s raw h = ground (
  arith,
  bytes_eq_iff s.part_uuid [],
  bytes_eq_iff s.cache_type [],
  is_4096_only s.size_bytes,
  bytes_eq_iff s.fs_type ext4,
  bytes_eq_iff s.mount_method loop,
)

plain_valid : validate plain ≡ true
unfolding validate
plain_valid = refl

plain_marshals : marshal_json marshal plain ≡ ok (codes "d")
unfolding marshal_json bytes_eq
plain_marshals = refl

unmarshal_json-marshal_json_example :
    (q : DriveOptions) × (unmarshal_json unmarshal (codes "d") ≡ ok q)
    × (q ≡ record plain { fs_type = fs_type_of plain })
    × (validate q ≡ true)
unmarshal_json-marshal_json_example =
    unmarshal_json-marshal_json marshal unmarshal plain (codes "d")
      (unmarshal-marshal (to_serializable plain) (codes "d")) plain_valid plain_marshals

abbrev here : Result Bytes
here = ok (codes "/")

root_abs : abs here (codes "/r") ≡ ok (codes "/r")
unfolding abs
root_abs = refl

resolves : resolve_sender_path_under_root here (codes "/r") (codes "a/./b") [] ≡ ok (codes "/r/a/b")
unfolding resolve_sender_path_under_root
resolves = refl

resolve_sender_path_under_root-IsUnder_example : IsUnder (codes "/r") (codes "/r/a/b")
resolve_sender_path_under_root-IsUnder_example =
    resolve_sender_path_under_root-IsUnder here root-IsGetwd (codes "/r") (codes "/r") root_abs
      (codes "a/./b") [] (codes "/r/a/b") resolves

resolves_name : resolve_host_path_by_name here (codes "/r") (codes "a/b") ≡ ok (codes "/r/b")
unfolding resolve_host_path_by_name
resolves_name = refl

-- The name `..` stands for the directory above the root.
resolves_up : resolve_host_path_by_name here (codes "/srv/r") (codes "..") ≡ ok (codes "/srv")
unfolding resolve_host_path_by_name
resolves_up = refl
