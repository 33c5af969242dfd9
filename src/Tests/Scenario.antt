-- ===== src/Tests/Scenario.antt =====
-- The program that tests drives, on a system where nothing fails and every file has one content.
use poprocks.Prelude.{◌≡◌, refl, false, none, some, [], ◌∷◌, Bytes, codes}
use poprocks.Prelude.Int.{pos}
use poprocks.Vsock.Errors.{ok}
use poprocks.Drive.Options.{loop, ext4}
use poprocks.Drive.Os.{Log, mkdir_temp}
use poprocks.Drive.Base.{BaseDrive}
use poprocks.Drive.Detect.{Image, file_of_size}
use poprocks.Drive.Interface.{base_drive}
use poprocks.Drive.Interface.BaseLaws.{IsQuietBase, base_drive-IsLawful}
use poprocks.Drive.Runner.{Ran, called, and_then, write_and_load, with_mount}
use poprocks.Drive.Runner.Laws.{IsKept, with_mount-write_and_load}
use poprocks.Tests.Drive.{os}

abbrev drive : BaseDrive
drive = record {
  params = some (record {
    id = codes "d";
    readonly = false;
    is_root = false;
    part_uuid = [];
    cache_type = [];
    ephemeral = false;
    size_bytes = pos 4096;
    fs_type = ext4;
    mount_method = loop;
  });
  image_path = codes "/d.img";
  mounted = false;
  mount_point = [];
  unmount_func = none;
  in_flight = 0;
  un_mounting = false;
}

-- Every file of the system has this content.
abbrev want : Bytes
want = codes "/dev/loop0"

abbrev ran : Ran BaseDrive
ran =
    with_mount (base_drive os) os (codes "mnt-")
      (and_then (write_and_load (base_drive os) (codes "/f") want)
        (λ d log. called ((base_drive os).unmount d log)))
      drive []

abbrev left_by : Ran BaseDrive → BaseDrive × Log
left_by none = (drive, [])
left_by (some (f, d, log)) = (d, log)

passes : ran ≡ some (none, (left_by ran).0, (left_by ran).1)
unfolding with_mount base_drive write_and_load
passes = refl

with_mount-write_and_load_example :
    (dir : Bytes) × (d1 : BaseDrive) × (log1 : Log) × (os.gives [] (mkdir_temp (codes "mnt-"))
      ≡ ok dir)
    × ((base_drive os).mount dir drive (mkdir_temp (codes "mnt-") ∷ []) ≡ (none, d1, log1))
    × IsKept (base_drive os) os (codes "/f") want d1 log1
    × ((base_drive os).mounted (left_by ran).0 ≡ false)
with_mount-write_and_load_example =
    with_mount-write_and_load (base_drive os) os IsQuietBase (base_drive-IsLawful os) (codes "mnt-")
      (codes "/f") want drive (left_by ran).0 [] (left_by ran).1 refl passes

abbrev images : Log → Bytes → Image
images log path = record {
  info = file_of_size (pos 4096);
  content = ok (codes "hsqs");
  blkid = ok [];
}

abbrev name_of : Bytes → Bytes
name_of path = codes "00"

abbrev no_hash : Bytes → Bytes
no_hash bytes = bytes
