-- ===== src/Tests/Drive.antt =====
-- A drive at /m, of an image, on a system where nothing fails and no path is a symbolic link.
use poprocks.Prelude.{
  ◌≡◌, refl, ◌≢◌, ◌↔◌, inl, inr, true, false, Option, none, some, List, [], ◌∷◌, ◌++◌, arith, Bytes,
  All, codes, has_prefix,
}
use poprocks.Prelude.Int.{pos}
use poprocks.Vsock.Errors.{Error, ok, other}
use poprocks.FilePath.{is_abs, abs, dir}
use poprocks.FilePath.Join.{IsGetwd}
use poprocks.FilePath.Tree.{IsUnder}
use poprocks.Drive.Errors.{failed, already_mounted, unmounting, invalid_parameter}
use poprocks.Drive.Options.{DriveOptions, ext4, guestmount, squashfs, fs_type_of}
use poprocks.Drive.Paths.{missing, found, safe_drive_path, path_check}
use poprocks.Drive.Paths.Laws.{joined, safe_drive_path_iff}
use poprocks.Drive.Paths.Links.{IsPlain, path_check-IsPlain}
use poprocks.Drive.Os.{
  Os, Log, Call, remove_all, guest_unmount, open_write, write_bytes, close_file, mkdir_all,
}
use poprocks.Drive.Base.{
  BaseDrive, guest_unmounter, mount, unmount, delete, finish_unmount, run_unmounter,
}
use poprocks.Drive.Files.{Reader, write_to_drive, begin_load, begin_write}
use poprocks.Drive.Files.Laws.{IsConfined, write_to_drive-IsConfined, write_to_drive_ok}
use poprocks.Drive.Life.{System, idle, stays}
use poprocks.Drive.Life.Stuck.{stuck_for_good}

abbrev pub os : Os
os = record {
  fails = λ log c. none;
  gives = λ log c. ok (codes "/dev/loop0");
  stat = λ log path. found false;
  lstat = λ log path. found false;
  is_not_exist = λ e. false;
  has_tool = λ tool. true;
  is_root = true;
  getwd = ok (codes "/");
}

root_is_abs : is_abs (codes "/") ≡ true
unfolding is_abs has_prefix
root_is_abs = refl

pub root-IsGetwd : IsGetwd (ok (codes "/"))
root-IsGetwd wd h = let e : codes "/" ≡ wd = ground arith in rw (← e) root_is_abs

mount_abs : abs (ok (codes "/")) (codes "/m") ≡ ok (codes "/m")
unfolding abs
mount_abs = refl

safe_drive_path_iff_example :
    (safe_drive_path (ok (codes "/")) (codes "/m") (codes "/a/../b") ≡ inr (codes "/m/b")) ↔ (
      (abs (ok (codes "/")) (joined (codes "/m") (codes "/a/../b")) ≡ ok (codes "/m/b"))
      × IsUnder (codes "/m") (codes "/m/b"))
safe_drive_path_iff_example =
    safe_drive_path_iff (ok (codes "/")) root-IsGetwd (codes "/m") (codes "/a/../b") (codes "/m")
      mount_abs (codes "/m/b")

-- A path that goes up is refused.
up_refused :
    safe_drive_path (ok (codes "/")) (codes "/m") (codes "a/../../m2") ≡ inl invalid_parameter
unfolding safe_drive_path
up_refused = refl

checked :
    path_check (ok (codes "/")) (λ path. missing) (codes "/m") (codes "/b/c") true
    ≡ inr (codes "/m/b/c")
unfolding path_check
checked = refl

path_check-IsPlain_example :
    (u : IsUnder (codes "/m") (codes "/m/b/c")) × ((s : Bytes) (front back : List Bytes)
      → u.rest ≡ s ∷ (front ++ back)
      → IsPlain (λ path. missing) true u.base (s ∷ front))
path_check-IsPlain_example =
    path_check-IsPlain (λ path. missing) (ok (codes "/")) root-IsGetwd (codes "/m") (codes "/m")
      mount_abs (codes "/b/c") (codes "/m/b/c") true checked

abbrev options : DriveOptions
options = record {
  id = codes "d";
  readonly = false;
  is_root = false;
  part_uuid = [];
  cache_type = [];
  ephemeral = true;
  size_bytes = pos 4096;
  fs_type = ext4;
  mount_method = guestmount;
}

abbrev drive : BaseDrive
drive = record {
  params = some options;
  image_path = codes "/d.img";
  mounted = true;
  mount_point = codes "/m";
  unmount_func = some (guest_unmounter (codes "/m"));
  in_flight = 0;
  un_mounting = false;
}

abbrev reader : Reader
reader = record { content = 1 ∷ 2 ∷ []; problem = none }

abbrev written : Log
written = (write_to_drive os (codes "a/b") reader drive []).2

write_to_drive-IsConfined_example :
    (new : Log) × (written ≡ new ++ [])
    × All (IsConfined (codes "/m")) new
    × ((write_to_drive os (codes "a/b") reader drive []).1 ≡ drive)
write_to_drive-IsConfined_example =
    write_to_drive-IsConfined os root-IsGetwd (codes "a/b") reader drive [] (codes "/m") mount_abs

succeeds : (write_to_drive os (codes "a/b") reader drive []).0 ≡ inr tt
unfolding write_to_drive
succeeds = refl

write_to_drive_ok_example :
    (t : Bytes) × IsUnder (codes "/m") t
    × (drive.mounted ≡ true)
    × (drive.un_mounting ≡ false)
    × ((p : DriveOptions) × (drive.params ≡ some p)
        × (p.readonly ≡ false)
        × (fs_type_of p ≢ squashfs))
    × (reader.problem ≡ none)
    × (written
        ≡ close_file t ∷ write_bytes t reader.content ∷ open_write t ∷ mkdir_all (dir t) ∷ [])
    × (os.fails (open_write t ∷ mkdir_all (dir t) ∷ []) (write_bytes t reader.content) ≡ none)
write_to_drive_ok_example =
    write_to_drive_ok os root-IsGetwd (codes "a/b") reader drive [] (codes "/m") mount_abs succeeds

abbrev before : System
before = record { drive = drive; phase = idle; log = [] }

abbrev reading : BaseDrive
reading = record drive { in_flight = 1 }

-- Nothing fails but the removal of the mount point.
abbrev removal_fails : Log → Call → Option Error
removal_fails log (remove_all path) = some (other 5)
removal_fails log _ = none

abbrev bad_os : Os
bad_os = record os { fails = removal_fails }

abbrev marked : BaseDrive
marked = record drive { un_mounting = true }

abbrev after : System
after = record {
  drive = (finish_unmount bad_os marked []).1;
  phase = idle;
  log = (finish_unmount bad_os marked []).2;
}

unmounter_runs :
    run_unmounter bad_os (guest_unmounter (codes "/m")) []
    ≡ (inr tt, guest_unmount (codes "/m") ∷ [])
unfolding run_unmounter
unmounter_runs = refl

stuck_for_good_example :
    ((finish_unmount bad_os marked []).0 ≡ some (failed (other 5)))
    × ((mount bad_os (codes "/n") after.drive after.log).0 ≡ inl already_mounted)
    × (unmount bad_os after.drive after.log ≡ some (some unmounting, after.drive, after.log))
    × (delete bad_os after.drive after.log ≡ some (some unmounting, after.drive, after.log))
    × (begin_write (codes "a") after.drive ≢ inr drive)
    × (begin_load (codes "a") after.drive ≢ inr drive)
stuck_for_good_example =
    stuck_for_good bad_os marked (guest_unmounter (codes "/m")) options []
      (guest_unmount (codes "/m") ∷ []) (other 5) (codes "/n") (codes "a") drive refl refl refl
      (λ e. ground arith) refl refl unmounter_runs refl stays
