-- ===== src/Tests/Machine.antt =====
-- A VM, its environment and its heartbeat: vm/ and vsock/protocol/common/heartbeat.go.
use poprocks.Prelude.{
  ℕ, codes, inl, inr, ◌≡◌, refl, ◌↔◌, true, false, none, some, [], ◌∷◌, arith, lookup, bytes_eq,
  bytes_eq_inst, Bytes, GoMap, All,
}
use poprocks.Prelude.Int.{pos}
use poprocks.Vsock.Errors.{ok, err, other}
use poprocks.Vm.Env.{EnvironmentVariables, from_file, save_to_file, get}
use poprocks.Vm.Env.File.{IsSavable, AreDistinct, from_file-save_to_file}
use poprocks.Vm.Hardware.{Drive, Hardware, validate_hardware}
use poprocks.Vm.Hardware.Laws.{IsHardware, validate_hardware_iff}
use poprocks.Vm.Attach.{attach_disk_image, attach_disk_image_blocked}
use poprocks.Drive.Detect.{Image, file_of_size, base_drive_from_image}
use poprocks.Tests.Drive.{os}
use poprocks.Vm.Lifecycle.{is_started, described, Vm, returned, blocked, start, stop, hot_add_drive}
use poprocks.Vm.Lifecycle.Laws.{start_blocked}
use poprocks.Protocol.Heartbeat.{
  Heartbeat, World, Reaches, stays, goes, after_start, calls_start, default_heartbeat_config,
}
use poprocks.Protocol.Heartbeat.Laws.{HasOneLoop, Reaches-HasOneLoop}

-- A=1 and B=2=.
abbrev vars : GoMap Bytes Bytes
vars = (65 ∷ [], 49 ∷ []) ∷ (66 ∷ [], 50 ∷ 61 ∷ []) ∷ []

abbrev environment : EnvironmentVariables
environment = record { vars = some vars }

vars-IsSavable : All IsSavable vars
vars-IsSavable = (
  record {
    name_has_no_equals = (omega arith, tt);
    name_is_one_line = (omega arith, tt);
    value_is_one_line = (omega arith, tt);
  },
  (
    record {
      name_has_no_equals = (omega arith, tt);
      name_is_one_line = (omega arith, tt);
      value_is_one_line = (omega arith, (omega arith, tt));
    },
    tt,
  ),
)

vars-AreDistinct : AreDistinct vars
unfolding lookup bytes_eq
vars-AreDistinct = (refl, (refl, tt))

from_file-save_to_file_example :
    (e : EnvironmentVariables) × (from_file (save_to_file environment) ≡ some e)
    × (get (66 ∷ []) e ≡ get (66 ∷ []) environment)
from_file-save_to_file_example =
    from_file-save_to_file vars (66 ∷ []) vars-IsSavable vars-AreDistinct

abbrev root : Drive
root = record { parameters = some (record { id = 1 ∷ []; is_root = true }); is_valid = true }

abbrev hardware : Hardware
hardware = record {
  drives = some ((1 ∷ [], some root) ∷ []);
  ram_mib = pos 512;
  cpus = pos 2;
  sockets = record { guest_cid = pos 3; guest_vsock_port = pos 1; api_sock = [] };
}

validate_hardware_iff_example : (validate_hardware hardware ≡ none) ↔ IsHardware hardware
validate_hardware_iff_example = validate_hardware_iff hardware

abbrev vm : Vm
vm = record {
  locked = false;
  api_sock = 9 ∷ [];
  drives = some ((1 ∷ [], some root) ∷ []);
  machine_on = false;
}

start_blocked_example :
    (start described false vm ≡ blocked)
    × (stop described vm ≡ blocked)
    × (hot_add_drive described vm ≡ blocked)
start_blocked_example = start_blocked described false vm

abbrev heartbeat : Heartbeat ℕ
heartbeat = record {
  config = default_heartbeat_config;
  state = record { sent = 0; received = 0; status = 0; health = none };
  started = false;
  provider = some (some 3);
}

abbrev asleep : World ℕ
asleep = record { heartbeat = heartbeat; loops = 0 }

abbrev awake : World ℕ
awake = after_start (after_start asleep)

awake_reached : Reaches asleep awake
awake_reached = goes (goes stays calls_start) calls_start

Reaches-HasOneLoop_example : HasOneLoop awake
Reaches-HasOneLoop_example = Reaches-HasOneLoop awake_reached refl

-- A squashfs image.
abbrev image_at : Bytes → Image
image_at path = record {
  info = file_of_size (pos 4);
  content = ok (codes "hsqs");
  blkid = err (other 0);
}

attach_disk_image_blocked_example :
    attach_disk_image os image_at described (codes "disk.img") none vm
    ≡ elim (base_drive_from_image os image_at (codes "disk.img") none) [
      | inl e ↦ returned (inl (inl e)) vm
      | inr d ↦ blocked
    ]
attach_disk_image_blocked_example =
    attach_disk_image_blocked os image_at described (codes "disk.img") none vm

attaching_blocks : attach_disk_image os image_at described (codes "disk.img") none vm ≡ blocked
unfolding attach_disk_image is_started
attaching_blocks = refl
