-- ===== src/Vm/Hardware.antt =====
-- vm/hardware.go, the checks of vm/config.go and `NewVM` of vm/vm.go. What is asked of a drive is a
-- record of its answers; which paths exist is a test on them.
pub mod Laws
use poprocks.Prelude.{
  ℕ, ◌==◌, ◌&&◌, ◌||◌, not, Bool, true, false, Option, none, some, List, [], ◌∷◌, length,
  if◌then◌else◌, Bytes, GoMap, bytes_eq,
}
use poprocks.Prelude.Int.{ℤ, pos, negsuc, ltb_ℤ, leb_ℤ}

pub data ConfigError : Type 0 where
  guest_cid_reserved guest_cid_not_positive port_out_of_range : ConfigError
  cpus_not_positive ram_not_positive nil_drive nil_parameters id_mismatch invalid_drive no_root :
      ConfigError
  path_required path_not_found work_dir_failed : ConfigError

pub record SocketConfig : Type 0 where
  pub guest_cid : ℤ
  pub guest_vsock_port : ℤ
  pub api_sock : Bytes

-- `s.GuestCID == 2`
abbrev pub is_two : ℤ → Bool
is_two (pos n) = n == 2
is_two (negsuc n) = false

-- `(*SocketConfig).Validate`
unfoldable pub validate_sockets : SocketConfig → Option ConfigError
validate_sockets s =
    if is_two s.guest_cid
    then some guest_cid_reserved
    else if leb_ℤ s.guest_cid (pos 0)
    then some guest_cid_not_positive
    else if ltb_ℤ s.guest_vsock_port (pos 1) || ltb_ℤ (pos 65535) s.guest_vsock_port
    then some port_out_of_range
    else none

-- The `ID` and `IsRoot` of a drive's parameters.
pub record DriveParameters : Type 0 where
  pub id : Bytes
  pub is_root : Bool

-- What a drive answers to `Parameters` and `Validate`.
pub record Drive : Type 0 where
  pub parameters : Option DriveParameters
  pub is_valid : Bool

pub record Hardware : Type 0 where
  pub drives : Option (GoMap Bytes (Option Drive))
  pub ram_mib : ℤ
  pub cpus : ℤ
  pub sockets : SocketConfig

-- A nil map is iterated as an empty one.
abbrev pub drives_of : Option (GoMap Bytes (Option Drive)) → GoMap Bytes (Option Drive)
drives_of none = []
drives_of (some m) = m

-- `NewSockConfig`
abbrev pub new_sock_config : SocketConfig
new_sock_config = record { guest_cid = pos 3; guest_vsock_port = pos 1; api_sock = [] }

-- `NewHardware`
abbrev pub new_hardware : Hardware
new_hardware = record { drives = some []; ram_mib = pos 0; cpus = pos 0; sockets = new_sock_config }

-- One round of the loop of `Validate`: the error, or whether the drive is a root.
unfoldable pub check_drive : Bytes → Option Drive → Option ConfigError × Bool
check_drive id none = (some nil_drive, false)
check_drive id (some d) = elim d.parameters [
  | none ↦ (some nil_parameters, false)
  | some p ↦
      if not (bytes_eq id p.id)
      then (some id_mismatch, false)
      else if not d.is_valid
      then (some invalid_drive, false)
      else (none, p.is_root)
]

-- The loop, in the order of the iteration: the error, and `hasRoot`.
unfoldable pub check_drives : Bool → GoMap Bytes (Option Drive) → Option ConfigError × Bool
unfolding check_drive
check_drives has_root [] = (none, has_root)
check_drives has_root ((id, d) ∷ m) =
    let (e, root) = check_drive id d in
    let rest = check_drives (has_root || root) m in
    elim e [ some x ↦ (some x, has_root) | none ↦ rest ]

-- `(*Hardware).Validate`
unfoldable pub validate_hardware : Hardware → Option ConfigError
unfolding check_drives validate_sockets
validate_hardware h =
    let m = drives_of h.drives in
    let (e, has_root) = check_drives false m in
    if leb_ℤ h.cpus (pos 0)
    then some cpus_not_positive
    else if leb_ℤ h.ram_mib (pos 0)
    then some ram_not_positive
    else elim e [
      | some x ↦ some x
      | none ↦
          if not (length m == 0) && not has_root then some no_root else validate_sockets h.sockets
    ]

pub record FirecrackerConfig : Type 0 where
  pub firecracker_bin : Bytes
  pub kernel_image : Bytes
  pub initrd_image : Bytes
  pub work_dir : Bytes

module _ (exists_path : Bytes → Bool) where
  -- `(*FirecrackerConfig).Validate`, which `(*Config).Validate` returns the error of.
  unfoldable pub validate_firecracker : FirecrackerConfig → Option ConfigError
  validate_firecracker c =
      if length c.firecracker_bin == 0
      then some path_required
      else if length c.kernel_image == 0
      then some path_required
      else if length c.initrd_image == 0
      then some path_required
      else if length c.work_dir == 0
      then some path_required
      else if not (exists_path c.firecracker_bin)
      then some path_not_found
      else if not (exists_path c.kernel_image)
      then some path_not_found
      else if not (exists_path c.initrd_image)
      then some path_not_found
      else none
