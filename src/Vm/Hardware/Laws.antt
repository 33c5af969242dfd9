-- ===== src/Vm/Hardware/Laws.antt =====
-- The checks of vm/hardware.go.
use poprocks.Prelude.{
  ◌≡◌, refl, ◌≢◌, ◌⊎◌, inl, inr, ◌↔◌, ◌||◌, Bool, true, false, Option, none, some, Option-cases, [],
  ◌∷◌, arith, All, Bytes, GoMap, bytes_eq_iff,
}
use poprocks.Prelude.Int.{pos, ◌≤ℤ◌, ◌<ℤ◌}
use poprocks.Vm.Hardware.{
  SocketConfig, validate_sockets, DriveParameters, Drive, Hardware, drives_of, check_drive,
  check_drives, validate_hardware,
}

-- The sockets' numbers, in the order of the checks.
pub record HasSockets (s : SocketConfig) : Type 0 where
  pub cid_not_host : s.guest_cid ≢ pos 2
  pub cid_positive : pos 0 <ℤ s.guest_cid
  pub port_low : pos 1 ≤ℤ s.guest_vsock_port
  pub port_high : s.guest_vsock_port ≤ℤ pos 65535

pub validate_sockets_iff : (s : SocketConfig) → (validate_sockets s ≡ none) ↔ HasSockets s
unfolding validate_sockets
validate_sockets_iff s = (
  λ e. record {
    cid_not_host = ground arith;
    cid_positive = ground arith;
    port_low = ground arith;
    port_high = ground arith;
  },
  λ v. ground arith,
)

-- A drive that is there, under its own ID, and valid.
pub record IsDrive (x : Bytes × Option Drive) : Type 0 where
  pub drive : Drive
  pub parameters : DriveParameters
  pub present : x.1 ≡ some drive
  pub described : drive.parameters ≡ some parameters
  pub named : parameters.id ≡ x.0
  pub valid : drive.is_valid ≡ true

-- Whether a drive says that it is the root.
abbrev pub claims_root : Option Drive → Bool
claims_root none = false
claims_root (some d) = elim d.parameters [ none ↦ false | some p ↦ p.is_root ]

abbrev pub any_root : GoMap Bytes (Option Drive) → Bool
any_root [] = false
any_root ((id, d) ∷ m) = claims_root d || any_root m

check_drive_ok : (id : Bytes) (d : Option Drive) → (check_drive id d).0 ≡ none → IsDrive (id, d)
unfolding check_drive
check_drive_ok id none e = ground arith
check_drive_ok id (some d) e = elim (Option-cases d.parameters) [
  | inl n ↦ ground arith
  | inr (p, n) ↦ record {
    drive = d;
    parameters = p;
    present = refl;
    described = n;
    named = ground (arith, bytes_eq_iff id p.id);
    valid = ground arith;
  }
]

check_drive_root :
    (id : Bytes) (d : Option Drive)
    → (check_drive id d).0 ≡ none
    → (check_drive id d).1 ≡ claims_root d
unfolding check_drive
check_drive_root id none e = ground arith
check_drive_root id (some d) e = ground arith

check_drive_iff : (id : Bytes) (d : Option Drive) → IsDrive (id, d) → (check_drive id d).0 ≡ none
unfolding check_drive
check_drive_iff id d v =
    let x = v.present in
    let y = v.described in
    let z = v.named in let w = v.valid in ground (arith, bytes_eq_iff id v.parameters.id)

check_drives_ok :
    (b : Bool) (m : GoMap Bytes (Option Drive))
    → (check_drives b m).0 ≡ none
    → All IsDrive m × ((check_drives b m).1 ≡ (b || any_root m))
unfolding check_drives
check_drives_ok b [] e = (tt, ground arith)
check_drives_ok b ((id, d) ∷ m) e =
    let first : (check_drive id d).0 ≡ none = ground arith in
    let rest = check_drives_ok (b || (check_drive id d).1) m (ground arith) in
    ((check_drive_ok id d first, rest.0), ground (arith, rest.1, check_drive_root id d first))

check_drives_iff :
    (b : Bool) (m : GoMap Bytes (Option Drive))
    → All IsDrive m
    → ((check_drives b m).0 ≡ none) × ((check_drives b m).1 ≡ (b || any_root m))
unfolding check_drives
check_drives_iff b [] v = (refl, ground arith)
check_drives_iff b ((id, d) ∷ m) v =
    let first = check_drive_iff id d v.0 in
    let rest = check_drives_iff (b || (check_drive id d).1) m v.1 in
    (ground (arith, rest.0), ground (arith, rest.1, check_drive_root id d first))

-- What `Validate` is to let through.
pub record IsHardware (h : Hardware) : Type 0 where
  pub has_cpus : pos 0 <ℤ h.cpus
  pub has_ram : pos 0 <ℤ h.ram_mib
  pub drives : All IsDrive (drives_of h.drives)
  pub root : (drives_of h.drives ≡ []) ⊎ (any_root (drives_of h.drives) ≡ true)
  pub sockets : HasSockets h.sockets

-- `(*Hardware).Validate` lets exactly the hardware through that has CPUs and memory, drives that
-- are there, valid and under their own IDs, a root among them if there are any, and sockets whose
-- numbers are in range.
pub validate_hardware_iff : (h : Hardware) → (validate_hardware h ≡ none) ↔ IsHardware h
unfolding validate_hardware
validate_hardware_iff h = (
  λ e.
      let m = drives_of h.drives in
      let c : (check_drives false m).0 ≡ none = ground arith in
      let d = check_drives_ok false m c in
      let s : validate_sockets h.sockets ≡ none = ground arith in
      record {
        has_cpus = ground arith;
        has_ram = ground arith;
        drives = d.0;
        root = ground (arith, d.1);
        sockets = (validate_sockets_iff h.sockets).0 s;
      },
  λ v.
      let c = check_drives_iff false (drives_of h.drives) v.drives in
      let x = v.has_cpus in
      let y = v.has_ram in
      let r = v.root in
      let s = (validate_sockets_iff h.sockets).1 v.sockets in ground (arith, c.0, c.1),
)
