-- ===== src/Vm/Startup.antt =====
-- `(*FirecrackerConfig).Init` and `(*Config).Init` of vm/config.go, and `NewVM` of vm/vm.go. The
-- environment of the process and the file system are parameters.
use poprocks.Prelude.{
  ◌==◌, ◌≡◌, ◌≢◌, not, Bool, false, Option, none, some, [], ◌∷◌, length, arith, if◌then◌else◌,
  Bytes,
}
use poprocks.Prelude.Int.{ℤ}
use poprocks.Vsock.Errors.{Error, Result, ok, err}
use poprocks.Vm.Hardware.{
  ConfigError, path_not_found, work_dir_failed, Hardware, drives_of, validate_hardware,
  FirecrackerConfig, validate_firecracker,
}
use poprocks.Vm.Hardware.Laws.{IsHardware, validate_hardware_iff}
use poprocks.Vm.Lifecycle.{Vm}

-- FIRECRACKER_BIN, KERNEL_IMAGE, INITRD_IMAGE and WORK_DIR.
pub data Variable : Type 0 where
  firecracker_bin_var kernel_image_var initrd_image_var work_dir_var : Variable

-- The paths that `Init` falls back to: /usr/local/bin/firecracker,
-- ./artifacts/vmlinux, ./artifacts/initramfs.cpio.gz and ./run.
abbrev pub default_firecracker_bin : Bytes
default_firecracker_bin =
    47 ∷ 117 ∷ 115 ∷ 114 ∷ 47 ∷ 108 ∷ 111 ∷ 99 ∷ 97 ∷ 108 ∷ 47 ∷ 98 ∷ 105 ∷ 110 ∷ 47 ∷ 102 ∷ 105
    ∷ 114 ∷ 101 ∷ 99 ∷ 114 ∷ 97 ∷ 99 ∷ 107 ∷ 101 ∷ 114 ∷ []

abbrev pub default_kernel_image : Bytes
default_kernel_image =
    46 ∷ 47 ∷ 97 ∷ 114 ∷ 116 ∷ 105 ∷ 102 ∷ 97 ∷ 99 ∷ 116 ∷ 115 ∷ 47 ∷ 118 ∷ 109 ∷ 108 ∷ 105 ∷ 110
    ∷ 117 ∷ 120 ∷ []

abbrev pub default_initrd_image : Bytes
default_initrd_image =
    46 ∷ 47 ∷ 97 ∷ 114 ∷ 116 ∷ 105 ∷ 102 ∷ 97 ∷ 99 ∷ 116 ∷ 115 ∷ 47 ∷ 105 ∷ 110 ∷ 105 ∷ 116 ∷ 114
    ∷ 97 ∷ 109 ∷ 102 ∷ 115 ∷ 46 ∷ 99 ∷ 112 ∷ 105 ∷ 111 ∷ 46 ∷ 103 ∷ 122 ∷ []

abbrev pub default_work_dir : Bytes
default_work_dir = 46 ∷ 47 ∷ 114 ∷ 117 ∷ 110 ∷ []

-- A field as it stands, or the variable's value, or the default.
abbrev pub or_default : Bytes → Bytes → Bytes → Bytes
or_default (b ∷ bs) value other = b ∷ bs
or_default [] (b ∷ bs) other = b ∷ bs
or_default [] [] other = other

-- The configuration with its defaults, before the work directory is made absolute.
unfoldable pub with_defaults : (Variable → Bytes) → FirecrackerConfig → FirecrackerConfig
with_defaults getenv c = record {
  firecracker_bin =
      or_default c.firecracker_bin (getenv firecracker_bin_var) default_firecracker_bin;
  kernel_image = or_default c.kernel_image (getenv kernel_image_var) default_kernel_image;
  initrd_image = or_default c.initrd_image (getenv initrd_image_var) default_initrd_image;
  work_dir = or_default c.work_dir (getenv work_dir_var) default_work_dir;
}

module _ (getenv : Variable → Bytes) (abs_path : Bytes → Result Bytes) (exists_path : Bytes → Bool)
    (mkdir_all : Bytes → Option Error) where
  -- `(*FirecrackerConfig).Init`: the error, and the configuration that it leaves.
  unfoldable pub init_firecracker : FirecrackerConfig → Option ConfigError × FirecrackerConfig
  unfolding with_defaults
  init_firecracker c =
      let d = with_defaults getenv c in
      elim (abs_path d.work_dir) [
        | err e ↦ (some work_dir_failed, d)
        | ok dir ↦
            let a : FirecrackerConfig = record d { work_dir = dir } in
            if not (exists_path a.firecracker_bin)
            then (some path_not_found, a)
            else if not (exists_path a.kernel_image)
            then (some path_not_found, a)
            else if not (exists_path a.initrd_image)
            then (some path_not_found, a)
            else elim (mkdir_all dir) [ some e ↦ (some work_dir_failed, a) | none ↦ (none, a) ]
      ]

  or_default_nonempty : (a b c : Bytes) → c ≢ [] → (length (or_default a b c) == 0) ≡ false
  or_default_nonempty [] [] c h = ground arith
  or_default_nonempty [] (x ∷ b) c h = ground arith
  or_default_nonempty (x ∷ a) b c h = ground arith

  -- What `(*FirecrackerConfig).Init` accepts and fills in, `Validate` accepts, if the absolute
  -- path of the work directory is not empty.
  pub validate_firecracker-init_firecracker :
      (c : FirecrackerConfig) (dir : Bytes)
      → abs_path (with_defaults getenv c).work_dir ≡ ok dir
      → dir ≢ []
      → (init_firecracker c).0 ≡ none
      → validate_firecracker exists_path (init_firecracker c).1 ≡ none
  unfolding init_firecracker validate_firecracker with_defaults
  validate_firecracker-init_firecracker c dir a nz e =
      let x =
        or_default_nonempty c.firecracker_bin (getenv firecracker_bin_var) default_firecracker_bin
          (λ h. ground arith) in
      let y =
        or_default_nonempty c.kernel_image (getenv kernel_image_var) default_kernel_image
          (λ h. ground arith) in
      let z =
        or_default_nonempty c.initrd_image (getenv initrd_image_var) default_initrd_image
          (λ h. ground arith) in
      ground arith

-- The parts of `Config` that `NewVM` and `Init` look at; the environment is a type of its own. The two
-- timeouts are in nanoseconds.
pub record Config (E : Type 0) : Type 0 where
  pub firecracker : FirecrackerConfig
  pub startup_timeout : ℤ
  pub max_startup_timeout : ℤ
  pub environment_variables : Option E

module _ {E : Type 0} (new_environment_variables : E) where
  -- The environment, or a new one.
  abbrev pub with_environment : Config E → Config E
  with_environment c = elim c.environment_variables [
    | some e ↦ c
    | none ↦ record c { environment_variables = some new_environment_variables }
  ]

  -- `(*Config).Init`, over that of the Firecracker configuration.
  unfoldable pub init_config :
      (FirecrackerConfig → Option ConfigError × FirecrackerConfig)
      → Config E
      → Option ConfigError × Config E
  init_config init c =
      let (e, f) = init c.firecracker in (e, record (with_environment c) { firecracker = f })

  -- `(*Config).Validate`
  unfoldable pub validate_config : (Bytes → Bool) → Config E → Option ConfigError × Config E
  unfolding validate_firecracker
  validate_config exists_path c =
      (validate_firecracker exists_path c.firecracker, with_environment c)

-- `NewVM`: the error, or the VM.
unfoldable pub new_vm :
    (Bytes → Bool) → Hardware → FirecrackerConfig → Option ConfigError × Option Vm
new_vm exists_path h c = elim (validate_hardware h) [
  | some e ↦ (some e, none)
  | none ↦ elim (validate_firecracker exists_path c) [
    | some e ↦ (some e, none)
    | none ↦ (
      none,
      some (record {
        locked = false;
        api_sock = h.sockets.api_sock;
        drives = some (drives_of h.drives);
        machine_on = false;
      }),
    )
  ]
]

-- `NewVM` makes a VM of hardware within its bounds only, without an error, with the mutex free,
-- and with a map for its drives.
pub new_vm_ok :
    (exists_path : Bytes → Bool) (h : Hardware) (c : FirecrackerConfig) (v : Vm)
    → (new_vm exists_path h c).1 ≡ some v
    → IsHardware h
      × (v.locked ≡ false)
      × (v.drives ≡ some (drives_of h.drives))
      × ((new_vm exists_path h c).0 ≡ none)
unfolding new_vm
new_vm_ok exists_path h c v e =
    let fine : validate_hardware h ≡ none = ground arith in
    ((validate_hardware_iff h).0 fine, ground arith, ground arith, ground arith)
