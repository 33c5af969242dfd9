-- ===== src/Drive/Os.antt =====
-- What drive/ asks of the operating system and of other programs. What they answer is a parameter,
-- and may depend on all that was asked before; the questions that may change anything are logged,
-- the newest first.
pub mod Laws
pub mod Ends
use poprocks.Prelude.{
  ℕ, Bool, true, false, Option, none, some, List, [], ◌∷◌, ◌⊎◌, inl, inr, if◌then◌else◌, Bytes,
}
use poprocks.Prelude.Int.{ℤ}
use poprocks.Vsock.Errors.{Error, Result, ok, err}
use poprocks.Drive.Errors.{DriveError, failed}
use poprocks.Drive.Paths.{Stat}

-- A program is named by what it is run for; the arguments of a constructor are those that vary.
pub data Call : Type 0 where
  -- guestmount and guestunmount.
  guest_mount : List Bytes → Call
  guest_unmount : Bytes → Call
  -- `losetup --find --show` an image, and `losetup -d` a device.
  attach_loop detach_loop : Bytes → Call
  -- `mount -t` a type `-o` options, of a device at a directory, and `umount`.
  mount_device : Bytes → Bytes → Bytes → Bytes → Call
  umount : Bytes → Call
  -- `cryptsetup`: isLuks of an image; luksFormat of one, with the key that it reads; luksOpen of one
  -- under a name, with the key; and luksClose of a name.
  is_luks : Bytes → Call
  luks_format : Bytes → Bytes → Call
  luks_open : Bytes → Bytes → Bytes → Call
  luks_close : Bytes → Call
  -- `truncate -s` a size, and `mkfs.ext4 -F`.
  truncate : ℤ → Bytes → Call
  make_ext4 : Bytes → Call
  -- `os.MkdirTemp` with a prefix, `os.MkdirAll`, `os.RemoveAll` and `os.Remove`.
  mkdir_temp mkdir_all remove_all remove : Bytes → Call
  -- `os.OpenFile` to write, a write to the open file, and its end; and `os.ReadFile`.
  open_write : Bytes → Call
  write_bytes : Bytes → Bytes → Call
  close_file : Bytes → Call
  read_file : Bytes → Call
  -- `os.Open` and `os.Create` of a file, `io.Copy` from the one to the other, and `os.Setenv` of PATH.
  open_file create_file : Bytes → Call
  copy_file : Bytes → Bytes → Call
  set_path : Bytes → Call
  -- The opening of a key's reader by its function, `os.Open` of a key file, and the start and the wait of a key command.
  open_reader_with : ℕ → Call
  open_key : Bytes → Call
  start_command wait_command : Bytes → List Bytes → Call

abbrev pub Log : Type 0
Log = List Call

pub record Os : Type 0 where
  -- The error of a call.
  pub fails : Log → Call → Option Error
  -- What a call gives.
  pub gives : Log → Call → Result Bytes
  -- `os.Stat` and `os.Lstat` of a path.
  pub stat : Log → Bytes → Stat
  pub lstat : Log → Bytes → Stat
  -- `errors.Is(err, os.ErrNotExist)`
  pub is_not_exist : Error → Bool
  -- Whether `exec.LookPath` finds a program, and `os.Geteuid() == 0`.
  pub has_tool : Bytes → Bool
  pub is_root : Bool
  pub getwd : Result Bytes

-- A computation on a state that may end with an error.
abbrev pub Run {ℓ} : Type 0 → Type ℓ → Type ℓ
Run S A = S → (DriveError ⊎ A) × S

module _ {S : Type 0} where
  infixl 5 ◌>>=◌ ◌>>◌
  abbrev pub ◌>>=◌ {ℓ κ} : {A : Type ℓ} {B : Type κ} → Run S A → (A → Run S B) → Run S B
  (m >>= f) s = let r = m s in elim r.0 [ inl e ↦ (inl e, r.1) | inr a ↦ f a r.1 ]

  abbrev pub ◌>>◌ {ℓ κ} : {A : Type ℓ} {B : Type κ} → Run S A → Run S B → Run S B
  (m >> k) s = let r = m s in elim r.0 [ inl e ↦ (inl e, r.1) | inr a ↦ k r.1 ]

  abbrev pub pure {ℓ} : {A : Type ℓ} → A → Run S A
  pure a s = (inr a, s)

  abbrev pub throw {ℓ} : {A : Type ℓ} → DriveError → Run S A
  throw e s = (inl e, s)

  -- `if cond { return err }`
  abbrev pub reject_if : Bool → DriveError → Run S (Unit {0})
  reject_if true e s = (inl e, s)
  reject_if false e s = (inr tt, s)

  -- `if err := m; err != nil { recover; return err }`
  abbrev pub or_else {ℓ} : {A : Type ℓ} → Run S A → (S → S) → Run S A
  or_else m cleanup s =
      let r = m s in elim r.0 [ inl e ↦ (inl e, cleanup r.1) | inr a ↦ (inr a, r.1) ]

  -- `if !ok(m) { n }`
  abbrev pub or_try {ℓ} : {A : Type ℓ} → Run S A → Run S A → Run S A
  or_try m n s = let r = m s in elim r.0 [ inl e ↦ n r.1 | inr a ↦ (inr a, r.1) ]

module _ (os : Os) where
  -- A call of which only the error counts.
  abbrev pub run : Call → Run Log (Unit {0})
  run c log = elim (os.fails log c) [
    | some e ↦ (inl (failed e), c ∷ log)
    | none ↦ (inr tt, c ∷ log)
  ]

  -- A call for what it gives.
  abbrev pub ask : Call → Run Log Bytes
  ask c log = elim (os.gives log c) [ err e ↦ (inl (failed e), c ∷ log) | ok b ↦ (inr b, c ∷ log) ]

-- A call of which nothing counts.
abbrev pub attempt : Call → Log → Log
attempt c log = c ∷ log
