-- ===== src/Drive/Paths.antt =====
-- drive/helpers.go. What `os.Lstat` finds at a path is a parameter.
pub mod Laws
pub mod Links
pub mod Cases
use poprocks.Prelude.{
  ℕ, ◌||◌, Bool, true, false, Option, none, some, List, [], ◌∷◌, ◌⊎◌, inl, inr, if◌then◌else◌,
  Bytes, bytes_eq, has_prefix, split, trim_prefix,
}
use poprocks.Vsock.Errors.{Error, Result, ok, err, other}
use poprocks.FilePath.{slash, dot, dot_dot, up, clean, join, abs, rel}
use poprocks.FilePath.Rel.{escapes}
use poprocks.Drive.Errors.{DriveError, invalid_parameter, failed}
use poprocks.Drive.Options.{default_to}

-- What `os.Lstat` finds: nothing, an error, or a file and whether it is a symbolic link.
pub data Stat : Type 0 where
  missing : Stat
  unreadable : Error → Stat
  found : Bool → Stat

module _ (getwd : Result Bytes) where
  -- `safeDrivePath`
  unfoldable pub safe_drive_path : Bytes → Bytes → DriveError ⊎ Bytes
  unfolding clean join abs rel bytes_eq has_prefix
  safe_drive_path mount_point file_path =
      let target = clean (join mount_point (default_to dot (trim_prefix slash file_path))) in
      elim (abs getwd mount_point) [
        | err e ↦ inl (failed e)
        | ok mount_abs ↦ elim (abs getwd target) [
          | err e ↦ inl (failed e)
          | ok target_abs ↦ elim (rel mount_abs target_abs) [
            | err e ↦ inl (failed e)
            | ok path ↦ if escapes path then inl invalid_parameter else inr target_abs
          ]
        ]
      ]

  module _ (lstat : Bytes → Stat) where
    -- The loop of `noSymLinks`.
    unfoldable pub walk : Bool → Bytes → List Bytes → Option DriveError
    unfolding join bytes_eq
    walk allow_missing current [] = none
    walk allow_missing current (segment ∷ segments) =
        let skipped = walk allow_missing current segments in
        let next = join current segment in
        let rest = walk allow_missing next segments in
        if bytes_eq segment [] || bytes_eq segment dot then skipped else elim (lstat next) [
          | missing ↦ if allow_missing then none else some (failed (other 0))
          | unreadable e ↦ some (failed e)
          | found true ↦ some invalid_parameter
          | found false ↦ rest
        ]

    -- `noSymLinks`
    unfoldable pub no_sym_links : Bytes → Bytes → Bool → Option DriveError
    unfolding walk abs rel bytes_eq split
    no_sym_links mount_point target_path allow_missing = elim (abs getwd mount_point) [
      | err e ↦ some (failed e)
      | ok mount_abs ↦ elim (abs getwd target_path) [
        | err e ↦ some (failed e)
        | ok target_abs ↦ elim (rel mount_abs target_abs) [
          | err e ↦ some (failed e)
          | ok path ↦
              if bytes_eq path dot then none else walk allow_missing mount_abs (split slash path)
        ]
      ]
    ]

    -- `pathCheck`
    unfoldable pub path_check : Bytes → Bytes → Bool → DriveError ⊎ Bytes
    unfolding safe_drive_path no_sym_links
    path_check mount_point file_path allow_missing = elim (safe_drive_path mount_point file_path) [
      | inl e ↦ inl e
      | inr safe_path ↦ elim (no_sym_links mount_point safe_path allow_missing) [
        | some e ↦ inl e
        | none ↦ inr safe_path
      ]
    ]
