-- ===== src/Drive/Errors.antt =====
-- drive/errors.go, and the errors that drive/ makes by `fmt.Errorf`.
use poprocks.Prelude.{Bool, true, false}
use poprocks.Vsock.Errors.{Error}

pub data DriveError : Type 0 where
  -- The sentinels; an error that wraps one is it.
  invalid_parameter drive_not_valid already_mounted not_mounted no_mount_method : DriveError
  encryption_unavailable : DriveError
  -- `drive not mounted`, without the sentinel.
  unmounted : DriveError
  unmounting no_mount_point no_unmount_function squashfs_writable unsupported_method : DriveError
  needs_root no_guestmount read_only_drive squashfs_drive file_not_found : DriveError
  -- What a step of the operating system or of a tool reports.
  failed : Error → DriveError
  -- No Go value: the call dereferences a nil pointer, and panics.
  panicked : DriveError

-- `errors.Is(err, ErrDriveNotMounted)`
abbrev pub is_not_mounted : DriveError → Bool
is_not_mounted not_mounted = true
is_not_mounted _ = false
