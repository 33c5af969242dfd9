-- ===== src/Drive/Paths/Laws.antt =====
-- `pathCheck` of drive/helpers.go.
use poprocks.Prelude.{◌≡◌, ap, ◌∙◌, ◌↔◌, inl, inr, false, arith, Bytes, trim_prefix}
use poprocks.Vsock.Errors.{Result, ok, Result-cases}
use poprocks.FilePath.{slash, dot, clean, join, abs, rel}
use poprocks.FilePath.Rel.{escapes}
use poprocks.FilePath.Tree.{IsUnder, IsUnder-rel, rel-IsUnder}
use poprocks.FilePath.Join.{IsGetwd, abs-IsClean}
use poprocks.Drive.Options.{default_to}
use poprocks.Drive.Paths.{safe_drive_path}

-- The path of the target before it is made absolute.
abbrev pub joined : Bytes → Bytes → Bytes
joined mount file = clean (join mount (default_to dot (trim_prefix slash file)))

module _ (getwd : Result Bytes) (g : IsGetwd getwd) (mount file m : Bytes)
    (mount_abs : abs getwd mount ≡ ok m) (target : Bytes) where
  safe-IsUnder :
      safe_drive_path getwd mount file ≡ inr target
      → (abs getwd (joined mount file) ≡ ok target) × IsUnder m target
  unfolding safe_drive_path
  safe-IsUnder h =
      let (bs, v) = abs-IsClean getwd mount m g mount_abs in
      elim (Result-cases (abs getwd (joined mount file))) [
        | inl (x, e) ↦ absurd (ground arith)
        | inr (t, e) ↦ elim (Result-cases (rel m t)) [
          | inl (x, f) ↦ absurd (ground arith)
          | inr (r, f) ↦
              let n : escapes r ≡ false = ground arith in
              let same : t ≡ target = ground arith in
              let (ts, w) = abs-IsClean getwd (joined mount file) t g e in
              (e ∙ ap ok same, rw (← same) (IsUnder-rel m t r bs ts v w f n))
        ]
      ]

  under_is_safe :
      abs getwd (joined mount file) ≡ ok target
      → IsUnder m target
      → safe_drive_path getwd mount file ≡ inr target
  unfolding safe_drive_path
  under_is_safe e u = let (r, f, n) = rel-IsUnder m target u in ground arith

  -- `safeDrivePath` gives a path exactly if it is the absolute path of the file joined to the
  -- mount point and lies in the tree below the mount point. It is taken that `os.Getwd` gives an
  -- absolute path and that the mount point has one.
  pub safe_drive_path_iff :
      (safe_drive_path getwd mount file ≡ inr target)
      ↔ ((abs getwd (joined mount file) ≡ ok target) × IsUnder m target)
  safe_drive_path_iff = (safe-IsUnder, λ h. under_is_safe h.0 h.1)
