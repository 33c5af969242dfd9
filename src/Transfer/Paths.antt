-- ===== src/Transfer/Paths.antt =====
-- `ResolveSenderPathUnderRoot` and `ResolveHostPathByName` of vsock/protocol/common/file_transfer.go.
use poprocks.Prelude.{
  ◌≡◌, refl, ◌≢◌, ◌⊎◌, inl, inr, ◌||◌, false, List, [], ◌∷◌, arith, if◌then◌else◌, Bytes, All,
  bytes_eq, bytes_eq_iff, has_prefix, ℕ, split, IsWithout, split-IsWithout,
}
use poprocks.Vsock.Errors.{Error, Result, ok, err, other, Result-cases}
use poprocks.FilePath.{slash, dot, dot_dot, up, clean, join, abs, rel, is_abs, base, last_name}
use poprocks.FilePath.Under.{IsName}
use poprocks.FilePath.Rel.{escapes}
use poprocks.FilePath.Join.{IsGetwd, abs-IsClean, join-IsClean, join_name}
use poprocks.FilePath.Tree.{IsUnder, IsUnder-rel}
use poprocks.Drive.Options.{default_to}

-- The errors that the two make; each is only ever shown.
abbrev pub bad_path : Error
bad_path = other 0

module _ (getwd : Result Bytes) where
  -- `ResolveSenderPathUnderRoot`
  unfoldable pub resolve_sender_path_under_root : Bytes → Bytes → Bytes → Result Bytes
  unfolding bytes_eq has_prefix clean join abs rel is_abs
  resolve_sender_path_under_root root_dir requested_path fallback_name =
      let path = default_to fallback_name requested_path in
      let cleaned = clean path in
      if bytes_eq root_dir []
      then err bad_path
      else if bytes_eq path []
      then err bad_path
      else if is_abs path
      then err bad_path
      else if bytes_eq cleaned dot || bytes_eq cleaned [] || bytes_eq cleaned dot_dot
      then err bad_path
      else if has_prefix cleaned up
      then err bad_path
      else elim (abs getwd root_dir) [
        | err e ↦ err e
        | ok root_abs ↦
            let dest = join root_abs cleaned in
            elim (rel root_abs dest) [
              | err e ↦ err e
              | ok path_below ↦ if escapes path_below then err bad_path else ok dest
            ]
      ]

  -- `ResolveHostPathByName`
  unfoldable pub resolve_host_path_by_name : Bytes → Bytes → Result Bytes
  unfolding bytes_eq base abs join
  resolve_host_path_by_name root_dir name =
      if bytes_eq root_dir []
      then err bad_path
      else if bytes_eq (base name) dot
          || bytes_eq (base name) []
          || bytes_eq (base name) (slash ∷ [])
      then err bad_path
      else elim (abs getwd root_dir) [
        | err e ↦ err e
        | ok root_abs ↦ ok (join root_abs (base name))
      ]

module _ (getwd : Result Bytes) (g : IsGetwd getwd) (root root_abs : Bytes)
    (has_abs : abs getwd root ≡ ok root_abs) where
  -- A path that `ResolveSenderPathUnderRoot` gives lies in the tree below the root directory. It
  -- is taken that `os.Getwd` gives an absolute path and that the root directory has one.
  pub resolve_sender_path_under_root-IsUnder :
      (requested fallback dest : Bytes)
      → resolve_sender_path_under_root getwd root requested fallback ≡ ok dest
      → IsUnder root_abs dest
  unfolding resolve_sender_path_under_root
  resolve_sender_path_under_root-IsUnder requested fallback dest h =
      let (bs, v) = abs-IsClean getwd root root_abs g has_abs in
      let cleaned = clean (default_to fallback requested) in
      elim (Result-cases (rel root_abs (join root_abs cleaned))) [
        | inl (x, f) ↦ absurd (ground arith)
        | inr (r, f) ↦
            let n : escapes r ≡ false = ground arith in
            let same : join root_abs cleaned ≡ dest = ground arith in
            let w = join-IsClean root_abs cleaned bs v in
            rw (← same) (IsUnder-rel root_abs (join root_abs cleaned) r bs _ v w f n)
      ]

or_last :
    (b : ℕ) (bs name : Bytes)
    → IsWithout slash (b ∷ bs)
    → IsWithout slash name
    → IsWithout slash (elim name [ [] ↦ b ∷ bs | c ∷ cs ↦ c ∷ cs ])
or_last b bs [] v w = v
or_last b bs (c ∷ cs) v w = w

last_name-IsWithout :
    (segments : List Bytes) → All (IsWithout slash) segments → IsWithout slash (last_name segments)
last_name-IsWithout [] v = tt
last_name-IsWithout ([] ∷ segments) v = last_name-IsWithout segments v.1
last_name-IsWithout ((b ∷ bs) ∷ segments) v =
    or_last b bs (last_name segments) v.0 (last_name-IsWithout segments v.1)

or_slash :
    (name : Bytes)
    → IsWithout slash name
    → (elim name as (λ _. Bytes) [ [] ↦ slash ∷ [] | c ∷ cs ↦ c ∷ cs ] ≡ dot)
      ⊎ ((elim name as (λ _. Bytes) [ [] ↦ slash ∷ [] | c ∷ cs ↦ c ∷ cs ] ≡ slash ∷ [])
          ⊎ IsWithout slash (elim name as (λ _. Bytes) [ [] ↦ slash ∷ [] | c ∷ cs ↦ c ∷ cs ]))
or_slash [] v = inr (inl refl)
or_slash (c ∷ cs) v = inr (inr v)

base_cases :
    (path : Bytes) → (base path ≡ dot) ⊎ ((base path ≡ slash ∷ []) ⊎ IsWithout slash (base path))
unfolding base
base_cases [] = inl refl
base_cases (b ∷ bs) =
    or_slash (last_name (split slash (b ∷ bs)))
      (last_name-IsWithout (split slash (b ∷ bs)) (split-IsWithout slash (b ∷ bs)))

-- A path that `ResolveHostPathByName` gives is that of a file directly in the root directory,
-- with the last name of the one asked for, if that is not `..`. It is taken that `os.Getwd` gives
-- an absolute path and that the root directory has one.
pub resolve_host_path_by_name-IsUnder :
    (getwd : Result Bytes) (root root_abs name dest : Bytes)
    → IsGetwd getwd
    → abs getwd root ≡ ok root_abs
    → base name ≢ dot_dot
    → resolve_host_path_by_name getwd root name ≡ ok dest
    → (u : IsUnder root_abs dest) × (u.rest ≡ base name ∷ [])
unfolding resolve_host_path_by_name
resolve_host_path_by_name-IsUnder getwd root root_abs name dest g has_abs n h =
    let (bs, v) = abs-IsClean getwd root root_abs g has_abs in
    let same : join root_abs (base name) ≡ dest = ground arith in
    let k : IsName (base name) = record {
      not_empty = λ e. ground (arith, bytes_eq_iff (base name) []);
      not_dot = λ e. ground (arith, bytes_eq_iff (base name) dot);
      not_up = n;
      one_segment = elim (base_cases name) [
        | inl e ↦ absurd (ground (arith, bytes_eq_iff (base name) dot))
        | inr (inl e) ↦ absurd (ground (arith, bytes_eq_iff (base name) (slash ∷ [])))
        | inr (inr w) ↦ w
      ];
    } in
    (
      record {
        base = bs;
        rest = base name ∷ [];
        mount_clean = v;
        target_clean = rw (← same) (join_name root_abs (base name) bs v k);
        rest_names = (k, tt);
      },
      refl,
    )
