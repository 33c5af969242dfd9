-- ===== src/Drive/Paths/Links.antt =====
-- The symbolic links on a path that `pathCheck` of drive/helpers.go gives.
use poprocks.Prelude.{
  ◌≡◌, refl, sym, ap, ◌∙◌, ◌⊎◌, inl, inr, Bool, true, false, none, List, [], ◌∷◌, ◌++◌, arith,
  Option-cases, Bool-cases, Sum-cases, Bytes, All, append_assoc, bytes_eq, bytes_eq_iff, split,
  join_with, split-join_with,
}
use poprocks.Vsock.Errors.{Result, ok}
use poprocks.FilePath.{slash, dot, join, abs, render}
use poprocks.FilePath.Under.{IsName, IsClean, names-IsWithout}
use mathlib.Core.Path.{subst}
use poprocks.FilePath.Rel.{rel_inside}
use poprocks.FilePath.Join.{IsGetwd, abs_again, join_name}
use poprocks.Drive.Paths.Cases.{Stat-cases}
use poprocks.Drive.Paths.{Stat, missing, found, safe_drive_path, walk, no_sym_links, path_check}
use poprocks.Drive.Paths.Laws.{safe_drive_path_iff}
use poprocks.FilePath.Tree.{IsUnder}

split-dot : split slash dot ≡ dot ∷ []
unfolding split
split-dot = refl

joined_not_dot :
    (x : Bytes) (xs : List Bytes)
    → All IsName (x ∷ xs)
    → bytes_eq (join_with slash (x ∷ xs)) dot ≡ false
joined_not_dot x xs n = elim (Bool-cases (bytes_eq (join_with slash (x ∷ xs)) dot)) [
  | inr e ↦ e
  | inl e ↦ absurd (
      ground (
        arith,
        bytes_eq_iff (join_with slash (x ∷ xs)) dot,
        split-dot,
        split-join_with slash x xs (names-IsWithout (x ∷ xs) n),
        n.0.not_dot,
      ))
]

module _ (lstat : Bytes → Stat) where
  -- What `os.Lstat` finds at the segments of a front of a path: no symbolic link, unless nothing was
  -- found before and that is allowed.
  abbrev pub IsPlain : Bool → List Bytes → List Bytes → Type 0
  IsPlain allow bs front =
      (lstat (render true (bs ++ front)) ≡ found false)
      ⊎ ((allow ≡ true)
          × ((f1 : List Bytes) × (f2 : List Bytes) × (f1 ++ f2 ≡ front)
              × (lstat (render true (bs ++ f1)) ≡ missing)))

  IsPlain-shift :
      (allow : Bool) (bs : List Bytes) (s : Bytes) (front : List Bytes)
      → IsPlain allow (bs ++ (s ∷ [])) front
      → IsPlain allow bs (s ∷ front)
  IsPlain-shift allow bs s front (inl h) =
      inl (ap (λ p. lstat (render true p)) (sym (append_assoc bs (s ∷ []) front)) ∙ h)
  IsPlain-shift allow bs s front (inr (a, (f1, f2, e, h))) = inr (
    a,
    (
      s ∷ f1,
      f2,
      ap (◌∷◌ s) e,
      ap (λ p. lstat (render true p)) (sym (append_assoc bs (s ∷ []) f1)) ∙ h,
    ),
  )

  module _ (getwd : Result Bytes) where
    -- One segment of the walk.
    walk_name :
        (allow : Bool) (current s : Bytes) (segments : List Bytes)
        → IsName s
        → walk getwd lstat allow current (s ∷ segments) ≡ none
        → ((lstat (join current s) ≡ missing) × (allow ≡ true))
          ⊎ ((lstat (join current s) ≡ found false)
              × (walk getwd lstat allow (join current s) segments ≡ none))
    unfolding walk
    walk_name allow current s segments n h = elim (Stat-cases (lstat (join current s))) [
      | inl e ↦ ground (arith, n.not_empty, n.not_dot, bytes_eq_iff s [], bytes_eq_iff s dot)
      | inr (inl (x, e)) ↦
          ground (arith, n.not_empty, n.not_dot, bytes_eq_iff s [], bytes_eq_iff s dot)
      | inr (inr (true, e)) ↦
          ground (arith, n.not_empty, n.not_dot, bytes_eq_iff s [], bytes_eq_iff s dot)
      | inr (inr (false, e)) ↦
          ground (arith, n.not_empty, n.not_dot, bytes_eq_iff s [], bytes_eq_iff s dot)
    ]

    here :
        (current s : Bytes) (bs : List Bytes)
        → IsClean current bs
        → IsName s
        → lstat (render true (bs ++ (s ∷ []))) ≡ lstat (join current s)
    here current s bs v n = ap lstat (sym (join_name current s bs v n).path_is)

    walk-IsPlain :
        (allow : Bool) (current s : Bytes) (bs front back : List Bytes)
        → IsClean current bs
        → All IsName (s ∷ (front ++ back))
        → walk getwd lstat allow current (s ∷ (front ++ back)) ≡ none
        → IsPlain allow bs (s ∷ front)
    walk-IsPlain allow current s bs [] back v n h = elim (walk_name allow current s back n.0 h) [
      | inl (e, a) ↦ inr (a, (s ∷ [], [], refl, here current s bs v n.0 ∙ e))
      | inr (e, r) ↦ inl (here current s bs v n.0 ∙ e)
    ]
    walk-IsPlain allow current s bs (x ∷ xs) back v n h =
        elim (walk_name allow current s (x ∷ (xs ++ back)) n.0 h) [
          | inl (e, a) ↦ inr (a, (s ∷ [], x ∷ xs, refl, here current s bs v n.0 ∙ e))
          | inr (e, r) ↦ IsPlain-shift allow bs s (x ∷ xs) (
              walk-IsPlain allow (join current s) x (bs ++ (s ∷ [])) xs back
                (join_name current s bs v n.0) n.1 r)
        ]

    module _ (g : IsGetwd getwd) (mount m : Bytes) (mount_abs : abs getwd mount ≡ ok m) where
      no_sym_links-walk :
          (allow : Bool) (t : Bytes) (bs rest : List Bytes)
          → IsClean m bs
          → IsClean t (bs ++ rest)
          → All IsName rest
          → no_sym_links getwd lstat mount t allow ≡ walk getwd lstat allow m rest
      unfolding no_sym_links render walk bytes_eq
      no_sym_links-walk allow t bs [] v w n =
          let r = rel_inside m t bs [] v w in let a = abs_again getwd t (bs ++ []) w in ground arith
      no_sym_links-walk allow t bs (x ∷ xs) v w n =
          let r = rel_inside m t bs (x ∷ xs) v w in
          let a = abs_again getwd t (bs ++ (x ∷ xs)) w in
          let d = joined_not_dot x xs n in
          let f = split-join_with slash x xs (names-IsWithout (x ∷ xs) n) in ground arith

      -- A path that `pathCheck` gives lies in the tree below the mount point, and none of the
      -- segments that lead to it from there was a symbolic link when it was looked at: `os.Lstat`
      -- found something else at each, or, if a missing tail is allowed, found nothing at it or
      -- before it. It is taken that `os.Getwd` gives an absolute path and that the mount point
      -- has one.
      pub path_check-IsPlain :
          (file target : Bytes) (allow : Bool)
          → path_check getwd lstat mount file allow ≡ inr target
          → (u : IsUnder m target) × ((s : Bytes) (front back : List Bytes)
              → u.rest ≡ s ∷ (front ++ back)
              → IsPlain allow u.base (s ∷ front))
      unfolding path_check
      path_check-IsPlain file target allow h = elim (Sum-cases (safe_drive_path getwd mount file)) [
        | inl (x, e) ↦ absurd (ground arith)
        | inr (t, e) ↦ elim (Option-cases (no_sym_links getwd lstat mount t allow)) [
          | inr (x, f) ↦ absurd (ground arith)
          | inl f ↦
              let same : t ≡ target = ground arith in
              let u : IsUnder m target =
                ((safe_drive_path_iff getwd g mount file m mount_abs target).0
                  (e ∙ ap inr same)).1 in
              let k =
                no_sym_links-walk allow target u.base u.rest u.mount_clean u.target_clean
                  u.rest_names in
              (
                u,
                λ s front back split_at.
                    walk-IsPlain allow m s u.base front back u.mount_clean
                      (subst (All IsName) split_at u.rest_names)
                      (subst (λ r. walk getwd lstat allow m r ≡ none) split_at
                        (sym k ∙ ap (λ p. no_sym_links getwd lstat mount p allow) (sym same) ∙ f)),
              )
        ]
      ]
