-- ===== src/FilePath/Join.antt =====
-- `Join` and `Abs`.
use poprocks.Prelude.{
  ◌≡◌, refl, ap, ◌∙◌, inl, inr, true, List, [], ◌∷◌, ◌++◌, arith, Bool-cases, Bytes, All, split,
  join_with, has_prefix, split-join_with, split_both,
}
use poprocks.Vsock.Errors.{Result, ok, Result-cases}
use poprocks.FilePath.{slash, unwind, clean_segments, is_abs, parse, render, clean, join, abs}
use poprocks.FilePath.Under.{
  IsName, IsClean, clean_segments_name, clean_segments_names, names-IsWithout, parse_rooted,
  clean-IsClean, clean_again, is_abs-render,
}

unwind-unwind {ℓ} :
    {A : Type ℓ} (xs ys zs : List A) → unwind (unwind xs ys) zs ≡ unwind ys (xs ++ zs)
unwind-unwind [] ys zs = refl
unwind-unwind (x ∷ xs) ys zs = unwind-unwind xs (x ∷ ys) zs

-- The names in front only fill the stack.
clean_segments-append :
    (stack names more : List Bytes)
    → All IsName names
    → clean_segments true stack (names ++ more) ≡ clean_segments true (unwind names stack) more
clean_segments-append stack [] more v = refl
clean_segments-append stack (n ∷ names) more v =
    clean_segments_name true stack n (names ++ more) v.0
    ∙ clean_segments-append (n ∷ stack) names more v.1

-- The segments of a joined path.
pub parse_joined :
    (m s : Bytes) (bs : List Bytes)
    → IsClean m bs
    → parse (m ++ (slash ∷ s)) ≡ clean_segments true (unwind bs []) (split slash s)
unfolding render join_with clean_segments split
parse_joined m s [] v =
    let e : m ++ (slash ∷ s) ≡ slash ∷ slash ∷ s = ap (λ p. p ++ (slash ∷ s)) v.path_is in
    ap parse e ∙ parse_rooted (slash ∷ s) ∙ ap (clean_segments true []) (split_both slash [] s)
parse_joined m s (b ∷ bs) v =
    let joined = join_with slash (b ∷ bs) in
    let e : m ++ (slash ∷ s) ≡ slash ∷ (joined ++ (slash ∷ s)) =
      ap (λ p. p ++ (slash ∷ s)) v.path_is in
    ap parse e
    ∙ parse_rooted (joined ++ (slash ∷ s))
    ∙ ap (clean_segments true []) (
        split_both slash joined s
        ∙ ap (λ p. p ++ split slash s)
            (split-join_with slash b bs (names-IsWithout (b ∷ bs) v.names)))
    ∙ clean_segments-append [] (b ∷ bs) (split slash s) v.names

join_is : (m s : Bytes) (bs : List Bytes) → IsClean m bs → join m s ≡ clean (m ++ (slash ∷ s))
unfolding join render
join_is m s bs v = rw v.path_is

joined_is_abs : (m s : Bytes) (bs : List Bytes) → IsClean m bs → is_abs (m ++ (slash ∷ s)) ≡ true
unfolding render is_abs has_prefix
joined_is_abs m s bs v = rw v.path_is

pub join-IsClean :
    (m s : Bytes) (bs : List Bytes)
    → IsClean m bs
    → IsClean (join m s) (clean_segments true (unwind bs []) (split slash s))
join-IsClean m s bs v =
    rw (join_is m s bs v)
      (rw (← parse_joined m s bs v) (clean-IsClean (m ++ (slash ∷ s)) (joined_is_abs m s bs v)))

-- Names are put behind the path's own.
pub join_names :
    (m x : Bytes) (xs bs : List Bytes)
    → IsClean m bs
    → All IsName (x ∷ xs)
    → IsClean (join m (join_with slash (x ∷ xs))) (bs ++ (x ∷ xs))
join_names m x xs bs v n =
    let e : clean_segments true (unwind bs []) (split slash (join_with slash (x ∷ xs)))
        ≡ bs ++ (x ∷ xs) =
      ap (clean_segments true (unwind bs []))
        (split-join_with slash x xs (names-IsWithout (x ∷ xs) n))
      ∙ clean_segments_names true (unwind bs []) (x ∷ xs) n
      ∙ unwind-unwind bs [] (x ∷ xs) in
    rw (← e) (join-IsClean m (join_with slash (x ∷ xs)) bs v)

-- `os.Getwd` gives an absolute path.
abbrev pub IsGetwd : Result Bytes → Type 0
IsGetwd getwd = (wd : Bytes) → getwd ≡ ok wd → is_abs wd ≡ true

join_abs : (wd path : Bytes) → is_abs wd ≡ true → is_abs (wd ++ (slash ∷ path)) ≡ true
unfolding is_abs has_prefix
join_abs [] path h = ground arith
join_abs (b ∷ bs) path h = ground arith

join_wd : (wd path : Bytes) → is_abs wd ≡ true → join wd path ≡ clean (wd ++ (slash ∷ path))
unfolding is_abs has_prefix join
join_wd [] path h = ground arith
join_wd (b ∷ bs) path h = refl

-- What `Abs` gives is clean.
pub abs-IsClean :
    (getwd : Result Bytes) (path m : Bytes)
    → IsGetwd getwd
    → abs getwd path ≡ ok m
    → (bs : List Bytes) × IsClean m bs
unfolding abs
abs-IsClean getwd path m g h = elim (Bool-cases (is_abs path)) [
  | inl a ↦ let e : clean path ≡ m = ground arith in (parse path, rw (← e) (clean-IsClean path a))
  | inr a ↦ elim (Result-cases getwd) [
    | inl (x, f) ↦ absurd (ground arith)
    | inr (wd, f) ↦
        let p = wd ++ (slash ∷ path) in
        let e : clean p ≡ m = ground (arith, join_wd wd path (g wd f)) in
        (parse p, rw (← e) (clean-IsClean p (join_abs wd path (g wd f))))
  ]
]

-- A clean path stays as it is.
pub abs_again :
    (getwd : Result Bytes) (m : Bytes) (bs : List Bytes) → IsClean m bs → abs getwd m ≡ ok m
unfolding abs
abs_again getwd m bs v =
    let a : is_abs m ≡ true = rw v.path_is (is_abs-render bs) in ground (arith, clean_again m bs v)

pub join_name :
    (m x : Bytes) (bs : List Bytes) → IsClean m bs → IsName x → IsClean (join m x) (bs ++ (x ∷ []))
unfolding join_with
join_name m x bs v n = join_names m x [] bs v (n, tt)
