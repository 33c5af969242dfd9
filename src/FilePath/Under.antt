-- ===== src/FilePath/Under.antt =====
-- Clean absolute paths, and the paths under one of them.
use poprocks.Prelude.{
  ◌≡◌, refl, ap, ◌∙◌, ◌≢◌, Bool, true, List, [], ◌∷◌, arith, inl, inr, Bool-cases, Bytes, All,
  bytes_eq, bytes_eq_iff, split, join_with, has_prefix, IsWithout, split-join_with, split-IsWithout,
}
use poprocks.FilePath.{
  slash, dot, dot_dot, unwind, back, clean_segments, is_abs, parse, render, clean,
}

-- A segment that `Clean` keeps.
pub record IsName (s : Bytes) : Type 0 where
  pub not_empty : s ≢ []
  pub not_dot : s ≢ dot
  pub not_up : s ≢ dot_dot
  pub one_segment : IsWithout slash s

unwind-All {ℓ κ} :
    {A : Type ℓ} (P : A → Type κ) (xs ys : List A) → All P xs → All P ys → All P (unwind xs ys)
unwind-All P [] ys hx hy = hy
unwind-All P (x ∷ xs) ys hx hy = unwind-All P xs (x ∷ ys) hx.1 (hx.0, hy)

-- A name is put on the stack.
pub clean_segments_name :
    (rooted : Bool) (stack : List Bytes) (s : Bytes) (segments : List Bytes)
    → IsName s
    → clean_segments rooted stack (s ∷ segments) ≡ clean_segments rooted (s ∷ stack) segments
unfolding clean_segments
clean_segments_name rooted stack [] segments v = absurd (v.not_empty refl)
clean_segments_name rooted stack (b ∷ bs) segments v =
    ground (arith, bytes_eq_iff (b ∷ bs) dot, bytes_eq_iff (b ∷ bs) dot_dot, v.not_dot, v.not_up)

-- Names are not changed.
pub clean_segments_names :
    (rooted : Bool) (stack segments : List Bytes)
    → All IsName segments
    → clean_segments rooted stack segments ≡ unwind stack segments
unfolding clean_segments
clean_segments_names rooted stack [] v = refl
clean_segments_names rooted stack (s ∷ segments) v =
    clean_segments_name rooted stack s segments v.0
    ∙ clean_segments_names rooted (s ∷ stack) segments v.1

back-IsName : (stack : List Bytes) → All IsName stack → All IsName (back true stack)
unfolding back
back-IsName [] v = tt
back-IsName (s ∷ stack) v = v.1

-- What is left of a rooted path are names.
pub clean_segments-IsName :
    (stack segments : List Bytes)
    → All IsName stack
    → All (IsWithout slash) segments
    → All IsName (clean_segments true stack segments)
unfolding clean_segments
clean_segments-IsName stack [] v w = unwind-All IsName stack [] v tt
clean_segments-IsName stack ([] ∷ segments) v w = clean_segments-IsName stack segments v w.1
clean_segments-IsName stack ((b ∷ bs) ∷ segments) v w = elim (Bool-cases (bytes_eq (b ∷ bs) dot)) [
  | inl d ↦ rw d (clean_segments-IsName stack segments v w.1)
  | inr d ↦ elim (Bool-cases (bytes_eq (b ∷ bs) dot_dot)) [
    | inl u ↦ rw (d, u) (clean_segments-IsName (back true stack) segments (back-IsName stack v) w.1)
    | inr u ↦
        rw (d, u)
          (clean_segments-IsName ((b ∷ bs) ∷ stack) segments
            (
              record {
                not_empty = λ e. ground arith;
                not_dot = λ e. ground (arith, bytes_eq_iff (b ∷ bs) dot);
                not_up = λ e. ground (arith, bytes_eq_iff (b ∷ bs) dot_dot);
                one_segment = w.0;
              },
              v,
            )
            w.1)
  ]
]

-- A clean absolute path, by its segments.
pub record IsClean (path : Bytes) (segments : List Bytes) : Type 0 where
  pub names : All IsName segments
  pub path_is : path ≡ render true segments

-- The slash in front makes an empty segment, which is skipped.
pub parse_rooted : (s : Bytes) → parse (slash ∷ s) ≡ clean_segments true [] (split slash s)
unfolding parse clean_segments split is_abs has_prefix
parse_rooted s = refl

pub names-IsWithout : (segments : List Bytes) → All IsName segments → All (IsWithout slash) segments
names-IsWithout [] v = tt
names-IsWithout (x ∷ xs) v = (v.0.one_segment, names-IsWithout xs v.1)

pub parse-render :
    (segments : List Bytes) → All IsName segments → parse (render true segments) ≡ segments
unfolding render join_with clean_segments split
parse-render [] v = parse_rooted []
parse-render (x ∷ xs) v =
    parse_rooted (join_with slash (x ∷ xs))
    ∙ ap (clean_segments true []) (split-join_with slash x xs (names-IsWithout (x ∷ xs) v))
    ∙ clean_segments_names true [] (x ∷ xs) v

pub abs_path : (path : Bytes) → is_abs path ≡ true → (s : Bytes) × (path ≡ slash ∷ s)
unfolding is_abs has_prefix
abs_path [] h = ground arith
abs_path (b ∷ bs) h = (bs, ground arith)

parse-IsName : (path : Bytes) → is_abs path ≡ true → All IsName (parse path)
parse-IsName path h =
    let (s, e) = abs_path path h in
    rw (e, parse_rooted s) (clean_segments-IsName [] (split slash s) tt (split-IsWithout slash s))

pub clean-IsClean : (path : Bytes) → is_abs path ≡ true → IsClean (clean path) (parse path)
unfolding clean
clean-IsClean path h = record { names = parse-IsName path h; path_is = rw h }

pub is_abs-render : (segments : List Bytes) → is_abs (render true segments) ≡ true
unfolding is_abs render has_prefix
is_abs-render segments = refl

pub clean_again : (path : Bytes) (segments : List Bytes) → IsClean path segments → clean path ≡ path
unfolding clean
clean_again path segments v =
    let h = parse-render segments v.names in let a = is_abs-render segments in rw (v.path_is, a, h)
