-- ===== src/FilePath/Rel.antt =====
-- `Rel` between clean absolute paths, and `Join` onto one.
use poprocks.Prelude.{
  ◌≡◌, refl, sym, ap, ◌∙◌, ◌≢◌, inl, inr, Bool, true, false, ◌||◌, List, [], ◌∷◌, ◌++◌, arith,
  if◌then◌else◌, Bool-cases, Bytes, All, append-nil, bytes_eq, bytes_eq_iff, join_with, has_prefix,
  length, length-append,
}
use poprocks.Vsock.Errors.{ok, err, other}
use poprocks.FilePath.{
  slash, dot, dot_dot, up, is_abs, parse, render, rel, past_common, ways, starts_up,
}
use poprocks.FilePath.Under.{IsName, IsClean, parse-render, is_abs-render, clean_again}

-- `relPath == ".." || strings.HasPrefix(relPath, "../")`
abbrev pub escapes : Bytes → Bool
escapes path = bytes_eq path dot_dot || has_prefix path up

past_common_front : (bs rest : List Bytes) → past_common bs (bs ++ rest) ≡ ([], rest)
unfolding past_common
past_common_front [] rest = refl
past_common_front (b ∷ bs) rest = ground (arith, past_common_front bs rest, bytes_eq_iff b b)

past_common_all :
    (bs ts : List Bytes) → (past_common bs ts).0 ≡ [] → ts ≡ bs ++ (past_common bs ts).1
unfolding past_common
past_common_all [] ts h = refl
past_common_all (b ∷ bs) [] h = ground arith
past_common_all (b ∷ bs) (t ∷ ts) h = elim (Bool-cases (bytes_eq b t)) [
  | inl e ↦ ground (arith, past_common_all bs ts, bytes_eq_iff b t)
  | inr e ↦ ground arith
]

ways_escape : (b : Bytes) (bs ts : List Bytes) → escapes (join_with slash (ways (b ∷ bs) ts)) ≡ true
unfolding ways join_with has_prefix bytes_eq
ways_escape b [] [] = refl
ways_escape b [] (t ∷ ts) = refl
ways_escape b (c ∷ cs) ts = refl

name_stays :
    (x rest : Bytes) → IsName x → (escapes x ≡ false) × (escapes (x ++ (slash ∷ rest)) ≡ false)
unfolding has_prefix bytes_eq
name_stays [] rest v = absurd (v.not_empty refl)
name_stays (a ∷ []) rest v = ground arith
name_stays (a ∷ b ∷ []) rest v = ground (arith, bytes_eq_iff (a ∷ b ∷ []) dot_dot, v.not_up)
name_stays (a ∷ b ∷ c ∷ cs) rest v = ground (arith, v.one_segment.1.1.0)

names_stay :
    (x : Bytes) (xs : List Bytes) → All IsName (x ∷ xs) → escapes (join_with slash (x ∷ xs)) ≡ false
unfolding join_with
names_stay x [] v = (name_stays x [] v.0).0
names_stay x (y ∷ ys) v = (name_stays x (join_with slash (y ∷ ys)) v.0).1

module _ (m t : Bytes) (bs ts : List Bytes) (v : IsClean m bs) (w : IsClean t ts) where
  parse_m : parse m ≡ bs
  parse_m = rw v.path_is (parse-render bs v.names)

  parse_t : parse t ≡ ts
  parse_t = rw w.path_is (parse-render ts w.names)

  is_abs_m : is_abs m ≡ true
  is_abs_m = rw v.path_is (is_abs-render bs)

  is_abs_t : is_abs t ≡ true
  is_abs_t = rw w.path_is (is_abs-render ts)

  rel_clean : rel m t ≡ (
      if bytes_eq m t
      then ok dot
      else if starts_up (past_common bs ts).0
      then err (other 0)
      else ok (join_with slash (ways (past_common bs ts).0 (past_common bs ts).1)))
  unfolding rel
  rel_clean =
      ground (arith, clean_again m bs v, clean_again t ts w, is_abs_m, is_abs_t, parse_m, parse_t)

  same_segments : m ≡ t → bs ≡ ts
  same_segments e = sym parse_m ∙ ap parse e ∙ parse_t

  -- A path to which `Rel` finds a way that does not go up is under the other.
  pub rel_under :
      (r : Bytes) → rel m t ≡ ok r → escapes r ≡ false → (rest : List Bytes) × (ts ≡ bs ++ rest)
  rel_under r h n = elim (Bool-cases (bytes_eq m t)) [
    | inl e ↦ ([], sym (same_segments ((bytes_eq_iff m t).0 e)) ∙ sym (append-nil bs))
    | inr e ↦
        let c = past_common bs ts in
        elim c.0 as (λ d. c.0 ≡ d → (rest : List Bytes) × (ts ≡ bs ++ rest)) [
          | [] ↦ λ f. (c.1, past_common_all bs ts f)
          | b ∷ rb ↦ λ f. absurd (ground (arith, rel_clean, ways_escape b rb c.1))
        ]
          refl
  ]

longer : (bs : List Bytes) (x : Bytes) (xs : List Bytes) → bs ≢ bs ++ (x ∷ xs)
longer bs x xs e = omega (arith, ap length e, length-append bs (x ∷ xs))

-- And it finds the way down to each path under the other.
pub rel_inside :
    (m t : Bytes) (bs rest : List Bytes)
    → IsClean m bs
    → IsClean t (bs ++ rest)
    → rel m t ≡ ok (render false rest)
unfolding render ways join_with
rel_inside m t bs [] v w =
    let same : m ≡ t = v.path_is ∙ ap (render true) (sym (append-nil bs)) ∙ sym w.path_is in
    ground (arith, rel_clean m t bs (bs ++ []) v w, bytes_eq_iff m t)
rel_inside m t bs (x ∷ xs) v w = elim (Bool-cases (bytes_eq m t)) [
  | inl e ↦
      absurd (longer bs x xs (same_segments m t bs (bs ++ (x ∷ xs)) v w ((bytes_eq_iff m t).0 e)))
  | inr e ↦
      let c = past_common_front bs (x ∷ xs) in
      rel_clean m t bs (bs ++ (x ∷ xs)) v w ∙ rw (e, c) refl
]

pub down_stays : (rest : List Bytes) → All IsName rest → escapes (render false rest) ≡ false
unfolding render has_prefix bytes_eq
down_stays [] n = refl
down_stays (x ∷ xs) n = names_stay x xs n
