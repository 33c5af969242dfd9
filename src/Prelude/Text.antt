-- ===== src/Prelude/Text.antt =====
-- Go's strings, as lists of bytes, and what the code uses of the package `strings`.
use Prim.Native.Nat.{ℕ}
use Prim.Native.Char.{code}
use Prim.Native.String.{String}
use mathlib.Core.Path.{◌≡◌, refl, ap, ◌∙◌}
use mathlib.Core.Logic.{◌≢◌}
use mathlib.Core.Bool.{Bool, true, false, ◌&&◌, ◌||◌}
use mathlib.Core.List.{List, [], ◌∷◌, ◌++◌}
use native.Mathlib.Omega.{arith}
use poprocks.Prelude.Tests.{◌==◌, leb, if◌then◌else◌}
use poprocks.Prelude.Lists.{All}
use poprocks.Prelude.Maps.{Bytes}

-- The bytes of a literal.
abbrev pub codes : String → Bytes
codes String.[] = []
codes (String.◌∷◌ c s) = code c ∷ codes s

abbrev pub in_front : ℕ → List Bytes → List Bytes
in_front b [] = (b ∷ []) ∷ []
in_front b (line ∷ lines) = (b ∷ line) ∷ lines

-- `strings.Split` at a byte.
unfoldable pub split : ℕ → Bytes → List Bytes
split sep [] = [] ∷ []
split sep (b ∷ bs) = let rest = split sep bs in if b == sep then [] ∷ rest else in_front b rest

-- `strings.Join` with a byte.
unfoldable pub join_with : ℕ → List Bytes → Bytes
join_with sep [] = []
join_with sep (x ∷ []) = x
join_with sep (x ∷ y ∷ ys) = x ++ (sep ∷ join_with sep (y ∷ ys))

-- `strings.HasPrefix`
unfoldable pub has_prefix : Bytes → Bytes → Bool
has_prefix s [] = true
has_prefix [] (p ∷ ps) = false
has_prefix (b ∷ bs) (p ∷ ps) = (b == p) && has_prefix bs ps

-- `strings.TrimPrefix` of a byte.
abbrev pub trim_prefix : ℕ → Bytes → Bytes
trim_prefix p [] = []
trim_prefix p (b ∷ bs) = if b == p then bs else b ∷ bs

abbrev pub IsWithout : ℕ → Bytes → Type 0
IsWithout sep s = All (λ b. b ≢ sep) s

module _ (sep : ℕ) where
  pub split-append :
      (line rest : Bytes)
      → IsWithout sep line
      → split sep (line ++ (sep ∷ rest)) ≡ line ∷ split sep rest
  unfolding split
  split-append [] rest v = ground arith
  split-append (b ∷ bs) rest v = ground (arith, split-append bs rest v.1, v.0)

  split_one : (line : Bytes) → IsWithout sep line → split sep line ≡ line ∷ []
  unfolding split
  split_one [] v = refl
  split_one (b ∷ bs) v = ground (arith, split_one bs v.1, v.0)

  -- The parts of a string are what it was joined from.
  pub split-join_with :
      (x : Bytes) (xs : List Bytes)
      → All (IsWithout sep) (x ∷ xs)
      → split sep (join_with sep (x ∷ xs)) ≡ x ∷ xs
  unfolding join_with
  split-join_with x [] v = split_one x v.0
  split-join_with x (y ∷ ys) v =
      split-append x (join_with sep (y ∷ ys)) v.0 ∙ ap (◌∷◌ x) (split-join_with y ys v.1)

  in_front-IsWithout :
      (b : ℕ) (lines : List Bytes)
      → b ≢ sep
      → All (IsWithout sep) lines
      → All (IsWithout sep) (in_front b lines)
  in_front-IsWithout b [] n v = ((n, tt), tt)
  in_front-IsWithout b (x ∷ xs) n v = ((n, v.0), v.1)

  pub split-IsWithout : (s : Bytes) → All (IsWithout sep) (split sep s)
  unfolding split
  split-IsWithout [] = (tt, tt)
  split-IsWithout (b ∷ bs) = ground (arith, split-IsWithout bs, in_front-IsWithout b (split sep bs))

  append_front :
      (b : ℕ) (xs ys : List Bytes) → xs ≢ [] → in_front b (xs ++ ys) ≡ in_front b xs ++ ys
  append_front b [] ys n = absurd (n refl)
  append_front b (x ∷ xs) ys n = refl

  in_front-nonempty : (b : ℕ) (xs : List Bytes) → in_front b xs ≢ []
  in_front-nonempty b [] e = ground arith
  in_front-nonempty b (x ∷ xs) e = ground arith

  split-nonempty : (s : Bytes) → split sep s ≢ []
  unfolding split
  split-nonempty [] e = ground arith
  split-nonempty (b ∷ bs) e = ground (arith, split-nonempty bs, in_front-nonempty b (split sep bs))

  -- The parts of two strings with a separator between them.
  pub split_both : (s t : Bytes) → split sep (s ++ (sep ∷ t)) ≡ split sep s ++ split sep t
  unfolding split
  split_both [] t = ground arith
  split_both (b ∷ bs) t =
      ground
        (arith, split_both bs t, append_front b (split sep bs) (split sep t) (split-nonempty bs))

module _ (is_cut : ℕ → Bool) where
  -- `strings.TrimLeft`
  unfoldable pub trim_left : Bytes → Bytes
  trim_left [] = []
  trim_left (b ∷ bs) = let rest = trim_left bs in if is_cut b then rest else b ∷ bs

  -- `strings.TrimRight`
  unfoldable pub trim_right : Bytes → Bytes
  trim_right [] = []
  trim_right (b ∷ bs) = elim (trim_right bs) [
    | [] ↦ if is_cut b then [] else b ∷ []
    | c ∷ cs ↦ b ∷ c ∷ cs
  ]

  -- `strings.Trim`, and `strings.TrimSpace` with the white space for what is cut.
  unfoldable pub trim : Bytes → Bytes
  unfolding trim_left trim_right
  trim s = trim_right (trim_left s)

-- `unicode.IsSpace`
abbrev pub is_space : ℕ → Bool
is_space r =
    leb 9 r && leb r 13
    || r == 32
    || r == 133
    || r == 160
    || r == 5760
    || leb 8192 r && leb r 8202
    || r == 8232
    || r == 8233
    || r == 8239
    || r == 8287
    || r == 12288
