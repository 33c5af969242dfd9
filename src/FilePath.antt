-- ===== src/FilePath.antt =====
-- What the code uses of the package `path/filepath`, on a system whose separator is the slash. A
-- path is read as its segments: `clean_segments` is the loop of `Clean`, on a stack of them.
pub mod Under
pub mod Rel
pub mod Join
pub mod Tree
use poprocks.Prelude.{
  ℕ, ◌==◌, ◌&&◌, ◌||◌, not, Bool, true, false, List, [], ◌∷◌, ◌++◌, if◌then◌else◌, Bytes, bytes_eq,
  split, join_with, has_prefix,
}
use poprocks.Vsock.Errors.{Error, Result, ok, err, other}

abbrev pub slash : ℕ
slash = 47

abbrev pub dot : Bytes
dot = 46 ∷ []

abbrev pub dot_dot : Bytes
dot_dot = 46 ∷ 46 ∷ []

-- `..` and the separator.
abbrev pub up : Bytes
up = 46 ∷ 46 ∷ 47 ∷ []

-- A stack, from its bottom.
abbrev pub unwind {ℓ} : {A : Type ℓ} → List A → List A → List A
unwind [] ys = ys
unwind (x ∷ xs) ys = unwind xs (x ∷ ys)

-- `..` takes the segment before it away, if that is a name; at the root it does nothing.
unfoldable pub back : Bool → List Bytes → List Bytes
back true [] = []
back false [] = dot_dot ∷ []
back true (s ∷ stack) = stack
back false (s ∷ stack) = if bytes_eq s dot_dot then dot_dot ∷ s ∷ stack else stack

unfoldable pub clean_segments : Bool → List Bytes → List Bytes → List Bytes
unfolding back bytes_eq
clean_segments rooted stack [] = unwind stack []
clean_segments rooted stack ([] ∷ segments) = clean_segments rooted stack segments
clean_segments rooted stack ((b ∷ bs) ∷ segments) =
    let skipped = clean_segments rooted stack segments in
    let gone = clean_segments rooted (back rooted stack) segments in
    let kept = clean_segments rooted ((b ∷ bs) ∷ stack) segments in
    if bytes_eq (b ∷ bs) dot then skipped else if bytes_eq (b ∷ bs) dot_dot then gone else kept

-- `IsAbs`
unfoldable pub is_abs : Bytes → Bool
is_abs path = has_prefix path (slash ∷ [])

unfoldable pub parse : Bytes → List Bytes
unfolding clean_segments split
parse path = clean_segments (is_abs path) [] (split slash path)

unfoldable pub render : Bool → List Bytes → Bytes
render true segments = slash ∷ join_with slash segments
render false [] = dot
render false (s ∷ segments) = join_with slash (s ∷ segments)

-- `Clean`
unfoldable pub clean : Bytes → Bytes
unfolding is_abs parse render join_with has_prefix
clean path = render (is_abs path) (parse path)

-- `Join` of two.
unfoldable pub join : Bytes → Bytes → Bytes
unfolding clean
join [] [] = []
join [] (b ∷ bs) = clean (b ∷ bs)
join (a ∷ rest) b = clean ((a ∷ rest) ++ (slash ∷ b))

-- `Abs`, by what `os.Getwd` gives.
unfoldable pub abs : Result Bytes → Bytes → Result Bytes
unfolding is_abs clean join has_prefix
abs getwd path =
    if is_abs path
    then ok (clean path)
    else elim getwd [ err e ↦ err e | ok wd ↦ ok (join wd path) ]

-- What is left of two lists after the front that they share.
unfoldable pub past_common : List Bytes → List Bytes → List Bytes × List Bytes
unfolding bytes_eq
past_common [] ts = ([], ts)
past_common (b ∷ bs) [] = (b ∷ bs, [])
past_common (b ∷ bs) (t ∷ ts) =
    let rest = past_common bs ts in if bytes_eq b t then rest else (b ∷ bs, t ∷ ts)

-- A way up for each segment of the base that is left, and down again.
unfoldable pub ways : List Bytes → List Bytes → List Bytes
ways [] ts = ts
ways (b ∷ bs) ts = dot_dot ∷ ways bs ts

abbrev pub starts_up : List Bytes → Bool
starts_up [] = false
starts_up (b ∷ bs) = bytes_eq b dot_dot

abbrev agree : Bool → Bool → Bool
agree true b = b
agree false b = not b

-- `Rel`, of absolute paths. Its error says that no way to the target is known.
unfoldable pub rel : Bytes → Bytes → Result Bytes
unfolding clean is_abs parse past_common ways join_with bytes_eq has_prefix
rel base target =
    let rest = past_common (parse base) (parse target) in
    if bytes_eq (clean base) (clean target)
    then ok dot
    else if not (agree (is_abs base) (is_abs target))
    then err (other 0)
    else if starts_up rest.0
    then err (other 0)
    else ok (join_with slash (ways rest.0 rest.1))

-- `Base`: trailing slashes are taken off, and then all up to the last one.
abbrev pub last_name : List Bytes → Bytes
last_name [] = []
last_name ([] ∷ segments) = last_name segments
last_name ((b ∷ bs) ∷ segments) = elim (last_name segments) [ [] ↦ b ∷ bs | c ∷ cs ↦ c ∷ cs ]

unfoldable pub base : Bytes → Bytes
unfolding split
base [] = dot
base (b ∷ bs) = elim (last_name (split slash (b ∷ bs))) [ [] ↦ slash ∷ [] | c ∷ cs ↦ c ∷ cs ]

-- All up to the last slash, with it.
unfoldable pub up_to_slash : Bytes → Bytes
up_to_slash [] = []
up_to_slash (b ∷ bs) = elim (up_to_slash bs) [
  | c ∷ cs ↦ b ∷ c ∷ cs
  | [] ↦ if b == slash then b ∷ [] else []
]

-- `Dir`
unfoldable pub dir : Bytes → Bytes
unfolding clean up_to_slash
dir path = clean (up_to_slash path)
