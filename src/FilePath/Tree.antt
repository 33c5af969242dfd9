-- ===== src/FilePath/Tree.antt =====
-- The tree below a clean path.
use poprocks.Prelude.{◌≡◌, List, [], ◌∷◌, ◌++◌, false, Bytes, All}
use poprocks.Vsock.Errors.{ok}
use poprocks.FilePath.{rel, render}
use poprocks.FilePath.Under.{IsName, IsClean}
use poprocks.FilePath.Rel.{escapes, rel_under, rel_inside, down_stays}

-- A clean path in the tree below another: the segments behind those of the other.
pub record IsUnder (mount target : Bytes) : Type 0 where
  pub base : List Bytes
  pub rest : List Bytes
  pub mount_clean : IsClean mount base
  pub target_clean : IsClean target (base ++ rest)
  pub rest_names : All IsName rest

names_back : (bs rest : List Bytes) → All IsName (bs ++ rest) → All IsName rest
names_back [] rest v = v
names_back (b ∷ bs) rest v = names_back bs rest v.1

pub IsUnder-rel :
    (m t r : Bytes) (bs ts : List Bytes)
    → IsClean m bs
    → IsClean t ts
    → rel m t ≡ ok r
    → escapes r ≡ false
    → IsUnder m t
IsUnder-rel m t r bs ts v w h n =
    let (rest, e) = rel_under m t bs ts v w r h n in
    let w' : IsClean t (bs ++ rest) = rw (← e) w in
    record {
      base = bs;
      rest = rest;
      mount_clean = v;
      target_clean = w';
      rest_names = names_back bs rest w'.names;
    }

-- `Rel` finds a way that does not go up to each path below.
pub rel-IsUnder : (m t : Bytes) → IsUnder m t → (r : Bytes) × (rel m t ≡ ok r) × (escapes r ≡ false)
rel-IsUnder m t u = (
  render false u.rest,
  rel_inside m t u.base u.rest u.mount_clean u.target_clean,
  down_stays u.rest u.rest_names,
)
