-- ===== src/Drive/Paths/Cases.antt =====
-- The cases of what `os.Lstat` finds.
use poprocks.Prelude.{◌≡◌, refl, ◌⊎◌, inl, inr, Bool}
use poprocks.Vsock.Errors.{Error}
use poprocks.Drive.Paths.{Stat, missing, unreadable, found}

pub Stat-cases :
    (s : Stat) → (s ≡ missing) ⊎ (((e : Error) × (s ≡ unreadable e)) ⊎ ((b : Bool) × (s ≡ found b)))
Stat-cases missing = inl refl
Stat-cases (unreadable e) = inr (inl (e, refl))
Stat-cases (found b) = inr (inr (b, refl))
