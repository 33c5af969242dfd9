-- ===== src/Drive/Os/Laws.antt =====
-- Computations that end without an error.
use poprocks.Prelude.{◌≡◌, refl, ◌⊎◌, inl, inr, Bool, true, false, arith}
use poprocks.Drive.Errors.{DriveError}
use poprocks.Drive.Os.{Run, ◌>>=◌, ◌>>◌, reject_if, or_else}

module _ {S : Type 0} where
  ended {ℓ} :
      {A : Type ℓ} (r : (DriveError ⊎ A) × S)
      → ((e : DriveError) × (t : S) × (r ≡ (inl e, t))) ⊎ ((a : A) × (t : S) × (r ≡ (inr a, t)))
  ended (inl e, t) = inl (e, t, refl)
  ended (inr a, t) = inr (a, t, refl)

  -- The result of a computation, taken apart.
  pub Run-cases {ℓ} :
      {A : Type ℓ} (m : Run S A) (s : S)
      → ((e : DriveError) × (t : S) × (m s ≡ (inl e, t))) ⊎ ((a : A) × (t : S) × (m s ≡ (inr a, t)))
  Run-cases m s = ended (m s)

  pub >>=-inr {ℓ κ} :
      {A : Type ℓ} {B : Type κ} (m : Run S A) (f : A → Run S B) (s t : S) (b : B)
      → (m >>= f) s ≡ (inr b, t)
      → (a : A) × (s' : S) × (m s ≡ (inr a, s')) × (f a s' ≡ (inr b, t))
  >>=-inr m f s t b h = elim (Run-cases m s) [
    | inl (e, s', r) ↦ absurd (ground arith)
    | inr (a, s', r) ↦ (a, s', r, ground arith)
  ]

  pub >>-inr {ℓ κ} :
      {A : Type ℓ} {B : Type κ} (m : Run S A) (k : Run S B) (s t : S) (b : B)
      → (m >> k) s ≡ (inr b, t)
      → (a : A) × (s' : S) × (m s ≡ (inr a, s')) × (k s' ≡ (inr b, t))
  >>-inr m k s t b h = elim (Run-cases m s) [
    | inl (e, s', r) ↦ absurd (ground arith)
    | inr (a, s', r) ↦ (a, s', r, ground arith)
  ]

  -- A test that does not reject.
  pub reject_if-inr :
      (b : Bool) (e : DriveError) (s s' : S) (u : Unit {0})
      → reject_if b e s ≡ (inr u, s')
      → (b ≡ false) × (s ≡ s')
  reject_if-inr true e s s' u h = absurd (ground arith)
  reject_if-inr false e s s' u h = (refl, ground arith)

  pub or_else-inr {ℓ} :
      {A : Type ℓ} (m : Run S A) (cleanup : S → S) (s t : S) (a : A)
      → or_else m cleanup s ≡ (inr a, t)
      → m s ≡ (inr a, t)
  or_else-inr m cleanup s t a h = elim (Run-cases m s) [
    | inl (e, s', r) ↦ absurd (ground arith)
    | inr (a', s', r) ↦ ground arith
  ]
