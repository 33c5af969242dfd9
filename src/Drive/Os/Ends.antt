-- ===== src/Drive/Os/Ends.antt =====
-- What holds of the state when a computation ends, by whether it ends with an error.
use mathlib.Core.Path.{subst}
use poprocks.Prelude.{◌≡◌, refl, sym, ◌⊎◌, inl, inr, Bool, true, false, arith}
use poprocks.Drive.Errors.{DriveError}
use poprocks.Drive.Os.{Run, ◌>>=◌, ◌>>◌, pure, throw, reject_if, or_else}

module _ {S : Type 0} where
  abbrev pub IsEnd {ℓ} : {A : Type ℓ} → (S → Type 0) → (S → Type 0) → (DriveError ⊎ A) × S → Type ℓ
  IsEnd {A = A} Q R r =
      ((e : DriveError) × (r.0 ≡ inl e) × Q r.1) ⊎ ((a : A) × (r.0 ≡ inr a) × R r.1)

  -- From `P`, to `Q` with an error and to `R` with a value.
  pub record Ends {ℓ} {A : Type ℓ} (P : S → Type 0) (m : Run S A) (Q R : S → Type 0) : Type ℓ where
    pub ends : (s : S) → P s → IsEnd Q R (m s)

  module _ {ℓ κ} {A : Type ℓ} {B : Type κ} (m : Run S A) (s : S) where
    bind_inl : (f : A → Run S B) (e : DriveError) → (m s).0 ≡ inl e → (m >>= f) s ≡ (inl e, (m s).1)
    bind_inl f e h = ground arith

    bind_inr : (f : A → Run S B) (a : A) → (m s).0 ≡ inr a → (m >>= f) s ≡ f a (m s).1
    bind_inr f a h = ground arith

  pub >>=-Ends {ℓ κ} :
      {A : Type ℓ} {B : Type κ} {P Q R T : S → Type 0} {m : Run S A} {f : A → Run S B}
      → Ends P m Q R
      → ((a : A) → Ends R (f a) Q T)
      → Ends P (m >>= f) Q T
  >>=-Ends {Q = Q} {T = T} {m = m} {f = f} hm hf = record {
    ends = λ s p. elim (hm.ends s p) [
      | inl (e, h, q) ↦ subst (IsEnd Q T) (sym (bind_inl m s f e h)) (inl (e, refl, q))
      | inr (a, h, r) ↦ subst (IsEnd Q T) (sym (bind_inr m s f a h)) ((hf a).ends (m s).1 r)
    ];
  }

  pub >>-Ends {ℓ κ} :
      {A : Type ℓ} {B : Type κ} {P Q R T : S → Type 0} {m : Run S A} {k : Run S B}
      → Ends P m Q R
      → Ends R k Q T
      → Ends P (m >> k) Q T
  >>-Ends {k = k} hm hk = >>=-Ends {f = λ _. k} hm (λ a. hk)

  pub pure-Ends {ℓ} : {A : Type ℓ} {P Q : S → Type 0} (a : A) → Ends P (pure a) Q P
  pure-Ends a = record { ends = λ s p. inr (a, refl, p) }

  pub throw-Ends {ℓ} :
      {A : Type ℓ} {P R : S → Type 0} (e : DriveError) → Ends {A = A} P (throw e) P R
  throw-Ends e = record { ends = λ s p. inl (e, refl, p) }

  pub reject_if-Ends : {P : S → Type 0} (b : Bool) (e : DriveError) → Ends P (reject_if b e) P P
  reject_if-Ends true e = record { ends = λ s p. inl (e, refl, p) }
  reject_if-Ends false e = record { ends = λ s p. inr (tt, refl, p) }

  cleaned {ℓ} :
      {A : Type ℓ} (m : Run S A) (cleanup : S → S) (s : S) (e : DriveError)
      → (m s).0 ≡ inl e
      → or_else m cleanup s ≡ (inl e, cleanup (m s).1)
  cleaned m cleanup s e h = ground arith

  not_cleaned {ℓ} :
      {A : Type ℓ} (m : Run S A) (cleanup : S → S) (s : S) (a : A)
      → (m s).0 ≡ inr a
      → or_else m cleanup s ≡ (inr a, (m s).1)
  not_cleaned m cleanup s a h = ground arith

  pub or_else-Ends {ℓ} :
      {A : Type ℓ} {P Q R T : S → Type 0} {m : Run S A} (cleanup : S → S)
      → Ends P m T R
      → ((s : S) → T s → Q (cleanup s))
      → Ends P (or_else m cleanup) Q R
  or_else-Ends {Q = Q} {R = R} {m = m} cleanup hm hc = record {
    ends = λ s p. elim (hm.ends s p) [
      | inl (e, h, q) ↦
          subst (IsEnd Q R) (sym (cleaned m cleanup s e h)) (inl (e, refl, hc (m s).1 q))
      | inr (a, h, r) ↦ subst (IsEnd Q R) (sym (not_cleaned m cleanup s a h)) (inr (a, refl, r))
    ];
  }
