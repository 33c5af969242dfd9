-- ===== src/Protocol/Types/Depth.antt =====
-- `hasStructTag` of vsock/helpers.go: how deep the walk goes in types that contain one another.
use poprocks.Prelude.{
  ℕ, zero, suc, ◌+◌, ◌≤◌, ◌<◌, ◌≡◌, refl, ◌≢◌, inl, inr, ◌↔◌, Bool, true, false, none, some, List,
  [], ◌∷◌, length, arith, Bytes, ◌==◌, ==_iff, Bool-cases, Option-cases, if◌then◌else◌, ltb,
}
use poprocks.Protocol.Types.{
  GoType, struct, pointer, io_reader, basic, Field, Reflection, elem, is_empty, contains, Visit,
  nth, any_field_tagged, fields, has_struct_tag, depth, is_tagged,
}
use poprocks.Protocol.Types.Tags.{
  AnyTagged, fields_of, has_struct_tag-AnyTagged, has_struct_tag-not_tagged,
}

-- How many of the first `n` structs have not been seen.
abbrev unseen : ℕ → List ℕ → ℕ
unseen zero s = 0
unseen (suc n) s = (if contains n s then 0 else 1) + unseen n s

unseen-grow :
    (n : ℕ) (a b : List ℕ)
    → ((k : ℕ) → contains k a ≡ true → contains k b ≡ true)
    → unseen n b ≤ unseen n a
unseen-grow zero a b sub = omega arith
unseen-grow (suc n) a b sub = ground (arith, sub n, unseen-grow n a b sub)

unseen-cons : (n i : ℕ) (s : List ℕ) → i < n → contains i s ≡ false → unseen n (i ∷ s) < unseen n s
unseen-cons zero i s h c = ground arith
unseen-cons (suc n) i s h c = elim (Bool-cases (i == n)) [
  | inl eq ↦ ground (arith, ==_iff i n, unseen-grow n s (i ∷ s) (λ k q. ground arith))
  | inr ne ↦ ground (arith, ==_iff i n, unseen-cons n i s)
]

nth-out : (i : ℕ) (xs : List (List Field)) → length xs ≤ i → nth i xs ≡ []
nth-out i [] h = refl
nth-out zero (x ∷ xs) h = ground arith
nth-out (suc i) (x ∷ xs) h = nth-out i xs (ground arith)

unseen-nil : (n : ℕ) → unseen n [] ≡ n
unseen-nil zero = refl
unseen-nil (suc n) = ground (arith, unseen-nil n)

module _ (r : Reflection) (tag_name : Bytes) where
  -- A visit that ends, with no less seen than before.
  abbrev Ends : Visit → List ℕ → Type 0
  Ends v seen =
      (b : Bool) × (s : List ℕ) × (v ≡ some (b, s))
      × ((k : ℕ) → contains k seen ≡ true → contains k s ≡ true)

  any_field_tagged-Ends :
      (visit : GoType → List ℕ → Visit) (bound : ℕ)
      → ((t : GoType) (seen : List ℕ)
          → unseen (length r.structs) seen ≤ bound
          → Ends (visit t seen) seen)
      → (fs : List Field) (seen : List ℕ) → unseen (length r.structs) seen ≤ bound
      → Ends (any_field_tagged visit tag_name fs seen) seen
  unfolding any_field_tagged
  any_field_tagged-Ends visit bound law [] seen h = (false, seen, refl, λ k c. c)
  any_field_tagged-Ends visit bound law (f ∷ fs) seen h =
      elim (Bool-cases (is_empty (f.tag tag_name))) [
        | inl b ↦
            let (found, s, e, sub) = law (elem f.field_type) seen h in
            elim (Bool-cases found) [
              | inl found_it ↦ (true, s, ground arith, sub)
              | inr not_yet ↦
                  let less = unseen-grow (length r.structs) seen s sub in
                  let (found', s', e', sub') =
                    any_field_tagged-Ends visit bound law fs s (omega arith) in
                  (found', s', ground arith, λ k c. sub' k (sub k c))
            ]
        | inr b ↦ (true, seen, ground arith, λ k c. c)
      ]

  pub has_struct_tag-Ends :
      (fuel : ℕ) (t : GoType) (seen : List ℕ)
      → unseen (length r.structs) seen + 2 ≤ fuel
      → Ends (has_struct_tag r fuel tag_name t seen) seen
  unfolding has_struct_tag any_field_tagged
  has_struct_tag-Ends zero t seen h = absurd (omega arith)
  has_struct_tag-Ends (suc fuel) (struct i) seen h = elim (Bool-cases (contains i seen)) [
    | inl b ↦ (false, seen, ground arith, λ k c. c)
    | inr b ↦ elim (Bool-cases (ltb i (length r.structs))) [
      | inl inside ↦
          let less = unseen-cons (length r.structs) i seen (ground arith) b in
          let (found, s, e, sub) =
            any_field_tagged-Ends (λ t q. has_struct_tag r fuel tag_name t q)
              (unseen (length r.structs) (i ∷ seen))
              (λ t q l. has_struct_tag-Ends fuel t q (omega arith)) (fields r i) (i ∷ seen)
              (omega arith) in
          (found, s, ground arith, λ k c. sub k (ground arith))
      | inr outside ↦
          let none_there = nth-out i r.structs (ground arith) in
          (false, i ∷ seen, rw (b, none_there) refl, λ k c. ground arith)
    ]
  ]
  has_struct_tag-Ends (suc fuel) (pointer t) seen h = (false, seen, refl, λ k c. c)
  has_struct_tag-Ends (suc fuel) io_reader seen h = (false, seen, refl, λ k c. c)
  has_struct_tag-Ends (suc fuel) (basic k n) seen h = (false, seen, refl, λ k c. c)

  -- The walk of `hasStructTag` ends, from every type and whatever it has seen, in types that
  -- contain one another too: it goes no deeper than there are structs, and two more.
  pub has_struct_tag_ends :
      (t : GoType) (s : List ℕ) → has_struct_tag r (depth r) tag_name t s ≢ none
  has_struct_tag_ends t s n =
      let small = unseen-grow (length r.structs) [] s (λ k c. ground arith) in
      let all = unseen-nil (length r.structs) in
      let (b, q, e, sub) = has_struct_tag-Ends (depth r) t s (omega arith) in ground arith

  -- It finds a tag exactly where there is one.
  pub is_tagged_lem :
      (t : GoType) → (is_tagged r tag_name t ≡ true) ↔ AnyTagged r tag_name (fields_of r t)
  unfolding is_tagged
  is_tagged_lem t = elim (Option-cases (has_struct_tag r (depth r) tag_name t [])) [
    | inl n ↦ absurd (has_struct_tag_ends t [] n)
    | inr ((true, s), e) ↦
        (λ h. has_struct_tag-AnyTagged r tag_name (depth r) t [] s e, λ h. ground arith)
    | inr ((false, s), e) ↦
        (λ h. ground arith, λ h. absurd (has_struct_tag-not_tagged r tag_name (depth r) t s e h))
  ]
