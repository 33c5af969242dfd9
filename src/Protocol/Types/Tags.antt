-- ===== src/Protocol/Types/Tags.antt =====
-- `hasStructTag` of vsock/helpers.go: the walk over nested structs against what it looks for.
use poprocks.Prelude.{
  ℕ, zero, suc, ◌≡◌, refl, ◌≢◌, ◌⊎◌, inl, inr, true, false, some, List, [], ◌∷◌, arith, Bytes, ◌==◌,
  ==_iff, Bool-cases, Option-cases, All,
}
use poprocks.Protocol.Types.{
  GoType, struct, pointer, io_reader, basic, Field, Reflection, elem, is_empty, contains, Visit,
  any_field_tagged, fields, has_struct_tag,
}

is_empty-true : (b : Bytes) → is_empty b ≡ true → b ≡ []
is_empty-true [] h = refl
is_empty-true (x ∷ xs) h = ground arith

module _ (r : Reflection) where
  -- The fields of a type: none, if it is not a struct.
  abbrev pub fields_of : GoType → List Field
  fields_of (struct i) = fields r i
  fields_of _ = []

module _ (r : Reflection) (tag_name : Bytes) where
  -- One of the fields has the tag, or its type, with pointers removed, is a struct of which one of
  -- the fields does.
  pub data AnyTagged : List Field → Type 0 where
    own : {f : Field} {fs : List Field} → f.tag tag_name ≢ [] → AnyTagged (f ∷ fs)
    inner :
        {f : Field} {fs : List Field}
        → AnyTagged (fields_of r (elem f.field_type))
        → AnyTagged (f ∷ fs)
    later : {f : Field} {fs : List Field} → AnyTagged fs → AnyTagged (f ∷ fs)

  -- No tag here, and the structs inside are among those seen.
  pub record FieldDone (s : List ℕ) (f : Field) : Type 0 where
    pub untagged : f.tag tag_name ≡ []
    pub closed : (k : ℕ) → elem f.field_type ≡ struct k → contains k s ≡ true

  -- How far a walk that finds nothing goes: what it has seen grows, by structs that are done.
  pub record Walked (seen s : List ℕ) : Type 0 where
    pub grows : (k : ℕ) → contains k seen ≡ true → contains k s ≡ true
    pub done :
        (k : ℕ) → contains k s ≡ true → (contains k seen ≡ true) ⊎ All (FieldDone s) (fields r k)

  -- Soundness: a walk that finds the tag has found one.
  any_field_tagged-AnyTagged :
      (visit : GoType → List ℕ → Visit)
      → ((t : GoType) (seen s : List ℕ) → visit t seen ≡ some (true, s) → AnyTagged (fields_of r t))
      → (fs : List Field) (seen s : List ℕ)
      → any_field_tagged visit tag_name fs seen ≡ some (true, s)
      → AnyTagged fs
  unfolding any_field_tagged
  any_field_tagged-AnyTagged visit law [] seen s e = ground arith
  any_field_tagged-AnyTagged visit law (f ∷ fs) seen s e =
      elim (Bool-cases (is_empty (f.tag tag_name))) [
        | inl b ↦ elim (Option-cases (visit (elem f.field_type) seen)) [
          | inl n ↦ ground arith
          | inr ((true, s'), v) ↦ inner (law (elem f.field_type) seen s' v)
          | inr ((false, s'), v) ↦
              later (any_field_tagged-AnyTagged visit law fs s' s (ground arith))
        ]
        | inr b ↦ own (λ n. ground arith)
      ]

  pub has_struct_tag-AnyTagged :
      (fuel : ℕ) (t : GoType) (seen s : List ℕ)
      → has_struct_tag r fuel tag_name t seen ≡ some (true, s)
      → AnyTagged (fields_of r t)
  unfolding has_struct_tag
  has_struct_tag-AnyTagged zero t seen s e = ground arith
  has_struct_tag-AnyTagged (suc fuel) (struct i) seen s e = elim (Bool-cases (contains i seen)) [
    | inl b ↦ ground arith
    | inr b ↦
        any_field_tagged-AnyTagged (λ t q. has_struct_tag r fuel tag_name t q)
          (has_struct_tag-AnyTagged fuel) (fields r i) (i ∷ seen) s (ground arith)
  ]
  has_struct_tag-AnyTagged (suc fuel) (pointer t) seen s e = ground arith
  has_struct_tag-AnyTagged (suc fuel) io_reader seen s e = ground arith
  has_struct_tag-AnyTagged (suc fuel) (basic k n) seen s e = ground arith

  FieldDone-All :
      (a b : List ℕ)
      → ((k : ℕ) → contains k a ≡ true → contains k b ≡ true)
      → (fs : List Field) → All (FieldDone a) fs
      → All (FieldDone b) fs
  FieldDone-All a b sub [] h = tt
  FieldDone-All a b sub (f ∷ fs) h = (
    record { untagged = h.0.untagged; closed = λ k e. sub k (h.0.closed k e) },
    FieldDone-All a b sub fs h.1,
  )

  Walked-refl : (a : List ℕ) → Walked a a
  Walked-refl a = record { grows = λ k h. h; done = λ k h. inl h }

  Walked-trans : {a b c : List ℕ} → Walked a b → Walked b c → Walked a c
  Walked-trans {a} {b} {c} p q = record {
    grows = λ k h. q.grows k (p.grows k h);
    done = λ k h. elim (q.done k h) [
      | inr d ↦ inr d
      | inl old ↦ elim (p.done k old) [
        | inl older ↦ inl older
        | inr d ↦ inr (FieldDone-All b c q.grows (fields r k) d)
      ]
    ];
  }

  -- Completeness: a walk that finds nothing leaves behind structs that are done.
  any_field_tagged-Walked :
      (visit : GoType → List ℕ → Visit)
      → ((t : GoType) (seen s : List ℕ)
          → visit t seen ≡ some (false, s)
          → Walked seen s × ((k : ℕ) → t ≡ struct k → contains k s ≡ true))
      → (fs : List Field) (seen s : List ℕ)
      → any_field_tagged visit tag_name fs seen ≡ some (false, s)
      → Walked seen s × All (FieldDone s) fs
  unfolding any_field_tagged
  any_field_tagged-Walked visit law [] seen s e =
      let same : seen ≡ s = ground arith in (rw same (Walked-refl s), tt)
  any_field_tagged-Walked visit law (f ∷ fs) seen s e =
      elim (Bool-cases (is_empty (f.tag tag_name))) [
        | inl b ↦ elim (Option-cases (visit (elem f.field_type) seen)) [
          | inl n ↦ ground arith
          | inr ((true, s'), v) ↦ ground arith
          | inr ((false, s'), v) ↦
              let (w, here) = law (elem f.field_type) seen s' v in
              let (w', rest) = any_field_tagged-Walked visit law fs s' s (ground arith) in
              (
                Walked-trans w w',
                (
                  record {
                    untagged = is_empty-true (f.tag tag_name) b;
                    closed = λ k q. w'.grows k (here k q);
                  },
                  rest,
                ),
              )
        ]
        | inr b ↦ ground arith
      ]

  has_struct_tag-Walked :
      (fuel : ℕ) (t : GoType) (seen s : List ℕ)
      → has_struct_tag r fuel tag_name t seen ≡ some (false, s)
      → Walked seen s × ((k : ℕ) → t ≡ struct k → contains k s ≡ true)
  unfolding has_struct_tag
  has_struct_tag-Walked zero t seen s e = ground arith
  has_struct_tag-Walked (suc fuel) (struct i) seen s e = elim (Bool-cases (contains i seen)) [
    | inl b ↦ let same : seen ≡ s = ground arith in (rw same (Walked-refl s), λ k q. ground arith)
    | inr b ↦
        let (w, all) =
          any_field_tagged-Walked (λ t q. has_struct_tag r fuel tag_name t q)
            (has_struct_tag-Walked fuel) (fields r i) (i ∷ seen) s (ground arith) in
        let here : contains i s ≡ true = w.grows i (ground arith) in
        (
          record {
            grows = λ k h. w.grows k (ground arith);
            done = λ k h. elim (w.done k h) [
              | inr d ↦ inr d
              | inl old ↦ elim (Bool-cases (i == k)) [
                | inl eq ↦ inr (rw (← (==_iff i k).0 eq) all)
                | inr ne ↦ inl (ground arith)
              ]
            ];
          },
          λ k q. ground arith,
        )
  ]
  has_struct_tag-Walked (suc fuel) (pointer t) seen s e =
      let same : seen ≡ s = ground arith in (rw same (Walked-refl s), λ k q. ground arith)
  has_struct_tag-Walked (suc fuel) io_reader seen s e =
      let same : seen ≡ s = ground arith in (rw same (Walked-refl s), λ k q. ground arith)
  has_struct_tag-Walked (suc fuel) (basic k n) seen s e =
      let same : seen ≡ s = ground arith in (rw same (Walked-refl s), λ k q. ground arith)

  -- Structs that are done, and only lead to one another, have no tag.
  FieldDone-not_tagged :
      (s : List ℕ)
      → ((k : ℕ) → contains k s ≡ true → All (FieldDone s) (fields r k))
      → (fs : List Field) → All (FieldDone s) fs
      → AnyTagged fs
      → ⊥
  FieldDone-not_tagged s done [] h t = elim t [ ]
  FieldDone-not_tagged s done (f ∷ fs) h (own n) = n h.0.untagged
  FieldDone-not_tagged s done (f ∷ fs) h (later t) = FieldDone-not_tagged s done fs h.1 t
  FieldDone-not_tagged s done (f ∷ fs) h (inner t) =
      FieldDone-not_tagged s done (fields_of r (elem f.field_type))
        (inside (elem f.field_type) h.0.closed) t
    where
      inside :
          (t : GoType)
          → ((k : ℕ) → t ≡ struct k → contains k s ≡ true)
          → All (FieldDone s) (fields_of r t)
      inside (struct i) c = done i (c i refl)
      inside (pointer t) c = tt
      inside io_reader c = tt
      inside (basic k n) c = tt

  pub has_struct_tag-not_tagged :
      (fuel : ℕ) (t : GoType) (s : List ℕ)
      → has_struct_tag r fuel tag_name t [] ≡ some (false, s)
      → AnyTagged (fields_of r t)
      → ⊥
  has_struct_tag-not_tagged fuel t s e = has fuel t s (has_struct_tag-Walked fuel t [] s e)
    where
      done :
          (s : List ℕ)
          → Walked [] s
          → (k : ℕ) → contains k s ≡ true
          → All (FieldDone s) (fields r k)
      done s w k c = elim (w.done k c) [ inl old ↦ ground arith | inr d ↦ d ]

      has :
          (fuel : ℕ) (t : GoType) (s : List ℕ)
          → Walked [] s × ((k : ℕ) → t ≡ struct k → contains k s ≡ true)
          → AnyTagged (fields_of r t)
          → ⊥
      has fuel (struct i) s (w, here) =
          FieldDone-not_tagged s (done s w) (fields r i) (done s w i (here i refl))
      has fuel (pointer t) s h = FieldDone-not_tagged s (done s h.0) [] tt
      has fuel io_reader s h = FieldDone-not_tagged s (done s h.0) [] tt
      has fuel (basic k n) s h = FieldDone-not_tagged s (done s h.0) [] tt
