-- ===== src/Vm/Env/File.antt =====
-- `SaveToFile` and `FromFile`, `Set`, `Delete` and `Destroy` of vm/env.go.
use poprocks.Prelude.{
  ℕ, ◌≡◌, refl, ap, ◌∙◌, ◌≢◌, Option, none, some, Option-cases, inl, inr, List, [], ◌∷◌, ◌++◌,
  arith, if◌then◌else◌, Bytes, GoMap, All, lookup, insert, bytes_eq, bytes_eq_iff, bytes_eq_inst,
  lookup-insert, lookup-delete, split, split-append,
}
use poprocks.Vm.Env.{
  EnvironmentVariables, newline, equals_sign, set, get, delete_variable, destroy, split_two,
  read_lines, from_file, line_of, file_of, save_to_file,
}

-- A variable whose name and value come back from a file.
pub record IsSavable (v : Bytes × Bytes) : Type 0 where
  pub name_has_no_equals : All (λ b. b ≢ 61) v.0
  pub name_is_one_line : All (λ b. b ≢ 10) v.0
  pub value_is_one_line : All (λ b. b ≢ 10) v.1

-- The names of a map are different.
abbrev pub AreDistinct : GoMap Bytes Bytes → Type 0
AreDistinct [] = Unit
AreDistinct ((name, value) ∷ m) = (lookup name m ≡ none) × AreDistinct m

split_two-line_of :
    (name value : Bytes)
    → All (λ b. b ≢ 61) name
    → split_two equals_sign (line_of (name, value)) ≡ some (name, value)
unfolding split_two
split_two-line_of [] value v = ground arith
split_two-line_of (b ∷ bs) value v = ground (arith, split_two-line_of bs value v.1, v.0)

line_is_one_line :
    (name value : Bytes)
    → All (λ b. b ≢ 10) name
    → All (λ b. b ≢ 10) value
    → All (λ b. b ≢ 10) (line_of (name, value))
line_is_one_line [] value v w = (λ h. omega (arith, h), w)
line_is_one_line (b ∷ bs) value v w = (v.0, line_is_one_line bs value v.1 w)

read_step :
    (b : ℕ) (bs : Bytes) (lines : List Bytes) (vars : GoMap Bytes Bytes) (part : Bytes × Bytes)
    → split_two equals_sign (b ∷ bs) ≡ some part
    → read_lines ((b ∷ bs) ∷ lines) vars ≡ read_lines lines (insert part.0 part.1 vars)
unfolding read_lines
read_step b bs lines vars part e = ground arith

read_line :
    (name value : Bytes) (lines : List Bytes) (vars : GoMap Bytes Bytes)
    → All (λ b. b ≢ 61) name
    → read_lines (line_of (name, value) ∷ lines) vars ≡ read_lines lines (insert name value vars)
read_line [] value lines vars v =
    read_step equals_sign value lines vars ([], value) (split_two-line_of [] value v)
read_line (b ∷ bs) value lines vars v =
    read_step b (bs ++ (equals_sign ∷ value)) lines vars (b ∷ bs, value)
      (split_two-line_of (b ∷ bs) value v)

lookup_on_top :
    (k x name : Bytes) (m vars read : GoMap Bytes Bytes)
    → lookup k m ≡ none
    → lookup name read
      ≡ elim (lookup name m) [ some value ↦ some value | none ↦ lookup name (insert k x vars) ]
    → lookup name read
      ≡ elim (lookup name ((k, x) ∷ m)) [ some value ↦ some value | none ↦ lookup name vars ]
unfolding lookup
lookup_on_top k x name m vars read d e =
    ground (arith, lookup-insert k name x vars, bytes_eq_iff k name)

-- The entries of the file come on top of the ones read before them.
read_lines-file_of :
    (m vars : GoMap Bytes Bytes)
    → All IsSavable m
    → AreDistinct m
    → (read : GoMap Bytes Bytes) × (read_lines (split newline (file_of m)) vars ≡ some read)
      × ((name : Bytes)
          → lookup name read
            ≡ elim (lookup name m) [ some value ↦ some value | none ↦ lookup name vars ])
unfolding file_of split read_lines lookup
read_lines-file_of [] vars v d = (vars, refl, λ name. refl)
read_lines-file_of ((k, x) ∷ m) vars v d =
    let s = v.0 in
    let (read, e, f) = read_lines-file_of m (insert k x vars) v.1 d.1 in
    (
      read,
      ap (λ lines. read_lines lines vars)
            (split-append newline (line_of (k, x)) (file_of m)
              (line_is_one_line k x s.name_is_one_line s.value_is_one_line))
          ∙ read_line k x (split newline (file_of m)) vars s.name_has_no_equals
          ∙ e,
      λ name. lookup_on_top k x name m vars read d.0 (f name),
    )

or_absent {ℓ} :
    {A : Type ℓ} (o : Option A) → elim o as (λ _. Option A) [ some a ↦ some a | none ↦ none ] ≡ o
or_absent none = refl
or_absent (some a) = refl

-- Every variable of an environment comes back from the file that it was saved to, and no other,
-- if the names of the environment are different and have no equals sign, and neither they nor the
-- values have a newline.
pub from_file-save_to_file :
    (m : GoMap Bytes Bytes) (name : Bytes)
    → All IsSavable m
    → AreDistinct m
    → (e : EnvironmentVariables) × (from_file (save_to_file (record { vars = some m })) ≡ some e)
      × (get name e ≡ get name (record { vars = some m }))
unfolding from_file save_to_file get lookup
from_file-save_to_file m name v d =
    let (read, e, f) = read_lines-file_of m [] v d in
    (record { vars = some read }, ground arith, f name ∙ or_absent (lookup name m))

-- `Delete` takes the variable away, and no other.
pub get-delete_variable :
    (name other : Bytes) (e : EnvironmentVariables)
    → get other (delete_variable name e) ≡ (if bytes_eq name other then none else get other e)
unfolding delete_variable get lookup
get-delete_variable name other e = elim (Option-cases e.vars) [
  | inl n ↦ ground arith
  | inr (m, n) ↦ ground (arith, lookup-delete name other m)
]

-- A `Set` that does not panic gives the variable its value, and leaves every other as it was.
pub get-set :
    (name other value : Bytes) (e e' : EnvironmentVariables)
    → set name value e ≡ some e'
    → get other e' ≡ (if bytes_eq name other then some value else get other e)
unfolding set get
get-set name other value e e' h = elim (Option-cases e.vars) [
  | inl n ↦ ground arith
  | inr (m, n) ↦ ground (arith, lookup-insert name other value m)
]

-- After `Destroy` every `Set` panics.
pub set-destroy :
    (name value : Bytes) (e : EnvironmentVariables) → set name value (destroy e) ≡ none
unfolding set destroy
set-destroy name value e = refl
