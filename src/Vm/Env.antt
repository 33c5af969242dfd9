-- ===== src/Vm/Env.antt =====
-- vm/env.go. A map is an association list in the order in which it is iterated; `Destroy` leaves a
-- nil map. An operation that panics gives `none`.
pub mod File
use poprocks.Prelude.{
  ℕ, ◌==◌, Bool, Option, none, some, List, [], ◌∷◌, ◌++◌, map, length, if◌then◌else◌, Bytes, GoMap,
  lookup, insert, delete, split, bytes_eq_inst,
}

abbrev pub newline : ℕ
newline = 10

abbrev pub equals_sign : ℕ
equals_sign = 61

pub record EnvironmentVariables : Type 0 where
  pub vars : Option (GoMap Bytes Bytes)

-- `NewEnvironmentVariables`
unfoldable pub new_environment_variables : EnvironmentVariables
new_environment_variables = record { vars = some [] }

-- The entries; a nil map has none.
abbrev pub entries : EnvironmentVariables → GoMap Bytes Bytes
entries e = elim e.vars [ some m ↦ m | none ↦ [] ]

-- `Set`
unfoldable pub set : Bytes → Bytes → EnvironmentVariables → Option EnvironmentVariables
set name value e = elim e.vars [
  | none ↦ none
  | some m ↦ some (record { vars = some (insert name value m) })
]

-- `get`
unfoldable pub get : Bytes → EnvironmentVariables → Option Bytes
get name e = lookup name (entries e)

-- `Delete`
unfoldable pub delete_variable : Bytes → EnvironmentVariables → EnvironmentVariables
delete_variable name e = elim e.vars [ none ↦ e | some m ↦ record { vars = some (delete name m) } ]

-- `Len`
unfoldable pub len : EnvironmentVariables → ℕ
len e = length (entries e)

-- `Keys`, by `slices.Sort`.
unfoldable pub keys : (List Bytes → List Bytes) → EnvironmentVariables → List Bytes
keys sort e = sort (map (λ x. x.0) (entries e))

-- `Destroy`
unfoldable pub destroy : EnvironmentVariables → EnvironmentVariables
destroy e = record { vars = none }

abbrev pub after : ℕ → Option (Bytes × Bytes) → Option (Bytes × Bytes)
after b none = none
after b (some (name, value)) = some (b ∷ name, value)

-- `strings.SplitN(line, sep, 2)`, if it gives two parts.
unfoldable pub split_two : ℕ → Bytes → Option (Bytes × Bytes)
split_two sep [] = none
split_two sep (b ∷ bs) =
    let rest = split_two sep bs in if b == sep then some ([], bs) else after b rest

-- The loop of `FromFile`; `none` is the error for a line without an equals sign.
unfoldable pub read_lines : List Bytes → GoMap Bytes Bytes → Option (GoMap Bytes Bytes)
read_lines [] vars = some vars
read_lines ([] ∷ lines) vars = read_lines lines vars
read_lines ((b ∷ bs) ∷ lines) vars = elim (split_two equals_sign (b ∷ bs)) [
  | none ↦ none
  | some part ↦ read_lines lines (insert part.0 part.1 vars)
]

-- `FromFile`, by the file's content; `none` is `ErrEnvInvalidFile`.
unfoldable pub from_file : Bytes → Option EnvironmentVariables
from_file raw = elim (read_lines (split newline raw) []) [
  | none ↦ none
  | some vars ↦ some (record { vars = some vars })
]

-- The line of an entry, without its newline.
abbrev pub line_of : Bytes × Bytes → Bytes
line_of (name, value) = name ++ (equals_sign ∷ value)

-- What `SaveToFile` writes, an entry after the other.
unfoldable pub file_of : GoMap Bytes Bytes → Bytes
file_of [] = []
file_of (v ∷ vs) = line_of v ++ (newline ∷ file_of vs)

-- `SaveToFile`, once the file has been created and if it takes all bytes.
unfoldable pub save_to_file : EnvironmentVariables → Bytes
unfolding file_of
save_to_file e = file_of (entries e)
