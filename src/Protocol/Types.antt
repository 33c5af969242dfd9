-- ===== src/Protocol/Types.antt =====
-- vsock/helpers.go, and `inferCodecType` of vsock/codec.go: what reflection finds out about the type
-- of a payload. The types of a program are a parameter, as package reflect shows them.
pub mod Tags
pub mod Depth
pub mod Streams
use poprocks.Prelude.{
  ℕ, zero, suc, ◌+◌, not, Bool, true, false, ◌&&◌, ◌||◌, Option, none, some, List, [], ◌∷◌, length,
  if◌then◌else◌, Bytes, ◌==◌,
}

-- The kinds that `decodeStreamPayload` tells apart.
pub data Kind : Type 0 where
  uint32 uint64 uint uintptr int64 int other_kind : Kind

-- Types with pointers to them. A struct type is its number in the program; `basic` is any type
-- that is neither a pointer nor a struct nor `io.Reader`, by its kind and a number.
pub data GoType : Type 0 where
  struct : ℕ → GoType
  pointer : GoType → GoType
  io_reader : GoType
  basic : Kind → ℕ → GoType

-- The interfaces that are asked for.
pub data Interface : Type 0 where
  reader read_seeker stream_source : Interface

-- A field of a struct: `Tag.Get`, and the type.
pub record Field : Type 0 where
  pub tag : Bytes → Bytes
  pub field_type : GoType

-- What `FieldByName` finds in a new variable, through embedded structs too; through an embedded
-- pointer, which is nil, it panics.
pub record FoundField : Type 0 where
  pub through_nil : Bool
  pub can_set : Bool
  pub found_type : GoType

-- The types of a program: the fields of its structs by number, `Implements`, `FieldByName`, and the
-- types that a `*io.LimitedReader` is assignable to.
pub record Reflection : Type 0 where
  pub structs : List (List Field)
  pub implements : GoType → Interface → Bool
  pub field_by_name : ℕ → Bytes → Option FoundField
  pub assignable : GoType → Bool

abbrev pub is_pointer : GoType → Bool
is_pointer (pointer t) = true
is_pointer _ = false

-- The loop `for t.Kind() == reflect.Ptr { t = t.Elem() }`.
abbrev pub elem : GoType → GoType
elem (pointer t) = elem t
elem t = t

abbrev pub is_empty : Bytes → Bool
is_empty [] = true
is_empty (b ∷ bs) = false

abbrev pub nth : ℕ → List (List Field) → List Field
nth n [] = []
nth zero (x ∷ xs) = x
nth (suc n) (x ∷ xs) = nth n xs

-- `seen[t]`
abbrev pub contains : ℕ → List ℕ → Bool
contains i [] = false
contains i (x ∷ xs) = x == i || contains i xs

-- What a walk over types gives: whether it found the tag, and the structs it has seen; `none` if
-- the fuel is used up.
abbrev pub Visit : Type 0
Visit = Option (Bool × List ℕ)

-- The loop over the fields, which visits their types.
unfoldable pub any_field_tagged : (GoType → List ℕ → Visit) → Bytes → List Field → List ℕ → Visit
any_field_tagged visit tag_name [] seen = some (false, seen)
any_field_tagged visit tag_name (f ∷ fs) seen =
    if not (is_empty (f.tag tag_name))
    then some (true, seen)
    else elim (visit (elem f.field_type) seen) [
      | none ↦ none
      | some (true, s) ↦ some (true, s)
      | some (false, s) ↦ any_field_tagged visit tag_name fs s
    ]

module _ (r : Reflection) where
  abbrev pub fields : ℕ → List Field
  fields i = nth i r.structs

  -- `hasStructTag`
  unfoldable pub has_struct_tag : ℕ → Bytes → GoType → List ℕ → Visit
  unfolding any_field_tagged
  has_struct_tag zero tag_name t seen = none
  has_struct_tag (suc fuel) tag_name (struct i) seen =
      let rest =
        any_field_tagged (λ t s. has_struct_tag fuel tag_name t s) tag_name (fields i) (i ∷ seen) in
      if contains i seen then some (false, seen) else rest
  has_struct_tag (suc fuel) tag_name t seen = some (false, seen)

  -- A type is visited from inside each struct at most once.
  abbrev pub depth : ℕ
  depth = length r.structs + 2

  -- `hasStructTag(t, tagName, map[reflect.Type]bool{})`
  unfoldable pub is_tagged : Bytes → GoType → Bool
  unfolding has_struct_tag
  is_tagged tag_name t = elim (has_struct_tag depth tag_name t []) [
    | none ↦ false
    | some (b, seen) ↦ b
  ]

  -- `typeImplements`; a type of the program is not nil.
  unfoldable pub type_implements : GoType → Interface → Bool
  type_implements t iface =
      r.implements t iface || (not (is_pointer t) && r.implements (pointer t) iface)

  -- `isStreamType`
  unfoldable pub is_stream_type : GoType → Bool
  unfolding type_implements
  is_stream_type t =
      type_implements t reader || type_implements t read_seeker || type_implements t stream_source
