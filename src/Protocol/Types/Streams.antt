-- ===== src/Protocol/Types/Streams.antt =====
-- `decodeStreamPayload` of vsock/codec.go: the reader of a message as a value of a type that
-- reflection looks into.
pub mod Laws
use poprocks.Prelude.{
  ℕ, zero, suc, Bool, true, false, ◌&&◌, not, Option, none, some, if◌then◌else◌, Bytes, codes,
}
use poprocks.Vsock.Errors.{Result, ok, err, nil_message, cannot_decode_stream, reflect_panic}
use poprocks.Vsock.Message.{Message, PayloadReader}
use poprocks.Protocol.Types.{
  GoType, struct, pointer, io_reader, basic, uint32, uint64, uint, uintptr, int64, int, Reflection,
  FoundField,
}

-- The structs of the package itself stand first.
abbrev pub reader_payload : GoType
reader_payload = struct 0

abbrev pub message : GoType
message = struct 1

-- The values that are built: a `ReaderPayload`, a reader, a message, another struct by its number
-- with what was set of its fields, and a pointer to a new variable.
pub data GoValue : Type 0 where
  payload_of : PayloadReader → ℕ → GoValue
  reader_of : PayloadReader → GoValue
  message_of : Message → GoValue
  struct_of : ℕ → PayloadReader → Option ℕ → GoValue
  address_of : GoValue → GoValue

-- The kinds that the `switch` accepts; an `int` has 64 bits, so that every length fits in them.
abbrev pub holds_length : GoType → Bool
holds_length (basic uint32 n) = true
holds_length (basic uint64 n) = true
holds_length (basic uint n) = true
holds_length (basic uintptr n) = true
holds_length (basic int64 n) = true
holds_length (basic int n) = true
holds_length _ = false

abbrev reader_name : Bytes
reader_name = codes "Reader"

abbrev length_name : Bytes
length_name = codes "Length"

module _ (r : Reflection) where
  -- The `Reader` field that `FieldByName` finds, if it can take the message's reader.
  abbrev pub takes_reader : Option FoundField → Bool
  takes_reader none = false
  takes_reader (some f) = f.can_set && r.assignable f.found_type

  abbrev pub panics : Option FoundField → Bool
  panics none = false
  panics (some f) = f.through_nil

  abbrev pub reader_field : ℕ → Option FoundField
  reader_field i = r.field_by_name i reader_name

  -- A `Reader` that can be set.
  abbrev pub has_reader : ℕ → Bool
  has_reader i = not (panics (reader_field i)) && takes_reader (reader_field i)

  abbrev pub length_field : ℕ → Option FoundField
  length_field i = r.field_by_name i length_name

  -- The assignment to the `Length` field.
  unfoldable pub set_length : ℕ → PayloadReader → ℕ → Option FoundField → Result GoValue
  set_length i rd length none = ok (struct_of i rd none)
  set_length i rd length (some f) =
      if f.through_nil
      then err reflect_panic
      else if f.can_set
      then if holds_length f.found_type
        then ok (struct_of i rd (some length))
        else err cannot_decode_stream
      else ok (struct_of i rd none)

  -- The struct whose fields are set by reflection.
  unfoldable pub set_fields : ℕ → PayloadReader → ℕ → Result GoValue
  unfolding set_length
  set_fields i rd length =
      if panics (reader_field i)
      then err reflect_panic
      else if has_reader i
      then set_length i rd length (length_field i)
      else err cannot_decode_stream

  abbrev pub by_address : Result GoValue → Result GoValue
  by_address (ok v) = ok (address_of v)
  by_address (err e) = err e

  -- The `switch` over the type, and what follows it.
  unfoldable pub decode_reader : GoType → Message → PayloadReader → Result GoValue
  unfolding set_fields
  decode_reader (struct zero) m rd = ok (payload_of rd m.length)
  decode_reader (pointer (struct zero)) m rd = ok (address_of (payload_of rd m.length))
  decode_reader io_reader m rd = ok (reader_of rd)
  decode_reader (pointer (struct (suc zero))) m rd = ok (address_of (message_of m))
  decode_reader (struct (suc zero)) m rd = ok (message_of m)
  decode_reader (struct (suc (suc i))) m rd = set_fields (suc (suc i)) rd m.length
  decode_reader (pointer (struct (suc (suc i)))) m rd =
      by_address (set_fields (suc (suc i)) rd m.length)
  decode_reader _ m rd = err cannot_decode_stream

  -- `decodeStreamPayload`
  unfoldable pub decode_stream_payload : GoType → Message → Result GoValue
  unfolding decode_reader
  decode_stream_payload t m = elim m.payload_reader [
    | none ↦ err nil_message
    | some rd ↦ decode_reader t m rd
  ]
