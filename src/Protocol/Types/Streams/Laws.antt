-- ===== src/Protocol/Types/Streams/Laws.antt =====
-- `decodeStreamPayload` of vsock/codec.go: which types it fills, and with what.
use mathlib.Core.Path.{subst}
use poprocks.Prelude.{
  ap, ℕ, zero, suc, ◌≡◌, refl, ◌↔◌, inl, inr, true, false, ◌&&◌, Option, none, some, arith,
  Bool-cases, if◌then◌else◌, not,
}
use poprocks.Vsock.Errors.{ok, Result-cases}
use poprocks.Vsock.Message.{Message, PayloadReader}
use poprocks.Protocol.Types.{GoType, struct, pointer, io_reader, basic, Reflection, FoundField}
use poprocks.Protocol.Types.Streams.{
  GoValue, payload_of, reader_of, message_of, struct_of, address_of, holds_length, has_reader,
  panics, reader_field, length_field, set_length, set_fields, decode_reader, decode_stream_payload,
  reader_payload, message,
}

-- A `Length` field can be left out, be out of reach, or hold a length; it is not behind a nil
-- pointer.
abbrev pub IsLengthField : Option FoundField → Type 0
IsLengthField none = Unit
IsLengthField (some f) =
    (f.through_nil ≡ false) × ((f.can_set && not (holds_length f.found_type)) ≡ false)

-- The number that a `Length` field is left with: none, if it cannot be set.
abbrev pub length_set : ℕ → Option FoundField → Option ℕ
length_set length none = none
length_set length (some f) = if f.can_set then some length else none

module _ (r : Reflection) where
  -- The structs that a stream can be decoded into.
  pub data IsStreamStruct : ℕ → Type 0 where
    for_reader : IsStreamStruct 0
    for_message : IsStreamStruct 1
    for_fields :
        {i : ℕ}
        → has_reader r (suc (suc i)) ≡ true
        → IsLengthField (length_field r (suc (suc i)))
        → IsStreamStruct (suc (suc i))

  -- The types that a stream can be decoded into.
  pub data IsStreamPayload : GoType → Type 0 where
    plain : IsStreamPayload io_reader
    by_value : {i : ℕ} → IsStreamStruct i → IsStreamPayload (struct i)
    by_pointer : {i : ℕ} → IsStreamStruct i → IsStreamPayload (pointer (struct i))

  -- The values of a type that stand for the message `m` with its reader.
  pub data HasType (m : Message) (rd : PayloadReader) : GoType → GoValue → Type 0 where
    of_payload : HasType m rd reader_payload (payload_of rd m.length)
    of_reader : HasType m rd io_reader (reader_of rd)
    of_message : HasType m rd message (message_of m)
    of_struct :
        {i : ℕ}
        → has_reader r (suc (suc i)) ≡ true
        → HasType m rd
            (struct (suc (suc i)))
            (struct_of (suc (suc i)) rd (length_set m.length (length_field r (suc (suc i)))))
    of_address :
        {t : GoType} {v : GoValue} → HasType m rd t v → HasType m rd (pointer t) (address_of v)

  set_length_lem :
      (i : ℕ) (rd : PayloadReader) (n : ℕ) (f : Option FoundField)
      → IsLengthField f
      → set_length r i rd n f ≡ ok (struct_of i rd (length_set n f))
  unfolding set_length
  set_length_lem i rd n none h = refl
  set_length_lem i rd n (some f) h = ground arith

  set_length-IsLengthField :
      (i : ℕ) (rd : PayloadReader) (n : ℕ) (f : Option FoundField) (v : GoValue)
      → set_length r i rd n f ≡ ok v
      → IsLengthField f
  unfolding set_length
  set_length-IsLengthField i rd n none v e = tt
  set_length-IsLengthField i rd n (some f) v e = ground arith

  set_fields-HasType :
      (m : Message) (i : ℕ) (rd : PayloadReader)
      → IsStreamStruct (suc (suc i))
      → (v : GoValue) × (set_fields r (suc (suc i)) rd m.length ≡ ok v)
        × HasType m rd (struct (suc (suc i))) v
  unfolding set_fields
  set_fields-HasType m i rd (for_fields h l) =
      let e = set_length_lem (suc (suc i)) rd m.length (length_field r (suc (suc i))) l in
      let calm : panics r (reader_field r (suc (suc i))) ≡ false = ground arith in
      (
        struct_of (suc (suc i)) rd (length_set m.length (length_field r (suc (suc i)))),
        ground arith,
        of_struct h,
      )

  set_fields-IsStreamStruct :
      (i : ℕ) (rd : PayloadReader) (n : ℕ) (v : GoValue)
      → set_fields r (suc (suc i)) rd n ≡ ok v
      → IsStreamStruct (suc (suc i))
  unfolding set_fields
  set_fields-IsStreamStruct i rd n v e = elim (Bool-cases (has_reader r (suc (suc i)))) [
    | inl h ↦ for_fields h (
        set_length-IsLengthField (suc (suc i)) rd n (length_field r (suc (suc i))) v (ground arith))
    | inr h ↦ ground arith
  ]

  -- It succeeds on these types, with a value of the type that stands for the message.
  pub decode_reader-HasType :
      (m : Message) (rd : PayloadReader) (t : GoType)
      → IsStreamPayload t
      → (v : GoValue) × (decode_reader r t m rd ≡ ok v) × HasType m rd t v
  unfolding decode_reader
  decode_reader-HasType m rd io_reader plain = (_, refl, of_reader)
  decode_reader-HasType m rd (struct zero) (by_value for_reader) = (_, refl, of_payload)
  decode_reader-HasType m rd (struct (suc zero)) (by_value for_message) = (_, refl, of_message)
  decode_reader-HasType m rd (struct (suc (suc i))) (by_value s) = set_fields-HasType m i rd s
  decode_reader-HasType m rd (pointer (struct zero)) (by_pointer for_reader) =
      (_, refl, of_address of_payload)
  decode_reader-HasType m rd (pointer (struct (suc zero))) (by_pointer for_message) =
      (_, refl, of_address of_message)
  decode_reader-HasType m rd (pointer (struct (suc (suc i)))) (by_pointer s) =
      let (v, e, h) = set_fields-HasType m i rd s in (address_of v, rw e refl, of_address h)
  decode_reader-HasType m rd (pointer (pointer t)) h = elim h [ ]
  decode_reader-HasType m rd (pointer io_reader) h = elim h [ ]
  decode_reader-HasType m rd (pointer (basic k n)) h = elim h [ ]
  decode_reader-HasType m rd (basic k n) h = elim h [ ]

  -- And on no other.
  pub decode_reader-IsStreamPayload :
      (m : Message) (rd : PayloadReader) (t : GoType) (v : GoValue)
      → decode_reader r t m rd ≡ ok v
      → IsStreamPayload t
  unfolding decode_reader
  decode_reader-IsStreamPayload m rd io_reader v e = plain
  decode_reader-IsStreamPayload m rd (struct zero) v e = by_value for_reader
  decode_reader-IsStreamPayload m rd (struct (suc zero)) v e = by_value for_message
  decode_reader-IsStreamPayload m rd (struct (suc (suc i))) v e =
      by_value (set_fields-IsStreamStruct i rd m.length v e)
  decode_reader-IsStreamPayload m rd (pointer (struct zero)) v e = by_pointer for_reader
  decode_reader-IsStreamPayload m rd (pointer (struct (suc zero))) v e = by_pointer for_message
  decode_reader-IsStreamPayload m rd (pointer (struct (suc (suc i)))) v e =
      elim (Result-cases (set_fields r (suc (suc i)) rd m.length)) [
        | inl (x, q) ↦ ground arith
        | inr (w, q) ↦ by_pointer (set_fields-IsStreamStruct i rd m.length w q)
      ]
  decode_reader-IsStreamPayload m rd (pointer (pointer t)) v e = ground arith
  decode_reader-IsStreamPayload m rd (pointer io_reader) v e = ground arith
  decode_reader-IsStreamPayload m rd (pointer (basic k n)) v e = ground arith
  decode_reader-IsStreamPayload m rd (basic k n) v e = ground arith

-- A type has one value that stands for the message.
HasType-unique :
    (r : Reflection) (m : Message) (rd : PayloadReader) (t : GoType) (v w : GoValue)
    → HasType r m rd t v
    → HasType r m rd t w
    → v ≡ w
HasType-unique r m rd io_reader _ _ of_reader of_reader = refl
HasType-unique r m rd (struct zero) _ _ of_payload of_payload = refl
HasType-unique r m rd (struct (suc zero)) _ _ of_message of_message = refl
HasType-unique r m rd (struct (suc (suc i))) _ _ (of_struct h) (of_struct k) = refl
HasType-unique r m rd (pointer t) _ _ (of_address {v = v} h) (of_address {v = w} k) =
    ap address_of (HasType-unique r m rd t v w h k)
HasType-unique r m rd (basic k n) v w h e = elim h [ ]

-- For a message that has a reader, `decodeStreamPayload` gives a value exactly if the type can
-- hold a stream and the value is the one of that type that stands for the message: with its
-- reader and, in a `Length` that can be set, its length. And it gives one exactly if the type is
-- `io.Reader`, or `ReaderPayload`, `Message`, another struct with a `Reader` field that takes the
-- reader and no `Length` field of the wrong kind, neither of them behind a nil pointer, or a
-- pointer to one of these structs.
pub decode_stream_payload_typed :
    (r : Reflection) (m : Message) (rd : PayloadReader) (t : GoType) (v : GoValue)
    → m.payload_reader ≡ some rd
    → ((decode_stream_payload r t m ≡ ok v) ↔ (IsStreamPayload r t × HasType r m rd t v))
      × (((w : GoValue) × (decode_stream_payload r t m ≡ ok w)) ↔ IsStreamPayload r t)
unfolding decode_stream_payload
decode_stream_payload_typed r m rd t v e = (
  (
    λ h.
        let s = decode_reader-IsStreamPayload r m rd t v (ground arith) in
        let (w, q, typed) = decode_reader-HasType r m rd t s in
        let same : w ≡ v = ground arith in (s, subst (HasType r m rd t) same typed),
    λ h.
        let (w, q, typed) = decode_reader-HasType r m rd t h.0 in
        let same = HasType-unique r m rd t w v typed h.1 in ground arith,
  ),
  (
    λ h. decode_reader-IsStreamPayload r m rd t h.0 (ground arith),
    λ h. let (w, q, typed) = decode_reader-HasType r m rd t h in (w, ground arith),
  ),
)
