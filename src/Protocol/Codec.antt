-- ===== src/Protocol/Codec.antt =====
-- vsock/codec.go. The formats are other packages': what they marshal and unmarshal is a parameter,
-- and so are the types of the program as reflection shows them.
pub mod Laws
pub mod Choice
use poprocks.Prelude.{
  ℕ, ◌≡◌, refl, ◌≢◌, ◌==◌, not, Bool, true, false, Option, none, some, List, [], ◌∷◌, ◌++◌, length,
  take, arith, take_front, if◌then◌else◌, Bytes, codes,
}
use poprocks.Vsock.Errors.{
  Result, ok, err, eof, invalid_type_id, invalid_codec_type, type_mismatch,
  stream_codec_unsupported, unsupported_codec,
}
use poprocks.Vsock.Io.{Stream, content, failure}
use poprocks.Vsock.Wire.{Header}
use poprocks.Vsock.Source.{Payload}
use poprocks.Vsock.Message
use poprocks.Vsock.Message.{Message, new_message, new_message_from_header}
use poprocks.Vsock.Message.Laws.{read_all-new_message_from_header}
use poprocks.Protocol.Types.{GoType, Reflection, elem, is_tagged, is_stream_type}
use poprocks.Protocol.Types.Streams.{GoValue, decode_stream_payload}

-- `codec_other` is any other number.
pub data CodecType : Type 0 where
  codec_unknown codec_msgpack codec_gob codec_json codec_yaml codec_stream codec_other : CodecType

abbrev pub is_unknown : CodecType → Bool
is_unknown codec_unknown = true
is_unknown _ = false

abbrev pub is_stream : CodecType → Bool
is_stream codec_stream = true
is_stream _ = false

pub record Codec : Type 0 where
  pub codec : CodecType
  pub type_id : ℕ
  pub stream : Bool

-- `isValidCodecType`
unfoldable pub is_valid_codec_type : CodecType → Bool
is_valid_codec_type codec_unknown = false
is_valid_codec_type codec_other = false
is_valid_codec_type _ = true

abbrev pub make_codec : ℕ → CodecType → Codec
make_codec type_id t = record { codec = t; type_id = type_id; stream = is_stream t }

-- `inferCodecType`; `reflect.TypeFor` does not give nil.
unfoldable pub infer_codec_type : Reflection → GoType → CodecType
unfolding is_stream_type is_tagged
infer_codec_type r t =
    if is_stream_type r t
    then codec_stream
    else if is_tagged r (codes "msgpack") (elem t)
    then codec_msgpack
    else if is_tagged r (codes "json") (elem t)
    then codec_json
    else if is_tagged r (codes "yaml") (elem t)
    then codec_yaml
    else codec_unknown

-- `NewCodecOfType`
unfoldable pub new_codec_of_type : ℕ → CodecType → Result Codec
unfolding is_valid_codec_type
new_codec_of_type type_id t =
    if type_id == 0
    then err invalid_type_id
    else if not (is_valid_codec_type t)
    then err invalid_codec_type
    else ok (make_codec type_id t)

-- `generateID`, by the numbers that are drawn; `none` if they run out before one is not zero.
unfoldable pub generate_id : List (Result ℕ) → Option (Result ℕ)
generate_id [] = none
generate_id (err e ∷ draws) = some (err e)
generate_id (ok id ∷ draws) = if id == 0 then generate_id draws else some (ok id)

-- What a codec is generic in: `Marshal` and `Unmarshal` of the four formats for the type `T`, the
-- type as reflection shows it, the values of the type that reflection builds, and a value as a
-- payload of type `any`.
pub record Formats {ℓ} (T : Type ℓ) : Type ℓ where
  pub marshal : CodecType → T → Result Bytes
  pub unmarshal : CodecType → Bytes → Result T
  pub reflection : Reflection
  pub payload_type : GoType
  pub from_value : GoValue → T
  pub as_payload : T → Payload

module _ {ℓ} {T : Type ℓ} (formats : Formats T) where
  -- `NewCodec`
  unfoldable pub new_codec : ℕ → Result Codec
  unfolding infer_codec_type
  new_codec type_id =
      let inferred = infer_codec_type formats.reflection formats.payload_type in
      if type_id == 0
      then err invalid_type_id
      else if is_unknown inferred
      then err invalid_codec_type
      else ok (make_codec type_id inferred)

  -- `decodeStreamPayload[T]`
  abbrev pub decode_stream : Message → Result T
  decode_stream m = elim (decode_stream_payload formats.reflection formats.payload_type m) [
    | err e ↦ err e
    | ok v ↦ ok (formats.from_value v)
  ]

  -- `encodeWith`
  unfoldable pub encode_with : CodecType → T → Result Bytes
  encode_with codec_msgpack v = formats.marshal codec_msgpack v
  encode_with codec_gob v = formats.marshal codec_gob v
  encode_with codec_json v = formats.marshal codec_json v
  encode_with codec_yaml v = formats.marshal codec_yaml v
  encode_with codec_stream v = err stream_codec_unsupported
  encode_with _ v = err unsupported_codec

  -- `decodeWith`
  unfoldable pub decode_with : CodecType → Bytes → Result T
  decode_with codec_msgpack p = formats.unmarshal codec_msgpack p
  decode_with codec_gob p = formats.unmarshal codec_gob p
  decode_with codec_json p = formats.unmarshal codec_json p
  decode_with codec_yaml p = formats.unmarshal codec_yaml p
  decode_with codec_stream p = err stream_codec_unsupported
  decode_with _ p = err unsupported_codec

  -- `(*Codec[T]).Encode`
  unfoldable pub encode : Codec → T → Result Bytes
  unfolding encode_with
  encode c v = encode_with c.codec v

  -- `(*Codec[T]).Decode`
  unfoldable pub decode : Codec → Message → Stream → Result T × Message × Stream
  decode c m conn =
      let (p, m', conn') = Message.read_all m conn in
      if not (m.msg_type == c.type_id)
      then (err type_mismatch, m, conn)
      else if c.stream
      then (decode_stream m, m, conn)
      else elim p [
        | err e ↦ (err e, m', conn')
        | ok payload ↦ (decode_with c.codec payload, m', conn')
      ]

  -- `(*Codec[T]).ToMessageWithID`
  unfoldable pub to_message_with_id : Codec → ℕ → T → Result Message
  to_message_with_id c id v = elim (encode c v) [
    | err e ↦ err e
    | ok payload ↦ ok (new_message id c.type_id payload)
  ]

  -- `(*Codec[T]).ToMessage`, by the ID that was drawn.
  unfoldable pub to_message : Codec → Result ℕ → T → Result Message
  unfolding to_message_with_id
  to_message c drawn v = elim drawn [ err e ↦ err e | ok id ↦ to_message_with_id c id v ]
