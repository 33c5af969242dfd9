-- ===== src/Protocol/Codec/Laws.antt =====
-- vsock/codec.go: what goes through a codec comes back.
use poprocks.Prelude.{
  ℕ, ◌≡◌, refl, ◌≢◌, true, false, some, List, [], ◌∷◌, ◌++◌, length, take, arith, take_front, Bytes,
}
use poprocks.Vsock.Errors.{Result, ok, err, eof}
use poprocks.Vsock.Io.{Stream, content, failure}
use poprocks.Vsock.Wire.{Header}
use poprocks.Vsock.Message
use poprocks.Vsock.Message.{Message, new_message_from_header}
use poprocks.Vsock.Message.Laws.{read_all-new_message_from_header}
use poprocks.Protocol.Codec.{
  CodecType, codec_unknown, codec_msgpack, codec_gob, codec_json, codec_yaml, codec_stream,
  codec_other, is_stream, Codec, is_valid_codec_type, new_codec_of_type, generate_id, Formats,
  encode_with, decode_with, encode, decode,
}

-- What comes out of `generateID` is not zero.
pub generate_id_nonzero :
    (draws : List (Result ℕ)) (id : ℕ) → generate_id draws ≡ some (ok id) → id ≢ 0
unfolding generate_id
generate_id_nonzero [] id e = ground arith
generate_id_nonzero (err x ∷ draws) id e = ground arith
generate_id_nonzero (ok n ∷ draws) id e = ground (arith, generate_id_nonzero draws id)

-- A codec that was made has an ID, a format that is known, and streams by its format.
pub new_codec_of_type_ok :
    (type_id : ℕ) (t : CodecType) (c : Codec)
    → new_codec_of_type type_id t ≡ ok c
    → (c.type_id ≢ 0)
      × (c.codec ≡ t)
      × (is_valid_codec_type c.codec ≡ true)
      × (c.stream ≡ is_stream c.codec)
unfolding new_codec_of_type
new_codec_of_type_ok type_id t c e = ground arith

message_type : (h : Header) → (new_message_from_header h).msg_type ≡ h.msg_type
unfolding new_message_from_header
message_type h = refl

module _ {ℓ} {T : Type ℓ} (formats : Formats T) where
  decode_with-encode_with :
      (t : CodecType) (v : T) (p : Bytes)
      → (formats.marshal t v ≡ ok p → formats.unmarshal t p ≡ ok v)
      → encode_with formats t v ≡ ok p
      → decode_with formats t p ≡ ok v
  unfolding encode_with decode_with
  decode_with-encode_with codec_msgpack v p law e = law e
  decode_with-encode_with codec_gob v p law e = law e
  decode_with-encode_with codec_json v p law e = law e
  decode_with-encode_with codec_yaml v p law e = law e
  decode_with-encode_with codec_stream v p law e = ground arith
  decode_with-encode_with codec_unknown v p law e = ground arith
  decode_with-encode_with codec_other v p law e = ground arith

-- A value that was encoded by a codec that does not stream comes back when a message of the
-- codec's type is decoded off a connection that holds the encoded bytes and ends cleanly, if the
-- format unmarshals what it marshals of that value.
pub decode-encode {ℓ} :
    {T : Type ℓ} (formats : Formats T) (c : Codec) (v : T) (id : ℕ) (payload rest : Bytes)
    (conn : Stream)
    → c.stream ≡ false
    → ((p : Bytes) → formats.marshal c.codec v ≡ ok p → formats.unmarshal c.codec p ≡ ok v)
    → encode formats c v ≡ ok payload
    → failure conn ≡ eof
    → content conn ≡ payload ++ rest
    → (decode formats c
        (new_message_from_header
          (record { id = id; msg_type = c.type_id; length = length payload }))
        conn).0
      ≡ ok v
unfolding encode decode
decode-encode formats c v id payload rest conn s law e f h =
    let hd : Header = record { id = id; msg_type = c.type_id; length = length payload } in
    let all = (read_all-new_message_from_header hd conn f).0 in
    let front : take (length payload) (content conn) ≡ payload =
      rw h (take_front (length payload) payload rest refl) in
    let made = decode_with-encode_with formats c.codec v payload (law payload) e in
    let kind = message_type hd in ground arith

-- Wherever a message of the codec's type has its payload from, the value comes back.
pub decode_payload {ℓ} :
    {T : Type ℓ} (formats : Formats T) (c : Codec) (v : T) (m : Message) (conn : Stream)
    (payload : Bytes)
    → c.stream ≡ false
    → ((p : Bytes) → formats.marshal c.codec v ≡ ok p → formats.unmarshal c.codec p ≡ ok v)
    → encode formats c v ≡ ok payload
    → m.msg_type ≡ c.type_id
    → (Message.read_all m conn).0 ≡ ok payload
    → (decode formats c m conn).0 ≡ ok v
unfolding encode decode
decode_payload formats c v m conn payload s law e kind all =
    let made = decode_with-encode_with formats c.codec v payload (law payload) e in ground arith
