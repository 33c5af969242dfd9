-- ===== src/Protocol/Codec/Choice.antt =====
-- `NewCodec` and `inferCodecType` of vsock/codec.go: which format a type gets.
use poprocks.Prelude.{
  ℕ, ◌≡◌, refl, ◌≢◌, ◌↔◌, inl, inr, true, false, arith, Bytes, codes, Bool-cases,
}
use mathlib.Core.Path.{subst}
use poprocks.Vsock.Errors.{ok}
use poprocks.Protocol.Types.{GoType, Reflection, elem, is_tagged, is_stream_type}
use poprocks.Protocol.Types.Tags.{AnyTagged, fields_of}
use poprocks.Protocol.Types.Depth.{is_tagged_lem}
use poprocks.Protocol.Codec.{
  CodecType, codec_unknown, codec_msgpack, codec_gob, codec_json, codec_yaml, codec_stream,
  codec_other, make_codec, Codec, infer_codec_type, Formats, new_codec,
}

module _ (r : Reflection) (t : GoType) where
  -- Somewhere in the type, with pointers removed, is a field that has the tag.
  abbrev pub HasTag : Bytes → Type 0
  HasTag tag_name = AnyTagged r tag_name (fields_of r (elem t))

  -- The format of a type: a stream if it is one, else by the first kind of tag that it has.
  pub data IsFormat : CodecType → Type 0 where
    streamed : is_stream_type r t ≡ true → IsFormat codec_stream
    by_msgpack : is_stream_type r t ≡ false → HasTag (codes "msgpack") → IsFormat codec_msgpack
    by_json :
        is_stream_type r t ≡ false
        → ¬ HasTag (codes "msgpack")
        → HasTag (codes "json")
        → IsFormat codec_json
    by_yaml :
        is_stream_type r t ≡ false
        → ¬ HasTag (codes "msgpack")
        → ¬ HasTag (codes "json")
        → HasTag (codes "yaml")
        → IsFormat codec_yaml

  has_tag : (n : Bytes) → is_tagged r n (elem t) ≡ true → HasTag n
  has_tag n h = (is_tagged_lem r n (elem t)).0 h

  has_no_tag : (n : Bytes) → is_tagged r n (elem t) ≡ false → ¬ HasTag n
  has_no_tag n h a = let found = (is_tagged_lem r n (elem t)).1 a in ground arith

  tagged_by : (n : Bytes) → HasTag n → is_tagged r n (elem t) ≡ true
  tagged_by n h = (is_tagged_lem r n (elem t)).1 h

  untagged_by : (n : Bytes) → ¬ HasTag n → is_tagged r n (elem t) ≡ false
  untagged_by n h = elim (Bool-cases (is_tagged r n (elem t))) [
    | inl b ↦ absurd (h (has_tag n b))
    | inr b ↦ b
  ]

  infer_codec_type-IsFormat : infer_codec_type r t ≢ codec_unknown → IsFormat (infer_codec_type r t)
  unfolding infer_codec_type
  infer_codec_type-IsFormat known = elim (Bool-cases (is_stream_type r t)) [
    | inl s ↦ subst IsFormat (ground arith) (streamed s)
    | inr s ↦ elim (Bool-cases (is_tagged r (codes "msgpack") (elem t))) [
      | inl m ↦ subst IsFormat (ground arith) (by_msgpack s (has_tag (codes "msgpack") m))
      | inr m ↦ elim (Bool-cases (is_tagged r (codes "json") (elem t))) [
        | inl j ↦
            subst IsFormat (ground arith)
              (by_json s (has_no_tag (codes "msgpack") m) (has_tag (codes "json") j))
        | inr j ↦ elim (Bool-cases (is_tagged r (codes "yaml") (elem t))) [
          | inl y ↦ subst IsFormat (ground arith) (
              by_yaml s (has_no_tag (codes "msgpack") m) (has_no_tag (codes "json") j)
                (has_tag (codes "yaml") y))
          | inr y ↦ absurd (known (rw (s, m, j, y) refl))
        ]
      ]
    ]
  ]

  IsFormat-infer_codec_type :
      (c : CodecType) → IsFormat c → (infer_codec_type r t ≡ c) × (c ≢ codec_unknown)
  unfolding infer_codec_type
  IsFormat-infer_codec_type codec_unknown f = elim f [ ]
  IsFormat-infer_codec_type codec_gob f = elim f [ ]
  IsFormat-infer_codec_type codec_other f = elim f [ ]
  IsFormat-infer_codec_type codec_stream (streamed s) = (rw s refl, λ e. ground arith)
  IsFormat-infer_codec_type codec_msgpack (by_msgpack s m) =
      (rw (s, tagged_by (codes "msgpack") m) refl, λ e. ground arith)
  IsFormat-infer_codec_type codec_json (by_json s m j) =
      (rw (s, untagged_by (codes "msgpack") m, tagged_by (codes "json") j) refl, λ e. ground arith)
  IsFormat-infer_codec_type codec_yaml (by_yaml s m j y) = (
    rw
        (
          s,
          untagged_by (codes "msgpack") m,
          untagged_by (codes "json") j,
          tagged_by (codes "yaml") y,
        )
        refl,
    λ e. ground arith,
  )

-- `NewCodec` gives a codec exactly if its ID is not zero and the type has that codec's format: it
-- is a stream; or it is not, and somewhere in it, through structs and pointers, is a field with
-- the tag of the format and none with that of an earlier one, in the order msgpack, json, yaml.
pub new_codec_lem {ℓ} :
    {T : Type ℓ} (formats : Formats T) (type_id : ℕ) (c : Codec)
    → (new_codec formats type_id ≡ ok c) ↔ (
        (type_id ≢ 0)
        × IsFormat formats.reflection formats.payload_type c.codec
        × (c ≡ make_codec type_id c.codec))
unfolding new_codec
new_codec_lem formats type_id c = (
  λ e. (
    λ z. ground arith,
    subst (IsFormat formats.reflection formats.payload_type) (ground arith)
        (infer_codec_type-IsFormat formats.reflection formats.payload_type (λ u. ground arith)),
    ground arith,
  ),
  λ h.
      let (same, known) =
        IsFormat-infer_codec_type formats.reflection formats.payload_type c.codec h.1 in
      ground arith,
)
