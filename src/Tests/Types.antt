-- ===== src/Tests/Types.antt =====
-- Types that reflection walks over: vsock/helpers.go and vsock/codec.go.
use poprocks.Prelude.{
  ℕ, ◌≡◌, refl, ◌≢◌, ◌↔◌, Bool, true, false, Option, none, some, [], ◌∷◌, arith, Bytes, codes,
  bytes_eq, ◌==◌, if◌then◌else◌,
}
use poprocks.Vsock.Errors.{ok, err, cannot_decode_stream}
use poprocks.Vsock.Source.{not_a_source}
use poprocks.Vsock.Message.{Message, shared}
use poprocks.Protocol.Types.{
  GoType, struct, pointer, io_reader, basic, uint32, other_kind, Interface, reader, stream_source,
  Field, FoundField, Reflection, depth, has_struct_tag, is_tagged,
}
use poprocks.Protocol.Types.Tags.{AnyTagged, own, inner, later, fields_of}
use poprocks.Protocol.Types.Depth.{has_struct_tag_ends, is_tagged_lem}
use poprocks.Protocol.Types.Streams.{GoValue, struct_of, address_of, decode_stream_payload}
use poprocks.Protocol.Types.Streams.Laws.{IsStreamPayload, HasType, decode_stream_payload_typed}
use poprocks.Protocol.Codec.{
  codec_json, codec_stream, infer_codec_type, Formats, new_codec, make_codec,
}
use poprocks.Protocol.Codec.Choice.{IsFormat, new_codec_lem}

abbrev untagged : GoType → Field
untagged t = record { tag = λ n. []; field_type = t }

abbrev with_json : GoType → Field
with_json t = record {
  tag = λ n. if bytes_eq n (codes "json") then codes "x" else [];
  field_type = t;
}

-- After the package's own: a node that points to a node and holds a leaf, the leaf, with a tag for
-- JSON, and an upload with a `Reader` and a `Length`.
abbrev pub node : GoType
node = struct 2

abbrev upload : GoType
upload = struct 4

abbrev limited : GoType
limited = basic other_kind 0

abbrev implements : GoType → Interface → Bool
implements io_reader reader = true
implements (struct i) stream_source = i == 0
implements (pointer (struct i)) stream_source = i == 0
implements (pointer (struct i)) reader = i == 5
implements _ _ = false

abbrev upload_field : Bytes → Option FoundField
upload_field n =
    if bytes_eq n (codes "Reader")
    then some (record { through_nil = false; can_set = true; found_type = io_reader })
    else if bytes_eq n (codes "Length")
    then some (record { through_nil = false; can_set = true; found_type = basic uint32 0 })
    else none

abbrev field_by_name : ℕ → Bytes → Option FoundField
field_by_name i n = if i == 4 then upload_field n else none

abbrev assignable : GoType → Bool
assignable io_reader = true
assignable _ = false

abbrev pub program : Reflection
program = record {
  structs =
      (untagged io_reader ∷ untagged (basic uint32 0) ∷ [])
      ∷ []
      ∷ (untagged (pointer node) ∷ untagged (struct 3) ∷ [])
      ∷ (with_json limited ∷ [])
      ∷ (untagged io_reader ∷ untagged (basic uint32 0) ∷ [])
      ∷ []
      ∷ [];
  implements = implements;
  field_by_name = field_by_name;
  assignable = assignable;
}

node-HasTag : AnyTagged program (codes "json") (fields_of program node)
unfolding bytes_eq
node-HasTag = later (inner (own (λ e. ground arith)))

is_tagged_example :
    (is_tagged program (codes "json") node ≡ true)
    ↔ AnyTagged program (codes "json") (fields_of program node)
is_tagged_example = is_tagged_lem program (codes "json") node

node_tagged : is_tagged program (codes "json") node ≡ true
unfolding is_tagged bytes_eq
node_tagged = refl

-- A node leads back to itself, and has no tag for YAML.
node_untagged : is_tagged program (codes "yaml") node ≡ false
unfolding is_tagged bytes_eq
node_untagged = refl

has_struct_tag_ends_example : has_struct_tag program (depth program) (codes "yaml") node [] ≢ none
has_struct_tag_ends_example = has_struct_tag_ends program (codes "yaml") node []

abbrev nodes : Formats ℕ
nodes = record {
  marshal = λ t v. ok (v ∷ []);
  unmarshal = λ t p. elim p [ [] ↦ err cannot_decode_stream | b ∷ bs ↦ ok b ];
  reflection = program;
  payload_type = pointer node;
  from_value = λ v. 0;
  as_payload = λ v. not_a_source;
}

node_codec : new_codec nodes 9 ≡ ok (make_codec 9 codec_json)
unfolding new_codec bytes_eq
node_codec = refl

new_codec_example : (new_codec nodes 9 ≡ ok (make_codec 9 codec_json)) ↔ (
    ◌≢◌ {A = ℕ} 9 0
    × IsFormat program (pointer node) codec_json
    × (make_codec 9 codec_json ≡ make_codec 9 codec_json))
new_codec_example = new_codec_lem nodes 9 (make_codec 9 codec_json)

abbrev framed : Message
framed = record {
  header = record { id = 7; msg_type = 3; length = 20 };
  payload_reader = some (shared 20);
  payload_cache = none;
}

upload_decodes :
    decode_stream_payload program (pointer upload) framed
    ≡ ok (address_of (struct_of 4 (shared 20) (some 20)))
unfolding decode_stream_payload bytes_eq
upload_decodes = refl

abbrev uploaded : GoValue
uploaded = address_of (struct_of 4 (shared 20) (some 20))

decode_stream_payload_typed_example :
    ((decode_stream_payload program (pointer upload) framed ≡ ok uploaded) ↔ (
      IsStreamPayload program (pointer upload)
      × HasType program framed (shared 20) (pointer upload) uploaded))
    × (((w : GoValue) × (decode_stream_payload program (pointer upload) framed ≡ ok w))
        ↔ IsStreamPayload program (pointer upload))
decode_stream_payload_typed_example =
    decode_stream_payload_typed program framed (shared 20) (pointer upload) uploaded refl

-- A file, say: a pointer that reads. It gets a stream codec, which cannot decode into it.
file_streams : infer_codec_type program (pointer (struct 5)) ≡ codec_stream
unfolding infer_codec_type bytes_eq
file_streams = refl

file_not_decoded :
    decode_stream_payload program (pointer (struct 5)) framed ≡ err cannot_decode_stream
unfolding decode_stream_payload bytes_eq
file_not_decoded = refl
