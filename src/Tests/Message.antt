-- ===== src/Tests/Message.antt =====
-- Messages and frames as bytes: vsock/message.go.
use poprocks.Prelude.{◌≡◌, refl, [], ◌∷◌, arith, Bytes, All}
use poprocks.Vsock.Errors.{eof, ok}
use poprocks.Vsock.Io
use poprocks.Vsock.Io.{Stream, chunk, ended, content, fill}
use poprocks.Vsock.Wire.{Header, IsHeader, get_header, uint, uint_from}
use poprocks.Vsock.Wire.Laws.{IsByte}
use poprocks.Vsock.Message.{
  Message, new_message, new_message_from_header, validate, binary, parse_binary, read_all,
  read_rest,
}
use poprocks.Vsock.Message.Binary.{parsed, parse_binary-binary, binary-parse_binary}

-- A frame of ID 7 and type 3 with the payload 10, 20.
abbrev raw : Bytes
raw = 0 ∷ 0 ∷ 0 ∷ 0 ∷ 0 ∷ 0 ∷ 0 ∷ 7 ∷ 0 ∷ 0 ∷ 0 ∷ 3 ∷ 0 ∷ 0 ∷ 0 ∷ 2 ∷ 10 ∷ 20 ∷ []

abbrev header : Header
header = record { id = 7; msg_type = 3; length = 2 }

-- The connection behind the header, with the next frame's first bytes.
abbrev conn : Stream
conn = chunk (10 ∷ []) (chunk (20 ∷ 0 ∷ 0 ∷ []) (ended eof))

header-IsHeader : IsHeader header
header-IsHeader = record {
  id_fits = omega arith;
  type_fits = omega arith;
  length_fits = omega arith;
}

raw_parses : parse_binary raw ≡ ok (parsed header (10 ∷ 20 ∷ []))
unfolding parse_binary get_header uint uint_from validate new_message
raw_parses = refl

raw_bytes : All IsByte raw
raw_bytes = ground arith

parse_binary-binary_example :
    parse_binary (binary (new_message 7 3 (10 ∷ 20 ∷ []))) ≡ ok (new_message 7 3 (10 ∷ 20 ∷ []))
parse_binary-binary_example =
    parse_binary-binary 7 3 (10 ∷ 20 ∷ []) (omega arith) (omega arith) (omega arith) (omega arith)

binary-parse_binary_example : binary (parsed header (10 ∷ 20 ∷ [])) ≡ raw
binary-parse_binary_example =
    binary-parse_binary raw (parsed header (10 ∷ 20 ∷ [])) raw_bytes raw_parses

-- The message on the connection, read once.
abbrev message : Message
message = new_message_from_header header

message_reads : (read_all message conn).0 ≡ ok (10 ∷ 20 ∷ [])
unfolding read_all new_message_from_header read_rest Io.read_all fill
message_reads = refl
