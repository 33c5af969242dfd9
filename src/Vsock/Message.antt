-- ===== src/Vsock/Message.antt =====
-- vsock/message.go. A message that `Serve` hands out reads its payload off the connection itself;
-- the connection is an argument of each operation, and comes back with what is left of it.
pub mod Laws
pub mod Binary
use poprocks.Prelude.{
  ℕ, zero, suc, ◌+◌, ◌-◌, ◌%◌, ◌^◌, ◌==◌, ltb, not, Bool, ◌&&◌, Option, none, some, List, [], ◌∷◌,
  ◌++◌, length, take, drop, if◌then◌else◌, Bytes,
}
use poprocks.Vsock.Errors.{
  Error, Result, ok, err, or_err, id_required, length_mismatch, header_too_short, nil_message,
  writer_required,
}
use poprocks.Vsock.Io
use poprocks.Vsock.Io.{Stream, LimitedReader, bytes_reader}
use poprocks.Vsock.Wire.{Header, header_length, put_header, get_header}

-- The `*io.LimitedReader` of a message: over the connection, with its `N`, or over a reader that
-- only this message has.
pub data PayloadReader : Type 0 where
  shared : ℕ → PayloadReader
  own : LimitedReader → PayloadReader

pub record Message : Type 0 where
  pub header : Header
  pub open header use *
  pub payload_reader : Option PayloadReader
  pub payload_cache : Option Bytes

-- `(*Message).Validate`
unfoldable pub validate : Message → Option Error
validate m = if m.id == 0 then some id_required else elim m.payload_cache [
  | none ↦ none
  | some p ↦ if length p == m.length then none else some length_mismatch
]

-- `append([]byte(nil), payload...)` is nil when there is nothing to copy.
abbrev pub copied : Bytes → Option Bytes
copied [] = none
copied (b ∷ bs) = some (b ∷ bs)

-- A reader of its own over bytes, limited to their number.
abbrev pub own_bytes : Bytes → PayloadReader
own_bytes p = own (record { source = bytes_reader p; remaining = length p })

-- `NewMessage`
unfoldable pub new_message : ℕ → ℕ → Bytes → Message
new_message id msg_type payload = record {
  header = record { id = id; msg_type = msg_type; length = length payload % 2 ^ 32 };
  payload_reader = some (own_bytes payload);
  payload_cache = copied payload;
}

-- `newMessageFromHeader(msg, m.vsock)`
unfoldable pub new_message_from_header : Header → Message
new_message_from_header h = record {
  header = h;
  payload_reader = some (shared h.length);
  payload_cache = none;
}

-- `io.ReadAll` and `io.Copy` of a message's reader.
unfoldable pub read_rest : PayloadReader → Stream → Bytes × Option Error × PayloadReader × Stream
unfolding Io.read_all
read_rest (shared n) conn =
    let (bs, e, r) = Io.read_all (record { source = conn; remaining = n }) in
    (bs, e, shared r.remaining, r.source)
read_rest (own r) conn = let (bs, e, r') = Io.read_all r in (bs, e, own r', conn)

-- What `ReadAll` does once the payload has been read: it is cached, and read again from there.
abbrev keep :
    Message → Bytes × Option Error × PayloadReader × Stream → Result Bytes × Message × Stream
keep m (bs, none, r, conn) =
    (ok bs, record m { payload_reader = some (own_bytes bs); payload_cache = some bs }, conn)
keep m (bs, some e, r, conn) = (err e, record m { payload_reader = some r }, conn)

-- `(*Message).ReadAll`
unfoldable pub read_all : Message → Stream → Result Bytes × Message × Stream
unfolding read_rest
read_all m conn = elim m.payload_cache [
  | some p ↦ (ok p, m, conn)
  | none ↦ elim m.payload_reader [
    | none ↦ if m.length == 0 then (ok [], m, conn) else (err nil_message, m, conn)
    | some r ↦ keep m (read_rest r conn)
  ]
]

-- The writer that `WriteTo` gets: none, or one that takes every byte.
pub data Writer : Type 0 where
  absent sink : Writer

-- `(*Message).WriteTo`: the bytes written, the error, the message and the connection afterwards.
unfoldable pub write_to : Message → Writer → Stream → Bytes × Option Error × Message × Stream
unfolding read_rest
write_to m absent conn = ([], some writer_required, m, conn)
write_to m sink conn = elim m.payload_cache [
  | some p ↦ (p, none, m, conn)
  | none ↦ elim m.payload_reader [
    | none ↦ if m.length == 0 then ([], none, m, conn) else ([], some nil_message, m, conn)
    | some r ↦
        let (bs, e, r', conn') = read_rest r conn in
        (bs, e, record m { payload_reader = some r' }, conn')
  ]
]

-- The `N` of a message's reader.
abbrev pub left : PayloadReader → ℕ
left (shared n) = n
left (own r) = r.remaining

-- `(*Message).drain`
unfoldable pub drain : Message → Stream → Option Error × Message × Stream
unfolding read_rest
drain m conn = elim m.payload_reader [
  | none ↦ (none, m, conn)
  | some r ↦
      let (bs, e, r', conn') = read_rest r conn in
      if left r == 0 then (none, m, conn) else (e, record m { payload_reader = some r' }, conn')
]

-- `(*Message).Binary`, of a message that does not read from a connection; nil if `ReadAll` fails.
unfoldable pub binary : Message → Bytes
binary m = elim (read_all m (bytes_reader [])).0 [
  | err e ↦ []
  | ok p ↦ put_header (record m.header { length = length p % 2 ^ 32 }) ++ p
]

-- `ParseBinary`
unfoldable pub parse_binary : Bytes → Result Message
unfolding new_message
parse_binary raw =
    let h = get_header raw in
    let msg = record (new_message h.id h.msg_type (drop header_length raw)) { header = h } in
    if ltb (length raw) header_length
    then err header_too_short
    else if length raw - header_length == h.length
    then or_err (validate msg) msg
    else err length_mismatch
