-- ===== src/Vsock/Message/Laws.antt =====
-- `ReadAll`, `WriteTo` and `drain` of vsock/message.go, for a message that stands on the connection.
use poprocks.Prelude.{
  ℕ, ◌-◌, ◌≡◌, refl, ap, ◌∙◌, inl, inr, Option, none, some, Option-cases, arith, length, take, drop,
  length-take, drop-length, drop_none, drop-nil, Bytes,
}
use poprocks.Vsock.Errors.{Error, eof, ok}
use poprocks.Vsock.Io
use poprocks.Vsock.Io.{Stream, content, failure}
use poprocks.Vsock.Io.Laws.{fill_bytes, fill_rest, failure-fill, read_all_eof, failure-bytes_reader}
use poprocks.Vsock.Wire.{Header}
use poprocks.Vsock.Message.{
  PayloadReader, shared, own, Message, new_message_from_header, read_rest, keep, read_all, drain,
  write_to, sink,
}

-- How much of the connection belongs to the message.
abbrev pub pending : Option PayloadReader → ℕ
pending none = 0
pending (some (shared n)) = n
pending (some (own r)) = 0

-- What the connection holds beyond the message.
abbrev pub beyond : Message → Stream → Bytes
beyond m conn = drop (pending m.payload_reader) (content conn)

drop_behind : (n : ℕ) (c bs : Bytes) → bs ≡ take n c → drop (n - length bs) (drop n c) ≡ drop n c
drop_behind n c bs e = ground (
  arith,
  ap length e,
  length-take n c,
  drop-length n c,
  drop-nil {A = ℕ} (n - length bs),
  drop_none (n - length bs) (drop n c),
)

read_rest-pending :
    (r : PayloadReader) (conn : Stream)
    → drop (pending (some (read_rest r conn).2)) (content (read_rest r conn).3)
      ≡ drop (pending (some r)) (content conn)
unfolding read_rest Io.read_all
read_rest-pending (shared n) conn =
    rw (fill_rest conn n) (drop_behind n (content conn) (Io.fill conn n).0 (fill_bytes conn n))
read_rest-pending (own r) conn = refl

-- A reader over the connection leaves it behind the message.
read_rest_conn :
    (r : PayloadReader) (conn : Stream)
    → content (read_rest r conn).3 ≡ drop (pending (some r)) (content conn)
unfolding read_rest Io.read_all
read_rest_conn (shared n) conn = fill_rest conn n
read_rest_conn (own r) conn = refl

failure-read_rest :
    (r : PayloadReader) (conn : Stream) → failure (read_rest r conn).3 ≡ failure conn
unfolding read_rest Io.read_all
failure-read_rest (shared n) conn = failure-fill conn n
failure-read_rest (own r) conn = refl

beyond-keep :
    (m : Message) (r : PayloadReader) (conn : Stream)
    → beyond (keep m (read_rest r conn)).1 (keep m (read_rest r conn)).2
      ≡ drop (pending (some r)) (content conn)
beyond-keep m r conn = ground (arith, read_rest_conn r conn, read_rest-pending r conn)

-- `ReadAll` reads nothing of the connection beyond its message.
pub read_all-beyond :
    (m : Message) (conn : Stream) → beyond (read_all m conn).1 (read_all m conn).2 ≡ beyond m conn
unfolding read_all
read_all-beyond m conn = elim (Option-cases m.payload_cache) [
  | inl c ↦ elim (Option-cases m.payload_reader) [
    | inl n ↦ ground arith
    | inr (r, p) ↦ ground (arith, beyond-keep m r conn)
  ]
  | inr (p, c) ↦ rw c
]

-- A message off the connection: its payload is what stands there of its length.
pub read_all-new_message_from_header :
    (h : Header) (conn : Stream)
    → failure conn ≡ eof
    → ((read_all (new_message_from_header h) conn).0 ≡ ok (take h.length (content conn)))
      × (content (read_all (new_message_from_header h) conn).2 ≡ drop h.length (content conn))
unfolding read_all new_message_from_header
read_all-new_message_from_header h conn e = ground (
  arith,
  fill_bytes conn h.length,
  fill_rest conn h.length,
  read_all_eof (record { source = conn; remaining = h.length }) e,
)

-- A `ReadAll` after one that succeeded gives the same bytes, and changes neither the message nor
-- the connection.
pub read_all_again :
    (m : Message) (conn : Stream) {p : Bytes}
    → (read_all m conn).0 ≡ ok p
    → read_all (read_all m conn).1 (read_all m conn).2
      ≡ (ok p, (read_all m conn).1, (read_all m conn).2)
unfolding read_all
read_all_again m conn e = ground arith

drain_reader :
    (m : Message) (conn : Stream) (r : PayloadReader)
    → m.payload_reader ≡ some r
    → content (drain m conn).2 ≡ beyond m conn
unfolding drain
drain_reader m conn (shared n) e =
    ground (arith, read_rest_conn (shared n) conn, drop_none n (content conn))
drain_reader m conn (own r) e = ground (arith, read_rest_conn (own r) conn)

-- `drain` leaves the connection right behind the message, however much of its payload was read
-- before.
pub drain-beyond : (m : Message) (conn : Stream) → content (drain m conn).2 ≡ beyond m conn
unfolding drain
drain-beyond m conn = elim (Option-cases m.payload_reader) [
  | inl n ↦ rw n
  | inr (r, p) ↦ drain_reader m conn r p
]

-- How the reader of a message ends.
abbrev pub reader_failure : Option PayloadReader → Stream → Error
reader_failure none conn = eof
reader_failure (some (shared n)) conn = failure conn
reader_failure (some (own r)) conn = failure r.source

read_rest_eof :
    (r : PayloadReader) (conn : Stream)
    → reader_failure (some r) conn ≡ eof
    → (read_rest r conn).1 ≡ none
unfolding read_rest
read_rest_eof (shared n) conn e = read_all_eof (record { source = conn; remaining = n }) e
read_rest_eof (own r) conn e = read_all_eof r e

-- A reader that ends cleanly is drained without an error, also when its message was cut off.
pub drain_eof :
    (m : Message) (conn : Stream)
    → reader_failure m.payload_reader conn ≡ eof
    → (drain m conn).0 ≡ none
unfolding drain
drain_eof m conn e = elim (Option-cases m.payload_reader) [
  | inl n ↦ rw n
  | inr (r, p) ↦ ground (arith, read_rest_eof r conn)
]

-- What reading off the connection leaves: everything behind the message, and a clean end.
pub record LeavesRest (h : Header) (before : Stream) (m : Message) (conn : Stream) : Type 0 where
  pub behind : beyond m conn ≡ drop h.length (content before)
  pub ends : failure conn ≡ eof
  pub reader_ends : reader_failure m.payload_reader conn ≡ eof

-- `WriteTo` of a message off the connection moves its payload.
pub write_to-new_message_from_header :
    (h : Header) (conn : Stream)
    → failure conn ≡ eof
    → let w = write_to (new_message_from_header h) sink conn in
      (w.0 ≡ take h.length (content conn)) × (w.1 ≡ none) × LeavesRest h conn w.2 w.3
unfolding write_to new_message_from_header
write_to-new_message_from_header h conn e = (
  fill_bytes conn h.length,
  read_rest_eof (shared h.length) conn e,
  record {
    behind = read_rest-pending (shared h.length) conn;
    ends = failure-read_rest (shared h.length) conn ∙ e;
    reader_ends = failure-fill conn h.length ∙ e;
  },
)

-- So does `ReadAll`.
pub read_all-LeavesRest :
    (h : Header) (conn : Stream)
    → failure conn ≡ eof
    → let w = read_all (new_message_from_header h) conn in LeavesRest h conn w.1 w.2
unfolding read_all new_message_from_header
read_all-LeavesRest h conn e =
    let z = read_rest_eof (shared h.length) conn e in
    record {
      behind = ground (arith, z, fill_rest conn h.length);
      ends = ground (arith, z, failure-fill conn h.length);
      reader_ends = ground (arith, z, failure-bytes_reader (Io.fill conn h.length).0);
    }

pub failure-drain :
    (m : Message) (conn : Stream) → failure conn ≡ eof → failure (drain m conn).2 ≡ eof
unfolding drain
failure-drain m conn e = elim (Option-cases m.payload_reader) [
  | inl n ↦ ground arith
  | inr (r, p) ↦ ground (arith, failure-read_rest r conn)
]

pub header-new_message_from_header : (h : Header) → (new_message_from_header h).header ≡ h
unfolding new_message_from_header
header-new_message_from_header h = refl
