-- ===== src/Vsock/Message/Binary.antt =====
-- `Binary` and `ParseBinary` of vsock/message.go.
use poprocks.Prelude.{
  ℕ, ◌+◌, ◌-◌, ◌^◌, ◌≤◌, ◌<◌, ◌%◌, ◌≡◌, refl, ◌≢◌, ◌↔◌, ◌++◌, [], ◌∷◌, arith, length, drop,
  length-append, length-drop, drop_front, Bytes, All, some, none, sym, ap, ◌∙◌, take-append-drop,
}
use poprocks.Vsock.Errors.{ok, err, id_required, length_mismatch, header_too_short}
use poprocks.Vsock.Io
use poprocks.Vsock.Io.{Stream, bytes_reader}
use poprocks.Vsock.Wire.{Header, IsHeader, put_header, get_header}
use poprocks.Vsock.Wire.Laws.{
  IsByte, get_header-put_header, put_header-get_header, length-put_header, get_header_length,
}
use poprocks.Vsock.Message.{
  Message, validate, new_message, copied, own_bytes, binary, read_all, parse_binary,
}

-- A message made of a payload encodes to its header and the payload.
pub binary-new_message :
    (id t : ℕ) (p : Bytes)
    → binary (new_message id t p)
      ≡ put_header (record { id = id; msg_type = t; length = length p % 2 ^ 32 }) ++ p
unfolding binary new_message read_all Io.read_all
binary-new_message id t [] = ground arith
binary-new_message id t (b ∷ bs) = refl

-- The message that a header and a payload make.
abbrev pub parsed : Header → Bytes → Message
parsed h p = record { header = h; payload_reader = some (own_bytes p); payload_cache = copied p }

validate-parsed :
    (h : Header) (p : Bytes) → h.length ≡ length p → h.id ≢ 0 → validate (parsed h p) ≡ none
unfolding validate
validate-parsed h [] e nz = ground arith
validate-parsed h (b ∷ bs) e nz = ground arith

validate_no_id : (h : Header) (p : Bytes) → h.id ≡ 0 → validate (parsed h p) ≡ some id_required
unfolding validate
validate_no_id h p e = ground arith

-- `ParseBinary`, on every branch: what is too short, what declares another length than it has, and
-- what has no ID is refused, and all else gives the message of the header and the payload.
parse_binary_cases :
    (raw : Bytes)
    → (length raw < 16 → parse_binary raw ≡ err header_too_short)
      × (16 ≤ length raw
          → length raw - 16 ≢ (get_header raw).length
          → parse_binary raw ≡ err length_mismatch)
      × (16 ≤ length raw
          → length raw - 16 ≡ (get_header raw).length
          → (get_header raw).id ≡ 0
          → parse_binary raw ≡ err id_required)
      × (16 ≤ length raw
          → length raw - 16 ≡ (get_header raw).length
          → (get_header raw).id ≢ 0
          → parse_binary raw ≡ ok (parsed (get_header raw) (drop 16 raw)))
unfolding parse_binary new_message
parse_binary_cases raw = (
  λ h. ground arith,
  λ h k. ground arith,
  λ h k z. ground (arith, validate_no_id (get_header raw) (drop 16 raw) z),
  λ h k nz. ground (
    arith,
    validate-parsed (get_header raw) (drop 16 raw) (omega (arith, length-drop 16 raw)) nz,
  ),
)

parse_binary-put_header :
    (h : Header) (p : Bytes)
    → IsHeader h
    → h.length ≡ length p
    → h.id ≢ 0
    → parse_binary (put_header h ++ p) ≡ ok (parsed h p)
parse_binary-put_header h p v e nz =
    let raw = put_header h ++ p in
    let size : length raw ≡ 16 + length p =
      omega (arith, length-append (put_header h) p, length-put_header h) in
    let head : get_header raw ≡ h = get_header-put_header h p v in
    (parse_binary_cases raw).3 (omega arith) (rw head (omega arith)) (rw head nz)
    ∙ cc (head, drop_front 16 (put_header h) p (length-put_header h))

-- What `Binary` writes of a message that `NewMessage` made, `ParseBinary` reads back as that
-- message, if it has an ID, and the ID, the type and the length fit their fields.
pub parse_binary-binary :
    (id t : ℕ) (p : Bytes)
    → id ≢ 0
    → id < 2 ^ 64
    → t < 2 ^ 32
    → length p < 2 ^ 32
    → parse_binary (binary (new_message id t p)) ≡ ok (new_message id t p)
unfolding new_message
parse_binary-binary id t p nz hid ht hp =
    ap parse_binary (binary-new_message id t p)
    ∙ parse_binary-put_header (record { id = id; msg_type = t; length = length p % 2 ^ 32 }) p
        (omega arith) (omega arith) nz

binary-parsed :
    (h : Header) (p : Bytes)
    → binary (parsed h p) ≡ put_header (record h { length = length p % 2 ^ 32 }) ++ p
unfolding binary read_all Io.read_all
binary-parsed h [] = ground arith
binary-parsed h (b ∷ bs) = refl

parse_binary_inv :
    (raw : Bytes) (m : Message)
    → parse_binary raw ≡ ok m
    → (16 ≤ length raw)
      × (length raw - 16 ≡ (get_header raw).length)
      × (m ≡ parsed (get_header raw) (drop 16 raw))
unfolding parse_binary new_message
parse_binary_inv raw m e = ground arith

-- `ParseBinary` accepts exactly what has 16 bytes of header, as many bytes behind it as the
-- header says, and an ID that is not zero; the message is that of the header and the bytes.
pub parse_binary_iff :
    (raw : Bytes) (m : Message)
    → (parse_binary raw ≡ ok m) ↔ (
        (16 ≤ length raw)
        × (length raw - 16 ≡ (get_header raw).length)
        × ((get_header raw).id ≢ 0)
        × (m ≡ parsed (get_header raw) (drop 16 raw)))
parse_binary_iff raw m = (
  λ e.
      let (size, declared, made) = parse_binary_inv raw m e in
      let nz : (get_header raw).id ≢ 0 =
        λ z. ground (arith, (parse_binary_cases raw).2 size declared z) in
      (size, declared, nz, made),
  λ (size, declared, nz, made). (parse_binary_cases raw).3 size declared nz ∙ ap ok (sym made),
)

-- What `ParseBinary` accepts, `Binary` writes back byte for byte.
pub binary-parse_binary :
    (raw : Bytes) (m : Message) → All IsByte raw → parse_binary raw ≡ ok m → binary m ≡ raw
binary-parse_binary raw m bytes e =
    let (size, declared, made) = parse_binary_inv raw m e in
    let h = get_header raw in
    let p = drop 16 raw in
    let bound : h.length < 2 ^ 32 = get_header_length raw size bytes in
    let same : length p % 2 ^ 32 ≡ h.length = omega (arith, length-drop 16 raw) in
    ap binary made
    ∙ binary-parsed h p
    ∙ rw (same, put_header-get_header raw size bytes) (take-append-drop 16 raw)

-- A message that was made of a payload gives it back.
pub read_all-new_message :
    (id t : ℕ) (p : Bytes) (conn : Stream) → (read_all (new_message id t p) conn).0 ≡ ok p
unfolding new_message read_all Io.read_all
read_all-new_message id t [] conn = ground arith
read_all-new_message id t (b ∷ bs) conn = refl

pub header-new_message :
    (id t : ℕ) (p : Bytes)
    → (new_message id t p).header ≡ record { id = id; msg_type = t; length = length p % 2 ^ 32 }
unfolding new_message
header-new_message id t p = refl
