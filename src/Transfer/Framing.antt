-- ===== src/Transfer/Framing.antt =====
-- `encodeTransferBodyHeader`, `decodeTransferBodyHeader` and `StreamSource` of
-- vsock/protocol/common/file_transfer.go: the transfer's ID in front of the body.
use poprocks.Prelude.{
  ℕ, ◌+◌, ◌-◌, ◌^◌, ◌≤◌, ◌<◌, ◌≡◌, refl, ap, ◌∙◌, ◌≢◌, ltb, ◌==◌, Option, none, some, [], ◌++◌,
  append_assoc, arith, length, take_front, drop_front, length-append, if◌then◌else◌, Bytes,
}
use poprocks.Vsock.Errors.{
  Result, ok, err, reader_required, id_required, id_too_large, message_too_large,
}
use poprocks.Vsock.Io.{Stream, content, failure, read_full}
use poprocks.Vsock.Io.Laws.{read_full_bytes, read_full_rest, failure-read_full, read_full_whole}
use poprocks.Vsock.Wire.{put_uint, uint}
use poprocks.Vsock.Wire.Laws.{length-put_uint, uint-put_uint}

-- `encodeTransferBodyHeader`
unfoldable pub encode_transfer_body_header : Bytes → Result Bytes
encode_transfer_body_header id =
    if length id == 0
    then err id_required
    else if ltb 65535 (length id)
    then err id_too_large
    else ok (put_uint 2 (length id) ++ id)

-- `decodeTransferBodyHeader`: the ID, and what is left of the reader.
unfoldable pub decode_transfer_body_header : Stream → Result Bytes × Stream
decode_transfer_body_header r =
    let (bs, e, r1) = read_full r 2 in
    let n = uint bs in
    let (id, e', r2) = read_full r1 n in
    elim e [
      | some x ↦ (err x, r1)
      | none ↦
          if n == 0
          then (err id_required, r1)
          else elim e' [ some x ↦ (err x, r2) | none ↦ (ok id, r2) ]
    ]

-- `(fileTransferBody).StreamSource`: the header that goes in front of the reader, and the total
-- length. The reader may be nil.
unfoldable pub stream_source {ℓ} : {R : Type ℓ} → Bytes → Option R → ℕ → Result (Bytes × R × ℕ)
unfolding encode_transfer_body_header
stream_source id none n = err reader_required
stream_source id (some r) n = elim (encode_transfer_body_header id) [
  | err e ↦ err e
  | ok header ↦
      let total = length header + n in
      if ltb (2 ^ 32 - 1) total then err message_too_large else ok (header, r, total)
]

-- The header is written for an ID of 1 to 65535 bytes.
pub encode_transfer_body_header_ok :
    (id : Bytes)
    → id ≢ []
    → length id < 2 ^ 16
    → encode_transfer_body_header id ≡ ok (put_uint 2 (length id) ++ id)
unfolding encode_transfer_body_header
encode_transfer_body_header_ok id nz h = ground arith

encode_inv :
    (id header : Bytes)
    → encode_transfer_body_header id ≡ ok header
    → (0 < length id) × (length id < 2 ^ 16) × (header ≡ put_uint 2 (length id) ++ id)
unfolding encode_transfer_body_header
encode_inv id header e = ground arith

-- What `encodeTransferBodyHeader` writes for an ID, `decodeTransferBodyHeader` reads back from a
-- reader that starts with it, and it leaves the body in the reader, with the same end.
pub decode-encode_transfer_body_header :
    (id : Bytes) (header body : Bytes) (r : Stream)
    → encode_transfer_body_header id ≡ ok header
    → content r ≡ header ++ body
    → ((decode_transfer_body_header r).0 ≡ ok id)
      × (content (decode_transfer_body_header r).1 ≡ body)
      × (failure (decode_transfer_body_header r).1 ≡ failure r)
unfolding decode_transfer_body_header
decode-encode_transfer_body_header id header body r e c =
    let (some_id, bound, made) = encode_inv id header e in
    let front = put_uint 2 (length id) in
    let size = length-put_uint 2 (length id) in
    let c' : content r ≡ front ++ (id ++ body) = c ∙ rw made (append_assoc front id body) in
    let r1 = (read_full r 2).2 in
    let enough : 2 ≤ length (content r) =
      omega (arith, ap length c', length-append front (id ++ body), size) in
    let bytes : (read_full r 2).0 ≡ front =
      read_full_bytes r 2 ∙ rw c' (take_front 2 front (id ++ body) size) in
    let behind : content r1 ≡ id ++ body =
      read_full_rest r 2 ∙ rw c' (drop_front 2 front (id ++ body) size) in
    let n : uint (read_full r 2).0 ≡ length id =
      ap uint bytes ∙ uint-put_uint 2 (length id) bound in
    let enough' : length id ≤ length (content r1) =
      omega (arith, ap length behind, length-append id body) in
    let bytes' : (read_full r1 (length id)).0 ≡ id =
      read_full_bytes r1 (length id) ∙ rw behind (take_front (length id) id body refl) in
    let behind' : content (read_full r1 (length id)).2 ≡ body =
      read_full_rest r1 (length id) ∙ rw behind (drop_front (length id) id body refl) in
    ground (
      arith,
      read_full_whole r 2 enough,
      read_full_whole r1 (length id) enough',
      failure-read_full r 2,
      failure-read_full r1 (length id),
    )
