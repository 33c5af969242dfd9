-- ===== src/Vsock/Wire.antt =====
-- vsock/message.go and vsock/stream.go: the 16-byte header of a frame, in `encoding/binary`'s big
-- endian order.
pub mod Laws
use poprocks.Prelude.{
  ℕ, zero, suc, ◌+◌, ◌*◌, ◌/◌, ◌%◌, ◌^◌, ◌<◌, List, [], ◌∷◌, ◌++◌, take, drop, Bytes,
}

-- `PutUint16`, `PutUint32` and `PutUint64` are widths 2, 4 and 8: `w` bytes, the highest first.
unfoldable pub put_uint : ℕ → ℕ → Bytes
put_uint zero n = []
put_uint (suc w) n = put_uint w (n / 256) ++ (n % 256 ∷ [])

-- `Uint16`, `Uint32` and `Uint64` of as many bytes.
unfoldable pub uint_from : ℕ → Bytes → ℕ
uint_from acc [] = acc
uint_from acc (b ∷ bs) = uint_from (acc * 256 + b) bs

unfoldable pub uint : Bytes → ℕ
unfolding uint_from
uint bs = uint_from 0 bs

-- 8-byte ID, 4-byte type, 4-byte length.
abbrev pub header_length : ℕ
header_length = 16

pub record Header : Type 0 where
  pub id : ℕ
  pub msg_type : ℕ
  pub length : ℕ

-- The header that `Binary` and `sendStreamOnce` write.
unfoldable pub put_header : Header → Bytes
put_header h = put_uint 8 h.id ++ (put_uint 4 h.msg_type ++ put_uint 4 h.length)

-- The header that `ParseBinary` and `readHeader` take from its bytes.
unfoldable pub get_header : Bytes → Header
unfolding uint
get_header raw = record {
  id = uint (take 8 raw);
  msg_type = uint (take 4 (drop 8 raw));
  length = uint (take 4 (drop 12 raw));
}

-- The fields of a Go `Header`: `uint64`, `uint32`, `uint32`.
pub record IsHeader (h : Header) : Type 0 where
  pub id_fits : h.id < 2 ^ 64
  pub type_fits : h.msg_type < 2 ^ 32
  pub length_fits : h.length < 2 ^ 32
