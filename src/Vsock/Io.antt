-- ===== src/Vsock/Io.antt =====
-- Go's `io.Reader` as the schedule of what its `Read` calls will give, with `io.ReadFull`,
-- `io.ReadAll` and `bytes.NewReader` over it.
pub mod Laws
use poprocks.Prelude.{
  ℕ, zero, suc, ◌+◌, ◌-◌, ◌==◌, Bool, true, false, Option, none, some, List, [], ◌∷◌, ◌++◌, leb,
  length, take, drop, if◌then◌else◌, Bytes,
}
use poprocks.Vsock.Errors.{Error, eof, unexpected_eof, is_eof}

-- `chunk bs s`: the next reads give `bs`, a read at most all of them, and go on as `s`.
-- `last bs e`: the error comes along with the last of the bytes. `ended e`: nothing is left.
pub data Stream : Type 0 where
  chunk : Bytes → Stream → Stream
  last : Bytes → Error → Stream
  ended : Error → Stream

-- `Read` into a buffer of `n` bytes: the bytes, the error if any, and the reader afterwards.
unfoldable pub read : Stream → ℕ → Bytes × Option Error × Stream
read (chunk bs s) n =
    if leb (length bs) n then (bs, none, s) else (take n bs, none, chunk (drop n bs) s)
read (last bs e) n =
    if leb (length bs) n then (bs, some e, ended e) else (take n bs, none, last (drop n bs) e)
read (ended e) n = ([], some e, ended e)

-- All bytes that a reader will give, and the error after them.
abbrev pub content : Stream → Bytes
content (chunk bs s) = bs ++ content s
content (last bs e) = bs
content (ended e) = []

abbrev pub failure : Stream → Error
failure (chunk bs s) = failure s
failure (last bs e) = e
failure (ended e) = e

-- More than the reads into buffers that are not empty which the reader can serve.
abbrev pub weight : Stream → ℕ
weight (chunk bs s) = suc (length bs + weight s)
weight (last bs e) = suc (length bs)
weight (ended e) = 0

-- `bytes.NewReader(bs)`
abbrev pub bytes_reader : Bytes → Stream
bytes_reader [] = ended eof
bytes_reader (b ∷ bs) = chunk (b ∷ bs) (ended eof)

-- Reads until `n` bytes have come, or an error with or behind the last of them.
unfoldable pub fill : Stream → ℕ → Bytes × Option Error × Stream
fill (chunk bs s) n =
    let rest = fill s (n - length bs) in
    if n == 0
    then ([], none, chunk bs s)
    else if leb (length bs) n
    then (bs ++ rest.0, rest.1, rest.2)
    else (take n bs, none, chunk (drop n bs) s)
fill (last bs e) n =
    if n == 0
    then ([], none, last bs e)
    else if leb (length bs) n
    then (bs, some e, ended e)
    else (take n bs, none, last (drop n bs) e)
fill (ended e) n = if n == 0 then ([], none, ended e) else ([], some e, ended e)

abbrev full_error : Bool → Bytes → Option Error → Option Error
full_error true bs err = none
full_error false (b ∷ bs) (some eof) = some unexpected_eof
full_error false _ err = err

-- `io.ReadFull` into a buffer of `n` bytes.
unfoldable pub read_full : Stream → ℕ → Bytes × Option Error × Stream
unfolding fill
read_full s n = let (bs, err, rest) = fill s n in (bs, full_error (length bs == n) bs err, rest)

-- `io.LimitedReader`: at most `remaining` bytes of `source`.
pub record LimitedReader : Type 0 where
  pub source : Stream
  pub remaining : ℕ

-- For `io.ReadAll` and `io.Copy` the end of the input is no error.
abbrev pub unless_eof : Option Error → Option Error
unless_eof (some eof) = none
unless_eof err = err

-- `io.ReadAll(r)`; `io.Copy` from `r` moves the same bytes.
unfoldable pub read_all : LimitedReader → Bytes × Option Error × LimitedReader
unfolding fill
read_all r =
    let (bs, err, rest) = fill r.source r.remaining in
    (bs, unless_eof err, record { source = rest; remaining = r.remaining - length bs })
