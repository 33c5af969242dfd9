-- ===== src/Vsock/Io/Laws.antt =====
-- The calls of `Io`, by the content of the reader.
use poprocks.Prelude.{
  ℕ, ◌-◌, ◌≤◌, ◌<◌, ◌≡◌, refl, none, some, [], ◌∷◌, ◌++◌, append_assoc, append-nil, arith, length,
  take, drop, length-append, length-take, length-drop, take-append, drop-append, take-append-drop,
  take-length, drop-length, take_none, drop_none, take-nil, drop-nil, Bytes, ◌⊎◌, Option-cases, inl,
  inr,
}
use poprocks.Vsock.Errors.{Error, eof, unexpected_eof}
use poprocks.Vsock.Io.{
  Stream, chunk, last, ended, read, content, failure, weight, bytes_reader, fill, read_full,
  LimitedReader, read_all,
}

pub content-bytes_reader : (bs : Bytes) → content (bytes_reader bs) ≡ bs
content-bytes_reader [] = refl
content-bytes_reader (b ∷ bs) = append-nil (b ∷ bs)

pub failure-bytes_reader : (bs : Bytes) → failure (bytes_reader bs) ≡ eof
failure-bytes_reader [] = refl
failure-bytes_reader (b ∷ bs) = refl

-- A read takes the bytes off the front of the content.
pub read-content : (s : Stream) (n : ℕ) → (read s n).0 ++ content (read s n).2 ≡ content s
unfolding read
read-content (chunk bs s) n =
    ground (arith, append_assoc (take n bs) (drop n bs) (content s), take-append-drop n bs)
read-content (last bs e) n = ground (arith, append-nil bs, take-append-drop n bs)
read-content (ended e) n = refl

pub length-read : (s : Stream) (n : ℕ) → length (read s n).0 ≤ n
unfolding read
length-read (chunk bs s) n = ground (arith, length-take n bs)
length-read (last bs e) n = ground (arith, length-take n bs)
length-read (ended e) n = omega arith

-- A read that reports an error has reached the end.
pub read_error :
    (s : Stream) (n : ℕ) (e : Error)
    → (read s n).1 ≡ some e
    → (e ≡ failure s) × (content (read s n).2 ≡ [])
unfolding read
read_error (chunk bs s) n e h = ground arith
read_error (last bs x) n e h = ground arith
read_error (ended x) n e h = ground arith

pub failure-read : (s : Stream) (n : ℕ) → failure (read s n).2 ≡ failure s
unfolding read
failure-read (chunk bs s) n = ground arith
failure-read (last bs x) n = ground arith
failure-read (ended x) n = refl

pub weight-read :
    (s : Stream) (n : ℕ) → 0 < n → (read s n).1 ≡ none → weight (read s n).2 < weight s
unfolding read
weight-read (chunk bs s) n h e = ground (arith, length-drop n bs)
weight-read (last bs x) n h e = ground (arith, length-drop n bs)
weight-read (ended x) n h e = ground arith

-- `fill` takes `n` bytes off the front of the content.
pub fill_bytes : (s : Stream) (n : ℕ) → (fill s n).0 ≡ take n (content s)
unfolding fill
fill_bytes (chunk bs s) n = ground (
  arith,
  fill_bytes s (n - length bs),
  take-append n bs (content s),
  take-length n bs,
  take_none n (bs ++ content s),
  take_none (n - length bs) (content s),
  append-nil (take n bs),
)
fill_bytes (last bs e) n = ground (arith, take-length n bs, take_none n bs)
fill_bytes (ended e) n = ground (arith, take-nil {A = ℕ} n)

pub fill_rest : (s : Stream) (n : ℕ) → content (fill s n).2 ≡ drop n (content s)
unfolding fill
fill_rest (chunk bs s) n = ground (
  arith,
  fill_rest s (n - length bs),
  drop-append n bs (content s),
  drop-length n bs,
  drop_none n (bs ++ content s),
  drop_none (n - length bs) (content s),
)
fill_rest (last bs e) n = ground (arith, drop-length n bs, drop_none n bs)
fill_rest (ended e) n = ground (arith, drop-nil {A = ℕ} n)

-- No error means that all `n` bytes came; an error is the reader's own, at its end.
pub fill_complete : (s : Stream) (n : ℕ) → (fill s n).1 ≡ none → n ≤ length (content s)
unfolding fill
fill_complete (chunk bs s) n h =
    ground (arith, fill_complete s (n - length bs), length-append bs (content s))
fill_complete (last bs e) n h = ground arith
fill_complete (ended e) n h = ground arith

pub fill_error :
    (s : Stream) (n : ℕ) (e : Error)
    → (fill s n).1 ≡ some e
    → (e ≡ failure s) × (length (content s) ≤ n) × ((fill s n).2 ≡ ended e)
unfolding fill
fill_error (chunk bs s) n e h =
    ground (arith, fill_error s (n - length bs) e, length-append bs (content s))
fill_error (last bs x) n e h = ground arith
fill_error (ended x) n e h = ground arith

pub failure-fill : (s : Stream) (n : ℕ) → failure (fill s n).2 ≡ failure s
unfolding fill
failure-fill (chunk bs s) n = ground (arith, failure-fill s (n - length bs))
failure-fill (last bs x) n = ground arith
failure-fill (ended x) n = ground arith

pub fill_short : (s : Stream) (n : ℕ) → length (content s) < n → (fill s n).1 ≡ some (failure s)
unfolding fill
fill_short (chunk bs s) n h =
    ground (arith, fill_short s (n - length bs), length-append bs (content s))
fill_short (last bs e) n h = ground arith
fill_short (ended e) n h = ground arith

pub read_full_bytes : (s : Stream) (n : ℕ) → (read_full s n).0 ≡ take n (content s)
unfolding read_full
read_full_bytes s n = fill_bytes s n

pub read_full_rest : (s : Stream) (n : ℕ) → content (read_full s n).2 ≡ drop n (content s)
unfolding read_full
read_full_rest s n = fill_rest s n

pub failure-read_full : (s : Stream) (n : ℕ) → failure (read_full s n).2 ≡ failure s
unfolding read_full
failure-read_full s n = failure-fill s n

-- `io.ReadFull` succeeds exactly when the bytes are there.
pub read_full_whole : (s : Stream) (n : ℕ) → n ≤ length (content s) → (read_full s n).1 ≡ none
unfolding read_full
read_full_whole s n h = ground (arith, fill_bytes s n, length-take n (content s))

-- At a clean end between two frames it gives `io.EOF` itself.
pub read_full_end :
    (s : Stream) (n : ℕ) → 0 < n → content s ≡ [] → (read_full s n).1 ≡ some (failure s)
unfolding read_full
read_full_end s n h e = ground (arith, fill_bytes s n, fill_short s n, take-nil {A = ℕ} n)

pub read_full_cut :
    (s : Stream) (n : ℕ)
    → 0 < length (content s)
    → length (content s) < n
    → failure s ≡ eof
    → (read_full s n).1 ≡ some unexpected_eof
unfolding read_full
read_full_cut s n h k e = ground (arith, fill_bytes s n, fill_short s n, take-length n (content s))

-- `io.ReadAll` of a limited reader: what is there of the limit, and no error where the input just ends.
pub read_all_bytes : (r : LimitedReader) → (read_all r).0 ≡ take r.remaining (content r.source)
unfolding read_all
read_all_bytes r = fill_bytes r.source r.remaining

pub read_all_rest :
    (r : LimitedReader) → content (read_all r).2.source ≡ drop r.remaining (content r.source)
unfolding read_all
read_all_rest r = fill_rest r.source r.remaining

pub read_all_eof : (r : LimitedReader) → failure r.source ≡ eof → (read_all r).1 ≡ none
unfolding read_all
read_all_eof r e = elim (Option-cases (fill r.source r.remaining).1) [
  | inl h ↦ rw h
  | inr (x, h) ↦ rw (h, (fill_error r.source r.remaining x h).0, e)
]

pub failure-read_all : (r : LimitedReader) → failure (read_all r).2.source ≡ failure r.source
unfolding read_all
failure-read_all r = failure-fill r.source r.remaining

pub read_done : (s : Stream) (n : ℕ) → ((read s n).1 ≡ none) ⊎ (content (read s n).2 ≡ [])
unfolding read
read_done (chunk bs s) n = ground arith
read_done (last bs x) n = ground arith
read_done (ended x) n = ground arith
