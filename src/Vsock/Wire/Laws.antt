-- ===== src/Vsock/Wire/Laws.antt =====
-- The bytes of a header, and their bounds.
use native.Mathlib.Nat.{pow-suc, zero-add}
use poprocks.Prelude.{
  ℕ, zero, suc, ◌+◌, ◌*◌, ◌/◌, ◌%◌, ◌^◌, ◌≤◌, ◌<◌, ◌≡◌, refl, sym, ap, ◌∙◌, [], ◌∷◌, ◌++◌,
  append_assoc, append-nil, arith, length, take, drop, length-append, length-take, length-drop,
  take_front, drop_front, drop-drop, take-append-take-drop, All, All-take, All-drop, Bytes,
}
use poprocks.Vsock.Wire.{put_uint, uint_from, uint, Header, put_header, get_header, IsHeader}

abbrev pub IsByte : ℕ → Type 0
IsByte b = b < 256

pub length-put_uint : (w n : ℕ) → length (put_uint w n) ≡ w
unfolding put_uint
length-put_uint zero n = refl
length-put_uint (suc w) n =
    omega (arith, length-append (put_uint w (n / 256)) (n % 256 ∷ []), length-put_uint w (n / 256))

uint_from-append :
    (acc : ℕ) (bs cs : Bytes) → uint_from acc (bs ++ cs) ≡ uint_from (uint_from acc bs) cs
unfolding uint_from
uint_from-append acc [] cs = refl
uint_from-append acc (b ∷ bs) cs = uint_from-append (acc * 256 + b) bs cs

pub uint-put_uint : (w n : ℕ) → n < 256 ^ w → uint (put_uint w n) ≡ n
unfolding uint put_uint
uint-put_uint zero n h = omega arith
uint-put_uint (suc w) n h =
    uint_from-append 0 (put_uint w (n / 256)) (n % 256 ∷ [])
    ∙ omega (arith, uint-put_uint w (n / 256) (omega (arith, pow-suc 256 w)))

put_uint-uint_from :
    (bs : Bytes) (v acc : ℕ)
    → All IsByte bs
    → put_uint (length bs + v) (uint_from acc bs) ≡ put_uint v acc ++ bs
unfolding uint_from
put_uint-uint_from [] v acc h = rw (zero-add, append-nil)
put_uint-uint_from (b ∷ bs) v acc (hb, hbs) =
    let e : suc (length bs) + v ≡ length bs + suc v = omega arith in
    let hi : (acc * 256 + b) / 256 ≡ acc = omega arith in
    let lo : (acc * 256 + b) % 256 ≡ b = omega arith in
    rw (e, put_uint-uint_from bs (suc v) (acc * 256 + b) hbs)
      (unfold put_uint in rw (hi, lo) (append_assoc (put_uint v acc) (b ∷ []) bs))

pub put_uint-uint : (w : ℕ) (bs : Bytes) → length bs ≡ w → All IsByte bs → put_uint w (uint bs) ≡ bs
unfolding uint
put_uint-uint w bs e h =
    let k : w ≡ length bs + 0 = omega arith in
    rw k (put_uint-uint_from bs 0 0 h ∙ unfold put_uint in refl)

uint_from_bound :
    (bs : Bytes) (acc : ℕ) → All IsByte bs → uint_from acc bs < (acc + 1) * 256 ^ length bs
unfolding uint_from
uint_from_bound [] acc h = omega arith
uint_from_bound (b ∷ bs) acc (hb, hbs) =
    let step : (acc * 256 + b + 1) * 256 ^ length bs ≤ (acc * 256 + 256) * 256 ^ length bs =
      grind arith in
    omega (
      arith,
      uint_from_bound bs (acc * 256 + b) hbs,
      step,
      ap (λ (t : ℕ). (acc + 1) * t) (pow-suc 256 (length bs)),
    )

-- Bytes stand for a number of their width.
pub uint_bound : (w : ℕ) (bs : Bytes) → length bs ≡ w → All IsByte bs → uint bs < 256 ^ w
unfolding uint
uint_bound w bs e h = rw (← e) (omega (arith, uint_from_bound bs 0 h))

pub length-put_header : (h : Header) → length (put_header h) ≡ 16
unfolding put_header
length-put_header h = omega (
  arith,
  length-append (put_uint 8 h.id) (put_uint 4 h.msg_type ++ put_uint 4 h.length),
  length-append (put_uint 4 h.msg_type) (put_uint 4 h.length),
  length-put_uint 8 h.id,
  length-put_uint 4 h.msg_type,
  length-put_uint 4 h.length,
)

get_header_parts :
    (a b c rest : Bytes)
    → length a ≡ 8
    → length b ≡ 4
    → length c ≡ 4
    → get_header ((a ++ (b ++ c)) ++ rest)
      ≡ record { id = uint a; msg_type = uint b; length = uint c }
unfolding get_header
get_header_parts a b c rest ha hb hc =
    let raw = (a ++ (b ++ c)) ++ rest in
    let tail : Bytes = b ++ (c ++ rest) in
    let split : raw ≡ a ++ tail =
      append_assoc a (b ++ c) rest ∙ ap (◌++◌ a) (append_assoc b c rest) in
    let behind_id : drop 8 raw ≡ tail = ap (drop 8) split ∙ drop_front 8 a tail ha in
    let behind_type : drop 12 raw ≡ c ++ rest =
      sym (drop-drop 8 4 raw) ∙ ap (drop 4) behind_id ∙ drop_front 4 b (c ++ rest) hb in
    cc (
      ap (take 8) split,
      take_front 8 a tail ha,
      ap (take 4) behind_id,
      take_front 4 b (c ++ rest) hb,
      ap (take 4) behind_type,
      take_front 4 c rest hc,
    )

-- The fields of a header that fit their widths come back from its 16 bytes, whatever follows
-- them.
pub get_header-put_header :
    (h : Header) (rest : Bytes) → IsHeader h → get_header (put_header h ++ rest) ≡ h
unfolding put_header
get_header-put_header h rest v =
    get_header_parts (put_uint 8 h.id) (put_uint 4 h.msg_type) (put_uint 4 h.length) rest
      (length-put_uint 8 h.id) (length-put_uint 4 h.msg_type) (length-put_uint 4 h.length)
    ∙ cc (
      uint-put_uint 8 h.id v.id_fits,
      uint-put_uint 4 h.msg_type v.type_fits,
      uint-put_uint 4 h.length v.length_fits,
    )

-- And the other way round: the header of 16 bytes or more is written as the first 16.
pub put_header-get_header :
    (raw : Bytes) → 16 ≤ length raw → All IsByte raw → put_header (get_header raw) ≡ take 16 raw
unfolding put_header get_header
put_header-get_header raw n h =
    let id_bytes =
      put_uint-uint 8 (take 8 raw) (omega (arith, length-take 8 raw)) (All-take IsByte 8 raw h) in
    let type_bytes =
      put_uint-uint 4 (take 4 (drop 8 raw))
        (omega (arith, length-take 4 (drop 8 raw), length-drop 8 raw))
        (All-take IsByte 4 _ (All-drop IsByte 8 raw h)) in
    let length_bytes =
      put_uint-uint 4 (take 4 (drop 12 raw))
        (omega (arith, length-take 4 (drop 12 raw), length-drop 12 raw))
        (All-take IsByte 4 _ (All-drop IsByte 12 raw h)) in
    rw (id_bytes, type_bytes, length_bytes)
      (ap (◌++◌ (take 8 raw)) (
          ap (λ t. take 4 (drop 8 raw) ++ take 4 t) (sym (drop-drop 8 4 raw))
          ∙ take-append-take-drop 4 4 (drop 8 raw))
        ∙ take-append-take-drop 8 8 raw)

pub get_header_length :
    (raw : Bytes) → 16 ≤ length raw → All IsByte raw → (get_header raw).length < 2 ^ 32
unfolding get_header
get_header_length raw n h =
    uint_bound 4 (take 4 (drop 12 raw))
      (omega (arith, length-take 4 (drop 12 raw), length-drop 12 raw))
      (All-take IsByte 4 _ (All-drop IsByte 12 raw h))
