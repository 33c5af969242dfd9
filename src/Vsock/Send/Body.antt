-- ===== src/Vsock/Send/Body.antt =====
-- The copy loop of `sendStreamOnce` of vsock/stream.go.
use poprocks.Prelude.{
  ℕ, zero, suc, ◌+◌, ◌-◌, ◌≤◌, ◌<◌, ◌≡◌, refl, sym, ap, ◌∙◌, ◌≢◌, inl, inr, min, Option, none, some,
  Option-cases, Bool-cases, [], ◌++◌, append_assoc, append-nil, ◌==◌, arith, length, take, drop,
  take_past, drop_past, take-append-drop, length-append, take_none, drop_none, Bytes,
}
use poprocks.Vsock.Errors.{Error, eof}
use poprocks.Vsock.Io.{Stream, read, content, weight, failure}
use poprocks.Vsock.Io.Laws.{
  read-content, length-read, read_done, read_error, weight-read, failure-read,
}
use poprocks.Vsock.Link.{Link, poll, write_all}
use poprocks.Vsock.Link.Laws.{
  poll_sent, write_all_whole, written, write_all_prefix, IsLive, poll-IsLive, write_all-IsLive,
}
use poprocks.Vsock.Send.{buffer_size, after_read, body_loop}

-- One read of the loop splits the content.
read_splits :
    (r : Stream) (n : ℕ)
    → let m = min buffer_size n in
      (length (read r m).0 ≤ n)
      × (take n (content r) ≡ (read r m).0 ++ take (n - length (read r m).0) (content (read r m).2))
      × (drop n (content r) ≡ drop (n - length (read r m).0) (content (read r m).2))
      × (length (content r) ≡ length (read r m).0 + length (content (read r m).2))
read_splits r n =
    let m = min buffer_size n in
    let bs = (read r m).0 in
    let c = content (read r m).2 in
    let short : length bs ≤ n = omega (arith, length-read r m) in
    (
      short,
      ap (take n) (sym (read-content r m)) ∙ take_past n bs c short,
      ap (drop n) (sym (read-content r m)) ∙ drop_past n bs c short,
      ap length (sym (read-content r m)) ∙ length-append bs c,
    )

after_read-none : (e : Error) (n : ℕ) → after_read e n ≡ none → n ≡ 0
after_read-none eof zero h = refl
after_read-none eof (suc n) h = cc
after_read-none e n h = cc

-- The loop returns nil only after all `n` bytes of the payload have gone out.
pub body_loop_whole :
    (rounds : ℕ) (l : Link) (n : ℕ) (r : Stream) {l' : Link} {r' : Stream}
    → body_loop rounds l n r ≡ some (none, l', r')
    → (l'.sent ≡ l.sent ++ take n (content r))
      × (n ≤ length (content r))
      × (content r' ≡ drop n (content r))
unfolding body_loop
body_loop_whole zero l n r e = cc
body_loop_whole (suc k) l n r {l'} {r'} e =
    let m = min buffer_size n in
    let l1 = (poll l).1 in
    let bs = (read r m).0 in
    let r1 = (read r m).2 in
    ground (
      arith,
      take_none n (content r),
      drop_none n (content r),
      append-nil l.sent,
      append-nil bs,
      poll_sent l,
      read_splits r n,
      λ (x : Error). after_read-none x (n - length bs),
      read_done r m,
      write_all_whole l1 bs,
      append_assoc l.sent bs (take (n - length bs) (content r1)),
      body_loop_whole k (write_all l1 bs).1 (n - length bs) r1 {l' = l'} {r' = r'},
    )

-- With more rounds than the reader has reads the loop ends.
body_loop_ends :
    (rounds : ℕ) (l : Link) (n : ℕ) (r : Stream) → weight r < rounds → body_loop rounds l n r ≢ none
unfolding body_loop
body_loop_ends zero l n r h = absurd (omega arith)
body_loop_ends (suc k) l n r h =
    let m = min buffer_size n in
    let bs = (read r m).0 in
    ground (
      arith,
      weight-read r m,
      body_loop_ends k (write_all (poll l).1 bs).1 (n - length bs) (read r m).2,
    )

-- Whatever the outcome, what went out is a front of the payload's `n` bytes.
pub body_loop_prefix :
    (rounds : ℕ) (l : Link) (n : ℕ) (r : Stream) {e : Option Error} {l' : Link} {r' : Stream}
    → body_loop rounds l n r ≡ some (e, l', r')
    → (j u : Bytes) × (l'.sent ≡ l.sent ++ j) × (j ++ u ≡ take n (content r))
unfolding body_loop
body_loop_prefix zero l n r h = cc
body_loop_prefix (suc k) l n r {e} {l'} {r'} h =
    let m = min buffer_size n in
    let l1 = (poll l).1 in
    let bs = (read r m).0 in
    let r1 = (read r m).2 in
    let more = take (n - length bs) (content r1) in
    let w = written l1 bs in
    elim (Bool-cases (n == 0)) [
      | inl z ↦ ([], take n (content r), ground (arith, append-nil l.sent), refl)
      | inr nz ↦ elim (Bool-cases (poll l).0) [
        | inl stop ↦ ([], take n (content r), ground (arith, append-nil l.sent, poll_sent l), refl)
        | inr go ↦ elim (Option-cases (write_all l1 bs).0) [
          | inr (x, f) ↦ (
            take w bs,
            drop w bs ++ more,
            ground (arith, poll_sent l, write_all_prefix l1 bs),
            ground (
              arith,
              read_splits r n,
              append_assoc (take w bs) (drop w bs) more,
              take-append-drop w bs,
            ),
          )
          | inl g ↦ elim (Option-cases (read r m).1) [
            | inr (x, f) ↦ (
              bs,
              more,
              ground (arith, poll_sent l, write_all_whole l1 bs),
              ground (arith, read_splits r n),
            )
            | inl o ↦
                let (j, u, p, q) =
                  body_loop_prefix k (write_all l1 bs).1 (n - length bs) r1 {e = e} {l' = l'}
                    {r' = r'} (ground arith) in
                (
                  bs ++ j,
                  u,
                  ground (arith, poll_sent l, write_all_whole l1 bs, append_assoc l.sent bs j),
                  ground (arith, read_splits r n, append_assoc bs j u),
                )
          ]
        ]
      ]
    ]

-- A live link and a reader with enough bytes: the loop succeeds.
pub body_loop-IsLive :
    (rounds : ℕ) (l : Link) (n : ℕ) (r : Stream)
    → weight r < rounds
    → IsLive l
    → failure r ≡ eof
    → n ≤ length (content r)
    → (l' : Link) × (r' : Stream) × (body_loop rounds l n r ≡ some (none, l', r')) × IsLive l'
unfolding body_loop
body_loop-IsLive zero l n r h v f c = absurd (omega arith)
body_loop-IsLive (suc k) l n r h v f c =
    let m = min buffer_size n in
    let bs = (read r m).0 in
    let r1 = (read r m).2 in
    let (go, v1) = poll-IsLive l v in
    let (wrote, v2) = write_all-IsLive (poll l).1 bs v1 in
    elim (Bool-cases (n == 0)) [
      | inl z ↦ (l, r, ground arith, v)
      | inr nz ↦ elim (Option-cases (read r m).1) [
        | inr (x, f') ↦ (
          (write_all (poll l).1 bs).1,
          r1,
          ground (arith, read_error r m x f', read_splits r n, ap length (read_error r m x f').1),
          v2,
        )
        | inl o ↦
            let (l', r', p, v') =
              body_loop-IsLive k (write_all (poll l).1 bs).1 (n - length bs) r1
                (omega (arith, weight-read r m (ground arith) o)) v2 (failure-read r m ∙ f)
                (omega (arith, read_splits r n)) in
            (l', r', ground arith, v')
      ]
    ]

-- The loop's outcome, which is never that the rounds ran out.
pub body_loop_runs :
    (l : Link) (n : ℕ) (r : Stream)
    → (out : Option Error × Link × Stream) × (body_loop (suc (weight r)) l n r ≡ some out)
body_loop_runs l n r = elim (Option-cases (body_loop (suc (weight r)) l n r)) [
  | inl z ↦ absurd (body_loop_ends (suc (weight r)) l n r (omega arith) z)
  | inr found ↦ found
]
