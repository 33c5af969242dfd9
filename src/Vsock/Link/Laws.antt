-- ===== src/Vsock/Link/Laws.antt =====
-- `writeAll` of vsock/stream.go.
use poprocks.Prelude.{
  ℕ, ◌+◌, ◌≡◌, refl, sym, false, none, List, [], ◌∷◌, ◌++◌, append_assoc, append-nil, arith, length,
  take, drop, take-append-drop, take-append-take-drop, take-length, if◌then◌else◌, All, Bytes,
}
use poprocks.Vsock.Link.{WriteEvent, accept, refuse, Link, poll, write_loop, write_all}

-- The connection takes bytes, however slowly.
abbrev pub Accepts : WriteEvent → Type 0
Accepts (accept k) = Unit
Accepts (refuse k e) = ⊥

-- A link on which a send is held up by nothing.
pub record IsLive (l : Link) : Type 0 where
  pub not_cancelled : l.cancel_after ≡ none
  pub accepting : All Accepts l.writes

pub poll_sent : (l : Link) → (poll l).1.sent ≡ l.sent
unfolding poll
poll_sent l = ground arith

pub poll_reason : (l : Link) → (poll l).1.reason ≡ l.reason
unfolding poll
poll_reason l = ground arith

abbrev after_write : Link → Bytes → Link
after_write l bs = record (poll l).1 { sent = l.sent ++ bs }

-- `writeAll` without an error has written all of the payload.
write_loop_whole :
    (ws : List WriteEvent) (l : Link) (p : Bytes)
    → (write_loop ws l p).0 ≡ none
    → (write_loop ws l p).1.sent ≡ l.sent ++ p
unfolding write_loop
write_loop_whole ws l [] e = sym (append-nil l.sent)
write_loop_whole [] l (b ∷ p) e = ground arith
write_loop_whole (accept k ∷ ws) l (b ∷ p) e = ground (
  arith,
  write_loop_whole ws (after_write l (take k (b ∷ p))) (drop k (b ∷ p)),
  append_assoc l.sent (take k (b ∷ p)) (drop k (b ∷ p)),
  take-append-drop k (b ∷ p),
)
write_loop_whole (refuse k x ∷ ws) l (b ∷ p) e = ground arith

pub write_all_whole :
    (l : Link) (p : Bytes) → (write_all l p).0 ≡ none → (write_all l p).1.sent ≡ l.sent ++ p
unfolding write_all
write_all_whole l p e = write_loop_whole l.writes l p e

-- How many bytes of the payload `writeAll` has written, on every outcome.
written_loop : List WriteEvent → Link → Bytes → ℕ
unfolding write_loop
written_loop ws l [] = 0
written_loop [] l (b ∷ p) = if (poll l).0 then 0 else length (b ∷ p)
written_loop (accept k ∷ ws) l (b ∷ p) =
    let rest = written_loop ws (after_write l (take k (b ∷ p))) (drop k (b ∷ p)) in
    if (poll l).0 then 0 else k + rest
written_loop (refuse k e ∷ ws) l (b ∷ p) = if (poll l).0 then 0 else k

write_loop_prefix :
    (ws : List WriteEvent) (l : Link) (p : Bytes)
    → (write_loop ws l p).1.sent ≡ l.sent ++ take (written_loop ws l p) p
unfolding written_loop
write_loop_prefix ws l [] = sym (append-nil l.sent)
write_loop_prefix [] l (b ∷ p) =
    ground (arith, poll_sent l, append-nil l.sent, take-length (length (b ∷ p)) (b ∷ p))
write_loop_prefix (accept k ∷ ws) l (b ∷ p) = ground (
  arith,
  poll_sent l,
  append-nil l.sent,
  write_loop_prefix ws (after_write l (take k (b ∷ p))) (drop k (b ∷ p)),
  append_assoc l.sent (take k (b ∷ p))
      (take (written_loop ws (after_write l (take k (b ∷ p))) (drop k (b ∷ p))) (drop k (b ∷ p))),
  take-append-take-drop k (written_loop ws (after_write l (take k (b ∷ p))) (drop k (b ∷ p)))
      (b ∷ p),
)
write_loop_prefix (refuse k x ∷ ws) l (b ∷ p) = ground (arith, poll_sent l, append-nil l.sent)

pub written : Link → Bytes → ℕ
unfolding written_loop
written l p = written_loop l.writes l p

-- Whatever `writeAll` returns, what reached the wire is a front of the payload.
pub write_all_prefix :
    (l : Link) (p : Bytes) → (write_all l p).1.sent ≡ l.sent ++ take (written l p) p
unfolding write_all written
write_all_prefix l p = write_loop_prefix l.writes l p

write_loop-IsLive :
    (ws : List WriteEvent) (l : Link) (p : Bytes)
    → l.cancel_after ≡ none
    → All Accepts ws
    → ((write_loop ws l p).0 ≡ none) × IsLive (write_loop ws l p).1
unfolding write_loop
write_loop-IsLive ws l [] c h = (refl, record { not_cancelled = c; accepting = h })
write_loop-IsLive [] l (b ∷ p) c h = unfold poll in ground arith
write_loop-IsLive (accept k ∷ ws) l (b ∷ p) c (_, h) =
    unfold poll in
    ground (
      arith,
      write_loop-IsLive ws (after_write l (take k (b ∷ p))) (drop k (b ∷ p))
          (unfold poll in ground arith) h,
    )
write_loop-IsLive (refuse k x ∷ ws) l (b ∷ p) c (h, _) = absurd h

-- On a live link `writeAll` succeeds, and leaves it live.
pub write_all-IsLive :
    (l : Link) (p : Bytes) → IsLive l → ((write_all l p).0 ≡ none) × IsLive (write_all l p).1
unfolding write_all
write_all-IsLive l p v = write_loop-IsLive l.writes l p v.not_cancelled v.accepting

pub poll-IsLive : (l : Link) → IsLive l → ((poll l).0 ≡ false) × IsLive (poll l).1
unfolding poll
poll-IsLive l v = rw (v.not_cancelled, poll) (refl, v)
