-- ===== src/Vsock/Send/Attempts.antt =====
-- The attempts of `SendStreamWithID` of vsock/stream.go.
use poprocks.Prelude.{
  ℕ, zero, suc, ◌+◌, ◌*◌, ◌≤◌, ◌≡◌, refl, ap, inl, inr, Bool, true, false, Option, none, some,
  Option-cases, [], ◌++◌, append_assoc, arith, length, take, length-append, length-take, Bytes,
  nat_eq, lookup, lookup-insert_self,
}
use poprocks.Vsock.Io.{Stream, content}
use poprocks.Vsock.Wire.{put_header}
use poprocks.Vsock.Wire.Laws.{length-put_header}
use poprocks.Vsock.Link.{Link, poll}
use poprocks.Vsock.Link.Laws.{poll_sent}
use poprocks.Vsock.Ack.{Acks, register_pending_ack, wait_for_acknowledge}
use poprocks.Vsock.Ack.Laws.{unregister_gone, wait_for_acknowledge_gone}
use poprocks.Vsock.Send.{
  Reader, Sender, send_stream_once, send_stream_attempt, sought, attempts_loop,
}
use poprocks.Vsock.Send.Once.{send_stream_once_whole, send_stream_once_prefix}

abbrev pub frame : ℕ → ℕ → ℕ → Stream → Bytes
frame id t n r = put_header (record { id = id; msg_type = t; length = n }) ++ take n (content r)

wait_sent :
    (id : ℕ) (ch : Option ℕ) (l : Link) (a : Acks)
    → (wait_for_acknowledge id ch l a).1.sent ≡ l.sent
unfolding wait_for_acknowledge
wait_sent id none l a = refl
wait_sent id (some ch) l a = ground arith

module _ (s : Sender) (id t n : ℕ) where
  attempt_whole :
      (await_ack : Bool)
      → (send_stream_attempt s id t n await_ack).0 ≡ none
      → ((send_stream_attempt s id t n await_ack).1.link.sent
          ≡ s.link.sent ++ frame id t n s.reader.stream)
        × (n ≤ length (content s.reader.stream))
  unfolding send_stream_attempt
  attempt_whole false e = ground (arith, send_stream_once_whole s.link id t n s.reader.stream)
  attempt_whole true e =
      let (wait, acks) = register_pending_ack id s.acks in
      let l = (send_stream_once s.link id t n s.reader.stream).1 in
      ground (
        arith,
        send_stream_once_whole s.link id t n s.reader.stream,
        wait_sent id (some wait) l acks,
      )

  attempt_prefix :
      (await_ack : Bool)
      → (j u : Bytes) × ((send_stream_attempt s id t n await_ack).1.link.sent ≡ s.link.sent ++ j)
        × (j ++ u ≡ frame id t n s.reader.stream)
  unfolding send_stream_attempt
  attempt_prefix false = send_stream_once_prefix s.link id t n s.reader.stream
  attempt_prefix true =
      let (wait, acks) = register_pending_ack id s.acks in
      let l = (send_stream_once s.link id t n s.reader.stream).1 in
      let (j, u, p, q) = send_stream_once_prefix s.link id t n s.reader.stream in
      (j, u, ground (arith, wait_sent id (some wait) l acks), q)

  attempt_bound :
      (await_ack : Bool)
      → length (send_stream_attempt s id t n await_ack).1.link.sent ≤ length s.link.sent + (16 + n)
  attempt_bound await_ack =
      let h = put_header (record { id = id; msg_type = t; length = n }) in
      let (j, u, p, q) = attempt_prefix await_ack in
      omega (
        arith,
        ap length p,
        ap length q,
        length-append s.link.sent j,
        length-append j u,
        length-append h (take n (content s.reader.stream)),
        length-put_header (record { id = id; msg_type = t; length = n }),
        length-take n (content s.reader.stream),
      )

  attempt_gone :
      (await_ack : Bool)
      → lookup id s.acks.pending_acks ≡ none
      → lookup id (send_stream_attempt s id t n await_ack).1.acks.pending_acks ≡ none
  unfolding send_stream_attempt register_pending_ack
  attempt_gone false h = h
  attempt_gone true h =
      let (wait, acks) = register_pending_ack id s.acks in
      let l = (send_stream_once s.link id t n s.reader.stream).1 in
      let own = lookup-insert_self id s.acks.next_chan s.acks.pending_acks in
      ground (
        arith,
        unregister_gone id wait acks (inl own),
        wait_for_acknowledge_gone id wait l acks own,
      )

sought_stream :
    (again : Bool) (start : Stream) (r : Reader)
    → (again ≡ false → r.stream ≡ start)
    → (sought again start r).0 ≡ none
    → (sought again start r).1.stream ≡ start
sought_stream true start r h e = ground arith
sought_stream false start r h e = h refl

module _ (start : Stream) (id t n : ℕ) (await_ack : Bool) where
  -- The attempts end with nil only after a whole frame, behind what failed attempts left on the wire.
  pub attempts_whole :
      (left : ℕ) (again : Bool) (s : Sender)
      → (again ≡ false → s.reader.stream ≡ start)
      → (attempts_loop (suc left) again start s id t n await_ack).0 ≡ none
      → (junk : Bytes) × ((attempts_loop (suc left) again start s id t n await_ack).1.link.sent
          ≡ s.link.sent ++ (junk ++ frame id t n start))
        × (n ≤ length (content start))
        × (left ≡ 0 → junk ≡ [])
  unfolding attempts_loop
  attempts_whole zero again s h e =
      let s1 = record s { reader = (sought again start s.reader).1 } in
      let s2 = (send_stream_attempt s1 id t n await_ack).1 in
      elim (Option-cases (sought again start s.reader).0) [
        | inr (x, f) ↦ absurd (ground arith)
        | inl f ↦
            let st : s1.reader.stream ≡ start = sought_stream again start s.reader h f in
            elim (Option-cases (send_stream_attempt s1 id t n await_ack).0) [
              | inl a ↦
                  let (p, q) = attempt_whole s1 id t n await_ack a in
                  ([], ground (arith, p, q, st), ground (arith, q, st), λ _. refl)
              | inr (x, a) ↦ absurd (ground arith)
            ]
      ]
  attempts_whole (suc left) again s h e =
      let s1 = record s { reader = (sought again start s.reader).1 } in
      let s2 = (send_stream_attempt s1 id t n await_ack).1 in
      elim (Option-cases (sought again start s.reader).0) [
        | inr (x, f) ↦ absurd (ground arith)
        | inl f ↦
            let st : s1.reader.stream ≡ start = sought_stream again start s.reader h f in
            elim (Option-cases (send_stream_attempt s1 id t n await_ack).0) [
              | inl a ↦
                  let (p, q) = attempt_whole s1 id t n await_ack a in
                  ([], ground (arith, p, q, st), ground (arith, q, st), λ _. refl)
              | inr (x, a) ↦
                  let s3 = record s2 { link = (poll s2.link).1 } in
                  let (j, u, p, q) = attempt_prefix s1 id t n await_ack in
                  let (junk, whole, enough, _) =
                    attempts_whole left true s3 (λ k. cc) (ground arith) in
                  (
                    j ++ junk,
                    ground (
                      arith,
                      poll_sent s2.link,
                      append_assoc s.link.sent j (junk ++ frame id t n start),
                      append_assoc j junk (frame id t n start),
                    ),
                    enough,
                    λ z. cc,
                  )
            ]
      ]

  -- Every attempt puts at most one frame on the wire.
  pub attempts_bound :
      (left : ℕ) (again : Bool) (s : Sender)
      → length (attempts_loop left again start s id t n await_ack).1.link.sent
        ≤ length s.link.sent + left * (16 + n)
  unfolding attempts_loop
  attempts_bound zero again s = omega arith
  attempts_bound (suc left) again s =
      let s1 = record s { reader = (sought again start s.reader).1 } in
      let s2 = (send_stream_attempt s1 id t n await_ack).1 in
      let s3 = record s2 { link = (poll s2.link).1 } in
      ground
        (arith, poll_sent s2.link, attempt_bound s1 id t n await_ack, attempts_bound left true s3)

  -- Whatever the outcome, a message that nobody waited for is waited for by nobody afterwards.
  pub attempts_gone :
      (left : ℕ) (again : Bool) (s : Sender)
      → lookup id s.acks.pending_acks ≡ none
      → lookup id (attempts_loop left again start s id t n await_ack).1.acks.pending_acks ≡ none
  unfolding attempts_loop
  attempts_gone zero again s h = h
  attempts_gone (suc left) again s h =
      let s1 = record s { reader = (sought again start s.reader).1 } in
      let s2 = (send_stream_attempt s1 id t n await_ack).1 in
      let s3 = record s2 { link = (poll s2.link).1 } in
      ground (arith, attempt_gone s1 id t n await_ack h, attempts_gone left true s3)
