-- ===== src/Vsock/Send/WithId.antt =====
-- `SendStreamWithID` of vsock/stream.go, for its callers.
use native.Mathlib.Nat.{mul-le-mul_right}
use poprocks.Prelude.{
  ℕ, suc, ◌+◌, ◌*◌, ◌≤◌, ◌≡◌, refl, ◌≢◌, inl, inr, Bool, true, false, Option, none, some,
  Option-cases, [], ◌++◌, arith, length, Bytes, nat_eq, lookup, ◌⊎◌,
}
use poprocks.Prelude.Int.{pos, pos_part, ◌<ℤ◌, ◌≤ℤ◌}
use poprocks.Vsock.Errors.{eof}
use poprocks.Vsock.Io.{content, failure}
use poprocks.Vsock.Link.{Link}
use poprocks.Vsock.Link.Laws.{IsLive}
use poprocks.Vsock.Ack.{Acks, should_await_acknowledge}
use poprocks.Vsock.Send.{
  Reader, Sender, MessengerConfig, attempts_loop, send_stream_attempt, plan, send_stream_with_id,
}
use poprocks.Vsock.Send.Once.{send_stream_once-IsLive, send_stream_once_whole}
use poprocks.Vsock.Send.Attempts.{frame, attempts_whole, attempts_bound, attempts_gone}

plan_attempts :
    (c : MessengerConfig) (r : Reader) (await_ack : Bool)
    → pos 0 ≤ℤ c.max_retries
    → (plan c r await_ack).0 ≡ none
    → (k : ℕ) × ((plan c r await_ack).1 ≡ suc k)
      × ((plan c r await_ack).2.stream ≡ r.stream)
      × ((await_ack ≡ false) ⊎ (r.seeker ≡ none) → k ≡ 0)
unfolding plan
plan_attempts c r false v e = (0, refl, refl, λ _. refl)
plan_attempts c r true v e = elim (Option-cases r.seeker) [
  | inl z ↦ (0, ground arith, ground arith, λ _. refl)
  | inr (x, z) ↦ (pos_part c.max_retries, ground arith, ground arith, λ k. ground arith)
]

plan_bound :
    (c : MessengerConfig) (r : Reader) (await_ack : Bool)
    → (plan c r await_ack).1 ≤ 1 + pos_part c.max_retries
unfolding plan
plan_bound c r false = omega arith
plan_bound c r true = ground arith

module _ (c : MessengerConfig) (l : Link) (a : Acks) (id t n : ℕ) where
  -- `SendStreamWithID` with no ID, or for a frame over a size limit that is set, returns an error
  -- and changes nothing.
  pub send_stream_with_id_refuses :
      (r : Reader)
      → (id ≡ 0) ⊎ ((pos 0 <ℤ c.max_message_size) × (c.max_message_size <ℤ pos (16 + n)))
      → let s = send_stream_with_id c l a id t n (some r) in
        (s.0 ≢ none) × (s.1 ≡ l) × (s.2 ≡ a) × (s.3 ≡ some r)
  unfolding send_stream_with_id
  send_stream_with_id_refuses r h = (ground arith, ground arith, ground arith, ground arith)

  -- When it returns nil the wire ends with the whole frame: the header, with the length that was
  -- asked for, and as many bytes of the reader. In front of it stands what failed attempts left, and
  -- nothing if no acknowledgement is awaited or the reader cannot seek.
  send_stream_with_id_sent :
      (r : Reader)
      → pos 0 ≤ℤ c.max_retries
      → (send_stream_with_id c l a id t n (some r)).0 ≡ none
      → (junk : Bytes) × ((send_stream_with_id c l a id t n (some r)).1.sent
          ≡ l.sent ++ (junk ++ frame id t n r.stream))
        × (n ≤ length (content r.stream))
        × ((should_await_acknowledge c.require_acknowledge t ≡ false) ⊎ (r.seeker ≡ none)
            → junk ≡ [])
  unfolding send_stream_with_id
  send_stream_with_id_sent r v e =
      let await_ack = should_await_acknowledge c.require_acknowledge t in
      let p = plan c r await_ack in
      let s : Sender = record { link = l; acks = a; reader = p.2 } in
      let started : p.0 ≡ none = ground arith in
      let (k, size, from, few) = plan_attempts c r await_ack v started in
      let (junk, whole, enough, clean) =
        attempts_whole r.stream id t n await_ack k false s (λ _. from) (ground arith) in
      (junk, ground arith, enough, λ z. clean (few z))

  -- When `SendStreamWithID` returns nil, and `MaxRetries` is not negative, the wire ends with the
  -- whole frame: the header, with the length that was asked for, and as many bytes of the reader,
  -- which has them. What stands in front of it may be what failed attempts left.
  pub send_stream_with_id_whole :
      (r : Reader)
      → pos 0 ≤ℤ c.max_retries
      → (send_stream_with_id c l a id t n (some r)).0 ≡ none
      → (junk : Bytes) × ((send_stream_with_id c l a id t n (some r)).1.sent
          ≡ l.sent ++ (junk ++ frame id t n r.stream))
        × (n ≤ length (content r.stream))
  send_stream_with_id_whole r v e =
      let (junk, whole, enough, _) = send_stream_with_id_sent r v e in (junk, whole, enough)

  -- When `SendStreamWithID` returns nil, and no acknowledgement was awaited or the reader cannot
  -- seek, the frame is all that went out, if `MaxRetries` is not negative.
  pub send_stream_with_id_clean :
      (r : Reader)
      → pos 0 ≤ℤ c.max_retries
      → (should_await_acknowledge c.require_acknowledge t ≡ false) ⊎ (r.seeker ≡ none)
      → (send_stream_with_id c l a id t n (some r)).0 ≡ none
      → (send_stream_with_id c l a id t n (some r)).1.sent ≡ l.sent ++ frame id t n r.stream
  send_stream_with_id_clean r v one e =
      let (junk, whole, _, clean) = send_stream_with_id_sent r v e in
      ground (arith, whole, clean one)

  -- `SendStreamWithID` puts no more bytes on the wire than `1 + MaxRetries` frames have.
  pub send_stream_with_id_bound :
      (r : Reader)
      → length (send_stream_with_id c l a id t n (some r)).1.sent
        ≤ length l.sent + (1 + pos_part c.max_retries) * (16 + n)
  unfolding send_stream_with_id
  send_stream_with_id_bound r =
      let await_ack = should_await_acknowledge c.require_acknowledge t in
      let p = plan c r await_ack in
      let s : Sender = record { link = l; acks = a; reader = p.2 } in
      ground (
        arith,
        mul-le-mul_right (16 + n) (plan_bound c r await_ack),
        attempts_bound r.stream id t n await_ack p.1 false s,
      )

  -- However `SendStreamWithID` ends, no entry of its message stays in the table of awaited
  -- acknowledgements, if there was none before.
  pub send_stream_with_id_gone :
      (r : Option Reader)
      → lookup id a.pending_acks ≡ none
      → lookup id (send_stream_with_id c l a id t n r).2.pending_acks ≡ none
  unfolding send_stream_with_id
  send_stream_with_id_gone none h = h
  send_stream_with_id_gone (some r) h =
      let await_ack = should_await_acknowledge c.require_acknowledge t in
      let p = plan c r await_ack in
      let s : Sender = record { link = l; acks = a; reader = p.2 } in
      ground (arith, attempts_gone r.stream id t n await_ack p.1 false s h)

  -- Without acknowledgements, on a live link, from a reader that has enough bytes and ends
  -- cleanly, with an ID and within the size limit, `SendStreamWithID` returns nil, and the wire
  -- has the frame behind what it had before, and nothing else.
  pub send_stream_with_id_live :
      (r : Reader)
      → c.require_acknowledge ≡ false
      → IsLive l
      → failure r.stream ≡ eof
      → n ≤ length (content r.stream)
      → id ≢ 0
      → (c.max_message_size ≤ℤ pos 0) ⊎ (pos (16 + n) ≤ℤ c.max_message_size)
      → ((send_stream_with_id c l a id t n (some r)).0 ≡ none)
        × ((send_stream_with_id c l a id t n (some r)).1.sent ≡ l.sent ++ frame id t n r.stream)
  unfolding send_stream_with_id should_await_acknowledge plan attempts_loop send_stream_attempt
  send_stream_with_id_live r q v f k nz size =
      let (ok, _) = send_stream_once-IsLive l id t n r.stream v f k in
      let (whole, _, _) = send_stream_once_whole l id t n r.stream ok in
      (ground arith, ground arith)
