-- ===== src/Vsock/Send/Once.antt =====
-- `sendStreamOnce` of vsock/stream.go.
use poprocks.Prelude.{
  ℕ, suc, ◌≤◌, ◌≡◌, inl, inr, none, Option-cases, ◌++◌, append_assoc, arith, length, take, drop,
  take-append-drop, Bytes,
}
use poprocks.Vsock.Errors.{eof}
use poprocks.Vsock.Io.{Stream, content, weight, failure}
use poprocks.Vsock.Wire.{put_header}
use poprocks.Vsock.Link.{Link, write_all}
use poprocks.Vsock.Link.Laws.{write_all_whole, written, write_all_prefix, IsLive, write_all-IsLive}
use poprocks.Vsock.Send.{send_stream_once}
use poprocks.Vsock.Send.Body.{body_loop_whole, body_loop_prefix, body_loop-IsLive, body_loop_runs}

module _ (l : Link) (id t n : ℕ) (r : Stream) where
  -- `sendStreamOnce` returns nil only after the whole frame went out: the header with the length
  -- that it was given, and as many bytes of the reader, which are no longer there.
  pub send_stream_once_whole :
      (send_stream_once l id t n r).0 ≡ none
      → ((send_stream_once l id t n r).1.sent
          ≡ l.sent
            ++ (put_header (record { id = id; msg_type = t; length = n }) ++ take n (content r)))
        × (n ≤ length (content r))
        × (content (send_stream_once l id t n r).2 ≡ drop n (content r))
  unfolding send_stream_once
  send_stream_once_whole e =
      let h = put_header (record { id = id; msg_type = t; length = n }) in
      let l1 = (write_all l h).1 in
      let ((x, l', r'), b) = body_loop_runs l1 n r in
      ground (
        arith,
        write_all_whole l h,
        body_loop_whole (suc (weight r)) l1 n r {l' = l'} {r' = r'},
        append_assoc l.sent h (take n (content r)),
      )

  -- Whatever `sendStreamOnce` returns, what it put on the wire is a front of the frame of its
  -- header and the bytes of the reader.
  pub send_stream_once_prefix :
      (j u : Bytes) × ((send_stream_once l id t n r).1.sent ≡ l.sent ++ j)
      × (j ++ u ≡ put_header (record { id = id; msg_type = t; length = n }) ++ take n (content r))
  unfolding send_stream_once
  send_stream_once_prefix =
      let h = put_header (record { id = id; msg_type = t; length = n }) in
      let p = take n (content r) in
      let l1 = (write_all l h).1 in
      let w = written l h in
      let ((x, l', r'), b) = body_loop_runs l1 n r in
      let (j, u, q, f) = body_loop_prefix (suc (weight r)) l1 n r {e = x} {l' = l'} {r' = r'} b in
      elim (Option-cases (write_all l h).0) [
        | inl ok ↦ (
          h ++ j,
          u,
          ground (arith, write_all_whole l h, append_assoc l.sent h j),
          ground (arith, append_assoc h j u),
        )
        | inr (x, bad) ↦ (
          take w h,
          drop w h ++ p,
          ground (arith, write_all_prefix l h),
          ground (arith, append_assoc (take w h) (drop w h) p, take-append-drop w h),
        )
      ]

  -- On a live link, with enough bytes in the reader, it succeeds.
  pub send_stream_once-IsLive :
      IsLive l
      → failure r ≡ eof
      → n ≤ length (content r)
      → ((send_stream_once l id t n r).0 ≡ none) × IsLive (send_stream_once l id t n r).1
  unfolding send_stream_once
  send_stream_once-IsLive v f c =
      let h = put_header (record { id = id; msg_type = t; length = n }) in
      let (ok, v1) = write_all-IsLive l h v in
      let (l', r', b, v') =
        body_loop-IsLive (suc (weight r)) (write_all l h).1 n r (omega arith) v1 f c in
      (ground arith, ground arith)
