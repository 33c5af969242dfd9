-- ===== src/Vsock/Messenger/Frames.antt =====
-- `readHeader` and the loop of `Serve` of vsock/messenger.go, on a connection that holds frames.
use poprocks.Prelude.{
  ℕ, zero, suc, ◌≤◌, ◌<◌, ◌≡◌, sym, ap, ◌∙◌, ◌≢◌, false, ◌&&◌, Option, none, some, Option-cases,
  inl, inr, List, [], ◌∷◌, ◌++◌, arith, length, take, drop, take_front, drop_front, length-append,
  append-nil, All, Bytes,
}
use poprocks.Prelude.Int.{ℤ, pos, ltb_ℤ}
use poprocks.Vsock.Errors.{Error, eof, ok, err}
use poprocks.Vsock.Io.{Stream, content, failure, bytes_reader}
use poprocks.Vsock.Io.Laws.{
  read_full_bytes, read_full_rest, failure-read_full, read_full_whole, read_full_end,
}
use poprocks.Vsock.Wire.{Header, IsHeader, put_header, get_header}
use poprocks.Vsock.Wire.Laws.{length-put_header, get_header-put_header}
use poprocks.Vsock.Message.{new_message_from_header, drain}
use poprocks.Vsock.Message.Laws.{drain-beyond, drain_eof, failure-drain}
use poprocks.Vsock.Messenger.{Handlers, State, handle_message, read_header, serve, serve_end}
use poprocks.Vsock.Messenger.Serve.{AreRespectful, handle_alone}

abbrev pub Frame : Type 0
Frame = Header × Bytes

-- The bytes of frames on a connection.
abbrev pub wire : List Frame → Bytes
wire [] = []
wire ((h, p) ∷ fs) = put_header h ++ (p ++ wire fs)

-- A frame that is whole, has an ID, and is not over the limit.
pub record IsFrame (max_received : ℤ) (f : Frame) : Type 0 where
  pub header_fits : IsHeader f.0
  pub has_id : f.0.id ≢ 0
  pub whole : length f.1 ≡ f.0.length
  pub allowed : (ltb_ℤ (pos 0) max_received && ltb_ℤ max_received (pos f.0.length)) ≡ false

-- What handling frames one by one gives: each message with a reader on its payload only, until one
-- fails. `finish` is what is returned behind the last one.
unfoldable pub dispatch {ℓ} :
    {S : Type ℓ} → Option Error → Handlers S → State S → List Frame → Option Error × State S
dispatch finish d st [] = (finish, st)
dispatch finish d st ((h, p) ∷ fs) =
    let (e, st', _, _) = handle_message d st (new_message_from_header h) (bytes_reader p) in
    let rest = dispatch finish d st' fs in elim e [ some x ↦ (some x, st') | none ↦ rest ]

-- A header at the front of the connection is read, and nothing behind it.
read_header_ok :
    (max : ℤ) (conn : Stream) (f : Frame) (rest : Bytes)
    → IsFrame max f
    → content conn ≡ put_header f.0 ++ rest
    → ((read_header max conn).0 ≡ ok f.0)
      × (content (read_header max conn).1 ≡ rest)
      × (failure (read_header max conn).1 ≡ failure conn)
unfolding read_header
read_header_ok max conn f rest v e =
    let size = length-put_header f.0 in
    let enough : 16 ≤ length (content conn) =
      omega (arith, ap length e, length-append (put_header f.0) rest, size) in
    let bytes : take 16 (content conn) ≡ put_header f.0 =
      rw e (take_front 16 (put_header f.0) rest size) in
    let behind : drop 16 (content conn) ≡ rest = rw e (drop_front 16 (put_header f.0) rest size) in
    let head : get_header (put_header f.0) ≡ f.0 =
      sym (ap get_header (append-nil (put_header f.0)))
      ∙ get_header-put_header f.0 [] v.header_fits in
    let nz = v.has_id in
    let al = v.allowed in
    ground (
      arith,
      read_full_bytes conn 16,
      read_full_rest conn 16,
      failure-read_full conn 16,
      read_full_whole conn 16 enough,
      bytes,
      behind,
      head,
    )

-- At the end of the connection `readHeader` gives the connection's own error.
read_header_end :
    (max : ℤ) (conn : Stream) → content conn ≡ [] → (read_header max conn).0 ≡ err (failure conn)
unfolding read_header
read_header_end max conn e = ground (arith, read_full_end conn 16)

module _ {ℓ} {S : Type ℓ} (max : ℤ) (ctx_err : Option Error) (d : Handlers S)
    (ok_handlers : AreRespectful d) where
  serve_last :
      (rounds : ℕ) (st : State S) (conn : Stream)
      → content conn ≡ []
      → serve (suc rounds) ctx_err max d st conn ≡ some (serve_end ctx_err (failure conn), st)
  unfolding serve
  serve_last rounds st conn e = ground (arith, read_header_end max conn e)

  serve_round :
      (rounds : ℕ) (st : State S) (conn : Stream) (h : Header) (p : Bytes)
      → (read_header max conn).0 ≡ ok h
      → let conn1 = (read_header max conn).1 in
        let r = handle_message d st (new_message_from_header h) (bytes_reader p) in
        let r' = handle_message d st (new_message_from_header h) conn1 in
        r'.0 ≡ r.0
        → r'.1 ≡ r.1
        → (drain r'.2 r'.3).0 ≡ none
        → serve (suc rounds) ctx_err max d st conn ≡ elim r.0 [
          | some x ↦ some (some x, r.1)
          | none ↦ serve rounds ctx_err max d r.1 (drain r'.2 r'.3).2
        ]
  unfolding serve
  serve_round rounds st conn h p head x y n =
      let r = handle_message d st (new_message_from_header h) (bytes_reader p) in
      elim (Option-cases r.0) [ inl z ↦ ground arith | inr (c, z) ↦ ground arith ]

  -- One round, when the connection starts with a frame.
  serve_first :
      (rounds : ℕ) (st : State S) (conn : Stream) (f : Frame) (rest : Bytes)
      → failure conn ≡ eof
      → IsFrame max f
      → content conn ≡ put_header f.0 ++ (f.1 ++ rest)
      → let r = handle_message d st (new_message_from_header f.0) (bytes_reader f.1) in
        (conn' : Stream) × (failure conn' ≡ eof)
        × (content conn' ≡ rest)
        × (serve (suc rounds) ctx_err max d st conn ≡ elim r.0 [
          | some x ↦ some (some x, r.1)
          | none ↦ serve rounds ctx_err max d r.1 conn'
        ])
  unfolding serve
  serve_first rounds st conn f rest l v e =
      let (head, body, ends) = read_header_ok max conn f (f.1 ++ rest) v e in
      let conn1 = (read_header max conn).1 in
      let clean : failure conn1 ≡ eof = ends ∙ l in
      let a = handle_alone d ok_handlers st f.0 conn1 clean in
      let r' = handle_message d st (new_message_from_header f.0) conn1 in
      let alone_at =
        λ (p : Bytes). handle_message d st (new_message_from_header f.0) (bytes_reader p) in
      let payload : take f.0.length (content conn1) ≡ f.1 =
        rw body (take_front f.0.length f.1 rest v.whole) in
      let behind : drop f.0.length (content conn1) ≡ rest =
        rw body (drop_front f.0.length f.1 rest v.whole) in
      let z = a.rest in
      (
        (drain r'.2 r'.3).2,
        failure-drain r'.2 r'.3 z.ends,
        drain-beyond r'.2 r'.3 ∙ z.behind ∙ behind,
        serve_round rounds st conn f.0 f.1 head (a.errors ∙ ap (λ p. (alone_at p).0) payload)
            (a.states ∙ ap (λ p. (alone_at p).1) payload) (drain_eof r'.2 r'.3 z.reader_ends),
      )

  -- On a connection that holds whole frames and then ends, `Serve` returns what handling these
  -- frames one by one gives, each message with a reader on its own payload: however the
  -- connection is cut into reads, and however much of a payload a handler reads. The handlers go
  -- by their own messages only, every frame's payload has the declared length, within the limit,
  -- its ID is not zero, and there are more rounds than frames.
  pub serve_frames :
      (fs : List Frame) (rounds : ℕ) (st : State S) (conn : Stream)
      → failure conn ≡ eof
      → All (IsFrame max) fs
      → content conn ≡ wire fs
      → length fs < rounds
      → serve rounds ctx_err max d st conn ≡ some (dispatch (serve_end ctx_err eof) d st fs)
  unfolding dispatch
  serve_frames fs zero st conn l v e n = ground arith
  serve_frames [] (suc rounds) st conn l v e n = ground (arith, serve_last rounds st conn e)
  serve_frames ((h, p) ∷ fs) (suc rounds) st conn l v e n =
      let (conn', l', e', step) = serve_first rounds st conn (h, p) (wire fs) l v.0 e in
      let r = handle_message d st (new_message_from_header h) (bytes_reader p) in
      let rest = serve_frames fs rounds r.1 conn' l' v.1 e' (omega arith) in
      step ∙ elim (Option-cases r.0) [ inl z ↦ ground (arith, rest) | inr (x, z) ↦ ground arith ]
