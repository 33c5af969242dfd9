-- ===== src/Protocol/Deliver.antt =====
-- From `Send` of vsock/protocol/m.go on one side to the receiver that `NewM` serves on the other,
-- through the messengers and the connection between them.
pub mod Request
use poprocks.Prelude.{
  ℕ, ◌^◌, ◌≤◌, ◌<◌, ◌≡◌, refl, sym, ap, ◌∙◌, ◌≢◌, ◌==◌, ◌&&◌, inl, inr, Bool, false, Option, none,
  some, Option-cases, Bool-cases, List, [], ◌∷◌, ◌++◌, append-nil, arith, length, Bytes, nat_eq,
  lookup,
}
use mathlib.Core.Path.{subst}
use poprocks.Prelude.Int.{ℤ, pos, ◌≤ℤ◌, ltb_ℤ}
use poprocks.Vsock.Errors.{Error, Result, ok, err, eof, Result-cases}
use poprocks.Vsock.Io.{Stream, content, failure, bytes_reader}
use poprocks.Vsock.Io.Laws.{content-bytes_reader, failure-bytes_reader}
use poprocks.Vsock.Wire.{Header, put_header}
use poprocks.Vsock.Message.{Message, new_message, new_message_from_header}
use poprocks.Vsock.Message.Laws.{header-new_message_from_header}
use poprocks.Vsock.Message.Binary.{read_all-new_message, header-new_message}
use poprocks.Vsock.Ack.{should_await_acknowledge, acknowledge_type_id}
use poprocks.Vsock.Send.{MessengerConfig}
use poprocks.Vsock.Request.{resolve_response}
use poprocks.Vsock.Messenger
use poprocks.Vsock.Messenger.{
  Handler, Handlers, State, handle_message, run_handler, serve, serve_end, first_error,
}
use poprocks.Vsock.Messenger.Serve.{IsRespectful, AreRespectful}
use poprocks.Vsock.Messenger.Config.{send_whole, on_receive_registers, on_receive_unknown}
use poprocks.Vsock.Messenger.Frames.{Frame, wire, IsFrame, dispatch, serve_frames}
use poprocks.Vsock.Messenger.Calls.{Outbox}
use poprocks.Protocol.Codec.{
  Codec, Formats, generate_id, to_message, to_message_with_id, encode, decode,
}
use poprocks.Protocol.Codec.Laws.{generate_id_nonzero, decode-encode}
use poprocks.Protocol.Send.{send, send_encoded}
use poprocks.Protocol.Receive.{M, handle, handle_current, new_m, handle_current-IsRespectful}

abbrev pub header_of : ℕ → ℕ → Bytes → Header
header_of id t p = record { id = id; msg_type = t; length = length p }

-- What a buffered send that returns nil has put on the wire.
module _ {ℓ} {T : Type ℓ} (formats : Formats T) (codec : Codec) (config : MessengerConfig)
    (draws : List (Result ℕ)) (v : T) (w : Outbox) where
  send_sent :
      {w' : Outbox}
      → codec.stream ≡ false
      → pos 0 ≤ℤ config.max_retries
      → should_await_acknowledge config.require_acknowledge codec.type_id ≡ false
      → ((p : Bytes) → encode formats codec v ≡ ok p → length p < 2 ^ 32)
      → send formats codec config draws v w ≡ (some none, w')
      → (id : ℕ) × (p : Bytes) × (generate_id draws ≡ some (ok id))
        × (encode formats codec v ≡ ok p)
        × (w'.link.sent ≡ w.link.sent ++ (put_header (header_of id codec.type_id p) ++ p))
  unfolding send send_encoded to_message to_message_with_id
  send_sent {w'} buffered retries unawaited small e = elim (Option-cases (generate_id draws)) [
    | inl n ↦ ground arith
    | inr (err x, g) ↦ ground arith
    | inr (ok id, g) ↦ elim (Result-cases (encode formats codec v)) [
      | inl (x, n) ↦ ground arith
      | inr (p, n) ↦
          let m = new_message id codec.type_id p in
          let head = header-new_message id codec.type_id p in
          let kind : m.msg_type ≡ codec.type_id = ap (λ (h : Header). h.msg_type) head in
          let own : m.id ≡ id = ap (λ (h : Header). h.id) head in
          let sent =
            send_whole config w.link w.acks m (bytes_reader []) p retries (rw kind unawaited)
              (read_all-new_message id codec.type_id p (bytes_reader [])) (small p n)
              (ground arith) in
          (id, p, g, n, ground arith)
    ]
  ]

-- A message for which nobody waits, of a type that has a handler.
handle_message_handler {ℓ} :
    {S : Type ℓ} (d : Handlers S) (st : State S) (m : Message) (conn : Stream) (f : Handler S)
    → lookup m.id st.requests.pending_responses ≡ none
    → m.msg_type ≢ acknowledge_type_id
    → lookup m.msg_type d.receivers ≡ some f
    → handle_message d st m conn ≡ run_handler f st m conn
unfolding handle_message resolve_response
handle_message_handler d st m conn f n t e = ground arith

-- A handler that was taken stands under its type, beside those that were there.
pub registered-AreRespectful {ℓ} :
    {S : Type ℓ} (t : ℕ) (f : Handler S) (d d' : Handlers S)
    → IsRespectful f
    → AreRespectful d
    → Messenger.on_receive t (some f) d ≡ (none, d')
    → (lookup t d'.receivers ≡ some f) × AreRespectful d'
registered-AreRespectful t f d d' good a taken =
    let here = λ (u : ℕ). (on_receive_registers t u f d d' taken).1 in
    let same : d'.unknown ≡ d.unknown = on_receive_unknown t f d d' taken in
    (
      here t ∙ ground arith,
      record {
        of_type = λ u g e'. elim (Bool-cases (t == u)) [
          | inl eq ↦ subst IsRespectful (ground (arith, here u)) good
          | inr ne ↦ a.of_type u g (ground (arith, here u))
        ];
        of_unknown = λ g e'. a.of_unknown g (sym same ∙ e');
      },
    )

module _ {ℓ κ} {T : Type ℓ} {S : Type κ} (formats : Formats T) (c : Codec) (max : ℤ) where
  -- Two errors, of which the first counts, and a state.
  abbrev pub Gives : Option Error → (Option Error × S) → Option Error × State S → Type κ
  Gives finish (e, u) out = (out.0 ≡ first_error e finish) × (out.1.user ≡ u)

  -- A handler that calls `f` with the value that it decodes.
  run_handle :
      (g : Handler S) (f : T → S → Option Error × S) (v : T) (st : State S) (m : Message)
      (conn : Stream)
      → g st.user m conn ≡ handle formats c (some f) st.user m conn
      → (decode formats c m conn).0 ≡ ok v
      → let r = run_handler g st m conn in (r.0 ≡ (f v st.user).0) × (r.1.user ≡ (f v st.user).1)
  unfolding run_handler handle
  run_handle g f v st m conn e q = elim (Option-cases (f v st.user).0) [
    | inl n ↦ (ground arith, ground arith)
    | inr (x, n) ↦ (ground arith, ground arith)
  ]

  module _ (g : Handler S) (f : T → S → Option Error × S) (d : Handlers S) (st : State S) (v : T)
      (id : ℕ) (p : Bytes) (buffered : c.stream ≡ false)
      (law : (q : Bytes) → formats.marshal c.codec v ≡ ok q → formats.unmarshal c.codec q ≡ ok v)
      (coded : encode formats c v ≡ ok p) (own_type : c.type_id ≢ acknowledge_type_id)
      (free : lookup id st.requests.pending_responses ≡ none)
      (own : lookup c.type_id d.receivers ≡ some g)
      (calls : (m : Message) (conn : Stream)
        → m.header ≡ header_of id c.type_id p
        → g st.user m conn ≡ handle formats c (some f) st.user m conn) where
    -- One frame with the bytes of a value: `f` gets the value.
    dispatch_value :
        (finish : Option Error)
        → Gives finish (f v st.user) (dispatch finish d st ((header_of id c.type_id p, p) ∷ []))
    unfolding dispatch
    dispatch_value finish =
        let conn = bytes_reader p in
        let m = new_message_from_header (header_of id c.type_id p) in
        let head = header-new_message_from_header (header_of id c.type_id p) in
        let decoded =
          decode-encode formats c v id p [] conn buffered law coded (failure-bytes_reader p)
            (content-bytes_reader p ∙ sym (append-nil p)) in
        let (x, y) = run_handle g f v st m conn (calls m conn head) decoded in
        let handled =
          handle_message_handler d st m conn g (ground arith) (ground arith) (ground arith) in
        elim (Option-cases (f v st.user).0) [
          | inl o ↦ (ground arith, ground arith)
          | inr (w, o) ↦ (ground arith, ground arith)
        ]

    -- A connection that holds the frame, served.
    pub serve_value :
        (ctx_err : Option Error) (rounds : ℕ) (conn : Stream)
        → AreRespectful d
        → IsFrame max (header_of id c.type_id p, p)
        → content conn ≡ put_header (header_of id c.type_id p) ++ p
        → failure conn ≡ eof
        → 2 ≤ rounds
        → (out : Option Error × State S) × (serve rounds ctx_err max d st conn ≡ some out)
          × Gives (serve_end ctx_err eof) (f v st.user) out
    serve_value ctx_err rounds conn all whole arrives ends_well enough =
        let frame : Frame = (header_of id c.type_id p, p) in
        let bytes : content conn ≡ wire (frame ∷ []) =
          arrives ∙ ap (◌++◌ (put_header frame.0)) (sym (append-nil p)) in
        let served =
          serve_frames max ctx_err d all (frame ∷ []) rounds st conn ends_well (whole, tt) bytes
            enough in
        let result = dispatch_value (serve_end ctx_err eof) in
        (dispatch (serve_end ctx_err eof) d st (frame ∷ []), served, result)

-- After `NewM` its handler stands under the type of the codec.
new_m_registers {ℓ κ} :
    {T : Type ℓ} {S : Type κ} (formats : Formats T) (c : Codec)
    (receiver_of : S → Option (T → S → Option Error × S)) (d d' : Handlers S)
    (m : M (T → S → Option Error × S))
    → c.stream ≡ false
    → AreRespectful d
    → new_m formats receiver_of (some d) (some c) ≡ ok (m, d')
    → (lookup c.type_id d'.receivers ≡ some (handle_current formats receiver_of c))
      × AreRespectful d'
unfolding new_m
new_m_registers formats c receiver_of d d' m z a e =
    let f = handle_current formats receiver_of c in
    let r = Messenger.on_receive c.type_id (some f) d in
    let taken : r ≡ (none, d') = elim (Option-cases r.0) [
      | inl n ↦ ground arith
      | inr (x, n) ↦ ground arith
    ] in
    registered-AreRespectful c.type_id f d d' (handle_current-IsRespectful formats receiver_of c z)
      a taken

handle_current_calls {ℓ κ} :
    {T : Type ℓ} {S : Type κ} (formats : Formats T) (c : Codec)
    (receiver_of : S → Option (T → S → Option Error × S)) (f : T → S → Option Error × S) (s : S)
    (m : Message) (conn : Stream)
    → receiver_of s ≡ some f
    → handle_current formats receiver_of c s m conn ≡ handle formats c (some f) s m conn
unfolding handle_current
handle_current_calls formats c receiver_of f s m conn e = rw e refl

pub should_await_nothing :
    (require : Bool) (t : ℕ) → require ≡ false → should_await_acknowledge require t ≡ false
unfolding should_await_acknowledge
should_await_nothing require t e = ground arith

pub lookup_nil {ℓ} : {V : Type ℓ} (k : ℕ) → lookup {V = V} k [] ≡ none
unfolding lookup
lookup_nil k = refl

-- A value that `Send` of `M` puts on an empty connection without error, a peer's `Serve` hands to
-- the receiver that `NewM` registered: `Serve` returns the receiver's error, or what it returns
-- at the end of a connection, and the state is what the receiver makes of it with that value. The
-- codec does not stream and its type is below that of acknowledgements, the format unmarshals
-- what it marshals of the value, the payload is within 4 GiB and the peer's limit, the drawn ID
-- fits 64 bits, `MaxRetries` is not negative and no acknowledgements are required, the other
-- handlers go by their own messages, and the peer waits for no response. However the bytes are
-- cut into reads, if there are two rounds at least.
pub serve-send {ℓ κ} :
    {T : Type ℓ} {S : Type κ} (formats : Formats T) (c : Codec) (config : MessengerConfig)
    (draws : List (Result ℕ)) (v : T) (w w' : Outbox)
    (receiver_of : S → Option (T → S → Option Error × S)) (f : T → S → Option Error × S)
    (d d' : Handlers S) (m : M (T → S → Option Error × S)) (st : State S) (max : ℤ)
    (ctx_err : Option Error) (rounds : ℕ) (conn : Stream)
    → c.stream ≡ false
    → c.type_id < acknowledge_type_id
    → ((q : Bytes) → formats.marshal c.codec v ≡ ok q → formats.unmarshal c.codec q ≡ ok v)
    → ((p : Bytes)
        → encode formats c v ≡ ok p
        → (length p < 2 ^ 32) × ((ltb_ℤ (pos 0) max && ltb_ℤ max (pos (length p))) ≡ false))
    → ((id : ℕ) → generate_id draws ≡ some (ok id) → id < 2 ^ 64)
    → pos 0 ≤ℤ config.max_retries
    → config.require_acknowledge ≡ false
    → w.link.sent ≡ []
    → send formats c config draws v w ≡ (some none, w')
    → new_m formats receiver_of (some d) (some c) ≡ ok (m, d')
    → AreRespectful d
    → receiver_of st.user ≡ some f
    → st.requests.pending_responses ≡ []
    → content conn ≡ w'.link.sent
    → failure conn ≡ eof
    → 2 ≤ rounds
    → (out : Option Error × State S) × (serve rounds ctx_err max d' st conn ≡ some out)
      × (out.0 ≡ first_error (f v st.user).0 (serve_end ctx_err eof))
      × (out.1.user ≡ (f v st.user).1)
serve-send formats c config draws v w w' receiver_of f d d' m st max ctx_err rounds conn buffered
      own_type law small ids retries quiet fresh sends made respectful listens idle arrives
      ends_well enough =
    let unawaited = should_await_nothing config.require_acknowledge c.type_id quiet in
    let (id, p, drawn, coded, sent) =
      send_sent formats c config draws v w buffered retries unawaited (λ p e. (small p e).0)
        sends in
    let (own, all) = new_m_registers formats c receiver_of d d' m buffered respectful made in
    let whole : IsFrame max (header_of id c.type_id p, p) = record {
      header_fits = record {
        id_fits = ids id drawn;
        type_fits = omega arith;
        length_fits = (small p coded).0;
      };
      has_id = generate_id_nonzero draws id drawn;
      whole = refl;
      allowed = (small p coded).1;
    } in
    let bytes : content conn ≡ put_header (header_of id c.type_id p) ++ p =
      arrives
      ∙ sent
      ∙ ap (λ (b : Bytes). b ++ (put_header (header_of id c.type_id p) ++ p)) fresh in
    let free : lookup id st.requests.pending_responses ≡ none = rw idle (lookup_nil id) in
    let (out, served, (x, y)) =
      serve_value formats c max (handle_current formats receiver_of c) f d' st v id p buffered law
        coded (λ e. omega arith) free own
        (λ m conn h. handle_current_calls formats c receiver_of f st.user m conn listens) ctx_err
        rounds conn all whole bytes ends_well enough in
    (out, served, x, y)
