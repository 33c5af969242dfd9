-- ===== src/Protocol/Deliver/Request.antt =====
-- From the request of `Request` of vsock/protocol/r.go on one side to the handler that `NewR` serves on
-- the other, and to the response that it sends.
use poprocks.Prelude.{
  ℕ, ◌^◌, ◌≤◌, ◌<◌, ◌≡◌, refl, ap, ◌∙◌, ◌≢◌, ◌&&◌, inl, inr, false, Option, none, some,
  Option-cases, [], ◌++◌, arith, length, Bytes, nat_eq, lookup,
}
use poprocks.Prelude.Int.{ℤ, pos, ◌≤ℤ◌, ltb_ℤ}
use poprocks.Vsock.Errors.{Error, Result, ok, eof}
use poprocks.Vsock.Io.{Stream, content, failure, bytes_reader}
use poprocks.Vsock.Wire.{Header, put_header}
use poprocks.Vsock.Message.{Message, new_message}
use poprocks.Vsock.Message.Binary.{read_all-new_message, header-new_message}
use poprocks.Vsock.Ack.{acknowledge_type_id}
use poprocks.Vsock.Send.{MessengerConfig, Reader}
use poprocks.Vsock.Messenger
use poprocks.Vsock.Messenger.{Handler, Handlers, State, serve, serve_end, first_error}
use poprocks.Vsock.Messenger.Serve.{IsRespectful, AreRespectful}
use poprocks.Vsock.Messenger.Config.{send_whole}
use poprocks.Vsock.Messenger.Frames.{IsFrame}
use poprocks.Vsock.Messenger.Calls.{Outbox, post}
use poprocks.Protocol.Codec.{Codec, Formats, to_message_with_id, encode}
use poprocks.Protocol.Receive.{M, handle}
use poprocks.Protocol.Respond.{
  respond, respond_encoded, handle_request, handle_current_request, new_r,
  handle_request-IsRespectful,
}
use poprocks.Protocol.Deliver.{
  header_of, registered-AreRespectful, serve_value, should_await_nothing, lookup_nil,
}

-- What posting a message that was made of a payload puts on the wire.
post_sent :
    (config : MessengerConfig) (id t : ℕ) (p : Bytes) (w : Outbox)
    → pos 0 ≤ℤ config.max_retries
    → config.require_acknowledge ≡ false
    → length p < 2 ^ 32
    → (post config (new_message id t p) w).0 ≡ none
    → (post config (new_message id t p) w).1.link.sent
      ≡ w.link.sent ++ (put_header (header_of id t p) ++ p)
post_sent config id t p w retries quiet small sent =
    let m = new_message id t p in
    let head = header-new_message id t p in
    let kind : m.msg_type ≡ t = ap (λ (h : Header). h.msg_type) head in
    let own : m.id ≡ id = ap (λ (h : Header). h.id) head in
    let whole =
      send_whole config w.link w.acks m (bytes_reader []) p retries
        (rw kind (should_await_nothing config.require_acknowledge t quiet))
        (read_all-new_message id t p (bytes_reader [])) small sent in
    ground arith

module _ {ℓ κ μ} {Req : Type ℓ} {Resp : Type κ} {S : Type μ} (req_formats : Formats Req)
    (resp_formats : Formats Resp) (req_codec resp_codec : Codec)
    (send : Message → S → Option Error × S)
    (send_stream_with_id : ℕ → ℕ → ℕ → Reader → S → Option Error × S)
    (handler_of : S → Option (Req → S → Result Resp × S)) where
  abbrev pub registered_handler : Handler S
  registered_handler =
      handle_current_request req_formats resp_formats req_codec resp_codec send send_stream_with_id
        handler_of

  -- What is called for a request with the given ID.
  abbrev pub responds : (Req → S → Result Resp × S) → ℕ → Req → S → Option Error × S
  responds h = respond req_formats resp_formats req_codec resp_codec send send_stream_with_id h

  registered_handler-IsRespectful : req_codec.stream ≡ false → IsRespectful registered_handler
  unfolding handle_current_request
  registered_handler-IsRespectful z =
      let r = λ (s : S).
        handle_request-IsRespectful req_formats resp_formats req_codec resp_codec send
          send_stream_with_id (handler_of s) z in
      record {
        same_error = λ s. (r s).same_error s;
        same_state = λ s. (r s).same_state s;
        leaves_rest = λ s. (r s).leaves_rest s;
      }

  registered_handler_calls :
      (h : Req → S → Result Resp × S) (s : S) (m : Message) (conn : Stream)
      → handler_of s ≡ some h
      → registered_handler s m conn ≡ handle req_formats req_codec (some (responds h m.id)) s m conn
  unfolding handle_current_request handle_request handle
  registered_handler_calls h s m conn e = rw e refl

  new_r_registers :
      (d d' : Handlers S) (r : M (Req → S → Result Resp × S))
      → req_codec.stream ≡ false
      → AreRespectful d
      → new_r req_formats resp_formats send send_stream_with_id handler_of
          (some d)
          (some req_codec)
          (some resp_codec)
        ≡ ok (r, d')
      → (lookup req_codec.type_id d'.receivers ≡ some registered_handler) × AreRespectful d'
  unfolding new_r
  new_r_registers d d' r z a e =
      let f = registered_handler in
      let x = Messenger.on_receive req_codec.type_id (some f) d in
      let taken : x ≡ (none, d') = elim (Option-cases x.0) [
        | inl n ↦ ground arith
        | inr (y, n) ↦ ground arith
      ] in
      registered-AreRespectful req_codec.type_id f d d' (registered_handler-IsRespectful z) a taken

  -- A handler that returns a value sends its response.
  responds_with :
      (h : Req → S → Result Resp × S) (id : ℕ) (v : Req) (s s' : S) (r : Resp) (back : Message)
      → resp_codec.stream ≡ false
      → h v s ≡ (ok r, s')
      → to_message_with_id resp_formats resp_codec id r ≡ ok back
      → responds h id v s ≡ send back s'
  unfolding respond respond_encoded
  responds_with h id v s s' r back z e made = ground arith

  -- A request that is posted without error on an empty connection is handed by a peer's `Serve`
  -- to the handler that `NewR` registered: when the handler returns a value, the message that
  -- `ToMessageWithID` makes of it for the ID of the request is sent, `Serve` returns the error of
  -- that send, or what it returns at the end of a connection, and the state is what the send
  -- makes of the handler's. Neither codec streams, the type of requests is below that of
  -- acknowledgements, the format unmarshals what it marshals of the request, its payload is
  -- within 4 GiB and the peer's limit, the ID is not zero and fits 64 bits, `MaxRetries` is not
  -- negative and no acknowledgements are required, the other handlers go by their own messages,
  -- and the peer waits for no response.
  pub serve-post :
      (config : MessengerConfig) (id : ℕ) (v : Req) (p : Bytes) (w : Outbox)
      (h : Req → S → Result Resp × S) (r : Resp) (s' : S) (back : Message) (d d' : Handlers S)
      (m : M (Req → S → Result Resp × S)) (st : State S) (max : ℤ) (ctx_err : Option Error)
      (rounds : ℕ) (conn : Stream)
      → req_codec.stream ≡ false
      → resp_codec.stream ≡ false
      → req_codec.type_id < acknowledge_type_id
      → ((q : Bytes)
          → req_formats.marshal req_codec.codec v ≡ ok q
          → req_formats.unmarshal req_codec.codec q ≡ ok v)
      → encode req_formats req_codec v ≡ ok p
      → length p < 2 ^ 32
      → (ltb_ℤ (pos 0) max && ltb_ℤ max (pos (length p))) ≡ false
      → id ≢ 0
      → id < 2 ^ 64
      → pos 0 ≤ℤ config.max_retries
      → config.require_acknowledge ≡ false
      → w.link.sent ≡ []
      → (post config (new_message id req_codec.type_id p) w).0 ≡ none
      → new_r req_formats resp_formats send send_stream_with_id handler_of
          (some d)
          (some req_codec)
          (some resp_codec)
        ≡ ok (m, d')
      → AreRespectful d
      → handler_of st.user ≡ some h
      → h v st.user ≡ (ok r, s')
      → to_message_with_id resp_formats resp_codec id r ≡ ok back
      → st.requests.pending_responses ≡ []
      → content conn ≡ (post config (new_message id req_codec.type_id p) w).1.link.sent
      → failure conn ≡ eof
      → 2 ≤ rounds
      → (out : Option Error × State S) × (serve rounds ctx_err max d' st conn ≡ some out)
        × (out.0 ≡ first_error (send back s').0 (serve_end ctx_err eof))
        × (out.1.user ≡ (send back s').1)
  serve-post config id v p w h r s' back d d' m st max ctx_err rounds conn z z' own_type law coded
        small allowed nz fits retries quiet fresh posted registered respectful listens works made
        idle arrives ends_well enough =
      let (own, all) = new_r_registers d d' m z respectful registered in
      let whole : IsFrame max (header_of id req_codec.type_id p, p) = record {
        header_fits = record { id_fits = fits; type_fits = omega arith; length_fits = small };
        has_id = nz;
        whole = refl;
        allowed = allowed;
      } in
      let bytes : content conn ≡ put_header (header_of id req_codec.type_id p) ++ p =
        arrives
        ∙ post_sent config id req_codec.type_id p w retries quiet small posted
        ∙ ap (λ (b : Bytes). b ++ (put_header (header_of id req_codec.type_id p) ++ p)) fresh in
      let free : lookup id st.requests.pending_responses ≡ none = rw idle (lookup_nil id) in
      let (out, served, (x, y)) =
        serve_value req_formats req_codec max registered_handler (responds h id) d' st v id p z law
          coded (λ e. omega arith) free own
          (λ m conn e.
            registered_handler_calls h st.user m conn listens
            ∙ ap (λ (n : ℕ). handle req_formats req_codec (some (responds h n)) st.user m conn)
                (ap (λ (k : Header). k.id) e))
          ctx_err rounds conn all whole bytes ends_well enough in
      let answers = responds_with h id v st.user s' r back z' works made in
      (out, served, ground arith, ground arith)
