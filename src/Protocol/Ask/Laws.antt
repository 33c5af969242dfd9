-- ===== src/Protocol/Ask/Laws.antt =====
-- `Request` of vsock/protocol/r.go against a peer that answers.
use poprocks.Prelude.{
  ℕ, ◌≡◌, refl, sym, ap, ◌∙◌, ◌≢◌, ◌^◌, ◌<◌, inl, inr, false, none, some, List, [], ◌∷◌, ◌++◌,
  arith, length, take_front, take-length, Bytes, nat_eq, lookup, All,
}
use poprocks.Vsock.Errors.{Result, ok, err, eof, Result-cases}
use poprocks.Vsock.Io.{Stream, content, failure, bytes_reader}
use poprocks.Vsock.Io
use poprocks.Vsock.Io.Laws.{fill_bytes, content-bytes_reader, failure-bytes_reader, read_all_eof}
use poprocks.Vsock.Wire.{Header}
use poprocks.Vsock.Message
use poprocks.Vsock.Message.{Message, sink, write_to, new_message, new_message_from_header}
use poprocks.Vsock.Message.Laws.{write_to-new_message_from_header, header-new_message_from_header}
use poprocks.Vsock.Message.Binary.{header-new_message}
use poprocks.Vsock.Send.{MessengerConfig}
use poprocks.Vsock.Request.{Requests, RespEvent, incoming, piped}
use poprocks.Vsock.Request
use poprocks.Vsock.Request.Laws.{IsFresh}
use poprocks.Vsock.Request.Origin.{request-IsFrom}
use poprocks.Vsock.Request.Answer.{IsOther, request_answered}
use poprocks.Vsock.Messenger.Calls.{Outbox, Reply, post, request_message}
use poprocks.Protocol.Codec.{
  Codec, Formats, generate_id, to_message, to_message_with_id, encode, decode,
}
use poprocks.Protocol.Codec.Laws.{decode_payload}
use poprocks.Protocol.Ask.{decoded_reply, ask_encoded, request}

-- The message at the end of its pipe.
read_all-piped :
    (m : Message) (p : Bytes) → (Message.read_all (piped m p) (bytes_reader [])).0 ≡ ok p
unfolding Message.read_all Io.read_all
read_all-piped m p = ground (
  arith,
  fill_bytes (bytes_reader p) (length p),
  content-bytes_reader p,
  take-length (length p) p,
  read_all_eof (record { source = bytes_reader p; remaining = length p }),
  failure-bytes_reader p,
)

module _ {ℓ κ} {Req : Type ℓ} {Resp : Type κ} (req_formats : Formats Req)
    (resp_formats : Formats Resp) (req_codec resp_codec : Codec) (config : MessengerConfig)
    (draws : List (Result ℕ)) (v : Req) (q : Requests) (w : Outbox) where
  -- The message that is sent for the request.
  abbrev pub asked : ℕ → Result Message
  asked id = to_message_with_id req_formats req_codec id v

  -- A request of a value that is encoded is a request of its message.
  request_message_of :
      (id : ℕ) (out : Message) (es : List RespEvent)
      → req_codec.stream ≡ false
      → resp_codec.type_id ≢ 0
      → generate_id draws ≡ some (ok id)
      → asked id ≡ ok out
      → (request req_formats resp_formats req_codec resp_codec config draws v es q w)
        ≡ decoded_reply req_formats resp_formats req_codec resp_codec config
            (Request.request out.id resp_codec.type_id (post config out) es q w)
  unfolding request ask_encoded request_message to_message
  request_message_of id out es z nz g e = ground arith

  out-id : (id : ℕ) (out : Message) → asked id ≡ ok out → out.id ≡ id
  unfolding to_message_with_id
  out-id id out e = elim (Result-cases (encode req_formats req_codec v)) [
    | inl (x, n) ↦ ground arith
    | inr (p, n) ↦
        ap (λ (m : Message). m.id) (sym (made n))
        ∙ ap (λ (h : Header). h.id) (header-new_message id req_codec.type_id p)
  ]
    where
      made :
          {p : Bytes}
          → encode req_formats req_codec v ≡ ok p
          → new_message id req_codec.type_id p ≡ out
      made {p} n = ground arith

  decoded_reply_ok :
      (x : Reply) (m : Message) (r : Resp)
      → x.0 ≡ some (ok m)
      → (decode resp_formats resp_codec m (bytes_reader [])).0 ≡ ok r
      → (decoded_reply req_formats resp_formats req_codec resp_codec config x).0 ≡ some (ok r)
  decoded_reply_ok (none, q', w') m r e d = ground arith
  decoded_reply_ok (some (err y), q', w') m r e d = ground arith
  decoded_reply_ok (some (ok n), q', w') m r e d = ground arith

  -- `Request` of `R` returns the value of which the peer made the response with `ToMessageWithID`
  -- for the ID of the request, when that message comes, whatever messages with other IDs come
  -- before it. Neither codec streams, the response type is not zero, the format unmarshals what
  -- it marshals of the response, the channels in the tables were handed out before, nobody waits
  -- for the ID yet, the request is sent without error, and the response is shorter than 4 GiB and
  -- arrives whole on a connection that ends cleanly.
  pub request-to_message_with_id :
      (id : ℕ) (out back : Message) (r : Resp) (p rest : Bytes) (before after : List RespEvent)
      (conn : Stream)
      → req_codec.stream ≡ false
      → resp_codec.stream ≡ false
      → resp_codec.type_id ≢ 0
      → ((b : Bytes)
          → resp_formats.marshal resp_codec.codec r ≡ ok b
          → resp_formats.unmarshal resp_codec.codec b ≡ ok r)
      → IsFresh q
      → generate_id draws ≡ some (ok id)
      → asked id ≡ ok out
      → lookup id q.pending_responses ≡ none
      → (post config out w).0 ≡ none
      → to_message_with_id resp_formats resp_codec id r ≡ ok back
      → encode resp_formats resp_codec r ≡ ok p
      → length p < 2 ^ 32
      → content conn ≡ p ++ rest
      → failure conn ≡ eof
      → All (IsOther id) before
      → (request req_formats resp_formats req_codec resp_codec config draws v
          (before ++ (incoming (new_message_from_header back.header) conn ∷ after))
          q
          w).0
        ≡ some (ok r)
  unfolding to_message_with_id
  request-to_message_with_id id out back r p rest before after conn z z' nz law f g e free posted
        made coded small arrives ends_well others =
      let own = out-id id out e in
      let es = before ++ (incoming (new_message_from_header back.header) conn ∷ after) in
      let back_is : new_message id resp_codec.type_id p ≡ back = ground arith in
      let head : back.header
          ≡ record { id = id; msg_type = resp_codec.type_id; length = length p } =
        ap (λ (m : Message). m.header) (sym back_is)
        ∙ header-new_message id resp_codec.type_id p
        ∙ ground arith in
      let m = new_message_from_header back.header in
      let same = header-new_message_from_header back.header in
      let (body, fine, _) = write_to-new_message_from_header back.header conn ends_well in
      let whole : (write_to m sink conn).0 ≡ p =
        body ∙ ground (arith, take_front (length p) p rest refl) in
      let answered =
        request_answered out.id resp_codec.type_id (post config out) before after m conn q w f
          (ground arith) posted (rw own others) (ground arith) (ground arith) fine in
      let read = read_all-piped m (write_to m sink conn).0 ∙ ap ok whole in
      let value =
        decode_payload resp_formats resp_codec r (piped m (write_to m sink conn).0)
          (bytes_reader []) p z' law coded (ground arith) read in
      let asks = request_message_of id out es z nz g e in
      ap (λ a. a.0) asks
      ∙ decoded_reply_ok (Request.request out.id resp_codec.type_id (post config out) es q w)
          (piped m (write_to m sink conn).0) r answered value

  reply_decoded :
      (x : Reply) (r : Resp)
      → (decoded_reply req_formats resp_formats req_codec resp_codec config x).0 ≡ some (ok r)
      → (m : Message) × (x.0 ≡ some (ok m))
        × ((decode resp_formats resp_codec m (bytes_reader [])).0 ≡ ok r)
  reply_decoded (none, q', w') r e = ground arith
  reply_decoded (some (err y), q', w') r e = ground arith
  reply_decoded (some (ok m), q', w') r e = (m, refl, ground arith)

  -- A value that `Request` of `R` returns was decoded from a message that came off the connection
  -- while it waited, with the ID that was drawn for this request and the type of the response
  -- codec, and from the payload that stood behind that message, if the request codec does not
  -- stream, the response type is not zero, the channels in the tables were handed out before, and
  -- the request could be encoded.
  pub request_decodes :
      (id : ℕ) (out : Message) (es : List RespEvent) (r : Resp)
      → req_codec.stream ≡ false
      → resp_codec.type_id ≢ 0
      → IsFresh q
      → generate_id draws ≡ some (ok id)
      → asked id ≡ ok out
      → (request req_formats resp_formats req_codec resp_codec config draws v es q w).0
        ≡ some (ok r)
      → (before after : List RespEvent) × (m : Message) × (conn : Stream) × (es
          ≡ before ++ (incoming m conn ∷ after))
        × (m.id ≡ id)
        × (m.msg_type ≡ resp_codec.type_id)
        × ((decode resp_formats resp_codec (piped m (write_to m sink conn).0) (bytes_reader [])).0
            ≡ ok r)
  request_decodes id out es r z nz f g e answered =
      let asks = request_message_of id out es z nz g e in
      let (m, came, value) =
        reply_decoded (Request.request out.id resp_codec.type_id (post config out) es q w) r
          (ap (λ a. a.0) (sym asks) ∙ answered) in
      let o = request-IsFrom out.id resp_codec.type_id (post config out) es q w m f came in
      let same = ap (λ x. (decode resp_formats resp_codec x (bytes_reader [])).0) (sym o.is) in
      (
        o.before,
        o.after,
        o.came,
        o.conn,
        o.among,
        o.own_id ∙ out-id id out e,
        o.own_type,
        same ∙ value,
      )
