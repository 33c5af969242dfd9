-- ===== src/Protocol/Receive.antt =====
-- vsock/protocol/m.go and r.go: what `NewM` registers with the messenger, and who may receive. The
-- messenger's state `S` is what the receivers change.
use poprocks.Prelude.{
  ◌≡◌, refl, sym, ap, ◌∙◌, ◌==◌, Bool, true, false, Option, none, some, Bool-cases, inl, inr, arith,
}
use poprocks.Vsock.Errors.{
  Error, Result, ok, err, eof, nil_handler, nil_transport, nil_codec, handler_already_registered,
  Result-cases,
}
use poprocks.Vsock.Io.{Stream, failure}
use poprocks.Vsock.Io.Laws.{failure-bytes_reader}
use poprocks.Vsock.Wire.{Header}
use poprocks.Vsock.Message
use poprocks.Vsock.Message.{Message, new_message_from_header}
use poprocks.Vsock.Message.Laws.{LeavesRest, read_all-new_message_from_header, read_all-LeavesRest}
use poprocks.Vsock.Messenger
use poprocks.Vsock.Messenger.{Handler, Handlers}
use poprocks.Vsock.Messenger.Serve.{alone, IsRespectful, untouched, same_payload}
use poprocks.Protocol.Codec.{Codec, Formats, decode}

-- `M[T]`; its codec is an argument of what uses it.
pub record M {ℓ} (F : Type ℓ) : Type ℓ where
  pub receiver : Option F

module _ {ℓ} {F : Type ℓ} where
  -- `OnReceive` of `M`, and `OnRequest` of `R`.
  unfoldable pub on_receive : Option F → M F → Option Error × M F
  on_receive none m = (some nil_handler, m)
  on_receive (some f) m = elim m.receiver [
    | some g ↦ (some handler_already_registered, m)
    | none ↦ (none, record { receiver = some f })
  ]

  -- `RemoveReceiver`
  unfoldable pub remove_receiver : M F → Bool × M F
  remove_receiver m = elim m.receiver [
    | none ↦ (false, m)
    | some f ↦ (true, record { receiver = none })
  ]

  -- A receiver stays until it is removed: another is refused, and then taken.
  pub on_receive_once :
      (f g : F) (m m' : M F)
      → on_receive (some f) m ≡ (none, m')
      → (on_receive (some g) m' ≡ (some handler_already_registered, m'))
        × ((remove_receiver m').0 ≡ true)
        × ((on_receive (some g) (remove_receiver m').1).0 ≡ none)
  unfolding on_receive remove_receiver
  on_receive_once f g m m' e = (ground arith, ground arith, ground arith)

module _ {ℓ} {T : Type ℓ} (formats : Formats T) (c : Codec) where
  -- A message off the connection, as a codec that does not stream decodes it.
  decode_alone :
      (h : Header) (conn : Stream)
      → c.stream ≡ false
      → failure conn ≡ eof
      → let m = new_message_from_header h in
        ((decode formats c m conn).0 ≡ (decode formats c m (alone h conn)).0)
        × LeavesRest h conn (decode formats c m conn).1 (decode formats c m conn).2
  unfolding decode
  decode_alone h conn s f =
      let m = new_message_from_header h in
      let p = (read_all-new_message_from_header h conn f).0 in
      let p' = (read_all-new_message_from_header h (alone h conn) (failure-bytes_reader _)).0 in
      let same : (Message.read_all m conn).0 ≡ (Message.read_all m (alone h conn)).0 =
        p ∙ sym (ap ok (same_payload h conn)) ∙ sym p' in
      let z = read_all-LeavesRest h conn f in
      elim (Bool-cases (m.msg_type == c.type_id)) [
        | inl t ↦
            let e : (decode formats c m conn).1 ≡ (Message.read_all m conn).1 = ground arith in
            let e' : (decode formats c m conn).2 ≡ (Message.read_all m conn).2 = ground arith in
            (ground arith, rw (e, e') z)
        | inr t ↦
            let e : (decode formats c m conn).1 ≡ m = ground arith in
            let e' : (decode formats c m conn).2 ≡ conn = ground arith in
            (ground arith, rw (e, e') (untouched h conn f))
      ]

module _ {ℓ κ} {T : Type ℓ} {S : Type κ} (formats : Formats T) (c : Codec) where
  -- The handler that `NewM` registers, over the receiver of the moment.
  unfoldable pub handle : Option (T → S → Option Error × S) → Handler S
  handle none s m conn = (none, s, m, conn)
  handle (some receiver) s m conn =
      let (t, m', conn') = decode formats c m conn in
      elim t [
        | err e ↦ (some e, s, m', conn')
        | ok v ↦ let (e, s') = receiver v s in (e, s', m', conn')
      ]

  handle_rest :
      (receiver : T → S → Option Error × S) (s : S) (m : Message) (conn : Stream)
      → ((handle (some receiver) s m conn).2 ≡ (decode formats c m conn).1)
        × ((handle (some receiver) s m conn).3 ≡ (decode formats c m conn).2)
  unfolding handle
  handle_rest receiver s m conn = elim (Result-cases (decode formats c m conn).0) [
    | inl (e, x) ↦ (ground arith, ground arith)
    | inr (v, x) ↦ (ground arith, ground arith)
  ]

  handle_same :
      (receiver : T → S → Option Error × S) (s : S) (m : Message) (conn conn' : Stream)
      → (decode formats c m conn).0 ≡ (decode formats c m conn').0
      → ((handle (some receiver) s m conn).0 ≡ (handle (some receiver) s m conn').0)
        × ((handle (some receiver) s m conn).1 ≡ (handle (some receiver) s m conn').1)
  unfolding handle
  handle_same receiver s m conn conn' e = elim (Result-cases (decode formats c m conn).0) [
    | inl (x, h) ↦ (ground arith, ground arith)
    | inr (v, h) ↦ (ground arith, ground arith)
  ]

  -- What `NewM` registers for a codec that does not stream goes by its own message alone: its
  -- error and what it does to the state do not depend on the rest of the connection nor on how it
  -- comes, and what it leaves on the connection is all that stands behind the message.
  pub handle-IsRespectful :
      (receiver : Option (T → S → Option Error × S))
      → c.stream ≡ false
      → IsRespectful (handle receiver)
  unfolding handle
  handle-IsRespectful none z = record {
    same_error = λ s h conn f. refl;
    same_state = λ s h conn f. refl;
    leaves_rest = λ s h conn f. untouched h conn f;
  }
  handle-IsRespectful (some receiver) z = record {
    same_error = λ s h conn f.
        (handle_same receiver s (new_message_from_header h) conn (alone h conn)
          (decode_alone formats c h conn z f).0).0;
    same_state = λ s h conn f.
        (handle_same receiver s (new_message_from_header h) conn (alone h conn)
          (decode_alone formats c h conn z f).0).1;
    leaves_rest = λ s h conn f.
        let r = handle_rest receiver s (new_message_from_header h) conn in
        rw (r.0, r.1) (decode_alone formats c h conn z f).1;
  }

module _ {ℓ κ} {T : Type ℓ} {S : Type κ} (formats : Formats T)
    (receiver_of : S → Option (T → S → Option Error × S)) where
  -- What `NewM` registers: it looks up the receiver when a message comes, which `receiver_of` finds
  -- in the state.
  unfoldable pub handle_current : Codec → Handler S
  unfolding handle
  handle_current c s m conn = handle formats c (receiver_of s) s m conn

  -- `NewM`
  unfoldable pub new_m :
      Option (Handlers S) → Option Codec → Result (M (T → S → Option Error × S) × Handlers S)
  unfolding handle_current Messenger.on_receive
  new_m none codec = err nil_transport
  new_m (some d) none = err nil_codec
  new_m (some d) (some c) =
      let (e, d') = Messenger.on_receive c.type_id (some (handle_current c)) d in
      elim e [ some x ↦ err x | none ↦ ok (record { receiver = none }, d') ]

  pub handle_current-IsRespectful : (c : Codec) → c.stream ≡ false → IsRespectful (handle_current c)
  unfolding handle_current
  handle_current-IsRespectful c z = record {
    same_error = λ s. (handle-IsRespectful formats c (receiver_of s) z).same_error s;
    same_state = λ s. (handle-IsRespectful formats c (receiver_of s) z).same_state s;
    leaves_rest = λ s. (handle-IsRespectful formats c (receiver_of s) z).leaves_rest s;
  }
