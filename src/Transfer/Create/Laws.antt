-- ===== src/Transfer/Create/Laws.antt =====
-- `NewFileTransfer` of vsock/protocol/common/file_transfer.go against the handlers that a messenger has.
use poprocks.Prelude.{
  ℕ, ◌+◌, ◌≡◌, refl, ap, ◌∙◌, ◌⊎◌, ◌==◌, inl, inr, false, none, some, Option-cases, arith, nat_eq,
  lookup, insert, lookup-insert,
}
use poprocks.Vsock.Errors.{ok, err, handler_already_registered}
use poprocks.Vsock.Messenger
use poprocks.Vsock.Messenger.{Handler, Handlers}
use poprocks.Vsock.Messenger.Config.{on_receive_free}
use poprocks.Protocol.Codec.{
  Codec, codec_msgpack, codec_stream, make_codec, new_codec_of_type, is_valid_codec_type,
}
use poprocks.Protocol.Receive.{on_receive, new_m, handle_current}
use poprocks.Protocol.Respond.{new_r, handle_current_request}
use poprocks.Transfer.Create.{
  type_file_transfer_open, type_file_transfer_body, type_file_transfer_commit, Host, Wiring, Parts,
  on_open, on_body, on_commit, register_handlers, codecs, new_commit, new_parts, new_file_transfer,
}

abbrev open_codec : Codec
open_codec = make_codec type_file_transfer_open codec_msgpack

abbrev opened_codec : Codec
opened_codec = make_codec (type_file_transfer_open + 100) codec_msgpack

abbrev body_codec : Codec
body_codec = make_codec type_file_transfer_body codec_stream

abbrev commit_codec : Codec
commit_codec = make_codec type_file_transfer_commit codec_msgpack

abbrev committed_codec : Codec
committed_codec = make_codec (type_file_transfer_commit + 100) codec_msgpack

codecs_made : codecs ≡ ok (open_codec, opened_codec, body_codec, commit_codec, committed_codec)
unfolding codecs new_codec_of_type is_valid_codec_type
codecs_made = refl

-- The handlers with one more.
abbrev with_handler {ℓ} : {S : Type ℓ} → ℕ → Handler S → Handlers S → Handlers S
with_handler t f d = record d { receivers = insert t f d.receivers }

module _ {ℓ} {S : Type ℓ} (host : Host S) (w : Wiring S) where
  abbrev open_handler : Handler S
  open_handler =
      handle_current_request w.open_request w.open_response open_codec opened_codec w.send
        w.send_stream_with_id w.open_of

  abbrev body_handler : Handler S
  body_handler = handle_current w.body w.body_of body_codec

  abbrev commit_handler : Handler S
  commit_handler =
      handle_current_request w.commit_request w.commit_response commit_codec committed_codec w.send
        w.send_stream_with_id w.commit_of

  -- The three types have no handler.
  pub record AreFree (d : Handlers S) : Type ℓ where
    pub open_free : lookup type_file_transfer_open d.receivers ≡ none
    pub body_free : lookup type_file_transfer_body d.receivers ≡ none
    pub commit_free : lookup type_file_transfer_commit d.receivers ≡ none

  -- The handlers with all three.
  abbrev pub with_transfer : Handlers S → Handlers S
  with_transfer d = with_handler type_file_transfer_commit commit_handler (
      with_handler type_file_transfer_body body_handler
        (with_handler type_file_transfer_open open_handler d))

  -- The parts with their handlers.
  abbrev pub parts : Parts S
  parts = record {
    opening = record { receiver = some (on_open host) };
    body = record { receiver = some (on_body host) };
    commit = record { receiver = some (on_commit host) };
  }

  lookup-with_handler :
      (t u : ℕ) (f : Handler S) (d : Handlers S)
      → (t == u) ≡ false
      → lookup u (with_handler t f d).receivers ≡ lookup u d.receivers
  lookup-with_handler t u f d e = ground (arith, lookup-insert t u f d.receivers)

  new_r_open :
      (d : Handlers S)
      → lookup type_file_transfer_open d.receivers ≡ none
      → new_r w.open_request w.open_response w.send w.send_stream_with_id w.open_of
          (some d)
          (some open_codec)
          (some opened_codec)
        ≡ ok (record { receiver = none }, with_handler type_file_transfer_open open_handler d)
  unfolding new_r
  new_r_open d n =
      let free = on_receive_free type_file_transfer_open open_handler d (omega arith) n in
      ground arith

  new_m_body :
      (d : Handlers S)
      → lookup type_file_transfer_body d.receivers ≡ none
      → new_m w.body w.body_of (some d) (some body_codec)
        ≡ ok (record { receiver = none }, with_handler type_file_transfer_body body_handler d)
  unfolding new_m
  new_m_body d n =
      let free = on_receive_free type_file_transfer_body body_handler d (omega arith) n in
      ground arith

  new_r_commit :
      (d : Handlers S)
      → lookup type_file_transfer_commit d.receivers ≡ none
      → new_r w.commit_request w.commit_response w.send w.send_stream_with_id w.commit_of
          (some d)
          (some commit_codec)
          (some committed_codec)
        ≡ ok (record { receiver = none }, with_handler type_file_transfer_commit commit_handler d)
  unfolding new_r
  new_r_commit d n =
      let free = on_receive_free type_file_transfer_commit commit_handler d (omega arith) n in
      ground arith

  -- With the three types free the transfer is made.
  new_file_transfer-AreFree :
      (d : Handlers S) → AreFree d → new_file_transfer host w d ≡ (ok parts, with_transfer d)
  unfolding new_file_transfer new_parts new_commit register_handlers on_receive
  new_file_transfer-AreFree d f =
      let d1 = with_handler type_file_transfer_open open_handler d in
      let d2 = with_handler type_file_transfer_body body_handler d1 in
      let body_free =
        lookup-with_handler type_file_transfer_open type_file_transfer_body open_handler d refl
        ∙ f.body_free in
      let commit_free =
        lookup-with_handler type_file_transfer_body type_file_transfer_commit body_handler d1 refl
        ∙ lookup-with_handler type_file_transfer_open type_file_transfer_commit open_handler d refl
        ∙ f.commit_free in
      let first = new_r_open d f.open_free in
      let second = new_m_body d1 body_free in
      let third = new_r_commit d2 commit_free in ground (arith, codecs_made)

  open_taken :
      (d : Handlers S) (g : Handler S)
      → lookup type_file_transfer_open d.receivers ≡ some g
      → new_file_transfer host w d ≡ (err handler_already_registered, d)
  unfolding new_file_transfer new_parts new_r Messenger.on_receive
  open_taken d g e = ground (arith, codecs_made)

  body_taken :
      (d : Handlers S) (g : Handler S)
      → lookup type_file_transfer_open d.receivers ≡ none
      → lookup type_file_transfer_body d.receivers ≡ some g
      → new_file_transfer host w d
        ≡ (err handler_already_registered, with_handler type_file_transfer_open open_handler d)
  unfolding new_file_transfer new_parts new_m Messenger.on_receive
  body_taken d g n e =
      let d1 = with_handler type_file_transfer_open open_handler d in
      let first = new_r_open d n in
      let there =
        lookup-with_handler type_file_transfer_open type_file_transfer_body open_handler d refl
        ∙ e in
      ground (arith, codecs_made)

  commit_taken :
      (d : Handlers S) (g : Handler S)
      → lookup type_file_transfer_open d.receivers ≡ none
      → lookup type_file_transfer_body d.receivers ≡ none
      → lookup type_file_transfer_commit d.receivers ≡ some g
      → new_file_transfer host w d ≡ (
        err handler_already_registered,
        with_handler type_file_transfer_body body_handler
            (with_handler type_file_transfer_open open_handler d),
      )
  unfolding new_file_transfer new_parts new_commit new_r Messenger.on_receive
  commit_taken d g n n' e =
      let d1 = with_handler type_file_transfer_open open_handler d in
      let d2 = with_handler type_file_transfer_body body_handler d1 in
      let first = new_r_open d n in
      let second = new_m_body d1 (
        lookup-with_handler type_file_transfer_open type_file_transfer_body open_handler d refl
        ∙ n') in
      let there =
        lookup-with_handler type_file_transfer_body type_file_transfer_commit body_handler d1 refl
        ∙ lookup-with_handler type_file_transfer_open type_file_transfer_commit open_handler d refl
        ∙ e in
      ground (arith, codecs_made)

  -- `NewFileTransfer` on a messenger of which none of the three types has a handler registers its
  -- three, and makes a transfer with its own handlers; otherwise it fails because a handler is
  -- registered.
  pub new_file_transfer_lem :
      (d : Handlers S)
      → (AreFree d × (new_file_transfer host w d ≡ (ok parts, with_transfer d)))
        ⊎ ((¬ AreFree d) × ((new_file_transfer host w d).0 ≡ err handler_already_registered))
  new_file_transfer_lem d = elim (Option-cases (lookup type_file_transfer_open d.receivers)) [
    | inr (g, x) ↦ inr (λ f. let y = f.open_free in ground arith, ap (λ r. r.0) (open_taken d g x))
    | inl x ↦ elim (Option-cases (lookup type_file_transfer_body d.receivers)) [
      | inr (g, y) ↦
          inr (λ f. let z = f.body_free in ground arith, ap (λ r. r.0) (body_taken d g x y))
      | inl y ↦ elim (Option-cases (lookup type_file_transfer_commit d.receivers)) [
        | inr (g, z) ↦
            inr (λ f. let v = f.commit_free in ground arith, ap (λ r. r.0) (commit_taken d g x y z))
        | inl z ↦
            let free : AreFree d = record { open_free = x; body_free = y; commit_free = z } in
            inl (free, new_file_transfer-AreFree d free)
      ]
    ]
  ]
