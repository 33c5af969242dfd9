-- ===== src/Transfer/Create.antt =====
-- `NewFileTransfer` of vsock/protocol/common/file_transfer.go: its five codecs, and the three handlers
-- that it registers, over the state `S` that the messenger's handlers change.
pub mod Laws
use poprocks.Prelude.{ℕ, ◌+◌, Option, none, some, [], Bool, Bytes}
use poprocks.Vsock.Errors.{Error, Result, ok, err}
use poprocks.Vsock.Io.{Stream}
use poprocks.Vsock.Message.{Message}
use poprocks.Vsock.Send.{Reader}
use poprocks.Vsock.Messenger.{Handlers}
use poprocks.Protocol.Codec.{
  CodecType, codec_msgpack, codec_stream, Codec, Formats, new_codec_of_type,
}
use poprocks.Protocol.Receive.{M, on_receive, new_m}
use poprocks.Protocol.Respond.{new_r}
use poprocks.Transfer.Receive.{
  FileTransferRequest, FileTransferResponse, FileTransferResult, FileTransfer, Files, Disk,
  Receiver, handle_open, handle_body, handle_commit,
}

abbrev pub type_file_transfer_open : ℕ
type_file_transfer_open = 0xFFFF_0001

abbrev pub type_file_transfer_body : ℕ
type_file_transfer_body = 0xFFFF_0002

abbrev pub type_file_transfer_commit : ℕ
type_file_transfer_commit = 0xFFFF_0003

pub record FileTransferCommit : Type 0 where
  pub transfer_id : Bytes

-- `fileTransferBody`; its reader may be nil.
pub record FileTransferBody : Type 0 where
  pub transfer_id : Bytes
  pub reader : Option Stream
  pub length : ℕ

-- Where a file transfer and the files stand in the state, and what the system answers there.
pub record Host {ℓ} (S : Type ℓ) : Type ℓ where
  pub transfer : S → FileTransfer
  pub files : S → Files
  pub put : FileTransfer → Files → S → S
  pub mkdir_all : S → Bytes → Option Error
  pub create_temp : S → Bytes → Result Bytes
  pub disk : S → Disk
  pub rename_error : S → Option Error
  pub remove_error : S → Option Error
  pub hex_sha256 : Bytes → Bytes
  pub equal_fold : Bytes → Bytes → Bool

module _ {ℓ} (S : Type ℓ) where
  abbrev pub OnOpen : Type ℓ
  OnOpen = FileTransferRequest → S → Result FileTransferResponse × S

  abbrev pub OnBody : Type ℓ
  OnBody = FileTransferBody → S → Option Error × S

  abbrev pub OnCommit : Type ℓ
  OnCommit = FileTransferCommit → S → Result FileTransferResult × S

-- The handlers of the moment, and the five formats.
pub record Wiring {ℓ} (S : Type ℓ) : Type ℓ where
  pub open_of : S → Option (OnOpen S)
  pub body_of : S → Option (OnBody S)
  pub commit_of : S → Option (OnCommit S)
  pub open_request : Formats FileTransferRequest
  pub open_response : Formats FileTransferResponse
  pub body : Formats FileTransferBody
  pub commit_request : Formats FileTransferCommit
  pub commit_response : Formats FileTransferResult
  pub send : Message → S → Option Error × S
  pub send_stream_with_id : ℕ → ℕ → ℕ → Reader → S → Option Error × S

-- The two typed requests and the typed message of a `FileTransfer`.
pub record Parts {ℓ} (S : Type ℓ) : Type ℓ where
  pub opening : M (OnOpen S)
  pub body : M (OnBody S)
  pub commit : M (OnCommit S)

-- `OnReceive`
unfoldable pub set_receiver : Option Receiver → FileTransfer → FileTransfer
set_receiver handler ft = record ft { receiver = handler }

infixl 5 ◌>>=◌
abbrev ◌>>=◌ {ℓ κ} : {A : Type ℓ} {B : Type κ} → Result A → (A → Result B) → Result B
err e >>= f = err e
ok a >>= f = f a

-- The five codecs of `NewFileTransfer`.
unfoldable pub codecs : Result (Codec × Codec × Codec × Codec × Codec)
unfolding new_codec_of_type
codecs = do
  open_request ← new_codec_of_type type_file_transfer_open codec_msgpack
  open_response ← new_codec_of_type (type_file_transfer_open + 100) codec_msgpack
  body ← new_codec_of_type type_file_transfer_body codec_stream
  commit_request ← new_codec_of_type type_file_transfer_commit codec_msgpack
  commit_response ← new_codec_of_type (type_file_transfer_commit + 100) codec_msgpack
  ok (open_request, open_response, body, commit_request, commit_response)

module _ {ℓ} {S : Type ℓ} (host : Host S) where
  -- `ft.handleOpen`
  unfoldable pub on_open : OnOpen S
  unfolding handle_open
  on_open req s =
      let (resp, ft, files) =
        handle_open (host.mkdir_all s) (host.create_temp s) req (host.transfer s) (host.files s) in
      (ok resp, host.put ft files s)

  -- `ft.handleBody`
  unfoldable pub on_body : OnBody S
  unfolding handle_body
  on_body payload s =
      let (e, ft, files) =
        handle_body (host.disk s) payload.reader (host.transfer s) (host.files s) in
      (e, host.put ft files s)

  -- `ft.handleCommit`
  unfoldable pub on_commit : OnCommit S
  unfolding handle_commit
  on_commit req s =
      let (result, ft, files) =
        handle_commit host.hex_sha256 host.equal_fold (host.rename_error s) (host.remove_error s)
          req.transfer_id (host.transfer s) (host.files s) in
      (ok result, host.put ft files s)

  -- `OnRequest` and `OnReceive` of the parts.
  unfoldable pub register_handlers : Parts S → Result (Parts S)
  unfolding on_receive on_open on_body on_commit
  register_handlers p =
      let (e, opening) = on_receive (some on_open) p.opening in
      let (e', body) = on_receive (some on_body) p.body in
      let (e'', commit) = on_receive (some on_commit) p.commit in
      elim e [
        | some x ↦ err x
        | none ↦ elim e' [
          | some x ↦ err x
          | none ↦ elim e'' [
            | some x ↦ err x
            | none ↦ ok (record { opening = opening; body = body; commit = commit })
          ]
        ]
      ]

  module _ (w : Wiring S) where
    -- The last of the three, and the handlers.
    unfoldable pub new_commit :
        Codec → Codec → M (OnOpen S) → M (OnBody S) → Handlers S → Result (Parts S) × Handlers S
    unfolding new_r register_handlers
    new_commit request response opening body d =
        elim (new_r w.commit_request w.commit_response w.send w.send_stream_with_id w.commit_of
          (some d) (some request) (some response)) [
            | err e ↦ (err e, d)
            | ok (commit, d') ↦
                (register_handlers (record { opening = opening; body = body; commit = commit }), d')
          ]

    -- What is made once there are codecs.
    unfoldable pub new_parts :
        Codec × Codec × Codec × Codec × Codec → Handlers S → Result (Parts S) × Handlers S
    unfolding new_r new_m new_commit
    new_parts (open_request, open_response, body_codec, commit_request, commit_response) d =
        elim (new_r w.open_request w.open_response w.send w.send_stream_with_id w.open_of (some d)
          (some open_request) (some open_response)) [
            | err e ↦ (err e, d)
            | ok (opening, d1) ↦ elim (new_m w.body w.body_of (some d1) (some body_codec)) [
              | err e ↦ (err e, d1)
              | ok (body, d2) ↦ new_commit commit_request commit_response opening body d2
            ]
          ]

    -- `NewFileTransfer` on a messenger: the parts, and the handlers that the messenger has then, also
    -- if there is an error.
    unfoldable pub new_file_transfer : Handlers S → Result (Parts S) × Handlers S
    unfolding codecs new_parts
    new_file_transfer d = elim codecs [ err e ↦ (err e, d) | ok cs ↦ new_parts cs d ]
