-- ===== src/Transfer/Send/Peer.antt =====
-- The handlers of vsock/protocol/common/file_transfer.go as the other side of `SendFile`.
use poprocks.Prelude.{
  ℕ, ◌+◌, ◌^◌, ◌<◌, ◌≡◌, ◌∙◌, ◌≢◌, Bool, true, false, Option, none, some, [], ◌++◌, arith, length,
  take, inl, inr, Bytes, lookup, insert, delete, bytes_eq_inst,
}
use poprocks.Prelude.Int.{pos}
use poprocks.Vsock.Errors.{Error, Result, eof, ok, Result-cases}
use poprocks.Vsock.Io.{Stream, content, failure, bytes_reader}
use poprocks.Vsock.Io.Laws.{content-bytes_reader, failure-bytes_reader}
use poprocks.Transfer.Framing.{
  encode_transfer_body_header, decode_transfer_body_header, decode-encode_transfer_body_header,
}
use poprocks.Transfer.Receive.{
  FileTransferRequest, FileTransferResponse, FileTransferResult, Incoming, Receiver, FileTransfer,
  Files, contents, opened, handle_open, takes, handle_body, handle_commit, copy_body,
}
use poprocks.Transfer.Send.{LocalFile, unless_empty, complete}

-- The other side, and the calls that reach its handlers in turn.
abbrev pub Peer : Type 0
Peer = FileTransfer × Files

abbrev pub open_on :
    (Bytes → Option Error)
    → (Bytes → Result Bytes)
    → FileTransferRequest
    → Peer
    → Result FileTransferResponse × Peer
open_on mkdir_all create_temp req (ft, files) =
    let (resp, ft', files') = handle_open mkdir_all create_temp req ft files in
    (ok resp, (ft', files'))

abbrev pub body_on : Bytes → ℕ → Peer → Option Error × Peer
body_on bytes n (ft, files) =
    let (e, ft', files') = handle_body (takes none) (some (bytes_reader (take n bytes))) ft files in
    (e, (ft', files'))

abbrev pub commit_on :
    (Bytes → Bytes) → (Bytes → Bytes → Bool) → Bytes → Peer → Result FileTransferResult × Peer
commit_on hex_sha256 equal_fold id (ft, files) =
    let (r, ft', files') = handle_commit hex_sha256 equal_fold none none id ft files in
    (ok r, (ft', files'))

-- The transfer once its body is there.
abbrev pub received : FileTransferRequest → Bytes → Bytes → Bytes → Incoming
received req path tmp bytes = record {
  final_path = path;
  temp_path = tmp;
  is_open = false;
  hashed = bytes;
  expected = req;
  body_written = true;
  bytes_written = length bytes;
}

pub contents-some :
    (path bs : Bytes) (files : Files) → lookup path files ≡ some bs → contents path files ≡ bs
contents-some path bs files e = ground arith

pub copy_body_whole :
    (req : FileTransferRequest) (path tmp bytes : Bytes) (r : Stream)
    → content r ≡ bytes
    → failure r ≡ eof
    → copy_body (takes none) (opened req path tmp) r ≡ (none, received req path tmp bytes, bytes)
unfolding copy_body
copy_body_whole req path tmp bytes r e f = ground arith

-- The body of a transfer that has been opened is written.
pub handle_body_whole :
    (req : FileTransferRequest) (path tmp header bytes : Bytes) (ft : FileTransfer) (files : Files)
    → encode_transfer_body_header req.transfer_id ≡ ok header
    → lookup req.transfer_id ft.incoming ≡ some (opened req path tmp)
    → handle_body (takes none) (some (bytes_reader (header ++ bytes))) ft files ≡ (
      none,
      record ft { incoming = insert req.transfer_id (received req path tmp bytes) ft.incoming },
      insert tmp (contents tmp files ++ bytes) files,
    )
unfolding handle_body
handle_body_whole req path tmp header bytes ft files e l =
    let r = bytes_reader (header ++ bytes) in
    let (id, body, ends) =
      decode-encode_transfer_body_header req.transfer_id header bytes r e
        (content-bytes_reader (header ++ bytes)) in
    let clean : failure (decode_transfer_body_header r).1 ≡ eof =
      ends ∙ failure-bytes_reader (header ++ bytes) in
    let c = copy_body_whole req path tmp bytes (decode_transfer_body_header r).1 body clean in
    ground arith

pub handle_open_accepts :
    (mkdir_all : Bytes → Option Error) (create_temp : Bytes → Result Bytes)
    (req : FileTransferRequest) (path tmp : Bytes) (n : ℕ) (handler : Receiver) (ft : FileTransfer)
    (files : Files)
    → req.transfer_id ≢ []
    → req.size ≡ pos n
    → lookup req.transfer_id ft.incoming ≡ none
    → ft.receiver ≡ some handler
    → handler req ≡ ok path
    → path ≢ []
    → mkdir_all path ≡ none
    → create_temp path ≡ ok tmp
    → handle_open mkdir_all create_temp req ft files ≡ (
      record { transfer_id = req.transfer_id; accepted = true; error = none },
      record ft { incoming = insert req.transfer_id (opened req path tmp) ft.incoming },
      insert tmp [] files,
    )
unfolding handle_open
handle_open_accepts mkdir_all create_temp req path tmp n handler ft files i z l h p q m t =
    ground arith

pub handle_commit_whole :
    (hex_sha256 : Bytes → Bytes) (equal_fold : Bytes → Bytes → Bool) (req : FileTransferRequest)
    (path tmp bytes : Bytes) (ft : FileTransfer) (files : Files)
    → lookup req.transfer_id ft.incoming ≡ some (received req path tmp bytes)
    → req.size ≡ pos (length bytes)
    → equal_fold (hex_sha256 bytes) req.sha256 ≡ true
    → handle_commit hex_sha256 equal_fold none none req.transfer_id ft files ≡ (
      record {
        transfer_id = req.transfer_id;
        is_ok = true;
        size = length bytes;
        sha256 = hex_sha256 bytes;
        error = none;
      },
      record ft { incoming = delete req.transfer_id ft.incoming },
      insert path (contents tmp files) (delete tmp files),
    )
unfolding handle_commit
handle_commit_whole hex_sha256 equal_fold req path tmp bytes ft files l n c = ground arith

-- What `SendFile` asks the other side to open has an ID that fits, and the size of the file.
pub complete_ok :
    (file : LocalFile) (req out : FileTransferRequest) (n : ℕ)
    → file.stat ≡ ok (true, n)
    → complete file req ≡ ok out
    → (header : Bytes) × (encode_transfer_body_header out.transfer_id ≡ ok header)
      × (out.size ≡ pos n)
      × (length header + n < 2 ^ 32)
unfolding complete
complete_ok file req out n s e =
    elim (Result-cases (unless_empty req.transfer_id file.new_transfer_id)) [
      | inl (x, h) ↦ ground arith
      | inr (id, h) ↦ elim (Result-cases (unless_empty req.sha256 file.checksum)) [
        | inl (x, k) ↦ ground arith
        | inr (sum, k) ↦ elim (Result-cases (encode_transfer_body_header id)) [
          | inl (x, l) ↦ ground arith
          | inr (header, l) ↦ (header, ground arith, ground arith, ground arith)
        ]
      ]
    ]
