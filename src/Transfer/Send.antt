-- ===== src/Transfer/Send.antt =====
-- `SendFile` of vsock/protocol/common/file_transfer.go. The other side is a state `P` that the two
-- requests and the body change; what the operating system says of the local file is a record.
pub mod Peer
pub mod Laws
use poprocks.Prelude.{
  ℕ, ◌+◌, ◌-◌, ◌^◌, ◌==◌, ltb, not, Bool, true, false, Option, none, some, [], ◌∷◌, ◌++◌, length,
  if◌then◌else◌, Bytes,
}
use poprocks.Prelude.Int.{ℤ, pos}
use poprocks.Vsock.Errors.{Error, Result, ok, err, file_too_large, not_regular}
use poprocks.Transfer.Framing.{encode_transfer_body_header, stream_source}
use poprocks.Transfer.Receive.{
  Refusal, failed, rejected, transfer_failed, FileTransferRequest, FileTransferResponse,
  FileTransferResult,
}

-- `os.Stat`, `filepath.Base`, `newTransferID`, `checksumFile` and `os.Open` on the local file.
pub record LocalFile : Type 0 where
  pub stat : Result (Bool × ℕ)
  pub base_name : Bytes
  pub new_transfer_id : Result Bytes
  pub checksum : Result Bytes
  pub opened : Result Bytes

abbrev pub unless_empty : Bytes → Result Bytes → Result Bytes
unless_empty [] r = r
unless_empty (b ∷ bs) r = ok (b ∷ bs)

abbrev pub or_name : Bytes → Bytes → Bytes
or_name [] other = other
or_name (b ∷ bs) other = b ∷ bs

-- The request as it goes out: what the caller left empty is filled in.
unfoldable pub complete : LocalFile → FileTransferRequest → Result FileTransferRequest
unfolding encode_transfer_body_header
complete file req = elim file.stat [
  | err e ↦ err e
  | ok (regular, size) ↦
      if not regular
      then err not_regular
      else if ltb (2 ^ 32 - 1) size
      then err file_too_large
      else elim (unless_empty req.transfer_id file.new_transfer_id) [
        | err e ↦ err e
        | ok id ↦ elim (unless_empty req.sha256 file.checksum) [
          | err e ↦ err e
          | ok sum ↦ elim (encode_transfer_body_header id) [
            | err e ↦ err e
            | ok header ↦
                if ltb (2 ^ 32 - 1) (length header + size)
                then err file_too_large
                else ok (record {
                  transfer_id = id;
                  name = or_name req.name file.base_name;
                  destination = req.destination;
                  size = pos size;
                  sha256 = sum;
                })
          ]
        ]
      ]
]

-- The zero result.
abbrev pub no_result : FileTransferResult
no_result = record { transfer_id = []; is_ok = false; size = 0; sha256 = []; error = none }

abbrev pub or_refusal : Option Refusal → Refusal → Refusal
or_refusal none other = other
or_refusal (some r) other = r

abbrev pub size_of : LocalFile → ℕ
size_of file = elim file.stat [ err e ↦ 0 | ok s ↦ s.1 ]

module _ {ℓ} {P : Type ℓ} (open_request : FileTransferRequest → P → Result FileTransferResponse × P)
    (send_stream : Bytes → ℕ → P → Option Error × P)
    (commit_request : Bytes → P → Result FileTransferResult × P) where
  -- Once the body is sent.
  unfoldable pub commit_file : Bytes → P → FileTransferResult × Option Refusal × P
  commit_file id p =
      let (answer, p') = commit_request id p in
      elim answer [
        | err e ↦ (no_result, some (failed e), p')
        | ok r ↦
            if r.is_ok
            then (r, none, p')
            else let why = or_refusal r.error transfer_failed in
              (record r { error = some why }, some why, p')
      ]

  -- Once the other side has answered the open request.
  unfoldable pub send_body : LocalFile → Bytes → P → FileTransferResult × Option Refusal × P
  unfolding commit_file stream_source
  send_body file id p = elim file.opened [
    | err e ↦ (no_result, some (failed e), p)
    | ok bytes ↦ elim (stream_source id (some bytes) (size_of file)) [
      | err e ↦ (no_result, some (failed e), p)
      | ok (header, body, total) ↦
          let (sent, p') = send_stream (header ++ body) total p in
          let rest = commit_file id p' in
          elim sent [ some e ↦ (no_result, some (failed e), p') | none ↦ rest ]
    ]
  ]

  -- `SendFile`: the result, the error, and the other side afterwards.
  unfoldable pub send_file :
      LocalFile → FileTransferRequest → P → FileTransferResult × Option Refusal × P
  unfolding send_body complete
  send_file file req p = elim (complete file req) [
    | err e ↦ (no_result, some (failed e), p)
    | ok out ↦
        let (answer, p') = open_request out p in
        elim answer [
          | err e ↦ (no_result, some (failed e), p')
          | ok resp ↦
              let rest = send_body file out.transfer_id p' in
              if resp.accepted then rest else (no_result, some (or_refusal resp.error rejected), p')
        ]
  ]
