-- ===== src/Transfer/Receive.antt =====
-- `handleOpen`, `handleBody` and `handleCommit` of vsock/protocol/common/file_transfer.go, which
-- `Serve` calls one after the other on a connection. Files are a map from paths to bytes; what the
-- operating system answers comes in as arguments.
pub mod Laws
use poprocks.Prelude.{
  ℕ, ◌+◌, ◌==◌, ◌&&◌, not, Bool, true, false, Option, none, some, [], ◌∷◌, ◌++◌, length, take,
  if◌then◌else◌, Bytes, GoMap, lookup, insert, delete, bytes_eq, bytes_eq_inst,
}
use poprocks.Prelude.Int.{ℤ, pos, negsuc, ltb_ℤ}
use poprocks.Vsock.Errors.{
  Error, Result, ok, err, nil_message, no_such_transfer, body_already_written, file_closed,
}
use poprocks.Vsock.Io.{Stream, content, failure, unless_eof}
use poprocks.Transfer.Framing.{decode_transfer_body_header}

-- The `Error` of a response; `failed` has the text of an error.
pub data Refusal : Type 0 where
  transfer_id_required negative_size transfer_exists no_receiver destination_required : Refusal
  unknown_transfer body_missing size_mismatch checksum_mismatch : Refusal
  rejected transfer_failed : Refusal
  failed : Error → Refusal

pub record FileTransferRequest : Type 0 where
  pub transfer_id : Bytes
  pub name : Bytes
  pub destination : Bytes
  pub size : ℤ
  pub sha256 : Bytes

pub record FileTransferResponse : Type 0 where
  pub transfer_id : Bytes
  pub accepted : Bool
  pub error : Option Refusal

pub record FileTransferResult : Type 0 where
  pub transfer_id : Bytes
  pub is_ok : Bool
  pub size : ℕ
  pub sha256 : Bytes
  pub error : Option Refusal

-- `incomingFileTransfer`; `hashed` is what its hash has taken.
pub record Incoming : Type 0 where
  pub final_path : Bytes
  pub temp_path : Bytes
  pub is_open : Bool
  pub hashed : Bytes
  pub expected : FileTransferRequest
  pub body_written : Bool
  pub bytes_written : ℕ

-- The plan's `DestinationPath`, from what `OnReceive` registers.
abbrev pub Receiver : Type 0
Receiver = FileTransferRequest → Result Bytes

pub record FileTransfer : Type 0 where
  pub incoming : GoMap Bytes Incoming
  pub receiver : Option Receiver

abbrev pub Files : Type 0
Files = GoMap Bytes Bytes

-- The file's bytes, none if there is no file.
abbrev pub contents : Bytes → Files → Bytes
contents path files = elim (lookup path files) [ some bs ↦ bs | none ↦ [] ]

abbrev pub refuse : Bytes → Refusal → FileTransferResponse
refuse id e = record { transfer_id = id; accepted = false; error = some e }

-- The transfer that a request opens.
abbrev pub opened : FileTransferRequest → Bytes → Bytes → Incoming
opened req path tmp = record {
  final_path = path;
  temp_path = tmp;
  is_open = true;
  hashed = [];
  expected = req;
  body_written = false;
  bytes_written = 0;
}

-- `handleOpen`, by what `os.MkdirAll` and `os.CreateTemp` give for a destination.
unfoldable pub handle_open :
    (Bytes → Option Error)
    → (Bytes → Result Bytes)
    → FileTransferRequest
    → FileTransfer
    → Files
    → FileTransferResponse × FileTransfer × Files
handle_open mkdir_all create_temp req ft files =
    let id = req.transfer_id in
    if length id == 0
    then (refuse id transfer_id_required, ft, files)
    else if ltb_ℤ req.size (pos 0)
    then (refuse id negative_size, ft, files)
    else elim (lookup id ft.incoming) [
      | some _ ↦ (refuse id transfer_exists, ft, files)
      | none ↦ elim ft.receiver [
        | none ↦ (refuse id no_receiver, ft, files)
        | some handler ↦ elim (handler req) [
          | err e ↦ (refuse id (failed e), ft, files)
          | ok path ↦
              if length path == 0
              then (refuse id destination_required, ft, files)
              else elim (mkdir_all path) [
                | some e ↦ (refuse id (failed e), ft, files)
                | none ↦ elim (create_temp path) [
                  | err e ↦ (refuse id (failed e), ft, files)
                  | ok tmp ↦ (
                    record { transfer_id = id; accepted = true; error = none },
                    record ft { incoming = insert id (opened req path tmp) ft.incoming },
                    insert tmp [] files,
                  )
                ]
              ]
        ]
      ]
    ]

-- What becomes of the bytes that are written to a temporary file: all are taken, and the file is
-- closed with that error; or `full n k e`: the file takes `n` bytes, and the write that was cut off
-- fails before it reaches the hash, which has `k` of them by then.
pub data Disk : Type 0 where
  takes : Option Error → Disk
  full : ℕ → ℕ → Error → Disk

-- The transfer once its hash took bytes, and its file was closed.
abbrev pub copied_to : Incoming → Bytes → Incoming
copied_to i bs = record i { hashed = i.hashed ++ bs; is_open = false }

-- A body for a file that is closed: the first write fails, or closing the file again.
abbrev pub closed_error : Stream → Error
closed_error r = elim (content r) [
  | _ ∷ _ ↦ file_closed
  | [] ↦ elim (unless_eof (some (failure r))) [ some e ↦ e | none ↦ file_closed ]
]

-- `io.Copy` into the file and the hash, and what follows it: the error, the transfer, and the bytes
-- that the file took.
unfoldable pub copy_body : Disk → Incoming → Stream → Option Error × Incoming × Bytes
copy_body disk i r = if not i.is_open then (some (closed_error r), i, []) else elim disk [
  | full n k e ↦ (some e, copied_to i (take k (content r)), take n (content r))
  | takes close_error ↦
      let bs = content r in
      let i' : Incoming = copied_to i bs in
      elim (unless_eof (some (failure r))) [
        | some e ↦ (some e, i', bs)
        | none ↦ elim close_error [
          | some e ↦ (some e, i', bs)
          | none ↦ (none, record i' { bytes_written = length bs; body_written = true }, bs)
        ]
      ]
]

-- `handleBody`: the reader of the body may be nil.
unfoldable pub handle_body :
    Disk → Option Stream → FileTransfer → Files → Option Error × FileTransfer × Files
unfolding copy_body
handle_body disk none ft files = (some nil_message, ft, files)
handle_body disk (some r) ft files =
    let (decoded, rest) = decode_transfer_body_header r in
    elim decoded [
      | err e ↦ (some e, ft, files)
      | ok id ↦ elim (lookup id ft.incoming) [
        | none ↦ (some no_such_transfer, ft, files)
        | some i ↦
            let (e, i', bs) = copy_body disk i rest in
            if i.body_written then (some body_already_written, ft, files) else (
              e,
              record ft { incoming = insert id i' ft.incoming },
              insert i.temp_path (contents i.temp_path files ++ bs) files,
            )
      ]
    ]

-- The deferred `os.Remove` of the temporary file, by its error, which is dropped.
abbrev pub removed : Option Error → Bytes → Files → Files
removed none temp files = delete temp files
removed (some e) temp files = files

-- A commit that fails; the temporary file goes, if it can be removed.
abbrev pub fail_commit :
    Option Error
    → Bytes
    → Refusal
    → FileTransfer
    → Bytes
    → Files
    → FileTransferResult × FileTransfer × Files
fail_commit remove_error id e ft temp files = (
  record { transfer_id = id; is_ok = false; size = 0; sha256 = []; error = some e },
  ft,
  removed remove_error temp files,
)

-- `incoming.bytesWritten == incoming.expected.Size`
abbrev pub is_size : ℕ → ℤ → Bool
is_size n (pos m) = n == m
is_size n (negsuc m) = false

module _ (hex_sha256 : Bytes → Bytes) (equal_fold : Bytes → Bytes → Bool) where
  -- `handleCommit`, by the errors of `os.Rename` and of `os.Remove`.
  unfoldable pub handle_commit :
      Option Error
      → Option Error
      → Bytes
      → FileTransfer
      → Files
      → FileTransferResult × FileTransfer × Files
  handle_commit rename_error remove_error id ft files = elim (lookup id ft.incoming) [
    | none ↦ (
      record {
        transfer_id = id;
        is_ok = false;
        size = 0;
        sha256 = [];
        error = some unknown_transfer;
      },
      ft,
      files,
    )
    | some i ↦
        let ft' : FileTransfer = record ft { incoming = delete id ft.incoming } in
        let sum = hex_sha256 i.hashed in
        let expected = i.expected.sha256 in
        let fail = λ (e : Refusal). fail_commit remove_error id e ft' i.temp_path files in
        if not i.body_written
        then fail body_missing
        else if not (is_size i.bytes_written i.expected.size)
        then fail size_mismatch
        else if not (length expected == 0) && not (equal_fold sum expected)
        then fail checksum_mismatch
        else elim rename_error [
          | some e ↦ fail (failed e)
          | none ↦ (
            record {
              transfer_id = id;
              is_ok = true;
              size = i.bytes_written;
              sha256 = sum;
              error = none;
            },
            ft',
            insert i.final_path (contents i.temp_path files) (delete i.temp_path files),
          )
        ]
  ]
