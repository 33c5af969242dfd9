-- ===== src/Tests/Transfer.antt =====
-- A file on its way: vsock/protocol/common/file_transfer.go.
use poprocks.Prelude.{
  ◌≡◌, refl, ◌≢◌, ◌⊎◌, true, false, if◌then◌else◌, Option, none, some, [], ◌∷◌, arith, length,
  lookup, bytes_eq, bytes_eq_inst, Bytes,
}
use poprocks.Prelude.Int.{pos}
use poprocks.Vsock.Errors.{other, Error, Result, eof, ok}
use poprocks.Vsock.Io.{Stream, chunk, ended}
use poprocks.Vsock.Wire.{put_uint}
use poprocks.Transfer.Framing.{encode_transfer_body_header}
use poprocks.Transfer.Receive.{
  FileTransferRequest, Incoming, Receiver, FileTransfer, Files, contents, handle_commit,
}
use poprocks.Transfer.Receive.Laws.{IsCounted, AreCounted, handle_commit_ok, handle_commit_failed}
use poprocks.Transfer.Send.{LocalFile, complete, send_file}
use poprocks.Transfer.Send.Laws.{send_file_whole}
use poprocks.Transfer.Send.Peer.{open_on, body_on, commit_on}

-- The checksum of a file is the file, and is compared byte by byte.
abbrev sum : Bytes → Bytes
sum bs = bs

-- The receiver puts every file at the path 40, by way of 41.
abbrev receiver : Receiver
receiver req = ok (40 ∷ [])

abbrev mkdir_all : Bytes → Option Error
mkdir_all path = none

abbrev create_temp : Bytes → Result Bytes
create_temp path = ok (41 ∷ [])

abbrev request : FileTransferRequest
request = record {
  transfer_id = 7 ∷ [];
  name = 1 ∷ [];
  destination = [];
  size = pos 2;
  sha256 = 10 ∷ 20 ∷ [];
}

abbrev incoming : Incoming
incoming = record {
  final_path = 40 ∷ [];
  temp_path = 41 ∷ [];
  is_open = false;
  hashed = 10 ∷ 20 ∷ [];
  expected = request;
  body_written = true;
  bytes_written = 2;
}

abbrev waiting : Incoming
waiting = record incoming { is_open = true; hashed = []; body_written = false; bytes_written = 0 }

abbrev empty : FileTransfer
empty = record { incoming = []; receiver = some receiver }

abbrev one : FileTransfer
one = record { incoming = (7 ∷ [], incoming) ∷ []; receiver = some receiver }

abbrev opened_one : FileTransfer
opened_one = record { incoming = (7 ∷ [], waiting) ∷ []; receiver = some receiver }

abbrev files : Files
files = (41 ∷ [], 10 ∷ 20 ∷ []) ∷ (50 ∷ [], 9 ∷ []) ∷ []

empty-AreCounted : AreCounted empty
unfolding lookup
empty-AreCounted id i e = ground arith

incoming-IsCounted : IsCounted incoming
incoming-IsCounted = record { counts = λ e. refl; waits = λ e. ground arith }

waiting-IsCounted : IsCounted waiting
waiting-IsCounted = record { counts = λ e. ground arith; waits = λ e. refl }

one_is : (id : Bytes) (i : Incoming) → lookup id one.incoming ≡ some i → i ≡ incoming
unfolding lookup
one_is id i e = ground arith

opened_one_is : (id : Bytes) (i : Incoming) → lookup id opened_one.incoming ≡ some i → i ≡ waiting
unfolding lookup
opened_one_is id i e = ground arith

one-AreCounted : AreCounted one
one-AreCounted id i e = rw (one_is id i e) incoming-IsCounted

opened_one-AreCounted : AreCounted opened_one
opened_one-AreCounted id i e = rw (opened_one_is id i e) waiting-IsCounted

-- A body whose write fails after a byte.
abbrev body : Stream
body = chunk (0 ∷ 1 ∷ 7 ∷ []) (chunk (10 ∷ 20 ∷ []) (ended eof))

one_commits : (handle_commit sum bytes_eq none none (7 ∷ []) one files).0.is_ok ≡ true
unfolding handle_commit lookup bytes_eq
one_commits = refl

-- The temporary file cannot be removed.
abbrev stays : Option Error
stays = some (other 5)

opened_one_fails : (handle_commit sum bytes_eq none stays (7 ∷ []) opened_one files).0.is_ok ≡ false
unfolding handle_commit lookup bytes_eq
opened_one_fails = refl

handle_commit_ok_example :
    let r = handle_commit sum bytes_eq none none (7 ∷ []) one files in
    (i : Incoming) × (lookup (7 ∷ []) one.incoming ≡ some i)
    × (i.expected.size ≡ pos (length i.hashed))
    × ((i.expected.sha256 ≡ []) ⊎ (bytes_eq i.hashed i.expected.sha256 ≡ true))
    × (lookup i.final_path r.2 ≡ some (contents i.temp_path files))
    × (lookup (7 ∷ []) r.1.incoming ≡ none)
handle_commit_ok_example =
    handle_commit_ok sum bytes_eq none none (7 ∷ []) one files one-AreCounted one_commits

handle_commit_failed_example :
    let r = handle_commit sum bytes_eq none stays (7 ∷ []) opened_one files in
    (lookup (41 ∷ []) r.2 ≡ (
      if bytes_eq (41 ∷ []) (41 ∷ [])
      then elim stays [ none ↦ none | some e ↦ lookup (41 ∷ []) files ]
      else lookup (41 ∷ []) files))
    × (lookup (7 ∷ []) r.1.incoming ≡ none)
unfolding lookup bytes_eq
handle_commit_failed_example =
    handle_commit_failed sum bytes_eq none stays (7 ∷ []) (41 ∷ []) opened_one files waiting refl
      opened_one_fails

id_encodes : encode_transfer_body_header (7 ∷ []) ≡ ok (0 ∷ 1 ∷ 7 ∷ [])
unfolding encode_transfer_body_header put_uint
id_encodes = refl

-- A file of two bytes; the request leaves its ID and checksum open.
abbrev file : LocalFile
file = record {
  stat = ok (true, 2);
  base_name = 1 ∷ [];
  new_transfer_id = ok (7 ∷ []);
  checksum = ok (10 ∷ 20 ∷ []);
  opened = ok (10 ∷ 20 ∷ []);
}

abbrev asked : FileTransferRequest
asked = record { transfer_id = []; name = []; destination = []; size = pos 0; sha256 = [] }

file_completes : complete file asked ≡ ok request
unfolding complete encode_transfer_body_header put_uint
file_completes = refl

sum_agrees : bytes_eq (10 ∷ 20 ∷ []) (10 ∷ 20 ∷ []) ≡ true
unfolding bytes_eq
sum_agrees = refl

path_not_empty : ◌≢◌ {A = Bytes} (40 ∷ []) []
path_not_empty e = ground arith

send_file_whole_example :
    let r =
      send_file
        (open_on mkdir_all create_temp)
        body_on
        (commit_on sum bytes_eq)
        file
        asked
        (empty, files) in
    (r.1 ≡ none)
    × (r.0 ≡ record {
      transfer_id = 7 ∷ [];
      is_ok = true;
      size = 2;
      sha256 = 10 ∷ 20 ∷ [];
      error = none;
    })
    × (lookup (40 ∷ []) r.2.1 ≡ some (10 ∷ 20 ∷ []))
    × (lookup (7 ∷ []) r.2.0.incoming ≡ none)
unfolding lookup
send_file_whole_example =
    send_file_whole sum bytes_eq mkdir_all create_temp file asked request (10 ∷ 20 ∷ []) (40 ∷ [])
      (41 ∷ []) receiver empty files refl refl file_completes sum_agrees refl refl refl
      path_not_empty refl refl
