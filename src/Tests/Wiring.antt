-- ===== src/Tests/Wiring.antt =====
-- `NewFileTransfer` on a messenger: vsock/protocol/common/file_transfer.go.
use poprocks.Prelude.{◌≡◌, ◌⊎◌, true, false, none, some, []}
use poprocks.Prelude.Int.{pos}
use poprocks.Vsock.Errors.{ok, err, eof, handler_already_registered}
use poprocks.Vsock.Source.{not_a_source}
use poprocks.Vsock.Messenger.{Handlers}
use poprocks.Protocol.Types.{io_reader}
use poprocks.Protocol.Codec.{Formats}
use poprocks.Transfer.Receive.{
  FileTransferRequest, FileTransferResponse, FileTransferResult, FileTransfer, Files, takes,
}
use poprocks.Transfer.Create.{
  FileTransferCommit, FileTransferBody, Host, Wiring, on_open, on_body, on_commit,
  new_file_transfer,
}
use poprocks.Transfer.Create.Laws.{AreFree, parts, with_transfer, new_file_transfer_lem}

-- A transfer on a messenger that has none yet. No handler sends anything here, and no format is known.
abbrev unknown_format : (T : Type 0) → T → Formats T
unknown_format T v = record {
  marshal = λ t x. err eof;
  unmarshal = λ t p. err eof;
  reflection = record {
    structs = [];
    implements = λ t i. false;
    field_by_name = λ i n. none;
    assignable = λ t. false;
  };
  payload_type = io_reader;
  from_value = λ x. v;
  as_payload = λ x. not_a_source;
}

abbrev World : Type 0
World = FileTransfer × Files

abbrev host : Host World
host = record {
  transfer = λ s. s.0;
  files = λ s. s.1;
  put = λ ft files s. (ft, files);
  mkdir_all = λ s path. none;
  create_temp = λ s path. ok path;
  disk = λ s. takes none;
  rename_error = λ s. none;
  remove_error = λ s. none;
  hex_sha256 = λ bs. bs;
  equal_fold = λ a b. true;
}

abbrev wiring : Wiring World
wiring = record {
  open_of = λ s. some (on_open host);
  body_of = λ s. some (on_body host);
  commit_of = λ s. some (on_commit host);
  open_request =
      unknown_format FileTransferRequest
        (record { transfer_id = []; name = []; destination = []; size = pos 0; sha256 = [] });
  open_response =
      unknown_format FileTransferResponse
        (record { transfer_id = []; accepted = false; error = none });
  body = unknown_format FileTransferBody (record { transfer_id = []; reader = none; length = 0 });
  commit_request = unknown_format FileTransferCommit (record { transfer_id = [] });
  commit_response =
      unknown_format FileTransferResult
        (record { transfer_id = []; is_ok = false; size = 0; sha256 = []; error = none });
  send = λ m s. (none, s);
  send_stream_with_id = λ id t n r s. (none, s);
}

abbrev bare : Handlers World
bare = record { receivers = []; unknown = none }

new_file_transfer_example :
    (AreFree host wiring bare
      × (new_file_transfer host wiring bare
          ≡ (ok (parts host wiring), with_transfer host wiring bare)))
    ⊎ ((¬ AreFree host wiring bare)
        × ((new_file_transfer host wiring bare).0 ≡ err handler_already_registered))
new_file_transfer_example = new_file_transfer_lem host wiring bare
