-- ===== src/Transfer/Send/Laws.antt =====
-- `SendFile` of vsock/protocol/common/file_transfer.go against the handlers of the other side.
use poprocks.Prelude.{
  ◌+◌, ◌^◌, ◌<◌, ◌≡◌, ◌∙◌, ◌≢◌, Bool, true, Option, none, some, [], ◌++◌, arith, length,
  length-append, take, take-length, Bytes, lookup, insert, delete, bytes_eq_inst,
  lookup-insert_self, lookup-delete_self,
}
use poprocks.Prelude.Int.{pos}
use poprocks.Vsock.Errors.{Error, Result, ok}
use poprocks.Vsock.Io.{bytes_reader}
use poprocks.Transfer.Framing.{encode_transfer_body_header, stream_source}
use poprocks.Transfer.Receive.{
  FileTransferRequest, Receiver, FileTransfer, Files, contents, opened, takes, handle_body,
}
use poprocks.Transfer.Send.{LocalFile, complete, send_file, send_body, commit_file}
use poprocks.Transfer.Send.Peer.{
  open_on, body_on, commit_on, received, contents-some, handle_body_whole, handle_open_accepts,
  handle_commit_whole, complete_ok,
}

encode_not_empty : (id header : Bytes) → encode_transfer_body_header id ≡ ok header → id ≢ []
unfolding encode_transfer_body_header
encode_not_empty id header e h = ground arith

module _ (hex_sha256 : Bytes → Bytes) (equal_fold : Bytes → Bytes → Bool)
    (mkdir_all : Bytes → Option Error) (create_temp : Bytes → Result Bytes) where
  -- The body and the commit, after the open request.
  send_body_whole :
      (file : LocalFile) (req : FileTransferRequest) (path tmp header bytes : Bytes)
      (ft : FileTransfer) (files : Files)
      → file.stat ≡ ok (true, length bytes)
      → file.opened ≡ ok bytes
      → encode_transfer_body_header req.transfer_id ≡ ok header
      → length header + length bytes < 2 ^ 32
      → req.size ≡ pos (length bytes)
      → equal_fold (hex_sha256 bytes) req.sha256 ≡ true
      → lookup req.transfer_id ft.incoming ≡ some (opened req path tmp)
      → lookup tmp files ≡ some []
      → send_body
          (open_on mkdir_all create_temp)
          body_on
          (commit_on hex_sha256 equal_fold)
          file
          req.transfer_id
          (ft, files)
        ≡ (
          record {
            transfer_id = req.transfer_id;
            is_ok = true;
            size = length bytes;
            sha256 = hex_sha256 bytes;
            error = none;
          },
          none,
          (
            record ft {
              incoming =
                  delete req.transfer_id
                    (insert req.transfer_id (received req path tmp bytes) ft.incoming);
            },
            insert path bytes (delete tmp (insert tmp bytes files)),
          ),
        )
  unfolding send_body stream_source commit_file
  send_body_whole file req path tmp header bytes ft files s o e n z c l t =
      let ft' : FileTransfer = record ft {
        incoming = insert req.transfer_id (received req path tmp bytes) ft.incoming;
      } in
      let files' : Files = insert tmp bytes files in
      let whole : take (length header + length bytes) (header ++ bytes) ≡ header ++ bytes =
        take-length (length header + length bytes) (header ++ bytes)
          (omega (arith, length-append header bytes)) in
      let body : handle_body (takes none) (some (bytes_reader (header ++ bytes))) ft files
          ≡ (none, ft', files') =
        handle_body_whole req path tmp header bytes ft files e l
        ∙ rw (contents-some tmp [] files t) in
      let done =
        handle_commit_whole hex_sha256 equal_fold req path tmp bytes ft' files'
          (lookup-insert_self req.transfer_id (received req path tmp bytes) ft.incoming) z c in
      let got : contents tmp files' ≡ bytes =
        contents-some tmp bytes files' (lookup-insert_self tmp bytes files) in
      ground (arith)

  -- A file of `bytes` that `SendFile` sends to the handlers of the other side is there under the
  -- path that its receiver chose, the result says so, and the transfer is gone from the table.
  -- The local file can be read, the request is accepted by the checks on this side, the checksum
  -- agrees, the ID is not in use, the receiver accepts and names a path, and the operating system
  -- makes the directory, the temporary file and the final name.
  pub send_file_whole :
      (file : LocalFile) (req out : FileTransferRequest) (bytes path tmp : Bytes)
      (handler : Receiver) (ft : FileTransfer) (files : Files)
      → file.stat ≡ ok (true, length bytes)
      → file.opened ≡ ok bytes
      → complete file req ≡ ok out
      → equal_fold (hex_sha256 bytes) out.sha256 ≡ true
      → lookup out.transfer_id ft.incoming ≡ none
      → ft.receiver ≡ some handler
      → handler out ≡ ok path
      → path ≢ []
      → mkdir_all path ≡ none
      → create_temp path ≡ ok tmp
      → let r =
          send_file
            (open_on mkdir_all create_temp)
            body_on
            (commit_on hex_sha256 equal_fold)
            file
            req
            (ft, files) in
        (r.1 ≡ none)
        × (r.0 ≡ record {
          transfer_id = out.transfer_id;
          is_ok = true;
          size = length bytes;
          sha256 = hex_sha256 bytes;
          error = none;
        })
        × (lookup path r.2.1 ≡ some bytes)
        × (lookup out.transfer_id r.2.0.incoming ≡ none)
  unfolding send_file
  send_file_whole file req out bytes path tmp handler ft files s o k c l h p q m t =
      let (header, e, z, n) = complete_ok file req out (length bytes) s k in
      let id = out.transfer_id in
      let incoming' = insert id (opened out path tmp) ft.incoming in
      let ft' : FileTransfer = record ft { incoming = incoming' } in
      let files' : Files = insert tmp [] files in
      let open' =
        handle_open_accepts mkdir_all create_temp out path tmp (length bytes) handler ft files
          (encode_not_empty id header e) z l h p q m t in
      let sent =
        send_body_whole file out path tmp header bytes ft' files' s o e n z c
          (lookup-insert_self id (opened out path tmp) ft.incoming)
          (lookup-insert_self tmp [] files) in
      (
        ground arith,
        ground arith,
        ground (arith, lookup-insert_self path bytes (delete tmp (insert tmp bytes files'))),
        ground (arith, lookup-delete_self id (insert id (received out path tmp bytes) incoming')),
      )
