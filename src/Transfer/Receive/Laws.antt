-- ===== src/Transfer/Receive/Laws.antt =====
-- The three handlers of vsock/protocol/common/file_transfer.go.
use poprocks.Prelude.{
  ◌≡◌, refl, ◌⊎◌, inl, inr, Bool, true, false, Option, none, some, Option-cases, Bool-cases, [],
  arith, length, length-append, if◌then◌else◌, Bytes, lookup, insert, delete, bytes_eq,
  bytes_eq_inst, lookup-insert, lookup-delete, lookup-insert_self, lookup-delete_self,
}
use poprocks.Prelude.Int.{pos}
use poprocks.Vsock.Errors.{Error, Result, Result-cases}
use poprocks.Vsock.Io.{Stream, content}
use poprocks.Transfer.Framing.{decode_transfer_body_header}
use poprocks.Transfer.Receive.{
  FileTransferRequest, Incoming, FileTransfer, Files, contents, opened, handle_open, Disk,
  copy_body, handle_body, handle_commit,
}

-- A transfer counts the bytes that its hash took, and none was taken while it waits for its body.
pub record IsCounted (i : Incoming) : Type 0 where
  pub counts : i.body_written ≡ true → i.bytes_written ≡ length i.hashed
  pub waits : i.is_open ≡ true → i.hashed ≡ []

-- Every transfer under way does.
abbrev pub AreCounted : FileTransfer → Type 0
AreCounted ft = (id : Bytes) (i : Incoming) → lookup id ft.incoming ≡ some i → IsCounted i

insert-AreCounted :
    (ft : FileTransfer) (id : Bytes) (i : Incoming)
    → AreCounted ft
    → IsCounted i
    → AreCounted (record ft { incoming = insert id i ft.incoming })
insert-AreCounted ft id i v c j x e = elim (Bool-cases (bytes_eq id j)) [
  | inl h ↦ let same : x ≡ i = ground (arith, lookup-insert id j i ft.incoming) in rw same c
  | inr h ↦
      let old : lookup j ft.incoming ≡ some x = ground (arith, lookup-insert id j i ft.incoming) in
      v j x old
]

copy_body-IsCounted :
    (disk : Disk) (i : Incoming) (r : Stream)
    → i.body_written ≡ false
    → IsCounted i
    → IsCounted (copy_body disk i r).1
unfolding copy_body
copy_body-IsCounted disk i r n v =
    let w = v.waits in
    let c = v.counts in
    record {
      counts = λ h. ground (arith, length-append i.hashed (content r));
      waits = λ h. ground arith;
    }

handle_open_cases :
    (mkdir_all : Bytes → Option Error) (create_temp : Bytes → Result Bytes)
    (req : FileTransferRequest) (ft : FileTransfer) (files : Files)
    → let ft' = (handle_open mkdir_all create_temp req ft files).1 in
      (ft' ≡ ft)
      ⊎ ((path : Bytes) × (tmp : Bytes) × (ft'
            ≡ record ft { incoming = insert req.transfer_id (opened req path tmp) ft.incoming }))
unfolding handle_open
handle_open_cases mkdir_all create_temp req ft files = elim (Option-cases ft.receiver) [
  | inl n ↦ inl (ground arith)
  | inr (handler, n) ↦ elim (Result-cases (handler req)) [
    | inl (e, x) ↦ inl (ground arith)
    | inr (path, x) ↦ elim (Result-cases (create_temp path)) [
      | inl (e, y) ↦ inl (ground arith)
      | inr (tmp, y) ↦
          elim (Bool-cases (handle_open mkdir_all create_temp req ft files).0.accepted) [
            | inl a ↦ inr (path, tmp, ground arith)
            | inr a ↦ inl (ground arith)
          ]
    ]
  ]
]

-- `handleOpen` keeps the count, on every outcome: a transfer whose body is written has as many
-- bytes as its hash took, and the hash of one that waits for its body took none.
pub handle_open-AreCounted :
    (mkdir_all : Bytes → Option Error) (create_temp : Bytes → Result Bytes)
    (req : FileTransferRequest) (ft : FileTransfer) (files : Files)
    → AreCounted ft
    → AreCounted (handle_open mkdir_all create_temp req ft files).1
handle_open-AreCounted mkdir_all create_temp req ft files v =
    elim (handle_open_cases mkdir_all create_temp req ft files) [
      | inl e ↦ rw e v
      | inr (path, tmp, e) ↦ rw e (
          insert-AreCounted ft req.transfer_id (opened req path tmp) v
            (record { counts = λ h. ground arith; waits = λ h. refl }))
    ]

handle_body_cases :
    (disk : Disk) (r : Stream) (ft : FileTransfer) (files : Files)
    → let ft' = (handle_body disk (some r) ft files).1 in
      (ft' ≡ ft)
      ⊎ ((id : Bytes) × (i : Incoming) × (rest : Stream) × (lookup id ft.incoming ≡ some i)
          × (i.body_written ≡ false)
          × (ft' ≡ record ft { incoming = insert id (copy_body disk i rest).1 ft.incoming }))
unfolding handle_body
handle_body_cases disk r ft files = elim (Result-cases (decode_transfer_body_header r).0) [
  | inl (e, x) ↦ inl (ground arith)
  | inr (id, x) ↦ elim (Option-cases (lookup id ft.incoming)) [
    | inl l ↦ inl (ground arith)
    | inr (i, l) ↦ elim (Bool-cases i.body_written) [
      | inl w ↦ inl (ground arith)
      | inr w ↦ inr (id, i, (decode_transfer_body_header r).1, l, w, ground arith)
    ]
  ]
]

-- `handleBody` keeps the count, on every outcome: a transfer whose body is written has as many
-- bytes as its hash took, and the hash of one that waits for its body took none.
pub handle_body-AreCounted :
    (disk : Disk) (r : Stream) (ft : FileTransfer) (files : Files)
    → AreCounted ft
    → AreCounted (handle_body disk (some r) ft files).1
handle_body-AreCounted disk r ft files v = elim (handle_body_cases disk r ft files) [
  | inl e ↦ rw e v
  | inr (id, i, rest, l, w, e) ↦ rw e (
      insert-AreCounted ft id (copy_body disk i rest).1 v
        (copy_body-IsCounted disk i rest w (v id i l)))
]

module _ (hex_sha256 : Bytes → Bytes) (equal_fold : Bytes → Bytes → Bool) where
  -- So does `handleCommit`.
  pub handle_commit-AreCounted :
      (rename_error remove_error : Option Error) (id : Bytes) (ft : FileTransfer) (files : Files)
      → AreCounted ft
      → AreCounted (handle_commit hex_sha256 equal_fold rename_error remove_error id ft files).1
  unfolding handle_commit
  handle_commit-AreCounted rename_error remove_error id ft files v j x e =
      v j x (ground (arith, lookup-delete id j ft.incoming))

  -- A commit that succeeds was for a transfer in the table, whose expected size is that of the
  -- bytes its hash took, and whose expected checksum is empty or agrees with theirs; the
  -- temporary file's content stands under the final path, and the transfer is gone. The transfers
  -- in the table count the bytes that their hashes took.
  pub handle_commit_ok :
      (rename_error remove_error : Option Error) (id : Bytes) (ft : FileTransfer) (files : Files)
      → let r = handle_commit hex_sha256 equal_fold rename_error remove_error id ft files in
        AreCounted ft
        → r.0.is_ok ≡ true
        → (i : Incoming) × (lookup id ft.incoming ≡ some i)
          × (i.expected.size ≡ pos (length i.hashed))
          × ((i.expected.sha256 ≡ []) ⊎ (equal_fold (hex_sha256 i.hashed) i.expected.sha256 ≡ true))
          × (lookup i.final_path r.2 ≡ some (contents i.temp_path files))
          × (lookup id r.1.incoming ≡ none)
  unfolding handle_commit
  handle_commit_ok rename_error remove_error id ft files v h =
      elim (Option-cases (lookup id ft.incoming)) [
        | inl n ↦ ground arith
        | inr (i, l) ↦
            let c = (v id i l).counts in
            (
              i,
              l,
              ground arith,
              ground arith,
              ground (
                arith,
                lookup-insert_self i.final_path (contents i.temp_path files)
                    (delete i.temp_path files),
              ),
              ground (arith, lookup-delete_self id ft.incoming),
            )
      ]

  -- A commit of a transfer in the table that fails removes its temporary file, which stays only
  -- if `os.Remove` fails, and leaves every other file as it was, and the transfer is gone from
  -- the table.
  pub handle_commit_failed :
      (rename_error remove_error : Option Error) (id path : Bytes) (ft : FileTransfer)
      (files : Files) (i : Incoming)
      → let r = handle_commit hex_sha256 equal_fold rename_error remove_error id ft files in
        lookup id ft.incoming ≡ some i
        → r.0.is_ok ≡ false
        → (lookup path r.2 ≡ (
            if bytes_eq i.temp_path path
            then elim remove_error [ none ↦ none | some e ↦ lookup path files ]
            else lookup path files))
          × (lookup id r.1.incoming ≡ none)
  unfolding handle_commit
  handle_commit_failed rename_error remove_error id path ft files i l h =
      elim (Option-cases remove_error) [
        | inl e ↦ (
          ground (arith, lookup-delete i.temp_path path files),
          ground (arith, lookup-delete_self id ft.incoming),
        )
        | inr (x, e) ↦ (ground arith, ground (arith, lookup-delete_self id ft.incoming))
      ]
