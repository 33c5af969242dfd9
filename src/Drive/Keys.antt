-- ===== src/Drive/Keys.antt =====
-- drive/key.go. What a reader gives is its bytes; `fn` is what is done with them.
pub mod Laws
use poprocks.Prelude.{
  ℕ, Bool, true, false, Option, none, some, List, [], ◌∷◌, ◌⊎◌, inl, inr, if◌then◌else◌, Bytes, map,
}
use poprocks.Drive.Errors.{DriveError, invalid_parameter}
use poprocks.Drive.Os.{
  Log, Os, Run, run, ask, open_reader_with, open_key, start_command, wait_command,
}

-- The function that opens a reader is a number, by which the system is asked for what it gives.
-- A one-shot key has whether it was used, whether its key has been set to nil since, and that key,
-- which others may still hold; `one_shot_nil` is one that was made of a nil key.
pub data Key : Type 0 where
  in_memory : Bytes → Key
  reader_key : Option ℕ → Key
  file_key : Bytes → Key
  command_key : Bytes → List Bytes → Key
  one_shot : Bool → Bool → Key → Key
  one_shot_nil : Bool → Key

-- `NewInMemoryKey`, which copies the bytes.
abbrev pub new_in_memory_key : Bytes → Key
new_in_memory_key key = in_memory key

-- `NewOneShotKey`
abbrev pub new_one_shot_key : Key → Key
new_one_shot_key key = one_shot false false key

-- `Destroy`
unfoldable pub destroy : Key → Key
destroy (in_memory bytes) = in_memory []
destroy (reader_key open_reader) = reader_key open_reader
destroy (file_key path) = file_key path
destroy (command_key name args) = command_key name args
destroy (one_shot used true key) = one_shot true true key
destroy (one_shot used false key) = one_shot true true (destroy key)
destroy (one_shot_nil used) = one_shot_nil true

module _ (os : Os) (fn : Bytes → Run Log (Unit {0})) where
  -- `(*InMemoryKey).WithReader`
  unfoldable pub read_in_memory : Bytes → Log → (DriveError ⊎ Unit {0}) × Key × Log
  read_in_memory [] log = (inl invalid_parameter, in_memory [], log)
  read_in_memory (b ∷ bs) log = let r = fn (b ∷ bs) log in (r.0, in_memory (b ∷ bs), r.1)

  -- `(*ReaderKey).WithReader`
  unfoldable pub read_reader_key : Option ℕ → Log → (DriveError ⊎ Unit {0}) × Key × Log
  read_reader_key none log = (inl invalid_parameter, reader_key none, log)
  read_reader_key (some open_reader) log =
      let opened = ask os (open_reader_with open_reader) log in
      elim opened.0 [
        | inl e ↦ (inl e, reader_key (some open_reader), opened.1)
        | inr bytes ↦ let r = fn bytes opened.1 in (r.0, reader_key (some open_reader), r.1)
      ]

  -- `(*FileKey).WithReader`
  unfoldable pub read_file_key : Bytes → Log → (DriveError ⊎ Unit {0}) × Key × Log
  read_file_key [] log = (inl invalid_parameter, file_key [], log)
  read_file_key (b ∷ bs) log =
      let opened = ask os (open_key (b ∷ bs)) log in
      elim opened.0 [
        | inl e ↦ (inl e, file_key (b ∷ bs), opened.1)
        | inr bytes ↦ let r = fn bytes opened.1 in (r.0, file_key (b ∷ bs), r.1)
      ]

  -- `(*CommandKey).WithReader`
  unfoldable pub read_command_key : Bytes → List Bytes → Log → (DriveError ⊎ Unit {0}) × Key × Log
  read_command_key [] args log = (inl invalid_parameter, command_key [] args, log)
  read_command_key (b ∷ bs) args log =
      let started = ask os (start_command (b ∷ bs) args) log in
      elim started.0 [
        | inl e ↦ (inl e, command_key (b ∷ bs) args, started.1)
        | inr bytes ↦
            let r = fn bytes started.1 in
            let waited = run os (wait_command (b ∷ bs) args) r.1 in
            (elim r.0 [ inl e ↦ inl e | inr _ ↦ waited.0 ], command_key (b ∷ bs) args, waited.1)
      ]

  -- `WithReader`: its error, the key afterwards, and what was asked. The last clauses are that of a
  -- `OneShotKey`.
  unfoldable pub with_reader : Key → Log → (DriveError ⊎ Unit {0}) × Key × Log
  unfolding destroy read_in_memory read_reader_key read_file_key read_command_key
  with_reader (in_memory bytes) log = read_in_memory bytes log
  with_reader (reader_key open_reader) log = read_reader_key open_reader log
  with_reader (file_key path) log = read_file_key path log
  with_reader (command_key name args) log = read_command_key name args log
  with_reader (one_shot true gone key) log = (inl invalid_parameter, one_shot true gone key, log)
  with_reader (one_shot false true key) log = (inl invalid_parameter, one_shot false true key, log)
  with_reader (one_shot false false key) log =
      let r = with_reader key log in (r.0, one_shot true true (destroy r.1), r.2)
  with_reader (one_shot_nil used) log = (inl invalid_parameter, one_shot_nil used, log)

-- `NewSHA256PassphraseKey`: the key, and the passphrase that it leaves.
unfoldable pub new_sha256_passphrase_key : (Bytes → Bytes) → Bytes → (DriveError ⊎ Key) × Bytes
new_sha256_passphrase_key sha256 [] = (inl invalid_parameter, [])
new_sha256_passphrase_key sha256 (b ∷ bs) =
    (inr (new_in_memory_key (sha256 (b ∷ bs))), map (λ _. 0) (b ∷ bs))
