-- ===== src/Drive/Keys/Laws.antt =====
-- One-shot keys, destroyed keys and passphrases of drive/key.go.
use poprocks.Prelude.{ℕ, ◌≡◌, refl, ◌≢◌, true, false, [], ◌∷◌, inl, inr, Bytes, All, map, arith}
use poprocks.Drive.Errors.{invalid_parameter}
use poprocks.Drive.Os.{Log, Os, Run}
use poprocks.Drive.Keys.{
  Key, in_memory, reader_key, file_key, command_key, one_shot, one_shot_nil, new_one_shot_key,
  destroy, with_reader, new_sha256_passphrase_key,
}

-- A key that `WithReader` refuses.
abbrev pub IsSpent : Os → Key → Type 0
IsSpent os key =
    (fn : Bytes → Run Log (Unit {0})) (log : Log)
    → with_reader os fn key log ≡ (inl invalid_parameter, key, log)

-- A key that keeps its material, or hands a key on.
abbrev pub IsErasable : Key → Type 0
IsErasable (in_memory bytes) = Unit
IsErasable (one_shot used gone key) = Unit
IsErasable (one_shot_nil used) = Unit
IsErasable _ = ⊥

-- A destroyed key in memory, and a destroyed one-shot key, is refused.
pub destroy-IsSpent : (os : Os) (key : Key) → IsErasable key → IsSpent os (destroy key)
unfolding destroy with_reader
destroy-IsSpent os (in_memory bytes) v fn log = refl
destroy-IsSpent os (reader_key open_reader) v fn log = absurd v
destroy-IsSpent os (file_key path) v fn log = absurd v
destroy-IsSpent os (command_key name args) v fn log = absurd v
destroy-IsSpent os (one_shot used true key) v fn log = refl
destroy-IsSpent os (one_shot used false key) v fn log = refl
destroy-IsSpent os (one_shot_nil used) v fn log = refl

-- The first use of a one-shot key has the result of a use of the key that it was made of, asks
-- the same of the system, and leaves that key destroyed; after it every use is refused, and
-- nothing is read.
pub one_shot_once :
    (os : Os) (fn : Bytes → Run Log (Unit {0})) (key : Key) (log : Log)
    → ((with_reader os fn (new_one_shot_key key) log).0 ≡ (with_reader os fn key log).0)
      × ((with_reader os fn (new_one_shot_key key) log).2 ≡ (with_reader os fn key log).2)
      × ((with_reader os fn (new_one_shot_key key) log).1
          ≡ one_shot true true (destroy (with_reader os fn key log).1))
      × IsSpent os (with_reader os fn (new_one_shot_key key) log).1
unfolding with_reader destroy
one_shot_once os fn key log = (refl, refl, refl, λ fn log. refl)

in_memory_reads :
    (os : Os) (fn : Bytes → Run Log (Unit {0})) (bytes : Bytes) (log : Log)
    → bytes ≢ []
    → with_reader os fn (in_memory bytes) log
      ≡ ((fn bytes log).0, in_memory bytes, (fn bytes log).1)
unfolding with_reader
in_memory_reads os fn [] log n = absurd (n refl)
in_memory_reads os fn (b ∷ bs) log n = refl

zeroes-All : (s : Bytes) → All (λ (b : ℕ). b ≡ 0) (map (λ _. 0) s)
zeroes-All [] = tt
zeroes-All (b ∷ bs) = (refl, zeroes-All bs)

-- The key of a passphrase gives the digest of it, which is not empty, as often as it is asked for,
-- and the passphrase itself is zeroed.
pub new_sha256_passphrase_key_ok :
    (os : Os) (sha256 : Bytes → Bytes) (passphrase : Bytes) (key : Key)
    (fn : Bytes → Run Log (Unit {0})) (log : Log)
    → ((s : Bytes) → sha256 s ≢ [])
    → (new_sha256_passphrase_key sha256 passphrase).0 ≡ inr key
    → (with_reader os fn key log
        ≡ ((fn (sha256 passphrase) log).0, key, (fn (sha256 passphrase) log).1))
      × All (λ (b : ℕ). b ≡ 0) (new_sha256_passphrase_key sha256 passphrase).1
unfolding new_sha256_passphrase_key
new_sha256_passphrase_key_ok os sha256 [] key fn log n h = absurd (ground arith)
new_sha256_passphrase_key_ok os sha256 (b ∷ bs) key fn log n h =
    let e : in_memory (sha256 (b ∷ bs)) ≡ key = ground arith in
    (rw (← e) (in_memory_reads os fn (sha256 (b ∷ bs)) log (n (b ∷ bs))), zeroes-All (b ∷ bs))
