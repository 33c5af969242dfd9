-- ===== src/Drive/Encrypted/Mapping.antt =====
-- The LUKS mapping that `Mount` and `Unmount` of drive/encrypted_drive.go open and close.
use poprocks.Prelude.{
  ◌≡◌, refl, ap, ◌∙◌, ◌⊎◌, inl, inr, Bool, true, false, Option, none, some, [], ◌∷◌, Bytes, arith,
  Option-cases, Sum-cases, bytes_eq, bytes_eq_iff, ◌||◌, if◌then◌else◌,
}
use poprocks.Vsock.Errors.{Result-cases}
use poprocks.Drive.Errors.{DriveError, invalid_parameter, failed, panicked}
use poprocks.Drive.Os.{
  Call, Log, Os, run, luks_format, luks_open, luks_close, open_key, open_reader_with,
}
use poprocks.Drive.Os.Ends.{Ends}
use poprocks.Drive.Keys.{
  Key, in_memory, reader_key, file_key, command_key, one_shot, one_shot_nil, destroy, with_reader,
}
use poprocks.Drive.Encrypted.{Held, run_cryptsetup_with_key}

-- Whether the mapping of a name was opened, and its closing has not been asked for since.
abbrev pub is_open : Os → Bytes → Log → Bool
is_open os own [] = false
is_open os own (luks_open image name key ∷ log) =
    let before = is_open os own log in
    elim (os.fails log (luks_open image name key)) [
      | none ↦ bytes_eq name own || before
      | some e ↦ before
    ]
is_open os own (luks_close name ∷ log) =
    let before = is_open os own log in if bytes_eq name own then false else before
is_open os own (_ ∷ log) = is_open os own log

bytes_eq-same : (own : Bytes) → bytes_eq own own ≡ true
bytes_eq-same own = ground (arith, bytes_eq_iff own own)

-- Opening the mapping of the name, and closing it.
pub is_open_opened :
    (os : Os) (own image key : Bytes) (log : Log)
    → os.fails log (luks_open image own key) ≡ none
    → is_open os own (luks_open image own key ∷ log) ≡ true
is_open_opened os own image key log e = ground (arith, bytes_eq-same own)

pub is_open_closed :
    (os : Os) (own : Bytes) (log : Log) → is_open os own (luks_close own ∷ log) ≡ false
is_open_closed os own log = ground (arith, bytes_eq-same own)

-- A key that no command gives.
abbrev pub IsDirect : Key → Type 0
IsDirect (command_key name args) = ⊥
IsDirect (one_shot used gone key) = IsDirect key
IsDirect _ = Unit

destroy-IsDirect : (key : Key) → IsDirect key → IsDirect (destroy key)
unfolding destroy
destroy-IsDirect (in_memory bytes) v = tt
destroy-IsDirect (reader_key open_reader) v = tt
destroy-IsDirect (file_key path) v = tt
destroy-IsDirect (command_key name args) v = absurd v
destroy-IsDirect (one_shot used true key) v = v
destroy-IsDirect (one_shot used false key) v = destroy-IsDirect key v
destroy-IsDirect (one_shot_nil used) v = tt

abbrev pub IsDirectOption : Option Key → Type 0
IsDirectOption none = Unit
IsDirectOption (some k) = IsDirect k

abbrev pub held : Option Key → Log → Held
held key log = record { key = key; log = log }

module _ (os : Os) (own : Bytes) where
  -- A use of a key: it was refused before the call, or ends as the call does.
  IsUse : (Bytes → Call) → Log → (DriveError ⊎ Unit {0}) × Key × Log → Type 0
  IsUse c log r =
      ((e : DriveError) × (r.0 ≡ inl e) × (is_open os own r.2 ≡ is_open os own log))
      ⊎ ((bytes : Bytes) × (log1 : Log) × (is_open os own log1 ≡ is_open os own log)
          × (r.0 ≡ (run os (c bytes) log1).0)
          × (r.2 ≡ (run os (c bytes) log1).1))

  with_reader-IsUse :
      (c : Bytes → Call) (key : Key) (log : Log)
      → IsDirect key
      → IsUse c log (with_reader os (λ bytes. run os (c bytes)) key log)
        × IsDirect (with_reader os (λ bytes. run os (c bytes)) key log).1
  unfolding IsUse with_reader
  with_reader-IsUse c (in_memory []) log v = (inl (invalid_parameter, refl, refl), tt)
  with_reader-IsUse c (in_memory (b ∷ bs)) log v = (inr (b ∷ bs, log, refl, refl, refl), tt)
  with_reader-IsUse c (reader_key none) log v = (inl (invalid_parameter, refl, refl), tt)
  with_reader-IsUse c (reader_key (some n)) log v =
      elim (Result-cases (os.gives log (open_reader_with n))) [
        | inl (e, h) ↦ (inl (failed e, ground arith, ground arith), ground arith)
        | inr (bytes, h) ↦
            (inr (bytes, open_reader_with n ∷ log, refl, ground arith, ground arith), ground arith)
      ]
  with_reader-IsUse c (file_key []) log v = (inl (invalid_parameter, refl, refl), tt)
  with_reader-IsUse c (file_key (b ∷ bs)) log v =
      elim (Result-cases (os.gives log (open_key (b ∷ bs)))) [
        | inl (e, h) ↦ (inl (failed e, ground arith, ground arith), ground arith)
        | inr (bytes, h) ↦
            (inr (bytes, open_key (b ∷ bs) ∷ log, refl, ground arith, ground arith), ground arith)
      ]
  with_reader-IsUse c (command_key name args) log v = absurd v
  with_reader-IsUse c (one_shot true gone key) log v = (inl (invalid_parameter, refl, refl), v)
  with_reader-IsUse c (one_shot false true key) log v = (inl (invalid_parameter, refl, refl), v)
  with_reader-IsUse c (one_shot false false key) log v =
      let (u, w) = with_reader-IsUse c key log v in
      (u, destroy-IsDirect (with_reader os (λ bytes. run os (c bytes)) key log).1 w)
  with_reader-IsUse c (one_shot_nil used) log v = (inl (invalid_parameter, refl, refl), tt)

  format_call :
      (image bytes : Bytes) (log : Log)
      → is_open os own (run os (luks_format image bytes) log).1 ≡ is_open os own log
  format_call image bytes log = elim (Option-cases (os.fails log (luks_format image bytes))) [
    | inl e ↦ ground arith
    | inr (x, e) ↦ ground arith
  ]

  -- luksFormat neither opens nor closes a mapping.
  format_keeps :
      (image : Bytes) (key : Option Key) (log : Log)
      → IsDirectOption key
      → IsDirectOption (run_cryptsetup_with_key os (luks_format image) (held key log)).1.key
        × (is_open os own (run_cryptsetup_with_key os (luks_format image) (held key log)).1.log
            ≡ is_open os own log)
  unfolding run_cryptsetup_with_key IsUse
  format_keeps image none log v = (tt, refl)
  format_keeps image (some k) log v =
      let (u, w) = with_reader-IsUse (luks_format image) k log v in
      elim u [
        | inl (e, f, g) ↦ (w, g)
        | inr (bytes, log1, f, g, i) ↦ (w, ap (is_open os own) i ∙ format_call image bytes log1 ∙ f)
      ]

  open_call :
      (image bytes : Bytes) (log : Log)
      → (((run os (luks_open image own bytes) log).0 ≡ inr tt)
          × (is_open os own (run os (luks_open image own bytes) log).1 ≡ true))
        ⊎ ((e : DriveError) × ((run os (luks_open image own bytes) log).0 ≡ inl e)
            × (is_open os own (run os (luks_open image own bytes) log).1 ≡ is_open os own log))
  open_call image bytes log = elim (Option-cases (os.fails log (luks_open image own bytes))) [
    | inl e ↦ inl (ground arith, ground (arith, is_open_opened os own image bytes log e))
    | inr (x, e) ↦ inr (failed x, ground arith, ground arith)
  ]

  -- luksOpen opens the mapping exactly if it ends without an error.
  open_opens :
      (image : Bytes) (key : Option Key) (log : Log)
      → IsDirectOption key
      → IsDirectOption (run_cryptsetup_with_key os (luks_open image own) (held key log)).1.key
        × ((((run_cryptsetup_with_key os (luks_open image own) (held key log)).0 ≡ inr tt)
              × (is_open os own
                    (run_cryptsetup_with_key os (luks_open image own) (held key log)).1.log
                  ≡ true))
            ⊎ ((e : DriveError) × ((run_cryptsetup_with_key os
                    (luks_open image own)
                    (held key log)).0
                  ≡ inl e)
                × (is_open os own
                      (run_cryptsetup_with_key os (luks_open image own) (held key log)).1.log
                    ≡ is_open os own log)))
  unfolding run_cryptsetup_with_key IsUse
  open_opens image none log v = (tt, inr (panicked, refl, refl))
  open_opens image (some k) log v =
      let (u, w) = with_reader-IsUse (luks_open image own) k log v in
      elim u [
        | inl (e, f, g) ↦ (w, inr (e, f, g))
        | inr (bytes, log1, f, g, i) ↦ elim (open_call image bytes log1) [
          | inl (a, b) ↦ (w, inl (g ∙ a, ap (is_open os own) i ∙ b))
          | inr (e, a, b) ↦ (w, inr (e, g ∙ a, ap (is_open os own) i ∙ b ∙ f))
        ]
      ]

  -- No mapping is left open; one is open.
  abbrev pub IsClosed : Held → Type 0
  IsClosed h = IsDirectOption h.key × (is_open os own h.log ≡ false)

  abbrev pub IsOpened : Held → Type 0
  IsOpened h = IsDirectOption h.key × (is_open os own h.log ≡ true)

  pub format-Ends :
      (image : Bytes)
      → Ends IsClosed (run_cryptsetup_with_key os (luks_format image)) IsClosed IsClosed
  format-Ends image = record {
    ends = λ h v.
        let (w, f) = format_keeps image h.key h.log v.0 in
        elim (Sum-cases (run_cryptsetup_with_key os (luks_format image) h).0) [
          | inl (e, g) ↦ inl (e, g, (w, f ∙ v.1))
          | inr (a, g) ↦ inr (a, g, (w, f ∙ v.1))
        ];
  }

  pub open-Ends :
      (image : Bytes)
      → Ends IsClosed (run_cryptsetup_with_key os (luks_open image own)) IsClosed IsOpened
  open-Ends image = record {
    ends = λ h v.
        let (w, o) = open_opens image h.key h.log v.0 in
        elim o [ inl (g, f) ↦ inr (tt, g, (w, f)) | inr (e, g, f) ↦ inl (e, g, (w, f ∙ v.1)) ];
  }
  -- Any other call.
