-- ===== src/Drive/Runner/Laws.antt =====
-- What a scenario of drive/test_runner/main.go that passes has done.
use mathlib.Core.Path.{subst}
use poprocks.Prelude.{
  sym, ◌≡◌, ap, inl, inr, false, Option, none, some, ◌∷◌, Bytes, bytes_eq_iff, arith, Option-cases,
  Sum-cases,
}
use poprocks.Vsock.Errors.{ok, Result-cases}
use poprocks.Drive.Os.{Log, Os, mkdir_temp, remove_all}
use poprocks.Drive.Interface.{Drive}
use poprocks.Drive.Interface.Laws.{IsLawful}
use poprocks.Drive.Runner.{
  Failure, Part, called, and_then, deferred, reader_of, write_and_load, with_mount,
}

module _ {D : Type 0} where
  pub and_then_ok :
      (m k : Part D) (d d' : D) (log log' : Log)
      → and_then m k d log ≡ some (none, d', log')
      → (d1 : D) × (log1 : Log) × (m d log ≡ some (none, d1, log1))
        × (k d1 log1 ≡ some (none, d', log'))
  unfolding and_then
  and_then_ok m k d d' log log' h = elim (Option-cases (m d log)) [
    | inl e ↦ absurd (ground arith)
    | inr ((f, d1, log1), e) ↦ elim (Option-cases f) [
      | inl c ↦ (d1, log1, ground arith, ground arith)
      | inr (x, c) ↦ absurd (ground arith)
    ]
  ]

  pub deferred_ok :
      (m c : Part D) (d d' : D) (log log' : Log)
      → deferred m c d log ≡ some (none, d', log')
      → (d1 : D) × (log1 : Log) × (m d log ≡ some (none, d1, log1))
        × ((f : Option Failure) × (c d1 log1 ≡ some (f, d', log')))
  unfolding deferred
  deferred_ok m c d d' log log' h = elim (Option-cases (m d log)) [
    | inl e ↦ absurd (ground arith)
    | inr ((f, d1, log1), e) ↦ elim (Option-cases (c d1 log1)) [
      | inl z ↦ absurd (ground arith)
      | inr ((g, d2, log2), z) ↦ (d1, log1, ground arith, (g, ground arith))
    ]
  ]

module _ {D : Type 0} (ops : Drive D) (os : Os) where
  abbrev unmounts : Part D
  unmounts d log = called (ops.unmount d log)

  -- The file was written and then gave back what was written.
  pub record IsKept (file want : Bytes) (d : D) (log : Log) : Type 0 where
    pub written : (ops.write_to_drive file (reader_of want) d log).0 ≡ inr tt
    pub loaded :
        (ops.load_from_drive file
          (ops.write_to_drive file (reader_of want) d log).1
          (ops.write_to_drive file (reader_of want) d log).2).0
        ≡ inr want

  write_and_load_ok :
      (file want : Bytes) (d d' : D) (log log' : Log)
      → write_and_load ops file want d log ≡ some (none, d', log')
      → IsKept file want d log
  unfolding write_and_load
  write_and_load_ok file want d d' log log' h =
      let w = ops.write_to_drive file (reader_of want) d log in
      elim (Sum-cases w.0) [
        | inl (e, z) ↦ absurd (ground arith)
        | inr (u, z) ↦ elim (Sum-cases (ops.load_from_drive file w.1 w.2).0) [
          | inl (e, y) ↦ absurd (ground arith)
          | inr (got, y) ↦ record {
            written = ground arith;
            loaded = ground (arith, bytes_eq_iff got want);
          }
        ]
      ]

  with_mount_ok :
      (prefix : Bytes) (body : Part D) (d d' : D) (log log' : Log)
      → with_mount ops os prefix body d log ≡ some (none, d', log')
      → (dir : Bytes) × (d1 : D) × (log1 : Log) × (os.gives log (mkdir_temp prefix) ≡ ok dir)
        × (ops.mount dir d (mkdir_temp prefix ∷ log) ≡ (none, d1, log1))
        × ((log2 : Log) × (deferred body unmounts d1 log1 ≡ some (none, d', log2))
            × (log' ≡ remove_all dir ∷ log2))
  unfolding with_mount
  with_mount_ok prefix body d d' log log' h =
      elim (Result-cases (os.gives log (mkdir_temp prefix))) [
        | inl (x, e) ↦ absurd (ground arith)
        | inr (dir, e) ↦
            let mounting : Part D = λ a b. called (some (ops.mount dir a b)) in
            let removing : Part D = λ a b. some (none, a, remove_all dir ∷ b) in
            let (d2, log2, m, (f, r)) =
              deferred_ok (and_then mounting (deferred body unmounts)) removing d d'
                (mkdir_temp prefix ∷ log) log' (ground arith) in
            let (d1, log1, a, b) =
              and_then_ok mounting (deferred body unmounts) d d2 (mkdir_temp prefix ∷ log) log2 m in
            (dir, d1, log1, e, ground arith, (log2, ground arith, ground arith))
      ]

  module _ (IsQuiet : D → Type 0) (lawful : IsLawful ops IsQuiet) where
    unmounted_again :
        (d d1 d' : D) (log log1 log' : Log) (f : Option Failure)
        → IsQuiet d
        → unmounts d log ≡ some (none, d1, log1)
        → unmounts d1 log1 ≡ some (f, d', log')
        → ops.mounted d' ≡ false
    unmounted_again d d1 d' log log1 log' f q h again =
        let o = lawful.unmount-IsOff d log q in
        let r = o.returned in
        elim (Option-cases o.error) [
          | inr (e, z) ↦ absurd (ground arith)
          | inl z ↦
              let off = o.off z in
              let same : o.drive ≡ d1 = ground arith in
              let m : ops.mounted d1 ≡ false = ground arith in
              let u = lawful.unmount_unmounted d1 log1 m in
              let end : d' ≡ d1 = ground arith in ground arith
        ]

    write_and_load_leaves :
        (file want : Bytes) (d d' : D) (log log' : Log)
        → write_and_load ops file want d log ≡ some (none, d', log')
        → d' ≡ d
    unfolding write_and_load
    write_and_load_leaves file want d d' log log' h =
        let w = ops.write_to_drive file (reader_of want) d log in
        let a = lawful.write_leaves file (reader_of want) d log in
        let b = lawful.load_leaves file w.1 w.2 in
        elim (Sum-cases w.0) [
          | inl (e, z) ↦ absurd (ground arith)
          | inr (u, z) ↦ elim (Sum-cases (ops.load_from_drive file w.1 w.2).0) [
            | inl (e, y) ↦ absurd (ground arith)
            | inr (got, y) ↦ ground arith
          ]
        ]

    -- When a drive is mounted at a fresh directory for a part of a scenario that writes a file,
    -- reads it and unmounts, and this passes, then the drive was mounted at that directory, the
    -- write succeeded, the read after it gave the bytes that were written, and the drive is left
    -- unmounted. The drive obeys the laws of `IsLawful`, and no read or write is under way.
    pub with_mount-write_and_load :
        (prefix file want : Bytes) (d d' : D) (log log' : Log)
        → IsQuiet d
        → with_mount ops os prefix (and_then (write_and_load ops file want) unmounts) d log
          ≡ some (none, d', log')
        → (dir : Bytes) × (d1 : D) × (log1 : Log) × (os.gives log (mkdir_temp prefix) ≡ ok dir)
          × (ops.mount dir d (mkdir_temp prefix ∷ log) ≡ (none, d1, log1))
          × IsKept file want d1 log1
          × (ops.mounted d' ≡ false)
    with_mount-write_and_load prefix file want d d' log log' q h =
        let kept = write_and_load ops file want in
        let (dir, d1, log1, made, on, (log2, ran, last)) =
          with_mount_ok prefix (and_then kept unmounts) d d' log log' h in
        let (d2, log3, b, (f, again)) =
          deferred_ok (and_then kept unmounts) unmounts d1 d' log1 log2 ran in
        let (d3, log4, k, u) = and_then_ok kept unmounts d1 d2 log1 log3 b in
        let q1 : IsQuiet d1 =
          subst IsQuiet (ap (λ r. r.1) on)
            (lawful.mount-IsQuiet dir d (mkdir_temp prefix ∷ log) q) in
        let same = write_and_load_leaves file want d1 d3 log1 log4 k in
        let q3 : IsQuiet d3 = subst IsQuiet (sym same) q1 in
        (
          dir,
          d1,
          log1,
          made,
          on,
          write_and_load_ok file want d1 d3 log1 log4 k,
          unmounted_again d3 d2 d' log4 log3 log2 f q3 u again,
        )
