-- ===== src/Drive/Runner/Calls.antt =====
-- The parts of the scenarios of drive/test_runner/main.go return, without a panic.
use poprocks.Prelude.{
  refl, sym, inl, inr, Option, none, some, ◌∷◌, Bytes, bytes_eq, codes, if◌then◌else◌, arith,
  Option-cases, Bool-cases, Sum-cases,
}
use mathlib.Core.Path.{subst}
use poprocks.Vsock.Errors.{Result-cases}
use poprocks.Drive.Errors.{DriveError, failed}
use poprocks.Drive.Paths.Cases.{Stat-cases}
use poprocks.Drive.Os.{Log, Os, mkdir_temp, remove_all}
use poprocks.Drive.Interface.{Drive}
use poprocks.Drive.Interface.Laws.{IsOff, IsLawful}
use poprocks.Drive.Interface.Calm.{IsCalmCall, IsCalm}
use poprocks.Drive.Runner.{
  failed_with, payload_mismatch, unexpected_content, write_succeeded, still_there, contains, raised,
  Part, called, and_then, deferred, reader_of, write_and_load, read_only_checks, with_mount, gone,
}
use poprocks.Drive.Runner.Returns.{HasReturned, Returns, and_then-Returns, deferred-Returns}

module _ {D : Type 0} (IsQuiet IsReady : D → Type 0) (ops : Drive D) (lawful : IsLawful ops IsQuiet)
    (safe : IsCalm ops IsQuiet IsReady) where
  called-HasReturned :
      (r : Option (Option DriveError × D × Log))
      → IsOff ops.mounted IsQuiet r
      → IsCalmCall r
      → HasReturned IsQuiet (called r)
  called-HasReturned r o c =
      let e = o.returned in
      elim (Option-cases o.error) [
        | inl z ↦ record {
          failure = none;
          drive = o.drive;
          log = o.log;
          returned = ground arith;
          quiet = o.quiet;
          calm = λ x. ground arith;
        }
        | inr (x, z) ↦ record {
          failure = some (failed_with x);
          drive = o.drive;
          log = o.log;
          returned = ground arith;
          quiet = o.quiet;
          calm = λ y. ground (arith, c o.error o.drive o.log e);
        }
      ]

  pub unmount-Returns : Returns IsQuiet IsQuiet (λ d log. called (ops.unmount d log))
  unmount-Returns d log q =
      called-HasReturned (ops.unmount d log) (lawful.unmount-IsOff d log q)
        (safe.unmount_calm d log)

  pub delete-Returns : Returns IsQuiet IsQuiet (λ d log. called (ops.delete d log))
  delete-Returns d log q =
      called-HasReturned (ops.delete d log) (lawful.delete-IsOff d log q) (safe.delete_calm d log)

  mount-Returns :
      (dir : Bytes) → Returns IsQuiet IsReady (λ d log. called (some (ops.mount dir d log)))
  mount-Returns dir d log q = record {
    failure = raised (ops.mount dir d log).0;
    drive = (ops.mount dir d log).1;
    log = (ops.mount dir d log).2;
    returned = refl;
    quiet = lawful.mount-IsQuiet dir d log (safe.ready-IsQuiet d q);
    calm = λ x. ground (arith, safe.mount_calm dir d log q);
  }

  pub write_and_load-Returns :
      (file want : Bytes) → Returns IsQuiet IsQuiet (write_and_load ops file want)
  unfolding write_and_load
  write_and_load-Returns file want d log q =
      let w = ops.write_to_drive file (reader_of want) d log in
      let l = ops.load_from_drive file w.1 w.2 in
      let qw : IsQuiet w.1 =
        subst IsQuiet (sym (lawful.write_leaves file (reader_of want) d log)) q in
      let ql : IsQuiet l.1 = subst IsQuiet (sym (lawful.load_leaves file w.1 w.2)) qw in
      elim (Sum-cases w.0) [
        | inl (e, z) ↦ record {
          failure = some (failed_with e);
          drive = w.1;
          log = w.2;
          returned = ground arith;
          quiet = qw;
          calm = λ x. ground (arith, safe.write_calm file (reader_of want) d log);
        }
        | inr (u, z) ↦ elim (Sum-cases l.0) [
          | inl (e, y) ↦ record {
            failure = some (failed_with e);
            drive = l.1;
            log = l.2;
            returned = ground arith;
            quiet = ql;
            calm = λ x. ground (arith, safe.load_calm file w.1 w.2);
          }
          | inr (got, y) ↦ record {
            failure = (if bytes_eq got want then none else some payload_mismatch);
            drive = l.1;
            log = l.2;
            returned = ground arith;
            quiet = ql;
            calm = λ x. ground arith;
          }
        ]
      ]

  pub read_only_checks-Returns : Returns IsQuiet IsQuiet (read_only_checks ops)
  unfolding read_only_checks
  read_only_checks-Returns d log q =
      let hello : Bytes = codes "/data/hello.txt" in
      let new : Bytes = codes "/data/new.txt" in
      let l = ops.load_from_drive hello d log in
      let w = ops.write_to_drive new (reader_of (codes "x")) l.1 l.2 in
      let ql : IsQuiet l.1 = subst IsQuiet (sym (lawful.load_leaves hello d log)) q in
      let qw : IsQuiet w.1 =
        subst IsQuiet (sym (lawful.write_leaves new (reader_of (codes "x")) l.1 l.2)) ql in
      elim (Sum-cases l.0) [
        | inl (e, z) ↦ record {
          failure = some (failed_with e);
          drive = l.1;
          log = l.2;
          returned = ground arith;
          quiet = ql;
          calm = λ x. ground (arith, safe.load_calm hello d log);
        }
        | inr (got, z) ↦ elim (Bool-cases (contains got (codes "hello from squashfs fixture"))) [
          | inr c ↦ record {
            failure = some unexpected_content;
            drive = l.1;
            log = l.2;
            returned = ground arith;
            quiet = ql;
            calm = λ x. ground arith;
          }
          | inl c ↦ elim (Sum-cases w.0) [
            | inl (e, y) ↦ record {
              failure = none;
              drive = w.1;
              log = w.2;
              returned = ground arith;
              quiet = qw;
              calm = λ x. ground arith;
            }
            | inr (u, y) ↦ record {
              failure = some write_succeeded;
              drive = w.1;
              log = w.2;
              returned = ground arith;
              quiet = qw;
              calm = λ x. ground arith;
            }
          ]
        ]
      ]

  module _ (os : Os) where
    pub gone-Returns : (image : Bytes) → Returns IsQuiet IsQuiet (gone ops os image)
    unfolding gone
    gone-Returns image d log q = elim (Stat-cases (os.stat log image)) [
      | inl e ↦ record {
        failure = none;
        drive = d;
        log = log;
        returned = ground arith;
        quiet = q;
        calm = λ x. ground arith;
      }
      | inr (inl (x, e)) ↦ record {
        failure = some still_there;
        drive = d;
        log = log;
        returned = ground arith;
        quiet = q;
        calm = λ x. ground arith;
      }
      | inr (inr (link, e)) ↦ record {
        failure = some still_there;
        drive = d;
        log = log;
        returned = ground arith;
        quiet = q;
        calm = λ x. ground arith;
      }
    ]

    pub with_mount-Returns :
        (prefix : Bytes) (body : Part D)
        → Returns IsQuiet IsQuiet body
        → Returns IsQuiet IsReady (with_mount ops os prefix body)
    unfolding with_mount
    with_mount-Returns prefix body hb d log q =
        elim (Result-cases (os.gives log (mkdir_temp prefix))) [
          | inl (x, e) ↦ record {
            failure = some (failed_with (failed x));
            drive = d;
            log = mkdir_temp prefix ∷ log;
            returned = ground arith;
            quiet = safe.ready-IsQuiet d q;
            calm = λ x. ground arith;
          }
          | inr (dir, e) ↦
              let mounting : Part D = λ a b. called (some (ops.mount dir a b)) in
              let unmounting : Part D = λ a b. called (ops.unmount a b) in
              let removing : Part D = λ a b. some (none, a, remove_all dir ∷ b) in
              let removes : Returns IsQuiet IsQuiet removing = λ a b p. record {
                failure = none;
                drive = a;
                log = remove_all dir ∷ b;
                returned = refl;
                quiet = p;
                calm = λ x. ground arith;
              } in
              let whole =
                deferred-Returns IsQuiet IsReady (and_then mounting (deferred body unmounting))
                  removing
                  (and_then-Returns IsQuiet IsReady mounting (deferred body unmounting)
                    (mount-Returns dir)
                    (deferred-Returns IsQuiet IsQuiet body unmounting hb unmount-Returns))
                  removes d (mkdir_temp prefix ∷ log) q in
              record {
                failure = whole.failure;
                drive = whole.drive;
                log = whole.log;
                returned = ground (arith, whole.returned);
                quiet = whole.quiet;
                calm = whole.calm;
              }
        ]
