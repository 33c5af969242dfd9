-- ===== src/Drive/Runner/Returns.antt =====
-- The calls of drive/test_runner/main.go never wait for a read or a write, and do not panic.
use poprocks.Prelude.{◌≡◌, ◌≢◌, inl, inr, Option, some, arith, Option-cases}
use poprocks.Drive.Errors.{panicked}
use poprocks.Drive.Os.{Log}
use poprocks.Drive.Runner.{Failure, failed_with, Ran, Part, and_then, deferred}

module _ {D : Type 0} (IsQuiet : D → Type 0) where
  -- A part that has returned without a panic, with no read or write under way.
  pub record HasReturned (r : Ran D) : Type 0 where
    pub failure : Option Failure
    pub drive : D
    pub log : Log
    pub returned : r ≡ some (failure, drive, log)
    pub quiet : IsQuiet drive
    pub calm : failure ≢ some (failed_with panicked)

  -- It does, on every drive of a kind.
  abbrev pub Returns : (D → Type 0) → Part D → Type 0
  Returns P m = (d : D) (log : Log) → P d → HasReturned (m d log)

  pub and_then-Returns :
      (P : D → Type 0) (m k : Part D) → Returns P m → Returns IsQuiet k → Returns P (and_then m k)
  unfolding and_then
  and_then-Returns P m k hm hk d log q =
      let a = hm d log q in
      let b = hk a.drive a.log a.quiet in
      let r = a.returned in
      elim (Option-cases a.failure) [
        | inl e ↦ record {
          failure = b.failure;
          drive = b.drive;
          log = b.log;
          returned = ground (arith, b.returned);
          quiet = b.quiet;
          calm = b.calm;
        }
        | inr (f, e) ↦ record {
          failure = a.failure;
          drive = a.drive;
          log = a.log;
          returned = ground arith;
          quiet = a.quiet;
          calm = a.calm;
        }
      ]

  pub deferred-Returns :
      (P : D → Type 0) (m c : Part D) → Returns P m → Returns IsQuiet c → Returns P (deferred m c)
  unfolding deferred
  deferred-Returns P m c hm hc d log q =
      let a = hm d log q in
      let b = hc a.drive a.log a.quiet in
      let r = a.returned in
      let s = b.returned in
      record {
        failure = a.failure;
        drive = b.drive;
        log = b.log;
        returned = ground arith;
        quiet = b.quiet;
        calm = a.calm;
      }
