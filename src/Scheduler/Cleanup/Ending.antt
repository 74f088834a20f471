-- ===== src/Scheduler/Cleanup/Ending.antt =====
-- The cleanup loop of internal/scheduler/notification_job_cleanup.go ends, and counts what it deletes.
use Prim.Native.Nat.{min}
use crypto_price_alert.Base.{
  ℕ, zero, suc, ◌+◌, ◌-◌, ◌*◌, ◌≤◌, ◌<◌, ◌≡◌, ap, Option, none, some, Error, Result, ok, err,
  wrap64, ltb, arith, Result-cases, Bool-cases, inl, inr, refl, ◌⊎◌,
}
use crypto_price_alert.Domain.Interval.{Time, Duration}
use crypto_price_alert.Repository.Ports.{CleanupRepository}
use crypto_price_alert.Scheduler.Cleanup.{Cleaned, batch_size, cleanup_loop, cleanup}

-- What the loop relies on: `stale` counts the rows before the cutoff, a call deletes as many of them
-- as the limit allows and returns their number, and a failing call deletes none.
pub record CleanupContract {W : Type 0} (repository : CleanupRepository W) (cutoff : Time)
    (stale : W → ℕ) : Type 0 where
  pub deletes :
      (limit : ℕ) (w : W) (n : ℕ)
      → (repository.delete_updated_before cutoff limit w).0 ≡ ok n
      → (n ≡ min limit (stale w))
        × (stale (repository.delete_updated_before cutoff limit w).1 + n ≡ stale w)
  pub fails :
      (limit : ℕ) (w : W) (error : Error)
      → (repository.delete_updated_before cutoff limit w).0 ≡ err error
      → stale (repository.delete_updated_before cutoff limit w).1 ≡ stale w

-- The outcome of a loop that began in `w` with a total.
pub record Ended {W : Type 0} (stale : W → ℕ) (total : ℕ) (w : W) (run : Option (Cleaned × W))
    : Type 0 where
  pub result : Cleaned
  pub after : W
  pub returned : run ≡ some (result, after)
  pub shrinks : stale after ≤ stale w
  pub counted : wrap64 result.deleted ≡ wrap64 (total + (stale w - stale after))
  pub all_gone : (stale after ≡ 0) ⊎ ((error : Error) × (result.error ≡ some error))

module _ {W : Type 0} (repository : CleanupRepository W) (cutoff : Time) (stale : W → ℕ)
    (contract : CleanupContract repository cutoff stale) where
  abbrev call : W → Result ℕ × W
  call w = repository.delete_updated_before cutoff batch_size w

  step-failed :
      (fuel total : ℕ) (w : W) (error : Error)
      → (call w).0 ≡ err error
      → Ended stale total w (cleanup_loop repository cutoff (suc fuel) total w)
  unfolding cleanup_loop
  step-failed fuel total w error h = record {
    result = record { deleted = total; error = some error };
    after = (call w).1;
    returned = rw (h, cleanup_loop);
    shrinks = omega (arith, contract.fails batch_size w error h);
    counted = ap wrap64 (omega (arith, contract.fails batch_size w error h));
    all_gone = inr (error, refl);
  }

  step-last :
      (fuel total : ℕ) (w : W) (n : ℕ)
      → (call w).0 ≡ ok n
      → n < batch_size
      → Ended stale total w (cleanup_loop repository cutoff (suc fuel) total w)
  unfolding cleanup_loop
  step-last fuel total w n h small =
      let (amount, left) = contract.deletes batch_size w n h in
      record {
        result = record { deleted = wrap64 (total + n); error = none };
        after = (call w).1;
        returned = rw (h, cleanup_loop) (ground arith);
        shrinks = omega arith;
        counted = omega arith;
        all_gone = inl (omega arith);
      }

  step-next :
      (fuel total : ℕ) (w : W) (n : ℕ)
      → (call w).0 ≡ ok n
      → batch_size ≤ n
      → Ended stale
          (wrap64 (total + n))
          (call w).1
          (cleanup_loop repository cutoff fuel (wrap64 (total + n)) (call w).1)
      → Ended stale total w (cleanup_loop repository cutoff (suc fuel) total w)
  unfolding cleanup_loop
  step-next fuel total w n h full rest =
      let (amount, left) = contract.deletes batch_size w n h in
      record {
        result = rest.result;
        after = rest.after;
        returned = rw (h, cleanup_loop) (ground (arith, rest.returned));
        shrinks = omega (arith, rest.shrinks);
        counted = omega (arith, rest.counted, rest.shrinks);
        all_gone = rest.all_gone;
      }

  loop_ends :
      (fuel total : ℕ) (w : W)
      → stale w < fuel * batch_size
      → Ended stale total w (cleanup_loop repository cutoff fuel total w)
  loop_ends zero total w h = absurd (omega arith)
  loop_ends (suc fuel) total w h = elim (Result-cases (call w).0) [
    | inr (error, x) ↦ step-failed fuel total w error x
    | inl (n, x) ↦ elim (Bool-cases (ltb n batch_size)) [
      | inl small ↦ step-last fuel total w n x (ground arith)
      | inr full ↦
          let (amount, left) = contract.deletes batch_size w n x in
          step-next fuel total w n x (ground arith) (loop_ends fuel _ _ (ground arith))
    ]
  ]

-- Over a repository that deletes as many stale rows as the limit allows, or fails and deletes none,
-- enough fuel for the stale rows makes the cleanup return; its total is the number of rows that are
-- gone (as a 64-bit integer), and no stale row is left if it reports no error.
pub cleanup_ends :
    {W : Type 0} (repository : CleanupRepository W) (stale : W → ℕ) (retention : Duration)
    (now : Time) (fuel : ℕ) (w : W)
    → CleanupContract repository (now - retention) stale
    → stale w < fuel * batch_size
    → Ended stale 0 w (cleanup repository retention now fuel w)
unfolding cleanup
cleanup_ends repository stale retention now fuel w contract h =
    loop_ends repository (now - retention) stale contract fuel 0 w h
