-- ===== src/Runtime/Timing/Gaps.antt =====
-- The sample times of a simulated run and the gaps that are counted between them.
use bhtune.Common.{
  ℕ, zero, suc, ◌+◌, ◌*◌, ◌≤◌, ◌≡◌, sym, ap, leb, Option, none, some, if◌then◌else◌, arith,
}
use native.Mathlib.Nat.{suc-mul}
use bhtune.Common.Result.{Result, ok, ◌>>=◌}
use bhtune.Runtime.Timing.{
  TickTimeSource, fixed_step, TimingError, TimeRange, RunTimeAnchor, simulator, for_driver,
  next_timestamp_at, PollTimingAccumulator, new_timing, observe, gap_micros_of, add_gap,
  at_least_one, milliseconds, u64_max, i64_max,
}

-- `n` samples: each takes the next time, whatever the clock says, and counts the gap before it.
unfoldable pub take_samples :
    TimeRange
    → (ℕ → ℕ)
    → ℕ
    → TickTimeSource × PollTimingAccumulator
    → Result TimingError (TickTimeSource × PollTimingAccumulator)
unfolding next_timestamp_at observe
take_samples range clock zero s = ok s
take_samples range clock (suc n) s = do
  (source, timing) ← take_samples range clock n s
  (t, next) ← next_timestamp_at range source (clock n)
  counted ← observe timing t
  ok (next, counted)

-- What `n` samples with exact gaps of `m` milliseconds leave.
abbrev pub exact : ℕ → ℕ → ℕ → PollTimingAccumulator
exact utc m zero = record {
  requested_interval_ms = m;
  previous_timestamp = none;
  sample_gap_count = 0;
  total_gap_micros = 0;
  max_gap_micros = 0;
  missed_poll_opportunity_count = 0;
}
exact utc m (suc n) = record {
  requested_interval_ms = m;
  previous_timestamp = some (utc + milliseconds (n * m + m));
  sample_gap_count = n;
  total_gap_micros = n * m * 1000;
  max_gap_micros = if leb n 0 then 0 else m * 1000;
  missed_poll_opportunity_count = 0;
}

module _ (range : TimeRange) (clock : ℕ → ℕ) (utc m : ℕ) (positive : 1 ≤ m) where
  next_exact :
      (k now : ℕ)
      → utc + milliseconds (k + m) ≤ range.max_utc
      → next_timestamp_at range (fixed_step (utc + milliseconds k) (milliseconds m)) now
        ≡ ok (utc + milliseconds (k + m), fixed_step (utc + milliseconds (k + m)) (milliseconds m))
  unfolding next_timestamp_at
  next_exact k now fits = ground arith

  gap_exact :
      (k : ℕ)
      → m * 1000 ≤ i64_max
      → gap_micros_of (utc + milliseconds k) (utc + milliseconds (k + m)) ≡ ok (m * 1000)
  unfolding gap_micros_of
  gap_exact k small = ground arith

  abbrev counted : Option ℕ → ℕ → ℕ → ℕ → PollTimingAccumulator
  counted previous n total max = record {
    requested_interval_ms = m;
    previous_timestamp = previous;
    sample_gap_count = n;
    total_gap_micros = total;
    max_gap_micros = max;
    missed_poll_opportunity_count = 0;
  }

  add_exact :
      (previous : Option ℕ) (n k x : ℕ)
      → x ≤ m * 1000
      → n + 1 ≤ u64_max
      → (k + m) * 1000 ≤ i64_max
      → add_gap (counted previous n (k * 1000) x) (m * 1000)
        ≡ ok (counted previous (n + 1) ((k + m) * 1000) (m * 1000))
  unfolding add_gap
  add_exact previous n k x max few small = ground arith

  observe-exact :
      (n : ℕ)
      → n + 1 ≤ u64_max
      → (n * m + m) * 1000 ≤ i64_max
      → observe (exact utc m n) (utc + milliseconds (n * m + m)) ≡ ok (exact utc m (suc n))
  unfolding observe
  observe-exact zero few small = ground arith
  observe-exact (suc n) few small =
      rw (suc-mul n m, gap_exact (n * m + m) (omega (arith, small, suc-mul n m)))
        (rw
          (add_exact (some (utc + milliseconds (n * m + m))) n (n * m)
            (if leb n 0 then 0 else m * 1000) (ground arith) (omega (arith, few))
            (omega (arith, small, suc-mul n m)))
          (ground arith))

  samples_exact :
      (n : ℕ)
      → utc + milliseconds (n * m) ≤ range.max_utc
      → n ≤ u64_max
      → n * m * 1000 ≤ i64_max
      → take_samples range clock n (fixed_step utc (milliseconds m), exact utc m 0)
        ≡ ok (fixed_step (utc + milliseconds (n * m)) (milliseconds m), exact utc m n)
  unfolding take_samples
  samples_exact zero fits few small =
      let same : utc ≡ utc + milliseconds (0 * m) = omega arith in
      ap (λ t. ok (fixed_step t (milliseconds m), exact utc m 0)) same
  samples_exact (suc n) fits few small =
      rw
        (samples_exact n (omega (arith, fits, suc-mul n m)) (omega (arith, few))
          (omega (arith, small, suc-mul n m)))
        (rw (next_exact (n * m) (clock n) (omega (arith, fits, suc-mul n m))) (
          rw (observe-exact n (omega (arith, few)) (omega (arith, small, suc-mul n m))) (
            ap (λ k. ok (fixed_step (utc + milliseconds k) (milliseconds m), exact utc m (suc n)))
              (sym (suc-mul n m)))))

-- A simulated run of `n` samples that stays within the ranges of chrono and of the counters: whatever
-- the clock says, the sample times are exact multiples of the poll interval (at least a millisecond)
-- behind the start, every gap between samples is one interval, and no poll is counted as missed.
pub take_samples-for_driver :
    (range : TimeRange) (clock : ℕ → ℕ) (anchor : RunTimeAnchor) (interval_ms n : ℕ)
    → milliseconds (at_least_one interval_ms) ≤ range.max_duration
    → anchor.utc + milliseconds (n * at_least_one interval_ms) ≤ range.max_utc
    → n ≤ u64_max
    → n * at_least_one interval_ms * 1000 ≤ i64_max
    → (let m = at_least_one interval_ms in
        (for_driver range simulator anchor interval_ms >>= λ source.
        take_samples range clock n (source, new_timing interval_ms))
        ≡ ok
            (fixed_step (anchor.utc + milliseconds (n * m)) (milliseconds m), exact anchor.utc m n))
unfolding for_driver new_timing
take_samples-for_driver range clock anchor interval_ms n whole fits few small =
    let m = at_least_one interval_ms in
    let positive : 1 ≤ m = ground arith in
    let started : for_driver range simulator anchor interval_ms
        ≡ ok (fixed_step anchor.utc (milliseconds m)) =
      ground arith in
    rw started (samples_exact range clock anchor.utc m positive n fits few small)
