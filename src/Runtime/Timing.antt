-- ===== src/Runtime/Timing.antt =====
-- crates/bhtune-runtime/src/timing.rs: the time of a sample and the gaps between samples. Wall-clock
-- times and instants are nanoseconds; the last wall-clock time and the longest duration that chrono
-- represents are parameters. The summaries of call durations are left out: they change nothing else.
pub mod Gaps
use bhtune.Common.{
  ℕ, ◌+◌, ◌-◌, ◌*◌, ◌/◌, ◌^◌, ◌≤◌, Bool, true, false, leb, ltb, Option, none, some, if◌then◌else◌,
}
use bhtune.Common.Result.{Result, ok, err, ◌>>=◌, ◌>>◌, fail_if}

pub data DriverKind : Type 0 where
  simulator opcda : DriverKind

pub record RunTimeAnchor : Type 0 where
  pub utc : ℕ
  pub monotonic : ℕ

pub data TickTimeSource : Type 0 where
  live_monotonic : RunTimeAnchor → TickTimeSource
  -- The current time and the step.
  fixed_step : ℕ → ℕ → TickTimeSource

pub data TimingError : Type 0 where
  interval_too_large clock_before_anchor elapsed_too_long timestamp_out_of_range gap_too_large
        moved_backward count_overflow total_overflow missed_overflow :
      TimingError

pub record TimeRange : Type 0 where
  pub max_utc : ℕ
  pub max_duration : ℕ

abbrev pub milliseconds : ℕ → ℕ
milliseconds n = n * 1000000

abbrev pub at_least_one : ℕ → ℕ
at_least_one n = if leb 1 n then n else 1

abbrev pub u64_max : ℕ
u64_max = 2 ^ 64 - 1

abbrev pub u128_max : ℕ
u128_max = 2 ^ 128 - 1

abbrev pub i64_max : ℕ
i64_max = 2 ^ 63 - 1

module _ (range : TimeRange) where
  unfoldable pub for_driver : DriverKind → RunTimeAnchor → ℕ → Result TimingError TickTimeSource
  for_driver opcda anchor poll_interval_ms = ok (live_monotonic anchor)
  for_driver simulator anchor poll_interval_ms =
      let step = milliseconds (at_least_one poll_interval_ms) in
      fail_if (ltb range.max_duration step) interval_too_large >> ok (fixed_step anchor.utc step)

  -- `chrono`'s `checked_add_signed`.
  abbrev checked_add : ℕ → ℕ → Result TimingError ℕ
  checked_add utc duration =
      if ltb range.max_utc (utc + duration) then err timestamp_out_of_range else ok (utc + duration)

  unfoldable pub project_elapsed : RunTimeAnchor → ℕ → Result TimingError ℕ
  project_elapsed anchor elapsed =
      fail_if (ltb range.max_duration elapsed) elapsed_too_long >> checked_add anchor.utc elapsed

  -- The time of a sample, and the source for the next.
  unfoldable pub next_timestamp_at : TickTimeSource → ℕ → Result TimingError (ℕ × TickTimeSource)
  unfolding project_elapsed
  next_timestamp_at (live_monotonic anchor) now = do
    fail_if (ltb now anchor.monotonic) clock_before_anchor
    t ← project_elapsed anchor (now - anchor.monotonic)
    ok (t, live_monotonic anchor)
  next_timestamp_at (fixed_step current step) now = do
    next ← checked_add current step
    ok (next, fixed_step next step)

-- The accumulated gaps of `PollTimingAccumulator`.
pub record PollTimingAccumulator : Type 0 where
  pub requested_interval_ms : ℕ
  pub previous_timestamp : Option ℕ
  pub sample_gap_count : ℕ
  pub total_gap_micros : ℕ
  pub max_gap_micros : ℕ
  pub missed_poll_opportunity_count : ℕ

unfoldable pub new_timing : ℕ → PollTimingAccumulator
new_timing requested_interval_ms = record {
  requested_interval_ms = at_least_one requested_interval_ms;
  previous_timestamp = none;
  sample_gap_count = 0;
  total_gap_micros = 0;
  max_gap_micros = 0;
  missed_poll_opportunity_count = 0;
}

-- `num_microseconds` of the signed gap, cut towards 0, as a `u128`: a gap backwards of less than a
-- microsecond is 0.
unfoldable pub gap_micros_of : ℕ → ℕ → Result TimingError ℕ
gap_micros_of previous timestamp =
    if leb previous timestamp
    then (let gap = (timestamp - previous) / 1000 in
        if ltb i64_max gap then err gap_too_large else ok gap)
    else (let back = (previous - timestamp) / 1000 in
        if ltb (i64_max + 1) back
        then err gap_too_large
        else if leb 1 back
        then err moved_backward
        else ok 0)

abbrev pub checked : ℕ → TimingError → ℕ → Result TimingError ℕ
checked limit e n = if ltb limit n then err e else ok n

-- The threshold of a missed poll, `saturating_mul` included.
abbrev pub missed_threshold : ℕ → ℕ
missed_threshold interval_ms =
    if ltb u128_max (interval_ms * 2000) then u128_max else interval_ms * 2000

unfoldable pub add_gap : PollTimingAccumulator → ℕ → Result TimingError PollTimingAccumulator
add_gap a gap = do
  count ← checked u64_max count_overflow (a.sample_gap_count + 1)
  total ← checked u128_max total_overflow (a.total_gap_micros + gap)
  missed ←
      (if leb (missed_threshold a.requested_interval_ms) gap
        then checked u64_max missed_overflow (a.missed_poll_opportunity_count + 1)
        else ok a.missed_poll_opportunity_count)
  ok (record a {
    sample_gap_count = count;
    total_gap_micros = total;
    max_gap_micros = if leb a.max_gap_micros gap then gap else a.max_gap_micros;
    missed_poll_opportunity_count = missed;
  })

unfoldable pub observe : PollTimingAccumulator → ℕ → Result TimingError PollTimingAccumulator
unfolding gap_micros_of add_gap
observe a timestamp = do
  counted ← elim a.previous_timestamp [
    | none ↦ ok a
    | some previous ↦ do gap ← gap_micros_of previous timestamp; add_gap a gap
  ]
  ok (record counted { previous_timestamp = some timestamp })
