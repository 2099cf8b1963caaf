-- ===== src/Server/Demo/Accepted.antt =====
-- What a demo request that is accepted leads to.
use bhtune.Common.{
  ℕ, ◌≤◌, ◌≡◌, refl, subst, Bool, true, false, not, List, Option, none, some, arith,
}
use bhtune.Common.Text.{Text, Chars}
use bhtune.Common.Result.{Result, ok, err, ◌>>=◌, ◌>>◌, >>-eq-ok, fail_if, map_err, ok_injective}
use bhtune.Float.{Floats}
use bhtune.LoopConfig.{LoopConfig}
use bhtune.Mrft.Counting.{IsCountable}
use bhtune.Runtime.Timing.{DriverKind}
use bhtune.Runtime.Request.{TuneDriver, TuneRequest}
use bhtune.Runtime.Setup.{
  EffectiveTiming, unwrap_or, requested_config, build_loop_config_with_timing,
}
use bhtune.Server.Demo.{
  given_between, with_kind, within, validate_demo_identity, into_validated_tune_request,
  validate_demo_scalar_ranges, validate_demo_gain, validate_demo_discrete_fields,
  validate_demo_process_ranges, validate_demo_request, demo_cycles_skip_max, demo_cycles_count_min,
  demo_cycles_count_max, demo_noise_protection_secs_max,
}

-- The fifth part of a sequence that succeeds.
fifth_of :
    {E A : Type 0} (a : Result E (Unit {0})) (b : Result E A) (c d e f : Result E (Unit {0}))
    → (do a; _ ← b; c; d; e; f) ≡ ok tt
    → e ≡ ok tt
fifth_of (err _) b c d e f h = cc
fifth_of (ok _) (err _) c d e f h = cc
fifth_of (ok _) (ok _) (err _) d e f h = cc
fifth_of (ok _) (ok _) (ok _) (err _) e f h = cc
fifth_of (ok _) (ok _) (ok _) (ok _) e f h = (>>-eq-ok e f h).0

-- The third part of it.
third_of :
    {E A : Type 0} (a : Result E (Unit {0})) (b : Result E A) (c d e f : Result E (Unit {0}))
    → (do a; _ ← b; c; d; e; f) ≡ ok tt
    → c ≡ ok tt
third_of (err _) b c d e f h = cc
third_of (ok _) (err _) c d e f h = cc
third_of (ok _) (ok _) c d e f h = (>>-eq-ok c _ h).0

fail_if_passed : {E : Type 0} (b : Bool) (e : E) → fail_if (not b) e ≡ ok tt → b ≡ true
fail_if_passed true e h = refl
fail_if_passed false e h = cc

within_limits :
    (low high : ℕ) (n? : Option ℕ) (default : ℕ)
    → given_between low high n? ≡ true
    → (low ≤ unwrap_or n? default) × (unwrap_or n? default ≤ high)
within_limits low high none default h = absurd (ground (arith, h))
within_limits low high (some n) default h = (ground (arith, h), ground (arith, h))

-- The configuration of a demo: its relay amplitude is a finite number from 1 to 20 percent.
abbrev pub IsDemoSized : {F D : Type 0} → Floats F D → LoopConfig F → Type 0
IsDemoSized fl c =
    IsCountable c
    × (c.num_cycles_skip ≤ 2)
    × (c.num_cycles_count ≤ 3)
    × (c.noise_protection_secs ≤ 3)
    × (fl.is_finite c.relay_amp_percent ≡ true)
    × (fl.le (fl.literal 1 0) c.relay_amp_percent ≡ true)
    × (fl.le c.relay_amp_percent (fl.literal 20 0) ≡ true)

module _ {F D : Type 0} (fl : Floats F D) where
  -- What the discrete fields promise.
  discrete_fields-limits :
      (r : TuneRequest TuneDriver F)
      → validate_demo_discrete_fields r ≡ ok tt
      → (given_between 0 demo_cycles_skip_max r.cycles_skip ≡ true)
        × (given_between demo_cycles_count_min demo_cycles_count_max r.cycles_count ≡ true)
        × (given_between 0 demo_noise_protection_secs_max r.noise_protection_secs ≡ true)
  unfolding validate_demo_discrete_fields
  discrete_fields-limits r h =
      let (_, skip) = >>-eq-ok _ _ h in
      let (skip_ok, count) = >>-eq-ok _ _ skip in
      let (count_ok, noise_ok) = >>-eq-ok _ _ count in
      (fail_if_passed _ _ skip_ok, fail_if_passed _ _ count_ok, fail_if_passed _ _ noise_ok)

  -- What the scalar ranges promise of the relay amplitude.
  scalar_ranges-limits :
      (r : TuneRequest TuneDriver F)
      → validate_demo_scalar_ranges fl r ≡ ok tt
      → (fl.is_finite r.relay_amp ≡ true)
        × (fl.le (fl.literal 1 0) r.relay_amp ≡ true)
        × (fl.le r.relay_amp (fl.literal 20 0) ≡ true)
  unfolding validate_demo_scalar_ranges
  scalar_ranges-limits r h =
      let (relay, _) = >>-eq-ok _ _ h in
      let limits : within fl (fl.literal 1 0) (fl.literal 20 0) r.relay_amp ≡ true =
        fail_if_passed _ _ relay in
      (ground (arith, limits), ground (arith, limits), ground (arith, limits))

  built_config :
      {V : Type 0} (args : TuneRequest V F) (timing : EffectiveTiming) {config : LoopConfig F}
      → build_loop_config_with_timing fl args timing ≡ ok config
      → requested_config fl args timing ≡ config
  unfolding build_loop_config_with_timing
  built_config args timing h = let (_, rest) = >>-eq-ok _ _ h in ok_injective (>>-eq-ok _ _ rest).1

  requested_config-IsDemoSized :
      (r : TuneRequest TuneDriver F) (kind : DriverKind) (timing : EffectiveTiming)
      → validate_demo_discrete_fields r ≡ ok tt
      → validate_demo_scalar_ranges fl r ≡ ok tt
      → IsDemoSized fl (requested_config fl (with_kind r kind) timing)
  requested_config-IsDemoSized r kind timing h scalars =
      let (skip, count, noise) = discrete_fields-limits r h in
      let (_, s2) = within_limits 0 2 r.cycles_skip _ skip in
      let (c1, c3) = within_limits 1 3 r.cycles_count _ count in
      let (_, n3) = within_limits 0 3 r.noise_protection_secs _ noise in
      let (finite, low, high) = scalar_ranges-limits r scalars in
      ((c1, omega arith), s2, c3, n3, finite, low, high)

  -- If a demo request is accepted and its configuration can be built, with whatever timing, then the
  -- configuration is countable, skips at most two cycles, measures at most three, has a noise
  -- protection of at most three seconds, and a finite relay amplitude from 1 to 20 percent.
  pub validate_demo_request-IsDemoSized :
      (ch : Chars) (catalog : List Text) (r : TuneRequest TuneDriver F) (kind : DriverKind)
      (timing : EffectiveTiming) {config : LoopConfig F}
      → validate_demo_request fl ch catalog r ≡ ok tt
      → build_loop_config_with_timing fl (with_kind r kind) timing ≡ ok config
      → IsDemoSized fl config
  unfolding validate_demo_request
  validate_demo_request-IsDemoSized ch catalog r kind timing accepted built =
      let discrete =
        fifth_of (validate_demo_identity catalog r)
          (map_err _ (into_validated_tune_request fl ch r)) (validate_demo_scalar_ranges fl r)
          (validate_demo_gain fl r) (validate_demo_discrete_fields r)
          (validate_demo_process_ranges fl r) accepted in
      let scalars =
        third_of (validate_demo_identity catalog r)
          (map_err _ (into_validated_tune_request fl ch r)) (validate_demo_scalar_ranges fl r)
          (validate_demo_gain fl r) (validate_demo_discrete_fields r)
          (validate_demo_process_ranges fl r) accepted in
      subst (IsDemoSized fl) (built_config (with_kind r kind) timing built)
        (requested_config-IsDemoSized r kind timing discrete scalars)
