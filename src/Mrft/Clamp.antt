-- ===== src/Mrft/Clamp.antt =====
-- The relay amplitude: both relay levels stay in the MV range, in exact arithmetic. (With rounded
-- sums `mv + (high - mv)` may miss `high` by a unit in the last place.)
use bhtune.Common.{
  ℕ, ◌+◌, ◌-◌, ◌*◌, ◌/◌, ◌≤◌, ◌<◌, ◌≡◌, refl, sym, ap, subst, ◌∙◌, true, if◌then◌else◌, if_cases,
  lt_of_ltb, ge_of_ltb, arith,
}
use bhtune.Common.Int.{
  ℤ, pos, negsuc, pos_part, neg_part, ◌+ℤ◌, ◌-ℤ◌, ◌≤ℤ◌, leb_ℤ, ltb_ℤ, *ℤ_pos, int_laws,
}
use mathlib.Core.Path.{ap₂}
use bhtune.Common.Result.{ok}
use bhtune.Float.{fixed}
use bhtune.LoopConfig.{LoopConfig}
use bhtune.LoopConfig
use bhtune.Range.{MvRange, new_mv_range, contains}
use bhtune.Mrft.Engine.{clamp_relay_amplitude}

half_span : (q s : ℕ) → q ≤ 500 → q * s / 1000 * 2 ≤ s
half_span q s h = grind arith

-- The unclamped amplitude is between 0 and half the span.
raw_amplitude :
    (x s : ℕ)
    → x ≤ 50000
    → (a : ℕ) × (fixed.mul (fixed.div (pos x) (fixed.literal 100 0)) (pos s) ≡ pos a) × (a * 2 ≤ s)
unfolding fixed
raw_amplitude x s h = (
  x * 1000 / 100000 * s / 1000,
  ground (arith, *ℤ_pos x 1000, *ℤ_pos (x * 1000 / 100000) s),
  half_span (x * 1000 / 100000) s (omega arith),
)

-- Between its two bounds the amplitude stays on both sides of the MV.
clamp_within :
    (a : ℕ) (mv low high : ℤ)
    → low ≤ℤ mv
    → mv ≤ℤ high
    → neg_part (high -ℤ low) ≡ 0
    → a * 2 ≤ pos_part (high -ℤ low)
    → let amp =
        (if ltb_ℤ high (mv +ℤ pos a)
          then high -ℤ mv
          else if ltb_ℤ (mv -ℤ pos a) low
          then mv -ℤ low
          else pos a) in
      (low ≤ℤ (mv -ℤ amp)) × ((mv +ℤ amp) ≤ℤ high) × (pos 0 ≤ℤ amp)
clamp_within a mv low high lo hi s h =
    if_cases Within (ltb_ℤ high (mv +ℤ pos a)) (high -ℤ mv)
      (if ltb_ℤ (mv -ℤ pos a) low then mv -ℤ low else pos a)
      (λ above.
        let over : pos_part high + neg_part (mv +ℤ pos a) < pos_part (mv +ℤ pos a) + neg_part high =
          lt_of_ltb _ _ above in
        omega (int_laws, over))
      (λ upper.
        let under : pos_part (mv +ℤ pos a) + neg_part high
            ≤ pos_part high + neg_part (mv +ℤ pos a) =
          ge_of_ltb _ _ upper in
        if_cases Within (ltb_ℤ (mv -ℤ pos a) low) (mv -ℤ low) (pos a)
          (λ below.
            let short : pos_part (mv -ℤ pos a) + neg_part low
                < pos_part low + neg_part (mv -ℤ pos a) =
              lt_of_ltb _ _ below in
            omega (int_laws, short))
          (λ inside.
            let fits : pos_part low + neg_part (mv -ℤ pos a)
                ≤ pos_part (mv -ℤ pos a) + neg_part low =
              ge_of_ltb _ _ inside in
            omega (int_laws, under, fits)))
  where
    Within : ℤ → Type 0
    Within amp = (low ≤ℤ (mv -ℤ amp)) × ((mv +ℤ amp) ≤ℤ high) × (pos 0 ≤ℤ amp)

percent_range :
    (config : LoopConfig ℤ)
    → LoopConfig.validate fixed config ≡ ok tt
    → (leb_ℤ (pos 100) config.relay_amp_percent ≡ true)
      × (leb_ℤ config.relay_amp_percent (pos 50000) ≡ true)
unfolding LoopConfig.validate fixed
percent_range config v = ground arith

percent_thousandths :
    (p : ℤ)
    → leb_ℤ (pos 100) p ≡ true
    → leb_ℤ p (pos 50000) ≡ true
    → (x : ℕ) × (p ≡ pos x) × (x ≤ 50000)
percent_thousandths (pos x) h k = (x, refl, ground arith)
percent_thousandths (negsuc x) h k = absurd (ground arith)

range_facts :
    (mv high low : ℤ) (range : MvRange ℤ)
    → new_mv_range fixed high low ≡ ok range
    → contains fixed range mv ≡ true
    → (low ≤ℤ mv) × (mv ≤ℤ high)
unfolding new_mv_range contains fixed
range_facts mv high low range r c = ground arith

span_pos : (high low : ℤ) → low ≤ℤ high → (s : ℕ) × (high -ℤ low ≡ pos s)
unfolding ◌-ℤ◌
span_pos high low h = (pos_part high + neg_part low - (pos_part low + neg_part high), ground arith)

abbrev clamped : ℕ → ℤ → ℤ → ℤ → ℤ
clamped a mv low high =
    if ltb_ℤ high (mv +ℤ pos a)
    then high -ℤ mv
    else if ltb_ℤ (mv -ℤ pos a) low
    then mv -ℤ low
    else pos a

clamp_of_raw :
    (p mv low high : ℤ) (a : ℕ)
    → fixed.mul (fixed.div p (fixed.literal 100 0)) (high -ℤ low) ≡ pos a
    → clamp_relay_amplitude fixed p mv low high ≡ clamped a mv low high
unfolding clamp_relay_amplitude fixed
clamp_of_raw p mv low high a e =
    ap
      (λ r.
        if ltb_ℤ high (mv +ℤ r) then high -ℤ mv else if ltb_ℤ (mv -ℤ r) low then mv -ℤ low else r)
      e

-- For a validated configuration, a validated MV range and an initial MV within it, both relay levels
-- that the engine steps to lie in the range, and the amplitude is not negative: in fixed-point
-- arithmetic, where sums are exact.
pub clamp_in_range :
    (config : LoopConfig ℤ) (mv high low : ℤ) (range : MvRange ℤ)
    → LoopConfig.validate fixed config ≡ ok tt
    → new_mv_range fixed high low ≡ ok range
    → contains fixed range mv ≡ true
    → let amp = clamp_relay_amplitude fixed config.relay_amp_percent mv low high in
      (low ≤ℤ fixed.sub mv amp) × (fixed.add mv amp ≤ℤ high) × (pos 0 ≤ℤ amp)
unfolding fixed
clamp_in_range config mv high low range v r c =
    let (from, to) = percent_range config v in
    let (x, percent, small) = percent_thousandths config.relay_amp_percent from to in
    let (lo, hi) = range_facts mv high low range r c in
    let (s, spans) = span_pos high low (omega arith) in
    let (a, raw, half) = raw_amplitude x s small in
    let amplitude =
      clamp_of_raw config.relay_amp_percent mv low high a
        (ap₂ (λ p k. fixed.mul (fixed.div p (fixed.literal 100 0)) k) percent spans ∙ raw) in
    subst (λ amp. (low ≤ℤ (mv -ℤ amp)) × ((mv +ℤ amp) ≤ℤ high) × (pos 0 ≤ℤ amp)) (sym amplitude)
      (clamp_within a mv low high lo hi (omega (arith, ap neg_part spans))
        (omega (arith, half, ap pos_part spans)))
