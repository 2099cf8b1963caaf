-- ===== src/Mrft/Counting/Switch.antt =====
-- One switch: its sign is the opposite of the last one's, and it keeps the counts.
use bhtune.Common.{
  ℕ, ◌+◌, ◌-◌, ◌/◌, ◌%◌, ◌<◌, ◌≡◌, ◌⊎◌, inl, inr, true, false, length, length-push, ◌==◌,
  if◌then◌else◌, arith, &&_iff, true≢false, ap, sym, ◌∙◌, ◌≢◌,
}
use bhtune.Common.Int.{ℤ}
use bhtune.Float.{Floats, SelfDiffSmall}
use bhtune.Mrft.Engine.{
  MrftEngine, Tick, track, next_sign, relay_level, mv_differs, switch_is_needed, record_switch,
}
use bhtune.Mrft.Counting.Defs.{
  IsSign, sign_at, total_switches, recorded, is_peak, is_first_peak, Counts,
}

sign_not_same :
    (init s : ℤ) (n : ℕ) → IsSign init → IsSign s → s ≢ sign_at init n → s ≡ sign_at init (n + 1)
sign_not_same init s n hi hs ne = ground arith

first-IsSign :
    (n : ℕ) (sign init : ℤ)
    → n ≡ 0
    → IsSign sign
    → IsSign (if n == 0 then sign else init)
      × (sign ≡ sign_at (if n == 0 then sign else init) (n + 1))
first-IsSign n sign init z h = ground arith

zero_or_pos : (n : ℕ) → (n ≡ 0) ⊎ (0 < n)
zero_or_pos n = ground arith

module _ {F D : Type 0} (fl : Floats F D) where
  pub next_sign-IsSign : (e : MrftEngine F) (pv : F) → IsSign (next_sign fl e pv)
  unfolding next_sign
  next_sign-IsSign e pv = ground arith

  not_apart : SelfDiffSmall fl → (a b : F) → a ≡ b → mv_differs fl a b ≡ false
  unfolding mv_differs
  not_apart small a b q = rw q (small (fl.widen b))

  pub switch_alternates :
      (e : MrftEngine F) (t : Tick F)
      → SelfDiffSmall fl
      → Counts fl e
      → e.counter_all_switches < total_switches e
      → (switch_is_needed fl e t).1 ≡ true
      → let s = (switch_is_needed fl e t).0 in
        IsSign s.mv_sign_init
        × (s.mv_sign_next_step ≡ sign_at s.mv_sign_init (e.counter_all_switches + 1))
  unfolding switch_is_needed track
  switch_alternates e t small c lt h =
      let sign = next_sign fl (track fl e t.pv) t.pv in
      let needed : mv_differs fl (relay_level fl e sign) e.mv_value_current ≡ true =
        ((&&_iff _ _).0 h).0 in
      let is_sign : IsSign sign = next_sign-IsSign (track fl e t.pv) t.pv in
      elim (zero_or_pos e.counter_all_switches) [
        | inl z ↦ first-IsSign e.counter_all_switches sign e.mv_sign_init z is_sign
        | inr p ↦ kept p sign needed is_sign
      ]
    where
      kept :
          0 < e.counter_all_switches
          → (sign : ℤ) → mv_differs fl (relay_level fl e sign) e.mv_value_current ≡ true
          → IsSign sign
          → IsSign (if e.counter_all_switches == 0 then sign else e.mv_sign_init)
            × (sign
                ≡ sign_at
                    (if e.counter_all_switches == 0 then sign else e.mv_sign_init)
                    (e.counter_all_switches + 1))
      kept p sign needed is_sign =
          let init = e.mv_sign_init in
          let n = e.counter_all_switches in
          let other : sign ≢ sign_at init n = λ q.
            true≢false (
              sym needed ∙ not_apart small _ _ (ap (relay_level fl e) q ∙ sym (c.at_level p lt))) in
          let later : (n == 0) ≡ false = ground arith in
          rw later (c.init_sign p, sign_not_same init sign n (c.init_sign p) is_sign other)

-- The lengths that the three lists have when `k` switches are recorded.
abbrev pub Lengths : {F : Type 0} → MrftEngine F → MrftEngine F → ℕ → Type 0
Lengths e r k =
    (length r.switch_times ≡ k)
    × (length r.peaks ≡ (if is_first_peak e then (k + 1) / 2 else k / 2))
    × (length r.troughs ≡ (if is_first_peak e then k / 2 else (k + 1) / 2))

-- Recording the switch keeps the lists at the lengths of the new counter.
pub record_switch-Lengths :
    {F D : Type 0} (fl : Floats F D) (e : MrftEngine F) (time n : ℕ)
    → IsSign e.action_multiplier
    → IsSign e.mv_sign_init
    → e.num_switches_skip % 2 ≡ 1
    → e.counter_all_switches ≡ n + 1
    → e.mv_sign_next_step ≡ sign_at e.mv_sign_init (n + 1)
    → Lengths e e (n + 1 - e.num_switches_skip)
    → Lengths e (record_switch fl e time) (recorded e)
unfolding record_switch is_peak
record_switch-Lengths fl e time n act ini odd cnt sgn before = ground (
  arith,
  length-push e.switch_times time,
  length-push e.peaks e.max_pv_result,
  length-push e.troughs e.min_pv_result,
)
