-- ===== src/Runtime/Actuation/Tolerance.antt =====
-- A relay command's tolerance tells its two levels apart.
use bhtune.Common.{
  ℕ, ◌*◌, ◌/◌, ◌<◌, ◌≡◌, sym, subst, inl, inr, true, false, ◌||◌, not, arith, if◌then◌else◌,
  Bool-cases,
}
use bhtune.Common.Int.{ℤ, pos, ◌-ℤ◌, ◌*ℤ◌, leb_ℤ, ltb_ℤ, abs_ℕ}
use bhtune.Common.Result.{Result, ok, err}
use bhtune.Float.{fixed}
use bhtune.Runtime.Actuation.{
  relay, actuation_matches, mv_actuation_tolerance, mv_actuation_uncapped_tolerance,
  f32_precision_floor,
}

small : (u : ℤ) (s : ℕ) → ltb_ℤ (pos s) (pos 10) ≡ false → s * 250 / 1000 < s
small u s h = ground arith

-- The lesser of anything and a quarter of the step is below the step.
step-above :
    (u : ℤ) (s c : ℕ) → c < s → leb_ℤ (pos s) (if leb_ℤ u (pos c) then u else pos c) ≡ false
step-above u s c h = ground arith

-- The result of a relay command, over its step and the cap.
abbrev capped : ℕ → ℤ → ℤ → ℤ → ℤ → Result (ℤ × ℤ) ℤ
capped s cap uncapped floor least =
    if not true || ltb_ℤ (pos s) (pos 10) || leb_ℤ cap floor
    then err (pos s, least)
    else ok (if leb_ℤ uncapped cap then uncapped else cap)

capped-above :
    (s : ℕ) (c u f l t : ℤ)
    → c ≡ pos (s * 250 / 1000)
    → capped s c u f l ≡ ok t
    → leb_ℤ (pos s) t ≡ false
capped-above s c u f l t q h = elim (Bool-cases (ltb_ℤ (pos s) (pos 10))) [
  | inl e ↦ ground (arith, e)
  | inr e ↦
      subst (λ r. leb_ℤ (pos s) r ≡ false) (ground (arith, e))
        (subst (λ k. leb_ℤ (pos s) (if leb_ℤ u k then u else k) ≡ false) (sym q)
          (step-above u s (s * 250 / 1000) (small u s e)))
]

quarter : (s : ℕ) → fixed.mul (pos s) (fixed.literal 25 2) ≡ pos (s * 250 / 1000)
unfolding fixed ◌*ℤ◌
quarter s = ground arith

-- In fixed-point arithmetic, with the tolerance that a relay command to `target` from `previous` is
-- given, a readback of `previous` does not confirm the command.
pub previous-not_matching :
    (target previous mv_span tolerance : ℤ)
    → mv_actuation_tolerance fixed relay target previous mv_span ≡ ok tolerance
    → actuation_matches fixed target previous tolerance ≡ false
unfolding mv_actuation_tolerance actuation_matches fixed ◌*ℤ◌
previous-not_matching target previous mv_span tolerance h =
    capped-above (abs_ℕ (target -ℤ previous))
      (fixed.mul (pos (abs_ℕ (target -ℤ previous))) (fixed.literal 25 2))
      (mv_actuation_uncapped_tolerance fixed target previous mv_span)
      (f32_precision_floor fixed target previous)
      (fixed.max (pos 10) (fixed.div (f32_precision_floor fixed target previous) (pos 250)))
      tolerance (quarter _) h
