-- ===== src/Mrft/Frame.antt =====
-- What a step never changes: the engine's settings.
use bhtune.Common.{ℕ, ◌≡◌, refl, ◌∙◌, List, [], ◌∷◌}
use bhtune.Common.Int.{ℤ}
use bhtune.Float.{Floats}
use bhtune.Mrft.Engine.{
  MrftEngine, Tick, track, switch_is_needed, record_switch, perform_switch, step, run,
}
use bhtune.Mrft.Cases.{step_cases, finish_cases}

-- The fields of the engine that are fixed for its life.
pub record Settings (F : Type 0) : Type 0 where
  pub beta : F
  pub action_multiplier : ℤ
  pub relay_amp_raw : F
  pub pv_value_ini : F
  pub mv_value_ini : F
  pub num_switches_skip : ℕ
  pub num_cycles_count : ℕ
  pub noise_protection_secs : ℕ

abbrev pub settings : {F : Type 0} → MrftEngine F → Settings F
settings e = record {
  beta = e.beta;
  action_multiplier = e.action_multiplier;
  relay_amp_raw = e.relay_amp_raw;
  pv_value_ini = e.pv_value_ini;
  mv_value_ini = e.mv_value_ini;
  num_switches_skip = e.num_switches_skip;
  num_cycles_count = e.num_cycles_count;
  noise_protection_secs = e.noise_protection_secs;
}

module _ {F D : Type 0} (fl : Floats F D) where
  pub settings-step : (e : MrftEngine F) (t : Tick F) → settings (step fl e t).0 ≡ settings e
  unfolding perform_switch record_switch switch_is_needed track
  settings-step e t =
      step_cases fl (λ r. settings r.0 ≡ settings e) e t (λ _. refl)
        (λ _ _. finish_cases fl (λ r. settings r.0 ≡ settings e) _ _ (λ _. refl) (λ _. refl))
        (λ _ _. finish_cases fl (λ r. settings r.0 ≡ settings e) _ _ (λ _. refl) (λ _. refl))

  pub settings-run : (e : MrftEngine F) (ts : List (Tick F)) → settings (run fl e ts).0 ≡ settings e
  unfolding run
  settings-run e [] = refl
  settings-run e (t ∷ ts) = settings-run (step fl e t).0 ts ∙ settings-step e t
