-- ===== src/Mrft/Cases.antt =====
-- The three ways a step goes: the engine is completed, the sample asks for a switch, or it does not.
use bhtune.Common.{◌≡◌, true, false, List, [], ◌∷◌, if_cases, push}
use bhtune.Float.{Floats}
use bhtune.Mrft.Engine.{
  MrftEngine, Tick, Action, write_mv, switch_is_needed, perform_switch, finish, step, is_complete,
  completion, complete, completion,
}

module _ {F D : Type 0} (fl : Floats F D) where
  pub step_cases {κ} :
      (P : MrftEngine F × List (Action F) → Type κ) (e : MrftEngine F) (t : Tick F)
      → (e.completed ≡ true → P (e, []))
      → (e.completed ≡ false
          → (switch_is_needed fl e t).1 ≡ true
          → let (switched, mv) = perform_switch fl (switch_is_needed fl e t).0 t in
            P (finish fl switched (write_mv mv ∷ [])))
      → (e.completed ≡ false
          → (switch_is_needed fl e t).1 ≡ false
          → P (finish fl (switch_is_needed fl e t).0 []))
      → P (step fl e t)
  unfolding step
  step_cases P e t done needed idle =
      if_cases P e.completed _ _ done λ o. if_cases P _ _ _ (needed o) (idle o)

  pub finish_cases {κ} :
      (P : MrftEngine F × List (Action F) → Type κ) (e : MrftEngine F) (actions : List (Action F))
      → (is_complete e ≡ true
          → P (record e { completed = true }, push actions (complete (completion e))))
      → (is_complete e ≡ false → P (e, actions))
      → P (finish fl e actions)
  unfolding finish
  finish_cases P e actions h k = if_cases P (is_complete e) _ _ h k
