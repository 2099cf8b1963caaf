-- ===== src/Runtime/Revert/Plan.antt =====
-- What a revert puts back.
use bhtune.Common.{
  ◌≡◌, refl, ap, subst, ◌∙◌, ◌⊎◌, inl, inr, Bool, List, [], ◌∷◌, Option, none, some, arith,
}
use bhtune.Common.Text.{Text}
use bhtune.Common.Result.{Result, ok, ◌>>=◌, >>-eq-ok, >>=-eq-ok, ok_injective}
use bhtune.Runtime.Writeback.{WriteKind, write_kind, revert_kind, NewTuneWrite}
use bhtune.Runtime.Revert.{
  TuneRunRow, RevertRequest, RevertError, RevertPlan, or_fail, last_write,
  resolve_revert_connection, revert_plan,
}

kind_cases : (k : WriteKind) → (k ≡ write_kind) ⊎ (k ≡ revert_kind)
kind_cases write_kind = inl refl
kind_cases revert_kind = inr refl

module _ {F E : Type 0} where
  abbrev pub NoWrite : List (NewTuneWrite F E) → Type 0
  NoWrite [] = Unit
  NoWrite (w ∷ ws) = (w.kind ≡ revert_kind) × NoWrite ws

  -- The row of a write behind which no other is.
  pub data IsLastWrite (w : NewTuneWrite F E) : List (NewTuneWrite F E) → Type 0 where
    here :
        (ws : List (NewTuneWrite F E)) → w.kind ≡ write_kind → NoWrite ws → IsLastWrite w (w ∷ ws)
    behind :
        (v : NewTuneWrite F E) (ws : List (NewTuneWrite F E))
        → IsLastWrite w ws
        → IsLastWrite w (v ∷ ws)

  last_write_here :
      (v : NewTuneWrite F E) (ws : List (NewTuneWrite F E))
      → last_write ws ≡ none
      → v.kind ≡ write_kind
      → last_write (v ∷ ws) ≡ some v
  unfolding last_write
  last_write_here v ws h k = rw h (rw k refl)

  last_write_missing :
      (v : NewTuneWrite F E) (ws : List (NewTuneWrite F E))
      → last_write ws ≡ none
      → v.kind ≡ revert_kind
      → last_write (v ∷ ws) ≡ none
  unfolding last_write
  last_write_missing v ws h k = rw h (rw k refl)

  last_write_behind :
      (v w : NewTuneWrite F E) (ws : List (NewTuneWrite F E))
      → last_write ws ≡ some w
      → last_write (v ∷ ws) ≡ some w
  unfolding last_write
  last_write_behind v w ws h = rw h refl

  last_write_cases :
      (ws : List (NewTuneWrite F E))
      → ((last_write ws ≡ none) × NoWrite ws)
        ⊎ ((w : NewTuneWrite F E) × (last_write ws ≡ some w) × IsLastWrite w ws)
  unfolding last_write
  last_write_cases [] = inl (refl, tt)
  last_write_cases (v ∷ ws) = elim (last_write_cases ws) [
    | inl (none_behind, clear) ↦ elim (kind_cases v.kind) [
      | inl k ↦ inr (v, last_write_here v ws none_behind k, here ws k clear)
      | inr k ↦ inl (last_write_missing v ws none_behind k, (k, clear))
    ]
    | inr (w, found, last) ↦ inr (w, last_write_behind v w ws found, behind v ws last)
  ]

  last_write-IsLastWrite :
      (ws : List (NewTuneWrite F E)) {w : NewTuneWrite F E}
      → last_write ws ≡ some w
      → IsLastWrite w ws
  last_write-IsLastWrite ws {w = w} h = elim (last_write_cases ws) [
    | inl (e, _) ↦ absurd (ground (arith, e, h))
    | inr (v, e, last) ↦ (let same : v ≡ w = cc in subst (λ u. IsLastWrite u ws) same last)
  ]

-- A plan puts back what the last write replaced, where that write was made.
pub record Reverts {F E : Type 0} (run : TuneRunRow F) (writes : List (NewTuneWrite F E))
    (plan : RevertPlan F) : Type 0 where
  pub last : NewTuneWrite F E
  pub is_last : IsLastWrite last writes
  pub target : last.previous ≡ some plan.job.target
  pub response_level : last.response_level ≡ plan.job.response_level
  pub kind : plan.job.kind ≡ revert_kind
  pub p_tag : run.tags.proportional_constant ≡ some plan.job.p_tag
  pub i_tag : run.tags.integral_constant ≡ some plan.job.i_tag
  pub d_tag : run.tags.derivative_constant ≡ some plan.job.d_tag
  pub server : run.opc_server ≡ some plan.server
  pub bridge_host : run.bridge_host ≡ some plan.bridge_host

-- A value that has to be there, and what follows it.
or_fail-eq-ok :
    {A B : Type 0} (o : Option A) (e : RevertError) (next : A → Result RevertError B) {y : B}
    → (or_fail o e >>= next) ≡ ok y
    → (a : A) × (o ≡ some a) × (next a ≡ ok y)
or_fail-eq-ok none e next h = cc
or_fail-eq-ok (some a) e next h = (a, refl, h)

resolve_revert_connection-recorded :
    {F : Type 0} (run : TuneRunRow F) (request : RevertRequest) {c : Text × Text}
    → resolve_revert_connection run request ≡ ok c
    → (run.bridge_host ≡ some c.0) × (run.opc_server ≡ some c.1)
unfolding resolve_revert_connection
resolve_revert_connection-recorded run request h =
    let (server, e1, h1) = or_fail-eq-ok _ _ _ h in
    let (host, e2, h2) = or_fail-eq-ok _ _ _ h1 in
    let (_, h3) = >>-eq-ok _ _ h2 in
    let (_, h4) = >>-eq-ok _ _ h3 in
    (e2 ∙ ap some (ap (λ d. d.0) (ok_injective h4)), e1 ∙ ap some (ap (λ d. d.1) (ok_injective h4)))

-- If a revert is planned for a run, then its targets are the values that the last recorded write found
-- before it wrote, no write is recorded behind that one, the tags are those of the run, and the server
-- and the bridge host are those that the run recorded, whatever the request names.
pub revert_plan-Reverts :
    {F E : Type 0} (run : TuneRunRow F) (writes : List (NewTuneWrite F E)) (request : RevertRequest)
    (allow_uncertain : Bool) {plan : RevertPlan F}
    → revert_plan run writes request allow_uncertain ≡ ok plan
    → Reverts run writes plan
unfolding revert_plan
revert_plan-Reverts run writes request allow_uncertain h =
    let (_, h1) = >>-eq-ok _ _ h in
    let (last, e1, h2) = or_fail-eq-ok _ _ _ h1 in
    let (target, e2, h3) = or_fail-eq-ok _ _ _ h2 in
    let (_, h4) = >>-eq-ok _ _ h3 in
    let (p, e3, h5) = or_fail-eq-ok _ _ _ h4 in
    let (i, e4, h6) = or_fail-eq-ok _ _ _ h5 in
    let (d, e5, h7) = or_fail-eq-ok _ _ _ h6 in
    let (c, e6, h8) = >>=-eq-ok _ _ h7 in
    let (host, server) = resolve_revert_connection-recorded run request e6 in
    subst (Reverts run writes) (ok_injective h8) (record {
      last = last;
      is_last = last_write-IsLastWrite writes e1;
      target = e2;
      response_level = refl;
      kind = refl;
      p_tag = e3;
      i_tag = e4;
      d_tag = e5;
      server = server;
      bridge_host = host;
    })
