-- ===== src/Runtime/Writeback/Attempts.antt =====
-- What an attempt leaves in the log, in every way that it can end.
use bhtune.Common.{
  ◌≡◌, refl, Bool, true, false, not, ◌||◌, List, [], ◌∷◌, ◌++◌, Option, none, some, if_cases, arith,
}
use bhtune.Common.Text.{Text, Chars}
use bhtune.Common.Result.{Result, ok, err}
use bhtune.Common.Io.{Ends, done, Ends-then_with, Ends-lift, Ends-weaken, Ends-attempt}
use bhtune.Float.{Floats}
use bhtune.Runtime.Ownership.{LiveOwner, LiveError, Gateway, Session, row_inserted}
use bhtune.Runtime.Writeback.{
  Terms, WriteKind, write_kind, revert_kind, PidError, RollbackFailure, pre_read, stopped_at,
  rolled_back, rollback_also_failed, PidWriteOutcome, all_written, pid_failed, NewTuneWrite, Step,
  Progress, Job, Json, Writing, no_progress, steps_of, insert_row, read_previous_pid_values,
  persist_pid_restore_intent, load_intent,
}
use bhtune.Runtime.Writeback.Attempt.{
  is_write, is_nil, new_write, stopped_row, report, report_rollback, finish_write, after_pre_read,
  check_owner_run, write_pid_values_inner,
}
use bhtune.Runtime.Writeback.Log.{
  Entry, seen, row, Log, Log-refl, Log-trans, Adds, Adds-of, changed-Log, ensure_healthy-Log,
  persist_restore_intent-Log,
}
use bhtune.Runtime.Writeback.Steps.{
  Reading, reads, Loop, Undo, read_value-Log, write_steps-LoopEnd, rollback_pid_writes-UndoEnd,
}
use bhtune.Runtime.Quality.{TagValue}
use bhtune.Runtime.Writeback.Shape.{without_reads}

module _ {F : Type 0} (reading : Reading F) (job : Job F) where
  -- The answers of the three tags, and the numbers in them.
  abbrev pub AllRead : Terms (Option TagValue) → Terms F → Type 0
  AllRead answers values =
      (reading job.p_tag answers.proportional ≡ some values.proportional)
      × (reading job.i_tag answers.integral ≡ some values.integral)
      × (reading job.d_tag answers.derivative ≡ some values.derivative)

-- The reads before the first write.
abbrev pub read_entries : {F R : Type 0} → Job F → Terms (Option TagValue) → List (Entry F R)
read_entries job answers =
    seen job.p_tag answers.proportional
    ∷ seen job.i_tag answers.integral
    ∷ seen job.d_tag answers.derivative
    ∷ []

module _ {F D E : Type 0} (fl : Floats F D) (reading : Reading F) (job : Job F) where
  -- The log of the reads: all three tags in their order, with the numbers found, or reads alone.
  pub data PreRead
      : Result (PidError F E) (Terms F) → List (Entry F (NewTuneWrite F E)) → Type 0 where
    all_read :
        {previous : Terms F} (answers : Terms (Option TagValue))
        → AllRead reading job answers previous
        → PreRead (ok previous) (read_entries job answers)
    not_read :
        {e : PidError F E} (l : List (Entry F (NewTuneWrite F E)))
        → without_reads l ≡ []
        → PreRead (err e) l

  -- What an attempt adds to the log behind its reads, by what they gave and by its outcome: nothing but
  -- a row if the values were not read; else what the loop did, and a row, with the rollback between them
  -- if a write stopped behind a confirmed constant.
  pub data Attempted
      : Result (PidError F E) (Terms F)
        → PidWriteOutcome F E
        → List (Entry F (NewTuneWrite F E))
        → Type 0 where
    unread :
        {e : PidError F E}
        → Attempted
            (err e)
            (pid_failed (pre_read e))
            (row (record (new_write job) { error_message = some e }) ∷ [])
    complete :
        {previous : Terms F} {p : Progress F} {w : List (Entry F (NewTuneWrite F E))}
        → Loop {E = E} fl reading (steps_of job previous) no_progress p w none
        → Attempted (ok previous) all_written (
            w
            ++ row (record (new_write job) {
              previous = some previous;
              written = p.written;
              readback = p.readback;
              success = true;
            })
              ∷ [])
    given_up :
        {previous : Terms F} {p : Progress F} {w : List (Entry F (NewTuneWrite F E))}
        {e : PidError F E} (r : NewTuneWrite F E)
        → Loop fl reading (steps_of job previous) no_progress p w (some e)
        → r.success ≡ false
        → Attempted (ok previous) (pid_failed (stopped_at e)) (w ++ row r ∷ [])
    undone :
        {previous : Terms F} {p : Progress F} {w u : List (Entry F (NewTuneWrite F E))}
        {e : PidError F E} {x : Step F} {xs : List (Step F)} (r : NewTuneWrite F E)
        → Loop fl reading (steps_of job previous) no_progress p w (some e)
        → job.kind ≡ write_kind
        → p.rollback_targets ≡ x ∷ xs
        → Undo {E = E} p.rollback_targets u []
        → r.success ≡ false
        → Attempted (ok previous) (pid_failed (rolled_back e)) (w ++ u ++ row r ∷ [])
    not_undone :
        {previous : Terms F} {p : Progress F} {w u : List (Entry F (NewTuneWrite F E))}
        {e : PidError F E} {f : List (RollbackFailure E)} (r : NewTuneWrite F E)
        → Loop fl reading (steps_of job previous) no_progress p w (some e)
        → job.kind ≡ write_kind
        → Undo p.rollback_targets u f
        → r.success ≡ false
        → Attempted (ok previous) (pid_failed (rollback_also_failed e f)) (w ++ u ++ row r ∷ [])

  -- An attempt that ended with an error behind its reads: before the first write, or with a row that
  -- the database did not store.
  pub data Partial
      : Result (PidError F E) (Terms F) → List (Entry F (NewTuneWrite F E)) → Type 0 where
    before : {r : Result (PidError F E) (Terms F)} → Partial r []
    behind_loop :
        {previous : Terms F} {p : Progress F} {w : List (Entry F (NewTuneWrite F E))}
        {e : Option (PidError F E)}
        → Loop fl reading (steps_of job previous) no_progress p w e
        → Partial (ok previous) w
    behind_rollback :
        {previous : Terms F} {p : Progress F} {w u : List (Entry F (NewTuneWrite F E))}
        {e : Option (PidError F E)} {f : List (RollbackFailure E)}
        → Loop fl reading (steps_of job previous) no_progress p w e
        → job.kind ≡ write_kind
        → Undo p.rollback_targets u f
        → Partial (ok previous) (w ++ u)

  -- The same with the reads, or without any.
  pub data Interrupted : List (Entry F (NewTuneWrite F E)) → Type 0 where
    refused : Interrupted []
    cut :
        {r : Result (PidError F E) (Terms F)} {pre l : List (Entry F (NewTuneWrite F E))}
        → PreRead r pre
        → Partial r l
        → Interrupted (pre ++ l)

split_or : (a b : Bool) → (not a || b) ≡ false → (a ≡ true) × (b ≡ false)
split_or a b h = ground arith

write_of : (k : WriteKind) → is_write k ≡ true → k ≡ write_kind
write_of write_kind h = refl
write_of revert_kind h = cc

targets_of :
    {F : Type 0} (l : List (Step F))
    → is_nil l ≡ false
    → (x : Step F) × (xs : List (Step F)) × (l ≡ x ∷ xs)
targets_of [] h = cc
targets_of (x ∷ xs) h = (x, xs, refl)

module _ {W F D E J : Type 0} (fl : Floats F D) (ch : Chars) (parse : Text → Option F)
    (json : Json J F) (gateway : Gateway W F (NewTuneWrite F E) E) (owner : LiveOwner)
    (job : Job F) where
  -- What the answers of this job's reads say.
  abbrev pub reading : Reading F
  reading = reads fl ch parse json gateway owner job

  pub record AttemptEnd (s : Session W F (NewTuneWrite F E)) (o : PidWriteOutcome F E)
      (t : Session W F (NewTuneWrite F E)) : Type 0 where
    pub read : Result (PidError F E) (Terms F)
    pub pre : List (Entry F (NewTuneWrite F E))
    pub rest : List (Entry F (NewTuneWrite F E))
    pub pre_read : PreRead fl reading job read pre
    pub attempted : Attempted fl reading job read o rest
    pub logged : Log s (pre ++ rest) t

  pub record InterruptEnd (s t : Session W F (NewTuneWrite F E)) : Type 0 where
    pub log : List (Entry F (NewTuneWrite F E))
    pub interrupted : Interrupted fl reading job log
    pub logged : Log s log t

  -- The same behind the reads.
  record RestEnd (r : Result (PidError F E) (Terms F)) (s : Session W F (NewTuneWrite F E))
      (o : PidWriteOutcome F E) (t : Session W F (NewTuneWrite F E)) : Type 0 where
    log : List (Entry F (NewTuneWrite F E))
    attempted : Attempted fl reading job r o log
    logged : Log s log t

  record CutEnd (r : Result (PidError F E) (Terms F)) (s t : Session W F (NewTuneWrite F E))
      : Type 0 where
    log : List (Entry F (NewTuneWrite F E))
    partial : Partial fl reading job r log
    logged : Log s log t

  -- A row, and the outcome that goes with it.
  report-End :
      {read : Result (PidError F E) (Terms F)} {s t : Session W F (NewTuneWrite F E)}
      {l : List (Entry F (NewTuneWrite F E))} (r : NewTuneWrite F E) (o : PidWriteOutcome F E)
      → Log s l t
      → Partial fl reading job read l
      → Attempted fl reading job read o (l ++ row r ∷ [])
      → Ends (RestEnd read s) (CutEnd read s) (report fl ch parse json gateway owner job r o t)
  unfolding report insert_row
  report-End {read = read} {s = s} {l = l} r o h c a =
      Ends-then_with
        (Ends-weaken {R' = CutEnd read s} (changed-Log (λ _. row_inserted job.run_id r) _ h)
          (λ _ _ k. k) (λ u k. record { log = l; partial = c; logged = k }))
        λ _ u k. done (record { log = l ++ row r ∷ []; attempted = a; logged = k })

  report_rollback-End :
      {s t : Session W F (NewTuneWrite F E)} {previous : Terms F} {p : Progress F}
      {w u : List (Entry F (NewTuneWrite F E))} {x : Step F} {xs : List (Step F)}
      (r : NewTuneWrite F E) (e : PidError F E) (f : List (RollbackFailure E))
      → Log s (w ++ u) t
      → Loop fl reading (steps_of job previous) no_progress p w (some e)
      → job.kind ≡ write_kind
      → p.rollback_targets ≡ x ∷ xs
      → Undo p.rollback_targets u f
      → r.success ≡ false
      → Ends
          (RestEnd (ok previous) s)
          (CutEnd (ok previous) s)
          (report_rollback fl ch parse json gateway owner job r e f t)
  unfolding report_rollback
  report_rollback-End r e [] h l k c d n =
      report-End _ _ h (behind_rollback l k d) (undone _ l k c d n)
  report_rollback-End r e (f ∷ fs) h l k c d n =
      report-End _ _ h (behind_rollback l k d) (not_undone _ l k d n)

  finish-End :
      {s t : Session W F (NewTuneWrite F E)} (previous : Terms F) (p : Progress F)
      {w : List (Entry F (NewTuneWrite F E))} (failure : Option (PidError F E))
      → Log s w t
      → Loop fl reading (steps_of job previous) no_progress p w failure
      → Ends
          (RestEnd (ok previous) s)
          (CutEnd (ok previous) s)
          (finish_write fl ch parse json gateway owner job previous p failure t)
  unfolding finish_write
  finish-End previous p none h l = report-End _ _ h (behind_loop l) (complete l)
  finish-End {s = s} {t = t} previous p (some e) h l =
      if_cases {A = Writing W F E (LiveError E) (PidWriteOutcome F E)}
        (λ m. Ends (RestEnd (ok previous) s) (CutEnd (ok previous) s) (m t))
        (not (is_write job.kind) || is_nil p.rollback_targets) _ _
        (λ _. report-End _ _ h (behind_loop l) (given_up _ l refl))
        (λ b.
          let (x, xs, c) = targets_of p.rollback_targets (split_or _ _ b).1 in
          Ends-then_with
            (Ends-weaken {R' = CutEnd (ok previous) s}
              (rollback_pid_writes-UndoEnd fl ch parse json gateway owner job p.rollback_targets t)
              (λ _ _ q. q) (λ _ z. absurd z))
            (λ f t u.
              report_rollback-End (stopped_row fl ch parse json gateway owner job previous p e) e f
                (Log-trans h u.logged) l (write_of job.kind (split_or _ _ b).0) c u.undo refl))

  load_intent-Log :
      {s t : Session W F (NewTuneWrite F E)}
      → Log s [] t
      → Adds s [] (load_intent fl ch parse json gateway owner job t)
  unfolding load_intent
  load_intent-Log h = Adds-of _ h refl

  intent-Log :
      {s t : Session W F (NewTuneWrite F E)} (previous : Terms F)
      → Log s [] t
      → Adds s [] (persist_pid_restore_intent fl ch parse json gateway owner job previous t)
  unfolding persist_pid_restore_intent
  intent-Log previous h =
      Ends-then_with (load_intent-Log h)
        λ object t h. persist_restore_intent-Log fl gateway owner _ h

  -- How the reads end.
  abbrev Read :
      Session W F (NewTuneWrite F E)
      → Result (PidError F E) (Terms F)
      → Session W F (NewTuneWrite F E)
      → Type 0
  Read s r t =
      (pre : List (Entry F (NewTuneWrite F E))) × PreRead fl reading job r pre × Log s pre t

  abbrev OnlyReads : Session W F (NewTuneWrite F E) → Session W F (NewTuneWrite F E) → Type 0
  OnlyReads s t = (pre : List (Entry F (NewTuneWrite F E))) × (without_reads pre ≡ []) × Log s pre t

  reading-Log :
      {s t : Session W F (NewTuneWrite F E)}
      → Log s [] t
      → Ends
          (λ previous. Read s (ok previous))
          (OnlyReads s)
          (read_previous_pid_values fl ch parse json gateway owner job t)
  unfolding read_previous_pid_values
  reading-Log {s = s} h =
      Ends-then_with
        (Ends-weaken {R' = OnlyReads s}
          (read_value-Log fl ch parse json gateway owner job _ job.p_tag h) (λ _ _ q. q)
          (λ _ q. (_, refl, q.1)))
        λ p t q.
          Ends-then_with
            (Ends-weaken {R' = OnlyReads s}
              (read_value-Log fl ch parse json gateway owner job _ job.i_tag q.2) (λ _ _ q. q)
              (λ _ q. (_, refl, q.1)))
            λ i t r.
              Ends-then_with
                (Ends-weaken {R' = OnlyReads s}
                  (read_value-Log fl ch parse json gateway owner job _ job.d_tag r.2) (λ _ _ q. q)
                  (λ _ q. (_, refl, q.1)))
                λ d t u. done (
                  _,
                  all_read (record { proportional = q.0; integral = r.0; derivative = u.0 })
                      (q.1, r.1, u.1),
                  u.2,
                )

  interrupt : {s t : Session W F (NewTuneWrite F E)} → Log s [] t → InterruptEnd s t
  interrupt h = record { log = []; interrupted = refused; logged = h }

  after_pre_read-End :
      (t : Session W F (NewTuneWrite F E)) (r : Result (PidError F E) (Terms F))
      → Ends (RestEnd r t) (CutEnd r t) (after_pre_read fl ch parse json gateway owner job r t)
  unfolding after_pre_read
  after_pre_read-End t (err e) = report-End _ _ (Log-refl t) before unread
  after_pre_read-End t (ok previous) =
      Ends-then_with
        (Ends-weaken {R' = CutEnd (ok previous) t} (intent-Log previous (Log-refl t)) (λ _ _ q. q)
          (λ _ q. record { log = []; partial = before; logged = q }))
        λ _ u h.
          Ends-then_with
            (Ends-weaken {R' = CutEnd (ok previous) t}
              (write_steps-LoopEnd fl ch parse json gateway owner job (steps_of job previous)
                no_progress u)
              (λ _ _ q. q) (λ _ z. absurd z))
            λ r v l. finish-End previous r.0 r.1 (Log-trans h l.logged) l.loop

  behind-End :
      {s t : Session W F (NewTuneWrite F E)} (r : Result (PidError F E) (Terms F))
      → Read s r t
      → Ends (AttemptEnd s) (InterruptEnd s) (after_pre_read fl ch parse json gateway owner job r t)
  behind-End {t = t} r (pre, found, h) =
      Ends-weaken (after_pre_read-End t r)
        (λ o u e. record {
          read = r;
          pre = pre;
          rest = e.log;
          pre_read = found;
          attempted = e.attempted;
          logged = Log-trans h e.logged;
        })
        (λ u e. record {
          log = pre ++ e.log;
          interrupted = cut found e.partial;
          logged = Log-trans h e.logged;
        })

  -- Whatever the driver and the database answer, an attempt adds to the log what `Attempted` says of
  -- its outcome, and one that ends with an error what `Interrupted` says.
  pub write_pid_values_inner-Attempted :
      (s : Session W F (NewTuneWrite F E))
      → Ends
          (AttemptEnd s)
          (InterruptEnd s)
          (write_pid_values_inner fl ch parse json gateway owner job s)
  unfolding write_pid_values_inner
  write_pid_values_inner-Attempted s =
      Ends-then_with
        (Ends-weaken {R' = InterruptEnd s} (ensure_healthy-Log fl gateway owner (Log-refl s))
          (λ _ _ q. q) (λ _ q. interrupt q))
        λ _ t h.
          Ends-then_with
            (Ends-lift (check_owner_run fl ch parse json gateway owner job) t (λ _ _. h)
              (interrupt h))
            λ _ t h.
              Ends-then_with
                (Ends-attempt {Q' = Read s} (reading-Log h) (λ _ _ q. q)
                  (λ e t q. (q.0, not_read q.0 q.1, q.2)))
                λ r t q. behind-End r q
