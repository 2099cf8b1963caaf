-- ===== src/Runtime/Writeback/Promises.antt =====
-- What a caller may rely on when all constants were written, and when a rollback succeeded.
use bhtune.Common.{ℕ, ◌+◌, ◌≤◌, ◌<◌, ◌≡◌, refl, true, Option, some, List, [], ◌∷◌, ◌++◌, map, take}
use bhtune.Common.Text.{Text, Chars}
use bhtune.Common.Result.{Result, ok}
use bhtune.Common.Io.{Ends-value}
use bhtune.Float.{Floats}
use bhtune.Runtime.Quality.{TagValue}
use bhtune.Driver.{float}
use bhtune.Runtime.Ownership.{LiveOwner, Gateway, Session}
use bhtune.Runtime.Writeback.{
  Terms, write_kind, PidError, PidWriteOutcome, all_written, NewTuneWrite, Job, Json, Progress,
  proportional_term, integral_term, derivative_term, note_confirmed, no_progress, steps_of,
  pid_value_within_tolerance,
}
use bhtune.Runtime.Writeback.Attempt.{new_write, write_pid_values_inner}
use bhtune.Runtime.Writeback.Log.{Entry, seen, wrote, row, entries}
use bhtune.Runtime.Writeback.Steps.{Reading, number_in, target_entry, previous_entry}
use bhtune.Runtime.Writeback.Shape.{without_reads, Loop-first, Loop-last}
use bhtune.Runtime.Writeback.Attempts.{
  AllRead, read_entries, PreRead, all_read, Attempted, unread, complete, given_up, undone,
  not_undone, write_pid_values_inner-Attempted,
}

-- Each value that was read back is near its target.
abbrev pub AllConfirmed : {F D : Type 0} → Floats F D → Job F → Terms F → Type 0
AllConfirmed fl job readback =
    (pid_value_within_tolerance fl job.target.proportional readback.proportional ≡ true)
    × (pid_value_within_tolerance fl job.target.integral readback.integral ≡ true)
    × (pid_value_within_tolerance fl job.target.derivative readback.derivative ≡ true)

-- The progress of a loop that confirmed all three steps.
abbrev confirmed_progress : {F : Type 0} → Job F → Terms F → F → F → F → Progress F
confirmed_progress job previous a b c =
    note_confirmed
      (record {
        term = derivative_term;
        tag = job.d_tag;
        value = job.target.derivative;
        previous = previous.derivative;
      })
      c
      (note_confirmed
        (record {
          term = integral_term;
          tag = job.i_tag;
          value = job.target.integral;
          previous = previous.integral;
        })
        b
        (note_confirmed
          (record {
            term = proportional_term;
            tag = job.p_tag;
            value = job.target.proportional;
            previous = previous.proportional;
          })
          a no_progress))

module _ {F D E : Type 0} (fl : Floats F D) (reading : Reading F) (job : Job F) where
  -- The log of a write that succeeded: the answers of the reads before, each target with the answer of
  -- its readback, and the row with the values before and the values read back.
  abbrev pub success_log :
      Terms (Option TagValue)
      → Terms (Option TagValue)
      → Terms F
      → Terms F
      → List (Entry F (NewTuneWrite F E))
  success_log answers answered previous readback =
      read_entries job answers
      ++ (wrote job.p_tag (float job.target.proportional)
          ∷ seen job.p_tag answered.proportional
          ∷ wrote job.i_tag (float job.target.integral)
          ∷ seen job.i_tag answered.integral
          ∷ wrote job.d_tag (float job.target.derivative)
          ∷ seen job.d_tag answered.derivative
          ∷ row (record (new_write job) {
            previous = some previous;
            written = record {
              proportional = some job.target.proportional;
              integral = some job.target.integral;
              derivative = some job.target.derivative;
            };
            readback = record {
              proportional = some readback.proportional;
              integral = some readback.integral;
              derivative = some readback.derivative;
            };
            success = true;
          })
          ∷ [])

  -- The log of a write that succeeded, with what its reads say.
  pub record AllWritten (l : List (Entry F (NewTuneWrite F E))) : Type 0 where
    pub previous : Terms F
    pub readback : Terms F
    pub answers : Terms (Option TagValue)
    pub answered : Terms (Option TagValue)
    pub found : AllRead reading job answers previous
    pub confirmed : AllRead reading job answered readback
    pub near : AllConfirmed fl job readback
    pub log : l ≡ success_log answers answered previous readback

  -- The three steps of a loop that confirmed all.
  confirmed-AllWritten :
      {previous : Terms F} {p : Progress F} {w w1 w2 w3 : List (Entry F (NewTuneWrite F E))}
      (answers : Terms (Option TagValue))
      → AllRead reading job answers previous
      → (a b c : F) (x y z : Option TagValue)
      → AllConfirmed fl job (record { proportional = a; integral = b; derivative = c })
      → AllRead reading job
          (record { proportional = x; integral = y; derivative = z })
          (record { proportional = a; integral = b; derivative = c })
      → w ≡ wrote job.p_tag (float job.target.proportional) ∷ seen job.p_tag x ∷ w1
      → w1 ≡ wrote job.i_tag (float job.target.integral) ∷ seen job.i_tag y ∷ w2
      → w2 ≡ wrote job.d_tag (float job.target.derivative) ∷ seen job.d_tag z ∷ w3
      → w3 ≡ []
      → p ≡ confirmed_progress job previous a b c
      → AllWritten (
          read_entries job answers
          ++ (w
              ++ row (record (new_write job) {
                previous = some previous;
                written = p.written;
                readback = p.readback;
                success = true;
              })
                ∷ []))
  confirmed-AllWritten {previous = previous} answers found a b c x y z near r e1 e2 e3 e4 ep =
      record {
        previous = previous;
        readback = record { proportional = a; integral = b; derivative = c };
        answers = answers;
        answered = record { proportional = x; integral = y; derivative = z };
        found = found;
        confirmed = r;
        near = near;
        log = rw (e1, e2, e3, e4, ep) refl;
      }

  complete-AllWritten :
      {read : Result (PidError F E) (Terms F)} {o : PidWriteOutcome F E}
      {pre l : List (Entry F (NewTuneWrite F E))}
      → PreRead fl reading job read pre
      → Attempted fl reading job read o l
      → o ≡ all_written
      → AllWritten (pre ++ l)
  complete-AllWritten (all_read {previous = previous} answers found) (complete {p = p} l) e =
      let (a, x, w1, h, r1, e1, l1) = Loop-first l refl in
      let (b, y, w2, i, r2, e2, l2) = Loop-first l1 refl in
      let (c, z, w3, j, r3, e3, l3) = Loop-first l2 refl in
      let (ep, e4) = Loop-last l3 in
      confirmed-AllWritten answers found a b c x y z (h, i, j) (r1, r2, r3) e1 e2 e3 e4 ep
  complete-AllWritten _ unread e = cc
  complete-AllWritten _ (given_up _ _ _) e = cc
  complete-AllWritten _ (undone _ _ _ _ _ _) e = cc
  complete-AllWritten _ (not_undone _ _ _ _ _) e = cc

  -- Behind a rollback that succeeded: the former values that were read, the targets that were sent, and
  -- the former values of all the confirmed ones among them, put back.
  pub record PutBack (l : List (Entry F (NewTuneWrite F E))) : Type 0 where
    pub previous : Terms F
    pub answers : Terms (Option TagValue)
    pub found : AllRead reading job answers previous
    pub rest : List (Entry F (NewTuneWrite F E))
    pub sent : ℕ
    pub kept : ℕ
    pub audit : NewTuneWrite F E
    pub was_write : job.kind ≡ write_kind
    pub some_kept : 0 < kept
    pub kept_sent : kept ≤ sent
    pub sent_kept : sent ≤ kept + 1
    pub log : l ≡ read_entries job answers ++ rest
    pub writes :
        without_reads rest
        ≡ map target_entry (take sent (steps_of job previous))
          ++ map previous_entry (take kept (steps_of job previous))
          ++ row audit ∷ []

module _ {W F D E J : Type 0} (fl : Floats F D) (ch : Chars) (parse : Text → Option F)
    (json : Json J F) (gateway : Gateway W F (NewTuneWrite F E) E) (owner : LiveOwner)
    (job : Job F) where
  -- The number in the driver's answer for a tag, under the job's policy for uncertain readings.
  abbrev pub numbers : Reading F
  numbers = number_in E fl ch parse job.allow_uncertain

  -- An attempt that reports all constants as written has first read the three tags, then sent the driver
  -- the three targets in the order proportional, integral, derivative and nothing else, has read each
  -- target's own tag back right behind it, with a number within the tolerance in each answer, and stored
  -- one audit row behind them, with the numbers of the first three answers as the values before and
  -- those of the others as the values read back.
  pub write_pid_values_inner-all_written :
      (s : Session W F (NewTuneWrite F E))
      → (write_pid_values_inner fl ch parse json gateway owner job s).0 ≡ ok all_written
      → (l : List (Entry F (NewTuneWrite F E))) × AllWritten fl numbers job l
        × (entries (write_pid_values_inner fl ch parse json gateway owner job s).1.trace
            ≡ entries s.trace ++ l)
  write_pid_values_inner-all_written s e =
      let q =
        Ends-value (write_pid_values_inner-Attempted fl ch parse json gateway owner job s) e in
      (
        q.pre ++ q.rest,
        complete-AllWritten fl numbers job q.pre_read q.attempted refl,
        q.logged.added,
      )
