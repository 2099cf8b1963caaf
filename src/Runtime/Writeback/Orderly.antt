-- ===== src/Runtime/Writeback/Orderly.antt =====
-- What the driver is written in every way that an attempt ends.
use bhtune.Common.{ℕ, ◌≤◌, ◌≡◌, Option, none, some, List, [], ◌∷◌, ◌++◌, map, take}
use bhtune.Common.Text.{Text}
use bhtune.Float.{Floats}
use bhtune.Runtime.Writeback.{Terms, revert_kind, NewTuneWrite, Job, steps_of}
use bhtune.Runtime.Writeback.Log.{Entry, row}
use bhtune.Runtime.Writeback.Steps.{Reading, target_entry, previous_entry}
use bhtune.Runtime.Writeback.Shape.{without_reads, Part}
use bhtune.Runtime.Quality.{TagValue}
use bhtune.Common.Result.{Result}
use bhtune.Runtime.Writeback.Attempts.{AllRead, read_entries}

abbrev pub audit_entries : {F R : Type 0} → Option R → List (Entry F R)
audit_entries none = []
audit_entries (some r) = row r ∷ []

module _ {F D E : Type 0} (fl : Floats F D) (reading : Reading F) (job : Job F) where
  -- Behind the reads, and reads apart: targets in their order, then former values of constants that
  -- were written, and at most one row.
  pub record Written (previous : Terms F) (l : List (Entry F (NewTuneWrite F E))) : Type 0 where
    pub sent : ℕ
    pub kept : ℕ
    pub former : List (Entry F (NewTuneWrite F E))
    pub audit : Option (NewTuneWrite F E)
    pub kept_sent : kept ≤ sent
    pub part : Part former (map previous_entry (take kept (steps_of job previous)))
    pub no_former : job.kind ≡ revert_kind → former ≡ []
    pub log :
        without_reads l
        ≡ map target_entry (take sent (steps_of job previous)) ++ former ++ audit_entries audit

  -- In every way that an attempt ends: reads and at most one row, or the reads of the three tags, with
  -- the former values in their answers, and what is written behind them.
  pub data Orderly : List (Entry F (NewTuneWrite F E)) → Type 0 where
    no_write :
        {l : List (Entry F (NewTuneWrite F E))} (audit : Option (NewTuneWrite F E))
        → without_reads l ≡ audit_entries audit
        → Orderly l
    in_order :
        {previous : Terms F} {l : List (Entry F (NewTuneWrite F E))}
        (answers : Terms (Option TagValue))
        → AllRead reading job answers previous
        → Written previous l
        → Orderly (read_entries job answers ++ l)
