-- ===== src/Server/ActiveRun.antt =====
-- active_run.rs: the registry of the tune tasks that are running and of an exclusive write. Its mutex
-- makes each operation one step; a task's cancel handle is a flag, and run ids are in ℕ.
pub mod Exclusion
use bhtune.Common.{
  ℕ, ltb, ◌==◌, Bool, true, false, ◌||◌, List, [], ◌∷◌, map, Option, none, some, if◌then◌else◌,
}
use bhtune.Common.Result.{Result, ok, err}

pub record ActiveTask : Type 0 where
  pub run_id : ℕ
  pub cancelled : Bool

-- `tasks` is a map: its entries by increasing run id.
pub record ActiveRunState : Type 0 where
  pub tasks : List ActiveTask
  pub exclusive : Option ℕ

pub record RunAlreadyActive : Type 0 where
  pub run_id : ℕ

unfoldable pub contains_key : ℕ → List ActiveTask → Bool
contains_key k [] = false
contains_key k (t ∷ ts) = k == t.run_id || contains_key k ts

-- `BTreeMap::insert` of a key that is not there.
unfoldable pub insert_task : ActiveTask → List ActiveTask → List ActiveTask
insert_task t [] = t ∷ []
insert_task t (u ∷ us) =
    let rest = insert_task t us in if ltb t.run_id u.run_id then t ∷ u ∷ us else u ∷ rest

-- `BTreeMap::remove`.
unfoldable pub remove_task : ℕ → List ActiveTask → List ActiveTask
remove_task k [] = []
remove_task k (t ∷ ts) = let rest = remove_task k ts in if k == t.run_id then rest else t ∷ rest

abbrev pub no_runs : ActiveRunState
no_runs = record { tasks = []; exclusive = none }

abbrev pub refuse : ℕ → ActiveRunState → Result RunAlreadyActive (Unit {0}) × ActiveRunState
refuse id s = (err (record { run_id = id }), s)

abbrev pub start_free : ℕ → ActiveRunState → Result RunAlreadyActive (Unit {0}) × ActiveRunState
start_free id s = if contains_key id s.tasks then refuse id s else (
  ok tt,
  record s { tasks = insert_task (record { run_id = id; cancelled = false }) s.tasks },
)

-- `ActiveRun::start`: the task is spawned exactly if the registration succeeds.
unfoldable pub start : ℕ → ActiveRunState → Result RunAlreadyActive (Unit {0}) × ActiveRunState
unfolding contains_key insert_task
start id s = elim s.exclusive [ some existing ↦ refuse existing s | none ↦ start_free id s ]

abbrev pub reserve_free :
    List ActiveTask → ℕ → ActiveRunState → Result RunAlreadyActive (Unit {0}) × ActiveRunState
reserve_free (t ∷ _) id s = refuse t.run_id s
reserve_free [] id s = (ok tt, record s { exclusive = some id })

unfoldable pub reserve : ℕ → ActiveRunState → Result RunAlreadyActive (Unit {0}) × ActiveRunState
reserve id s = elim s.exclusive [
  | some existing ↦ refuse existing s
  | none ↦ reserve_free s.tasks id s
]

unfoldable pub active_run_ids : ActiveRunState → List ℕ
active_run_ids s = map (λ t. t.run_id) s.tasks

abbrev pub is_exclusive : Option ℕ → ℕ → Bool
is_exclusive none id = false
is_exclusive (some held) id = held == id

unfoldable pub cancel_task : ℕ → List ActiveTask → List ActiveTask
cancel_task id [] = []
cancel_task id (t ∷ ts) =
    let rest = cancel_task id ts in
    (if id == t.run_id then record t { cancelled = true } else t) ∷ rest

unfoldable pub cancel : ℕ → ActiveRunState → Bool × ActiveRunState
unfolding contains_key cancel_task
cancel id s =
    if contains_key id s.tasks
    then (true, record s { tasks = cancel_task id s.tasks })
    else (is_exclusive s.exclusive id, s)

unfoldable pub release : ℕ → ActiveRunState → ActiveRunState
unfolding remove_task
release id s =
    if is_exclusive s.exclusive id
    then record s { exclusive = none }
    else record s { tasks = remove_task id s.tasks }

-- The first step of `cancel_and_wait`: the tasks that it cancels and waits for, and the registry.
unfoldable pub take_all : ActiveRunState → List ActiveTask × ActiveRunState
take_all s = (map {A = ActiveTask} (λ t. record t { cancelled = true }) s.tasks, no_runs)
