-- ===== src/Server/ActiveRun/Exclusion.antt =====
-- An exclusive write and a tune never overlap. A server's life is a sequence of moves: requests that
-- start, cancel, reserve and release, and tasks that come to their end and then release themselves.
use bhtune.Common.{
  ℕ, ◌==◌, ◌≡◌, refl, ◌∙◌, ap, sym, ◌⊎◌, inl, inr, Bool, true, false, not, ◌&&◌, ◌||◌, List, [],
  ◌∷◌, none, some, if◌then◌else◌, arith,
}
use bhtune.Common.Result.{ok}
use bhtune.Server.ActiveRun.{
  ActiveTask, ActiveRunState, contains_key, insert_task, remove_task, cancel_task, no_runs, start,
  reserve, cancel, release,
}

-- The registry, and the tasks that were spawned and have not released themselves yet: they run, or
-- have come to their end.
pub record Server : Type 0 where
  pub registry : ActiveRunState
  pub alive : List ℕ

abbrev pub mem : ℕ → List ℕ → Bool
mem k [] = false
mem k (x ∷ xs) = k == x || mem k xs

abbrev pub without : ℕ → List ℕ → List ℕ
without k [] = []
without k (x ∷ xs) = let rest = without k xs in if k == x then rest else x ∷ rest

-- A task that ends releases itself; a caller releases the reservation that it holds.
pub data Move (s : Server) : Server → Type 0 where
  started :
      (id : ℕ)
      → (start id s.registry).0 ≡ ok tt
      → Move s (record { registry = (start id s.registry).1; alive = id ∷ s.alive })
  task_released :
      (id : ℕ)
      → mem id s.alive ≡ true
      → Move s (record { registry = release id s.registry; alive = without id s.alive })
  reserved :
      (id : ℕ)
      → (reserve id s.registry).0 ≡ ok tt
      → Move s (record s { registry = (reserve id s.registry).1 })
  reservation_released :
      (id : ℕ)
      → s.registry.exclusive ≡ some id
      → Move s (record s { registry = release id s.registry })
  cancelled : (id : ℕ) → Move s (record s { registry = (cancel id s.registry).1 })

pub data Reach : Server → Type 0 where
  begun : Reach (record { registry = no_runs; alive = [] })
  moved : {s t : Server} → Reach s → Move s t → Reach t

-- The registered tasks are the ones alive, and none is alive during a reservation.
pub record IsConsistent (s : Server) : Type 0 where
  pub registered : (k : ℕ) → contains_key k s.registry.tasks ≡ mem k s.alive
  pub apart : (s.registry.exclusive ≡ none) ⊎ (s.alive ≡ [])

contains-insert :
    (k : ℕ) (t : ActiveTask) (ts : List ActiveTask)
    → contains_key k (insert_task t ts) ≡ (k == t.run_id || contains_key k ts)
unfolding contains_key insert_task
contains-insert k t [] = refl
contains-insert k t (u ∷ us) = ground (arith, contains-insert k t us)

contains-remove :
    (k j : ℕ) (ts : List ActiveTask)
    → contains_key k (remove_task j ts) ≡ (not (k == j) && contains_key k ts)
unfolding contains_key remove_task
contains-remove k j [] = ground arith
contains-remove k j (t ∷ ts) = ground (arith, contains-remove k j ts)

contains-cancel :
    (k j : ℕ) (ts : List ActiveTask) → contains_key k (cancel_task j ts) ≡ contains_key k ts
unfolding contains_key cancel_task
contains-cancel k j [] = refl
contains-cancel k j (t ∷ ts) = ground (arith, contains-cancel k j ts)

mem-without : (k j : ℕ) (xs : List ℕ) → mem k (without j xs) ≡ (not (k == j) && mem k xs)
mem-without k j [] = ground arith
mem-without k j (x ∷ xs) = ground (arith, mem-without k j xs)

empty_of : (xs : List ℕ) → ((k : ℕ) → mem k xs ≡ false) → xs ≡ []
empty_of [] h = refl
empty_of (x ∷ xs) h = absurd (ground (arith, h x))

module _ (s : Server) (c : IsConsistent s) where
  started-registered :
      (id k : ℕ)
      → (start id s.registry).0 ≡ ok tt
      → contains_key k (start id s.registry).1.tasks ≡ mem k (id ∷ s.alive)
  unfolding start
  started-registered id k h = ground (
    arith,
    c.registered k,
    contains-insert k (record { run_id = id; cancelled = false }) s.registry.tasks,
  )

  started-none :
      (id : ℕ) → (start id s.registry).0 ≡ ok tt → (start id s.registry).1.exclusive ≡ none
  unfolding start
  started-none id h = ground arith

  -- A task is alive, so that no reservation is held.
  alive-none : (id : ℕ) → mem id s.alive ≡ true → s.registry.exclusive ≡ none
  alive-none id h = elim c.apart [ inl free ↦ free | inr quiet ↦ absurd (ground (arith, quiet, h)) ]

  released-registered :
      (id k : ℕ)
      → mem id s.alive ≡ true
      → contains_key k (release id s.registry).tasks ≡ mem k (without id s.alive)
  unfolding release
  released-registered id k h = ground (
    arith,
    alive-none id h,
    c.registered k,
    contains-remove k id s.registry.tasks,
    mem-without k id s.alive,
  )

  released-none : (id : ℕ) → mem id s.alive ≡ true → (release id s.registry).exclusive ≡ none
  unfolding release
  released-none id h = ground (arith, alive-none id h)

  reserved-tasks :
      (id : ℕ)
      → (reserve id s.registry).0 ≡ ok tt
      → (s.registry.tasks ≡ []) × ((reserve id s.registry).1.tasks ≡ [])
  unfolding reserve
  reserved-tasks id h = ground arith

  reserved-alive : (id : ℕ) → (reserve id s.registry).0 ≡ ok tt → s.alive ≡ []
  unfolding contains_key
  reserved-alive id h =
      empty_of s.alive λ k. sym (c.registered k) ∙ ap (contains_key k) (reserved-tasks id h).0

  returned :
      (id : ℕ)
      → s.registry.exclusive ≡ some id
      → ((release id s.registry).exclusive ≡ none)
        × ((release id s.registry).tasks ≡ s.registry.tasks)
  unfolding release
  returned id h = ground arith

  cancelled-same :
      (id k : ℕ)
      → (contains_key k (cancel id s.registry).1.tasks ≡ contains_key k s.registry.tasks)
        × ((cancel id s.registry).1.exclusive ≡ s.registry.exclusive)
  unfolding cancel
  cancelled-same id k = ground (arith, contains-cancel k id s.registry.tasks)

Move-IsConsistent : {s t : Server} → Move s t → IsConsistent s → IsConsistent t
Move-IsConsistent {s} (started id h) c = record {
  registered = λ k. started-registered s c id k h;
  apart = inl (started-none s c id h);
}
Move-IsConsistent {s} (task_released id h) c = record {
  registered = λ k. released-registered s c id k h;
  apart = inl (released-none s c id h);
}
Move-IsConsistent {s} (reserved id h) c = record {
  registered = λ k.
      ap (contains_key k) ((reserved-tasks s c id h).1 ∙ sym (reserved-tasks s c id h).0)
      ∙ c.registered k;
  apart = inr (reserved-alive s c id h);
}
Move-IsConsistent {s} (reservation_released id h) c = record {
  registered = λ k. ap (contains_key k) (returned s c id h).1 ∙ c.registered k;
  apart = inl (returned s c id h).0;
}
Move-IsConsistent {s} (cancelled id) c = record {
  registered = λ k. (cancelled-same s c id k).0 ∙ c.registered k;
  apart = elim c.apart [
    | inl free ↦ inl ((cancelled-same s c id 0).1 ∙ free)
    | inr quiet ↦ inr quiet
  ];
}

Reach-IsConsistent : {s : Server} → Reach s → IsConsistent s
unfolding contains_key
Reach-IsConsistent begun = record { registered = λ k. refl; apart = inl refl }
Reach-IsConsistent (moved r m) = Move-IsConsistent m (Reach-IsConsistent r)

no_tasks : (ts : List ActiveTask) → ((k : ℕ) → contains_key k ts ≡ false) → ts ≡ []
unfolding contains_key
no_tasks [] h = refl
no_tasks (t ∷ ts) h = absurd (ground (arith, h t.run_id))

quiet_of : (s : Server) (id : ℕ) → IsConsistent s → s.registry.exclusive ≡ some id → s.alive ≡ []
quiet_of s id c h = elim c.apart [ inl free ↦ absurd (ground (arith, free, h)) | inr quiet ↦ quiet ]

-- In whatever order requests start, cancel and reserve runs and tasks end: while an exclusive write
-- holds its reservation, no tune task is alive, and the registry lists just the tasks that are alive.
pub Reach-exclusion :
    {s : Server} (id : ℕ)
    → Reach s
    → s.registry.exclusive ≡ some id
    → (s.alive ≡ []) × (s.registry.tasks ≡ [])
Reach-exclusion id r h =
    let c = Reach-IsConsistent r in
    let quiet = quiet_of _ id c h in (quiet, no_tasks _ (λ k. c.registered k ∙ ap (mem k) quiet))
