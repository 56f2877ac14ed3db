-- ===== src/Scheduler/Due.antt =====
-- What one round of the scheduler starts, and what it makes of the table.
use dobby_ai.Base.{
  ℕ, ◌+◌, ◌≤◌, ◌<◌, ◌≡◌, ◌≢◌, refl, sym, ap, ◌∙◌, ◌⊎◌, inl, inr, Bool, true, false, List, [], ◌∷◌,
  ◌++◌, arith, All, map, Bool-cases, if◌then◌else◌,
}
use dobby_ai.Scheduler.{
  TaskType, Task, Fired, run_shell, agent_turn, fire, is_due, tick, task_shell, task_agent_turn,
}

-- It is active, not paused, and its interval has passed since the last run.
abbrev pub IsReady : ℕ → Task → Type 0
IsReady now t = (t.active ≡ true) × (t.paused ≡ false) × (t.last_run + t.interval_sec ≤ now)

abbrev pub IsWaiting : ℕ → Task → Type 0
IsWaiting now t = (t.active ≡ false) ⊎ ((t.paused ≡ true) ⊎ (now < t.last_run + t.interval_sec))

-- One round: the table before and behind it, and what is started, in the order of the table.
pub data Round (has_bus : Bool) (now : ℕ) : List Task → List Task → List Fired → Type 0 where
  done : Round has_bus now [] [] []
  waits :
      (t : Task) (tasks tasks' : List Task) (fired : List Fired)
      → IsWaiting now t
      → Round has_bus now tasks tasks' fired
      → Round has_bus now (t ∷ tasks) (t ∷ tasks') fired
  runs :
      (t : Task) (tasks tasks' : List Task) (fired : List Fired)
      → IsReady now t
      → t.type ≡ task_shell
      → Round has_bus now tasks tasks' fired
      → Round has_bus now
          (t ∷ tasks)
          (record t { last_run = now } ∷ tasks')
          (run_shell t.id t.task ∷ fired)
  asks :
      (t : Task) (tasks tasks' : List Task) (fired : List Fired)
      → IsReady now t
      → t.type ≡ task_agent_turn
      → has_bus ≡ true
      → Round has_bus now tasks tasks' fired
      → Round has_bus now
          (t ∷ tasks)
          (record t { last_run = now } ∷ tasks')
          (agent_turn t.id t.task ∷ fired)
  drops :
      (t : Task) (tasks tasks' : List Task) (fired : List Fired)
      → IsReady now t
      → t.type ≡ task_agent_turn
      → has_bus ≡ false
      → Round has_bus now tasks tasks' fired
      → Round has_bus now (t ∷ tasks) (record t { last_run = now } ∷ tasks') fired

due-IsReady : (now : ℕ) (t : Task) → is_due now t ≡ true → IsReady now t
unfolding is_due
due-IsReady now t h = ground arith

due-IsWaiting : (now : ℕ) (t : Task) → is_due now t ≡ false → IsWaiting now t
unfolding is_due
due-IsWaiting now t h = ground arith

pub fire-shell :
    (has_bus : Bool) (t : Task) → t.type ≡ task_shell → fire has_bus t ≡ run_shell t.id t.task ∷ []
fire-shell has_bus t k = ground (arith, k)

pub fire-bus : (t : Task) → t.type ≡ task_agent_turn → fire true t ≡ agent_turn t.id t.task ∷ []
fire-bus t k = ground (arith, k)

pub fire-no_bus : (t : Task) → t.type ≡ task_agent_turn → fire false t ≡ []
fire-no_bus t k = ground (arith, k)

fire-Round :
    (has_bus : Bool) (now : ℕ) (t : Task) (k : TaskType) (tasks tasks' : List Task)
    (fired : List Fired)
    → t.type ≡ k
    → IsReady now t
    → Round has_bus now tasks tasks' fired
    → Round has_bus now (t ∷ tasks) (record t { last_run = now } ∷ tasks') (fire has_bus t ++ fired)
fire-Round has_bus now t task_shell tasks tasks' fired k r h =
    rw (fire-shell has_bus t k) (runs t tasks tasks' fired r k h)
fire-Round true now t task_agent_turn tasks tasks' fired k r h =
    rw (fire-bus t k) (asks t tasks tasks' fired r k refl h)
fire-Round false now t task_agent_turn tasks tasks' fired k r h =
    rw (fire-no_bus t k) (drops t tasks tasks' fired r k refl h)

-- One round starts exactly the tasks that are active, not paused and past their interval, in the
-- order of the table: a command is run, and a message goes to the agent unless there is no bus. It
-- notes the time in those tasks, and leaves every other task as it is.
pub tick-Round :
    (has_bus : Bool) (now : ℕ) (tasks : List Task)
    → Round has_bus now tasks (tick has_bus now tasks).0 (tick has_bus now tasks).1
unfolding tick
tick-Round has_bus now [] = done
tick-Round has_bus now (t ∷ tasks) = elim (Bool-cases (is_due now t)) [
  | inl e ↦ rw e (
      fire-Round has_bus now t t.type tasks _ _ refl (due-IsReady now t e)
        (tick-Round has_bus now tasks))
  | inr e ↦ rw e (waits t tasks _ _ (due-IsWaiting now t e) (tick-Round has_bus now tasks))
]

-- what a round makes of a task
abbrev pub started : ℕ → Task → Task
started now t = if is_due now t then record t { last_run = now } else t

pub tick-started :
    (has_bus : Bool) (now : ℕ) (tasks : List Task)
    → (tick has_bus now tasks).0 ≡ map (started now) tasks
unfolding tick
tick-started has_bus now [] = refl
tick-started has_bus now (t ∷ tasks) = elim (Bool-cases (is_due now t)) [
  | inl e ↦ rw e (ap (◌∷◌ (record t { last_run = now })) (tick-started has_bus now tasks))
  | inr e ↦ rw e (ap (◌∷◌ t) (tick-started has_bus now tasks))
]

pub started-id : (now : ℕ) (t : Task) → (started now t).id ≡ t.id
started-id now t = elim (Bool-cases (is_due now t)) [ inl e ↦ rw e refl | inr e ↦ rw e refl ]

abbrev pub fired_id : Fired → ℕ
fired_id (run_shell id command) = id
fired_id (agent_turn id message) = id

-- no two tasks with one number
abbrev pub HasUniqueIds : List Task → Type 0
HasUniqueIds [] = Unit
HasUniqueIds (t ∷ tasks) = All (λ u. u.id ≢ t.id) tasks × HasUniqueIds tasks

started-other :
    (now id n : ℕ) (us : List Task)
    → n ≡ id
    → All (λ u. u.id ≢ id) us
    → All (λ u. u.id ≢ n) (map (started now) us)
started-other now id n [] e h = tt
started-other now id n (u ∷ us) e (h, hs) =
    ((λ same. h (sym (started-id now u) ∙ same ∙ e)), started-other now id n us e hs)

pub started-HasUniqueIds :
    (now : ℕ) (tasks : List Task) → HasUniqueIds tasks → HasUniqueIds (map (started now) tasks)
started-HasUniqueIds now [] unique = tt
started-HasUniqueIds now (t ∷ tasks) (others, unique) = (
  started-other now t.id (started now t).id tasks (started-id now t) others,
  started-HasUniqueIds now tasks unique,
)
