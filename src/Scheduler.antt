-- ===== src/Scheduler.antt =====
-- tools/scheduler/scheduler.c: the table of tasks, one round of the thread, the three tools, and the
-- saving and loading of the jobs. A time is a number of seconds; the clock, sscanf and the decoded
-- file are arguments. What a call writes to the jobs file is an output.
pub mod Jobs
pub mod Restart
pub mod Tools
pub mod Due
pub mod Ids
pub mod Spacing
pub mod Silence
use dobby_ai.Base.{
  ℕ, suc, ◌+◌, ◌-◌, ◌*◌, Bool, true, false, not, ◌&&◌, ◌||◌, Option, none, some, List, [], ◌∷◌,
  ◌++◌, Bytes, codes, str_eq, leb, ltb, ◌==◌, if◌then◌else◌, length, map, filter_if,
}
use dobby_ai.Json.{JsonOps, get_object_item, get_string_value}
use dobby_ai.Text.{contains}

abbrev pub max_tasks : ℕ
max_tasks = 64

-- `task_type_t`
pub data TaskType : Type 0 where
  task_shell task_agent_turn : TaskType

-- `sched_task_t`; a deleted task keeps its place, and its freed texts are empty here.
pub record Task : Type 0 where
  pub id : ℕ
  pub name : Bytes
  pub type : TaskType
  pub task : Bytes
  pub interval_sec : ℕ
  pub last_run : ℕ
  pub paused : Bool
  pub active : Bool

-- `struct scheduler`, without the thread; the path of the jobs file is empty where there is none.
pub record Scheduler : Type 0 where
  pub tasks : List Task
  pub next_id : ℕ
  pub jobs_path : Bytes

-- what the thread does for a task that is due, under its number: a command, or a message to the
-- agent
pub data Fired : Type 0 where
  run_shell : ℕ → Bytes → Fired
  agent_turn : ℕ → Bytes → Fired

-- Without a bus a message to the agent is dropped.
abbrev pub fire : Bool → Task → List Fired
fire has_bus t = elim t.type [
  | task_shell ↦ run_shell t.id t.task ∷ []
  | task_agent_turn ↦ if has_bus then agent_turn t.id t.task ∷ [] else []
]

-- `now - last_run >= interval_sec` for an active task that is not paused; the difference is signed
unfoldable pub is_due : ℕ → Task → Bool
is_due now t = t.active && (not t.paused && leb (t.last_run + t.interval_sec) now)

-- One round over the tasks. The lock is given up while a message is published; here no other step
-- comes between. `has_bus` is false where the scheduler was created without a bus.
unfoldable pub tick : Bool → ℕ → List Task → List Task × List Fired
tick has_bus now [] = ([], [])
tick has_bus now (t ∷ tasks) =
    let (tasks', fired) = tick has_bus now tasks in
    if is_due now t
    then (record t { last_run = now } ∷ tasks', fire has_bus t ++ fired)
    else (t ∷ tasks', fired)

-- The rounds of the thread, at the times at which it wakes.
unfoldable pub scheduler_thread : Bool → List ℕ → List Task → List Task × List (List Fired)
scheduler_thread has_bus [] tasks = (tasks, [])
scheduler_thread has_bus (now ∷ times) tasks =
    let (tasks', fired) = tick has_bus now tasks in
    let (tasks'', rest) = scheduler_thread has_bus times tasks' in (tasks'', fired ∷ rest)

-- the seconds of a number of units
unfoldable pub unit_seconds : ℕ → Bytes → Option ℕ
unit_seconds n unit =
    if contains (codes "sec") unit
    then some n
    else if contains (codes "min") unit
    then some (n * 60)
    else if contains (codes "hour") unit
    then some (n * 3600)
    else if contains (codes "day") unit
    then some (n * 86400)
    else none

-- `scan_every` is sscanf with "every %d %31s", `scan_number` with "%d". A negative
-- number is given as 0, which the caller refuses alike. `none` is the result -1; the products are
-- not cut to an int.
unfoldable pub parse_interval : (Bytes → Option (ℕ × Bytes)) → (Bytes → Option ℕ) → Bytes → Option ℕ
parse_interval scan_every scan_number spec =
    let plain : Option ℕ = elim (scan_number spec) [
      | none ↦ none
      | some n ↦ if ltb 0 n then some n else none
    ] in
    elim (scan_every spec) [
      | none ↦ plain
      | some (n, unit) ↦ elim (unit_seconds n unit) [ none ↦ plain | some s ↦ some s ]
    ]
