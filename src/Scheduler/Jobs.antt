-- ===== src/Scheduler/Jobs.antt =====
-- tools/scheduler/scheduler.c, save_jobs and load_jobs: the active tasks in the jobs file.
use dobby_ai.Base.{
  ℕ, ◌+◌, Bool, true, false, Option, none, some, List, [], ◌∷◌, ◌++◌, Bytes, codes, str_eq, leb,
  if◌then◌else◌, length, map, filter_if, is_empty,
}
use dobby_ai.Json.{JsonOps, get_string_value}
use dobby_ai.Scheduler.{TaskType, task_shell, task_agent_turn, Task, Scheduler, max_tasks}

-- one object of the array
pub record SavedJob : Type 0 where
  pub id : ℕ
  pub name : Bytes
  pub type : Bytes
  pub task : Bytes
  pub interval_sec : ℕ
  pub paused : Bool

unfoldable pub type_name : TaskType → Bytes
type_name task_shell = codes "shell"
type_name task_agent_turn = codes "agent_turn"

-- "shell" is the shell type, and all else, a missing text too, an agent's turn.
unfoldable pub parse_type : Option Bytes → TaskType
parse_type none = task_agent_turn
parse_type (some s) = if str_eq s (codes "shell") then task_shell else task_agent_turn

unfoldable pub saved_job : Task → SavedJob
saved_job t = record {
  id = t.id;
  name = t.name;
  type = type_name t.type;
  task = t.task;
  interval_sec = t.interval_sec;
  paused = t.paused;
}

-- What is written to the file: nothing without a path, else the active tasks.
unfoldable pub save_jobs : Scheduler → Option (List SavedJob)
save_jobs s =
    if is_empty s.jobs_path then none else some (map saved_job (filter_if (λ t. t.active) s.tasks))

module _ {J : Type 0} (ops : JsonOps J) (now : ℕ) where
  abbrev pub job_id : ℕ → Option J → ℕ
  job_id next none = next
  job_id next (some j) = ops.value_int j

  abbrev pub job_paused : Option J → Bool
  job_paused none = false
  job_paused (some j) = ops.is_true j

  -- a task from the parts of an object that has a name, a task and an interval
  unfoldable pub add_loaded : Scheduler → J → Bytes → Bytes → J → Scheduler
  add_loaded s item name task interval =
      let id = job_id s.next_id (ops.get_item (codes "id") item) in
      record s {
        tasks =
            s.tasks
            ++ (record {
              id = id;
              name = name;
              type = parse_type (get_string_value ops (ops.get_item (codes "type") item));
              task = task;
              interval_sec = ops.value_int interval;
              last_run = now;
              paused = job_paused (ops.get_item (codes "paused") item);
              active = true;
            }
                ∷ []);
        next_id = if leb s.next_id id then id + 1 else s.next_id;
      }

  -- one object; one that lacks a part is skipped
  unfoldable pub load_job : Scheduler → J → Scheduler
  load_job s item = elim (get_string_value ops (ops.get_item (codes "name") item)) [
    | none ↦ s
    | some name ↦ elim (get_string_value ops (ops.get_item (codes "task") item)) [
      | none ↦ s
      | some task ↦ elim (ops.get_item (codes "interval_sec") item) [
        | none ↦ s
        | some interval ↦ add_loaded s item name task interval
      ]
    ]
  ]

  -- the loop ends when the table is full
  unfoldable pub load_jobs : Scheduler → List J → Scheduler
  load_jobs s [] = s
  load_jobs s (item ∷ items) =
      let rest = load_jobs (load_job s item) items in
      if leb max_tasks (length s.tasks) then s else rest
