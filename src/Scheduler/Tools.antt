-- ===== src/Scheduler/Tools.antt =====
-- tools/scheduler/scheduler.c, schedule_add, schedule_list and schedule_control. An answer is a value
-- of a data type in place of its JSON text.
use dobby_ai.Base.{
  ℕ, ◌+◌, true, false, ◌&&◌, Option, none, some, List, [], ◌∷◌, ◌++◌, Bytes, codes, str_eq, leb,
  ◌==◌, if◌then◌else◌, length, map, filter_if,
}
use dobby_ai.Json.{JsonOps, get_object_item, get_string_value}
use dobby_ai.Scheduler.{TaskType, Task, Scheduler, max_tasks, parse_interval}
use dobby_ai.Scheduler.Jobs.{SavedJob, saved_job, parse_type, save_jobs}

pub data AddResult : Type 0 where
  arguments_required invalid_interval max_tasks_reached : AddResult
  scheduled : ℕ → Bytes → TaskType → ℕ → AddResult

-- The result, the table, and what is written to the jobs file.
unfoldable pub add_task :
    Scheduler → ℕ → Bytes → Bytes → TaskType → ℕ → AddResult × Scheduler × Option (List SavedJob)
add_task s now name task type interval =
    if leb max_tasks (length s.tasks)
    then (max_tasks_reached, s, none)
    else let s' : Scheduler = record s {
      tasks =
          s.tasks
          ++ (record {
            id = s.next_id;
            name = name;
            type = type;
            task = task;
            interval_sec = interval;
            last_run = now;
            paused = false;
            active = true;
          }
              ∷ []);
      next_id = s.next_id + 1;
    } in
      (scheduled s.next_id name type interval, s', save_jobs s')

module _ {J : Type 0} (ops : JsonOps J) (scan_every : Bytes → Option (ℕ × Bytes))
    (scan_number : Bytes → Option ℕ) where
  abbrev pub text_item : Option J → Bytes → Option Bytes
  text_item args k = get_string_value ops (get_object_item ops args k)

  -- an interval of 0 is invalid too
  unfoldable pub add_checked :
      Scheduler
      → ℕ
      → Bytes
      → Bytes
      → Bytes
      → Option Bytes
      → AddResult × Scheduler × Option (List SavedJob)
  add_checked s now name task interval type =
      elim (parse_interval scan_every scan_number interval) [
        | none ↦ (invalid_interval, s, none)
        | some secs ↦
            if secs == 0
            then (invalid_interval, s, none)
            else add_task s now name task (parse_type type) secs
      ]

  unfoldable pub tool_schedule_add :
      Scheduler → ℕ → Option J → AddResult × Scheduler × Option (List SavedJob)
  tool_schedule_add s now args = elim (text_item args (codes "name")) [
    | none ↦ (arguments_required, s, none)
    | some name ↦ elim (text_item args (codes "task")) [
      | none ↦ (arguments_required, s, none)
      | some task ↦ elim (text_item args (codes "interval")) [
        | none ↦ (arguments_required, s, none)
        | some interval ↦ add_checked s now name task interval (text_item args (codes "type"))
      ]
    ]
  ]

unfoldable pub tool_schedule_list : Scheduler → List SavedJob
tool_schedule_list s = map saved_job (filter_if (λ t. t.active) s.tasks)

pub data ControlResult : Type 0 where
  action_required id_required unknown_action task_not_found : ControlResult
  listed : List SavedJob → ControlResult
  done : Bytes → ℕ → ControlResult

-- what an action makes of a task
unfoldable pub act : Bytes → Task → Option Task
act action t =
    if str_eq action (codes "pause")
    then some (record t { paused = true })
    else if str_eq action (codes "resume")
    then some (record t { paused = false })
    else if str_eq action (codes "delete")
    then some (record t { active = false; name = []; task = [] })
    else none

-- The loop: the first active task with the number. The outer `none` is that there is none, the
-- inner one an unknown action.
unfoldable pub control_tasks : Bytes → ℕ → List Task → Option (Option (List Task))
control_tasks action task_id [] = none
control_tasks action task_id (t ∷ tasks) =
    let rest = control_tasks action task_id tasks in
    if t.id == task_id && t.active
    then some (elim (act action t) [ none ↦ none | some t' ↦ some (t' ∷ tasks) ])
    else elim rest [
      | none ↦ none
      | some r ↦ some (elim r [ none ↦ none | some tasks' ↦ some (t ∷ tasks') ])
    ]

unfoldable pub control_task :
    Scheduler → Bytes → ℕ → ControlResult × Scheduler × Option (List SavedJob)
control_task s action task_id = elim (control_tasks action task_id s.tasks) [
  | none ↦ (task_not_found, s, none)
  | some r ↦ elim r [
    | none ↦ (unknown_action, s, none)
    | some tasks ↦
        let s' : Scheduler = record s { tasks = tasks } in (done action task_id, s', save_jobs s')
  ]
]

unfoldable pub tool_schedule_control :
    {J : Type 0}
    → JsonOps J
    → Scheduler
    → Option J
    → ControlResult × Scheduler × Option (List SavedJob)
tool_schedule_control ops s args =
    elim (get_string_value ops (get_object_item ops args (codes "action"))) [
      | none ↦ (action_required, s, none)
      | some action ↦
          if str_eq action (codes "list")
          then (listed (tool_schedule_list s), s, none)
          else elim (get_object_item ops args (codes "task_id")) [
            | none ↦ (id_required, s, none)
            | some id ↦ control_task s action (ops.value_int id)
          ]
    ]
