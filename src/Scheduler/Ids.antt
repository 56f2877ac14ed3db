-- ===== src/Scheduler/Ids.antt =====
-- The numbers of tasks: a new task's number is one that no task has had.
use dobby_ai.Base.{
  ℕ, ◌+◌, ◌<◌, ◌≤◌, ◌≡◌, refl, inl, inr, false, List, [], ◌∷◌, ◌++◌, arith, All, All-append, Bytes,
  codes, leb, length, length-append, Bool-cases, Option-cases,
}
use dobby_ai.Json.{JsonOps, get_string_value}
use dobby_ai.Scheduler.{TaskType, Task, Scheduler, max_tasks}
use dobby_ai.Scheduler.Jobs.{add_loaded, load_job, load_jobs, job_id}
use dobby_ai.Scheduler.Tools.{scheduled, add_task}

-- at most 64 tasks, each with a number below the next one
pub record IsValid (s : Scheduler) : Type 0 where
  pub bounded : length s.tasks ≤ max_tasks
  pub below : All (λ t. t.id < s.next_id) s.tasks

All-weaken :
    (n m : ℕ) (tasks : List Task) → n ≤ m → All (λ t. t.id < n) tasks → All (λ t. t.id < m) tasks
All-weaken n m [] h a = tt
All-weaken n m (t ∷ tasks) h (b, a) = (omega (arith, h, b), All-weaken n m tasks h a)

-- A task put behind the others, with a number below the new next one.
put-IsValid :
    (s : Scheduler) (t : Task) (n : ℕ)
    → IsValid s
    → length s.tasks < max_tasks
    → s.next_id ≤ n
    → t.id < n
    → IsValid (record s { tasks = s.tasks ++ (t ∷ []); next_id = n })
put-IsValid s t n v room le lt = record {
  bounded = omega (arith, room, length-append s.tasks (t ∷ []));
  below = All-append _ s.tasks (t ∷ []) (All-weaken s.next_id n s.tasks le v.below) (lt, tt);
}

-- A task that is scheduled gets a number that is greater than that of every task in the table, the
-- deleted ones included, and stands behind them; the table stays within its 64 places, and every
-- number below the next one.
pub add_task-fresh :
    (s : Scheduler) (now : ℕ) (name task : Bytes) (type : TaskType) (interval : ℕ)
    → IsValid s
    → length s.tasks < max_tasks
    → let (result, s', saved) = add_task s now name task type interval in
      (result ≡ scheduled s.next_id name type interval)
      × All (λ t. t.id < s.next_id) s.tasks
      × (length s'.tasks ≡ length s.tasks + 1)
      × IsValid s'
unfolding add_task
add_task-fresh s now name task type interval v room =
    let open_place : leb max_tasks (length s.tasks) ≡ false = ground arith in
    rw open_place (
      refl,
      v.below,
      length-append s.tasks _,
      put-IsValid s _ (s.next_id + 1) v room (omega arith) (omega arith),
    )

module _ {J : Type 0} (ops : JsonOps J) (now : ℕ) where
  add_loaded-IsValid :
      (s : Scheduler) (item : J) (name task : Bytes) (interval : J)
      → IsValid s
      → length s.tasks < max_tasks
      → IsValid (add_loaded ops now s item name task interval)
  unfolding add_loaded
  add_loaded-IsValid s item name task interval v room =
      let id : ℕ = job_id ops now s.next_id (ops.get_item (codes "id") item) in
      elim (Bool-cases (leb s.next_id id)) [
        | inl e ↦ rw e (put-IsValid s _ (id + 1) v room (ground arith) (omega arith))
        | inr e ↦ rw e (put-IsValid s _ s.next_id v room (omega arith) (ground arith))
      ]

  load_job-IsValid :
      (s : Scheduler) (item : J)
      → IsValid s
      → length s.tasks < max_tasks
      → IsValid (load_job ops now s item)
  unfolding load_job
  load_job-IsValid s item v room =
      elim (Option-cases (get_string_value ops (ops.get_item (codes "name") item))) [
        | inl e ↦ rw (e, load_job) v
        | inr (name, e) ↦
            elim (Option-cases (get_string_value ops (ops.get_item (codes "task") item))) [
              | inl f ↦ rw (e, f, load_job) v
              | inr (task, f) ↦ elim (Option-cases (ops.get_item (codes "interval_sec") item)) [
                | inl g ↦ rw (e, f, g, load_job) v
                | inr (interval, g) ↦
                    rw (e, f, g, load_job) (add_loaded-IsValid s item name task interval v room)
              ]
            ]
      ]

  -- Loading a jobs file, whatever its objects are, leaves at most 64 tasks, each with a number
  -- below the one that the next new task gets.
  pub load_jobs-IsValid :
      (s : Scheduler) (items : List J) → IsValid s → IsValid (load_jobs ops now s items)
  unfolding load_jobs
  load_jobs-IsValid s [] v = v
  load_jobs-IsValid s (item ∷ items) v = elim (Bool-cases (leb max_tasks (length s.tasks))) [
    | inl full ↦ rw full v
    | inr room ↦ rw room (
        load_jobs-IsValid (load_job ops now s item) items
          (load_job-IsValid s item v (ground arith)))
  ]
