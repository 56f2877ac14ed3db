-- ===== src/Tests/Tasks.antt =====
-- The scheduler at concrete tasks; a JSON value is a number here.
use dobby_ai.Base.{
  ap, leb, ==_iff, ◌==◌, Bool, Option, Bytes, str_eq, if◌then◌else◌, inr, ◌≢◌, refl, ℕ, ◌+◌, ◌*◌,
  ◌<◌, ◌≤◌, ◌≡◌, true, false, none, some, [], ◌∷◌, arith, All, codes, length, map, filter_if,
}
use dobby_ai.Json.{JsonOps}
use dobby_ai.Scheduler.{
  Task, task_shell, task_agent_turn, Scheduler, fire, is_due, tick, scheduler_thread,
}
use dobby_ai.Scheduler.Due.{Round, tick-Round, fired_id}
use dobby_ai.Scheduler.Spacing.{starts, scheduler_thread-spacing}
use dobby_ai.Scheduler.Jobs.{SavedJob, saved_job, save_jobs, load_jobs}
use dobby_ai.Scheduler.Restart.{Encodes, IsText, Fits, reloaded, load_jobs-save_jobs}
use dobby_ai.Scheduler.Silence.{control_task-silences}
use dobby_ai.Scheduler.Tools.{add_task, scheduled, control_task}
use dobby_ai.Scheduler.Ids.{IsValid}

abbrev backup : Task
backup = record {
  id = 3;
  name = codes "backup";
  type = task_shell;
  task = codes "sync";
  interval_sec = 60;
  last_run = 100;
  paused = false;
  active = true;
}

abbrev watch : Task
watch = record backup { id = 2; name = codes "watch"; type = task_agent_turn }

tick-Round_example :
    Round false 170
      (backup ∷ watch ∷ [])
      (tick false 170 (backup ∷ watch ∷ [])).0
      (tick false 170 (backup ∷ watch ∷ [])).1
tick-Round_example = tick-Round false 170 (backup ∷ watch ∷ [])

two_ne_three : (watch.id) ≢ 3
two_ne_three e = absurd (omega (arith, e))

scheduler_thread-spacing_example :
    All
      (λ t.
        starts t.id (scheduler_thread true (130 ∷ 170 ∷ 180 ∷ 240 ∷ []) (backup ∷ watch ∷ [])).1
            * t.interval_sec
          + t.last_run
        ≤ 250)
      (backup ∷ watch ∷ [])
scheduler_thread-spacing_example =
    scheduler_thread-spacing true (130 ∷ 170 ∷ 180 ∷ 240 ∷ []) (backup ∷ watch ∷ []) 250
      (omega arith, (omega arith, (omega arith, (omega arith, tt)))) ((two_ne_three, tt), (tt, tt))
      (omega arith, (omega arith, tt))

abbrev sched : Scheduler
sched = record { tasks = backup ∷ []; next_id = 4; jobs_path = codes "jobs.json" }

sched-IsValid : IsValid sched
sched-IsValid = record { bounded = omega arith; below = (omega arith, tt) }

-- Every object has a name, a task, and its number as all of its numbers.
abbrev ops : JsonOps ℕ
ops = record {
  get_item = λ k j. some j;
  get_string = λ j. some (codes "x");
  value_int = λ j. j;
  is_true = λ j. false;
  items = λ j. [];
  parse = λ s. none;
  print = λ j. none;
  empty_object = 0;
}

abbrev both : Scheduler
both = record { tasks = backup ∷ watch ∷ []; next_id = 4; jobs_path = [] }

control_task-silences_example :
    All
      (λ fired. All (λ f. fired_id f ≢ 3) fired)
      (scheduler_thread true (170 ∷ 240 ∷ []) (control_task both (codes "delete") 3).1.tasks).1
unfolding control_task dobby_ai.Scheduler.Tools.control_tasks dobby_ai.Scheduler.Tools.act
    dobby_ai.Base.str_eq
control_task-silences_example =
    control_task-silences true both (codes "delete") 3 (170 ∷ 240 ∷ []) (inr refl)
      ((two_ne_three, tt), (tt, tt)) refl

-- A JSON library that keeps an object as it is, and gives numbers as ints, which saturate, and texts up
-- to the first zero byte.
data Value : Type 0 where
  object : SavedJob → Value
  number : ℕ → Value
  string : Bytes → Value
  boolean : Bool → Value

abbrev field : Bytes → Value → Option Value
field k (object s) =
    if str_eq k (codes "id")
    then some (number s.id)
    else if str_eq k (codes "name")
    then some (string s.name)
    else if str_eq k (codes "type")
    then some (string s.type)
    else if str_eq k (codes "task")
    then some (string s.task)
    else if str_eq k (codes "interval_sec")
    then some (number s.interval_sec)
    else if str_eq k (codes "paused")
    then some (boolean s.paused)
    else none
field k (number n) = none
field k (string s) = none
field k (boolean b) = none

abbrev up_to_zero : Bytes → Bytes
up_to_zero [] = []
up_to_zero (c ∷ s) = if c == 0 then [] else c ∷ up_to_zero s

up_to_zero-IsText : (s : Bytes) → IsText s → up_to_zero s ≡ s
up_to_zero-IsText [] h = refl
up_to_zero-IsText (c ∷ s) (h, hs) = ground (arith, up_to_zero-IsText s hs, (==_iff c 0).0)

abbrev text_of : Value → Option Bytes
text_of (object s) = none
text_of (number n) = none
text_of (string s) = some (up_to_zero s)
text_of (boolean b) = none

abbrev number_of : Value → ℕ
number_of (object s) = 0
number_of (number n) = if leb n 2147483647 then n else 2147483647
number_of (string s) = 0
number_of (boolean b) = 0

abbrev truth_of : Value → Bool
truth_of (object s) = false
truth_of (number n) = false
truth_of (string s) = false
truth_of (boolean b) = b

abbrev keeping : JsonOps Value
keeping = record {
  get_item = field;
  get_string = text_of;
  value_int = number_of;
  is_true = truth_of;
  items = λ j. [];
  parse = λ s. none;
  print = λ j. none;
  empty_object = number 0;
}

saturated : (n : ℕ) → n ≤ 2147483647 → (if leb n 2147483647 then n else 2147483647) ≡ n
saturated n h = ground (arith, h)

tasks-Fits : All Fits (backup ∷ watch ∷ [])
tasks-Fits = ground arith

keeping-Encodes : Encodes keeping object
unfolding str_eq
keeping-Encodes = record {
  has_id = λ s fit. (number s.id, refl, saturated s.id fit.0);
  gives_name = λ s fit. ap some (up_to_zero-IsText s.name fit.2);
  gives_type = λ s fit. ap some (up_to_zero-IsText s.type fit.3);
  gives_task = λ s fit. ap some (up_to_zero-IsText s.task fit.4);
  has_interval = λ s fit. (number s.interval_sec, refl, saturated s.interval_sec fit.1);
  has_paused = λ s fit. (boolean s.paused, refl, refl);
}

abbrev writer : Scheduler
writer = record { tasks = backup ∷ watch ∷ []; next_id = 4; jobs_path = codes "jobs.json" }

abbrev reader : Scheduler
reader = record { tasks = []; next_id = 1; jobs_path = codes "jobs.json" }

saves : save_jobs writer ≡ some (map saved_job (backup ∷ watch ∷ []))
unfolding save_jobs
saves = refl

load_jobs-save_jobs_example :
    (load_jobs keeping 900 reader (map object (map saved_job (backup ∷ watch ∷ [])))).tasks
    ≡ map (reloaded 900) (backup ∷ watch ∷ [])
load_jobs-save_jobs_example =
    load_jobs-save_jobs keeping 900 object writer reader (map saved_job (backup ∷ watch ∷ []))
      keeping-Encodes tasks-Fits refl (omega arith) saves
