-- ===== src/Scheduler/Silence.antt =====
-- A task that has been paused or deleted is not started again.
use dobby_ai.Base.{
  ℕ, ◌≡◌, ◌≢◌, refl, sym, ap, ◌∙◌, subst, ◌⊎◌, inl, inr, true, false, not, ◌&&◌, Option, none, some,
  List, [], ◌∷◌, arith, All, All-append, Bool, Bytes, codes, str_eq, ◌==◌, map, Bool-cases,
}
use dobby_ai.Scheduler.{
  TaskType, tick, Task, Scheduler, fire, is_due, scheduler_thread, task_shell, task_agent_turn,
}
use dobby_ai.Scheduler.Due.{
  started, tick-started, fired_id, HasUniqueIds, fire-shell, fire-bus, fire-no_bus,
}
use dobby_ai.Scheduler.Tools.{
  act, control_tasks, control_task, ControlResult, done, task_not_found, unknown_action,
}

-- A task with this number is not due at any time.
abbrev pub IsQuiet : ℕ → Task → Type 0
IsQuiet id t = t.id ≡ id → (t.active && not t.paused) ≡ false

fire_type-id :
    (has_bus : Bool) (id : ℕ) (t : Task) (k : TaskType)
    → t.type ≡ k
    → t.id ≢ id
    → All (λ f. fired_id f ≢ id) (fire has_bus t)
fire_type-id has_bus id t task_shell k ne = rw (fire-shell has_bus t k) (ne, tt)
fire_type-id true id t task_agent_turn k ne = rw (fire-bus t k) (ne, tt)
fire_type-id false id t task_agent_turn k ne = rw (fire-no_bus t k) tt

fire-id :
    (has_bus : Bool) (id : ℕ) (t : Task) → t.id ≢ id → All (λ f. fired_id f ≢ id) (fire has_bus t)
fire-id has_bus id t ne = fire_type-id has_bus id t t.type refl ne

not_due : (now : ℕ) (t : Task) → (t.active && not t.paused) ≡ false → is_due now t ≡ false
unfolding is_due
not_due now t h = ground arith

due-id : (id now : ℕ) (t : Task) → IsQuiet id t → is_due now t ≡ true → t.id ≢ id
due-id id now t q d e = let off = not_due now t (q e) in cc (d, off)

tick-Other :
    (has_bus : Bool) (id now : ℕ) (tasks : List Task)
    → All (IsQuiet id) tasks
    → All (λ f. fired_id f ≢ id) (tick has_bus now tasks).1
unfolding tick
tick-Other has_bus id now [] q = tt
tick-Other has_bus id now (t ∷ tasks) (q, qs) = elim (Bool-cases (is_due now t)) [
  | inl d ↦ rw d (
      All-append (λ f. fired_id f ≢ id) (fire has_bus t) (tick has_bus now tasks).1
        (fire-id has_bus id t (due-id id now t q d)) (tick-Other has_bus id now tasks qs))
  | inr d ↦ rw d (tick-Other has_bus id now tasks qs)
]

started-IsQuiet : (id now : ℕ) (t : Task) → IsQuiet id t → IsQuiet id (started now t)
started-IsQuiet id now t q = elim (Bool-cases (is_due now t)) [ inl d ↦ rw d q | inr d ↦ rw d q ]

map-IsQuiet :
    (id now : ℕ) (tasks : List Task)
    → All (IsQuiet id) tasks
    → All (IsQuiet id) (map (started now) tasks)
map-IsQuiet id now [] q = tt
map-IsQuiet id now (t ∷ tasks) (q, qs) = (started-IsQuiet id now t q, map-IsQuiet id now tasks qs)

thread-Other :
    (has_bus : Bool) (id : ℕ) (times : List ℕ) (tasks : List Task)
    → All (IsQuiet id) tasks
    → All (λ fired. All (λ f. fired_id f ≢ id) fired) (scheduler_thread has_bus times tasks).1
unfolding scheduler_thread
thread-Other has_bus id [] tasks q = tt
thread-Other has_bus id (now ∷ times) tasks q = (
  tick-Other has_bus id now tasks q,
  rw (tick-started has_bus now tasks)
      (thread-Other has_bus id times (map (started now) tasks) (map-IsQuiet id now tasks q)),
)

-- An action that keeps the number and stops the task.
abbrev Stops : Bytes → Type 0
Stops action =
    (t : Task)
    → (t' : Task) × (act action t ≡ some t')
      × (t'.id ≡ t.id)
      × ((t'.active && not t'.paused) ≡ false)

pause-Stops : Stops (codes "pause")
unfolding act str_eq
pause-Stops t = (record t { paused = true }, refl, refl, ground arith)

delete-Stops : Stops (codes "delete")
unfolding act str_eq
delete-Stops t = (record t { active = false; name = []; task = [] }, refl, refl, refl)

others-IsQuiet :
    (id n : ℕ) (tasks : List Task) → n ≡ id → All (λ u. u.id ≢ n) tasks → All (IsQuiet id) tasks
others-IsQuiet id n [] e a = tt
others-IsQuiet id n (t ∷ tasks) e (ne, a) =
    ((λ same. absurd (ne (same ∙ sym e))), others-IsQuiet id n tasks e a)

-- what the loop leaves, where it found the task
abbrev Left : ℕ → Option (Option (List Task)) → Type 0
Left id none = Unit
Left id (some none) = Unit
Left id (some (some tasks)) = All (IsQuiet id) tasks

abbrev put_back : Task → Option (Option (List Task)) → Option (Option (List Task))
put_back t none = none
put_back t (some none) = some none
put_back t (some (some tasks)) = some (some (t ∷ tasks))

put_back-Left :
    (id : ℕ) (t : Task) (o : Option (Option (List Task)))
    → IsQuiet id t
    → Left id o
    → Left id (put_back t o)
put_back-Left id t none q l = tt
put_back-Left id t (some none) q l = tt
put_back-Left id t (some (some tasks)) q l = (q, l)

put_back-eq :
    (t : Task) (o : Option (Option (List Task)))
    → (elim o as (λ x. Option (Option (List Task))) [
      | none ↦ none
      | some r ↦ some (elim r [ none ↦ none | some tasks ↦ some (t ∷ tasks) ])
    ])
      ≡ put_back t o
put_back-eq t none = refl
put_back-eq t (some none) = refl
put_back-eq t (some (some tasks)) = refl

control-miss :
    (action : Bytes) (id : ℕ) (t : Task) (tasks : List Task)
    → (t.id == id && t.active) ≡ false
    → control_tasks action id (t ∷ tasks) ≡ put_back t (control_tasks action id tasks)
unfolding control_tasks
control-miss action id t tasks m = rw m (put_back-eq t (control_tasks action id tasks))

control-hit :
    (action : Bytes) (id : ℕ) (t t' : Task) (tasks : List Task)
    → (t.id == id && t.active) ≡ true
    → act action t ≡ some t'
    → control_tasks action id (t ∷ tasks) ≡ some (some (t' ∷ tasks))
unfolding control_tasks
control-hit action id t t' tasks m a = rw (m, a)

missed-IsQuiet : (id : ℕ) (t : Task) → (t.id == id && t.active) ≡ false → IsQuiet id t
missed-IsQuiet id t m e = ground arith

control-Left :
    (action : Bytes) (id : ℕ) (tasks : List Task)
    → Stops action
    → HasUniqueIds tasks
    → Left id (control_tasks action id tasks)
control-Left action id [] stops u = unfold control_tasks in tt
control-Left action id (t ∷ tasks) stops (others, u) = elim (Bool-cases (t.id == id && t.active)) [
  | inl m ↦
      let (t', a, same, quiet) = stops t in
      let hit_id : t.id ≡ id = ground arith in
      rw (control-hit action id t t' tasks m a)
        ((λ e. quiet), others-IsQuiet id t.id tasks hit_id others)
  | inr m ↦
      rw (control-miss action id t tasks m)
        (put_back-Left id t _ (missed-IsQuiet id t m) (control-Left action id tasks stops u))
]

-- what the whole call leaves
abbrev result : Scheduler → Bytes → ℕ → Option (Option (List Task)) → ControlResult × Scheduler
result s action id none = (task_not_found, s)
result s action id (some none) = (unknown_action, s)
result s action id (some (some tasks)) = (done action id, record s { tasks = tasks })

control_task-result :
    (s : Scheduler) (action : Bytes) (id : ℕ)
    → ((control_task s action id).0, (control_task s action id).1)
      ≡ result s action id (control_tasks action id s.tasks)
unfolding control_task
control_task-result s action id = ground arith

result-IsQuiet :
    (s : Scheduler) (action : Bytes) (id : ℕ) (o : Option (Option (List Task)))
    → Left id o
    → (result s action id o).0 ≡ done action id
    → All (IsQuiet id) (result s action id o).1.tasks
result-IsQuiet s action id none l e = cc
result-IsQuiet s action id (some none) l e = cc
result-IsQuiet s action id (some (some tasks)) l e = l

pause_or_delete-Stops :
    (action : Bytes) → (action ≡ codes "pause") ⊎ (action ≡ codes "delete") → Stops action
pause_or_delete-Stops action (inl e) = subst Stops (sym e) pause-Stops
pause_or_delete-Stops action (inr e) = subst Stops (sym e) delete-Stops

-- Where no two tasks have one number: once a task has been paused or deleted, no later round of the
-- thread starts a task with that number, unless another call comes between.
pub control_task-silences :
    (has_bus : Bool) (s : Scheduler) (action : Bytes) (id : ℕ) (times : List ℕ)
    → (action ≡ codes "pause") ⊎ (action ≡ codes "delete")
    → HasUniqueIds s.tasks
    → (control_task s action id).0 ≡ done action id
    → All
        (λ fired. All (λ f. fired_id f ≢ id) fired)
        (scheduler_thread has_bus times (control_task s action id).1.tasks).1
control_task-silences has_bus s action id times stop unique finished =
    let eq = control_task-result s action id in
    thread-Other has_bus id times _ (
      subst (λ r. All (IsQuiet id) r.1.tasks) (sym eq)
        (result-IsQuiet s action id _
          (control-Left action id s.tasks (pause_or_delete-Stops action stop) unique)
          (ap (λ r. r.0) (sym eq) ∙ finished)))
