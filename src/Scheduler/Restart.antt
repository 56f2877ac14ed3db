-- ===== src/Scheduler/Restart.antt =====
-- tools/scheduler/scheduler.c: what load_jobs makes of what save_jobs wrote.
use dobby_ai.Base.{
  ℕ, ◌+◌, ◌≤◌, ◌≡◌, refl, sym, ap, ◌∙◌, subst, inl, inr, Bool-cases, true, false, some, List, [],
  ◌∷◌, ◌++◌, append_assoc, append-nil, arith, All, Bytes, codes, leb, length, length-append, map,
  filter_if, str_eq, str_eq_refl,
}
use dobby_ai.Json.{JsonOps, get_string_value}
use dobby_ai.Scheduler.{TaskType, task_shell, task_agent_turn, Task, Scheduler, max_tasks}
use dobby_ai.Scheduler.Jobs.{
  SavedJob, saved_job, save_jobs, type_name, parse_type, add_loaded, load_job, load_jobs,
}

-- A text of C: bytes that are not zero.
abbrev pub IsText : Bytes → Type 0
IsText s = All (λ x. (1 ≤ x) × (x ≤ 255)) s

-- The numbers of the object fit an int of 32 bits, and its texts are texts of C.
abbrev pub IsStorable : SavedJob → Type 0
IsStorable s =
    (s.id ≤ 2147483647)
    × (s.interval_sec ≤ 2147483647)
    × IsText s.name
    × IsText s.type
    × IsText s.task

-- What the JSON library gives back of an object that it wrote and read, where its numbers fit an int and
-- its texts have no zero byte: the texts, the numbers and the Boolean that were put in.
pub record Encodes {J : Type 0} (ops : JsonOps J) (encode : SavedJob → J) : Type 0 where
  pub has_id :
      (s : SavedJob)
      → IsStorable s
      → (j : J) × (ops.get_item (codes "id") (encode s) ≡ some j) × (ops.value_int j ≡ s.id)
  pub gives_name :
      (s : SavedJob)
      → IsStorable s
      → get_string_value ops (ops.get_item (codes "name") (encode s)) ≡ some s.name
  pub gives_type :
      (s : SavedJob)
      → IsStorable s
      → get_string_value ops (ops.get_item (codes "type") (encode s)) ≡ some s.type
  pub gives_task :
      (s : SavedJob)
      → IsStorable s
      → get_string_value ops (ops.get_item (codes "task") (encode s)) ≡ some s.task
  pub has_interval :
      (s : SavedJob)
      → IsStorable s
      → (j : J) × (ops.get_item (codes "interval_sec") (encode s) ≡ some j)
        × (ops.value_int j ≡ s.interval_sec)
  pub has_paused :
      (s : SavedJob)
      → IsStorable s
      → (j : J) × (ops.get_item (codes "paused") (encode s) ≡ some j) × (ops.is_true j ≡ s.paused)

-- The task's number and interval fit an int, and its texts are texts of C.
abbrev pub Fits : Task → Type 0
Fits t = (t.id ≤ 2147483647) × (t.interval_sec ≤ 2147483647) × IsText t.name × IsText t.task

type_name-IsText : (k : TaskType) → IsText (type_name k)
unfolding type_name
type_name-IsText task_shell = ground arith
type_name-IsText task_agent_turn = ground arith

saved_job-IsStorable : (t : Task) → Fits t → IsStorable (saved_job t)
unfolding saved_job
saved_job-IsStorable t (id, interval, name, task) =
    (id, interval, name, type_name-IsText t.type, task)

-- The task again, not due before its interval has passed.
abbrev pub reloaded : ℕ → Task → Task
reloaded now t = record t { last_run = now; active = true }

parse_type-type_name : (t : TaskType) → parse_type (some (type_name t)) ≡ t
unfolding parse_type type_name
parse_type-type_name task_shell = rw (str_eq_refl (codes "shell")) refl
parse_type-type_name task_agent_turn = unfold str_eq in refl

module _ {J : Type 0} (ops : JsonOps J) (now : ℕ) (encode : SavedJob → J)
    (e : Encodes ops encode) where
  add_loaded-saved :
      (s : Scheduler) (t : Task) (interval : J)
      → IsStorable (saved_job t)
      → ops.value_int interval ≡ t.interval_sec
      → (add_loaded ops now s (encode (saved_job t)) t.name t.task interval).tasks
        ≡ s.tasks ++ (reloaded now t ∷ [])
  unfolding add_loaded saved_job
  add_loaded-saved s t interval fit h =
      let (id, id_is, id_eq) = e.has_id (saved_job t) fit in
      let (paused, paused_is, paused_eq) = e.has_paused (saved_job t) fit in
      rw
        (
          id_is,
          id_eq,
          e.gives_type (saved_job t) fit,
          parse_type-type_name t.type,
          paused_is,
          paused_eq,
          h,
        )
        refl

  load_job-parts :
      (s : Scheduler) (item : J) (name task : Bytes) (interval : J)
      → get_string_value ops (ops.get_item (codes "name") item) ≡ some name
      → get_string_value ops (ops.get_item (codes "task") item) ≡ some task
      → ops.get_item (codes "interval_sec") item ≡ some interval
      → load_job ops now s item ≡ add_loaded ops now s item name task interval
  unfolding load_job
  load_job-parts s item name task interval n t i = ground arith

  load_job-saved :
      (s : Scheduler) (t : Task)
      → IsStorable (saved_job t)
      → (load_job ops now s (encode (saved_job t))).tasks ≡ s.tasks ++ (reloaded now t ∷ [])
  unfolding saved_job
  load_job-saved s t fit =
      let (interval, interval_is, interval_eq) = e.has_interval (saved_job t) fit in
      ap (λ x. x.tasks)
        (load_job-parts s (encode (saved_job t)) t.name t.task interval
          (e.gives_name (saved_job t) fit) (e.gives_task (saved_job t) fit) interval_is)
      ∙ add_loaded-saved s t interval fit interval_eq

  load_jobs-saved :
      (s : Scheduler) (ts : List Task)
      → All Fits ts
      → length s.tasks + length ts ≤ max_tasks
      → (load_jobs ops now s (map encode (map saved_job ts))).tasks
        ≡ s.tasks ++ map (reloaded now) ts
  unfolding load_jobs
  load_jobs-saved s [] fit h = sym (append-nil s.tasks)
  load_jobs-saved s (t ∷ ts) (fit, fits_all) h =
      let open_table : leb max_tasks (length s.tasks) ≡ false = ground (arith, h) in
      let one : (load_job ops now s (encode (saved_job t))).tasks
          ≡ s.tasks ++ (reloaded now t ∷ []) =
        load_job-saved s t (saved_job-IsStorable t fit) in
      let fits : length (load_job ops now s (encode (saved_job t))).tasks + length ts ≤ max_tasks =
        subst (λ xs. length xs + length ts ≤ max_tasks) (sym one)
          (omega (arith, h, length-append s.tasks (reloaded now t ∷ []))) in
      rw open_table (
        load_jobs-saved (load_job ops now s (encode (saved_job t))) ts fits_all fits
        ∙ ap (λ xs. xs ++ map (reloaded now) ts) one
        ∙ append_assoc s.tasks (reloaded now t ∷ []) (map (reloaded now) ts))

length-filter_if : (ts : List Task) → length (filter_if (λ t. t.active) ts) ≤ length ts
length-filter_if [] = omega arith
length-filter_if (t ∷ ts) = elim (Bool-cases t.active) [
  | inl a ↦ rw a (omega (arith, length-filter_if ts))
  | inr a ↦ rw a (omega (arith, length-filter_if ts))
]

save_jobs-some :
    (s : Scheduler) (saved : List SavedJob)
    → save_jobs s ≡ some saved
    → saved ≡ map saved_job (filter_if (λ t. t.active) s.tasks)
unfolding save_jobs
save_jobs-some s saved h = ground arith

-- A scheduler that starts from the file that another one wrote has exactly the active tasks of that one,
-- in their order, with their ids, names, kinds, texts, intervals and pauses, and with the present as the
-- time of their last run. This is so when the table of the writer had at most 64 tasks, the ids and the
-- intervals of the active ones fit a signed int of 32 bits, their texts have no zero byte, and the JSON
-- library gives back such numbers and texts as they were put in.
pub load_jobs-save_jobs :
    {J : Type 0} (ops : JsonOps J) (now : ℕ) (encode : SavedJob → J) (s fresh : Scheduler)
    (saved : List SavedJob)
    → Encodes ops encode
    → All Fits (filter_if (λ t. t.active) s.tasks)
    → fresh.tasks ≡ []
    → length s.tasks ≤ max_tasks
    → save_jobs s ≡ some saved
    → (load_jobs ops now fresh (map encode saved)).tasks
      ≡ map (reloaded now) (filter_if (λ t. t.active) s.tasks)
load_jobs-save_jobs ops now encode s fresh saved e fit empty h w =
    ap (λ xs. (load_jobs ops now fresh (map encode xs)).tasks) (save_jobs-some s saved w)
    ∙ load_jobs-saved ops now encode e fresh (filter_if (λ t. t.active) s.tasks) fit fits
    ∙ ap (λ xs. xs ++ map (reloaded now) (filter_if (λ t. t.active) s.tasks)) empty
  where
    fits : length fresh.tasks + length (filter_if (λ t. t.active) s.tasks) ≤ max_tasks
    fits =
        subst (λ xs. length xs + length (filter_if (λ t. t.active) s.tasks) ≤ max_tasks) (sym empty)
          (omega (arith, h, length-filter_if s.tasks))
