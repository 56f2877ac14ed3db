-- ===== src/Subagent/Found.antt =====
-- tools/subagent/subagent.c: what subagent_status finds.
use dobby_ai.Base.{
  ℕ, zero, suc, ◌<◌, ◌≡◌, refl, sym, ap, ◌∙◌, subst, Bool, true, false, not, ◌||◌, inl, inr,
  Bool-cases, Option, some, List, [], ◌∷◌, Bytes, codes, arith, ◌==◌, length, get_or,
  get_or-set_self, if◌then◌else◌,
}
use dobby_ai.Agent.{Agent}
use dobby_ai.Agent.Chat.{Env, agent_chat}
use dobby_ai.Subagent.{
  Slot, Pool, blank, slot_at, put_slot, is_idle, state_str, result_text, finish, slot_set_result,
  worker_fn, or_text, chatting, is_error_text,
}
use dobby_ai.Subagent.Tool.{spawned, tool_spawn}
use dobby_ai.Subagent.Reports.{
  Field, number, text, seconds, report, slot_report, find_report, tool_status, still_running,
}
use dobby_ai.Subagent.Spawn.{Begun, begun, IsNew, tool_spawn-Begun}
use dobby_ai.Subagent.Life.{answers}
use dobby_ai.Subagent.Moves.{Step-Moved, Begun-Moved, worker_fn-run_agent, run_agent, answered_by}
use dobby_ai.Subagent.Ids.{IsPool, Moved-IsPool}

abbrev pub running_report : ℕ → ℕ → ℕ → Bytes → Bytes → List Field
running_report now id started_at name task =
    number (codes "subagent_id") id
    ∷ text (codes "name") name
    ∷ text (codes "status") (codes "running")
    ∷ text (codes "task") task
    ∷ seconds (codes "elapsed_sec") now started_at
    ∷ text (codes "note") still_running
    ∷ []

abbrev pub answer_report : ℕ → ℕ → ℕ → ℕ → Bytes → Bytes → Option Bytes → List Field
answer_report now id started_at finished_at name task response =
    number (codes "subagent_id") id
    ∷ text (codes "name") name
    ∷ text (codes "status") (if is_error_text response then codes "error" else codes "done")
    ∷ text (codes "task") task
    ∷ seconds (codes "elapsed_sec") now started_at
    ∷ text (codes "result") (result_text response)
    ∷ seconds (codes "duration_sec") finished_at started_at
    ∷ []

differ : true ≡ false → ⊥
differ h = ground arith

module _ {J : Type 0} where
  -- the only slot in use with its id is the one that is found
  find-slot :
      (now : ℕ) (slots : List (Slot J)) (j target : ℕ)
      → is_idle (get_or slots j blank).state ≡ false
      → (get_or slots j blank).id ≡ target
      → ((k : ℕ)
          → is_idle (get_or slots k blank).state ≡ false
          → (get_or slots k blank).id ≡ target
          → k ≡ j)
      → find_report now target slots ≡ report (slot_report now (get_or slots j blank))
  unfolding find_report
  find-slot now [] j target h e u = absurd (differ h)
  find-slot now (sl ∷ slots) zero target h e u = rw passes refl
    where
      passes : not (sl.id == target) || is_idle sl.state ≡ false
      passes = ground (arith, h, e)
  find-slot now (sl ∷ slots) (suc j) target h e u =
      rw skips (find-slot now slots j target h e (λ k a d. omega (arith, u (suc k) a d)))
    where
      skips : not (sl.id == target) || is_idle sl.state ≡ true
      skips = elim (Bool-cases (not (sl.id == target) || is_idle sl.state)) [
        | inl t ↦ t
        | inr f ↦ absurd (omega (arith, u 0 (in_use f) (same f)))
      ]
        where
          in_use : not (sl.id == target) || is_idle sl.state ≡ false → is_idle sl.state ≡ false
          in_use f = ground arith

          same : not (sl.id == target) || is_idle sl.state ≡ false → sl.id ≡ target
          same f = ground arith

  -- A sub-agent in the pool is found by its id, and its slot is what is reported, in a well-formed pool.
  pub tool_status-slot :
      (now : ℕ) (pool : Pool J) (j : ℕ)
      → IsPool pool
      → is_idle (slot_at pool j).state ≡ false
      → tool_status now (some (slot_at pool j).id) pool ≡ report (slot_report now (slot_at pool j))
  unfolding tool_status
  tool_status-slot now pool j v h =
      find-slot now pool.slots j (slot_at pool j).id h refl (λ k a e. v.distinct k j a h e)

  new_report :
      (now started id : ℕ) (name task : Bytes) (sl : Slot J)
      → IsNew started id name task sl
      → slot_report now sl ≡ running_report now id started name task
  unfolding slot_report state_str
  new_report now started id name task sl n =
      rw (n.has_id, n.runs, n.has_name, n.has_task, n.has_start) refl

  tool_status-at :
      (now id : ℕ) (pool : Pool J) (i : ℕ) (sl : Slot J)
      → IsPool pool
      → slot_at pool i ≡ sl
      → is_idle sl.state ≡ false
      → sl.id ≡ id
      → tool_status now (some id) pool ≡ report (slot_report now sl)
  tool_status-at now id pool i sl v e h d =
      ap (λ n. tool_status now (some n) pool) (sym (ap (λ s. s.id) e ∙ d))
      ∙ tool_status-slot now pool i v (ap (λ s. is_idle s.state) e ∙ h)
      ∙ ap (λ s. report (slot_report now s)) e

  Begun-reported :
      (now later : ℕ) (task : Bytes) (pool pool' : Pool J) (id : ℕ) (worker : Bytes)
      → IsPool pool'
      → Begun now task pool (spawned id worker pool')
      → tool_status later (some id) pool' ≡ report (running_report later id now worker task)
  Begun-reported now later task pool pool' _ _ v (begun i name sl _ l r n e q id h) =
      tool_status-at later id pool' i sl v
        (ap (λ xs. get_or xs i blank) e ∙ get_or-set_self pool.slots i sl blank l)
        (ap is_idle n.runs) (n.has_id ∙ sym h)
      ∙ ap report (new_report later now pool.next_id name task sl n)
      ∙ ap (λ m. report (running_report later m now name task)) (sym h)

  -- A sub-agent that has just been spawned in a well-formed pool is reported as running by its id, with
  -- its name, its task and the time of the spawn.
  pub tool_status-tool_spawn :
      (created : Bool) (now later : ℕ) (name : Option Bytes) (task : Bytes) (context : Option Bytes)
      (pool pool' : Pool J) (id : ℕ) (worker : Bytes)
      → IsPool pool
      → tool_spawn created now name (some task) context pool ≡ spawned id worker pool'
      → tool_status later (some id) pool' ≡ report (running_report later id now worker task)
  tool_status-tool_spawn created now later name task context pool pool' id worker v e =
      Begun-reported now later task pool pool' id worker
        (Moved-IsPool pool pool' v (Begun-Moved now task pool pool' id worker b)) b
    where
      b : Begun now task pool (spawned id worker pool')
      b = subst (Begun now task pool) e (tool_spawn-Begun created now name (some task) context pool)

module _ {J E : Type 0} (env : Env J E) where
  -- the worker's step, when the chat returns
  worker_fn-returns :
      (now i : ℕ) (pool : Pool J) (ag ag' : Agent J) (response : Option Bytes)
      → (slot_at pool i).agent ≡ some ag
      → agent_chat env ag (slot_at pool i).task ≡ some (response, ag')
      → worker_fn env now i pool
        ≡ some
            (put_slot pool i (finish now response (record (slot_at pool i) { agent = some ag' })))
  worker_fn-returns now i pool ag ag' response a r =
      worker_fn-run_agent env now i pool
      ∙ ap (run_agent env now i pool) a
      ∙ ap (answered_by now i pool) r

  finished_report :
      (now later : ℕ) (response : Option Bytes) (sl : Slot J) (ag : Agent J)
      → slot_report later (finish now response (record sl { agent = some ag }))
        ≡ answer_report later sl.id sl.started_at now
            (or_text sl.name [])
            (or_text sl.task [])
            response
  unfolding slot_report finish slot_set_result state_str
  finished_report now later response sl ag = elim (Bool-cases (is_error_text response)) [
    | inl e ↦ rw e refl
    | inr e ↦ rw e refl
  ]

  finished-not_idle :
      (now : ℕ) (response : Option Bytes) (sl : Slot J)
      → is_idle (finish now response sl).state ≡ false
  unfolding finish slot_set_result
  finished-not_idle now response sl = ground arith

  finish-id :
      (now : ℕ) (response : Option Bytes) (sl : Slot J) → (finish now response sl).id ≡ sl.id
  unfolding finish slot_set_result
  finish-id now response sl = refl

  -- When the chat of a sub-agent's live thread returns, in a well-formed pool, its section with the lock is
  -- run and subagent_status then gives the answer by the sub-agent's id: the text cut at 64 KB, and
  -- the status error if it begins with one of the two error marks, else done.
  pub tool_status-worker_fn :
      (now later i : ℕ) (pool : Pool J) (ag ag' : Agent J) (response : Option Bytes)
      → IsPool pool
      → i < length pool.slots
      → (slot_at pool i).thread ≡ chatting
      → (slot_at pool i).agent ≡ some ag
      → agent_chat env ag (slot_at pool i).task ≡ some (response, ag')
      → (pool' : Pool J) × (worker_fn env now i pool ≡ some pool')
        × (tool_status later (some (slot_at pool i).id) pool'
            ≡ report (
                answer_report later
                  (slot_at pool i).id
                  (slot_at pool i).started_at
                  now
                  (or_text (slot_at pool i).name [])
                  (or_text (slot_at pool i).task [])
                  response))
  tool_status-worker_fn now later i pool ag ag' response v l t a r = (pool', e, found)
    where
      new : Slot J
      new = finish now response (record (slot_at pool i) { agent = some ag' })

      pool' : Pool J
      pool' = put_slot pool i new

      e : worker_fn env now i pool ≡ some pool'
      e = worker_fn-returns now i pool ag ag' response a r

      v' : IsPool pool'
      v' =
          Moved-IsPool pool pool' v
            (Step-Moved env pool pool' v.coherent (answers now i pool' l t e))

      found :
          tool_status later (some (slot_at pool i).id) pool'
          ≡ report (
              answer_report later
                (slot_at pool i).id
                (slot_at pool i).started_at
                now
                (or_text (slot_at pool i).name [])
                (or_text (slot_at pool i).task [])
                response)
      found =
          tool_status-at later (slot_at pool i).id pool' i new v'
            (get_or-set_self pool.slots i new blank l)
            (finished-not_idle now response (record (slot_at pool i) { agent = some ag' }))
            (finish-id now response (record (slot_at pool i) { agent = some ag' }))
          ∙ ap report (finished_report now later response (slot_at pool i) ag')
