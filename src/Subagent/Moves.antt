-- ===== src/Subagent/Moves.antt =====
-- tools/subagent/subagent.c: each step changes at most one slot, in one of the ways there are.
use dobby_ai.Base.{
  ℕ, ◌<◌, ◌≡◌, ◌⊎◌, inl, inr, refl, sym, ap, ◌∙◌, subst, Bool, true, false, Option, none, some,
  List, [], Bytes, arith, if◌then◌else◌, length,
}
use dobby_ai.Agent.{Agent}
use dobby_ai.Agent.Chat.{Env, agent_chat}
use dobby_ai.Subagent.{
  SubagentState, sa_running, sa_done, sa_error, sa_timeout, Slot, or_text, Pool, slot_at, put_slot,
  is_running, chatting, watchdog_fn, worker_fn, finish, slot_set_result, is_error_text,
}
use dobby_ai.Subagent.Tool.{is_chatting, spawned, create_failed}
use dobby_ai.Subagent.Slots.{TimedOut, nothing, cancels, time_out-TimedOut, timed}
use dobby_ai.Subagent.Spawn.{idle-not_running, Begun, failed, begun, IsNew, tool_spawn-Begun}
use dobby_ai.Subagent.Life.{
  Step, spawns, fails, answers, expires, is_cancelled, Goes, done, error, timeout, late_done,
  late_error, stays_timeout, IsCoherent, runs, late, over, GoesOn, Change, goes_on, is_new, Moved,
  unmoved, moved,
}

true_or_false : true ≡ false → ⊥
true_or_false h = ground arith

running-state : (s : SubagentState) → is_running s ≡ true → s ≡ sa_running
running-state s h = ground arith

abbrev answer_state : Option Bytes → SubagentState
answer_state response = if is_error_text response then sa_error else sa_done

answer-Goes :
    (response : Option Bytes) (s : SubagentState)
    → (s ≡ sa_running) ⊎ (s ≡ sa_timeout)
    → Goes s (answer_state response)
answer-Goes response s (inl e) = rw e (by_text (is_error_text response))
  where
    by_text : (b : Bool) → Goes sa_running (if b then sa_error else sa_done)
    by_text true = error
    by_text false = done
answer-Goes response s (inr e) = rw e (by_text (is_error_text response))
  where
    by_text : (b : Bool) → Goes sa_timeout (if b then sa_error else sa_done)
    by_text true = late_error
    by_text false = late_done

answer-not_running : (response : Option Bytes) → is_running (answer_state response) ≡ false
answer-not_running response = ground arith

module _ {J : Type 0} where
  chatting-state :
      (sl : Slot J)
      → IsCoherent sl
      → sl.thread ≡ chatting
      → (sl.state ≡ sa_running) ⊎ (sl.state ≡ sa_timeout)
  chatting-state sl (runs s v t) e = inl s
  chatting-state sl (late s) e = inr s
  chatting-state sl (over r t) e = absurd (true_or_false (sym (ap is_chatting e) ∙ t))

  timed-GoesOn : (now : ℕ) (sl : Slot J) → is_running sl.state ≡ true → GoesOn sl (timed now sl)
  unfolding slot_set_result
  timed-GoesOn now sl r = record {
    goes = subst (λ s. Goes s sa_timeout) (sym (running-state sl.state r)) timeout;
    keeps_id = refl;
    keeps_name = refl;
    keeps_task = refl;
    stays_coherent = late refl;
  }

  finish-GoesOn :
      (now : ℕ) (response : Option Bytes) (sl : Slot J) (ag : Agent J)
      → (sl.state ≡ sa_running) ⊎ (sl.state ≡ sa_timeout)
      → GoesOn sl (finish now response (record sl { agent = some ag }))
  unfolding finish slot_set_result
  finish-GoesOn now response sl ag s = record {
    goes = answer-Goes response sl.state s;
    keeps_id = refl;
    keeps_name = refl;
    keeps_task = refl;
    stays_coherent = over (answer-not_running response) refl;
  }

  new-IsCoherent :
      (now id : ℕ) (name task : Bytes) (sl : Slot J) → IsNew now id name task sl → IsCoherent sl
  new-IsCoherent now id name task sl n = runs n.runs n.is_valid n.is_live

  abbrev pub AllCoherent : Pool J → Type 0
  AllCoherent pool = (j : ℕ) → j < length pool.slots → IsCoherent (slot_at pool j)

  pub Begun-Moved :
      (now : ℕ) (task : Bytes) (pool pool' : Pool J) (id : ℕ) (worker : Bytes)
      → Begun now task pool (spawned id worker pool')
      → Moved pool pool'
  Begun-Moved now task pool pool' _ _ (begun i name sl _ l r n e q id h) =
      moved i sl pool' l
        (subst (λ m. Change pool.next_id (slot_at pool i) m sl) (sym q)
          (is_new sl r n.has_id (new-IsCoherent _ _ name task sl n)))
        e

  Begun-Moved_failed :
      (now : ℕ) (task : Bytes) (pool pool' : Pool J)
      → Begun now task pool (create_failed pool')
      → Moved pool pool'
  Begun-Moved_failed now task pool pool' (failed i sl _ l r h n t e q) =
      moved i sl pool' l
        (subst (λ m. Change pool.next_id (slot_at pool i) m sl) (sym q)
          (is_new sl r h (over (idle-not_running sl.state n) t)))
        e

  TimedOut-Moved :
      (now id : ℕ) (pool : Pool J) (slots : List (Slot J))
      → TimedOut now id pool.slots slots
      → Moved pool (record pool { slots = slots })
  TimedOut-Moved now id pool _ nothing = unmoved
  TimedOut-Moved now id pool _ (cancels i l e r) =
      moved i _ _ l (goes_on _ (timed-GoesOn now (slot_at pool i) r)) refl

  -- what the worker's thread leaves
  pub data Worked (now i : ℕ) (pool : Pool J) : Option (Pool J) → Type 0 where
    worker_faults : Worked now i pool none
    worker_answers :
        (response : Option Bytes) (ag : Agent J)
        → Worked now i pool (
            some
              (put_slot pool i (finish now response (record (slot_at pool i) { agent = some ag }))))

  abbrev pub answered_by : ℕ → ℕ → Pool J → Option (Option Bytes × Agent J) → Option (Pool J)
  answered_by now i pool none = none
  answered_by now i pool (some (response, ag)) =
      some (put_slot pool i (finish now response (record (slot_at pool i) { agent = some ag })))

module _ {J E : Type 0} (env : Env J E) where
  abbrev pub run_agent : ℕ → ℕ → Pool J → Option (Agent J) → Option (Pool J)
  run_agent now i pool none = none
  run_agent now i pool (some ag) = answered_by now i pool (agent_chat env ag (slot_at pool i).task)

  pub worker_fn-run_agent :
      (now i : ℕ) (pool : Pool J)
      → worker_fn env now i pool ≡ run_agent now i pool (slot_at pool i).agent
  unfolding worker_fn
  worker_fn-run_agent now i pool = ground arith

  run_agent-Worked :
      (now i : ℕ) (pool : Pool J) (o : Option (Agent J))
      → Worked now i pool (run_agent now i pool o)
  run_agent-Worked now i pool none = worker_faults
  run_agent-Worked now i pool (some ag) = by_answer (agent_chat env ag (slot_at pool i).task)
    where
      by_answer :
          (r : Option (Option Bytes × Agent J)) → Worked now i pool (answered_by now i pool r)
      by_answer none = worker_faults
      by_answer (some (response, ag')) = worker_answers response ag'

  pub worker_fn-Worked : (now i : ℕ) (pool : Pool J) → Worked now i pool (worker_fn env now i pool)
  worker_fn-Worked now i pool = rw (worker_fn-run_agent now i pool) (run_agent-Worked now i pool _)

  Worked-Moved :
      (now i : ℕ) (pool pool' : Pool J)
      → i < length pool.slots
      → (slot_at pool i).state ≡ sa_running ⊎ (slot_at pool i).state ≡ sa_timeout
      → Worked now i pool (some pool')
      → Moved pool pool'
  Worked-Moved now i pool _ l s (worker_answers response ag) =
      moved i _ _ l (goes_on _ (finish-GoesOn now response (slot_at pool i) ag s)) refl

  -- Each step changes at most one slot.
  pub Step-Moved : (pool pool' : Pool J) → AllCoherent pool → Step env pool pool' → Moved pool pool'
  unfolding watchdog_fn
  Step-Moved pool pool' c (spawns created now name task context id worker _ e) =
      Begun-Moved now (or_text task []) pool pool' id worker (
        subst (Begun now (or_text task []) pool) e
          (tool_spawn-Begun created now name task context pool))
  Step-Moved pool pool' c (fails created now name task context _ e) =
      Begun-Moved_failed now (or_text task []) pool pool' (
        subst (Begun now (or_text task []) pool) e
          (tool_spawn-Begun created now name task context pool))
  Step-Moved pool pool' c (answers now i _ l t e) =
      Worked-Moved now i pool pool' l (chatting-state (slot_at pool i) (c i l) t)
        (subst (Worked now i pool) e (worker_fn-Worked now i pool))
  Step-Moved pool _ c (expires now id) =
      TimedOut-Moved now id pool _ (time_out-TimedOut now id pool.slots)
  Step-Moved pool _ c (is_cancelled i l s t) =
      moved i _ _ l
        (goes_on _ (record {
          goes = subst (λ x. Goes x x) (sym s) stays_timeout;
          keeps_id = refl;
          keeps_name = refl;
          keeps_task = refl;
          stays_coherent = late s;
        }))
        refl
