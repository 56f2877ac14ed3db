-- ===== src/Subagent/Life.antt =====
-- tools/subagent/subagent.c: the steps of the pool, each under the lock, and what each may do to a slot.
use dobby_ai.Base.{ℕ, suc, ◌<◌, ◌≡◌, Bool, true, false, Option, some, Bytes, length, set}
use dobby_ai.Agent.Chat.{Env}
use dobby_ai.Subagent.{
  SubagentState, sa_running, sa_done, sa_error, sa_timeout, Slot, Pool, slot_at, put_slot,
  is_running, chatting, past, watchdog_fn, worker_fn,
}
use dobby_ai.Subagent.Tool.{is_chatting, spawned, create_failed, tool_spawn}

module _ {J E : Type 0} (env : Env J E) where
  -- One step of one thread. The last is the cancelled thread's end, before its section with the lock.
  pub data Step (pool : Pool J) : Pool J → Type 0 where
    spawns :
        (created : Bool) (now : ℕ) (name task context : Option Bytes) (id : ℕ) (worker : Bytes)
        (pool' : Pool J)
        → tool_spawn created now name task context pool ≡ spawned id worker pool'
        → Step pool pool'
    fails :
        (created : Bool) (now : ℕ) (name task context : Option Bytes) (pool' : Pool J)
        → tool_spawn created now name task context pool ≡ create_failed pool'
        → Step pool pool'
    answers :
        (now i : ℕ) (pool' : Pool J)
        → i < length pool.slots
        → (slot_at pool i).thread ≡ chatting
        → worker_fn env now i pool ≡ some pool'
        → Step pool pool'
    expires : (now id : ℕ) → Step pool (watchdog_fn now id pool)
    is_cancelled :
        (i : ℕ)
        → i < length pool.slots
        → (slot_at pool i).state ≡ sa_timeout
        → (slot_at pool i).thread ≡ chatting
        → Step pool (put_slot pool i (record (slot_at pool i) { thread = past }))

  pub data Reach (pool : Pool J) : Pool J → Type 0 where
    here : Reach pool pool
    then_step : (pool' pool'' : Pool J) → Reach pool pool' → Step pool' pool'' → Reach pool pool''

-- the states of one sub-agent
pub data Goes : SubagentState → SubagentState → Type 0 where
  done : Goes sa_running sa_done
  error : Goes sa_running sa_error
  timeout : Goes sa_running sa_timeout
  late_done : Goes sa_timeout sa_done
  late_error : Goes sa_timeout sa_error
  stays_timeout : Goes sa_timeout sa_timeout

module _ {J : Type 0} where
  -- A slot's thread runs before its answer, or after a timeout.
  pub data IsCoherent (sl : Slot J) : Type 0 where
    runs : sl.state ≡ sa_running → sl.thread_valid ≡ true → sl.thread ≡ chatting → IsCoherent sl
    late : sl.state ≡ sa_timeout → IsCoherent sl
    over : is_running sl.state ≡ false → is_chatting sl.thread ≡ false → IsCoherent sl

  -- The same sub-agent goes on.
  pub record GoesOn (old new : Slot J) : Type 0 where
    pub goes : Goes old.state new.state
    pub keeps_id : new.id ≡ old.id
    pub keeps_name : new.name ≡ old.name
    pub keeps_task : new.task ≡ old.task
    pub stays_coherent : IsCoherent new

  -- What a step may do to a slot: nothing, or the sub-agent goes on, or the slot was not running and
  -- has a new id.
  pub data Change (n : ℕ) (old : Slot J) : ℕ → Slot J → Type 0 where
    goes_on : (new : Slot J) → GoesOn old new → Change n old n new
    is_new :
        (new : Slot J)
        → is_running old.state ≡ false
        → new.id ≡ n
        → IsCoherent new
        → Change n old (suc n) new

  pub data Moved (pool : Pool J) : Pool J → Type 0 where
    unmoved : Moved pool pool
    moved :
        (i : ℕ) (new : Slot J) (pool' : Pool J)
        → i < length pool.slots
        → Change pool.next_id (slot_at pool i) pool'.next_id new
        → pool'.slots ≡ set pool.slots i new
        → Moved pool pool'
