-- ===== src/Subagent/Tool.antt =====
-- tools/subagent/subagent.c: the choice of a slot, and the tool that spawns a sub-agent.
use dobby_ai.Base.{
  ℕ, suc, ◌+◌, Bool, true, false, ◌&&◌, Option, none, some, Bytes, codes, is_empty, if◌then◌else◌,
}
use dobby_ai.Subagent.{
  Thread, Slot, Pool, make_agent, slot_reset, slot_at, put_slot, first_idle, oldest, sa_running,
  chatting, no_thread, past,
}

-- What alloc_slot gives; `joins` waits, with the lock held, for a thread that is not past its section.
pub data Alloc (J : Type 0) : Type 0 where
  no_slot : Alloc J
  joins : ℕ → Alloc J
  allocated : ℕ → Pool J → Alloc J

-- What spawn_subagent answers.
pub data Spawned (J : Type 0) : Type 0 where
  task_required all_busy : Spawned J
  spawn_joins : ℕ → Spawned J
  create_failed : Pool J → Spawned J
  spawned : ℕ → Bytes → Pool J → Spawned J

abbrev pub is_chatting : Thread → Bool
is_chatting no_thread = false
is_chatting chatting = true
is_chatting past = false

abbrev pub worker_name : Option Bytes → Bytes
worker_name none = codes "worker"
worker_name (some n) = if is_empty n then codes "worker" else n

module _ {J : Type 0} where
  unfoldable pub evict : Pool J → ℕ → Alloc J
  evict pool i =
      let sl = slot_at pool i in
      if sl.thread_valid && is_chatting sl.thread
      then joins i
      else allocated i (put_slot pool i (slot_reset sl))

  unfoldable pub alloc_slot : ℕ → Pool J → Alloc J
  alloc_slot now pool = elim (first_idle pool.slots 0) [
    | some i ↦ allocated i pool
    | none ↦ elim (oldest pool.slots 0 (now + 1) none) [ none ↦ no_slot | some i ↦ evict pool i ]
  ]

  abbrev pub new_slot : ℕ → Pool J → Bytes → Bytes → Option Bytes → Slot J → Slot J
  new_slot now pool name task context sl = record sl {
    id = pool.next_id;
    state = sa_running;
    name = some name;
    task = some task;
    context = context;
    started_at = now;
    timeout_sec = pool.timeout_sec;
    result = none;
    thread_valid = false;
  }

  -- the agent, and the thread if it could be created
  unfoldable pub start : Bool → ℕ → Bytes → Bytes → Option Bytes → ℕ → Pool J → Spawned J
  start created now name task context i pool =
      let sl = new_slot now pool name task context (slot_at pool i) in
      let with_agent = record sl { agent = some (make_agent pool.tmpl sl) } in
      let pool' = record pool { next_id = suc pool.next_id } in
      if created
      then spawned pool.next_id name
          (put_slot pool' i (record with_agent { thread_valid = true; thread = chatting }))
      else create_failed (put_slot pool' i (slot_reset with_agent))

  unfoldable pub spawn_task : Bool → ℕ → Bytes → Bytes → Option Bytes → Pool J → Spawned J
  spawn_task created now name task context pool = elim (alloc_slot now pool) [
    | no_slot ↦ all_busy
    | joins i ↦ spawn_joins i
    | allocated i pool' ↦ start created now name task context i pool'
  ]

  unfoldable pub tool_spawn :
      Bool → ℕ → Option Bytes → Option Bytes → Option Bytes → Pool J → Spawned J
  tool_spawn created now name none context pool = task_required
  tool_spawn created now name (some task) context pool =
      if is_empty task
      then task_required
      else spawn_task created now (worker_name name) task context pool
