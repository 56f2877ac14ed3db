-- ===== src/Subagent/Spawn.antt =====
-- tools/subagent/subagent.c: which slot a new sub-agent gets.
use dobby_ai.Base.{
  ℕ, zero, suc, ◌+◌, ◌≤◌, ◌<◌, ◌≡◌, ◌⊎◌, inl, inr, refl, ap, Bool, true, false, ◌&&◌, Bool-cases,
  Option, none, some, List, [], ◌∷◌, Bytes, arith, is_empty, length, set,
}
use dobby_ai.Subagent.{
  SubagentState, Slot, Pool, slot_at, put_slot, is_idle, is_running, is_completed, slot_reset,
  first_idle, oldest, sa_running, chatting, or_text,
}
use dobby_ai.Subagent.Tool.{
  is_chatting, Alloc, no_slot, joins, allocated, evict, alloc_slot, Spawned, task_required,
  all_busy, spawn_joins, create_failed, spawned, start, spawn_task, tool_spawn, worker_name,
}
use dobby_ai.Subagent.Slots.{
  Idle, no_idle, idle_at, first_idle-Idle, From, Oldest, none_before, oldest_at, oldest-Oldest,
}

pub idle-not_running : (s : SubagentState) → is_idle s ≡ true → is_running s ≡ false
idle-not_running s h = ground arith

completed-not_running : (s : SubagentState) → is_completed s ≡ true → is_running s ≡ false
completed-not_running s h = ground arith

set-set : {A : Type 0} (xs : List A) (i : ℕ) (a b : A) → set (set xs i a) i b ≡ set xs i b
set-set [] i a b = refl
set-set (x ∷ xs) zero a b = refl
set-set (x ∷ xs) (suc i) a b = ap (◌∷◌ x) (set-set xs i a b)

both-left : (a b : Bool) → (a && b) ≡ true → a ≡ true
both-left a b e = ground arith

both-right : (a b : Bool) → (a && b) ≡ true → b ≡ true
both-right a b e = ground arith

not_both : (a b : Bool) → (a && b) ≡ false → (a ≡ false) ⊎ (b ≡ false)
not_both true b e = inr e
not_both false b e = inl refl

module _ {J : Type 0} where
  abbrev pub NoIdle : Pool J → Type 0
  NoIdle pool = (j : ℕ) → j < length pool.slots → is_idle (slot_at pool j).state ≡ false

  -- The choice: an idle slot, or else the completed one that finished first; its thread decides
  -- whether it is waited for.
  pub data Chosen (now : ℕ) (pool : Pool J) : Alloc J → Type 0 where
    refuses : NoIdle pool → From (now + 1) pool.slots → Chosen now pool no_slot
    waits_for :
        (i : ℕ)
        → i < length pool.slots
        → NoIdle pool
        → is_completed (slot_at pool i).state ≡ true
        → (slot_at pool i).finished_at ≤ now
        → From (slot_at pool i).finished_at pool.slots
        → (slot_at pool i).thread_valid ≡ true
        → is_chatting (slot_at pool i).thread ≡ true
        → Chosen now pool (joins i)
    takes :
        (i : ℕ)
        → i < length pool.slots
        → is_idle (slot_at pool i).state ≡ true
        → Chosen now pool (allocated i pool)
    evicts :
        (i : ℕ)
        → i < length pool.slots
        → NoIdle pool
        → is_completed (slot_at pool i).state ≡ true
        → (slot_at pool i).finished_at ≤ now
        → From (slot_at pool i).finished_at pool.slots
        → ((slot_at pool i).thread_valid ≡ false) ⊎ (is_chatting (slot_at pool i).thread ≡ false)
        → Chosen now pool (allocated i (put_slot pool i (slot_reset (slot_at pool i))))

  evict-Chosen :
      (now : ℕ) (pool : Pool J) (i : ℕ)
      → i < length pool.slots
      → NoIdle pool
      → is_completed (slot_at pool i).state ≡ true
      → (slot_at pool i).finished_at ≤ now
      → From (slot_at pool i).finished_at pool.slots
      → Chosen now pool (evict pool i)
  unfolding evict
  evict-Chosen now pool i l none_idle c b f =
      elim (Bool-cases ((slot_at pool i).thread_valid && is_chatting (slot_at pool i).thread)) [
        | inl e ↦ rw e (waits_for i l none_idle c b f (both-left _ _ e) (both-right _ _ e))
        | inr e ↦ rw e (evicts i l none_idle c b f (not_both _ _ e))
      ]

  abbrev evict_oldest : Pool J → Option ℕ → Alloc J
  evict_oldest pool none = no_slot
  evict_oldest pool (some i) = evict pool i

  abbrev choose : ℕ → Pool J → Option ℕ → Alloc J
  choose now pool none = evict_oldest pool (oldest pool.slots 0 (now + 1) none)
  choose now pool (some i) = allocated i pool

  alloc_slot-choose :
      (now : ℕ) (pool : Pool J) → alloc_slot now pool ≡ choose now pool (first_idle pool.slots 0)
  unfolding alloc_slot
  alloc_slot-choose now pool = ground arith

  Oldest-Chosen :
      (now : ℕ) (pool : Pool J) (o : Option ℕ)
      → NoIdle pool
      → Oldest pool.slots 0 (now + 1) none o
      → Chosen now pool (evict_oldest pool o)
  Oldest-Chosen now pool _ n (none_before f) = refuses n f
  Oldest-Chosen now pool _ n (oldest_at j i q l c e f) =
      let e' : i ≡ j = omega (arith, q) in
      rw e' (evict-Chosen now pool j l n c (omega (arith, e)) f)

  choose-Chosen :
      (now : ℕ) (pool : Pool J) (o : Option ℕ)
      → Idle pool.slots 0 o
      → Chosen now pool (choose now pool o)
  choose-Chosen now pool _ (no_idle n) =
      Oldest-Chosen now pool _ n (oldest-Oldest pool.slots 0 (now + 1) none)
  choose-Chosen now pool _ (idle_at j i q l e) =
      let e' : i ≡ j = omega (arith, q) in rw e' (takes j l e)

  -- alloc_slot takes an idle slot. When there is none, it turns to a completed slot that finished no
  -- later than any other completed one and not after the present: if the thread of that slot is joinable
  -- and still has its section with the lock before it, the call waits in the join; if not, it takes
  -- the slot, reset. It refuses only when no slot is idle and every completed one has a time of finishing
  -- after the present.
  pub alloc_slot-Chosen : (now : ℕ) (pool : Pool J) → Chosen now pool (alloc_slot now pool)
  alloc_slot-Chosen now pool =
      rw (alloc_slot-choose now pool) (choose-Chosen now pool _ (first_idle-Idle pool.slots 0))

  -- A slot that has just been given to a sub-agent.
  pub record IsNew (now id : ℕ) (name task : Bytes) (sl : Slot J) : Type 0 where
    pub has_id : sl.id ≡ id
    pub runs : sl.state ≡ sa_running
    pub has_name : sl.name ≡ some name
    pub has_task : sl.task ≡ some task
    pub has_start : sl.started_at ≡ now
    pub is_valid : sl.thread_valid ≡ true
    pub is_live : sl.thread ≡ chatting

  -- what spawn_subagent did to the pool: at most one slot, which was not running, is new
  pub data Begun (now : ℕ) (task : Bytes) (pool : Pool J) : Spawned J → Type 0 where
    wants_task : Begun now task pool task_required
    is_busy : NoIdle pool → Begun now task pool all_busy
    is_held : (i : ℕ) → Begun now task pool (spawn_joins i)
    failed :
        (i : ℕ) (sl : Slot J) (pool' : Pool J)
        → i < length pool.slots
        → is_running (slot_at pool i).state ≡ false
        → sl.id ≡ pool.next_id
        → is_idle sl.state ≡ true
        → is_chatting sl.thread ≡ false
        → pool'.slots ≡ set pool.slots i sl
        → pool'.next_id ≡ suc pool.next_id
        → Begun now task pool (create_failed pool')
    begun :
        (i : ℕ) (name : Bytes) (sl : Slot J) (pool' : Pool J)
        → i < length pool.slots
        → is_running (slot_at pool i).state ≡ false
        → IsNew now pool.next_id name task sl
        → pool'.slots ≡ set pool.slots i sl
        → pool'.next_id ≡ suc pool.next_id
        → (id : ℕ) → id ≡ pool.next_id
        → Begun now task pool (spawned id name pool')

  start-Begun :
      (created : Bool) (now : ℕ) (name task : Bytes) (context : Option Bytes) (i : ℕ)
      (pool from : Pool J)
      → i < length pool.slots
      → is_running (slot_at pool i).state ≡ false
      → ((sl : Slot J) → set from.slots i sl ≡ set pool.slots i sl)
      → from.next_id ≡ pool.next_id
      → Begun now task pool (start created now name task context i from)
  unfolding start slot_reset
  start-Begun true now name task context i pool from l r same n =
      begun i name _ _ l r
        (record {
          has_id = n;
          runs = refl;
          has_name = refl;
          has_task = refl;
          has_start = refl;
          is_valid = refl;
          is_live = refl;
        })
        (same _) (ap suc n) from.next_id n
  start-Begun false now name task context i pool from l r same n =
      failed i _ _ l r n refl refl (same _) (ap suc n)

  abbrev start_at : Bool → ℕ → Bytes → Bytes → Option Bytes → Alloc J → Spawned J
  start_at created now name task context no_slot = all_busy
  start_at created now name task context (joins i) = spawn_joins i
  start_at created now name task context (allocated i pool) =
      start created now name task context i pool

  Chosen-Begun :
      (created : Bool) (now : ℕ) (name task : Bytes) (context : Option Bytes) (pool : Pool J)
      (a : Alloc J)
      → Chosen now pool a
      → Begun now task pool (start_at created now name task context a)
  Chosen-Begun created now name task context pool _ (refuses n f) = is_busy n
  Chosen-Begun created now name task context pool _ (waits_for i l n c b f v t) = is_held i
  Chosen-Begun created now name task context pool _ (takes i l e) =
      start-Begun created now name task context i pool pool l (idle-not_running _ e) (λ sl. refl)
        refl
  Chosen-Begun created now name task context pool _ (evicts i l n c b f v) =
      start-Begun created now name task context i pool
        (put_slot pool i (slot_reset (slot_at pool i))) l (completed-not_running _ c)
        (λ sl. set-set pool.slots i (slot_reset (slot_at pool i)) sl) refl

  spawn_task-start_at :
      (created : Bool) (now : ℕ) (name task : Bytes) (context : Option Bytes) (pool : Pool J)
      → spawn_task created now name task context pool
        ≡ start_at created now name task context (alloc_slot now pool)
  unfolding spawn_task
  spawn_task-start_at created now name task context pool = ground arith

  spawn_task-Begun :
      (created : Bool) (now : ℕ) (name task : Bytes) (context : Option Bytes) (pool : Pool J)
      → Begun now task pool (spawn_task created now name task context pool)
  spawn_task-Begun created now name task context pool =
      rw (spawn_task-start_at created now name task context pool)
        (Chosen-Begun created now name task context pool _ (alloc_slot-Chosen now pool))

  -- what spawn_subagent answers
  pub tool_spawn-Begun :
      (created : Bool) (now : ℕ) (name task context : Option Bytes) (pool : Pool J)
      → Begun now (or_text task []) pool (tool_spawn created now name task context pool)
  unfolding tool_spawn
  tool_spawn-Begun created now name none context pool = wants_task
  tool_spawn-Begun created now name (some task) context pool = elim (Bool-cases (is_empty task)) [
    | inl e ↦ rw e wants_task
    | inr e ↦ rw e (spawn_task-Begun created now (worker_name name) task context pool)
  ]
