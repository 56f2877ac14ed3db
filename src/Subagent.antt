-- ===== src/Subagent.antt =====
-- tools/subagent/subagent.c: the pool of sub-agents. A section that holds the pool's lock is one step
-- on the pool; the clock's reading, and whether a thread could be created, are arguments. Ids are
-- numbers without the bound of an int.
pub mod Tool
pub mod Reports
pub mod Slots
pub mod Spawn
pub mod Life
pub mod Moves
pub mod Ids
pub mod Fates
pub mod Found
pub mod Prompt
use dobby_ai.Base.{
  ℕ, zero, suc, ◌+◌, ◌*◌, ◌%◌, ◌/◌, Bool, true, false, not, ◌&&◌, ◌||◌, Option, none, some, List,
  [], ◌∷◌, ◌++◌, Bytes, codes, str_eq, is_empty, ltb, ◌==◌, if◌then◌else◌, length, get_or, set,
  replicate, take,
}
use dobby_ai.Text.{is_prefix}
use dobby_ai.Agent.{Agent, agent_create, agent_add_system_part}
use dobby_ai.Agent.Chat.{Env, agent_chat}

abbrev pub max_slots : ℕ
max_slots = 8

abbrev pub default_ttl : ℕ
default_ttl = 600

abbrev pub result_cap : ℕ
result_cap = 64 * 1024

pub data SubagentState : Type 0 where
  sa_idle sa_running sa_done sa_error sa_timeout : SubagentState

-- Where a worker's thread is: in agent_chat or behind it without the lock yet, or past its section
-- with the lock.
pub data Thread : Type 0 where
  no_thread chatting past : Thread

-- `slot_t`; `thread` is where the thread of the slot is, for pthread_join.
pub record Slot (J : Type 0) : Type 0 where
  pub id : ℕ
  pub state : SubagentState
  pub name : Option Bytes
  pub task : Option Bytes
  pub context : Option Bytes
  pub result : Option Bytes
  pub started_at : ℕ
  pub finished_at : ℕ
  pub timeout_sec : ℕ
  pub agent : Option (Agent J)
  pub thread_valid : Bool
  pub thread : Thread

-- `struct subagent_pool`, without the lock
pub record Pool (J : Type 0) : Type 0 where
  pub slots : List (Slot J)
  pub next_id : ℕ
  pub tmpl : Option (Agent J)
  pub timeout_sec : ℕ

unfoldable pub state_str : SubagentState → Bytes
state_str sa_idle = codes "idle"
state_str sa_running = codes "running"
state_str sa_done = codes "done"
state_str sa_error = codes "error"
state_str sa_timeout = codes "timeout"

abbrev pub is_idle : SubagentState → Bool
is_idle sa_idle = true
is_idle sa_running = false
is_idle sa_done = false
is_idle sa_error = false
is_idle sa_timeout = false

abbrev pub is_running : SubagentState → Bool
is_running sa_idle = false
is_running sa_running = true
is_running sa_done = false
is_running sa_error = false
is_running sa_timeout = false

abbrev pub is_completed : SubagentState → Bool
is_completed s = not (is_idle s || is_running s)

-- the text as it is kept, cut at 64 KB with a note
unfoldable pub result_text : Option Bytes → Bytes
result_text none = codes "(no result)"
result_text (some text) =
    if ltb result_cap (length text)
    then take result_cap text ++ codes "\n...[truncated at 65536 bytes]"
    else text

-- the digits of a number below 10 ^ n
abbrev digits : ℕ → ℕ → Bytes
digits zero m = []
digits (suc n) m =
    let rest = digits n (m / 10) in if ltb m 10 then (48 + m) ∷ [] else rest ++ ((48 + m % 10) ∷ [])

-- "%d" of an int
abbrev pub decimal : ℕ → Bytes
decimal m = digits 10 m

abbrev pub or_text : Option Bytes → Bytes → Bytes
or_text none d = d
or_text (some s) d = s

abbrev pub ctx_block : Bytes → Bytes
ctx_block context = take 8191 (codes "## Context from Orchestrator\n" ++ context)

abbrev pub is_error_text : Option Bytes → Bool
is_error_text none = false
is_error_text (some response) =
    is_prefix (codes "[Error") response || is_prefix (codes "[Dobby:") response

module _ {J : Type 0} where
  -- calloc
  abbrev pub blank : Slot J
  blank = record {
    id = 0;
    state = sa_idle;
    name = none;
    task = none;
    context = none;
    result = none;
    started_at = 0;
    finished_at = 0;
    timeout_sec = 0;
    agent = none;
    thread_valid = false;
    thread = no_thread;
  }

  unfoldable pub slot_set_result : Slot J → Option Bytes → Slot J
  slot_set_result sl text = record sl { result = some (result_text text) }

  -- The dash is the three bytes of its UTF-8 form.
  abbrev pub id_block : Slot J → Bytes
  id_block sl = take 511 (
      codes "## Subagent Identity\nYou are subagent #"
      ++ (decimal sl.id
          ++ (codes " (\""
              ++ (or_text sl.name (codes "worker")
                  ++ (codes
                        "\"), a focused parallel worker.\nComplete only the task given. Do not ask clarifying questions "
                      ++ (226
                          ∷ 128
                          ∷ 148
                          ∷ codes
                              "\nuse your best judgment and tools. Your final response is returned\nto the orchestrator agent that spawned you.\n"))))))

  abbrev pub add_parts : Agent J → List Bytes → Agent J
  add_parts a [] = a
  add_parts a (p ∷ parts) = add_parts (agent_add_system_part a p) parts

  -- the template's parts and limits
  abbrev pub clone_parts : Option (Agent J) → Agent J → Agent J
  clone_parts none a = a
  clone_parts (some t) a = record (add_parts a t.system_parts) {
    max_iterations = t.max_iterations;
    max_messages = t.max_messages;
  }

  abbrev pub add_context : Option Bytes → Agent J → Agent J
  add_context none a = a
  add_context (some c) a = if is_empty c then a else agent_add_system_part a (ctx_block c)

  -- Allocation does not fail.
  unfoldable pub make_agent : Option (Agent J) → Slot J → Agent J
  make_agent tmpl sl =
      add_context sl.context (agent_add_system_part (clone_parts tmpl agent_create) (id_block sl))

  -- The id and the times stay.
  unfoldable pub slot_reset : Slot J → Slot J
  slot_reset sl = record sl {
    agent = none;
    name = none;
    task = none;
    context = none;
    result = none;
    thread_valid = false;
    state = sa_idle;
    thread = no_thread;
  }

  -- the worker's section with the lock
  unfoldable pub finish : ℕ → Option Bytes → Slot J → Slot J
  finish now response sl =
      slot_set_result
        (record sl {
          finished_at = now;
          thread = past;
          state = if is_error_text response then sa_error else sa_done;
        })
        response

  abbrev pub slot_at : Pool J → ℕ → Slot J
  slot_at pool i = get_or pool.slots i blank

  abbrev pub put_slot : Pool J → ℕ → Slot J → Pool J
  put_slot pool i sl = record pool { slots = set pool.slots i sl }

  -- the slot of the watchdog's sub-agent, if it is still running
  unfoldable pub time_out : ℕ → ℕ → List (Slot J) → List (Slot J)
  time_out now id [] = []
  time_out now id (sl ∷ slots) =
      let rest = time_out now id slots in
      if (sl.id == id) && (is_running sl.state && sl.thread_valid)
      then slot_set_result (record sl { state = sa_timeout; finished_at = now })
          (some (codes "[Subagent timed out]"))
        ∷ slots
      else sl ∷ rest

  -- The watchdog's section with the lock. The cancelled thread goes on to where it can be cancelled.
  unfoldable pub watchdog_fn : ℕ → ℕ → Pool J → Pool J
  watchdog_fn now id pool = record pool { slots = time_out now id pool.slots }

  unfoldable pub first_idle : List (Slot J) → ℕ → Option ℕ
  first_idle [] i = none
  first_idle (sl ∷ slots) i =
      let rest = first_idle slots (suc i) in if is_idle sl.state then some i else rest

  -- The completed slot that finished first, before `best_time`, else `best_idx`.
  unfoldable pub oldest : List (Slot J) → ℕ → ℕ → Option ℕ → Option ℕ
  oldest [] i best_time best_idx = best_idx
  oldest (sl ∷ slots) i best_time best_idx =
      let taken = oldest slots (suc i) sl.finished_at (some i) in
      let passed = oldest slots (suc i) best_time best_idx in
      if is_completed sl.state && ltb sl.finished_at best_time then taken else passed

module _ {J : Type 0} where
  unfoldable pub subagent_pool_create : Option (Agent J) → ℕ → Pool J
  subagent_pool_create template_agent timeout_sec = record {
    slots = replicate max_slots blank;
    next_id = 1;
    tmpl = template_agent;
    timeout_sec = if ltb 0 timeout_sec then timeout_sec else default_ttl;
  }

-- The worker's thread on the slot: the chat without the lock, then the section with it. `none` is a
-- fault of agent_chat.
module _ {J E : Type 0} (env : Env J E) where
  unfoldable pub worker_fn : ℕ → ℕ → Pool J → Option (Pool J)
  worker_fn now i pool = elim (slot_at pool i).agent [
    | none ↦ none
    | some ag ↦ elim (agent_chat env ag (slot_at pool i).task) [
      | none ↦ none
      | some (response, ag') ↦
          some
            (put_slot pool i (finish now response (record (slot_at pool i) { agent = some ag' })))
    ]
  ]
