-- ===== src/Tests/Subagents.antt =====
-- A pool with one sub-agent at work.
use dobby_ai.Base.{◌≡◌, refl, true, none, some, [], ◌∷◌, ◌++◌, Bytes, codes, replicate, set, arith}
use dobby_ai.Agent.{Agent, agent_compact_history, limit}
use dobby_ai.Agent.Chat.{agent_chat, plain_message}
use dobby_ai.Agent.Compact.{full_error_keeps_user}
use dobby_ai.Subagent.{
  make_agent, id_block, Slot, Pool, blank, slot_at, sa_running, chatting, subagent_pool_create,
  watchdog_fn, worker_fn, max_slots,
}
use dobby_ai.Subagent.Tool.{Alloc, alloc_slot, Spawned, spawned, tool_spawn}
use dobby_ai.Subagent.Reports.{tool_status, report, slot_report}
use dobby_ai.Subagent.Spawn.{Chosen, alloc_slot-Chosen}
use dobby_ai.Subagent.Life.{Step, here, then_step, expires, moved, is_new, runs}
use dobby_ai.Subagent.Ids.{IsPool, create-IsPool, Moved-IsPool, Reach-IsPool}
use dobby_ai.Subagent.Fates.{Fate, Step-Fate}
use dobby_ai.Subagent.Found.{
  tool_status-slot, tool_status-tool_spawn, tool_status-worker_fn, running_report, answer_report,
}
use dobby_ai.Subagent.Prompt.{make_agent-parts}
use dobby_ai.Tests.Agents.{Node, full, failing}

abbrev task : Bytes
task = codes "hello"

abbrev at_work : Slot Node
at_work = record blank {
  id = 1;
  state = sa_running;
  name = some (codes "greeter");
  task = some task;
  started_at = 5;
  timeout_sec = 600;
  agent = some full;
  thread_valid = true;
  thread = chatting;
}

abbrev empty_pool : Pool Node
empty_pool = subagent_pool_create none 0

abbrev pool : Pool Node
pool = record {
  slots = set (replicate max_slots blank) 0 at_work;
  next_id = 2;
  tmpl = none;
  timeout_sec = 600;
}

pool-IsPool : IsPool pool
unfolding subagent_pool_create
pool-IsPool =
    Moved-IsPool empty_pool pool (create-IsPool none 0)
      (moved 0 at_work pool (omega arith) (is_new at_work refl refl (runs refl refl refl)) refl)

alloc_slot-Chosen_example : Chosen 10 pool (alloc_slot 10 pool)
alloc_slot-Chosen_example = alloc_slot-Chosen 10 pool

expired : Step failing pool (watchdog_fn 605 1 pool)
expired = expires 605 1

Reach-IsPool_example : IsPool (watchdog_fn 605 1 pool)
Reach-IsPool_example =
    Reach-IsPool failing pool (watchdog_fn 605 1 pool)
      (then_step pool (watchdog_fn 605 1 pool) here expired) pool-IsPool

Step-Fate_example : Fate 2 at_work (slot_at (watchdog_fn 605 1 pool) 0)
Step-Fate_example = Step-Fate failing pool (watchdog_fn 605 1 pool) pool-IsPool expired 0

tool_status-slot_example : tool_status 9 (some 1) pool ≡ report (slot_report 9 at_work)
tool_status-slot_example = tool_status-slot 9 pool 0 pool-IsPool refl

abbrev pool_of : Spawned Node → Pool Node
pool_of (spawned id name p) = p
pool_of s = pool

abbrev second : Pool Node
second = pool_of (tool_spawn true 7 none (some task) none pool)

spawns_second : tool_spawn true 7 none (some task) none pool ≡ spawned 2 (codes "worker") second
unfolding tool_spawn dobby_ai.Subagent.Tool.spawn_task alloc_slot dobby_ai.Subagent.first_idle
    dobby_ai.Subagent.Tool.start
spawns_second = refl

tool_status-tool_spawn_example :
    tool_status 9 (some 2) second ≡ report (running_report 9 2 7 (codes "worker") task)
tool_status-tool_spawn_example =
    tool_status-tool_spawn true 7 9 none task none pool second 2 (codes "worker") pool-IsPool
      spawns_second

abbrev full' : Agent Node
full' = record (agent_compact_history full) {
  messages =
      (agent_compact_history full).messages ++ (plain_message (codes "user") (some task) ∷ []);
}

chat_fails : agent_chat failing full (some task) ≡ some (some (codes "timeout"), full')
unfolding limit
chat_fails =
    full_error_keeps_user failing full task (codes "timeout") 9 (omega arith) (omega arith) refl
      refl (λ a. refl)

tool_status-worker_fn_example :
    (pool' : Pool Node) × (worker_fn failing 8 0 pool ≡ some pool')
    × (tool_status 9 (some 1) pool'
        ≡ report (answer_report 9 1 5 8 (codes "greeter") task (some (codes "timeout"))))
tool_status-worker_fn_example =
    tool_status-worker_fn failing 8 9 0 pool full full' (some (codes "timeout")) pool-IsPool
      (omega arith) refl refl chat_fails

abbrev template : Agent Node
template = record full { system_parts = codes "Be short." ∷ codes "Be kind." ∷ [] }

make_agent-parts_example :
    (make_agent (some template) at_work).system_parts
    ≡ codes "Be short." ∷ codes "Be kind." ∷ id_block at_work ∷ []
make_agent-parts_example = make_agent-parts (some template) at_work
