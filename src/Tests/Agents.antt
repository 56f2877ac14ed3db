-- ===== src/Tests/Agents.antt =====
-- Turns of an agent with a provider that asks for one tool and then answers.
use dobby_ai.Base.{
  ℕ, zero, suc, ◌-◌, ◌*◌, ◌≤◌, ◌<◌, ◌≡◌, ◌⊎◌, inl, inr, refl, true, false, Option, none, some, List,
  [], ◌∷◌, ◌++◌, arith, Bytes, codes, length, get_or, get_elem?, take, drop, str_eq, if◌then◌else◌,
}
use dobby_ai.Json.{JsonOps}
use dobby_ai.Text.{str_trim}
use dobby_ai.ToolRegistry.{Tool, fault, missing, found, max_tools, tool_find, tool_register}
use dobby_ai.ToolRegistry.Laws.{IsComplete}
use dobby_ai.Agent.{
  Message, Agent, agent_create, agent_add_message, agent_compact_history, message_has_tool_calls,
  limit, cut_start, no_message, max_messages_cap,
}
use dobby_ai.Agent.Think.{strip_think_tags}
use dobby_ai.Agent.Think.Laws.{Stripped, strip_think_tags-Stripped}
use dobby_ai.Agent.Wire.{MsgFormat, WireCall, WireMessage, build_messages_json}
use dobby_ai.Agent.Wire.Exchange.{SentCalls, SentResults}
use dobby_ai.Agent.Wire.Round.{run_calls-sent}
use dobby_ai.Agent.Chat.{
  Env, LlmResponse, assistant_message, plain_message, call_list, run_calls, agent_chat,
}
use dobby_ai.Agent.Induct.{response}
use dobby_ai.Agent.Turn.{agent_chat-fits, agent_chat-first}
use dobby_ai.Agent.Calls.{Answers, run_calls-Answers}
use dobby_ai.Agent.Rollback.{Outcome, history, agent_chat-Outcome}
use dobby_ai.Agent.Total.{IsUsable, agent_chat-returns}
use dobby_ai.Agent.Compact.{IsLimit, compact_block, compact_orphans, full_error_keeps_user}

-- a JSON value as far as the turns look at it
pub data Node : Type 0 where
  call : Bytes → Bytes → Node
  function : Bytes → Node
  string : Bytes → Node
  braces : Node

abbrev node_item : Bytes → Node → Option Node
node_item k (call i f) =
    if str_eq k (codes "id")
    then some (string i)
    else if str_eq k (codes "function")
    then some (function f)
    else none
node_item k (function f) = if str_eq k (codes "name") then some (string f) else none
node_item k (string s) = none
node_item k braces = none

abbrev node_string : Node → Option Bytes
node_string (string s) = some s
node_string n = none

abbrev ops : JsonOps Node
ops = record {
  get_item = node_item;
  get_string = node_string;
  value_int = λ j. 0;
  is_true = λ j. false;
  items = λ j. [];
  parse = λ s. none;
  print = λ j. none;
  empty_object = braces;
}

abbrev fmt : MsgFormat
fmt = record {
  tool_result_include_name = true;
  assistant_tool_call_empty_content = false;
  tool_args_as_object = true;
}

abbrev echo : Tool ℕ
echo = record {
  name = some (codes "echo");
  description = none;
  parameters_schema = none;
  execute = some 1;
}

abbrev one_call : List Node
one_call = call (codes "c1") (codes "echo") ∷ []

abbrev asks_then_answers : ℕ → List (WireMessage Node) → LlmResponse Node
asks_then_answers zero ms = record { content = none; tool_calls = some one_call; error = none }
asks_then_answers (suc n) ms = record {
  content = some (codes "done");
  tool_calls = none;
  error = none;
}

abbrev env : Env Node ℕ
env = record {
  ops = ops;
  fmt = fmt;
  chat_complete = asks_then_answers;
  tools = echo ∷ [];
  run_tool = λ n t j. some (codes "ok");
  is_strdup_nonnull = true;
}

abbrev ag : Agent Node
ag = agent_create

abbrev pub hello : Option Bytes
hello = some (codes "hello")

abbrev agent_after : Option (Option Bytes × Agent Node) → Agent Node
agent_after none = ag
agent_after (some (reply, a)) = a

abbrev turn : Option (Option Bytes × Agent Node)
turn = agent_chat env ag hello

-- The tool.
echo-IsComplete : IsComplete echo
echo-IsComplete = record { named = codes "echo"; runs = 1; name_is = refl; execute_is = refl }

-- Messages.
abbrev thought : Bytes
thought = codes "<think>x</think> hi"

strip_think_tags-Stripped_example :
    (visible : Bytes) × (strip_think_tags (some thought) ≡ some (str_trim visible))
    × Stripped thought visible
strip_think_tags-Stripped_example = strip_think_tags-Stripped thought

abbrev sys : Message Node
sys = plain_message (codes "system") (some (codes "Be short."))

abbrev asks : Message Node
asks = record (plain_message (codes "assistant") none) { tool_calls = some one_call }

-- Turns.
agent_chat-fits_example : length (agent_after turn).messages ≤ max_messages_cap
unfolding agent_create agent_chat dobby_ai.Agent.Chat.chat_turn dobby_ai.Agent.Chat.chat_loop
    dobby_ai.Agent.Chat.ensure_system dobby_ai.Agent.agent_add_message limit run_calls
    dobby_ai.Agent.Chat.run_call dobby_ai.Agent.Chat.call_result tool_find
    dobby_ai.ToolRegistry.name_test str_eq strip_think_tags dobby_ai.Agent.Think.strip_loop
    dobby_ai.Text.split_sub str_trim
agent_chat-fits_example =
    agent_chat-fits env ag (agent_after turn) hello (some (codes "done")) (omega arith) refl

abbrev started : Agent Node
started = record ag { messages = sys ∷ [] }

agent_chat-first_example :
    get_elem? (agent_after (agent_chat env started hello)).messages 0 ≡ some sys
unfolding agent_create agent_chat dobby_ai.Agent.Chat.chat_turn dobby_ai.Agent.Chat.chat_loop
    dobby_ai.Agent.Chat.ensure_system run_calls dobby_ai.Agent.Chat.run_call
    dobby_ai.Agent.Chat.call_result tool_find dobby_ai.ToolRegistry.name_test str_eq
    strip_think_tags dobby_ai.Agent.Think.strip_loop dobby_ai.Text.split_sub str_trim
agent_chat-first_example =
    agent_chat-first env started (agent_after (agent_chat env started hello)) sys hello
      (some (codes "done")) refl refl

abbrev or_ag : Option (Agent Node) → Agent Node
or_ag none = ag
or_ag (some a) = a

run_calls-Answers_example :
    (rs : List (Message Node)) × ((or_ag (run_calls env started one_call)).messages ≡ sys ∷ rs)
    × Answers env one_call rs
unfolding agent_create limit run_calls dobby_ai.Agent.Chat.run_call dobby_ai.Agent.Chat.call_result
    tool_find dobby_ai.ToolRegistry.name_test str_eq
run_calls-Answers_example =
    run_calls-Answers env started (or_ag (run_calls env started one_call)) one_call (omega arith)
      refl

abbrev tool_answer : LlmResponse Node
tool_answer = asks_then_answers zero []

abbrev asked : Agent Node
asked = agent_add_message started (assistant_message env tool_answer (some one_call))

run_calls-sent_example :
    (w : WireMessage Node) × (cs : List (WireCall Node)) × (ws : List (WireMessage Node))
    × (build_messages_json ops fmt (or_ag (run_calls env asked one_call)).messages
        ≡ build_messages_json ops fmt started.messages ++ (w ∷ ws))
    × (w.role ≡ codes "assistant")
    × (w.tool_calls ≡ some cs)
    × SentCalls ops fmt one_call cs
    × SentResults ops fmt one_call ws
unfolding agent_create limit run_calls dobby_ai.Agent.Chat.run_call dobby_ai.Agent.Chat.call_result
    tool_find dobby_ai.ToolRegistry.name_test str_eq agent_add_message strip_think_tags
run_calls-sent_example =
    run_calls-sent env started (or_ag (run_calls env asked one_call)) tool_answer one_call
      (omega arith) refl

one_call_at_most : (i : ℕ) (a : Agent Node) → length (call_list (response env i a).tool_calls) ≤ 1
one_call_at_most zero a = omega arith
one_call_at_most (suc i) a = omega arith

agent_chat-Outcome_example :
    Outcome env
      (history env started)
      (plain_message (codes "user") hello)
      (agent_chat env started hello)
unfolding agent_create limit
agent_chat-Outcome_example =
    agent_chat-Outcome env 1 started (codes "hello") one_call_at_most refl (omega arith)

-- Compaction at a limit of 8 messages.
abbrev result : Bytes → Message Node
result s = record (plain_message (codes "tool") (some s)) { tool_call_id = some (codes "c1") }

abbrev pub full : Agent Node
full = record {
  messages =
      sys
      ∷ asks
      ∷ result (codes "a")
      ∷ result (codes "b")
      ∷ result (codes "c")
      ∷ result (codes "d")
      ∷ result (codes "e")
      ∷ result (codes "f")
      ∷ [];
  max_iterations = 10;
  max_messages = 8;
  system_parts = [];
}

compact_block_example :
    (cut l : ℕ) × ((agent_compact_history full).messages
      ≡ take 1 full.messages ++ drop cut full.messages)
    × IsLimit 8 l
    × (2 ≤ cut)
    × (cut ≤ length full.messages)
    × ((cut ≤ 2) ⊎ (4 * (cut - 1) ≤ l))
    × ((j : ℕ)
        → cut ≤ j
        → j < length full.messages
        → 4 * j ≤ l
        → message_has_tool_calls (get_or full.messages j no_message) ≡ true)
    × ((cut ≤ 2)
        ⊎ ((last : ℕ) × (cut ≡ suc last)
            × (message_has_tool_calls (get_or full.messages last no_message) ≡ false)))
compact_block_example = compact_block full (omega arith)

compact_orphans_example :
    (agent_compact_history full).messages
    ≡ sys
      ∷ result (codes "b")
      ∷ result (codes "c")
      ∷ result (codes "d")
      ∷ result (codes "e")
      ∷ result (codes "f")
      ∷ []
unfolding cut_start limit
compact_orphans_example =
    compact_orphans full sys (result (codes "a")) (result (codes "b")) (asks ∷ [])
      (result (codes "c") ∷ result (codes "d") ∷ result (codes "e") ∷ result (codes "f") ∷ []) refl
      refl refl

abbrev pub failing : Env Node ℕ
failing = record env {
  chat_complete =
      λ i ms. record { content = none; tool_calls = none; error = some (codes "timeout") };
}

full_error_keeps_user_example :
    agent_chat failing full hello
    ≡ some (
      some (codes "timeout"),
      record (agent_compact_history full) {
        messages =
            (agent_compact_history full).messages ++ (plain_message (codes "user") hello ∷ []);
      },
    )
unfolding limit
full_error_keeps_user_example =
    full_error_keeps_user failing full (codes "hello") (codes "timeout") 9 (omega arith)
      (omega arith) refl refl (λ a. refl)

-- Returning.
answers-IsUsable : (i : ℕ) (a : Agent Node) → IsUsable env (response env i a)
unfolding str_eq
answers-IsUsable zero a = (((codes "echo", refl), tt), inr (inl refl))
answers-IsUsable (suc i) a = (tt, inr (inr (codes "done", refl)))

agent_chat-returns_example :
    (reply : Bytes) × (ag' : Agent Node) × (agent_chat env started hello ≡ some (some reply, ag'))
agent_chat-returns_example =
    agent_chat-returns env started hello (echo-IsComplete, tt) answers-IsUsable
