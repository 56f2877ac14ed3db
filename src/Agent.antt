-- ===== src/Agent.antt =====
-- agent/agent.c: the conversation history of an agent. The message array is the list of the
-- messages in it, at most 128; the tool calls of a message are the elements of the array that the
-- model sent.
pub mod Think
pub mod Wire
pub mod Chat
pub mod Bounds
pub mod Induct
pub mod Turn
pub mod Compact
pub mod Calls
pub mod Rollback
pub mod Total
use dobby_ai.Base.{
  ℕ, zero, suc, ◌+◌, ◌-◌, ◌/◌, Bool, true, false, ◌&&◌, Option, none, some, List, [], ◌∷◌, ◌++◌,
  Bytes, codes, ltb, leb, if◌then◌else◌, length, get_or, take, drop, is_empty, str_eq,
}

abbrev pub max_messages_cap : ℕ
max_messages_cap = 128

abbrev pub default_max_iterations : ℕ
default_max_iterations = 10

abbrev pub max_system_parts : ℕ
max_system_parts = 16

-- `message_t`
pub record Message (J : Type 0) : Type 0 where
  pub role : Bytes
  pub content : Bytes
  pub tool_call_id : Option Bytes
  pub name : Option Bytes
  pub tool_calls : Option (List J)

-- `agent_t`, without the callbacks
pub record Agent (J : Type 0) : Type 0 where
  pub messages : List (Message J)
  pub max_iterations : ℕ
  pub max_messages : ℕ
  pub system_parts : List Bytes

abbrev pub or_empty : Option Bytes → Bytes
or_empty none = []
or_empty (some s) = s

-- the text of all parts, each with a blank line behind it
unfoldable pub build_system_prompt : List Bytes → Bytes
build_system_prompt [] = []
build_system_prompt (p ∷ parts) = p ++ (codes "\n\n" ++ build_system_prompt parts)

module _ {J : Type 0} where
  unfoldable pub agent_create : Agent J
  agent_create = record {
    messages = [];
    max_iterations = default_max_iterations;
    max_messages = 0;
    system_parts = [];
  }

  -- what stands at an index that no message has
  abbrev pub no_message : Message J
  no_message = record {
    role = [];
    content = [];
    tool_call_id = none;
    name = none;
    tool_calls = none;
  }

  unfoldable pub agent_add_system_part : Agent J → Bytes → Agent J
  agent_add_system_part ag part =
      if leb max_system_parts (length ag.system_parts)
      then ag
      else record ag { system_parts = ag.system_parts ++ (part ∷ []) }

  unfoldable pub agent_new_conversation : Agent J → Agent J
  agent_new_conversation ag = record ag { messages = [] }

  unfoldable pub agent_message_count : Agent J → ℕ
  agent_message_count ag = length ag.messages

  abbrev pub nonempty_calls : Option (List J) → Bool
  nonempty_calls none = false
  nonempty_calls (some []) = false
  nonempty_calls (some (c ∷ cs)) = true

  abbrev pub message_has_tool_calls : Message J → Bool
  message_has_tool_calls m = nonempty_calls m.tool_calls

  -- the number of messages at which the history is compacted
  unfoldable pub limit : Agent J → ℕ
  limit ag =
      if ltb 0 ag.max_messages && leb ag.max_messages max_messages_cap
      then ag.max_messages
      else max_messages_cap

  -- the end of the cut before the walk back: the oldest quarter behind the system message
  unfoldable pub cut_start : Agent J → ℕ
  cut_start ag =
      let quarter = limit ag / 4 in
      let cut_end = 1 + (if ltb quarter 1 then 1 else quarter) in
      if ltb (length ag.messages) cut_end then length ag.messages else cut_end

  -- while (cut_end > keep + 1 && message_has_tool_calls(&messages[cut_end - 1])) cut_end--;
  unfoldable pub walk_back : List (Message J) → ℕ → ℕ
  walk_back ms zero = zero
  walk_back ms (suc c) =
      if ltb 2 (suc c) && message_has_tool_calls (get_or ms c no_message)
      then walk_back ms c
      else suc c

  unfoldable pub agent_compact_history : Agent J → Agent J
  agent_compact_history ag =
      let cut_end = walk_back ag.messages (cut_start ag) in
      if leb cut_end 1
      then ag
      else record ag { messages = take 1 ag.messages ++ drop cut_end ag.messages }

  unfoldable pub agent_add_message : Agent J → Message J → Agent J
  agent_add_message ag m =
      let ag' = if leb (limit ag) (length ag.messages) then agent_compact_history ag else ag in
      record ag' { messages = ag'.messages ++ (m ∷ []) }

  -- messages[--message_count] is freed
  unfoldable pub agent_pop_last_message : List (Message J) → List (Message J)
  agent_pop_last_message [] = []
  agent_pop_last_message (m ∷ []) = []
  agent_pop_last_message (m ∷ n ∷ ms) = m ∷ agent_pop_last_message (n ∷ ms)

  -- while (message_count > pre_turn_count) agent_pop_last_message(agent);  as many rounds as there
  -- are messages are enough.
  unfoldable pub pop_to : ℕ → ℕ → List (Message J) → List (Message J)
  pop_to zero pre ms = ms
  pop_to (suc f) pre ms =
      let rest = pop_to f pre (agent_pop_last_message ms) in
      if ltb pre (length ms) then rest else ms

  unfoldable pub roll_back : ℕ → Agent J → Agent J
  roll_back pre ag = record ag { messages = pop_to (length ag.messages) pre ag.messages }
