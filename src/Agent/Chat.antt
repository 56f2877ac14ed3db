-- ===== src/Agent/Chat.antt =====
-- agent/agent.c, agent_chat: the loop that calls the model, runs the tools that it asks for, and
-- returns its final text. The provider and the tools answer through arguments; the status callback
-- and the log are left out. `none` is a fault of the program: a null name that is compared, or, in a
-- build where strdup takes no null pointer, a null text that is copied.
use dobby_ai.Base.{
  Bool, ℕ, zero, suc, ◌+◌, Option, none, some, List, [], ◌∷◌, Bytes, codes, if◌then◌else◌, length,
  is_empty, str_eq,
}
use dobby_ai.Json.{JsonOps, get_object_item, get_string_value}
use dobby_ai.ToolRegistry.{Tool, fault, missing, found, tool_find}
use dobby_ai.Agent.{
  Message, Agent, or_empty, build_system_prompt, nonempty_calls, agent_add_message, roll_back,
}
use dobby_ai.Agent.Think.{strip_think_tags}
use dobby_ai.Agent.Wire.{MsgFormat, WireMessage, build_messages_json}

-- `llm_response_t`, without the token counts
pub record LlmResponse (J : Type 0) : Type 0 where
  pub content : Option Bytes
  pub tool_calls : Option (List J)
  pub error : Option Bytes

-- What a turn talks to: the JSON library, the provider (with the number of the request), the
-- registered tools, what a tool's function returns (with the number of messages so far, since
-- tools may keep state), and whether the build takes the argument of strdup for nonnull.
pub record Env (J E : Type 0) : Type 0 where
  pub ops : JsonOps J
  pub fmt : MsgFormat
  pub chat_complete : ℕ → List (WireMessage J) → LlmResponse J
  pub tools : List (Tool E)
  pub run_tool : ℕ → Tool E → J → Option Bytes
  pub is_strdup_nonnull : Bool

abbrev pub unknown_tool : Bytes
unknown_tool = codes "{\"error\": \"Unknown tool\"}"

abbrev pub empty_message_error : Bytes
empty_message_error = codes "[Error: empty message]"

abbrev pub max_iterations_error : Bytes
max_iterations_error = codes "[Dobby: max tool iterations reached. Please try again.]"

abbrev pub call_list : {J : Type 0} → Option (List J) → List J
call_list none = []
call_list (some calls) = calls

module _ {J : Type 0} where
  abbrev pub plain_message : Bytes → Option Bytes → Message J
  plain_message role content = record {
    role = role;
    content = or_empty content;
    tool_call_id = none;
    name = none;
    tool_calls = none;
  }

  abbrev pub tool_message : Option Bytes → Option Bytes → Option Bytes → Message J
  tool_message result call_id name = record {
    role = codes "tool";
    content = or_empty result;
    tool_call_id = call_id;
    name = name;
    tool_calls = none;
  }

module _ {J E : Type 0} (env : Env J E) where
  -- the text of the arguments, decoded; the empty object stands for what is missing or malformed
  unfoldable pub parse_text_arguments : Bytes → J
  parse_text_arguments s =
      if is_empty s
      then env.ops.empty_object
      else if str_eq s (codes "{}")
      then env.ops.empty_object
      else elim (env.ops.parse s) [ none ↦ env.ops.empty_object | some j ↦ j ]

  unfoldable pub parse_tool_arguments : Option J → J
  parse_tool_arguments func = elim (get_object_item env.ops func (codes "arguments")) [
    | none ↦ env.ops.empty_object
    | some args ↦ elim (env.ops.get_string args) [ none ↦ args | some s ↦ parse_text_arguments s ]
  ]

  -- what the tool of a call returns
  unfoldable pub call_result : ℕ → Option Bytes → Option J → Option (Option Bytes)
  call_result n tool_name func = elim (tool_find env.tools tool_name) [
    | fault ↦ none
    | missing ↦ some (some unknown_tool)
    | found tool ↦ some (env.run_tool n tool (parse_tool_arguments func))
  ]

  -- one round of the loop over the tool calls
  unfoldable pub run_call : Agent J → J → Option (Agent J)
  run_call ag tc =
      let func = env.ops.get_item (codes "function") tc in
      let tool_name = get_string_value env.ops (get_object_item env.ops func (codes "name")) in
      let call_id = get_string_value env.ops (env.ops.get_item (codes "id") tc) in
      elim (call_result (length ag.messages) tool_name func) [
        | none ↦ none
        | some result ↦ some (agent_add_message ag (tool_message result call_id tool_name))
      ]

  unfoldable pub run_calls : Agent J → List J → Option (Agent J)
  run_calls ag [] = some ag
  run_calls ag (tc ∷ calls) = elim (run_call ag tc) [ none ↦ none | some ag' ↦ run_calls ag' calls ]

  abbrev pub assistant_message : LlmResponse J → Option (List J) → Message J
  assistant_message resp calls =
      record (plain_message (codes "assistant") (strip_think_tags resp.content)) {
        tool_calls = calls;
      }

  -- strdup of the cleaned text, which is a null pointer where an answer has neither a text nor tool
  -- calls. The strdup of src/core/types.c answers null for null as it is written; gcc leaves its test out
  -- when it optimises and strdup is declared nonnull, and then the copy is a fault. The flag
  -- `is_strdup_nonnull` says which of the two the build has.
  abbrev pub final_answer : Agent J → LlmResponse J → Option Bytes → Option (Option Bytes × Agent J)
  final_answer ag resp none =
      if env.is_strdup_nonnull
      then none
      else some (none, agent_add_message ag (assistant_message resp none))
  final_answer ag resp (some clean) =
      some (some clean, agent_add_message ag (assistant_message resp none))

  -- The loop with `n` iterations left, at iteration `iter`.
  unfoldable pub chat_loop : ℕ → ℕ → ℕ → Agent J → Option (Option Bytes × Agent J)
  chat_loop zero iter pre ag = some (some max_iterations_error, roll_back pre ag)
  chat_loop (suc n) iter pre ag =
      let resp = env.chat_complete iter (build_messages_json env.ops env.fmt ag.messages) in
      elim resp.error [
        | some e ↦ some (some e, roll_back pre ag)
        | none ↦
            let more : Option (Option Bytes × Agent J) =
              elim (run_calls (agent_add_message ag (assistant_message resp resp.tool_calls))
                (call_list resp.tool_calls)) [
                  | none ↦ none
                  | some ag' ↦ chat_loop n (iter + 1) pre ag'
                ] in
            if nonempty_calls resp.tool_calls
            then more
            else final_answer ag resp (strip_think_tags resp.content)
      ]

  -- the system message is put first when the history is empty
  unfoldable pub ensure_system : Agent J → Agent J
  ensure_system ag =
      if is_empty ag.messages
      then agent_add_message ag
          (plain_message (codes "system") (some (build_system_prompt ag.system_parts)))
      else ag

  -- `pre_turn_count` is taken behind the system message.
  unfoldable pub chat_turn : Agent J → Bytes → Option (Option Bytes × Agent J)
  chat_turn ag user_message =
      let ag' = ensure_system ag in
      chat_loop ag'.max_iterations 0 (length ag'.messages)
        (agent_add_message ag' (plain_message (codes "user") (some user_message)))

  unfoldable pub agent_chat : Agent J → Option Bytes → Option (Option Bytes × Agent J)
  agent_chat ag none = some (some empty_message_error, ag)
  agent_chat ag (some user_message) =
      if is_empty user_message
      then some (some empty_message_error, ag)
      else chat_turn ag user_message
