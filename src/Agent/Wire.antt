-- ===== src/Agent/Wire.antt =====
-- agent/agent.c, build_messages_json: the history in the form that the provider expects, as the
-- values of the fields before they are printed.
pub mod Exchange
pub mod Round
use dobby_ai.Base.{
  Bool, true, false, ◌&&◌, Option, none, some, List, [], ◌∷◌, Bytes, codes, if◌then◌else◌, is_empty,
  str_eq,
}
use dobby_ai.Json.{JsonOps, get_object_item, get_string_value}
use dobby_ai.Agent.{Message, nonempty_calls}

-- the flags of `msg_format_t` that build_messages_json reads
pub record MsgFormat : Type 0 where
  pub tool_result_include_name : Bool
  pub assistant_tool_call_empty_content : Bool
  pub tool_args_as_object : Bool

pub data WireArgs (J : Type 0) : Type 0 where
  text : Bytes → WireArgs J
  object : J → WireArgs J

pub record WireCall (J : Type 0) : Type 0 where
  pub call_id : Option Bytes
  pub function_name : Option Bytes
  pub arguments : WireArgs J

-- A field that is left out is `none`.
pub record WireMessage (J : Type 0) : Type 0 where
  pub role : Bytes
  pub content : Option Bytes
  pub tool_call_id : Option Bytes
  pub name : Option Bytes
  pub tool_calls : Option (List (WireCall J))

module _ {J : Type 0} (ops : JsonOps J) (fmt : MsgFormat) where
  abbrev pub or_object : Option J → J
  or_object none = ops.empty_object
  or_object (some j) = j

  abbrev pub or_braces : Option Bytes → Bytes
  or_braces none = codes "{}"
  or_braces (some s) = s

  -- an object for a provider that wants one: a stored text is decoded, another node is copied
  unfoldable pub args_object : Option J → J
  args_object none = ops.empty_object
  args_object (some j) = elim (ops.get_string j) [ none ↦ j | some s ↦ or_object (ops.parse s) ]

  -- a text for the others: another node is printed
  unfoldable pub args_text : Option J → Bytes
  args_text none = codes "{}"
  args_text (some j) = elim (ops.get_string j) [ none ↦ or_braces (ops.print j) | some s ↦ s ]

  unfoldable pub wire_call : J → J → WireCall J
  wire_call tc func =
      let args = ops.get_item (codes "arguments") func in
      record {
        call_id = get_string_value ops (ops.get_item (codes "id") tc);
        function_name = get_string_value ops (ops.get_item (codes "name") func);
        arguments =
            if fmt.tool_args_as_object then object (args_object args) else text (args_text args);
      }

  -- a call with no function is left out
  unfoldable pub wire_calls : List J → List (WireCall J)
  wire_calls [] = []
  wire_calls (tc ∷ calls) =
      let rest = wire_calls calls in
      elim (ops.get_item (codes "function") tc) [
        | none ↦ rest
        | some func ↦ wire_call tc func ∷ rest
      ]

  unfoldable pub is_assistant_tool_only : Message J → Bool
  is_assistant_tool_only m =
      str_eq m.role (codes "assistant") && (nonempty_calls m.tool_calls && is_empty m.content)

  unfoldable pub wire_message : Message J → WireMessage J
  wire_message m =
      let is_tool = str_eq m.role (codes "tool") in
      record {
        role = m.role;
        content =
            if is_assistant_tool_only m
            then (if fmt.assistant_tool_call_empty_content then some [] else none)
            else some m.content;
        tool_call_id = if is_tool then m.tool_call_id else none;
        name = if is_tool && fmt.tool_result_include_name then m.name else none;
        tool_calls = elim m.tool_calls [ none ↦ none | some calls ↦ some (wire_calls calls) ];
      }

  unfoldable pub build_messages_json : List (Message J) → List (WireMessage J)
  build_messages_json [] = []
  build_messages_json (m ∷ ms) = wire_message m ∷ build_messages_json ms
