-- ===== src/ToolRegistry.antt =====
-- agent/tool_registry.c: the table of tools, as the list of those registered.
pub mod Laws
use dobby_ai.Base.{
  ℕ, ◌+◌, Bool, true, false, Option, none, some, List, [], ◌∷◌, ◌++◌, map, Bytes, ltb, leb,
  if◌then◌else◌, length, get_elem?, str_eq,
}
use dobby_ai.Json.{JsonOps}

abbrev pub max_tools : ℕ
max_tools = 64

-- `tool_t`; `E` is the type of the execute function with its user data.
pub record Tool (E : Type 0) : Type 0 where
  pub name : Option Bytes
  pub description : Option Bytes
  pub parameters_schema : Option Bytes
  pub execute : Option E

pub data RegisterResult : Type 0 where
  registered max_tools_reached incomplete_tool : RegisterResult

-- What a search gives: `strcmp` with a null name is a fault of the program.
pub data Lookup (T : Type 0) : Type 0 where
  fault : Lookup T
  missing : Lookup T
  found : T → Lookup T

-- the object of one tool in the array that is sent to the model
pub record ToolEntry (J : Type 0) : Type 0 where
  pub entry_name : Option Bytes
  pub entry_description : Bytes
  pub parameters : Option J

-- strcmp(g_tools[i].name, name) == 0; none where a pointer is null
unfoldable pub name_test : Option Bytes → Option Bytes → Option Bool
name_test (some a) (some b) = some (str_eq a b)
name_test a b = none

abbrev pub text_or_empty : Option Bytes → Bytes
text_or_empty none = []
text_or_empty (some s) = s

module _ {E : Type 0} where
  unfoldable pub tool_registry_init : List (Tool E)
  tool_registry_init = []

  has_both : Option Bytes → Option E → Bool
  has_both (some n) (some e) = true
  has_both n e = false

  unfoldable pub tool_register : List (Tool E) → Tool E → RegisterResult × List (Tool E)
  unfolding has_both
  tool_register tools tool =
      if leb max_tools (length tools)
      then (max_tools_reached, tools)
      else if has_both tool.name tool.execute
      then (registered, tools ++ (tool ∷ []))
      else (incomplete_tool, tools)

  unfoldable pub tool_find : List (Tool E) → Option Bytes → Lookup (Tool E)
  tool_find [] name = missing
  tool_find (t ∷ tools) name =
      let rest = tool_find tools name in
      elim (name_test t.name name) [ none ↦ fault | some b ↦ if b then found t else rest ]

  unfoldable pub tool_count : List (Tool E) → ℕ
  tool_count tools = length tools

  -- The index is not negative here.
  unfoldable pub tool_get : List (Tool E) → ℕ → Option (Tool E)
  tool_get tools i = if leb (length tools) i then none else get_elem? tools i

  unfoldable pub tool_registry_shutdown : List (Tool E) → List (Tool E)
  tool_registry_shutdown tools = []

abbrev pub parse_schema : {J : Type 0} → JsonOps J → Option Bytes → Option J
parse_schema ops none = none
parse_schema ops (some s) = ops.parse s

module _ {J E : Type 0} (ops : JsonOps J) where
  -- the array before it is printed
  unfoldable pub tool_generate_json : List (Tool E) → List (ToolEntry J)
  tool_generate_json [] = []
  tool_generate_json (t ∷ tools) =
      record {
        entry_name = t.name;
        entry_description = text_or_empty t.description;
        parameters = parse_schema ops t.parameters_schema;
      }
      ∷ tool_generate_json tools
