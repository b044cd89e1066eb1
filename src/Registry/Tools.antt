-- ===== src/Registry/Tools.antt =====
-- framework/registry.py, `ToolRegistry`: the tools by their names. The check of arguments and results
-- against a JSON schema is a third-party library's.
pub mod Lookup
use agent_task_platform.Prelude.{
  String, false, Option, none, some, List, [], ◌∷◌, if◌then◌else◌, contains, string_eq,
}
use agent_task_platform.Domain.Entities.{Dict}
use agent_task_platform.Domain.Catalog.{ToolSpec}
use agent_task_platform.World.{dict_get, dict_set, dict_pop}

-- The messages of `RegistryError`.
pub data ToolError : Type 0 where
  unknown_tool tool_is_disabled not_allowed : ToolError

pub data ToolResult {ℓ} (A : Type ℓ) : Type ℓ where
  refused : ToolError → ToolResult A
  answered : A → ToolResult A

-- `__init__`: of two tools of one name the later counts.
abbrev pub of_tools : List ToolSpec → Dict ToolSpec → Dict ToolSpec
of_tools [] tools = tools
of_tools (t ∷ rest) tools = of_tools rest (dict_set t.name t tools)

unfoldable pub get : String → Dict ToolSpec → ToolResult ToolSpec
get name tools = elim (dict_get name tools) [
  | none ↦ refused unknown_tool
  | some t ↦ if t.enabled then answered t else refused tool_is_disabled
]

unfoldable pub register : ToolSpec → Dict ToolSpec → Dict ToolSpec
register t tools = dict_set t.name t tools

unfoldable pub disable : String → Dict ToolSpec → ToolResult (Dict ToolSpec)
disable name tools = elim (dict_get name tools) [
  | none ↦ refused unknown_tool
  | some t ↦ answered (dict_set name (record t { enabled = false }) tools)
]

unfoldable pub deregister : String → Dict ToolSpec → ToolResult (Dict ToolSpec)
deregister name tools = elim (dict_get name tools) [
  | none ↦ refused unknown_tool
  | some t ↦ answered (dict_pop name tools)
]

abbrev pub get_optional : String → Dict ToolSpec → Option ToolSpec
get_optional name tools = dict_get name tools

-- An empty list of agents allows every agent; none is the call that returns.
unfoldable pub validate_allowed : ToolSpec → String → Option ToolError
validate_allowed t agent_name = elim t.allowed_agents [
  | [] ↦ none
  | a ∷ rest ↦ if contains (a ∷ rest) agent_name then none else some not_allowed
]
