-- ===== src/Registry/Tools/Lookup.antt =====
-- framework/registry.py, `ToolRegistry`: what `get` answers after each call that changes the registry.
use mathlib.Core.Option
use agent_task_platform.Prelude.{
  String, ◌≡◌, refl, sym, ap, ◌∙◌, false, Option, none, some, if◌then◌else◌, ◌==◌, string_eq, inl,
  inr, Option-cases, List, [], ◌∷◌, ◌++◌, map, eq_iff, Bool-cases,
}
use agent_task_platform.Domain.Entities.{Dict}
use agent_task_platform.Domain.Catalog.{ToolSpec}
use agent_task_platform.World.{dict_get, dict_set}
use agent_task_platform.World.Dicts.{dict_get-dict_set, dict_get-dict_pop}
use agent_task_platform.Registry.Tools.{
  of_tools, ToolResult, answered, refused, unknown_tool, tool_is_disabled, get, register, disable,
  deregister,
}

-- The answer for the tool that is stored under a name.
abbrev pub judged : Option ToolSpec → ToolResult ToolSpec
judged none = refused unknown_tool
judged (some t) = if t.enabled then answered t else refused tool_is_disabled

get-judged : (name : String) (tools : Dict ToolSpec) → get name tools ≡ judged (dict_get name tools)
unfolding get
get-judged name tools = elim (Option-cases (dict_get name tools)) [
  | inl e ↦ rw (get, e) refl
  | inr (t, e) ↦ rw (get, e) refl
]

-- A call that changes the registry.
pub data Change : Type 0 where
  registers : ToolSpec → Change
  disables deregisters : String → Change

-- A call that is refused leaves the registry as it was.
abbrev kept_or : Dict ToolSpec → ToolResult (Dict ToolSpec) → Dict ToolSpec
kept_or tools (answered tools') = tools'
kept_or tools (refused e) = tools

abbrev pub change : Change → Dict ToolSpec → Dict ToolSpec
change (registers t) tools = register t tools
change (disables name) tools = kept_or tools (disable name tools)
change (deregisters name) tools = kept_or tools (deregister name tools)

abbrev pub change_all : List Change → Dict ToolSpec → Dict ToolSpec
change_all [] tools = tools
change_all (c ∷ cs) tools = change_all cs (change c tools)

abbrev off : ToolSpec → ToolSpec
off t = record t { enabled = false }

-- The tool that a name stands for after one more call: the one that the call registers under it; the
-- same one, not enabled, when the call disables the name; none when it deregisters it; and the one
-- before the call when the call is about another name.
abbrev standing : String → Change → Option ToolSpec → Option ToolSpec
standing name (registers t) before = if t.name == name then some t else before
standing name (disables other) before = if other == name then Option.map off before else before
standing name (deregisters other) before = if other == name then none else before

abbrev pub standing_all : String → List Change → Option ToolSpec → Option ToolSpec
standing_all name [] before = before
standing_all name (c ∷ cs) before = standing_all name cs (standing name c before)

-- What is said of the name of a call is said of any name equal to it.
at_name :
    (other name : String) (g : Option ToolSpec → Option ToolSpec) (tools : Dict ToolSpec)
    → (if other == name then g (dict_get other tools) else dict_get name tools)
      ≡ (if other == name then g (dict_get name tools) else dict_get name tools)
at_name other name g tools = elim (Bool-cases (other == name)) [
  | inl same ↦
      let key : other ≡ name = (eq_iff other name).0 same in
      rw same (ap (λ k. g (dict_get k tools)) key)
  | inr differs' ↦ rw differs' refl
]

refused_call :
    (other name : String) (tools : Dict ToolSpec)
    → dict_get other tools ≡ none
    → dict_get name tools ≡ (if other == name then none else dict_get name tools)
refused_call other name tools e = elim (Bool-cases (other == name)) [
  | inl same ↦ rw same (ap (λ k. dict_get k tools) (sym ((eq_iff other name).0 same)) ∙ e)
  | inr differs' ↦ rw differs' refl
]

change-standing :
    (name : String) (c : Change) (tools : Dict ToolSpec)
    → dict_get name (change c tools) ≡ standing name c (dict_get name tools)
unfolding register disable deregister dict_get
change-standing name (registers t) tools = dict_get-dict_set t.name name t tools
change-standing name (disables other) tools =
    (elim (Option-cases (dict_get other tools))
      as (λ _.
        dict_get name (kept_or tools (disable other tools))
        ≡ (if other == name then Option.map off (dict_get other tools) else dict_get name tools)) [
          | inl e ↦ rw (e, disable) (refused_call other name tools e)
          | inr (t, e) ↦ rw (e, disable) (dict_get-dict_set other name (off t) tools)
        ])
    ∙ at_name other name (Option.map off) tools
change-standing name (deregisters other) tools = elim (Option-cases (dict_get other tools)) [
  | inl e ↦ rw (e, deregister) (refused_call other name tools e)
  | inr (t, e) ↦ rw (e, deregister) (dict_get-dict_pop other name tools)
]

change_all-standing :
    (name : String) (cs : List Change) (tools : Dict ToolSpec)
    → dict_get name (change_all cs tools) ≡ standing_all name cs (dict_get name tools)
change_all-standing name [] tools = refl
change_all-standing name (c ∷ cs) tools =
    change_all-standing name cs (change c tools)
    ∙ ap (standing_all name cs) (change-standing name c tools)

given-standing :
    (name : String) (given : List ToolSpec) (cs : List Change) (tools : Dict ToolSpec)
    → standing_all name cs (dict_get name (of_tools given tools))
      ≡ standing_all name (map registers given ++ cs) (dict_get name tools)
given-standing name [] cs tools = refl
given-standing name (t ∷ ts) cs tools =
    given-standing name ts cs (dict_set t.name t tools)
    ∙ ap (standing_all name (map registers ts ++ cs)) (dict_get-dict_set t.name name t tools)

-- What `get` answers for a name in a registry that was made from a list of tools, after any calls
-- that register, disable and deregister tools: the tool that was registered last under the name, in
-- the constructor or by a call; that it is disabled if it is not enabled or was disabled since; that it
-- is unknown if there is none or it was deregistered since. Calls about other names and calls that are
-- refused make no difference.
pub get_after_change :
    (name : String) (given : List ToolSpec) (calls : List Change)
    → get name (change_all calls (of_tools given []))
      ≡ judged (standing_all name (map registers given ++ calls) none)
get_after_change name given calls =
    get-judged name (change_all calls (of_tools given []))
    ∙ ap judged (change_all-standing name calls (of_tools given []))
    ∙ ap judged (given-standing name given calls [] ∙ unfold dict_get in refl)
