-- ===== src/Registry/Skills.antt =====
-- framework/registry.py, `SkillRegistry`: the versions of the skills and the default version of each
-- name. The copies the source answers are the values here.
pub mod Defaults
pub mod Versions
pub mod Changes
pub mod Resolution
use agent_task_platform.Prelude.{
  String, Bool, true, false, not, ◌&&◌, ◌||◌, Option, none, some, List, [], ◌∷◌, map, if◌then◌else◌,
  ◌==◌, string_eq, pair_eq, option_eq, contains, keep,
}
use agent_task_platform.Domain.Entities.{Dict, truthy, or_else}
use agent_task_platform.Domain.Catalog.{SkillSpec, AgentSkillRef}
use agent_task_platform.Table.{find, merge, update_where}
use agent_task_platform.World.{dict_get, dict_set, dict_pop}
use agent_task_platform.Registry.{latest}

pub record SkillRegistry : Type 0 where
  pub skills : List SkillSpec
  pub defaults : Dict String

-- `SkillNotFoundError`, `SkillDisabledError` and the `RegistryError` of a skill declared twice.
pub data SkillError : Type 0 where
  not_found disabled duplicate : SkillError

pub data SkillResult {ℓ} (A : Type ℓ) : Type ℓ where
  raised : SkillError → SkillResult A
  answered : A → SkillResult A

abbrev pub skill_key : SkillSpec → String × String
skill_key s = (s.name, s.version)

abbrev pub no_skills : SkillRegistry
no_skills = record { skills = []; defaults = [] }

-- The enabled versions of a name.
unfoldable pub live : String → List SkillSpec → List SkillSpec
live name skills = keep (λ s. s.name == name && s.enabled) skills

abbrev pub is_default : SkillSpec → Dict String → Bool
is_default s defaults = dict_get s.name defaults == some s.version

abbrev pub is_selected : String → Option String → SkillSpec → Bool
is_selected name version s =
    s.name == name && (elim version [ none ↦ true | some v ↦ s.version == v ])

abbrev pub switched_off : SkillSpec → SkillSpec
switched_off s = record s { enabled = false }

-- `self._defaults.get(name) in {item.version for item in changed}`
abbrev pub default_among : Option String → List SkillSpec → Bool
default_among none changed = false
default_among (some v) changed = contains (map (λ s. s.version) changed) v

abbrev pub unless_empty : List SkillSpec → SkillRegistry → SkillResult SkillRegistry
unless_empty [] reg = raised not_found
unless_empty (s ∷ rest) reg = answered reg

abbrev pub or_default : Option String → Option String → Option String
or_default none default = default
or_default (some v) default = some v

-- `get`: an empty version is no version.
unfoldable pub get : String → Option String → SkillRegistry → SkillResult SkillSpec
get name version reg = elim (or_default (truthy version) (dict_get name reg.defaults)) [
  | none ↦ elim (keep (λ s. s.name == name) reg.skills) [
    | [] ↦ raised not_found
    | s ∷ rest ↦ raised disabled
  ]
  | some v ↦ elim (find skill_key (name, v) reg.skills) [
    | none ↦ raised not_found
    | some s ↦ if s.enabled then answered s else raised disabled
  ]
]

abbrev pub get_optional : String → String → SkillRegistry → Option SkillSpec
get_optional name version reg = find skill_key (name, version) reg.skills

abbrev push : SkillSpec → SkillResult (List SkillSpec) → SkillResult (List SkillSpec)
push s (raised e) = raised e
push s (answered rows) = answered (s ∷ rows)

abbrev resolved :
    SkillResult SkillSpec → SkillResult (List SkillSpec) → SkillResult (List SkillSpec)
resolved (raised e) rest = raised e
resolved (answered s) rest = push s rest

-- `resolve_for_agent` from the names already seen
unfoldable pub resolve_from :
    List String → List AgentSkillRef → SkillRegistry → SkillResult (List SkillSpec)
resolve_from seen [] reg = answered []
resolve_from seen (ref ∷ refs) reg =
    if contains seen ref.name
    then raised duplicate
    else resolved (get ref.name ref.version reg) (resolve_from (ref.name ∷ seen) refs reg)

abbrev pub resolve_for_agent : List AgentSkillRef → SkillRegistry → SkillResult (List SkillSpec)
resolve_for_agent refs reg = resolve_from [] refs reg

module _ (newer : String → String → Bool) where
  -- `_select_default`
  unfoldable pub select_default : String → List SkillSpec → Dict String → Dict String
  select_default name skills defaults = elim (latest newer (λ s. s.version) (live name skills)) [
    | none ↦ defaults
    | some s ↦ dict_set name s.version defaults
  ]

  -- `register`
  unfoldable pub register : SkillSpec → Bool → SkillRegistry → SkillRegistry
  register s make_default reg =
      let skills = merge skill_key s reg.skills in
      record {
        skills = skills;
        defaults =
            if s.enabled
            then if make_default
              then dict_set s.name s.version reg.defaults
              else elim (dict_get s.name reg.defaults) [
                | none ↦ select_default s.name skills reg.defaults
                | some v ↦ reg.defaults
              ]
            else if is_default s reg.defaults
            then select_default s.name skills (dict_pop s.name reg.defaults)
            else reg.defaults;
      }

  -- What `disable` and `deregister` do to the defaults once the skills are changed.
  abbrev pub reselected : String → List SkillSpec → List SkillSpec → Dict String → Dict String
  reselected name changed skills defaults =
      if default_among (dict_get name defaults) changed
      then select_default name skills (dict_pop name defaults)
      else defaults

  -- `disable`
  unfoldable pub disable : String → Option String → SkillRegistry → SkillResult SkillRegistry
  disable name version reg =
      let changed = keep (is_selected name version) reg.skills in
      let skills = update_where (is_selected name version) switched_off reg.skills in
      unless_empty changed
        (record { skills = skills; defaults = reselected name changed skills reg.defaults })

  -- `deregister`
  unfoldable pub deregister : String → Option String → SkillRegistry → SkillResult SkillRegistry
  deregister name version reg =
      let removed = keep (is_selected name version) reg.skills in
      let skills = keep (λ t. not (is_selected name version t)) reg.skills in
      unless_empty removed
        (record { skills = skills; defaults = reselected name removed skills reg.defaults })

  abbrev pub register_all : List SkillSpec → SkillRegistry → SkillRegistry
  register_all [] reg = reg
  register_all (s ∷ rest) reg = register_all rest (register s false reg)

  abbrev pub select_all : List SkillSpec → SkillRegistry → SkillRegistry
  select_all [] reg = reg
  select_all (s ∷ rest) reg =
      select_all rest (record reg { defaults = select_default s.name reg.skills reg.defaults })

  -- `__init__`
  abbrev pub of_skills : List SkillSpec → SkillRegistry
  of_skills skills = select_all skills (register_all skills no_skills)
