-- ===== src/Registry/Agents.antt =====
-- framework/registry.py, `AgentRegistry`. The agents are in the order of their first registration. A
-- route holds the agent itself: an agent that is disabled loses its routes in the same call.
pub mod Routes
pub mod Changes
pub mod Registering
pub mod Routing
pub mod Defaults
use agent_task_platform.Prelude.{
  String, Bool, true, false, not, ◌&&◌, ◌||◌, Option, none, some, List, [], ◌∷◌, if◌then◌else◌,
  ◌==◌, string_eq, pair_eq, contains, keep,
}
use agent_task_platform.Domain.Entities.{AgentSpec, Dict, truthy}
use agent_task_platform.Table.{find, merge, update_where}
use agent_task_platform.World.{dict_get, dict_set, dict_pop}
use agent_task_platform.Registry.{latest}

pub record AgentRegistry : Type 0 where
  pub agents : List AgentSpec
  pub routes : Dict AgentSpec

abbrev pub agent_key : AgentSpec → String × String
agent_key a = (a.name, a.version)

abbrev pub empty : AgentRegistry
empty = record { agents = []; routes = [] }

abbrev pub serves : String → AgentSpec → Bool
serves tag a = a.enabled && contains a.route_tags tag

abbrev pub routed_elsewhere : String → Option AgentSpec → Bool
routed_elsewhere name none = false
routed_elsewhere name (some existing) = not (existing.name == name)

-- A route tag of this agent is routed to an agent of another name.
unfoldable pub conflicts : String → List String → Dict AgentSpec → Bool
conflicts name [] routes = false
conflicts name (tag ∷ tags) routes =
    routed_elsewhere name (dict_get tag routes) || conflicts name tags routes

unfoldable pub without : String × String → Dict AgentSpec → Dict AgentSpec
without key routes = keep (λ p. not (agent_key p.1 == key)) routes

unfoldable pub route_all : AgentSpec → List String → Dict AgentSpec → Dict AgentSpec
route_all a [] routes = routes
route_all a (tag ∷ tags) routes = route_all a tags (dict_set tag a routes)

abbrev pub replaced : String → Option AgentSpec → Dict AgentSpec → Dict AgentSpec
replaced tag none routes = routes
replaced tag (some a) routes = dict_set tag a routes

abbrev pub matches : String → Option String → AgentSpec → Bool
matches name version a = a.name == name && (elim version [ none ↦ true | some v ↦ a.version == v ])

abbrev pub disabled : AgentSpec → AgentSpec
disabled a = record a { enabled = false }

abbrev pub each :
    (AgentSpec → AgentRegistry → AgentRegistry) → List AgentSpec → AgentRegistry → AgentRegistry
each step [] reg = reg
each step (a ∷ rows) reg = each step rows (step a reg)

abbrev pub unless_empty : List AgentSpec → AgentRegistry → Option AgentRegistry
unless_empty [] reg = none
unless_empty (a ∷ rows) reg = some reg

abbrev pub or_all : List AgentSpec → List AgentSpec → List AgentSpec
or_all [] all = all
or_all (a ∷ rows) all = a ∷ rows

abbrev pub first : List AgentSpec → Option AgentSpec
first [] = none
first (a ∷ rows) = some a

-- `resolve`; none is the `RegistryError`.
unfoldable pub resolve : String → Option String → AgentRegistry → Option AgentSpec
resolve tag version reg = elim (truthy version) [
  | some v ↦
      first (keep (λ a. contains a.route_tags tag && (a.version == v && a.enabled)) reg.agents)
  | none ↦ dict_get tag reg.routes
]

abbrev pub get_optional : String → String → AgentRegistry → Option AgentSpec
get_optional name version reg = find agent_key (name, version) reg.agents

-- The routes of an agent that is registered again are popped.
abbrev pub popped : Option AgentSpec → String × String → Dict AgentSpec → Dict AgentSpec
popped none key routes = routes
popped (some previous) key routes = without key routes

module _ (newer : String → String → Bool) where
  -- `_latest_enabled_for_tag`
  unfoldable pub latest_enabled_for_tag : String → List AgentSpec → Option AgentSpec
  latest_enabled_for_tag tag agents = latest newer (λ a. a.version) (keep (serves tag) agents)

  unfoldable pub replace_all : List AgentSpec → List String → Dict AgentSpec → Dict AgentSpec
  replace_all agents [] routes = routes
  replace_all agents (tag ∷ tags) routes =
      replace_all agents tags (replaced tag (latest_enabled_for_tag tag agents) routes)

  abbrev pub refilled : List AgentSpec → Option AgentSpec → Dict AgentSpec → Dict AgentSpec
  refilled agents none routes = routes
  refilled agents (some previous) routes = replace_all agents previous.route_tags routes

  -- `register`; none is the `RegistryError`.
  unfoldable pub register : AgentSpec → Bool → AgentRegistry → Option AgentRegistry
  register a make_default reg =
      if (a.enabled && make_default) && conflicts a.name a.route_tags reg.routes
      then none
      else let previous : Option AgentSpec = find agent_key (agent_key a) reg.agents in
        let agents = merge agent_key a reg.agents in
        let routes = popped previous (agent_key a) reg.routes in
        some (record {
          agents = agents;
          routes =
              if a.enabled && make_default
              then route_all a a.route_tags routes
              else refilled agents previous routes;
        })

  -- The routes of the agent with this key, each popped and replaced, in the loops of `disable` and
  -- `deregister`.
  unfoldable pub reroute :
      String × String → List AgentSpec → Dict AgentSpec → Dict AgentSpec → Dict AgentSpec
  reroute key agents [] routes = routes
  reroute key agents ((tag, a) ∷ snapshot) routes = reroute key agents snapshot (
      if agent_key a == key
      then replaced tag (latest_enabled_for_tag tag agents) (dict_pop tag routes)
      else routes)

  abbrev pub disable_one : AgentSpec → AgentRegistry → AgentRegistry
  disable_one a reg =
      let agents = update_where (λ b. agent_key b == agent_key a) disabled reg.agents in
      record { agents = agents; routes = reroute (agent_key a) agents reg.routes reg.routes }

  abbrev pub remove_one : AgentSpec → AgentRegistry → AgentRegistry
  remove_one a reg =
      let agents = keep (λ b. not (agent_key b == agent_key a)) reg.agents in
      record { agents = agents; routes = reroute (agent_key a) agents reg.routes reg.routes }

  -- `disable`: an empty version is no version.
  unfoldable pub disable : String → Option String → AgentRegistry → Option AgentRegistry
  disable name version reg =
      let changed = keep (matches name (truthy version)) reg.agents in
      unless_empty changed (each disable_one changed reg)

  unfoldable pub deregister : String → Option String → AgentRegistry → Option AgentRegistry
  deregister name version reg =
      let removed = keep (matches name version) reg.agents in
      unless_empty removed (each remove_one removed reg)

  -- `get`: the newest, of the enabled ones if there are any.
  unfoldable pub get : String → Option String → AgentRegistry → Option AgentSpec
  get name version reg =
      let found = keep (matches name (truthy version)) reg.agents in
      latest newer (λ a. a.version) (or_all (keep (λ a. a.enabled) found) found)

  unfoldable pub set_default : String → String → AgentRegistry → Option AgentRegistry
  set_default name version reg = elim (get name (some version) reg) [
    | none ↦ none
    | some a ↦
        if not a.enabled || conflicts a.name a.route_tags reg.routes
        then none
        else some (record reg { routes = route_all a a.route_tags reg.routes })
  ]
