-- ===== src/Tests/Registries.antt =====
-- The claims on the registries and on the limits of calls, at concrete agents, skills and calls.
use agent_task_platform.Prelude.{
  ℕ, ◌+◌, ◌*◌, ◌≤◌, ◌<◌, ◌≡◌, ◌≢◌, refl, Bool, true, false, Option, none, some, List, [], ◌∷◌, ◌++◌,
  arith, String, string_eq, pair_eq, ◌==◌, contains, keep, ltb,
}
use agent_task_platform.Domain.Entities.{AgentSpec}
use agent_task_platform.Domain.Catalog.{Rate, SkillSpec}
use agent_task_platform.Table.{find, merge}
use agent_task_platform.World.{dict_get, dict_set}
use agent_task_platform.Registry.{latest}
use agent_task_platform.Registry.Agents
use agent_task_platform.Registry.Agents.{AgentRegistry, agent_key, serves}
use agent_task_platform.Registry.Agents.Routing
use agent_task_platform.Registry.Agents.Routing.{resolve-serves, OfVersion}
use agent_task_platform.Registry.Agents.Defaults.{registered_is_default}
use agent_task_platform.Registry.Skills
use agent_task_platform.Registry.Skills.Resolution
use agent_task_platform.Registry.Skills.Resolution.{get_default, IsAnswer}
use agent_task_platform.Resilience.{BreakerConfig, Turn, state_of, open_until, turn, expire}
use agent_task_platform.Resilience.Breaker.{Event, events, breaker_opens_at_threshold}
use agent_task_platform.Resilience.Window.{within, grants, rate_is_kept}
use agent_task_platform.Resilience.Sleep.{sleeper_gets_slot}
use agent_task_platform.RateLimiter.{
  LimiterSettings, capacity_of, fill_rate_of, ask, take_token, check, spend, refill,
}
use agent_task_platform.Coordination.Limits.{count, remove_one}
use agent_task_platform.RateLimiter.Bound
use agent_task_platform.RateLimiter.Bound.{allowed_is_bounded}
use agent_task_platform.Tests.Data.{writer}

abbrev newer : String → String → Bool
newer a b = ltb 0 0

abbrev editor : AgentSpec
editor = record writer { name = "editor"; route_tags = "edit" ∷ [] }

-- The call in the middle is refused, since there is no such version.
abbrev history : List Routing.Call
history =
    Routing.Call.registered editor true
    ∷ Routing.Call.off "writer" (some "2")
    ∷ Routing.Call.registered writer true
    ∷ []

resolved_writer : Agents.resolve "report" none (Routing.calls newer history) ≡ some writer
unfolding Agents.resolve dict_get Agents.register Agents.conflicts Agents.disable keep merge
    Agents.route_all dict_set find
resolved_writer = refl

resolve-serves_example :
    (find agent_key (agent_key writer) (Routing.calls newer history).agents ≡ some writer)
    × (serves "report" writer ≡ true)
    × OfVersion none writer
resolve-serves_example = resolve-serves newer history "report" none writer resolved_writer

abbrev one_agent : AgentRegistry
one_agent = record { agents = writer ∷ []; routes = ("report", writer) ∷ [] }

abbrev two_agents : AgentRegistry
two_agents = record {
  agents = writer ∷ editor ∷ [];
  routes = ("report", writer) ∷ ("edit", editor) ∷ [];
}

editor_accepted : Agents.register newer editor true one_agent ≡ some two_agents
unfolding Agents.register Agents.conflicts dict_get merge Agents.route_all dict_set find
editor_accepted = refl

registered_is_default_example :
    ((tag : String)
      → contains ("edit" ∷ []) tag ≡ true
      → Agents.resolve tag none two_agents ≡ some editor)
    × ((tag : String) (b : AgentSpec)
        → Agents.resolve tag none one_agent ≡ some b
        → b.name ≢ "editor"
        → Agents.resolve tag none two_agents ≡ some b)
registered_is_default_example =
    registered_is_default newer editor one_agent two_agents editor_accepted refl

abbrev rival : AgentSpec
rival = record writer { name = "rival"; version = "2" }

abbrev second_newer : String → String → Bool
second_newer a b = a == "2"

-- An agent of another name that is registered twice, never as the default, takes over the route tag.
rival_takes_over :
    Agents.resolve "report" none (
      Routing.calls second_newer (
        Routing.Call.registered rival false
        ∷ Routing.Call.registered rival false
        ∷ Routing.Call.registered writer true
        ∷ []))
    ≡ some rival
unfolding Agents.resolve dict_get Agents.register find merge Agents.conflicts Agents.replace_all
    Agents.latest_enabled_for_tag latest keep contains dict_set Agents.without Agents.route_all
rival_takes_over = refl

abbrev skill : String → SkillSpec
skill version = record {
  name = "search";
  version = version;
  description = "";
  source_path = "";
  content_hash = "";
  enabled = true;
  compatibility = none;
  allowed_tools = [];
  scripts = [];
  artifact = [];
  metadata = [];
  owner = none;
  managed_by = "config";
  updated_by = none;
}

abbrev skill_history : List Resolution.Call
skill_history =
    Resolution.Call.off "search" (some "1") ∷ Resolution.Call.registered (skill "2") false ∷ []

get_default_example :
    IsAnswer "search"
      (Resolution.calls newer (skill "1" ∷ []) skill_history).skills
      (Skills.get "search" none (Resolution.calls newer (skill "1" ∷ []) skill_history))
get_default_example = get_default newer (skill "1" ∷ []) skill_history "search"

abbrev config : BreakerConfig
config = record { enabled = none; failure_threshold = some 2; cooldown = some 50 }

abbrev tool_events : List Event
tool_events = Event.failed "mail" 30 ∷ Event.succeeded "print" ∷ Event.failed "mail" 20 ∷ []

breaker_opens_at_threshold_example :
    ((state_of "mail" (events 10 config tool_events)).failures ≡ 2)
    × (open_until "mail" (events 10 config tool_events) ≡ 80)
breaker_opens_at_threshold_example = breaker_opens_at_threshold 10 config tool_events "mail" refl

-- One call in two seconds, and one in each.
abbrev slow : Rate
slow = record { calls = 1; per = 2 }

abbrev once : Rate
once = record { calls = 1; per = 1 }

rates : String → Option Rate
rates name = some slow

abbrev attempts : List (String × ℕ)
attempts = ("mail", 4) ∷ ("mail", 3) ∷ ("print", 2) ∷ ("mail", 7) ∷ []

rate_is_kept_example : within 10 5 (grants 10 rates "mail" attempts) * 2 < 1 + 2
unfolding rates
rate_is_kept_example = rate_is_kept 10 rates "mail" slow attempts 5 (omega arith) refl (omega arith)

slept : turn 10 once 12 (7 ∷ []) ≡ Turn.sleeps 5 (7 ∷ [])
unfolding turn expire
slept = refl

sleeper_gets_slot_example : turn 10 once 17 (7 ∷ []) ≡ Turn.taken (expire 10 17 (7 ∷ []) ++ 17 ∷ [])
sleeper_gets_slot_example =
    sleeper_gets_slot 10 once 12 5 17 (7 ∷ []) (7 ∷ []) (omega arith) (omega arith, tt)
      (omega arith) slept (omega arith)

abbrev limiter_settings : LimiterSettings
limiter_settings = record {
  enabled = true;
  callers = ("desk", record { capacity = some 2; fill_rate = some 1 }) ∷ [];
  default = record { capacity = none; fill_rate = none };
}

-- The second comparison of the desk comes before the subtraction of the first.
abbrev limited_calls : List Bound.Event
limited_calls =
    Bound.takes "desk"
    ∷ Bound.takes "desk"
    ∷ Bound.asks "desk" 0
    ∷ Bound.asks "lab" 1
    ∷ Bound.asks "desk" 4
    ∷ []

limited_calls-Overlap : Bound.Overlap 10 limiter_settings "desk" 2 limited_calls
unfolding Bound.Overlap Bound.after Bound.step ask take_token check spend refill count remove_one
    dict_get dict_set
limited_calls-Overlap =
    (omega arith, (omega arith, (omega arith, (omega arith, (omega arith, tt)))))

allowed_is_bounded_example :
    Bound.allowed 10 limiter_settings "desk" limited_calls * 10 + 10
    ≤ capacity_of "desk" limiter_settings * 10
      + Bound.reading 10 limiter_settings limited_calls * fill_rate_of "desk" limiter_settings
      + 2 * 10
allowed_is_bounded_example =
    allowed_is_bounded 10 limiter_settings "desk" 2 limited_calls (omega arith)
      limited_calls-Overlap
