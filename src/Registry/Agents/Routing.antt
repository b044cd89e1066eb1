-- ===== src/Registry/Agents/Routing.antt =====
-- framework/registry.py, `AgentRegistry`: the routes that every sequence of calls leaves, and what
-- `resolve` answers from them.
use agent_task_platform.Prelude.{
  String, ◌≡◌, refl, Bool, true, ◌&&◌, Option, none, some, List, [], ◌∷◌, arith, ◌==◌, string_eq,
  pair_eq, contains, keep, All, All-map, All-keep, inl, inr, Option-cases,
}
use agent_task_platform.Domain.Entities.{AgentSpec, truthy}
use agent_task_platform.Table.{find}
use agent_task_platform.Table.Keys.{Unique-self}
use agent_task_platform.World.{dict_get}
use agent_task_platform.Registry.Agents.{
  AgentRegistry, agent_key, serves, empty, register, disable, deregister, set_default, resolve,
  first, disable_one, remove_one, each, unless_empty, matches,
}
use agent_task_platform.Registry.Agents.Routes.{IsServing, dict_get-All}
use agent_task_platform.Registry.Agents.Changes.{
  IsRouted, or_same, disable_one-IsRouted, remove_one-IsRouted,
}
use agent_task_platform.Registry.Agents.Registering.{register-IsRouted, set_default-IsRouted}

-- The calls that change a registry.
pub data Call : Type 0 where
  registered : AgentSpec → Bool → Call
  off : String → Option String → Call
  dropped : String → Option String → Call
  preferred : String → String → Call

module _ (newer : String → String → Bool) where
  -- A call that raises leaves the registry as it was.
  abbrev call : Call → AgentRegistry → AgentRegistry
  call (registered a make_default) reg = or_same (register newer a make_default reg) reg
  call (off name version) reg = or_same (disable newer name version reg) reg
  call (dropped name version) reg = or_same (deregister newer name version reg) reg
  call (preferred name version) reg = or_same (set_default newer name version reg) reg

  abbrev pub calls : List Call → AgentRegistry
  calls [] = empty
  calls (c ∷ earlier) = call c (calls earlier)

  each-IsRouted :
      (step : AgentSpec → AgentRegistry → AgentRegistry)
      → ((a : AgentSpec) (reg : AgentRegistry) → IsRouted reg → IsRouted (step a reg))
      → (rows : List AgentSpec) (reg : AgentRegistry) → IsRouted reg
      → IsRouted (each step rows reg)
  each-IsRouted step keeps [] reg h = h
  each-IsRouted step keeps (a ∷ rows) reg h =
      each-IsRouted step keeps rows (step a reg) (keeps a reg h)

  unless_empty-IsRouted :
      (rows : List AgentSpec) (reg reg' : AgentRegistry)
      → IsRouted reg
      → IsRouted reg'
      → IsRouted (or_same (unless_empty rows reg') reg)
  unless_empty-IsRouted [] reg reg' h h' = h
  unless_empty-IsRouted (a ∷ rows) reg reg' h h' = h'

  call-IsRouted : (c : Call) (reg : AgentRegistry) → IsRouted reg → IsRouted (call c reg)
  unfolding disable deregister
  call-IsRouted (registered a make_default) reg h = register-IsRouted newer a make_default reg h
  call-IsRouted (off name version) reg h =
      let rows = keep (matches name (truthy version)) reg.agents in
      unless_empty-IsRouted rows reg (each (disable_one newer) rows reg) h
        (each-IsRouted (disable_one newer) (disable_one-IsRouted newer) rows reg h)
  call-IsRouted (dropped name version) reg h =
      let rows = keep (matches name version) reg.agents in
      unless_empty-IsRouted rows reg (each (remove_one newer) rows reg) h
        (each-IsRouted (remove_one newer) (remove_one-IsRouted newer) rows reg h)
  call-IsRouted (preferred name version) reg h = set_default-IsRouted newer name version reg h

  calls-IsRouted : (history : List Call) → IsRouted (calls history)
  calls-IsRouted [] = (tt, tt)
  calls-IsRouted (c ∷ earlier) = call-IsRouted c (calls earlier) (calls-IsRouted earlier)

-- The version asked for, if one was.
abbrev pub OfVersion : Option String → AgentSpec → Type 0
OfVersion none a = Unit
OfVersion (some v) a = a.version ≡ v

first-All {κ} :
    (P : AgentSpec → Type κ) (rows : List AgentSpec) (a : AgentSpec)
    → All P rows
    → first rows ≡ some a
    → P a
first-All P [] a all h = cc
first-All P (x ∷ rows) a all h = let same : x ≡ a = cc in rw (← same) all.0

-- After any sequence of calls, whichever of them were refused, an agent that `resolve` answers for a
-- route tag is the one registered under its name and version, it is enabled, it has the route tag,
-- and it is of the version asked for, if one was.
pub resolve-serves :
    (newer : String → String → Bool) (history : List Call) (tag : String) (version : Option String)
    (a : AgentSpec)
    → resolve tag version (calls newer history) ≡ some a
    → (find agent_key (agent_key a) (calls newer history).agents ≡ some a)
      × (serves tag a ≡ true)
      × OfVersion (truthy version) a
unfolding resolve
resolve-serves newer history tag version a h = elim (Option-cases (truthy version)) [
  | inl e ↦
      let (found, on) =
        dict_get-All (IsServing reg.agents) tag reg.routes a state.1 (rw (← by_route e) h) in
      (found, on, rw (e) tt)
  | inr (v, e) ↦
      let (found, on, same) = listed v (rw (← by_version v e) h) in (found, on, rw (e) same)
]
  where
    reg : AgentRegistry
    reg = calls newer history

    state : IsRouted reg
    state = calls-IsRouted newer history

    by_route : truthy version ≡ none → resolve tag version reg ≡ dict_get tag reg.routes
    by_route e = rw (resolve, e) refl

    by_version :
        (v : String)
        → truthy version ≡ some v
        → resolve tag version reg
          ≡ first
              (keep (λ b. contains b.route_tags tag && (b.version == v && b.enabled)) reg.agents)
    by_version v e = rw (resolve, e) refl

    Listed : String → AgentSpec → Type 0
    Listed v b =
        (find agent_key (agent_key b) reg.agents ≡ some b) × (serves tag b ≡ true) × (b.version ≡ v)

    listed :
        (v : String)
        → first (keep (λ b. contains b.route_tags tag && (b.version == v && b.enabled)) reg.agents)
          ≡ some a
        → Listed v a
    listed v g =
        first-All (Listed v)
          (keep (λ b. contains b.route_tags tag && (b.version == v && b.enabled)) reg.agents) a
          (All-keep (Listed v) (λ b. contains b.route_tags tag && (b.version == v && b.enabled))
            reg.agents
            (All-map (λ b. find agent_key (agent_key b) reg.agents ≡ some b)
              (λ b. contains b.route_tags tag && (b.version == v && b.enabled) ≡ true → Listed v b)
              (λ b found on.
                (found, ground (arith, on), (string_eq.eqb_iff b.version v).0 (ground (arith, on))))
              reg.agents (Unique-self agent_key reg.agents state.0)))
          g
