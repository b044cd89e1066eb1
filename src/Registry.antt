-- ===== src/Registry.antt =====
-- framework/registry.py: the registries of agents, tools and skills. Versions are ordered by
-- `packaging.version`, which is outside the source: `newer a b` says that `a` is above `b`.
pub mod Latest
pub mod Agents
pub mod Tools
pub mod Skills
use agent_task_platform.Prelude.{String, Bool, Option, none, some, List, [], ◌∷◌, if◌then◌else◌}

-- `max(..., key=_version_key)`: the first of the newest.
module _ {ℓ} {A : Type ℓ} (newer : String → String → Bool) (version : A → String) where
  abbrev pub better : A → Option A → A
  better a none = a
  better a (some b) = if newer (version b) (version a) then b else a

  unfoldable pub latest : List A → Option A
  latest [] = none
  latest (a ∷ rows) = some (better a (latest rows))
