-- ===== src/Tests/Tools.antt =====
-- The claim on the tool registry, at two tools.
use agent_task_platform.Prelude.{String, List, ◌≡◌, Bool, true, none, [], ◌∷◌, string_eq}
use agent_task_platform.Domain.Catalog.{ToolSpec, OperationType}
use agent_task_platform.Registry.Tools.{of_tools, answered, get}
use agent_task_platform.Registry.Tools.Lookup.{
  get_after_change, Change, registers, disables, deregisters, change_all,
}
use agent_task_platform.Tests.Data.{policy}

abbrev tool : String → Bool → ToolSpec
tool name enabled = record {
  name = name;
  description = "";
  version = "1";
  input_schema = [];
  output_schema = [];
  endpoint = [];
  timeout_seconds = 30;
  max_concurrency = 10;
  qps = none;
  retry_policy = policy;
  operation_type = OperationType.read_only;
  idempotency_key_header = none;
  allowed_agents = [];
  enabled = enabled;
  owner = none;
  circuit_breaker = [];
  managed_by = "yaml";
  updated_by = none;
}

abbrev given : List ToolSpec
given = tool "mail" true ∷ tool "print" true ∷ []

abbrev calls : List Change
calls =
    deregisters "fax" ∷ disables "print" ∷ deregisters "mail" ∷ registers (tool "mail" true) ∷ []

get_after_change_example :
    get "mail" (change_all calls (of_tools given [])) ≡ answered (tool "mail" true)
get_after_change_example = get_after_change "mail" given calls
