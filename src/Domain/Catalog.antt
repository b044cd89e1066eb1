-- ===== src/Domain/Catalog.antt =====
-- domain/tool_spec.py, domain/skill_spec.py, domain/skill_ref.py: what the registries hold. Durations
-- are whole numbers; the pydantic validators of the skills' texts are not part of a value.
use agent_task_platform.Prelude.{ℕ, String, Bool, Option, List}
use agent_task_platform.Domain.Entities.{Dict, Json, RetryPolicy}

pub data OperationType : Type 0 where
  read_only idempotent side_effecting : OperationType

-- A rate of `calls` in `per` seconds: the number `qps` is calls / per, which need not be whole.
pub record Rate : Type 0 where
  pub calls : ℕ
  pub per : ℕ

pub record ToolSpec : Type 0 where
  pub name : String
  pub description : String
  pub version : String
  pub input_schema : Dict Json
  pub output_schema : Dict Json
  pub endpoint : Dict Json
  pub timeout_seconds : ℕ
  pub max_concurrency : ℕ
  pub qps : Option Rate
  pub retry_policy : RetryPolicy
  pub operation_type : OperationType
  pub idempotency_key_header : Option String
  pub allowed_agents : List String
  pub enabled : Bool
  pub owner : Option String
  pub circuit_breaker : Dict Json
  pub managed_by : String
  pub updated_by : Option String

pub record SkillScriptSpec : Type 0 where
  pub name : String
  pub path : String
  pub interpreter : String
  pub description : String
  pub input_schema : Dict Json
  pub output_schema : Dict Json
  pub timeout_seconds : ℕ
  pub max_output_bytes : ℕ
  pub operation_type : OperationType
  pub idempotency_key_required : Bool
  pub network : Bool
  pub writable_paths : List String

pub record SkillArtifactFile : Type 0 where
  pub path : String
  pub content_base64 : String
  pub mime_type : Option String

pub record SkillSpec : Type 0 where
  pub name : String
  pub version : String
  pub description : String
  pub source_path : String
  pub content_hash : String
  pub enabled : Bool
  pub compatibility : Option String
  pub allowed_tools : List String
  pub scripts : List SkillScriptSpec
  pub artifact : List SkillArtifactFile
  pub metadata : Dict String
  pub owner : Option String
  pub managed_by : String
  pub updated_by : Option String

pub record AgentSkillRef : Type 0 where
  pub name : String
  pub version : Option String
  pub activation : String
  pub config : Dict Json
