-- ===== src/ToolProtocols.antt =====
-- framework/tool/tools.py, `ToolGateway._invoke`: the protocols of a tool's endpoint. The modules that
-- `python` tools import, the sessions of MCP servers, the HTTP client and the outbound policy are
-- parameters; a call that is not answered within its timeout is one that fails.
pub mod Invoke
use agent_task_platform.Prelude.{
  ℕ, String, Bool, true, false, not, ◌&&◌, Option, none, some, List, [], ◌∷◌, ◌==◌, string_eq,
  if◌then◌else◌, map,
}
use Prim.Native.String.{◌++◌}
use agent_task_platform.Domain.Entities.{Dict, Json, JsonItems, JsonFields, or_else, truthy}
use agent_task_platform.World.{dict_get, dict_set}

abbrev pub entries : JsonFields → Dict Json
entries JsonFields.end = []
entries (JsonFields.field key value rest) = (key, value) ∷ entries rest

abbrev pub fields : Dict Json → JsonFields
fields [] = JsonFields.end
fields ((key, value) ∷ rest) = JsonFields.field key value (fields rest)

abbrev pub to_json : Dict Json → Json
to_json d = Json.object (fields d)

-- How an awaited call ends: with a value, an exception, or the cancellation of its task.
pub data Ended (A : Type 0) : Type 0 where
  answers : A → Ended A
  raises : String → Ended A
  cancels : Ended A

-- An item of an MCP result, by the first attribute that it has.
pub data McpItem : Type 0 where
  with_text with_data : Json → McpItem
  with_type : String → Json → McpItem
  with_none : McpItem

pub record McpResult : Type 0 where
  pub content : List McpItem
  pub is_error : Bool

-- The body of an HTTP response without an error status: JSON, or a text that is none.
pub data HttpBody : Type 0 where
  json_body : Json → HttpBody
  text_body : String → HttpBody

pub record HttpRequest : Type 0 where
  pub method : String
  pub url : String
  pub json : Dict Json
  pub headers : Dict String
  pub timeout : ℕ

-- What `_invoke` uses of the libraries, in a world `W` that other tasks may change meanwhile.
pub record Protocols (W : Type 0) : Type 0 where
  -- the function that a target names, once its module is imported
  pub imported : Json → W → Ended (Dict Json → W → Ended Json × W) × W
  pub mcp_sessions : Dict (Json → Dict Json → W → Ended McpResult × W)
  pub is_allowed : String → Bool
  pub request : HttpRequest → W → Ended HttpBody × W
  -- `str` of a value that is no text, `upper`, base64, and whether a number is 0
  pub repr : Json → String
  pub upper : String → String
  pub b64encode : String → String
  pub is_zero : String → Bool

abbrev pub is_text : String → Json → Bool
is_text t (Json.text u) = u == t
is_text t _ = false

-- `d.get(key, default)`
abbrev pub get_or : String → Json → Dict Json → Json
get_or key d values = or_else (dict_get key values) d

module _ {W : Type 0} (p : Protocols W) where
  abbrev pub str : Json → String
  str (Json.text t) = t
  str j = p.repr j

  abbrev pub is_truthy : Json → Bool
  is_truthy Json.null = false
  is_truthy (Json.boolean b) = b
  is_truthy (Json.number n) = not (p.is_zero n)
  is_truthy (Json.text t) = not (t == "")
  is_truthy (Json.array items) = elim items [ JsonItems.nil ↦ false | _ ↦ true ]
  is_truthy (Json.object fs) = elim fs [ JsonFields.end ↦ false | _ ↦ true ]

  abbrev pub or_json : Json → Json → Json
  or_json a b = if is_truthy a then a else b

  abbrev pub echo_handler : Dict Json → Dict Json
  echo_handler input_data = ("echo", to_json input_data) ∷ []

  abbrev pub lookup_handler : Dict Json → Dict Json
  lookup_handler input_data =
      let key =
        or_json (get_or "key" Json.null input_data)
          (or_json (get_or "query" Json.null input_data) (Json.text "default")) in
      ("key", key)
      ∷ ("value", Json.text ("mock-value-for-" ++ str key))
      ∷ ("source", Json.text "builtin.lookup")
      ∷ []

  abbrev pub handlers : Dict (Dict Json → Dict Json)
  handlers = ("builtin.echo", echo_handler) ∷ ("builtin.lookup", lookup_handler) ∷ []

  abbrev handler : Json → Option (Dict Json → Dict Json)
  handler (Json.text name) = dict_get name handlers
  handler _ = none

  unfoldable pub invoke_builtin : Dict Json → Dict Json → Ended (Dict Json)
  invoke_builtin endpoint input_data =
      elim (handler (get_or "handler" (Json.text "builtin.echo") endpoint)) [
        | none ↦ raises "RegistryError"
        | some h ↦ answers (h input_data)
      ]

-- `{**first, **second}`
unfoldable pub merged {ℓ} : {A : Type ℓ} → Dict A → Dict A → Dict A
merged first [] = first
merged first ((key, value) ∷ rest) = merged (dict_set key value first) rest

-- `result if isinstance(result, dict) else {"data": result}`
abbrev pub as_dict : Json → Dict Json
as_dict (Json.object fs) = entries fs
as_dict j = ("data", j) ∷ []

abbrev pub then_dict : {W : Type 0} → Ended Json × W → Ended (Dict Json) × W
then_dict (answers j, w) = (answers (as_dict j), w)
then_dict (raises e, w) = (raises e, w)
then_dict (cancels, w) = (cancels, w)

abbrev pub of_body : HttpBody → Dict Json
of_body (json_body j) = as_dict j
of_body (text_body t) = ("text", Json.text t) ∷ []

abbrev append_item : Json → JsonItems → JsonItems
append_item j JsonItems.nil = JsonItems.cons j JsonItems.nil
append_item j (JsonItems.cons i items) = JsonItems.cons i (append_item j items)

-- `output.setdefault(key, []).append(value)`
abbrev append_under : String → Json → Dict JsonItems → Dict JsonItems
append_under key j output =
    dict_set key (append_item j (or_else (dict_get key output) JsonItems.nil)) output

unfoldable pub collected : List McpItem → Dict JsonItems → Dict JsonItems
collected [] output = output
collected (with_text j ∷ items) output = collected items (append_under "text" j output)
collected (with_data j ∷ items) output = collected items (append_under "data" j output)
collected (with_type t j ∷ items) output = collected items (append_under t j output)
collected (with_none ∷ items) output = collected items output

abbrev pub of_mcp : McpResult → Dict Json
of_mcp result =
    let output =
      map (λ (e : String × JsonItems). (e.0, Json.array e.1)) (collected result.content []) in
    if result.is_error then dict_set "_mcp_error" (Json.boolean true) output else output
