-- ===== src/ToolProtocols/Invoke.antt =====
-- framework/tool/tools.py, `_invoke` and `_headers_for_endpoint`: the endpoint of a tool, called.
use agent_task_platform.Prelude.{
  ℕ, String, Option, none, some, [], ◌∷◌, string_eq, if◌then◌else◌, not,
}
use Prim.Native.String.{◌++◌}
use agent_task_platform.Domain.Entities.{Dict, Json, truthy}
use agent_task_platform.World.{dict_get, dict_set}
use agent_task_platform.ToolProtocols.{
  Ended, answers, raises, cancels, McpResult, Protocols, entries, is_text, get_or, str, is_truthy,
  invoke_builtin, merged, then_dict, of_body, of_mcp, HttpBody,
}

module _ {W : Type 0} (p : Protocols W) where
  -- `{str(key): str(value) for …}`
  abbrev texts : Dict Json → Dict String
  texts [] = []
  texts ((key, value) ∷ rest) = (key, str p value) ∷ texts rest

  -- A key that must be there, as a text.
  abbrev required : String → Dict Json → Ended String
  required key d = elim (dict_get key d) [ none ↦ raises "KeyError" | some j ↦ answers (str p j) ]

  abbrev with_header : String → Ended String → Dict String → Ended (Dict String)
  with_header name (answers value) headers = answers (dict_set name value headers)
  with_header name (raises e) headers = raises e
  with_header name cancels headers = cancels

  abbrev prefixed : String → Ended String → Ended String
  prefixed s (answers t) = answers (s ++ t)
  prefixed s e = e

  abbrev basic : Ended String → Ended String → Ended String
  basic (answers user) (answers password) =
      answers ("Basic " ++ p.b64encode (user ++ ":" ++ password))
  basic (answers user) e = e
  basic e other = e

  abbrev with_auth : Dict Json → Json → Dict String → Ended (Dict String)
  with_auth auth auth_type headers =
      if is_text "bearer" auth_type
      then with_header "Authorization" (prefixed "Bearer " (required "token" auth)) headers
      else if is_text "api_key" auth_type
      then with_header (str p (get_or "header" (Json.text "X-API-Key") auth))
          (required "value" auth) headers
      else if is_text "basic" auth_type
      then with_header "Authorization" (basic (required "username" auth) (required "password" auth))
          headers
      else raises "RegistryError"

  -- `endpoint.get("auth") or {}`: what it raises is raised by `.get` of a value that is no dict.
  abbrev auth_headers : Json → Dict String → Ended (Dict String)
  auth_headers (Json.object fs) headers =
      let auth = entries fs in
      let auth_type = get_or "type" Json.null auth in
      if is_truthy p auth_type then with_auth auth auth_type headers else answers headers
  auth_headers j headers = if is_truthy p j then raises "AttributeError" else answers headers

  -- `_headers_for_endpoint`
  unfoldable pub headers_for_endpoint : Dict Json → Ended (Dict String)
  headers_for_endpoint endpoint = elim (dict_get "headers" endpoint) [
    | none ↦ auth_headers (get_or "auth" Json.null endpoint) []
    | some j ↦ elim j [
      | Json.object fs ↦ auth_headers (get_or "auth" Json.null endpoint) (texts (entries fs))
      | _ ↦ raises "AttributeError"
    ]
  ]

  -- `endpoint.get("kwargs", {})` before the caller's arguments, which it overrides.
  unfoldable pub call_kwargs : Dict Json → Dict Json → Ended (Dict Json)
  call_kwargs endpoint input_data = elim (dict_get "kwargs" endpoint) [
    | none ↦ answers input_data
    | some j ↦ elim j [
      | Json.object fs ↦ answers (merged input_data (entries fs))
      | _ ↦ raises "RegistryError"
    ]
  ]

  abbrev called : Ended (Dict Json) → (Dict Json → W → Ended Json × W) → W → Ended (Dict Json) × W
  called (answers kwargs) func w = then_dict (func kwargs w)
  called (raises e) func w = (raises e, w)
  called cancels func w = (cancels, w)

  abbrev with_function :
      Ended (Dict Json) → Ended (Dict Json → W → Ended Json × W) × W → Ended (Dict Json) × W
  with_function kwargs (answers func, w) = called kwargs func w
  with_function kwargs (raises e, w) = (raises e, w)
  with_function kwargs (cancels, w) = (cancels, w)

  unfoldable pub invoke_python : Dict Json → Dict Json → W → Ended (Dict Json) × W
  invoke_python endpoint input_data w = elim (dict_get "target" endpoint) [
    | none ↦ (raises "KeyError", w)
    | some target ↦ with_function (call_kwargs endpoint input_data) (p.imported target w)
  ]

  abbrev mcp_answer : Ended McpResult × W → Ended (Dict Json) × W
  mcp_answer (answers result, w) = (answers (of_mcp result), w)
  mcp_answer (raises e, w) = (raises "MCPError", w)
  mcp_answer (cancels, w) = (cancels, w)

  -- `self._mcp_sessions`, which has texts as keys.
  abbrev session_of : Json → Ended (Json → Dict Json → W → Ended McpResult × W)
  session_of (Json.text server) = elim (dict_get server p.mcp_sessions) [
    | none ↦ raises "RegistryError"
    | some call_tool ↦ answers call_tool
  ]
  session_of (Json.array items) = raises "TypeError"
  session_of (Json.object fs) = raises "TypeError"
  session_of _ = raises "RegistryError"

  abbrev in_session :
      Json
      → Dict Json
      → Ended (Json → Dict Json → W → Ended McpResult × W)
      → W
      → Ended (Dict Json) × W
  in_session tool_name input_data (answers call_tool) w =
      mcp_answer (call_tool tool_name input_data w)
  in_session tool_name input_data (raises e) w = (raises e, w)
  in_session tool_name input_data cancels w = (cancels, w)

  -- `_invoke_mcp`
  unfoldable pub invoke_mcp : Dict Json → Dict Json → W → Ended (Dict Json) × W
  invoke_mcp endpoint input_data w = elim (dict_get "server" endpoint) [
    | none ↦ (raises "KeyError", w)
    | some server ↦ elim (dict_get "tool_name" endpoint) [
      | none ↦ (raises "KeyError", w)
      | some tool_name ↦ in_session tool_name input_data (session_of server) w
    ]
  ]

  -- `if idempotency_key and idempotency_key_header`
  unfoldable pub keyed : Option String → Option String → Dict String → Dict String
  keyed key header headers = elim (truthy key) [
    | none ↦ headers
    | some k ↦ elim (truthy header) [ none ↦ headers | some h ↦ dict_set h k headers ]
  ]

  abbrev http_answer : Ended HttpBody × W → Ended (Dict Json) × W
  http_answer (answers body, w) = (answers (of_body body), w)
  http_answer (raises e, w) = (raises e, w)
  http_answer (cancels, w) = (cancels, w)

  abbrev sent :
      ℕ
      → String
      → String
      → Dict Json
      → Option String
      → Option String
      → Ended (Dict String)
      → W
      → Ended (Dict Json) × W
  sent timeout method url input_data key header (answers headers) w = http_answer (
      p.request
        (record {
          method = p.upper method;
          url = url;
          json = input_data;
          headers = keyed key header headers;
          timeout = timeout;
        })
        w)
  sent timeout method url input_data key header (raises e) w = (raises e, w)
  sent timeout method url input_data key header cancels w = (cancels, w)

  unfoldable pub invoke_http :
      ℕ → Option String → Option String → Dict Json → Dict Json → W → Ended (Dict Json) × W
  invoke_http timeout key header endpoint input_data w = elim (dict_get "url" endpoint) [
    | none ↦ (raises "KeyError", w)
    | some url ↦
        if not (p.is_allowed (str p url))
        then (raises "RegistryError", w)
        else elim (get_or "method" (Json.text "POST") endpoint) [
          | Json.text method ↦
              sent timeout method (str p url) input_data key header (headers_for_endpoint endpoint)
                w
          | _ ↦ (raises "AttributeError", w)
        ]
  ]

  -- `_invoke`
  unfoldable pub invoke :
      Dict Json → Dict Json → ℕ → Option String → Option String → W → Ended (Dict Json) × W
  invoke endpoint input_data timeout key header w =
      let protocol = get_or "protocol" (Json.text "builtin") endpoint in
      if is_text "builtin" protocol
      then (invoke_builtin p endpoint input_data, w)
      else if is_text "python" protocol
      then invoke_python endpoint input_data w
      else if is_text "mcp" protocol
      then invoke_mcp endpoint input_data w
      else if is_text "http" protocol
      then invoke_http timeout key header endpoint input_data w
      else (raises "RegistryError", w)
