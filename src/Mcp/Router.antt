-- ===== src/Mcp/Router.antt =====
-- crates/percept/src/mcp/router.rs: the endpoint `POST /mcp`. What axum and serde make of the request are
-- arguments: the text of the header, and the body as a request. So is the version of the package.
pub mod Counted
use percept.Prelude.{
  ℕ, String, List, Option, none, some, Bool, true, false, if◌then◌else◌, unwrap_or, not,
}
use percept.Prelude.Eq.{string_eq, ◌=?◌}
use percept.Prelude.Result.{Result, ok, err}
use percept.Core.Json.{Value, Fields}
use percept.Ingest.Http.{strip_prefix}
use percept.Ingest.Metrics.{Metrics, inc_mcp_call}
use percept.Mcp.Window.{ToolError}
use percept.Mcp.Protocol.{
  Request, RpcError, parse_error, invalid_request, method_not_found, invalid_params, CallParams,
  Response, ResponsePayload, initialized, listed, structured, null_result, empty_result, error,
  InitializeResult, protocol_version,
}
use percept.Mcp.Schemas.{tool_list}

-- The two texts of a 401.
pub data Refusal : Type 0 where
  missing_bearer unknown_bearer : Refusal

pub data HttpResponse : Type 0 where
  unauthorized : Refusal → HttpResponse
  jsonrpc : Response → HttpResponse

-- The version of the package, and the four tools on arguments that are JSON: `none` where `serde_json::from_value` refuses them.
pub record Tools : Type 0 where
  pub describe_sources : Value → Option (Result ToolError Value)
  pub get_current_state : Value → Option (Result ToolError Value)
  pub get_window : Value → Option (Result ToolError Value)
  pub search_events : Value → Option (Result ToolError Value)
  pub read_params : Value → Option CallParams
  pub version : String

-- What a call of a tool comes to: arguments that are refused and an error of the tool have one code.
abbrev pub of_tool : Option (Result ToolError Value) → ResponsePayload
of_tool none = error invalid_params
of_tool (some (ok v)) = structured v
of_tool (some (err _)) = error invalid_params

abbrev pub call_named : Tools → String → Value → ResponsePayload
call_named tools name args =
    if name =? "describe_sources"
    then of_tool (tools.describe_sources args)
    else if name =? "get_current_state"
    then of_tool (tools.get_current_state args)
    else if name =? "get_window"
    then of_tool (tools.get_window args)
    else if name =? "search_events"
    then of_tool (tools.search_events args)
    else error method_not_found

abbrev pub call_with : Tools → Option CallParams → ResponsePayload
call_with tools none = error invalid_params
call_with tools (some call) =
    call_named tools call.name (unwrap_or call.arguments (Value.object Fields.end))

unfoldable pub dispatch_call : Tools → Option Value → ResponsePayload
dispatch_call tools none = error invalid_params
dispatch_call tools (some params) = call_with tools (tools.read_params params)

abbrev pub initialize_result : String → InitializeResult
initialize_result version = record {
  protocol_version = protocol_version;
  capabilities = record { tools = record { list_changed = false } };
  server_info = record { name = "percept"; version = version };
}

unfoldable pub dispatch : Tools → Request → Response
unfolding dispatch_call
dispatch tools req = record {
  id = req.id;
  payload =
      if req.method =? "initialize"
      then initialized (initialize_result tools.version)
      else if req.method =? "tools/list"
      then listed tool_list
      else if req.method =? "tools/call"
      then dispatch_call tools req.params
      else if req.method =? "notifications/initialized"
      then null_result
      else if req.method =? "notifications/cancelled"
      then null_result
      else if req.method =? "ping"
      then empty_result
      else error method_not_found;
}

abbrev pub check_token : String → Option String → Option Refusal
check_token expected none = some missing_bearer
check_token expected (some token) = if not (token =? expected) then some unknown_bearer else none

-- `none` is `Ok(())`. The header is there where it is visible ASCII.
unfoldable pub authenticate : String → Option String → Option Refusal
unfolding strip_prefix
authenticate expected none = some missing_bearer
authenticate expected (some header) = check_token expected (strip_prefix "Bearer " header)

-- `handle` behind the envelope, with the milliseconds that the dispatch took.
abbrev pub serve : Tools → ℕ → Metrics → Request → Metrics × HttpResponse
serve tools elapsed_ms metrics req =
    if not (req.jsonrpc =? "2.0")
    then (metrics, jsonrpc (record { id = req.id; payload = error invalid_request }))
    else (inc_mcp_call metrics req.method elapsed_ms, jsonrpc (dispatch tools req))

abbrev pub read_envelope : Tools → ℕ → Metrics → Option Request → Metrics × HttpResponse
read_envelope tools elapsed_ms metrics none =
    (metrics, jsonrpc (record { id = none; payload = error parse_error }))
read_envelope tools elapsed_ms metrics (some req) = serve tools elapsed_ms metrics req

abbrev pub if_accepted : Metrics → Option Refusal → Metrics × HttpResponse → Metrics × HttpResponse
if_accepted metrics none next = next
if_accepted metrics (some refusal) next = (metrics, unauthorized refusal)

unfoldable pub handle :
    String → Tools → ℕ → Metrics → Option String → Option Request → Metrics × HttpResponse
unfolding authenticate dispatch inc_mcp_call
handle token tools elapsed_ms metrics header body =
    if_accepted metrics (authenticate token header) (read_envelope tools elapsed_ms metrics body)
