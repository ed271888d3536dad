-- ===== src/Mcp/Protocol.antt =====
-- crates/percept/src/mcp/protocol.rs: the requests, the responses and the results of the methods. The
-- pretty text that goes with a structured result is left out.
use percept.Prelude.{String, List, Option, Bool}
use percept.Prelude.Int.{ℤ, negsuc}
use percept.Core.Json.{Value}

abbrev pub protocol_version : String
protocol_version = "2024-11-05"

pub record Request : Type 0 where
  pub jsonrpc : String
  pub id : Option Value
  pub method : String
  pub params : Option Value

-- The constructors of `RpcError`, without their messages.
pub data RpcError : Type 0 where
  parse_error invalid_request method_not_found invalid_params : RpcError

unfoldable pub code_of : RpcError → ℤ
code_of parse_error = negsuc 32_699
code_of invalid_request = negsuc 32_599
code_of method_not_found = negsuc 32_600
code_of invalid_params = negsuc 32_601

pub record ToolsCapability : Type 0 where
  pub list_changed : Bool

pub record ServerCapabilities : Type 0 where
  pub tools : ToolsCapability

pub record ServerInfo : Type 0 where
  pub name : String
  pub version : String

pub record InitializeResult : Type 0 where
  pub protocol_version : String
  pub capabilities : ServerCapabilities
  pub server_info : ServerInfo

pub record Tool : Type 0 where
  pub name : String
  pub description : String
  pub input_schema : Value

pub record CallParams : Type 0 where
  pub name : String
  pub arguments : Option Value

-- A result is one of those that `dispatch` makes: `structured` is that of a tool.
pub data ResponsePayload : Type 0 where
  initialized : InitializeResult → ResponsePayload
  listed : List Tool → ResponsePayload
  structured : Value → ResponsePayload
  null_result empty_result : ResponsePayload
  error : RpcError → ResponsePayload

pub record Response : Type 0 where
  pub id : Option Value
  pub payload : ResponsePayload
