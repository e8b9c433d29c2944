-- ===== src/Mcp/Server.antt =====
-- mcp-server/internal/server/server.go: what a request is answered. `Codec` decodes the parameters
-- of a call and encodes what is listed; the HTTP around it is left out.
pub mod Answers
use xscope_hub.Prelude.{
  ℕ, Bytes, codes, Bool, true, false, Option, none, some, List, [], ◌∷◌, ◌++◌, Outcome, ok, err,
  if◌then◌else◌, same, ℤ, negsuc, Dict,
}
use xscope_hub.Mcp.Registry.{
  ResourceDescriptor, ResourcePayload, ToolDescriptor, ToolResult, Registry, list_resources,
  resource, list_tools, invoke_tool,
}

-- A call's parameters as they came: none where they are missing.
pub record Request (J : Type 0) : Type 0 where
  pub jsonrpc : Bytes
  pub method : Bytes
  pub params : Option Bytes
  pub id : J

pub record Error : Type 0 where
  pub code : ℤ
  pub message : Bytes

pub record Response (J : Type 0) : Type 0 where
  pub jsonrpc : Bytes
  pub id : J
  pub result : Option J
  pub error : Option Error

pub record Codec (J : Type 0) : Type 0 where
  pub decode_name : Bytes → Outcome Bytes Bytes
  -- The name and the arguments, none where they are missing.
  pub decode_call : Bytes → Outcome Bytes (Bytes × Option (Dict J))
  pub resources_json : List ResourceDescriptor → J
  pub resource_json : ResourcePayload J → J
  pub tools_json : List ToolDescriptor → J
  pub tool_json : ToolResult J → J
  -- The manifest with the resources and the tools.
  pub manifest_json : List ResourceDescriptor → List ToolDescriptor → J

-- -32601, -32602 and -32000
abbrev pub method_not_found : ℤ
method_not_found = negsuc 32600

abbrev pub invalid_params : ℤ
invalid_params = negsuc 32601

abbrev pub server_error : ℤ
server_error = negsuc 31999

abbrev pub checked_params : {A : Type 0} → Outcome Bytes A → Outcome Error A
checked_params (ok a) = ok a
checked_params (err e) =
    err (record { code = invalid_params; message = codes "invalid params: " ++ e })

-- `decodeParams`
unfoldable pub decode_params :
    {A : Type 0} → (Bytes → Outcome Bytes A) → Option Bytes → Outcome Error A
decode_params decode none = err (record { code = invalid_params; message = codes "missing params" })
decode_params decode (some raw) = checked_params (decode raw)

abbrev pub failed_call : {A : Type 0} → Outcome Bytes A → Outcome Error A
failed_call (ok a) = ok a
failed_call (err e) = err (record { code = server_error; message = e })

abbrev pub and_then : {A B : Type 0} → Outcome Error A → (A → Outcome Error B) → Outcome Error B
and_then (ok a) f = f a
and_then (err e) f = err e

module _ (J : Type 0) (codec : Codec J) (registry : Registry J) where
  -- A result or an error, as a response to the request.
  abbrev pub respond : Request J → Outcome Error J → Response J
  respond req (ok result) = record {
    jsonrpc = codes "2.0";
    id = req.id;
    result = some result;
    error = none;
  }
  respond req (err e) = record { jsonrpc = codes "2.0"; id = req.id; result = none; error = some e }

  unfoldable pub resource_get : Option Bytes → Outcome Error J
  unfolding decode_params resource
  resource_get params = and_then (decode_params codec.decode_name params) λ name.
      and_then (failed_call (resource J name registry)) λ payload. ok (codec.resource_json payload)

  abbrev pub or_empty : Option (Dict J) → Dict J
  or_empty none = []
  or_empty (some arguments) = arguments

  unfoldable pub tools_call : Option Bytes → Outcome Error J
  unfolding decode_params invoke_tool
  tools_call params = and_then (decode_params codec.decode_call params) λ call.
      and_then (failed_call (invoke_tool J call.0 (or_empty call.1) registry))
        λ result. ok (codec.tool_json result)

  unfoldable pub handle : Request J → Outcome Error J
  unfolding same resource_get tools_call
  handle req =
      if same req.method (codes "resources/list")
      then ok (codec.resources_json (list_resources J registry))
      else if same req.method (codes "resources/get")
      then resource_get req.params
      else if same req.method (codes "tools/list")
      then ok (codec.tools_json (list_tools J registry))
      else if same req.method (codes "tools/call")
      then tools_call req.params
      else if same req.method (codes "manifest/get")
      then ok (codec.manifest_json (list_resources J registry) (list_tools J registry))
      else err (record {
        code = method_not_found;
        message = codes "method " ++ req.method ++ codes " not found";
      })

  -- `handleRequest`
  unfoldable pub handle_request : Request J → Response J
  unfolding handle
  handle_request req = respond req (handle req)
