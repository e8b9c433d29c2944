-- ===== src/Mcp/Examples.antt =====
-- A registry with two resources of one name, the sample tools, and a call of a tool that is missing.
use xscope_hub.Prelude.{
  ℕ, codes, none, some, List, [], ◌∷◌, ok, refl, All, Dict, lookup, same, err, ◌≡◌, Bytes,
}
use xscope_hub.Mcp.Registry.{
  ResourcePayload, empty, register_resources, list_resources, invoke_tool,
}
use xscope_hub.Mcp.Samples.{Json}
use xscope_hub.Mcp.Server.{Request, Error, Codec, server_error, handle, tools_call, decode_params}
use xscope_hub.Mcp.Command.{usage, fatal, Tools, main}
use xscope_hub.Mcp.Http.Codes.{Fails, handle-Fails}
use xscope_hub.Mcp.Registry.Listed.{Fetched, list_resources-Fetched}

abbrev logs : ℕ → ResourcePayload ℕ
logs n = record { name = codes "logs"; description = codes "Recent log events"; «data» = n }

abbrev twice : List (ResourcePayload ℕ)
twice = logs 1 ∷ logs 2 ∷ []

list_resources-Fetched_example :
    All
      (Fetched ℕ (register_resources ℕ twice (empty ℕ)))
      (list_resources ℕ (register_resources ℕ twice (empty ℕ)))
list_resources-Fetched_example = list_resources-Fetched ℕ twice

-- A value that is its text, or nothing.
abbrev sample_json : Json Bytes
sample_json = record {
  text = λ s. s;
  number = λ n. n ∷ [];
  float = λ n. n ∷ [];
  list = λ _. [];
  object = λ _. [];
  as_text = λ s. some s;
}

abbrev for_gateway : Dict Bytes
for_gateway = (codes "service", codes "observe-gateway") ∷ []

-- Parameters that are the name alone.
abbrev sample_codec : Codec Bytes
sample_codec = record {
  decode_name = λ raw. ok raw;
  decode_call = λ raw. ok (raw, none);
  resources_json = λ _. codes "[]";
  resource_json = λ _. codes "{}";
  tools_json = λ _. codes "[]";
  tool_json = λ _. codes "{}";
  manifest_json = λ _ _. codes "{}";
}

abbrev no_tool : Request Bytes
no_tool = record {
  jsonrpc = codes "2.0";
  method = codes "tools/call";
  params = some (codes "rm");
  id = codes "1";
}

abbrev not_found : Error
not_found = record { code = server_error; message = codes "tool rm not found" }

handle-Fails_example : Fails Bytes sample_codec (empty Bytes) no_tool not_found
unfolding handle tools_call decode_params invoke_tool lookup same
handle-Fails_example = handle-Fails Bytes sample_codec (empty Bytes) no_tool not_found refl

-- Every file can be read, and none is JSON.
abbrev tools : Tools
tools = record {
  serve_flags = λ args. none;
  manifest_flags = λ args. some (codes "manifest.json");
  read_file = λ path. ok path;
  decode_manifest = λ raw. err (codes "invalid character");
  encode_manifest = λ mf. ok mf.name;
}

manifest_unreadable :
    main sample_json tools (codes "manifest" ∷ [])
    ≡ fatal (codes "failed to load manifest: decode manifest: invalid character")
unfolding main
manifest_unreadable = refl

command_unknown : main sample_json tools (codes "start" ∷ []) ≡ usage
unfolding main
command_unknown = refl
