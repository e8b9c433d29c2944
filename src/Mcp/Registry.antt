-- ===== src/Mcp/Registry.antt =====
-- mcp-server/internal/registry/registry.go but its sample data, and internal/types/types.go.
-- `J` is Go's `interface{}`. A list of descriptors is in the order of an association list; Go's maps
-- have no order.
pub mod Listed
use xscope_hub.Prelude.{
  ℕ, ◌-◌, Bytes, codes, Bool, true, false, not, ◌||◌, ◌&&◌, Option, none, some, List, [], ◌∷◌, ◌++◌,
  Outcome, ok, err, if◌then◌else◌, ◌==◌, leb, Dict, lookup, insert, map,
}
use xscope_hub.Gateway.Text.{replace_all}

pub record ResourceDescriptor : Type 0 where
  pub name : Bytes
  pub title : Bytes
  pub description : Bytes

pub record ToolDescriptor : Type 0 where
  pub name : Bytes
  pub description : Bytes
  pub input_schema : Bytes

abbrev pub is_between : ℕ → ℕ → ℕ → Bool
is_between a b c = leb a c && leb c b

-- What `strings.Title` takes for a break between words, in ASCII: no letter, digit or underscore.
abbrev pub is_separator : ℕ → Bool
is_separator c = not (is_between 48 57 c || is_between 65 90 c || is_between 97 122 c || c == 95)

abbrev pub upper : ℕ → ℕ
upper c = if is_between 97 122 c then c - 32 else c

-- `strings.Title`, behind the byte `prev`
unfoldable pub title_from : ℕ → Bytes → Bytes
title_from prev [] = []
title_from prev (c ∷ s) = (if is_separator prev then upper c else c) ∷ title_from c s

module _ (J : Type 0) where
  pub record ResourcePayload : Type 0 where
    pub name : Bytes
    pub description : Bytes
    pub «data» : J

  pub record ToolResult : Type 0 where
    pub name : Bytes
    pub output : J

  -- An implementation may be nil.
  abbrev pub ToolFunc : Type 0
  ToolFunc = Option (Dict J → Outcome Bytes ToolResult)

  pub record Tool : Type 0 where
    pub descriptor : ToolDescriptor
    pub func : ToolFunc

  pub record Registry : Type 0 where
    pub resources : Dict ResourceDescriptor
    pub resource_data : Dict ResourcePayload
    pub tools : Dict ToolFunc
    pub tool_info : Dict ToolDescriptor

  abbrev pub empty : Registry
  empty = record { resources = []; resource_data = []; tools = []; tool_info = [] }

  abbrev pub descriptor_of : ResourcePayload → ResourceDescriptor
  descriptor_of res = record {
    name = res.name;
    title = title_from 32 (replace_all res.name 95 (codes " "));
    description = res.description;
  }

  abbrev pub add_resource : ResourcePayload → Registry → Registry
  add_resource res r = record r {
    resources = insert res.name (descriptor_of res) r.resources;
    resource_data = insert res.name res r.resource_data;
  }

  unfoldable pub register_resources : List ResourcePayload → Registry → Registry
  register_resources [] r = r
  register_resources (res ∷ rest) r = register_resources rest (add_resource res r)

  abbrev pub values : {V : Type 0} → Dict V → List V
  values [] = []
  values ((k, v) ∷ m) = v ∷ values m

  abbrev pub list_resources : Registry → List ResourceDescriptor
  list_resources r = values r.resources

  unfoldable pub resource : Bytes → Registry → Outcome Bytes ResourcePayload
  unfolding lookup
  resource name r = elim (lookup name r.resource_data) [
    | some payload ↦ ok payload
    | none ↦ err (codes "resource " ++ name ++ codes " not found")
  ]

  unfoldable pub register_tool : Tool → Registry → Registry
  unfolding insert
  register_tool t r = record r {
    tool_info = insert t.descriptor.name t.descriptor r.tool_info;
    tools = insert t.descriptor.name t.func r.tools;
  }

  unfoldable pub register_tools : List Tool → Registry → Registry
  unfolding register_tool
  register_tools [] r = r
  register_tools (t ∷ ts) r = register_tools ts (register_tool t r)

  abbrev pub list_tools : Registry → List ToolDescriptor
  list_tools r = values r.tool_info

  abbrev pub called : Bytes → Dict J → Option ToolFunc → Outcome Bytes ToolResult
  called name arguments none = err (codes "tool " ++ name ++ codes " not found")
  called name arguments (some none) = err (codes "tool implementation missing")
  called name arguments (some (some fn)) = fn arguments

  unfoldable pub invoke_tool : Bytes → Dict J → Registry → Outcome Bytes ToolResult
  unfolding lookup
  invoke_tool name arguments r = called name arguments (lookup name r.tools)
