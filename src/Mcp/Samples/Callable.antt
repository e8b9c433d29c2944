-- ===== src/Mcp/Samples/Callable.antt =====
-- The sample tools can be called.
use xscope_hub.Prelude.{ok, ◌≡◌, refl, All, Dict, lookup, insert, same}
use xscope_hub.Mcp.Registry.{
  ToolDescriptor, ToolResult, list_tools, invoke_tool, register_resources, register_tools,
}
use xscope_hub.Mcp.Samples.{Json, served_registry, static_tools}

module _ {J : Type 0} (json : Json J) (arguments : Dict J) where
  -- A call by the tool's name gives a result of that name.
  abbrev IsCallable : ToolDescriptor → Type 0
  IsCallable d =
      (r : ToolResult J) × (invoke_tool J d.name arguments (served_registry json) ≡ ok r)
      × (r.name ≡ d.name)

  -- Whatever the arguments, a call of InvokeTool by the name of any tool that ListTools lists, of the
  -- registry that `serve` makes, gives no error and a result under the tool's name.
  list_tools-IsCallable : All IsCallable (list_tools J (served_registry json))
  unfolding served_registry static_tools register_resources register_tools invoke_tool lookup insert
      same
  list_tools-IsCallable = ((_, refl, refl), ((_, refl, refl), tt))
