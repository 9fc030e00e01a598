-- ===== src/Agent/Registry.antt =====
-- agent/registry.py, and the tools as an agent sees them: a name, and a function that is not part
-- of this code.
use intelligent_workflow_app.Prelude.{
  ℕ, String, Option, none, some, List, [], ◌∷◌, ◌++◌, ◌==◌, string_eq, any, if◌then◌else◌,
}
use intelligent_workflow_app.Security.Capabilities.{ResolvedCapabilities}
use intelligent_workflow_app.Value.{Fields}
use intelligent_workflow_app.Agent.Conversation.{ToolResult}

-- The part of a tool's context that the loop reads.
pub record ToolContext : Type 0 where
  pub capabilities : Option ResolvedCapabilities

-- `execute` may answer each call of a run in its own way, and it may raise (`none`).
pub record Tool : Type 0 where
  pub name : String
  pub execute : ℕ → Fields → Option ToolContext → Option ToolResult

-- `self._tools.get(name)`
unfoldable pub tool_named : String → List Tool → Option Tool
tool_named name [] = none
tool_named name (tool ∷ tools) = if tool.name == name then some tool else tool_named name tools

-- `register`, which raises for a name that is taken.
unfoldable pub register : Tool → List Tool → Option (List Tool)
register tool tools =
    if any (λ t. t.name == tool.name) tools then none else some (tools ++ tool ∷ [])

-- The loop of the constructor.
unfoldable pub register_all : List Tool → List Tool → Option (List Tool)
unfolding register
register_all tools [] = some tools
register_all tools (tool ∷ more) = elim (register tool tools) [
  | none ↦ none
  | some longer ↦ register_all longer more
]
