-- ===== src/Agent/Loop/Keeps.antt =====
-- What every step of a run keeps, a run keeps.
use intelligent_workflow_app.Prelude.{ℕ, Option, List, [], ◌∷◌, string_eq}
use intelligent_workflow_app.Value.{Fields}
use intelligent_workflow_app.Agent.Conversation.{ToolUse, ToolResultBlock, tool_uses}
use intelligent_workflow_app.Agent.Registry.{ToolContext}
use intelligent_workflow_app.Agent.Loop.Rounds.{
  Rounds, rounds_out, over_budget, no_response, model_stops, tools_called, tools_raise,
}
use intelligent_workflow_app.Agent.Loop.{
  Agent, Response, Session, Ran, returned, raised, call_tool, call_tools, execute_tool_calls,
  take_response, add_results, answer_tools,
}

-- A predicate of the session that a run leaves, whether it returns or raises.
abbrev pub OfRan : (Session → Type 0) → Ran → Type 0
OfRan P (returned reason s) = P s
OfRan P (raised s) = P s

pub record IsKept (agent : Agent) (context : Option ToolContext) (P : Session → Type 0)
    : Type 0 where
  pub hears : (r : Response) (s : Session) → P s → P (take_response r s)
  pub calls : (tu : ToolUse) (s : Session) → P s → P (call_tool agent context tu s).0
  pub adds : (results : List ToolResultBlock) (s : Session) → P s → P (add_results results s)

module _ (agent : Agent) (context : Option ToolContext) {P : Session → Type 0}
    (k : IsKept agent context P) where
  call_tools-keeps : (tus : List ToolUse) (s : Session) → P s → P (call_tools agent context tus s).0
  unfolding call_tools
  call_tools-keeps [] s h = h
  call_tools-keeps (tu ∷ tus) s h =
      call_tools-keeps tus (call_tool agent context tu s).0 (k.calls tu s h)

  executed-keeps :
      (r : Response) (s : Session) → P s → P (execute_tool_calls agent context r.message s).0
  unfolding execute_tool_calls
  executed-keeps r s h = call_tools-keeps (tool_uses r.message) s h

  answer_tools-keeps : (r : Response) (s : Session) → P s → P (answer_tools agent context r s)
  unfolding answer_tools execute_tool_calls
  answer_tools-keeps r s h =
      let (s', results) = execute_tool_calls agent context r.message s in
      k.adds results s' (call_tools-keeps (tool_uses r.message) s h)

  pub Rounds-keeps :
      {config : Option Fields} {n : ℕ} {s : Session} {ran : Ran}
      → Rounds agent context config n s ran
      → P s
      → OfRan P ran
  Rounds-keeps rounds_out h = h
  Rounds-keeps (over_budget _) h = h
  Rounds-keeps (no_response _ _) h = h
  Rounds-keeps (model_stops r _ _ _) h = k.hears r _ h
  Rounds-keeps (tools_called r _ _ _ _ more) h =
      Rounds-keeps more (answer_tools-keeps r _ (k.hears r _ h))
  Rounds-keeps (tools_raise r _ _ _ _) h = executed-keeps r (take_response r _) (k.hears r _ h)
