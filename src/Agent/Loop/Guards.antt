-- ===== src/Agent/Loop/Guards.antt =====
-- The tool calls of a run that reach a tool.
use intelligent_workflow_app.Prelude.{
  ◌≡◌, ◌≢◌, refl, ℕ, String, true, false, Option, none, some, List, [], ◌∷◌, ◌++◌, All, Bool-cases,
  Option-cases, sym, ◌∙◌, inl, inr, string_eq, arith,
}
use mathlib.Core.Option.{none-ne-some}
use intelligent_workflow_app.Value.{Value, Fields, get, IsDict}
use intelligent_workflow_app.Security.Capabilities.{ResolvedCapabilities, tool_allowed}
use intelligent_workflow_app.Agent.Conversation.{ToolUse, input_of}
use intelligent_workflow_app.Agent.Registry.{ToolContext, tool_named}
use intelligent_workflow_app.Agent.Pins.{pin_params}
use intelligent_workflow_app.Agent.Pins.Laws.{get-pin_params}
use intelligent_workflow_app.Agent.Loop.{
  Agent, Execution, Session, is_denied, dispatch, call_tool, take_response, new_session, run,
}
use intelligent_workflow_app.Agent.Loop.Keeps.{OfRan, IsKept, Rounds-keeps}
use intelligent_workflow_app.Agent.Loop.Rounds.{turns-Rounds}

abbrev pub capabilities_of : Option ToolContext → Option ResolvedCapabilities
capabilities_of none = none
capabilities_of (some context) = context.capabilities

pub record IsGuarded (agent : Agent) (context : Option ToolContext) (e : Execution) : Type 0 where
  -- The capabilities of the run allow the tool.
  pub allowed :
      (caps : ResolvedCapabilities)
      → capabilities_of context ≡ some caps
      → tool_allowed caps e.name ≡ true
  pub known : tool_named e.name agent.registry ≢ none
  -- Every pinned parameter has its pinned value.
  pub has_pins :
      (key : String) (v : Value)
      → get key agent.pinned_tool_params ≡ some v
      → get key e.input ≡ some v

module _ (agent : Agent) (context : Option ToolContext) where
  abbrev pub AllGuarded : Session → Type 0
  AllGuarded s = All (IsGuarded agent context) s.executed

  All-snoc :
      (e : Execution) (es : List Execution)
      → IsGuarded agent context e
      → All (IsGuarded agent context) es
      → All (IsGuarded agent context) (es ++ e ∷ [])
  All-snoc e [] g h = (g, tt)
  All-snoc e (x ∷ xs) g h = (h.0, All-snoc e xs g h.1)

  is_denied-allowed :
      (c : Option ToolContext) (name : String)
      → is_denied c name ≡ false
      → (caps : ResolvedCapabilities) → capabilities_of c ≡ some caps
      → tool_allowed caps name ≡ true
  unfolding is_denied
  is_denied-allowed none name h caps e = ground arith
  is_denied-allowed (some c) name h caps e = ground arith

  module _ (dict : IsDict agent.pinned_tool_params) where
    dispatch-AllGuarded :
        (number : ℕ) (name : String) (input : Fields) (es : List Execution)
        → All (IsGuarded agent context) es
        → (let params = pin_params agent.pinned_tool_params input in
            All (IsGuarded agent context) (dispatch agent context number name params es).1)
    unfolding dispatch
    dispatch-AllGuarded number name input es h =
        let pins = agent.pinned_tool_params in
        let params = pin_params pins input in
        elim (Bool-cases (is_denied context name)) [
          | inl denied ↦ rw denied h
          | inr free ↦ elim (Option-cases (tool_named name agent.registry)) [
            | inl unknown ↦ rw (free, unknown) h
            | inr (tool, found) ↦
                let guarded : IsGuarded agent context (record { name = name; input = params }) =
                  record {
                    allowed = is_denied-allowed context name free;
                    known = λ absent. none-ne-some tool (sym absent ∙ found);
                    has_pins = λ key v pinned. get-pin_params key pins input dict ∙ rw pinned refl;
                  } in
                let snoc = All-snoc _ es guarded h in
                elim (Option-cases (tool.execute number params context)) [
                  | inl fails ↦ rw (free, found, fails) snoc
                  | inr (result, returns) ↦ rw (free, found, returns) snoc
                ]
          ]
        ]

    call_tool-AllGuarded :
        (tu : ToolUse) (s : Session) → AllGuarded s → AllGuarded (call_tool agent context tu s).0
    unfolding call_tool
    call_tool-AllGuarded tu s h = dispatch-AllGuarded _ tu.name (input_of tu) s.executed h

    guards-IsKept : IsKept agent context AllGuarded
    unfolding take_response
    guards-IsKept = record {
      hears = λ r s h. h;
      calls = call_tool-AllGuarded;
      adds = λ results s h. h;
    }

    -- Whatever the model asks for, a tool call that reaches a tool in a run is of a tool that the
    -- run's capabilities allow and that is registered, and every parameter that the engine pinned
    -- has the pinned value; the pins are a dictionary.
    pub run-AllGuarded : (message : String) → OfRan AllGuarded (run agent context message)
    unfolding run new_session
    run-AllGuarded message =
        Rounds-keeps agent context guards-IsKept (turns-Rounds agent context _ _ _) tt
