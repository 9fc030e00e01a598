-- ===== src/Agent/Loop.antt =====
-- agent/agent.py: `Agent.run`, `_execute_tool_calls` and `_dispatch`. The provider and the tools
-- are parameters, which may answer each call in their own way and may raise.
pub mod Rounds
pub mod Keeps
pub mod Guards
pub mod Exchange
pub mod Stops
use intelligent_workflow_app.Prelude.{
  ℕ, zero, suc, ◌+◌, String, Bool, true, false, not, Option, none, some, List, [], ◌∷◌, ◌++◌, ◌==◌,
  string_eq, ltb, if◌then◌else◌,
}
use intelligent_workflow_app.Prelude.Int.{ℤ, pos, negsuc, pos_part}
use intelligent_workflow_app.Value.{Value, null, Fields}
use intelligent_workflow_app.Security.Capabilities.{
  ResolvedCapabilities, tool_allowed, max_tokens_per_call, cap_output_tokens,
}
use intelligent_workflow_app.Agent.Conversation.{
  StopReason, end_turn, max_iterations, budget_exhausted, coerce_stop_reason, AgentPolicy,
  AgentUsage, ToolError, capability_denied, unknown_tool, execution_failed, ToolResult, ok,
  ToolCallRecord, ToolUse, Block, ToolResultBlock, Message, user_text, assistant, tool_results,
  AgentResult, text_or, tool_uses, is_readable, input_of,
}
use intelligent_workflow_app.Agent.Registry.{ToolContext, Tool, tool_named}
use intelligent_workflow_app.Agent.Pins.{pin_params, pinned_keys, overrides}

-- A response that `run` can read up to its message, with what it holds; the counts that it does not
-- state are 0 and the stop is `end_turn`.
pub record Response : Type 0 where
  pub input_tokens : Option ℕ
  pub output_tokens : Option ℕ
  pub message : List Block
  pub stop_reason : Option String

-- An agent, with the parameters: what `converse` answers to the call of that number with the
-- messages and the inference config, and Python's `!=` of two values. `none` is a call that raises, or
-- whose response has no message, a count that is no number, or a text that is no string: `run` raises
-- then before it does anything else with the response.
pub record Agent : Type 0 where
  pub registry : List Tool
  pub policy : AgentPolicy
  pub pinned_tool_params : Fields
  pub converse : ℕ → List Message → Option Fields → Option Response
  pub differs : Value → Value → Bool

-- A call that reached a tool.
pub record Execution : Type 0 where
  pub name : String
  pub input : Fields

-- The variables of `run`, and the calls that reached a tool.
pub record Session : Type 0 where
  pub messages : List Message
  pub usage : AgentUsage
  pub tool_calls : List ToolCallRecord
  pub last_text : String
  pub executed : List Execution

pub data Ran : Type 0 where
  returned : StopReason → Session → Ran
  raised : Session → Ran

abbrev failed_with : ToolError → ToolResult
failed_with e = record { content = null; failure = some e }

-- The guard of `_dispatch`.
unfoldable pub is_denied : Option ToolContext → String → Bool
is_denied none name = false
is_denied (some context) name = elim context.capabilities [
  | none ↦ false
  | some caps ↦ not (tool_allowed caps name)
]

-- `_dispatch`, with the calls that reached a tool before, and after.
unfoldable pub dispatch :
    Agent → Option ToolContext → ℕ → String → Fields → List Execution → ToolResult × List Execution
unfolding is_denied tool_named
dispatch agent context number name params executed =
    if is_denied context name
    then (failed_with (capability_denied name), executed)
    else elim (tool_named name agent.registry) [
      | none ↦ (failed_with (unknown_tool name), executed)
      | some tool ↦
          let now = executed ++ record { name = name; input = params } ∷ [] in
          elim (tool.execute number params context) [
            | none ↦ (failed_with execution_failed, now)
            | some result ↦ (result, now)
          ]
    ]

-- The body of the loop of `_execute_tool_calls`.
unfoldable pub call_tool :
    Agent → Option ToolContext → ToolUse → Session → Session × ToolResultBlock
unfolding dispatch pin_params pinned_keys overrides input_of ok
call_tool agent context tu s =
    let pins = agent.pinned_tool_params in
    let input = pin_params pins (input_of tu) in
    let answer = dispatch agent context s.usage.tool_calls tu.name input s.executed in
    (
      record s {
        usage = record s.usage { tool_calls = s.usage.tool_calls + 1 };
        tool_calls =
            s.tool_calls
            ++ record {
              name = tu.name;
              input = input;
              result = answer.0;
              pinned = pinned_keys pins;
              pin_overrides = overrides agent.differs pins (input_of tu);
            }
              ∷ [];
        executed = answer.1;
      },
      record {
        tool_use_id = tu.tool_use_id;
        result = answer.0;
        status = if ok answer.0 then "success" else "error";
      },
    )

-- The loop, over the blocks that it does not pass over.
unfoldable pub call_tools :
    Agent → Option ToolContext → List ToolUse → Session → Session × List ToolResultBlock
unfolding call_tool
call_tools agent context [] s = (s, [])
call_tools agent context (tu ∷ tus) s =
    let (s', result) = call_tool agent context tu s in
    let (s'', results) = call_tools agent context tus s' in (s'', result ∷ results)

-- Up to the first tool use that it cannot read, where it raises.
unfoldable pub execute_tool_calls :
    Agent → Option ToolContext → List Block → Session → Session × List ToolResultBlock
unfolding call_tools tool_uses
execute_tool_calls agent context blocks s = call_tools agent context (tool_uses blocks) s

abbrev pub or_zero : Option ℕ → ℕ
or_zero none = 0
or_zero (some n) = n

-- The counts of a response, its message and its text.
unfoldable pub take_response : Response → Session → Session
unfolding text_or
take_response r s =
    let input = s.usage.input_tokens + or_zero r.input_tokens in
    let output = s.usage.output_tokens + or_zero r.output_tokens in
    record s {
      messages = s.messages ++ assistant r.message ∷ [];
      usage = record s.usage {
        iterations = s.usage.iterations + 1;
        input_tokens = input;
        output_tokens = output;
        total_tokens = input + output;
      };
      last_text = text_or r.message s.last_text;
    }

-- `messages.append({"role": "user", "content": tool_results})`
abbrev pub add_results : List ToolResultBlock → Session → Session
add_results results s = record s { messages = s.messages ++ tool_results results ∷ [] }

-- The tool calls of a response, and their results.
unfoldable pub answer_tools : Agent → Option ToolContext → Response → Session → Session
unfolding execute_tool_calls
answer_tools agent context r s =
    let (s', results) = execute_tool_calls agent context r.message s in add_results results s'

-- `usage.total_tokens > self.policy.max_total_tokens`
abbrev pub exceeds : ℕ → ℤ → Bool
exceeds n (pos m) = ltb m n
exceeds n (negsuc m) = true

unfoldable pub raw_stop : Response → String
raw_stop r = elim r.stop_reason [ none ↦ "end_turn" | some reason ↦ reason ]

-- The loop of `run`, with the number of rounds that are left.
unfoldable pub turns : ℕ → Agent → Option ToolContext → Option Fields → Session → Ran
unfolding take_response answer_tools raw_stop is_readable execute_tool_calls
turns zero agent context config s = returned max_iterations s
turns (suc n) agent context config s =
    if exceeds s.usage.total_tokens agent.policy.max_total_tokens
    then returned budget_exhausted s
    else elim (agent.converse s.usage.iterations s.messages config) [
      | none ↦ raised s
      | some r ↦
          let heard = take_response r s in
          let rest = turns n agent context config (answer_tools agent context r heard) in
          if raw_stop r == "end_turn"
          then returned end_turn heard
          else if raw_stop r == "tool_use"
          then (if is_readable r.message
              then rest
              else raised (execute_tool_calls agent context r.message heard).0)
          else returned (coerce_stop_reason (raw_stop r)) heard
    ]

unfoldable pub call_cap : Option ToolContext → Option ℕ
unfolding max_tokens_per_call
call_cap none = none
call_cap (some context) = elim context.capabilities [
  | none ↦ none
  | some caps ↦ max_tokens_per_call caps
]

-- `inference_config` of every call of a run.
unfoldable pub call_config : Agent → Option ToolContext → Option Fields
unfolding call_cap cap_output_tokens
call_config agent context = cap_output_tokens agent.policy.inference_config (call_cap context)

unfoldable pub new_session : String → Session
new_session message = record {
  messages = user_text message ∷ [];
  usage = record {
    input_tokens = 0;
    output_tokens = 0;
    total_tokens = 0;
    iterations = 0;
    tool_calls = 0;
  };
  tool_calls = [];
  last_text = "";
  executed = [];
}

unfoldable pub run : Agent → Option ToolContext → String → Ran
unfolding turns call_config new_session
run agent context message =
    turns (pos_part agent.policy.max_iterations) agent context (call_config agent context)
      (new_session message)

-- The `AgentResult` of a run that returned.
unfoldable pub agent_result : Ran → Option AgentResult
agent_result (raised s) = none
agent_result (returned reason s) = some (record {
  output_text = s.last_text;
  stop_reason = reason;
  usage = s.usage;
  messages = s.messages;
  tool_calls = s.tool_calls;
})
