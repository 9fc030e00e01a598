-- ===== src/Tests/Agent.antt =====
-- Tests of an agent's run: a model that asks for a pinned parameter of its own choice, and for a
-- tool that is not allowed.
use intelligent_workflow_app.Prelude.{
  ◌≡◌, refl, ℕ, zero, suc, ◌+◌, ◌≤◌, String, true, none, some, Option, List, [], ◌∷◌, string_eq,
  map, arith,
}
use intelligent_workflow_app.Prelude.Int.{pos}
use intelligent_workflow_app.Value.{null, text, Fields, no_fields, entry, get, put, IsDict}
use intelligent_workflow_app.Security.Capabilities.{CapabilityPolicy, tool_allowed}
use intelligent_workflow_app.Agent.Conversation.{
  Block, tool_use, no_tool_use, unreadable, Message, end_turn, StopReason,
}
use intelligent_workflow_app.Agent.Registry.{ToolContext, Tool, register_all}
use intelligent_workflow_app.Agent.Loop.{
  Agent, Response, Execution, Ran, returned, raised, or_zero, call_config, run,
}
use intelligent_workflow_app.Agent.Loop.Keeps.{OfRan}
use intelligent_workflow_app.Agent.Loop.Guards.{AllGuarded, run-AllGuarded}
use intelligent_workflow_app.Agent.Loop.Exchange.{Exchanged, run-IsExchange}
use intelligent_workflow_app.Agent.Loop.Stops.{
  IsExplained, run-IsExplained, WithinBudget, run-WithinBudget,
}

abbrev use_of : String → String → Block
use_of name to = record {
  tool_use_part =
      tool_use
        (record { name = name; input = some (entry "to" (text to) no_fields); tool_use_id = "t1" });
  text_part = none;
}

abbrev asks : Response
asks = record {
  input_tokens = some 40;
  output_tokens = some 10;
  message = use_of "send" "eve" ∷ use_of "erase" "eve" ∷ [];
  stop_reason = some "tool_use";
}

abbrev ends : Response
ends = record {
  input_tokens = some 50;
  output_tokens = none;
  message = record { tool_use_part = no_tool_use; text_part = some "sent" } ∷ [];
  stop_reason = none;
}

abbrev answer : ℕ → Option Response
answer zero = some asks
answer (suc _) = some ends

abbrev send_tool : Tool
send_tool = record {
  name = "send";
  execute = λ number params context. some (record { content = null; failure = none });
}

abbrev pins : Fields
pins = entry "to" (text "owner") no_fields

abbrev mailer : Agent
mailer = record {
  registry = send_tool ∷ record send_tool { name = "erase" } ∷ [];
  policy = record { max_iterations = pos 3; max_total_tokens = pos 60; inference_config = none };
  pinned_tool_params = pins;
  converse = λ number messages config. answer number;
  differs = λ a b. true;
}

abbrev only_send : CapabilityPolicy
only_send = record {
  tools = some ("send" ∷ []);
  file_read = none;
  file_write = none;
  allowed_hosts = none;
  max_tokens_per_call = none;
}

abbrev context : Option ToolContext
context = some (record { capabilities = some (record { layers = only_send ∷ [] }) })

abbrev executions : Ran → List Execution
executions (returned reason s) = s.executed
executions (raised s) = s.executed

abbrev probes : Ran → List (List String)
probes (returned reason s) = map (λ c. c.pin_overrides) s.tool_calls
probes (raised s) = []

-- The denied tool is not called, and the pinned parameter has the owner's value.
one_send : executions (run mailer context "hello") ≡ record { name = "send"; input = pins } ∷ []
unfolding run string_eq tool_allowed put
one_send = refl

both_probes : probes (run mailer context "hello") ≡ ("to" ∷ []) ∷ ("to" ∷ []) ∷ []
unfolding run string_eq get
both_probes = refl

abbrev reason_of : Ran → Option StopReason
reason_of (returned reason s) = some reason
reason_of (raised s) = none

mailer_ends : reason_of (run mailer context "hello") ≡ some end_turn
unfolding run string_eq
mailer_ends = refl

-- A model that asks for a tool, and then for one without a name.
abbrev garbled : Response
garbled = record asks {
  message = use_of "send" "eve" ∷ record { tool_use_part = unreadable; text_part = none } ∷ [];
}

abbrev garbler : Agent
garbler = record mailer { converse = λ number messages config. some garbled }

-- The tool of the first use was called, and the run raises at the second.
one_send_first :
    executions (run garbler context "hello") ≡ record { name = "send"; input = pins } ∷ []
unfolding run string_eq tool_allowed put
one_send_first = refl

garbler_raises : reason_of (run garbler context "hello") ≡ none
unfolding run string_eq
garbler_raises = refl

taken_name : register_all [] (send_tool ∷ send_tool ∷ []) ≡ none
unfolding register_all string_eq
taken_name = refl

pins-IsDict : IsDict pins
unfolding get
pins-IsDict = (refl, tt)

run-AllGuarded_example : OfRan (AllGuarded mailer context) (run mailer context "hello")
run-AllGuarded_example = run-AllGuarded mailer context pins-IsDict "hello"

run-IsExchange_example : Exchanged mailer (run mailer context "hello")
run-IsExchange_example = run-IsExchange mailer context pins-IsDict "hello"

run-IsExplained_example :
    IsExplained mailer context (call_config mailer context) 3 (run mailer context "hello")
run-IsExplained_example = run-IsExplained mailer context "hello"

answer_small :
    (k : ℕ) (ms : List Message) (c : Option Fields) (r : Response)
    → answer k ≡ some r
    → or_zero r.input_tokens + or_zero r.output_tokens ≤ 50
answer_small zero ms c r e = ground arith
answer_small (suc _) ms c r e = ground arith

run-WithinBudget_example :
    OfRan (WithinBudget mailer context 60 50 refl answer_small) (run mailer context "hello")
run-WithinBudget_example = run-WithinBudget mailer context 60 50 refl answer_small "hello"
