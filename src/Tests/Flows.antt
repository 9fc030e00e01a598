-- ===== src/Tests/Flows.antt =====
-- Sample definitions: two steps with an edge, and the same steps with a cycle.
use intelligent_workflow_app.Prelude.{String, none, some, List, [], ◌∷◌}
use intelligent_workflow_app.Prelude.Int.{pos}
use intelligent_workflow_app.Value.{no_fields}
use intelligent_workflow_app.Workflow.Definition.{
  Step, deterministic, agentic, Edge, WorkflowDefinition, notify,
}

abbrev pub edge : String → String → Edge
edge from to = record {
  on_error = "fail";
  source = from;
  target = to;
  condition = none;
  condition_label = none;
}

abbrev fetch_step : Step
fetch_step = deterministic (record {
  id = "fetch";
  function = "http.get";
  config = no_fields;
  outputs = [];
  capabilities = none;
  runtime = record { retries = pos 2; timeout_seconds = some 30 };
  label = none;
  output_renderer = none;
})

abbrev draft_step : Step
draft_step = agentic (record {
  id = "draft";
  goal = "Draft a reply";
  tools = "file_read" ∷ [];
  model = "default";
  system_prompt = none;
  inputs = none;
  pin_params = none;
  require_tool_call = none;
  policy = record { max_iterations = 10; max_total_tokens = 20000; inference_config = none };
  outputs = [];
  capabilities = none;
  runtime = record { retries = pos 0; timeout_seconds = none };
  label = none;
  output_renderer = none;
})

abbrev pub flow : List Edge → WorkflowDefinition
flow edges = record {
  id = "reply";
  name = "Reply";
  description = "";
  trigger = record { type = "manual"; config = no_fields; example_payload = none };
  steps = draft_step ∷ fetch_step ∷ [];
  edges = edges;
  policies = record {
    max_total_tokens = some 50000;
    timeout_seconds = none;
    budget_action = notify;
  };
  capabilities = none;
  learned_memory = none;
  questions = none;
  released_fields = none;
}

abbrev pub linear : WorkflowDefinition
linear = flow (edge "fetch" "draft" ∷ [])

abbrev pub cyclic : WorkflowDefinition
cyclic = flow (edge "fetch" "draft" ∷ edge "draft" "fetch" ∷ [])
