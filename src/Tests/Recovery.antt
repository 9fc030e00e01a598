-- ===== src/Tests/Recovery.antt =====
-- Tests of a fork's plan and of the sweep: two attempts of a step, and two instances left RUNNING.
use intelligent_workflow_app.Prelude.{
  ◌≡◌, refl, ℕ, ◌≤◌, String, true, false, none, some, List, [], ◌∷◌, All, ◌==◌, string_eq, map,
  contains, count_if, arith,
}
use intelligent_workflow_app.Value.{no_fields, entry, text}
use intelligent_workflow_app.Trace.ToolCall.{Encoder}
use intelligent_workflow_app.Engine.Rows.{
  WorkflowInstance, WorkflowInstanceState, StepExecution, StepExecutionState, running, paused,
  completed, failed, is_running,
}
use intelligent_workflow_app.Engine.Fork.{lacks, carries, fork_plan}
use intelligent_workflow_app.Recovery.{Tables, Surroundings, sweep_interrupted_instances}
use intelligent_workflow_app.Recovery.Undisturbed.{sweep_interrupted_instances-All}
use intelligent_workflow_app.Tests.Flows.{linear}

abbrev plain_encoder : Encoder
plain_encoder = record { json_size = λ _. 5; real_is_true = λ _. true }

abbrev an_instance : String → WorkflowInstanceState → ℕ → WorkflowInstance
an_instance i s age = record {
  id = i;
  workflow_id = "w";
  org_id = "default";
  state = s;
  trigger_payload = no_fields;
  context = no_fields;
  error = none;
  projector_version = none;
  projection_schema_version = none;
  created_at = age;
  started_at = none;
  completed_at = none;
}

abbrev a_step : String → String → ℕ → StepExecutionState → StepExecution
a_step i iid attempt s = record {
  id = i;
  instance_id = iid;
  step_id = "fetch";
  attempt = attempt;
  state = s;
  output = some (entry "by" (text i) no_fields);
  error = none;
  projector_version = none;
  projection_schema_version = none;
  started_at = none;
  completed_at = none;
}

abbrev three_attempts : List StepExecution
three_attempts =
    a_step "s1" "i" 1 completed ∷ a_step "s3" "i" 3 failed ∷ a_step "s2" "i" 2 completed ∷ []

carries_latest :
    fork_plan plain_encoder linear (some (an_instance "i" completed 0)) three_attempts "draft"
    ≡ carries (a_step "s2" "i" 2 completed ∷ [])
unfolding fork_plan string_eq
carries_latest = refl

lacks_fetch :
    fork_plan plain_encoder linear
      (some (an_instance "i" completed 0))
      (a_step "s3" "i" 3 failed ∷ [])
      "draft"
    ≡ lacks ("fetch" ∷ [])
unfolding fork_plan string_eq
lacks_fetch = refl

-- The steps of the first instance cannot be updated.
abbrev flaky_store : Surroundings
flaky_store = record {
  list_fails = false;
  steps_fail = λ _. false;
  step_update_fails = λ sid. sid == "s1";
  update_fails = λ _. false;
  append_fails = λ _. false;
  utcnow = λ _. 9;
}

abbrev calm_store : Surroundings
calm_store = record flaky_store { step_update_fails = λ _. false }

abbrev left_running : Tables
left_running = record {
  instances = an_instance "b" running 2 ∷ an_instance "c" paused 1 ∷ an_instance "a" running 1 ∷ [];
  steps = a_step "s1" "a" 1 running ∷ a_step "s2" "b" 1 running ∷ [];
  audit = [];
}

counts_one : (sweep_interrupted_instances flaky_store "" 5000 left_running).1 ≡ 1
unfolding sweep_interrupted_instances string_eq
counts_one = refl

pauses_one :
    map (λ i. i.state) (sweep_interrupted_instances flaky_store "" 5000 left_running).0.instances
    ≡ paused ∷ paused ∷ running ∷ []
unfolding sweep_interrupted_instances string_eq
pauses_one = refl

off : contains {A = String} ("1" ∷ "true" ∷ "yes" ∷ []) "" ≡ false
unfolding string_eq
off = refl

room : count_if (λ i. is_running i.state) left_running.instances ≤ 5000
room = omega arith

sweep_interrupted_instances-All_example :
    All
      (λ r. is_running r.state ≡ false)
      (sweep_interrupted_instances calm_store "" 5000 left_running).0.instances
sweep_interrupted_instances-All_example =
    sweep_interrupted_instances-All calm_store "" 5000 left_running
      (refl, (λ _. refl), (λ _. refl), (λ _. refl), λ _. refl) off room
