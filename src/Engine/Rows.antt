-- ===== src/Engine/Rows.antt =====
-- persistence/models.py: the rows of an instance and of a step, which the engine drives.
use intelligent_workflow_app.Prelude.{ℕ, String, Bool, true, false, Option}
use intelligent_workflow_app.Prelude.Int.{ℤ}
use intelligent_workflow_app.Value.{Fields}

pub data WorkflowInstanceState : Type 0 where
  pending running paused completed failed killed : WorkflowInstanceState

pub data StepExecutionState : Type 0 where
  pending running completed failed skipped cancelled : StepExecutionState

pub record WorkflowInstance : Type 0 where
  pub id : String
  pub workflow_id : String
  pub org_id : String
  pub state : WorkflowInstanceState
  pub trigger_payload : Fields
  pub context : Fields
  pub error : Option String
  pub projector_version : Option String
  pub projection_schema_version : Option ℤ
  pub created_at : ℕ
  pub started_at : Option ℕ
  pub completed_at : Option ℕ

pub record StepExecution : Type 0 where
  pub id : String
  pub instance_id : String
  pub step_id : String
  pub attempt : ℕ
  pub state : StepExecutionState
  pub output : Option Fields
  pub error : Option String
  pub projector_version : Option String
  pub projection_schema_version : Option ℤ
  pub started_at : Option ℕ
  pub completed_at : Option ℕ

-- `i.state is WorkflowInstanceState.RUNNING`, and the same of the other states that the code asks for.
abbrev pub is_running : WorkflowInstanceState → Bool
is_running running = true
is_running _ = false

abbrev pub is_step_running : StepExecutionState → Bool
is_step_running running = true
is_step_running _ = false

abbrev pub is_step_completed : StepExecutionState → Bool
is_step_completed completed = true
is_step_completed _ = false
