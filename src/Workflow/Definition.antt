-- ===== src/Workflow/Definition.antt =====
-- workflow/definition.py: the schema of a workflow. Times are whole seconds.
pub mod Ids
use intelligent_workflow_app.Prelude.{
  ℕ, String, Bool, true, false, not, ◌&&◌, Option, none, some, List, [], ◌∷◌, is_none,
}
use intelligent_workflow_app.Prelude.Int.{ℤ}
use intelligent_workflow_app.Value.{Fields}
use intelligent_workflow_app.Security.Capabilities.{CapabilityPolicy}
use intelligent_workflow_app.Elicitation.Catalog.{QuestionCatalog}

pub record TriggerSpec : Type 0 where
  pub type : String
  pub config : Fields
  pub example_payload : Option Fields

-- Nothing in the schema keeps `retries` from being negative.
pub record StepRuntimePolicy : Type 0 where
  pub retries : ℤ
  pub timeout_seconds : Option ℕ

pub record AgenticStepPolicy : Type 0 where
  pub max_iterations : ℕ
  pub max_total_tokens : ℕ
  pub inference_config : Option Fields

pub record RequireToolCall : Type 0 where
  pub name : String
  pub min_success : ℕ

pub record DeterministicStep : Type 0 where
  pub id : String
  pub function : String
  pub config : Fields
  pub outputs : List String
  pub capabilities : Option CapabilityPolicy
  pub runtime : StepRuntimePolicy
  pub label : Option String
  pub output_renderer : Option String

pub record AgenticStep : Type 0 where
  pub id : String
  pub goal : String
  pub tools : List String
  pub model : String
  pub system_prompt : Option String
  pub inputs : Option (List String)
  pub pin_params : Option (List (String × String))
  pub require_tool_call : Option RequireToolCall
  pub policy : AgenticStepPolicy
  pub outputs : List String
  pub capabilities : Option CapabilityPolicy
  pub runtime : StepRuntimePolicy
  pub label : Option String
  pub output_renderer : Option String

-- The union that `type` discriminates.
pub data Step : Type 0 where
  deterministic : DeterministicStep → Step
  agentic : AgenticStep → Step

abbrev pub step_id : Step → String
step_id (deterministic s) = s.id
step_id (agentic s) = s.id

abbrev pub step_runtime : Step → StepRuntimePolicy
step_runtime (deterministic s) = s.runtime
step_runtime (agentic s) = s.runtime

abbrev pub step_capabilities : Step → Option CapabilityPolicy
step_capabilities (deterministic s) = s.capabilities
step_capabilities (agentic s) = s.capabilities

-- `source` and `target` are the schema's `from` and `to`.
pub record Edge : Type 0 where
  pub on_error : String
  pub source : String
  pub target : String
  pub condition : Option String
  pub condition_label : Option String

pub data BudgetAction : Type 0 where
  notify pause escalate : BudgetAction

pub record WorkflowPolicy : Type 0 where
  pub max_total_tokens : Option ℕ
  pub timeout_seconds : Option ℕ
  pub budget_action : BudgetAction

pub data Author : Type 0 where
  user third_party system : Author

pub record ObservationSpec : Type 0 where
  pub text : String
  pub author : Author
  pub derived_from : Option Author
  pub event_type : String
  pub date_from : Option String
  pub ref_from : Option String

pub record RecallSpec : Type 0 where
  pub query_from : String
  pub token_budget : ℕ
  pub filters : Option (List (String × String))

pub record LearnedMemorySpec : Type 0 where
  pub user_id : String
  pub source_id : Option String
  pub observations : List ObservationSpec
  pub recall : Option RecallSpec

pub record QuestionSuggestSpec : Type 0 where
  pub model : String
  pub inputs : List String
  pub max_input_chars : ℕ
  pub max_output_tokens : ℕ

pub record QuestionSpec : Type 0 where
  pub candidate_from : Option String
  pub suggest : Option QuestionSuggestSpec
  pub subject : String
  pub recipient : String
  pub catalog : QuestionCatalog

pub record WorkflowDefinition : Type 0 where
  pub id : String
  pub name : String
  pub description : String
  pub trigger : TriggerSpec
  pub steps : List Step
  pub edges : List Edge
  pub policies : WorkflowPolicy
  pub capabilities : Option CapabilityPolicy
  pub learned_memory : Option LearnedMemorySpec
  pub questions : Option QuestionSpec
  pub released_fields : Option (List (String × List String))

-- The validator of `QuestionSpec`: whether the spec is accepted.
unfoldable pub one_candidate_source : QuestionSpec → Bool
one_candidate_source q = elim (is_none q.candidate_from) [
  | true ↦ not (is_none q.suggest)
  | false ↦ is_none q.suggest
]

-- The validator of `WorkflowDefinition`: whether the definition is accepted. The code behind its
-- `return` never runs.
unfoldable pub released_fields_are_withdrawn : WorkflowDefinition → Bool
released_fields_are_withdrawn d = is_none d.released_fields
