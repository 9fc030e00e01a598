-- ===== src/Engine/Fork/Laws.antt =====
-- engine/executor.py: a fork carries over the latest completed attempt of each ancestor.
use intelligent_workflow_app.Prelude.{
  ◌≡◌, ◌≢◌, ◌↔◌, String, true, false, Option, none, some, List, [], All, contains, string_eq,
}
use intelligent_workflow_app.Workflow.Definition.{WorkflowDefinition}
use intelligent_workflow_app.Workflow.Topology.{step_ids}
use intelligent_workflow_app.Value.{get}
use intelligent_workflow_app.Trace.ToolCall.{Encoder, truthy, truthy_at}
use intelligent_workflow_app.Engine.Rows.{WorkflowInstance, StepExecution}
use intelligent_workflow_app.Engine.Ancestors.{ancestors}
use intelligent_workflow_app.Engine.Ancestors.Laws.{Reaches}
use intelligent_workflow_app.Engine.Fork.{
  attempt_of, source_attempts, ForkPlan, instance_not_found, dry_run, step_not_in_workflow, lacks,
  carries,
}
use intelligent_workflow_app.Engine.Fork.Latest.{is_candidate, IsLatest}

-- What a plan of a fork says of the source and its rows.
unfoldable pub IsPlan :
    Encoder
    → WorkflowDefinition
    → Option WorkflowInstance
    → List StepExecution
    → String
    → ForkPlan
    → Type 0
unfolding get truthy attempt_of
IsPlan enc d source rows from instance_not_found = source ≡ none
IsPlan enc d none rows from _ = ⊥
IsPlan enc d (some i) rows from dry_run = truthy_at enc (get "dry_run" i.context) ≡ true
IsPlan enc d (some i) rows from step_not_in_workflow = contains (step_ids d) from ≡ false
IsPlan enc d (some i) rows from (lacks ps) =
    (ps ≢ [])
    × ((p : String)
        → (contains ps p ≡ true)
          ↔ (Reaches d.edges p from × All (λ r. is_candidate p r ≡ false) rows))
IsPlan enc d (some i) rows from (carries chosen) =
    (truthy_at enc (get "dry_run" i.context) ≡ false)
    × (contains (step_ids d) from ≡ true)
    × ((p : String)
        → Reaches d.edges p from
        → (best : StepExecution) × (attempt_of p chosen ≡ some best) × IsLatest p rows (some best))

module _ (enc : Encoder) (d : WorkflowDefinition) (i : WorkflowInstance) (rows : List StepExecution)
    (from : String) where
  abbrev kept_steps : List String
  kept_steps = ancestors d.edges from

  abbrev chosen_rows : List StepExecution
  chosen_rows = source_attempts kept_steps rows
