-- ===== src/Engine/Fork.antt =====
-- engine/executor.py: what `fork` decides before it writes anything: whether it is refused, and which
-- step rows of the source it carries over.
pub mod Latest
pub mod Laws
use intelligent_workflow_app.Prelude.{
  String, Bool, true, false, ◌&&◌, not, Option, none, some, List, [], ◌∷◌, contains, keep, foldl,
  is_none, ltb, ◌==◌, string_eq, if◌then◌else◌,
}
use intelligent_workflow_app.Value.{Fields, no_fields, entry, get}
use intelligent_workflow_app.Workflow.Definition.{WorkflowDefinition}
use intelligent_workflow_app.Workflow.Topology.{step_ids}
use intelligent_workflow_app.Trace.ToolCall.{Encoder, truthy, truthy_at}
use intelligent_workflow_app.Engine.Rows.{WorkflowInstance, StepExecution, is_step_completed}
use intelligent_workflow_app.Engine.Ancestors.{ancestors}

-- `s.output`, as a test: there is one, and it is not empty.
abbrev has_output : Option Fields → Bool
has_output none = false
has_output (some no_fields) = false
has_output (some _) = true

-- The test of the loop, of a step.
abbrev pub is_usable : StepExecution → Bool
is_usable s = is_step_completed s.state && has_output s.output

-- `source_attempt[s.step_id] = s`, of a dict in insertion order.
unfoldable pub put_attempt : StepExecution → List StepExecution → List StepExecution
put_attempt s [] = s ∷ []
put_attempt s (r ∷ rows) = if r.step_id == s.step_id then s ∷ rows else r ∷ put_attempt s rows

-- `source_attempt.get(step_id)`
unfoldable pub attempt_of : String → List StepExecution → Option StepExecution
attempt_of step_id [] = none
attempt_of step_id (r ∷ rows) = if r.step_id == step_id then some r else attempt_of step_id rows

-- The body of the loop over the source's steps. `usable_outputs` has the keys of `source_attempt` and
-- the outputs of its rows.
unfoldable pub consider : List String → List StepExecution → StepExecution → List StepExecution
unfolding put_attempt attempt_of
consider preserved chosen s =
    if contains preserved s.step_id && is_usable s
    then elim (attempt_of s.step_id chosen) [
      | none ↦ put_attempt s chosen
      | some cur ↦ if ltb cur.attempt s.attempt then put_attempt s chosen else chosen
    ]
    else chosen

unfoldable pub source_attempts : List String → List StepExecution → List StepExecution
unfolding consider
source_attempts preserved source_steps = foldl (consider preserved) [] source_steps

-- `preserved - usable_outputs.keys()`
unfoldable pub missing_outputs : List String → List StepExecution → List String
unfolding attempt_of
missing_outputs preserved chosen = keep (λ p. is_none (attempt_of p chosen)) preserved

-- The refusals, and the rows that are carried over.
pub data ForkPlan : Type 0 where
  instance_not_found dry_run step_not_in_workflow : ForkPlan
  lacks : List String → ForkPlan
  carries : List StepExecution → ForkPlan

unfoldable pub fork_plan :
    Encoder → WorkflowDefinition → Option WorkflowInstance → List StepExecution → String → ForkPlan
unfolding get truthy ancestors source_attempts missing_outputs
fork_plan enc definition none source_steps from_step_id = instance_not_found
fork_plan enc definition (some source) source_steps from_step_id =
    let preserved = ancestors definition.edges from_step_id in
    let chosen = source_attempts preserved source_steps in
    if truthy_at enc (get "dry_run" source.context)
    then dry_run
    else if not (contains (step_ids definition) from_step_id)
    then step_not_in_workflow
    else elim (missing_outputs preserved chosen) [ [] ↦ carries chosen | p ∷ ps ↦ lacks (p ∷ ps) ]
