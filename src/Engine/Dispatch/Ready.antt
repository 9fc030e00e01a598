-- ===== src/Engine/Dispatch/Ready.antt =====
-- What is left at the end of the loop.
use intelligent_workflow_app.Prelude.{ℕ, ◌≡◌, refl, String, List, [], length, string_eq}
use intelligent_workflow_app.Workflow.Definition.{WorkflowDefinition}
use intelligent_workflow_app.Workflow.Topology.{step_ids}
use intelligent_workflow_app.Engine.Dispatch.{cancel_pending, Tick, Run, dispatch_loop}
use intelligent_workflow_app.Engine.Dispatch.Passes.{OfRounds, IsPassed, rounds_pass}

-- A run that is over leaves no task behind.
abbrev pub Emptied : Run → Type 0
Emptied = OfRounds (λ _. Unit) (λ _ d. d.in_progress ≡ [])

Emptied-IsPassed : (fuel : ℕ) → IsPassed fuel (λ _ _. Unit) (λ _ d. d.in_progress ≡ [])
unfolding cancel_pending
Emptied-IsPassed fuel = record {
  takes = λ _ _ _ _. tt;
  resolves = λ _ _ _ _ _. tt;
  observes = λ _ _ _ _. tt;
  audits = λ _ _ _ _. tt;
  leaves = λ _ _ _ _ _. refl;
  completes = λ d empty _. empty;
}

-- However the loop ends, in completion, a pause, a stop or a failure, no task is left in progress.
pub dispatch_loop-Emptied :
    (definition : WorkflowDefinition) (already_done : List String) (ticks : List Tick)
    → Emptied (dispatch_loop definition already_done ticks)
unfolding dispatch_loop
dispatch_loop-Emptied definition already_done ticks =
    let fuel = length (step_ids definition) in
    rounds_pass fuel (λ _ _. Unit) (λ _ d. d.in_progress ≡ []) (Emptied-IsPassed fuel)
      definition.policies ticks _ tt
