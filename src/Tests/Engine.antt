-- ===== src/Tests/Engine.antt =====
-- Tests of the dispatch loop: a step after another, and a step that is skipped.
use intelligent_workflow_app.Prelude.{
  ◌↔◌, ℕ, ◌+◌, eqb, ◌≤◌, ◌≡◌, refl, String, true, false, ◌==◌, string_eq, if◌then◌else◌, some, List,
  [], ◌∷◌, All, contains, count, arith, Bool-cases, inl, inr,
}
use intelligent_workflow_app.Workflow.Definition.{Edge, WorkflowDefinition}
use intelligent_workflow_app.Engine.Dispatch.{
  Dispatch, value, Done, Tick, undisturbed, Run, running, over, fresh_dispatch, schedule_or_skip,
  dispatch_loop, completed, schedule_initial, round,
}
use intelligent_workflow_app.Prelude.Int.{pos, negsuc}
use intelligent_workflow_app.Engine.Ancestors.{ancestors}
use intelligent_workflow_app.Engine.Ancestors.Laws.{Reaches, ancestors-Reaches}
use intelligent_workflow_app.Engine.Retry.{
  StepResult, success, step_failure, latest_attempt, run_step_with_retry,
}
use intelligent_workflow_app.Engine.Retry.Laws.{Story, IsNew, run_step_with_retry-Story}
use intelligent_workflow_app.Engine.Dispatch.Keeps.{OfRun}
use intelligent_workflow_app.Engine.Dispatch.Once.{Accounted, dispatch_loop-IsAccounted}
use intelligent_workflow_app.Engine.Dispatch.Ready.{Emptied, dispatch_loop-Emptied}
use intelligent_workflow_app.Engine.Dispatch.Predecessors.{FollowsEdges, dispatch_loop-FollowsEdges}
use intelligent_workflow_app.Workflow.Topology.{validate_and_order, ok}
use intelligent_workflow_app.Engine.Dispatch.Order.{is_released}
use intelligent_workflow_app.Engine.Dispatch.Ends.{
  Fruitful, first_state, IsOver, dispatch_loop_ends,
}
use intelligent_workflow_app.Engine.Dispatch.Handled.{dispatch_loop_handles_all}
use intelligent_workflow_app.Engine.Dispatch.Fuel.{schedule_or_skip_enough}
use intelligent_workflow_app.Tests.Flows.{edge, flow, linear}

abbrev succeeds : String → Done
succeeds sid = record { sid = sid; succeeded = true; total_tokens = 10; eval = λ _. value false }

abbrev tick : List Done → Tick
tick done = record { seen = undisturbed; done = done; finished = λ _. false }

abbrev two_ticks : List Tick
two_ticks = tick (succeeds "fetch" ∷ []) ∷ tick (succeeds "draft" ∷ []) ∷ []

-- What a test sees of a run.
abbrev started_of : Run → List String
started_of (running d) = d.started
started_of (over o d) = d.started

abbrev skipped_of : Run → List String
skipped_of (running d) = d.skipped
skipped_of (over o d) = d.skipped

runs_both : started_of (dispatch_loop linear [] two_ticks) ≡ "draft" ∷ "fetch" ∷ []
unfolding dispatch_loop string_eq
runs_both = refl

resumes_behind : started_of (dispatch_loop linear ("fetch" ∷ []) []) ≡ "draft" ∷ []
unfolding dispatch_loop string_eq
resumes_behind = refl

abbrev guarded : WorkflowDefinition
guarded = flow (record (edge "fetch" "draft") { condition = some "steps.fetch.ok" } ∷ [])

skips_draft : skipped_of (dispatch_loop guarded [] two_ticks) ≡ "draft" ∷ []
unfolding dispatch_loop string_eq
skips_draft = refl

dispatch_loop-IsAccounted_example : Accounted [] (dispatch_loop linear [] two_ticks)
dispatch_loop-IsAccounted_example = dispatch_loop-IsAccounted linear [] two_ticks

dispatch_loop-Emptied_example : Emptied (dispatch_loop linear [] two_ticks)
dispatch_loop-Emptied_example = dispatch_loop-Emptied linear [] two_ticks

fetch_once : (v : String) → count v ("fetch" ∷ []) ≤ 1
fetch_once v = ground arith

dispatch_loop-FollowsEdges_example :
    OfRun
      (FollowsEdges linear.edges ("fetch" ∷ []))
      (dispatch_loop linear ("fetch" ∷ []) (tick (succeeds "draft" ∷ []) ∷ []))
dispatch_loop-FollowsEdges_example =
    dispatch_loop-FollowsEdges linear ("fetch" ∷ []) (tick (succeeds "draft" ∷ []) ∷ []) fetch_once

abbrev fresh : Dispatch
fresh = fresh_dispatch linear.edges []

abbrev linear_edges : String → List Edge
linear_edges v = if v == "fetch" then edge "fetch" "draft" ∷ [] else []

linear_edges-known :
    (v : String) → All (λ e. contains ("draft" ∷ "fetch" ∷ []) e.target ≡ true) (linear_edges v)
linear_edges-known v = elim (Bool-cases (v == "fetch")) [
  | inl same ↦ rw same (ground arith, tt)
  | inr other ↦ rw other tt
]

fresh-edges : fresh.dag.edges_by_source ≡ linear_edges
unfolding fresh_dispatch
fresh-edges = refl

schedule_or_skip_enough_example :
    schedule_or_skip 2 "fetch" fresh ≡ schedule_or_skip 9 "fetch" fresh
schedule_or_skip_enough_example =
    schedule_or_skip_enough ("draft" ∷ "fetch" ∷ []) linear_edges linear_edges-known 9 "fetch" fresh
      (omega arith) (ground arith) fresh-edges

abbrev flaky : ℕ → StepResult
flaky a = if eqb a 4 then success else step_failure

flaky_attempts :
    (run_step_with_retry (pos 2) "fetch" (("fetch", 2) ∷ ("draft", 7) ∷ []) flaky).attempts
    ≡ 3 ∷ 4 ∷ []
unfolding run_step_with_retry string_eq
flaky_attempts = refl

-- With a negative number of retries nothing is run, and the step returns.
never_runs : (run_step_with_retry (negsuc 0) "fetch" [] flaky).attempts ≡ []
unfolding run_step_with_retry
never_runs = refl

run_step_with_retry-Story_example :
    (let r = run_step_with_retry (pos 2) "fetch" (("fetch", 2) ∷ ("draft", 7) ∷ []) flaky in
      let first = latest_attempt "fetch" (("fetch", 2) ∷ ("draft", 7) ∷ []) + 1 in
      Story flaky (2 + 1) first r.attempts r.ended
      × IsNew "fetch" (("fetch", 2) ∷ ("draft", 7) ∷ []) first)
run_step_with_retry-Story_example =
    run_step_with_retry-Story 2 "fetch" (("fetch", 2) ∷ ("draft", 7) ∷ []) flaky

-- On a resume the edge of a step that is done counts as active, although its condition is false:
-- a run that was not interrupted skips the step (`skips_draft`).
resume_forgets_condition : started_of (dispatch_loop guarded ("fetch" ∷ []) []) ≡ "draft" ∷ []
unfolding dispatch_loop string_eq
resume_forgets_condition = refl

ancestors-Reaches_example :
    (contains (ancestors linear.edges "draft") "fetch" ≡ true)
    ↔ Reaches linear.edges "fetch" "draft"
ancestors-Reaches_example = ancestors-Reaches linear.edges "draft" "fetch"

abbrev linear_order : List String
linear_order = "fetch" ∷ "draft" ∷ []

linear_valid : validate_and_order linear ≡ ok linear_order
unfolding validate_and_order string_eq
linear_valid = refl

abbrev three_ticks : List Tick
three_ticks = tick (succeeds "fetch" ∷ []) ∷ tick (succeeds "draft" ∷ []) ∷ tick [] ∷ []

linear-Fruitful : Fruitful 2 linear.policies three_ticks (first_state linear [])
unfolding fresh_dispatch schedule_initial round string_eq
linear-Fruitful = ((λ _. refl), ((λ _. refl), ((λ busy. absurd (busy refl)), tt)))

dispatch_loop_ends_example : IsOver (dispatch_loop linear [] three_ticks)
dispatch_loop_ends_example =
    dispatch_loop_ends linear linear_order [] three_ticks linear_valid linear-Fruitful (omega arith)

abbrev state_of : Run → Dispatch
state_of (running d) = d
state_of (over o d) = d

abbrev linear_end : Dispatch
linear_end = state_of (dispatch_loop linear [] two_ticks)

linear_completes : dispatch_loop linear [] two_ticks ≡ over completed linear_end
unfolding dispatch_loop string_eq
linear_completes = refl

dispatch_loop_handles_all_example : is_released linear.edges [] linear_end "draft" ≡ true
dispatch_loop_handles_all_example =
    dispatch_loop_handles_all linear linear_order [] two_ticks linear_end linear_valid
      (λ v. omega arith) linear_completes "draft" (ground arith)
