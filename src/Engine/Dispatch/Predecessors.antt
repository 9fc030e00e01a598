-- ===== src/Engine/Dispatch/Predecessors.antt =====
-- The order of the whole loop: at every point, the predecessors of a started step are done.
use intelligent_workflow_app.Prelude.{
  ℕ, ◌+◌, ◌≤◌, ◌≡◌, String, true, false, not, ◌&&◌, ◌||◌, List, [], ◌∷◌, All, contains, count,
  length, ◌==◌, string_eq, if◌then◌else◌, arith, Bool-cases, inl, inr,
}
use intelligent_workflow_app.Workflow.Definition.{Edge, WorkflowDefinition}
use intelligent_workflow_app.Workflow.Topology.{step_ids}
use intelligent_workflow_app.Engine.Dag.{is_ready}
use intelligent_workflow_app.Engine.Dag.Counts.{
  into, released_into, released_into_ext, All-released, build-total, build-sources, build-resolved,
}
use intelligent_workflow_app.Engine.Dispatch.{
  Dispatch, schedule_or_skip, schedule_initial, cancel_pending, Run, running, over, Outcome,
  completed, paused, killed, failed, Tick, fresh_dispatch, dispatch_loop,
}
use intelligent_workflow_app.Engine.Dispatch.Passes.{OfRounds, is_left, IsPassed, rounds_pass}
use intelligent_workflow_app.Engine.Dispatch.Keeps.{OfRun}
use intelligent_workflow_app.Engine.Dispatch.Once.{IsAccounted-IsKept, fresh-IsAccounted}
use intelligent_workflow_app.Engine.Dispatch.Order.{
  is_released, IsOrdered, respell, take-IsOrdered, resolve_then-IsOrdered, schedule-IsOrdered,
}

module _ (edges : List Edge) (already_done : List String) where
  abbrev pub nothing : String → ℕ
  nothing v = 0

  abbrev pub Ordered : (String → ℕ) → Dispatch → Type 0
  Ordered = IsOrdered edges already_done

  abbrev Pending : List Edge → Dispatch → Type 0
  Pending es = Ordered (λ v. into v es)

  abbrev Started : Dispatch → Type 0
  Started d =
      (v : String)
      → contains d.started v ≡ true
      → into v edges ≤ released_into (is_released edges already_done d) v edges

  -- What is left of the order where the loop is over.
  abbrev pub AtEnd : Outcome → Dispatch → Type 0
  AtEnd completed d = Ordered nothing d
  AtEnd _ d = Started d

  left-AtEnd :
      (o : Outcome) (es : List Edge) (d : Dispatch)
      → is_left o ≡ true
      → Pending es d
      → AtEnd o (cancel_pending d)
  unfolding cancel_pending
  left-AtEnd completed es d l h = absurd (ground arith)
  left-AtEnd paused es d l h = h.ordered
  left-AtEnd killed es d l h = h.ordered
  left-AtEnd failed es d l h = h.ordered

  Ordered-IsPassed : (fuel : ℕ) → IsPassed fuel Pending AtEnd
  Ordered-IsPassed fuel = record {
    takes = λ sid d here h.
        respell edges already_done _ (λ v. into v (d.dag.edges_by_source sid)) _
          (λ v. omega (arith, h.sources sid v))
          (take-IsOrdered edges already_done nothing sid d here h);
    resolves = λ active e es d h.
        resolve_then-IsOrdered edges already_done (λ v. into v es) (schedule_or_skip fuel)
          (schedule-IsOrdered edges already_done fuel (λ v. into v es)) active e d
          (respell edges already_done _ (λ v. into v es + (if e.target == v then 1 else 0)) d
            (λ v. omega arith) h);
    observes = λ finished es d h. record {
      accounted = (IsAccounted-IsKept already_done []).observes finished d h.accounted;
      total = h.total;
      sources = h.sources;
      room = h.room;
      ordered = h.ordered;
    };
    audits = λ action es d h. record {
      accounted = (IsAccounted-IsKept already_done []).audits action d h.accounted;
      total = h.total;
      sources = h.sources;
      room = h.room;
      ordered = h.ordered;
    };
    leaves = left-AtEnd;
    completes = λ d _ h. h;
  }

  schedule_initial-Ordered :
      (fuel : ℕ) (sids : List String) (d : Dispatch)
      → Ordered nothing d
      → Ordered nothing (schedule_initial fuel sids d)
  unfolding schedule_initial
  schedule_initial-Ordered fuel [] d h = h
  schedule_initial-Ordered fuel (sid ∷ sids) d h =
      elim (Bool-cases (is_ready d.dag sid && not (contains d.scheduled sid))) [
        | inr other ↦ rw other (schedule_initial-Ordered fuel sids d h)
        | inl new ↦ rw new (
            schedule_initial-Ordered fuel sids _
              (schedule-IsOrdered edges already_done fuel nothing sid d (ground arith) h))
      ]

  fresh-Ordered :
      ((v : String) → count v already_done ≤ 1)
      → Ordered nothing (fresh_dispatch edges already_done)
  unfolding fresh_dispatch
  fresh-Ordered u = record {
    accounted = fresh-IsAccounted edges already_done;
    total = build-total edges already_done;
    sources = build-sources edges already_done;
    room = λ v. omega (
      arith,
      build-resolved edges already_done u v,
      released_into_ext (contains already_done) (λ s. contains already_done s || (false || false)) v
          edges (λ s. ground arith),
    );
    ordered = λ v m. absurd (ground arith);
  }

  -- Each edge into a step that was started comes from a step that is done or skipped.
  abbrev pub FollowsEdges : Dispatch → Type 0
  FollowsEdges d =
      (v : String)
      → contains d.started v ≡ true
      → All (λ e. e.target ≡ v → is_released edges already_done d e.source ≡ true) edges

  of_Started : (d : Dispatch) → Started d → FollowsEdges d
  of_Started d h v m = All-released (is_released edges already_done d) v edges (h v m)

  of_run : (r : Run) → OfRounds (Ordered nothing) AtEnd r → OfRun FollowsEdges r
  of_run (running d) h = of_Started d h.ordered
  of_run (over completed d) h = of_Started d h.ordered
  of_run (over paused d) h = of_Started d h
  of_run (over killed d) h = of_Started d h
  of_run (over failed d) h = of_Started d h

-- The order at the end of a run of the loop.
pub dispatch_loop-AtEnd :
    (definition : WorkflowDefinition) (already_done : List String) (ticks : List Tick)
    → ((v : String) → count v already_done ≤ 1)
    → OfRounds
        (Ordered definition.edges already_done (nothing definition.edges already_done))
        (AtEnd definition.edges already_done)
        (dispatch_loop definition already_done ticks)
unfolding dispatch_loop
dispatch_loop-AtEnd definition already_done ticks u =
    let ids = step_ids definition in
    let edges = definition.edges in
    rounds_pass (length ids) (Pending edges already_done) (AtEnd edges already_done)
      (Ordered-IsPassed edges already_done (length ids)) definition.policies ticks _
      (schedule_initial-Ordered edges already_done (length ids) ids _
        (fresh-Ordered edges already_done u))

-- At every point of the loop, whatever the order in which the tasks finish: each edge into a step
-- that was started comes from a step that was done before, has given its result, or was skipped. The
-- steps that were done before are given once each.
pub dispatch_loop-FollowsEdges :
    (definition : WorkflowDefinition) (already_done : List String) (ticks : List Tick)
    → ((v : String) → count v already_done ≤ 1)
    → OfRun
        (FollowsEdges definition.edges already_done)
        (dispatch_loop definition already_done ticks)
dispatch_loop-FollowsEdges definition already_done ticks u =
    of_run definition.edges already_done _ (dispatch_loop-AtEnd definition already_done ticks u)
