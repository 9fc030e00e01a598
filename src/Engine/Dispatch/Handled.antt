-- ===== src/Engine/Dispatch/Handled.antt =====
-- A run of the loop that completes has handled every step of the definition.
use intelligent_workflow_app.Prelude.{
  ◌≡◌, refl, ap, subst, ℕ, zero, suc, ◌≤◌, ◌<◌, String, Bool, true, ◌||◌, List, [], ◌∷◌, All,
  All-contains, index, contains, eq_self, count, count_of_present, count_of_absent,
  missing_le_length, length, string_eq, arith,
}
use intelligent_workflow_app.Workflow.Definition.{Edge, WorkflowDefinition}
use intelligent_workflow_app.Workflow.Topology.{step_ids, validate_and_order, ok}
use intelligent_workflow_app.Workflow.Topology.Order.{
  Respects, known_of_bad_edge, ok_checks, validate_and_order-IsTopological,
}
use intelligent_workflow_app.Engine.Dag.{build_dag_state, is_ready}
use intelligent_workflow_app.Engine.Dag.Counts.{into, between, released_into, build-sources}
use intelligent_workflow_app.Engine.Dispatch.{
  Dispatch, was_seen, cancel_pending, completed, Tick, over, fresh_dispatch, dispatch_loop,
}
use intelligent_workflow_app.Engine.Dispatch.Passes.{OfRounds, rounds_pass}
use intelligent_workflow_app.Engine.Dispatch.Keeps.{OfRun, IsKept, dispatch_loop-keeps}
use intelligent_workflow_app.Engine.Dispatch.Order.{is_released, IsOrdered}
use intelligent_workflow_app.Engine.Dispatch.Predecessors.{AtEnd, dispatch_loop-AtEnd}
use intelligent_workflow_app.Engine.Dispatch.Ready.{Emptied, dispatch_loop-Emptied}
use intelligent_workflow_app.Engine.Dispatch.Ends.{known_into}
use intelligent_workflow_app.Engine.Dispatch.Covered.{
  IsCovered, CoveredAtEnd, schedule_initial-IsCovered, IsCovered-IsPassed,
}

-- A step that counts as scheduled was done before, started or skipped.
IsSeen : List String → Dispatch → Type 0
IsSeen already_done d =
    (v : String)
    → contains d.scheduled v ≡ true
    → (contains already_done v || (contains d.started v || contains d.skipped v)) ≡ true

IsSeen-IsKept : (ids already_done : List String) → IsKept ids (IsSeen already_done)
unfolding IsSeen cancel_pending
IsSeen-IsKept ids already_done = record {
  starts = λ sid d _ _ _ _ h v m. ground (arith, h v);
  skips = λ sid d _ _ _ _ h v m. ground (arith, h v);
  resolves = λ active e d h. h;
  takes = λ sid d _ h. h;
  cancels = λ d h. h;
  observes = λ finished d h. h;
  audits = λ action d h. h;
}

into_le_released :
    (rel : String → Bool) (v : String) (es : List Edge)
    → All (λ e. e.target ≡ v → rel e.source ≡ true) es
    → into v es ≡ released_into rel v es
into_le_released rel v [] a = refl
into_le_released rel v (e ∷ es) a = ground (arith, a.0, into_le_released rel v es a.1)

-- What a completed run is known to be.
record IsComplete (ids : List String) (edges : List Edge) (already_done : List String)
    (d : Dispatch) : Type 0 where
  ordered : IsOrdered edges already_done (λ _. 0) d
  seen : IsSeen already_done d
  empty : d.in_progress ≡ []
  uncancelled : (d.cancelled ≡ []) × (d.unread ≡ [])
  covered : (v : String) → contains ids v ≡ true → is_ready d.dag v ≡ true → was_seen v d ≡ true

module _ (ids : List String) (edges : List Edge) (already_done : List String) (d : Dispatch)
    (h : IsComplete ids edges already_done d) where
  released_of_started :
      (v : String) → contains d.started v ≡ true → is_released edges already_done d v ≡ true
  released_of_started v m = ground (
    arith,
    h.ordered.accounted.accounted v,
    count_of_present v d.started,
    count_of_absent v d.settled,
    ap (count v) h.empty,
    ap (count v) h.uncancelled.0,
    ap (count v) h.uncancelled.1,
  )

  released_of_ready :
      (v : String)
      → contains ids v ≡ true
      → All (λ e. e.target ≡ v → is_released edges already_done d e.source ≡ true) edges
      → is_released edges already_done d v ≡ true
  unfolding IsSeen
  released_of_ready v m a =
      let full = into_le_released (is_released edges already_done d) v edges a in
      let ready : is_ready d.dag v ≡ true = ground (arith, h.ordered.room v, h.ordered.total v) in
      ground (arith, h.covered v m ready, h.seen v, released_of_started v)

  module _ (order : List String) (respects : Respects edges order)
      (known : All
        (λ e. (contains ids e.source ≡ true) × (contains ids e.target ≡ true))
        edges) where
    edges_before :
        (k : ℕ) (v : String)
        → ((u : String)
            → contains ids u ≡ true
            → index u order < k
            → is_released edges already_done d u ≡ true)
        → index v order ≤ k
        → (es : List Edge) → Respects es order
        → All (λ e. (contains ids e.source ≡ true) × (contains ids e.target ≡ true)) es
        → All (λ e. e.target ≡ v → is_released edges already_done d e.source ≡ true) es
    edges_before k v ih l [] r a = tt
    edges_before k v ih l (e ∷ es) r a = (
      (λ same. ih e.source a.0.0 (omega (arith, r.0, ap (λ x. index x order) same))),
      edges_before k v ih l es r.1 a.1,
    )

    released_before :
        (k : ℕ) (v : String)
        → contains ids v ≡ true
        → index v order < k
        → is_released edges already_done d v ≡ true
    released_before zero v m l = absurd (omega arith)
    released_before (suc k) v m l =
        released_of_ready v m
          (edges_before k v (released_before k) (omega arith) edges respects known)

All_of_into :
    (P : String → Type 0) (es : List Edge)
    → ((v : String) → 1 ≤ into v es → P v)
    → All (λ e. P e.target) es
All_of_into P [] h = tt
All_of_into P (e ∷ es) h =
    (h e.target (ground (arith, eq_self e.target)), All_of_into P es (λ v i. h v (omega arith)))

between_le_into : (s v : String) (es : List Edge) → between s v es ≤ into v es
between_le_into s v [] = omega arith
between_le_into s v (e ∷ es) = ground (arith, between_le_into s v es)

module _ (definition : WorkflowDefinition) (order already_done : List String)
    (valid : validate_and_order definition ≡ ok order) where
  abbrev all_ids : List String
  all_ids = step_ids definition

  known_ends :
      All
        (λ e. (contains all_ids e.source ≡ true) × (contains all_ids e.target ≡ true))
        definition.edges
  known_ends = known_of_bad_edge all_ids definition.edges (ok_checks definition order valid).1

  abbrev first_edges : String → List Edge
  first_edges = (build_dag_state definition.edges already_done).edges_by_source

  known_sources : (v : String) → All (λ e. contains all_ids e.target ≡ true) (first_edges v)
  known_sources v =
      All_of_into (λ x. contains all_ids x ≡ true) (first_edges v)
        (λ x i. known_into all_ids definition.edges known_ends x (
          omega (
            arith,
            build-sources definition.edges already_done v x,
            between_le_into v x definition.edges,
          )))

  fresh-IsCovered :
      IsCovered all_ids first_edges known_sources
        (length all_ids)
        all_ids
        (fresh_dispatch definition.edges already_done)
  unfolding fresh_dispatch
  fresh-IsCovered = record {
    within = record { left = missing_le_length already_done all_ids; same_edges = refl };
    covered = λ v m r. ground arith;
    uncancelled = (refl, refl);
  }

  dispatch_loop-CoveredAtEnd :
      (ticks : List Tick)
      → (let n = length all_ids in
          OfRounds
            (λ d. Unit × IsCovered all_ids first_edges known_sources n [] d)
            (CoveredAtEnd all_ids first_edges known_sources n)
            (dispatch_loop definition already_done ticks))
  unfolding dispatch_loop
  dispatch_loop-CoveredAtEnd ticks =
      let n = length all_ids in
      rounds_pass n
        (λ es d.
          All (λ e. contains all_ids e.target ≡ true) es
          × IsCovered all_ids first_edges known_sources n [] d)
        (CoveredAtEnd all_ids first_edges known_sources n)
        (IsCovered-IsPassed all_ids first_edges known_sources n) definition.policies ticks _
        (
          tt,
          schedule_initial-IsCovered all_ids first_edges known_sources n all_ids _
              (All-contains all_ids all_ids (λ v m. m)) fresh-IsCovered,
        )

  completed-IsComplete :
      (ticks : List Tick) (d : Dispatch)
      → ((v : String) → count v already_done ≤ 1)
      → dispatch_loop definition already_done ticks ≡ over completed d
      → IsComplete all_ids definition.edges already_done d
  unfolding IsSeen fresh_dispatch
  completed-IsComplete ticks d unique ends =
      let n = length all_ids in
      let covered =
        subst
          (OfRounds (λ x. Unit × IsCovered all_ids first_edges known_sources n [] x)
            (CoveredAtEnd all_ids first_edges known_sources n))
          ends (dispatch_loop-CoveredAtEnd ticks) in
      record {
        ordered =
            subst
              (OfRounds (IsOrdered definition.edges already_done (λ _. 0))
                (AtEnd definition.edges already_done))
              ends (dispatch_loop-AtEnd definition already_done ticks unique);
        seen = subst (OfRun (IsSeen already_done)) ends (
            dispatch_loop-keeps (IsSeen already_done) definition already_done ticks
              (IsSeen-IsKept all_ids already_done) (λ v m. ground arith));
        empty = subst Emptied ends (dispatch_loop-Emptied definition already_done ticks);
        uncancelled = covered.uncancelled;
        covered = λ v m r. ground (arith, covered.covered v m r);
      }

-- A run of a validated definition that completes has forgotten no step: each step of the definition
-- was done before, has given its result, or was skipped. The steps that were done before are given
-- once each.
pub dispatch_loop_handles_all :
    (definition : WorkflowDefinition) (order already_done : List String) (ticks : List Tick)
    (d : Dispatch)
    → validate_and_order definition ≡ ok order
    → ((v : String) → count v already_done ≤ 1)
    → dispatch_loop definition already_done ticks ≡ over completed d
    → (v : String) → contains (step_ids definition) v ≡ true
    → is_released definition.edges already_done d v ≡ true
dispatch_loop_handles_all definition order already_done ticks d valid unique ends v m =
    let t = validate_and_order-IsTopological definition order valid in
    released_before (step_ids definition) definition.edges already_done d
      (completed-IsComplete definition order already_done valid ticks d unique ends) order
      t.respects (known_ends definition order already_done valid) (suc (index v order)) v m
      (omega arith)
