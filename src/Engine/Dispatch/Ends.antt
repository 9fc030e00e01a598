-- ===== src/Engine/Dispatch/Ends.antt =====
-- The dispatch loop ends: each round in which a task is done uses up a step.
use intelligent_workflow_app.Prelude.{
  ◌≡◌, ◌≢◌, refl, sym, subst, ◌⊎◌, ◌∙◌, ℕ, suc, ◌+◌, ◌≤◌, ◌<◌, String, true, List, [], ◌∷◌, All,
  All-contains, any, contains, count_of_present, count_of_absent, length, length_le_of_count,
  string_eq, arith, List-cases, inl, inr,
}
use mathlib.Core.List.{cons-ne-nil}
use intelligent_workflow_app.Workflow.Definition.{Edge, WorkflowDefinition, WorkflowPolicy}
use intelligent_workflow_app.Workflow.Topology.{step_ids, validate_and_order, ok}
use intelligent_workflow_app.Workflow.Topology.Order.{known_of_bad_edge, ok_checks}
use intelligent_workflow_app.Engine.Dag.{resolve_edge}
use intelligent_workflow_app.Engine.Dag.Counts.{into, build-total}
use intelligent_workflow_app.Engine.Dispatch.{
  Dispatch, cancel_pending, Outcome, completed, Run, running, over, Tick, round, rounds,
  fresh_dispatch, schedule_initial, dispatch_loop,
}
use intelligent_workflow_app.Engine.Dispatch.Keeps.{
  OfRun, IsKept, IsKept-IsStep, IsKept-IsPassed, schedule_initial_keeps,
}
use intelligent_workflow_app.Engine.Dispatch.Passes.{round_passes}
use intelligent_workflow_app.Engine.Dispatch.Once.{
  IsAccounted, IsAccounted-IsKept, fresh-IsAccounted,
}
use intelligent_workflow_app.Engine.Dispatch.Settles.{OnRunning, HasSettled, round_settles}

-- In every round that is reached with a task in progress, some task in progress is done, as
-- `asyncio.wait` gives it back.
abbrev pub Fruitful : ℕ → WorkflowPolicy → List Tick → Dispatch → Type 0
Fruitful fuel p [] d = Unit
Fruitful fuel p (t ∷ ts) d =
    (d.in_progress ≢ [] → any (λ x. contains d.in_progress x.sid) t.done ≡ true)
    × OnRunning (Fruitful fuel p ts) (round fuel p t d)

module _ (ids : List String) (edges : List Edge) (already_done : List String)
    (known : (v : String) → 1 ≤ into v edges → contains ids v ≡ true) where
  -- Only steps of the definition are started.
  record IsKnown (d : Dispatch) : Type 0 where
    accounted : IsAccounted already_done d
    total : (v : String) → d.dag.incoming_total v ≡ into v edges
    started_known : (v : String) → contains d.started v ≡ true → contains ids v ≡ true

  IsKnown-IsKept : IsKept ids IsKnown
  unfolding cancel_pending resolve_edge
  IsKnown-IsKept =
      let k = IsAccounted-IsKept already_done ids in
      record {
        starts = λ sid d reached new ready go h. record {
          accounted = k.starts sid d reached new ready go h.accounted;
          total = h.total;
          started_known = λ v m. ground (arith, h.started_known v, h.total sid, known sid);
        };
        skips = λ sid d reached new ready go h. record {
          accounted = k.skips sid d reached new ready go h.accounted;
          total = h.total;
          started_known = h.started_known;
        };
        resolves = λ active e d h. record {
          accounted = k.resolves active e d h.accounted;
          total = h.total;
          started_known = h.started_known;
        };
        takes = λ sid d here h. record {
          accounted = k.takes sid d here h.accounted;
          total = h.total;
          started_known = h.started_known;
        };
        cancels = λ d h. record {
          accounted = k.cancels d h.accounted;
          total = h.total;
          started_known = h.started_known;
        };
        observes = λ finished d h. record {
          accounted = k.observes finished d h.accounted;
          total = h.total;
          started_known = h.started_known;
        };
        audits = λ action d h. record {
          accounted = k.audits action d h.accounted;
          total = h.total;
          started_known = h.started_known;
        };
      }

  fresh-IsKnown : IsKnown (fresh_dispatch edges already_done)
  unfolding fresh_dispatch
  fresh-IsKnown = record {
    accounted = fresh-IsAccounted edges already_done;
    total = build-total edges already_done;
    started_known = λ v m. absurd (ground arith);
  }

  -- No more results are taken than there are steps.
  settled_le : (d : Dispatch) → IsKnown d → length d.settled ≤ length ids
  settled_le d h = length_le_of_count d.settled ids (λ v. ground (
    arith,
    h.accounted.once v,
    h.accounted.accounted v,
    h.started_known v,
    count_of_present v ids,
    count_of_absent v d.started,
  ))

abbrev pub IsOver : Run → Type 0
IsOver r = (o : Outcome) × (d : Dispatch) × (r ≡ over o d)

Run-cases : (r : Run) → ((d : Dispatch) × (r ≡ running d)) ⊎ IsOver r
Run-cases (running d) = inl (d, refl)
Run-cases (over o d) = inr (o, d, refl)

module _ (ids : List String) (edges : List Edge) (already_done : List String)
    (known : (v : String) → 1 ≤ into v edges → contains ids v ≡ true) where
  abbrev Known : Dispatch → Type 0
  Known = IsKnown ids edges already_done known

  rounds_end :
      (fuel : ℕ) (p : WorkflowPolicy) (ts : List Tick) (d : Dispatch)
      → Fruitful fuel p ts d
      → Known d
      → length ids < length d.settled + length ts
      → IsOver (rounds fuel p ts d)
  unfolding rounds
  rounds_end fuel p [] d f h l = absurd (omega (arith, settled_le ids edges already_done known d h))
  rounds_end fuel p (t ∷ ts) d f h l = elim (List-cases d.in_progress) [
    | inl empty ↦ rw (empty, rounds) (completed, d, refl)
    | inr (x, xs, e) ↦
        rw (e, rounds)
          (elim (Run-cases (round fuel p t d)) [
            | inr (o, d', ends) ↦ rw ends (o, d', refl)
            | inl (d', goes) ↦
                let here = f.0 (λ empty. cons-ne-nil x xs (sym e ∙ empty)) in
                let settles =
                  subst (OnRunning (HasSettled (suc (length d.settled)))) goes
                    (round_settles (length d.settled) fuel p t d here (omega arith)) in
                let keeps = subst (OfRun Known) goes (
                  round_passes fuel (λ _. Known) (λ _. Known)
                    (IsKept-IsPassed ids Known (IsKnown-IsKept ids edges already_done known) fuel) p
                    t d h) in
                let fruitful = subst (OnRunning (Fruitful fuel p ts)) goes f.1 in
                rw goes (rounds_end fuel p ts d' fruitful keeps (omega arith))
          ])
  ]

pub known_into :
    (ids : List String) (es : List Edge)
    → All (λ e. (contains ids e.source ≡ true) × (contains ids e.target ≡ true)) es
    → (v : String) → 1 ≤ into v es
    → contains ids v ≡ true
known_into ids [] h v i = absurd (omega arith)
known_into ids (e ∷ es) h v i = ground (arith, known_into ids es h.1 v)

-- The state in which the loop begins its rounds.
abbrev pub first_state : WorkflowDefinition → List String → Dispatch
first_state definition already_done =
    let ids = step_ids definition in
    schedule_initial (length ids) ids (fresh_dispatch definition.edges already_done)

-- A definition that is validated, and more rounds than it has steps, each with a task that is done:
-- the loop is over, whether it completed or was left.
pub dispatch_loop_ends :
    (definition : WorkflowDefinition) (order already_done : List String) (ticks : List Tick)
    → validate_and_order definition ≡ ok order
    → (let ids = step_ids definition in
        Fruitful (length ids) definition.policies ticks (first_state definition already_done)
        → length ids < length ticks
        → IsOver (dispatch_loop definition already_done ticks))
unfolding dispatch_loop
dispatch_loop_ends definition order already_done ticks valid fruitful long =
    let ids = step_ids definition in
    let edges = definition.edges in
    let (_, fine, _) = ok_checks definition order valid in
    let known = known_into ids edges (known_of_bad_edge ids edges fine) in
    rounds_end ids edges already_done known (length ids) definition.policies ticks
      (first_state definition already_done) fruitful
      (schedule_initial_keeps ids (IsKnown ids edges already_done known)
        (IsKept-IsStep ids (IsKnown ids edges already_done known)
          (IsKnown-IsKept ids edges already_done known))
        (length ids) ids (fresh_dispatch edges already_done) (All-contains ids ids (λ v m. m))
        (fresh-IsKnown ids edges already_done known))
      (omega arith)
