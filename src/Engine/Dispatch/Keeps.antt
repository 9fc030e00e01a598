-- ===== src/Engine/Dispatch/Keeps.antt =====
-- The invariants of the dispatch loop: what every primitive step keeps, the loop keeps.
use intelligent_workflow_app.Prelude.{
  ℕ, zero, suc, ◌≡◌, String, Bool, true, false, not, ◌&&◌, List, [], ◌∷◌, foldl, contains,
  string_eq, arith, ltb, All, All-contains, ◌||◌, length, inl, inr, Bool-cases,
}
use intelligent_workflow_app.Workflow.Definition.{Edge, WorkflowDefinition}
use intelligent_workflow_app.Workflow.Topology.{step_ids}
use intelligent_workflow_app.Engine.Dag.{resolve_edge, is_ready, all_inactive}
use intelligent_workflow_app.Engine.Dispatch.Passes.{OfRounds, IsPassed, rounds_pass}
use intelligent_workflow_app.Engine.Dispatch.{
  Dispatch, start_step, skip_step, was_seen, resolve_then, schedule_or_skip, schedule_initial, Run,
  cancel_pending, audited, take_result, Tick, observe, fresh_dispatch, dispatch_loop,
}

-- A property of the state, of a run that goes on or is over.
abbrev pub OfRun : (Dispatch → Type 0) → Run → Type 0
OfRun P = OfRounds P (λ _. P)

-- A step that the loop comes to is a step of the definition, or the target of a resolved edge.
abbrev pub Reached : List String → String → Dispatch → Type 0
Reached ids sid d = (contains ids sid || ltb 0 (d.dag.incoming_resolved sid)) ≡ true

-- A property that the primitive steps keep.
pub record IsKept (ids : List String) (P : Dispatch → Type 0) : Type 0 where
  pub starts :
      (sid : String) (d : Dispatch)
      → Reached ids sid d
      → was_seen sid d ≡ false
      → is_ready d.dag sid ≡ true
      → all_inactive d.dag sid ≡ false
      → P d
      → P (start_step sid d)
  pub skips :
      (sid : String) (d : Dispatch)
      → Reached ids sid d
      → was_seen sid d ≡ false
      → is_ready d.dag sid ≡ true
      → all_inactive d.dag sid ≡ true
      → P d
      → P (skip_step sid d)
  pub resolves :
      (active : Bool) (e : Edge) (d : Dispatch)
      → P d
      → P (record d { dag = resolve_edge active e d.dag })
  pub takes :
      (sid : String) (d : Dispatch)
      → contains d.in_progress sid ≡ true
      → P d
      → P (take_result sid d)
  pub cancels : (d : Dispatch) → P d → P (cancel_pending d)
  pub observes : (finished : String → Bool) (d : Dispatch) → P d → P (observe finished d)
  pub audits : (action : String) (d : Dispatch) → P d → P (audited action d)

-- A property that the scheduling of steps keeps.
pub record IsStep (ids : List String) (P : Dispatch → Type 0) : Type 0 where
  pub starts :
      (sid : String) (d : Dispatch)
      → Reached ids sid d
      → was_seen sid d ≡ false
      → is_ready d.dag sid ≡ true
      → all_inactive d.dag sid ≡ false
      → P d
      → P (start_step sid d)
  pub skips :
      (sid : String) (d : Dispatch)
      → Reached ids sid d
      → was_seen sid d ≡ false
      → is_ready d.dag sid ≡ true
      → all_inactive d.dag sid ≡ true
      → P d
      → P (skip_step sid d)
  pub resolves :
      (active : Bool) (e : Edge) (d : Dispatch)
      → P d
      → P (record d { dag = resolve_edge active e d.dag })

pub IsKept-IsStep : (ids : List String) (P : Dispatch → Type 0) → IsKept ids P → IsStep ids P
IsKept-IsStep ids P k = record { starts = k.starts; skips = k.skips; resolves = k.resolves }

target-Reached :
    (ids : List String) (active : Bool) (e : Edge) (d : Dispatch)
    → Reached ids e.target (record d { dag = resolve_edge active e d.dag })
unfolding resolve_edge
target-Reached ids active e d = ground arith

module _ (ids : List String) (P : Dispatch → Type 0) (k : IsStep ids P) where
  pub resolve_then_keeps :
      (schedule : String → Dispatch → Dispatch)
      → ((sid : String) (d : Dispatch)
          → Reached ids sid d
          → is_ready d.dag sid ≡ true
          → P d
          → P (schedule sid d))
      → (active : Bool) (e : Edge) (d : Dispatch) → P d
      → P (resolve_then schedule active e d)
  unfolding resolve_then
  resolve_then_keeps schedule s active e d h =
      let d' : Dispatch = record d { dag = resolve_edge active e d.dag } in
      elim (Bool-cases (is_ready d'.dag e.target)) [
        | inl ready ↦
            rw ready (s e.target d' (target-Reached ids active e d) ready (k.resolves active e d h))
        | inr waits ↦ rw waits (k.resolves active e d h)
      ]

  fold_keeps :
      (f : Dispatch → Edge → Dispatch)
      → ((e : Edge) (d : Dispatch) → P d → P (f d e))
      → (es : List Edge) (d : Dispatch) → P d
      → P (foldl f d es)
  fold_keeps f s [] d h = h
  fold_keeps f s (e ∷ es) d h = fold_keeps f s es (f d e) (s e d h)

  pub schedule_or_skip_keeps :
      (n : ℕ) (sid : String) (d : Dispatch)
      → Reached ids sid d
      → is_ready d.dag sid ≡ true
      → P d
      → P (schedule_or_skip n sid d)
  unfolding schedule_or_skip
  schedule_or_skip_keeps zero sid d reached ready h = h
  schedule_or_skip_keeps (suc n) sid d reached ready h = elim (Bool-cases (was_seen sid d)) [
    | inl seen ↦ rw seen h
    | inr new ↦ elim (Bool-cases (all_inactive d.dag sid)) [
      | inr go ↦ rw (new, go) (k.starts sid d reached new ready go h)
      | inl inactive ↦
          rw (new, inactive)
            (fold_keeps (λ x e. resolve_then (schedule_or_skip n) false e x)
              (λ e x q.
                resolve_then_keeps (schedule_or_skip n) (schedule_or_skip_keeps n) false e x q)
              (d.dag.edges_by_source sid) (skip_step sid d)
              (k.skips sid d reached new ready inactive h))
    ]
  ]

  pub schedule_initial_keeps :
      (fuel : ℕ) (sids : List String) (d : Dispatch)
      → All (λ v. contains ids v ≡ true) sids
      → P d
      → P (schedule_initial fuel sids d)
  unfolding schedule_initial
  schedule_initial_keeps fuel [] d a h = h
  schedule_initial_keeps fuel (sid ∷ sids) d a h =
      elim (Bool-cases (is_ready d.dag sid && not (contains d.scheduled sid))) [
        | inr other ↦ rw other (schedule_initial_keeps fuel sids d a.1 h)
        | inl new ↦ rw new (
            schedule_initial_keeps fuel sids _ a.1
              (schedule_or_skip_keeps fuel sid d (ground (arith, a.0)) (ground arith) h))
      ]

-- The rounds keep it too.
pub IsKept-IsPassed :
    (ids : List String) (P : Dispatch → Type 0)
    → IsKept ids P
    → (fuel : ℕ) → IsPassed fuel (λ _. P) (λ _. P)
IsKept-IsPassed ids P k fuel =
    let step = IsKept-IsStep ids P k in
    record {
      takes = k.takes;
      resolves = λ active e es d h.
          resolve_then_keeps ids P step (schedule_or_skip fuel)
            (schedule_or_skip_keeps ids P step fuel) active e d h;
      observes = λ finished es d h. k.observes finished d h;
      audits = λ action es d h. k.audits action d h;
      leaves = λ o es d _ h. k.cancels d h;
      completes = λ d _ h. h;
    }

-- What the steps keep holds at the end of a run of the loop that starts with it.
pub dispatch_loop-keeps :
    (P : Dispatch → Type 0) (definition : WorkflowDefinition) (already_done : List String)
    (ticks : List Tick)
    → IsKept (step_ids definition) P
    → P (fresh_dispatch definition.edges already_done)
    → OfRun P (dispatch_loop definition already_done ticks)
unfolding dispatch_loop
dispatch_loop-keeps P definition already_done ticks k h =
    let ids = step_ids definition in
    rounds_pass (length ids) (λ _. P) (λ _. P) (IsKept-IsPassed ids P k (length ids))
      definition.policies ticks _
      (schedule_initial_keeps ids P (IsKept-IsStep ids P k) (length ids) ids
        (fresh_dispatch definition.edges already_done) (All-contains ids ids (λ v m. m)) h)
