-- ===== src/Engine/Dispatch/Parted.antt =====
-- Which tasks are cancelled when the loop is left, and which results are dropped.
use intelligent_workflow_app.Prelude.{
  ℕ, ◌≡◌, refl, String, Bool, true, false, not, List, [], ◌∷◌, ◌++◌, All-contains, contains, keep,
  length, string_eq, arith,
}
use intelligent_workflow_app.Workflow.Definition.{WorkflowDefinition}
use intelligent_workflow_app.Workflow.Topology.{step_ids}
use intelligent_workflow_app.Engine.Dispatch.{
  Dispatch, cancel_pending, schedule_or_skip, Tick, fresh_dispatch, dispatch_loop,
}
use intelligent_workflow_app.Engine.Dispatch.Passes.{OfRounds, IsPassed, rounds_pass}
use intelligent_workflow_app.Engine.Dispatch.Keeps.{
  IsStep, resolve_then_keeps, schedule_or_skip_keeps, schedule_initial_keeps,
}

-- No task was cancelled, and no result dropped.
abbrev pub IsUntouched : Dispatch → Type 0
IsUntouched d = (d.cancelled ≡ []) × (d.unread ≡ [])

-- Only tasks that were not done were cancelled, and only results of tasks that were done dropped.
abbrev pub IsParted : Dispatch → Type 0
IsParted d =
    (v : String)
    → (contains d.cancelled v ≡ true → d.finished v ≡ false)
      × (contains d.unread v ≡ true → d.finished v ≡ true)

IsUntouched-IsStep : (ids : List String) → IsStep ids IsUntouched
IsUntouched-IsStep ids = record {
  starts = λ sid d _ _ _ _ h. h;
  skips = λ sid d _ _ _ _ h. h;
  resolves = λ active e d h. h;
}

contains-keep :
    (p : String → Bool) (xs ys : List String) (v : String)
    → ys ≡ []
    → contains (keep p xs ++ ys) v ≡ true
    → p v ≡ true
contains-keep p [] ys v e h = absurd (ground (arith, e, h))
contains-keep p (x ∷ xs) ys v e h = ground (arith, h, contains-keep p xs ys v e)

IsParted-IsPassed :
    (ids : List String) (fuel : ℕ) → IsPassed fuel (λ _. IsUntouched) (λ _. IsParted)
unfolding cancel_pending
IsParted-IsPassed ids fuel =
    let step = IsUntouched-IsStep ids in
    record {
      takes = λ sid d _ h. h;
      resolves = λ active e es d h.
          resolve_then_keeps ids IsUntouched step (schedule_or_skip fuel)
            (schedule_or_skip_keeps ids IsUntouched step fuel) active e d h;
      observes = λ finished es d h. h;
      audits = λ action es d h. h;
      leaves = λ o es d _ h v. (
        (λ there.
            ground (
              arith,
              contains-keep (λ x. not (d.finished x)) d.in_progress d.cancelled v h.0 there,
            )),
        contains-keep d.finished d.in_progress d.unread v h.1,
      );
      completes = λ d _ h v. (
        (λ there. absurd (ground (arith, h.0, there))),
        λ there. absurd (ground (arith, h.1, there)),
      );
    }

pub dispatch_loop-IsParted :
    (definition : WorkflowDefinition) (already_done : List String) (ticks : List Tick)
    → OfRounds IsUntouched (λ _. IsParted) (dispatch_loop definition already_done ticks)
unfolding dispatch_loop fresh_dispatch
dispatch_loop-IsParted definition already_done ticks =
    let ids = step_ids definition in
    rounds_pass (length ids) (λ _. IsUntouched) (λ _. IsParted) (IsParted-IsPassed ids (length ids))
      definition.policies ticks _
      (schedule_initial_keeps ids IsUntouched (IsUntouched-IsStep ids) (length ids) ids
        (fresh_dispatch definition.edges already_done) (All-contains ids ids (λ v m. m))
        (refl, refl))
