-- ===== src/Engine/Dispatch/Fuel.antt =====
-- The fuel of `schedule_or_skip` is enough: the recursion along skipped steps ends by itself.
use intelligent_workflow_app.Prelude.{
  missing, missing-cons, missing_le_length, ℕ, zero, suc, ◌≤◌, ◌≡◌, refl, String, true, false, List,
  [], ◌∷◌, All, contains, length, foldl, string_eq, if◌then◌else◌, arith, Bool-cases, inl, inr, sym,
  ◌∙◌, ap, subst,
}
use intelligent_workflow_app.Workflow.Definition.{Edge}
use intelligent_workflow_app.Engine.Dag.{resolve_edge, is_ready, all_inactive}
use intelligent_workflow_app.Engine.Dispatch.{
  Dispatch, skip_step, was_seen, resolve_then, schedule_or_skip, cancel_pending,
}
use intelligent_workflow_app.Engine.Dispatch.Keeps.{
  IsKept, IsStep, IsKept-IsStep, resolve_then_keeps, schedule_or_skip_keeps,
}

module _ (ids : List String) (edges : String → List Edge)
    (known : (v : String) → All (λ e. contains ids e.target ≡ true) (edges v)) where
  -- At most `n` steps are left, over the edges of the definition.
  pub record IsWithin (n : ℕ) (d : Dispatch) : Type 0 where
    pub left : missing d.scheduled ids ≤ n
    pub same_edges : d.dag.edges_by_source ≡ edges

  pub IsWithin-IsKept : (n : ℕ) → IsKept ids (IsWithin n)
  unfolding cancel_pending resolve_edge
  IsWithin-IsKept n = record {
    starts = λ sid d _ _ _ _ h. record {
      left = omega (arith, h.left, missing-cons sid d.scheduled ids);
      same_edges = h.same_edges;
    };
    skips = λ sid d _ _ _ _ h. record {
      left = omega (arith, h.left, missing-cons sid d.scheduled ids);
      same_edges = h.same_edges;
    };
    resolves = λ active e d h. record { left = h.left; same_edges = h.same_edges };
    takes = λ sid d _ h. record { left = h.left; same_edges = h.same_edges };
    cancels = λ d h. record { left = h.left; same_edges = h.same_edges };
    observes = λ finished d h. record { left = h.left; same_edges = h.same_edges };
    audits = λ action d h. record { left = h.left; same_edges = h.same_edges };
  }

  step : (n : ℕ) → IsStep ids (IsWithin n)
  step n = IsKept-IsStep ids (IsWithin n) (IsWithin-IsKept n)

  -- Two fuels that agree on every call agree along a list of edges.
  fold_same :
      (n m j : ℕ)
      → ((sid : String) (d : Dispatch)
          → contains ids sid ≡ true
          → IsWithin j d
          → schedule_or_skip n sid d ≡ schedule_or_skip m sid d)
      → (es : List Edge) (d : Dispatch) → All (λ e. contains ids e.target ≡ true) es
      → IsWithin j d
      → foldl (λ x e. resolve_then (schedule_or_skip n) false e x) d es
        ≡ foldl (λ x e. resolve_then (schedule_or_skip m) false e x) d es
  unfolding resolve_then
  fold_same n m j same [] d k h = refl
  fold_same n m j same (e ∷ es) d k h =
      let d' : Dispatch = record d { dag = resolve_edge false e d.dag } in
      let here : resolve_then (schedule_or_skip n) false e d
          ≡ resolve_then (schedule_or_skip m) false e d =
        ap (λ x. if is_ready d'.dag e.target then x else d')
          (same e.target d' k.0 ((IsWithin-IsKept j).resolves false e d h)) in
      let after =
        resolve_then_keeps ids (IsWithin j) (step j) (schedule_or_skip m)
          (schedule_or_skip_keeps ids (IsWithin j) (step j) m) false e d h in
      ap (λ x. foldl (λ y f. resolve_then (schedule_or_skip n) false f y) x es) here
      ∙ fold_same n m j same es _ k.1 after

  -- With no step left, the step was seen.
  pub none_left :
      (s : List String) (sid : String)
      → contains ids sid ≡ true
      → missing s ids ≤ 0
      → contains s sid ≡ true
  none_left s sid m h = ground (arith, missing-cons sid s ids)

  schedule_same :
      (n m : ℕ) (sid : String) (d : Dispatch)
      → n ≤ m
      → contains ids sid ≡ true
      → IsWithin n d
      → schedule_or_skip n sid d ≡ schedule_or_skip m sid d
  unfolding schedule_or_skip
  schedule_same zero zero sid d l k h = refl
  schedule_same zero (suc m) sid d l k h = ground (arith, none_left d.scheduled sid k h.left)
  schedule_same (suc n) zero sid d l k h = absurd (omega arith)
  schedule_same (suc n) (suc m) sid d l k h = elim (Bool-cases (was_seen sid d)) [
    | inl seen ↦ rw seen refl
    | inr new ↦ elim (Bool-cases (all_inactive d.dag sid)) [
      | inr go ↦ rw (new, go) refl
      | inl inactive ↦
          let less : missing (sid ∷ d.scheduled) ids ≤ n =
            ground (arith, h.left, missing-cons sid d.scheduled ids) in
          rw (new, inactive)
            (fold_same n m n (λ v x q w. schedule_same n m v x (omega arith) q w)
              (d.dag.edges_by_source sid) (skip_step sid d)
              (subst (λ (f : String → List Edge). All (λ e. contains ids e.target ≡ true) (f sid))
                (sym h.same_edges) (known sid))
              (record { left = less; same_edges = h.same_edges }))
    ]
  ]

  -- Where every edge leads to a step, more fuel than the number of the steps gives what that number
  -- gives: `schedule_or_skip` ends by itself, in every state, whatever was scheduled before.
  pub schedule_or_skip_enough :
      (m : ℕ) (sid : String) (d : Dispatch)
      → length ids ≤ m
      → contains ids sid ≡ true
      → d.dag.edges_by_source ≡ edges
      → schedule_or_skip (length ids) sid d ≡ schedule_or_skip m sid d
  schedule_or_skip_enough m sid d l k e =
      schedule_same (length ids) m sid d l k
        (record { left = missing_le_length d.scheduled ids; same_edges = e })
