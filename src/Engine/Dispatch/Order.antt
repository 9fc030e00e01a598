-- ===== src/Engine/Dispatch/Order.antt =====
-- A step starts behind all its predecessors: the count of the resolved edges is that of the edges
-- from the steps that are done or skipped.
use intelligent_workflow_app.Prelude.{
  ℕ, zero, suc, ◌+◌, ◌≤◌, ◌≡◌, refl, String, Bool, true, false, ◌||◌, List, [], ◌∷◌, foldl,
  contains, count_of_absent, count_of_present, ◌==◌, string_eq, if◌then◌else◌, arith, Bool-cases,
  inl, inr, sym, ◌∙◌, ap,
}
use intelligent_workflow_app.Workflow.Definition.{Edge}
use intelligent_workflow_app.Engine.Dag.{DagState, resolve_edge, is_ready, all_inactive}
use intelligent_workflow_app.Engine.Dag.Counts.{into, between, released_into, released_into-release}
use intelligent_workflow_app.Engine.Dispatch.{
  Dispatch, start_step, skip_step, was_seen, resolve_then, schedule_or_skip, take_result,
}
use intelligent_workflow_app.Engine.Dispatch.Once.{
  IsAccounted, start_step-IsAccounted, skip_step-IsAccounted, IsAccounted-IsKept,
}

module _ (edges : List Edge) (already_done : List String) where
  -- The steps whose outgoing edges count: done before, with a result, or skipped.
  abbrev pub is_released : Dispatch → String → Bool
  is_released d s = contains already_done s || (contains d.settled s || contains d.skipped s)

  -- The resolved edges and `slack` more are the edges from released steps, by number; and the
  -- started steps have all their edges from released steps.
  pub record IsOrdered (slack : String → ℕ) (d : Dispatch) : Type 0 where
    pub accounted : IsAccounted already_done d
    pub total : (v : String) → d.dag.incoming_total v ≡ into v edges
    pub sources : (i v : String) → into v (d.dag.edges_by_source i) ≡ between i v edges
    pub room :
        (v : String) → d.dag.incoming_resolved v + slack v ≡ released_into (is_released d) v edges
    pub ordered :
        (v : String)
        → contains d.started v ≡ true
        → into v edges ≤ released_into (is_released d) v edges

  pub respell :
      (slack same : String → ℕ) (d : Dispatch)
      → ((v : String) → same v ≡ slack v)
      → IsOrdered slack d
      → IsOrdered same d
  respell slack same d eq h = record {
    accounted = h.accounted;
    total = h.total;
    sources = h.sources;
    room = λ v. omega (arith, h.room v, eq v);
    ordered = h.ordered;
  }

  start-IsOrdered :
      (slack : String → ℕ) (sid : String) (d : Dispatch)
      → was_seen sid d ≡ false
      → is_ready d.dag sid ≡ true
      → IsOrdered slack d
      → IsOrdered slack (start_step sid d)
  start-IsOrdered slack sid d new ready h = record {
    accounted = start_step-IsAccounted already_done sid d new h.accounted;
    total = h.total;
    sources = h.sources;
    room = h.room;
    ordered = λ v m. ground (arith, h.ordered v, h.room sid, h.total sid);
  }

  -- One more step is released.
  release :
      (slack : String → ℕ) (sid : String) (d d' : Dispatch)
      → IsOrdered slack d
      → IsAccounted already_done d'
      → d'.dag ≡ d.dag
      → d'.started ≡ d.started
      → ((s : String) → is_released d' s ≡ (is_released d s || s == sid))
      → is_released d sid ≡ false
      → IsOrdered (λ v. slack v + between sid v edges) d'
  release slack sid d d' h acc same_dag same_started rel fresh = record {
    accounted = acc;
    total = λ v. ap (λ (x : DagState). x.incoming_total v) same_dag ∙ h.total v;
    sources = λ i v. ap (λ (x : DagState). into v (x.edges_by_source i)) same_dag ∙ h.sources i v;
    room = λ v. omega (
      arith,
      h.room v,
      ap (λ (x : DagState). x.incoming_resolved v) same_dag,
      released_into-release (is_released d) (is_released d') sid v edges rel fresh,
    );
    ordered = λ v m. omega (
      arith,
      h.ordered v (sym (ap (λ x. contains x v) same_started) ∙ m),
      released_into-release (is_released d) (is_released d') sid v edges rel fresh,
    );
  }

  skip-IsOrdered :
      (slack : String → ℕ) (sid : String) (d : Dispatch)
      → was_seen sid d ≡ false
      → IsOrdered slack d
      → IsOrdered (λ v. slack v + between sid v edges) (skip_step sid d)
  skip-IsOrdered slack sid d new h =
      release slack sid d (skip_step sid d) h
        (skip_step-IsAccounted already_done sid d new h.accounted) refl refl (λ s. ground arith)
        (ground (
          arith,
          h.accounted.done_seen sid,
          h.accounted.seen sid,
          h.accounted.accounted sid,
          count_of_present sid d.settled,
          count_of_absent sid d.started,
        ))

  pub take-IsOrdered :
      (slack : String → ℕ) (sid : String) (d : Dispatch)
      → contains d.in_progress sid ≡ true
      → IsOrdered slack d
      → IsOrdered (λ v. slack v + between sid v edges) (take_result sid d)
  take-IsOrdered slack sid d here h =
      release slack sid d (take_result sid d) h
        ((IsAccounted-IsKept already_done []).takes sid d here h.accounted) refl refl
        (λ s. ground arith)
        (ground (
          arith,
          h.accounted.once sid,
          h.accounted.accounted sid,
          h.accounted.done_apart sid,
          h.accounted.skipped_apart sid,
          count_of_present sid d.in_progress here,
          count_of_present sid d.settled,
          count_of_absent sid d.started,
        ))

  resolve-IsOrdered :
      (slack : String → ℕ) (active : Bool) (e : Edge) (d : Dispatch)
      → IsOrdered (λ v. slack v + (if e.target == v then 1 else 0)) d
      → IsOrdered slack (record d { dag = resolve_edge active e d.dag })
  unfolding resolve_edge
  resolve-IsOrdered slack active e d h = record {
    accounted = (IsAccounted-IsKept already_done []).resolves active e d h.accounted;
    total = h.total;
    sources = h.sources;
    room = λ v. ground (arith, h.room v);
    ordered = h.ordered;
  }

  pub resolve_then-IsOrdered :
      (slack : String → ℕ) (schedule : String → Dispatch → Dispatch)
      → ((sid : String) (d : Dispatch)
          → is_ready d.dag sid ≡ true
          → IsOrdered slack d
          → IsOrdered slack (schedule sid d))
      → (active : Bool) (e : Edge) (d : Dispatch)
      → IsOrdered (λ v. slack v + (if e.target == v then 1 else 0)) d
      → IsOrdered slack (resolve_then schedule active e d)
  unfolding resolve_then
  resolve_then-IsOrdered slack schedule s active e d h =
      let d' : Dispatch = record d { dag = resolve_edge active e d.dag } in
      let after = resolve-IsOrdered slack active e d h in
      elim (Bool-cases (is_ready d'.dag e.target)) [
        | inl ready ↦ rw ready (s e.target d' ready after)
        | inr waits ↦ rw waits after
      ]

  fold-IsOrdered :
      (schedule : String → Dispatch → Dispatch)
      → ((slack : String → ℕ) (sid : String) (d : Dispatch)
          → is_ready d.dag sid ≡ true
          → IsOrdered slack d
          → IsOrdered slack (schedule sid d))
      → (es : List Edge) (slack : String → ℕ) (d : Dispatch)
      → IsOrdered (λ v. slack v + into v es) d
      → IsOrdered slack (foldl (λ x e. resolve_then schedule false e x) d es)
  fold-IsOrdered schedule s [] slack d h = respell _ slack d (λ v. omega arith) h
  fold-IsOrdered schedule s (e ∷ es) slack d h = fold-IsOrdered schedule s es slack _ (
      resolve_then-IsOrdered (λ v. slack v + into v es) schedule (s (λ v. slack v + into v es))
        false e d
        (respell _ (λ v. (slack v + into v es) + (if e.target == v then 1 else 0)) d
          (λ v. omega arith) h))

  pub schedule-IsOrdered :
      (n : ℕ) (slack : String → ℕ) (sid : String) (d : Dispatch)
      → is_ready d.dag sid ≡ true
      → IsOrdered slack d
      → IsOrdered slack (schedule_or_skip n sid d)
  unfolding schedule_or_skip
  schedule-IsOrdered zero slack sid d ready h = h
  schedule-IsOrdered (suc n) slack sid d ready h = elim (Bool-cases (was_seen sid d)) [
    | inl seen ↦ rw seen h
    | inr new ↦ elim (Bool-cases (all_inactive d.dag sid)) [
      | inr go ↦ rw (new, go) (start-IsOrdered slack sid d new ready h)
      | inl inactive ↦
          rw (new, inactive)
            (fold-IsOrdered (schedule_or_skip n) (schedule-IsOrdered n) (d.dag.edges_by_source sid)
              slack (skip_step sid d)
              (respell _ (λ v. slack v + into v (d.dag.edges_by_source sid)) (skip_step sid d)
                (λ v. omega (arith, h.sources sid v)) (skip-IsOrdered slack sid d new h)))
    ]
  ]
