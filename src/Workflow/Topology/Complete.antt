-- ===== src/Workflow/Topology/Complete.antt =====
-- When `validate_and_order` succeeds.
use intelligent_workflow_app.Prelude.{
  ℕ, zero, suc, ◌≤◌, ◌<◌, ◌≡◌, refl, ap, String, true, false, not, ◌&&◌, List, [], ◌∷◌, contains,
  count, count_of_present, count_of_absent, length, length_le_of_count, All, Bool-cases, none, ◌==◌,
  eqb, string_eq, if◌then◌else◌, arith, inl, inr,
}
use intelligent_workflow_app.Workflow.Definition.{Edge, WorkflowDefinition}
use intelligent_workflow_app.Workflow.Topology.{
  Kahn, loop, start, build, conclude, topological_sort, distinct, bad_edge, ok, step_ids,
  validate_and_order,
}
use intelligent_workflow_app.Workflow.Topology.Counts.{waiting, build-adjacency}
use intelligent_workflow_app.Workflow.Topology.Loop.{
  IsSound, IsKahn, start-IsKahn, loop-IsKahn, loop-queue,
}
use intelligent_workflow_app.Workflow.Topology.Order.{IsSound-checks, distinct_from-count}

abbrev pub Ends : List String → Edge → Type 0
Ends ids e = (contains ids e.source ≡ true) × (contains ids e.target ≡ true)

-- A node that still waits has an edge from a node that is not ordered.
waiting_edge :
    (Q R : Edge → Type 0) (done : List String) (v : String) (es : List Edge)
    → 1 ≤ waiting done v es
    → All Q es
    → All R es
    → (e : Edge) × (v ≡ e.target) × (contains done e.source ≡ false) × Q e × R e
waiting_edge Q R done v [] w q r = absurd (omega arith)
waiting_edge Q R done v (e ∷ es) w q r =
    elim (Bool-cases (not (contains done e.source) && v == e.target)) [
      | inl this ↦ (e, ground arith, ground arith, q.0, r.0)
      | inr other ↦ waiting_edge Q R done v es (ground arith) q.1 r.1
    ]

module _ (ids : List String) (es : List Edge) (sound : IsSound ids es)
    (ends : All (Ends ids) es) where
  unfoldable pub final : Kahn
  final = loop (build es).adjacency (length ids) (start ids (build es))

  pub final-IsKahn : IsKahn ids es sound final
  unfolding final
  final-IsKahn =
      loop-IsKahn ids es sound (build es).adjacency (build-adjacency es) (length ids) _
        (start-IsKahn ids es sound)

  pub final-count :
      (v : String) → count v final.ordered ≡ (if eqb (final.in_degree v) 0 then count v ids else 0)
  unfolding final start
  final-count v =
      let empty =
        loop-queue ids es sound (build es).adjacency (build-adjacency es) (length ids) _
          (start-IsKahn ids es sound) (omega arith) in
      ground (arith, final-IsKahn.listed v, ap (count v) empty)

  -- A step with edges left has one from another such step.
  stuck_edge :
      (R : Edge → Type 0) (v : String)
      → 1 ≤ final.in_degree v
      → All R es
      → (e : Edge) × (v ≡ e.target)
        × (1 ≤ final.in_degree e.source)
        × (contains ids e.source ≡ true)
        × R e
  stuck_edge R v w r =
      let (e, t, absent, q, re) =
        waiting_edge (Ends ids) R final.ordered v es (omega (arith, final-IsKahn.degrees v)) ends
          r in
      (
        e,
        t,
        ground (
          arith,
          final-count e.source,
          count_of_absent e.source final.ordered absent,
          count_of_present e.source ids q.0,
        ),
        q.0,
        re,
      )

  module _ (rank : String → ℕ) (up : All (λ e. rank e.source < rank e.target) es) where
    none_stuck : (n : ℕ) (v : String) → rank v < n → final.in_degree v ≡ 0
    none_stuck zero v h = elim h [ ]
    none_stuck (suc n) v h = elim (Bool-cases (eqb (final.in_degree v) 0)) [
      | inl z ↦ ground arith
      | inr nz ↦
          let (e, t, w, q, below) =
            stuck_edge (λ e. rank e.source < rank e.target) v (ground arith) up in
          absurd (omega (arith, none_stuck n e.source (omega (arith, ap rank t))))
    ]

    all_ordered : length final.ordered ≡ length ids
    all_ordered =
        let same : (v : String) → count v final.ordered ≡ count v ids =
          λ v. ground (arith, final-count v, none_stuck (suc (rank v)) v (omega arith)) in
        omega (
          arith,
          length_le_of_count final.ordered ids (λ v. omega (arith, same v)),
          length_le_of_count ids final.ordered (λ v. omega (arith, same v)),
        )

    pub sort_ok : (order : List String) × (topological_sort ids es ≡ ok order)
    unfolding topological_sort conclude final
    sort_ok = (final.ordered, ground (arith, all_ordered))

length_of_unique :
    (xs : List String) → ((v : String) → count v xs ≤ 1) → length xs ≡ length (distinct xs)
length_of_unique xs u =
    let same : (v : String) → count v (distinct xs) ≡ count v xs =
      λ v. omega (arith, distinct_from-count [] xs v, u v) in
    omega (
      arith,
      length_le_of_count xs (distinct xs) (λ v. omega (arith, same v)),
      length_le_of_count (distinct xs) xs (λ v. omega (arith, same v)),
    )

bad_edge-Ends : (ids : List String) (es : List Edge) → All (Ends ids) es → bad_edge ids es ≡ none
unfolding bad_edge
bad_edge-Ends ids [] h = refl
bad_edge-Ends ids (e ∷ es) h = ground (arith, bad_edge-Ends ids es h.1)

-- Where the ids are unique, every edge joins two steps, and every edge goes up in some ranking of
-- the steps (so that the graph has no cycle), `validate_and_order` returns an order.
pub validate_and_order_complete :
    (d : WorkflowDefinition) (rank : String → ℕ)
    → ((v : String) → count v (step_ids d) ≤ 1)
    → All (Ends (step_ids d)) d.edges
    → All (λ e. rank e.source < rank e.target) d.edges
    → (order : List String) × (validate_and_order d ≡ ok order)
unfolding validate_and_order
validate_and_order_complete d rank u ends up =
    let ids = step_ids d in
    let l = length_of_unique ids u in
    let b = bad_edge-Ends ids d.edges ends in
    let (order, e) = sort_ok ids d.edges (IsSound-checks ids d.edges l b) ends rank up in
    (order, ground (arith, l, b, e))
