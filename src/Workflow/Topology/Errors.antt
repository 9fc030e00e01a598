-- ===== src/Workflow/Topology/Errors.antt =====
-- What the errors of `validate_and_order` mean.
use intelligent_workflow_app.Prelude.{
  ◌+◌, ◌≤◌, ◌≡◌, ◌≢◌, refl, sym, ◌∙◌, ap, String, Bool, true, false, not, ◌&&◌, List, [], ◌∷◌, keep,
  contains, count, count_of_present, count_of_absent, length, length_le_of_count, All, Some,
  Some-map, subst, List-cases, Bool-cases, some, Option-cases, ◌==◌, eqb, string_eq, if◌then◌else◌,
  arith, inl, inr, sorted, count-sorted, contains-sorted, sorted-ne-nil,
}
use intelligent_workflow_app.Workflow.Definition.{Edge, WorkflowDefinition}
use intelligent_workflow_app.Workflow.Topology.{
  conclude, topological_sort, distinct_from, distinct, bad_edge, err, DefinitionError, cycle,
  unknown_source, unknown_target, step_ids, validate_and_order, duplicate_step_ids, repeated_from,
}
use intelligent_workflow_app.Workflow.Topology.Counts.{waiting}
use intelligent_workflow_app.Workflow.Topology.Loop.{IsSound}
use intelligent_workflow_app.Workflow.Topology.Order.{
  IsSound-checks, known_of_bad_edge, distinct_from-count,
}
use intelligent_workflow_app.Workflow.Topology.Complete.{Ends, final, final-IsKahn, final-count}

repeated_from-count :
    (seen xs : List String) (v : String)
    → 1 ≤ count v (repeated_from seen xs)
    → (if contains seen v then 1 else 2) ≤ count v xs
unfolding repeated_from
repeated_from-count seen [] v h = absurd (omega arith)
repeated_from-count seen (x ∷ xs) v h =
    ground (arith, repeated_from-count (if contains seen x then seen else x ∷ seen) xs v)

pub length-distinct-repeated :
    (seen xs : List String)
    → length (distinct_from seen xs) + length (repeated_from seen xs) ≡ length xs
unfolding distinct_from repeated_from
length-distinct-repeated seen [] = omega arith
length-distinct-repeated seen (x ∷ xs) =
    ground (arith, length-distinct-repeated (if contains seen x then seen else x ∷ seen) xs)

-- What each error says of the steps and the edges.
abbrev pub Explains : List String → List Edge → DefinitionError → Type 0
Explains ids es (duplicate_step_ids dupes) =
    (dupes ≢ []) × ((v : String) → 1 ≤ count v dupes → 2 ≤ count v ids)
Explains ids es (unknown_source u) = Some (λ e. (e.source ≡ u) × (contains ids u ≡ false)) es
Explains ids es (unknown_target u) = Some (λ e. (e.target ≡ u) × (contains ids u ≡ false)) es
Explains ids es (cycle nodes) =
    (nodes ≢ [])
    × ((v : String)
        → contains nodes v ≡ true
        → Some (λ e. (v ≡ e.target) × (contains nodes e.source ≡ true)) es)

cons-Explains :
    (ids : List String) (e : Edge) (es : List Edge) (x : DefinitionError)
    → bad_edge ids es ≡ some x
    → Explains ids es x
    → Explains ids (e ∷ es) x
unfolding bad_edge
cons-Explains ids e es (unknown_source u) b h = inr h
cons-Explains ids e es (unknown_target u) b h = inr h
cons-Explains ids e es (duplicate_step_ids dupes) b h = h
cons-Explains ids e es (cycle nodes) b h = (h.0, λ v m. inr (h.1 v m))

-- Whether the first edge is at fault.
pub data Fault (ids : List String) (e : Edge) : Type 0 where
  bad_source : contains ids e.source ≡ false → Fault ids e
  bad_target : contains ids e.source ≡ true → contains ids e.target ≡ false → Fault ids e
  sound_edge : contains ids e.source ≡ true → contains ids e.target ≡ true → Fault ids e

fault : (ids : List String) (e : Edge) → Fault ids e
fault ids e = elim (Bool-cases (contains ids e.source)) [
  | inr s ↦ bad_source s
  | inl s ↦ elim (Bool-cases (contains ids e.target)) [
    | inr t ↦ bad_target s t
    | inl t ↦ sound_edge s t
  ]
]

some-eq : (x y : DefinitionError) → some x ≡ some y → x ≡ y
some-eq x y h = cc

bad_edge-Explains :
    (ids : List String) (es : List Edge) (x : DefinitionError)
    → bad_edge ids es ≡ some x
    → Explains ids es x
unfolding bad_edge
bad_edge-Explains ids [] x h = absurd (cc)
bad_edge-Explains ids (e ∷ es) x h = elim (fault ids e) [
  | bad_source s ↦
      let is : unknown_source e.source ≡ x = ground arith in
      subst (Explains ids (e ∷ es)) is (inl (refl, s))
  | bad_target s t ↦
      let is : unknown_target e.target ≡ x = ground arith in
      subst (Explains ids (e ∷ es)) is (inl (refl, t))
  | sound_edge s t ↦
      let rest : bad_edge ids es ≡ some x = ground arith in
      cons-Explains ids e es x rest (bad_edge-Explains ids es x rest)
]

waiting-Some :
    (Q : Edge → Type 0) (done : List String) (v : String) (es : List Edge)
    → 1 ≤ waiting done v es
    → All Q es
    → Some (λ e. (v ≡ e.target) × (contains done e.source ≡ false) × Q e) es
waiting-Some Q done v [] w q = absurd (omega arith)
waiting-Some Q done v (e ∷ es) w q =
    elim (Bool-cases (not (contains done e.source) && v == e.target)) [
      | inl this ↦ inl (ground arith, ground arith, q.0)
      | inr other ↦ inr (waiting-Some Q done v es (ground arith) q.1)
    ]

contains-keep :
    (p : String → Bool) (v : String) (xs : List String)
    → contains (keep p xs) v ≡ (p v && contains xs v)
contains-keep p v [] = ground arith
contains-keep p v (x ∷ xs) = ground (arith, contains-keep p v xs)

module _ (ids : List String) (es : List Edge) (sound : IsSound ids es)
    (ends : All (Ends ids) es) where
  abbrev cycle_nodes : List String
  cycle_nodes = keep (λ sid. not (eqb ((final ids es sound ends).in_degree sid) 0)) ids

  stuck-Some :
      (v : String)
      → contains cycle_nodes v ≡ true
      → Some (λ e. (v ≡ e.target) × (contains cycle_nodes e.source ≡ true)) es
  stuck-Some v m =
      let k = final ids es sound ends in
      let p : String → Bool = λ sid. not (eqb (k.in_degree sid) 0) in
      let inv = final-IsKahn ids es sound ends in
      Some-map _ _ es
        (λ e t. (
          t.0,
          ground (
            arith,
            contains-keep p e.source ids,
            final-count ids es sound ends e.source,
            count_of_absent e.source k.ordered t.1,
            count_of_present e.source ids t.2.0,
            t.2.0,
          ),
        ))
        (waiting-Some (Ends ids) k.ordered v es
          (ground (arith, inv.degrees v, contains-keep p v ids, m)) ends)

  none_stuck_ordered : cycle_nodes ≡ [] → length (final ids es sound ends).ordered ≡ length ids
  none_stuck_ordered h =
      let k = final ids es sound ends in
      let p : String → Bool = λ sid. not (eqb (k.in_degree sid) 0) in
      let same : (v : String) → count v k.ordered ≡ count v ids = λ v. ground (
        arith,
        final-count ids es sound ends v,
        contains-keep p v ids,
        ap (λ l. contains l v) h,
        count_of_absent v ids,
      ) in
      omega (
        arith,
        length_le_of_count k.ordered ids (λ v. omega (arith, same v)),
        length_le_of_count ids k.ordered (λ v. omega (arith, same v)),
      )

  sort-Explains : (x : DefinitionError) → topological_sort ids es ≡ err x → Explains ids es x
  unfolding topological_sort conclude final
  sort-Explains x h =
      let is : cycle (sorted cycle_nodes) ≡ x = ground arith in
      subst (Explains ids es) is (
        sorted-ne-nil cycle_nodes (λ none_left. ground (arith, none_stuck_ordered none_left)),
        λ v m.
            Some-map _ _ es (λ e t. (t.0, contains-sorted e.source cycle_nodes ∙ t.1))
              (stuck-Some v (sym (contains-sorted v cycle_nodes) ∙ m)),
      )

pub duplicates-Explains :
    (ids : List String) (es : List Edge)
    → length ids ≢ length (distinct ids)
    → Explains ids es (duplicate_step_ids (sorted (distinct (repeated_from [] ids))))
duplicates-Explains ids es h = (
  sorted-ne-nil (distinct (repeated_from [] ids)) λ empty.
      elim (List-cases (repeated_from [] ids)) [
        | inl no_repeat ↦ h (omega (arith, length-distinct-repeated [] ids, ap length no_repeat))
        | inr (y, rest, e) ↦ absurd (
            ground (
              arith,
              ap (count y) empty,
              ap (count y) e,
              distinct_from-count [] (repeated_from [] ids) y,
            ))
      ],
  λ v m. omega (
    arith,
    count-sorted v (distinct (repeated_from [] ids)),
    distinct_from-count [] (repeated_from [] ids) v,
    repeated_from-count [] ids v,
  ),
)

-- An error of `validate_and_order` names what is wrong: ids that occur twice, an edge to or from
-- an unknown step, or a set of steps in which each has an edge from one of them (a cycle).
pub validate_and_order-Explains :
    (d : WorkflowDefinition) (x : DefinitionError)
    → validate_and_order d ≡ err x
    → Explains (step_ids d) d.edges x
unfolding validate_and_order
validate_and_order-Explains d x h =
    let ids = step_ids d in
    elim (Bool-cases (eqb (length ids) (length (distinct ids)))) [
      | inr differ ↦
          let is : duplicate_step_ids (sorted (distinct (repeated_from [] ids))) ≡ x =
            ground arith in
          subst (Explains ids d.edges) is (duplicates-Explains ids d.edges (ground arith))
      | inl same ↦ elim (Option-cases (bad_edge ids d.edges)) [
        | inr (y, bad) ↦ bad_edge-Explains ids d.edges x (ground arith)
        | inl fine ↦
            let sound = IsSound-checks ids d.edges (ground arith) fine in
            sort-Explains ids d.edges sound (known_of_bad_edge ids d.edges fine) x (ground arith)
      ]
    ]
