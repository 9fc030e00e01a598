-- ===== src/Workflow/Validation/Laws.antt =====
-- The checks that report every problem agree with the check that stops at the first one.
use intelligent_workflow_app.Prelude.{
  ℕ, ◌≡◌, refl, ◌∙◌, ap, String, Bool, true, false, not, ◌&&◌, List, [], ◌∷◌, ◌++◌, map, all, keep,
  length, eqb, sorted, List-cases, Bool-cases, none, string_eq, if◌then◌else◌, arith, inl, inr, ◌⊎◌,
}
use intelligent_workflow_app.Workflow.Definition.{
  Step, deterministic, agentic, Edge, WorkflowDefinition,
}
use intelligent_workflow_app.Workflow.Topology.{
  distinct, distinct_from, repeated_from, step_ids, ok, err, Ordering, DefinitionError, cycle,
  bad_edge, topological_sort, validate_and_order, build, loop, start,
}
use intelligent_workflow_app.Workflow.Topology.Errors.{
  length-distinct-repeated, duplicates-Explains,
}
use intelligent_workflow_app.Workflow.Validation.{
  error, warning, ValidationFinding, node_finding, duplicate_step_id, edge_findings,
  all_edge_findings, edges_ok, disconnected, connected, disconnected_findings, is_blank,
  step_findings, all_step_findings, cycle_findings, validate_definition,
}

abbrev pub is_advisory : ValidationFinding → Bool
is_advisory f = elim f.level [ error ↦ false | warning ↦ true ]

-- No finding is an error.
abbrev pub no_errors : List ValidationFinding → Bool
no_errors = all is_advisory

all-append {ℓ} :
    {A : Type ℓ} (p : A → Bool) (xs ys : List A) → all p (xs ++ ys) ≡ (all p xs && all p ys)
all-append p [] ys = refl
all-append p (x ∷ xs) ys = ground (arith, all-append p xs ys)

abbrev is_nil {ℓ} : {A : Type ℓ} → List A → Bool
is_nil [] = true
is_nil (_ ∷ _) = false

no_errors-duplicates :
    (dupes : List String)
    → no_errors (map (λ sid. node_finding error duplicate_step_id sid) dupes) ≡ is_nil dupes
no_errors-duplicates [] = refl
no_errors-duplicates (x ∷ dupes) = refl

no_errors-edges :
    (valid : List String) (es : List Edge)
    → no_errors (all_edge_findings valid es) ≡ edges_ok valid es
unfolding all_edge_findings edges_ok
no_errors-edges valid [] = refl
no_errors-edges valid (e ∷ es) = ground (
  arith,
  no_errors-edges valid es,
  all-append is_advisory (edge_findings valid e) (all_edge_findings valid es),
)

no_errors-disconnected :
    (linked : List String) (steps : List Step) → no_errors (disconnected linked steps) ≡ true
unfolding disconnected
no_errors-disconnected linked [] = refl
no_errors-disconnected linked (s ∷ steps) = ground (arith, no_errors-disconnected linked steps)

no_errors-advice : (d : WorkflowDefinition) → no_errors (disconnected_findings d) ≡ true
unfolding disconnected_findings
no_errors-advice d = ground (arith, no_errors-disconnected (connected d.edges) d.steps)

bad_edge-edges_ok :
    (valid : List String) (es : List Edge) → edges_ok valid es ≡ true → bad_edge valid es ≡ none
unfolding edges_ok bad_edge
bad_edge-edges_ok valid [] h = refl
bad_edge-edges_ok valid (e ∷ es) h = ground (arith, bad_edge-edges_ok valid es)

edges_ok-bad_edge :
    (valid : List String) (es : List Edge) → bad_edge valid es ≡ none → edges_ok valid es ≡ true
unfolding edges_ok bad_edge
edges_ok-bad_edge valid [] h = refl
edges_ok-bad_edge valid (e ∷ es) h = ground (arith, edges_ok-bad_edge valid es)

abbrev dupes_of : List String → List String
dupes_of ids = sorted (distinct (repeated_from [] ids))

dupes-nil : (ids : List String) → is_nil (dupes_of ids) ≡ eqb (length ids) (length (distinct ids))
unfolding distinct_from sorted
dupes-nil ids = elim (Bool-cases (eqb (length ids) (length (distinct ids)))) [
  | inl same ↦ elim (List-cases (repeated_from [] ids)) [
    | inl empty ↦ rw (empty, same)
    | inr (y, rest, e) ↦ absurd (ground (arith, length-distinct-repeated [] ids, ap length e))
  ]
  | inr differ ↦ elim (List-cases (dupes_of ids)) [
    | inl empty ↦ absurd ((duplicates-Explains ids [] (ground arith)).0 empty)
    | inr (y, rest, e) ↦ rw (e, differ)
  ]
]

-- An ordering, or an error.
abbrev pub is_ok : Ordering → Bool
is_ok (ok order) = true
is_ok (err e) = false

only_cycle :
    (ids : List String) (es : List Edge) (e : DefinitionError)
    → topological_sort ids es ≡ err e
    → (nodes : List String) × (e ≡ cycle nodes)
unfolding topological_sort
only_cycle ids es e h =
    let g = build es in
    let k = loop g.adjacency (length ids) (start ids g) in
    (sorted (keep (λ sid. not (eqb (k.in_degree sid) 0)) ids), ground arith)

Ordering-cases :
    (o : Ordering) → ((l : List String) × (o ≡ ok l)) ⊎ ((e : DefinitionError) × (o ≡ err e))
Ordering-cases (ok l) = inl (l, refl)
Ordering-cases (err e) = inr (e, refl)

module _ (says_cycle : DefinitionError → Bool) (d : WorkflowDefinition) where
  abbrev reported : Bool
  reported =
      if is_nil (dupes_of (step_ids d)) && edges_ok (step_ids d) d.edges
      then no_errors (cycle_findings says_cycle d)
      else false

  no_errors-cycle :
      (validate_and_order d ≡ topological_sort (step_ids d) d.edges)
      → no_errors (cycle_findings says_cycle d) ≡ is_ok (validate_and_order d)
  unfolding cycle_findings
  no_errors-cycle h = elim (Ordering-cases (topological_sort (step_ids d) d.edges)) [
    | inl (l, e) ↦ rw (h ∙ e, cycle_findings)
    | inr (x, e) ↦
        let (nodes, is) = only_cycle (step_ids d) d.edges x e in
        rw (h ∙ e ∙ ap err is, cycle_findings)
  ]

  -- Behind the earlier checks the only error that is left is a cycle, and it is reported.
  cycle_checked : reported ≡ is_ok (validate_and_order d)
  unfolding validate_and_order
  cycle_checked =
      let ids = step_ids d in
      elim (Bool-cases (eqb (length ids) (length (distinct ids)))) [
        | inr differ ↦ ground (arith, dupes-nil ids)
        | inl same ↦ elim (Bool-cases (edges_ok ids d.edges)) [
          | inr bad ↦ ground (arith, edges_ok-bad_edge ids d.edges)
          | inl fine ↦
              let b = bad_edge-edges_ok ids d.edges fine in
              ground (arith, dupes-nil ids, b, no_errors-cycle (ground (arith, b)))
        ]
      ]

module _ (is_space : ℕ → Bool) where
  -- The shape of a step: an AI step has a goal, and a deterministic step a function.
  pub is_shaped : Step → Bool
  unfolding is_blank
  is_shaped (agentic s) = not (is_blank is_space s.goal)
  is_shaped (deterministic s) = not (is_blank is_space s.function)

  no_errors-step : (s : Step) → no_errors (step_findings is_space s) ≡ is_shaped s
  unfolding step_findings is_shaped
  no_errors-step (agentic s) = ground arith
  no_errors-step (deterministic s) = ground arith

  no_errors-steps :
      (steps : List Step) → no_errors (all_step_findings is_space steps) ≡ all is_shaped steps
  unfolding all_step_findings
  no_errors-steps [] = refl
  no_errors-steps (s ∷ steps) = ground (
    arith,
    no_errors-steps steps,
    no_errors-step s,
    all-append is_advisory (step_findings is_space s) (all_step_findings is_space steps),
  )

-- The canvas sees no error exactly when the engine's check succeeds and every step has its goal
-- or its function, whatever characters count as white space.
pub validate_definition-agrees :
    (is_space : ℕ → Bool) (says_cycle : DefinitionError → Bool) (d : WorkflowDefinition)
    → no_errors (validate_definition is_space says_cycle d)
      ≡ (is_ok (validate_and_order d) && all (is_shaped is_space) d.steps)
unfolding validate_definition
validate_definition-agrees is_space says_cycle d =
    let ids = step_ids d in
    simp (all-append, no_errors-duplicates, no_errors-edges, no_errors-steps, no_errors-advice)
      (ground (arith, cycle_checked says_cycle d))
