-- ===== src/Workflow/Validation.antt =====
-- workflow/validation.py: every structural problem of a definition at once. A finding has the
-- code and the node or edge that it is about; its message is a text over the same values.
pub mod Laws
use intelligent_workflow_app.Prelude.{
  ℕ, ◌<◌, ltb, String, Bool, true, false, not, ◌&&◌, Option, none, some, List, [], ◌∷◌, ◌++◌, map,
  all, contains, length, sorted, ◌==◌, string_eq, is_none, if◌then◌else◌, code_points,
}
use intelligent_workflow_app.Workflow.Definition.{
  Step, deterministic, agentic, step_id, Edge, WorkflowDefinition,
}
use intelligent_workflow_app.Workflow.Topology.{
  distinct, repeated_from, step_ids, ok, err, DefinitionError, cycle, validate_and_order,
}

pub data Level : Type 0 where
  error warning : Level

pub data Code : Type 0 where
  duplicate_step_id edge_unknown_source edge_unknown_target empty_goal empty_function : Code
  cycle_found disconnected_step : Code

pub record ValidationFinding : Type 0 where
  pub level : Level
  pub code : Code
  pub node_id : Option String
  pub edge : Option (String × String)

abbrev pub node_finding : Level → Code → String → ValidationFinding
node_finding l c n = record { level = l; code = c; node_id = some n; edge = none }

abbrev pub edge_finding : Code → Edge → ValidationFinding
edge_finding c e = record {
  level = error;
  code = c;
  node_id = none;
  edge = some (e.source, e.target);
}

-- The findings of one edge.
unfoldable pub edge_findings : List String → Edge → List ValidationFinding
edge_findings valid e =
    (if not (contains valid e.source) then edge_finding edge_unknown_source e ∷ [] else [])
    ++ (if not (contains valid e.target) then edge_finding edge_unknown_target e ∷ [] else [])

unfoldable pub all_edge_findings : List String → List Edge → List ValidationFinding
unfolding edge_findings
all_edge_findings valid [] = []
all_edge_findings valid (e ∷ es) = edge_findings valid e ++ all_edge_findings valid es

-- `edges_ok` behind the loop over the edges.
unfoldable pub edges_ok : List String → List Edge → Bool
edges_ok valid es = all (λ e. contains valid e.source && contains valid e.target) es

unfoldable pub connected : List Edge → List String
connected [] = []
connected (e ∷ es) = e.source ∷ e.target ∷ connected es

-- The advisory findings: steps that touch no edge.
unfoldable pub disconnected : List String → List Step → List ValidationFinding
disconnected linked [] = []
disconnected linked (s ∷ steps) =
    let rest = disconnected linked steps in
    if not (contains linked (step_id s))
    then node_finding warning disconnected_step (step_id s) ∷ rest
    else rest

unfoldable pub disconnected_findings : WorkflowDefinition → List ValidationFinding
unfolding connected disconnected
disconnected_findings d =
    if ltb 1 (length d.steps) && elim d.edges [ [] ↦ false | _ ∷ _ ↦ true ]
    then disconnected (connected d.edges) d.steps
    else []

-- Python's white space.
module _ (is_space : ℕ → Bool) where
  -- `not text.strip()`
  pub is_blank : String → Bool
  is_blank t = all is_space (code_points t)

  pub step_findings : Step → List ValidationFinding
  unfolding is_blank
  step_findings (agentic s) =
      if is_blank s.goal then node_finding error empty_goal s.id ∷ [] else []
  step_findings (deterministic s) =
      if is_blank s.function then node_finding error empty_function s.id ∷ [] else []

  pub all_step_findings : List Step → List ValidationFinding
  unfolding step_findings
  all_step_findings [] = []
  all_step_findings (s ∷ steps) = step_findings s ++ all_step_findings steps

-- Whether the message of an error other than the one for a cycle has the word "cycle" in it.
module _ (says_cycle : DefinitionError → Bool) where
  pub mentions_cycle : DefinitionError → Bool
  mentions_cycle (cycle nodes) = true
  mentions_cycle e = says_cycle e

  pub cycle_findings : WorkflowDefinition → List ValidationFinding
  unfolding mentions_cycle
  cycle_findings d = elim (validate_and_order d) [
    | ok order ↦ []
    | err e ↦
        if mentions_cycle e
        then record { level = error; code = cycle_found; node_id = none; edge = none } ∷ []
        else []
  ]

unfoldable pub validate_definition :
    (ℕ → Bool) → (DefinitionError → Bool) → WorkflowDefinition → List ValidationFinding
unfolding all_edge_findings edges_ok all_step_findings cycle_findings disconnected_findings
validate_definition is_space says_cycle d =
    let ids = step_ids d in
    let dupes = sorted (distinct (repeated_from [] ids)) in
    map (λ sid. node_finding error duplicate_step_id sid) dupes
    ++ (all_edge_findings ids d.edges
        ++ (all_step_findings is_space d.steps
            ++ ((if elim dupes [ [] ↦ true | _ ∷ _ ↦ false ] && edges_ok ids d.edges
                  then cycle_findings says_cycle d
                  else [])
                ++ disconnected_findings d)))
