-- ===== src/Workflow/Topology.antt =====
-- workflow/topology.py: structural validation and Kahn's topological sort.
pub mod Counts
pub mod Loop
pub mod Order
pub mod Complete
pub mod Errors
use intelligent_workflow_app.Prelude.{
  ℕ, zero, suc, ◌+◌, ◌-◌, String, Bool, true, false, not, ◌&&◌, Option, none, some, List, [], ◌∷◌,
  ◌++◌, map, foldl, contains, length, keep, sorted, eqb, ◌==◌, string_eq, if◌then◌else◌,
}
use intelligent_workflow_app.Workflow.Definition.{Edge, WorkflowDefinition, step_id}

-- `WorkflowDefinitionError`, a constructor for each message.
pub data DefinitionError : Type 0 where
  duplicate_step_ids : List String → DefinitionError
  unknown_source unknown_target : String → DefinitionError
  cycle : List String → DefinitionError

pub data Ordering : Type 0 where
  ok : List String → Ordering
  err : DefinitionError → Ordering

-- `set(xs)`, as the list of the first occurrences.
unfoldable pub distinct_from : List String → List String → List String
distinct_from seen [] = []
distinct_from seen (x ∷ xs) =
    let rest = distinct_from (if contains seen x then seen else x ∷ seen) xs in
    if contains seen x then rest else x ∷ rest

abbrev pub distinct : List String → List String
distinct = distinct_from []

-- `{sid for sid in step_ids if sid in seen or seen.add(sid)}`: each id that was met before.
unfoldable pub repeated_from : List String → List String → List String
repeated_from seen [] = []
repeated_from seen (x ∷ xs) =
    let rest = repeated_from (if contains seen x then seen else x ∷ seen) xs in
    if contains seen x then x ∷ rest else rest

-- The first edge that names an unknown step, `from` before `to`.
unfoldable pub bad_edge : List String → List Edge → Option DefinitionError
bad_edge valid [] = none
bad_edge valid (e ∷ edges) =
    let rest = bad_edge valid edges in
    if not (contains valid e.source)
    then some (unknown_source e.source)
    else if not (contains valid e.target)
    then some (unknown_target e.target)
    else rest

-- `d[k] = v` of a dict that is kept as a function.
abbrev pub update {ℓ} : {V : Type ℓ} → (String → V) → String → V → String → V
update d k v j = if j == k then v else d j

-- The two dicts that the loop over the edges fills.
pub record Graph : Type 0 where
  pub in_degree : String → ℕ
  pub adjacency : String → List String

unfoldable pub add_edge : Graph → Edge → Graph
add_edge g e = record {
  in_degree = update g.in_degree e.target (g.in_degree e.target + 1);
  adjacency = update g.adjacency e.source (g.adjacency e.source ++ e.target ∷ []);
}

unfoldable pub build : List Edge → Graph
unfolding add_edge
build = foldl add_edge (record { in_degree = λ _. 0; adjacency = λ _. [] })

-- The variables of Kahn's loop.
pub record Kahn : Type 0 where
  pub in_degree : String → ℕ
  pub queue : List String
  pub ordered : List String

-- The body of the loop over the neighbours of a node.
unfoldable pub relax : Kahn → String → Kahn
relax k v =
    let n = k.in_degree v - 1 in
    record k {
      in_degree = update k.in_degree v n;
      queue = if eqb n 0 then k.queue ++ v ∷ [] else k.queue;
    }

-- A round of the `while` loop, after `node` left the queue.
unfoldable pub visit : (String → List String) → Kahn → String → List String → Kahn
unfolding relax
visit adjacency k node rest =
    foldl relax (record k { queue = rest; ordered = k.ordered ++ node ∷ [] }) (adjacency node)

-- The `while` loop. The fuel is the number of the steps, and `loop-queue` shows that it is enough.
unfoldable pub loop : (String → List String) → ℕ → Kahn → Kahn
unfolding visit
loop adjacency zero k = k
loop adjacency (suc fuel) k = elim k.queue [
  | [] ↦ k
  | node ∷ rest ↦ loop adjacency fuel (visit adjacency k node rest)
]

unfoldable pub start : List String → Graph → Kahn
start step_ids g = record {
  in_degree = g.in_degree;
  queue = keep (λ sid. eqb (g.in_degree sid) 0) step_ids;
  ordered = [];
}

-- The test behind the loop.
unfoldable pub conclude : List String → Kahn → Ordering
conclude step_ids k =
    if not (eqb (length k.ordered) (length step_ids))
    then err (cycle (sorted (keep (λ sid. not (eqb (k.in_degree sid) 0)) step_ids)))
    else ok k.ordered

unfoldable pub topological_sort : List String → List Edge → Ordering
unfolding build start loop conclude
topological_sort step_ids edges =
    let g = build edges in conclude step_ids (loop g.adjacency (length step_ids) (start step_ids g))

abbrev pub step_ids : WorkflowDefinition → List String
step_ids d = map step_id d.steps

unfoldable pub validate_and_order : WorkflowDefinition → Ordering
unfolding distinct_from repeated_from bad_edge topological_sort
validate_and_order d =
    let ids = step_ids d in
    if not (eqb (length ids) (length (distinct ids)))
    then err (duplicate_step_ids (sorted (distinct (repeated_from [] ids))))
    else elim (bad_edge ids d.edges) [ some e ↦ err e | none ↦ topological_sort ids d.edges ]
