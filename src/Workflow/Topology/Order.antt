-- ===== src/Workflow/Topology/Order.antt =====
-- What a successful `validate_and_order` returns.
use intelligent_workflow_app.Prelude.{
  ℕ, zero, suc, ◌≤◌, ◌<◌, min, ◌≡◌, sym, ◌∙◌, ap, String, true, false, List, [], ◌∷◌, ◌++◌,
  contains, contains-append, count, count_of_present, count_of_absent, count_eq_of_length, length,
  index, index_lt, index_of_absent, index-snoc, All, subst, List-cases, none, string_eq,
  if◌then◌else◌, arith, inl, inr,
}
use intelligent_workflow_app.Workflow.Definition.{Edge, WorkflowDefinition}
use intelligent_workflow_app.Workflow.Topology.{
  Kahn, visit, loop, start, build, conclude, topological_sort, distinct_from, distinct, bad_edge,
  ok, step_ids, validate_and_order,
}
use intelligent_workflow_app.Workflow.Topology.Counts.{into, waiting, targets, build-adjacency}
use intelligent_workflow_app.Workflow.Topology.Loop.{
  IsSound, IsKahn, head_facts, start-IsKahn, visit-IsKahn, loop-IsKahn, visit-ordered,
}

-- Every edge goes forward in the list.
abbrev pub Respects : List Edge → List String → Type 0
Respects edges order = All (λ e. index e.source order < index e.target order) edges

-- Every edge whose target is listed goes forward.
abbrev pub RespectsSoFar : List Edge → List String → Type 0
RespectsSoFar edges order =
    All (λ e. contains order e.target ≡ true → index e.source order < index e.target order) edges

RespectsSoFar-nil : (es : List Edge) → RespectsSoFar es []
RespectsSoFar-nil [] = tt
RespectsSoFar-nil (e ∷ es) = (λ h. ground arith, RespectsSoFar-nil es)

RespectsSoFar-snoc :
    (order : List String) (node : String) (es : List Edge)
    → contains order node ≡ false
    → waiting order node es ≡ 0
    → RespectsSoFar es order
    → RespectsSoFar es (order ++ node ∷ [])
RespectsSoFar-snoc order node [] absent none_waits h = tt
RespectsSoFar-snoc order node (e ∷ es) absent none_waits h = (
  λ there. ground (
    arith,
    h.0,
    index-snoc e.source node order,
    index-snoc e.target node order,
    contains-append e.target order (node ∷ []),
    index_lt e.source order,
    index_lt e.target order,
    index_of_absent e.source order,
  ),
  RespectsSoFar-snoc order node es absent (ground arith) h.1,
)

Respects-all :
    (es : List Edge) (order : List String)
    → ((v : String) → 1 ≤ into v es → contains order v ≡ true)
    → RespectsSoFar es order
    → Respects es order
Respects-all [] order h r = tt
Respects-all (e ∷ es) order h r =
    (r.0 (h e.target (ground arith)), Respects-all es order (λ v i. h v (omega arith)) r.1)

module _ (ids : List String) (es : List Edge) (sound : IsSound ids es)
    (adjacency : String → List String) (adj : (u : String) → adjacency u ≡ targets u es) where
  loop-Respects :
      (fuel : ℕ) (k : Kahn)
      → IsKahn ids es sound k
      → RespectsSoFar es k.ordered
      → RespectsSoFar es (loop adjacency fuel k).ordered
  unfolding loop
  loop-Respects zero k h r = r
  loop-Respects (suc fuel) k h r = elim (List-cases k.queue) [
    | inl empty ↦ rw (empty, loop) r
    | inr (node, rest, q) ↦
        let (zero_in, absent, once) = head_facts ids es sound k node rest q h in
        rw (q, loop)
          (loop-Respects fuel (visit adjacency k node rest)
            (visit-IsKahn ids es sound adjacency adj k node rest q h)
            (rw (visit-ordered ids es sound adjacency adj k node rest)
              (RespectsSoFar-snoc k.ordered node es absent (sym (h.degrees node) ∙ zero_in) r)))
  ]

pub distinct_from-count :
    (seen : List String) (xs : List String) (v : String)
    → count v (distinct_from seen xs) ≡ (if contains seen v then 0 else min 1 (count v xs))
unfolding distinct_from
distinct_from-count seen [] v = ground arith
distinct_from-count seen (x ∷ xs) v =
    ground (arith, distinct_from-count (if contains seen x then seen else x ∷ seen) xs v)

unique_of_length :
    (xs : List String) → length xs ≡ length (distinct xs) → (v : String) → count v xs ≤ 1
unique_of_length xs h v =
    let same =
      count_eq_of_length (distinct xs) xs (λ a. omega (arith, distinct_from-count [] xs a)) (sym h)
        v in
    omega (arith, same, distinct_from-count [] xs v)

pub known_of_bad_edge :
    (valid : List String) (es : List Edge)
    → bad_edge valid es ≡ none
    → All (λ e. (contains valid e.source ≡ true) × (contains valid e.target ≡ true)) es
unfolding bad_edge
known_of_bad_edge valid [] h = tt
known_of_bad_edge valid (e ∷ es) h = ground (arith, known_of_bad_edge valid es)

known_target :
    (valid : List String) (es : List Edge)
    → All (λ e. (contains valid e.source ≡ true) × (contains valid e.target ≡ true)) es
    → (v : String) → 1 ≤ into v es
    → contains valid v ≡ true
known_target valid [] h v i = absurd (omega arith)
known_target valid (e ∷ es) h v i = ground (arith, known_target valid es h.1 v)

-- A definition whose ids are unique and whose edges name its steps.
pub IsSound-checks :
    (ids : List String) (es : List Edge)
    → length ids ≡ length (distinct ids)
    → bad_edge ids es ≡ none
    → IsSound ids es
IsSound-checks ids es u b = record {
  unique = unique_of_length ids u;
  known = λ v i. ground (
    arith,
    unique_of_length ids u v,
    count_of_present v ids (known_target ids es (known_of_bad_edge ids es b) v i),
  );
}

-- `order` is a topological order of the steps: it lists each step once and nothing else, and every
-- edge goes from an earlier step to a later one.
pub record IsTopological (d : WorkflowDefinition) (order : List String) : Type 0 where
  pub same : (v : String) → count v order ≡ count v (step_ids d)
  pub once : (v : String) → count v order ≤ 1
  pub respects : Respects d.edges order

pub sort-IsTopological :
    (ids : List String) (es : List Edge) (order : List String)
    → IsSound ids es
    → topological_sort ids es ≡ ok order
    → ((v : String) → count v order ≡ count v ids) × Respects es order
unfolding topological_sort conclude
sort-IsTopological ids es order sound h =
    let adjacency = (build es).adjacency in
    let adj = build-adjacency es in
    let k = loop adjacency (length ids) (start ids (build es)) in
    let inv = loop-IsKahn ids es sound adjacency adj (length ids) _ (start-IsKahn ids es sound) in
    let res =
      loop-Respects ids es sound adjacency adj (length ids) _ (start-IsKahn ids es sound)
        (RespectsSoFar-nil es) in
    let all_in : length k.ordered ≡ length ids = ground arith in
    let is : k.ordered ≡ order = ground arith in
    let same : (v : String) → count v k.ordered ≡ count v ids =
      count_eq_of_length k.ordered ids (λ v. ground (arith, inv.listed v)) all_in in
    let there : (v : String) → 1 ≤ into v es → contains k.ordered v ≡ true =
      λ v i. ground (arith, same v, sound.known v i, count_of_absent v k.ordered) in
    (
      λ v. ap (count v) (sym is) ∙ same v,
      subst (Respects es) is (Respects-all es k.ordered there res),
    )

pub ok_checks :
    (d : WorkflowDefinition) (order : List String)
    → validate_and_order d ≡ ok order
    → (length (step_ids d) ≡ length (distinct (step_ids d)))
      × (bad_edge (step_ids d) d.edges ≡ none)
      × (topological_sort (step_ids d) d.edges ≡ ok order)
unfolding validate_and_order
ok_checks d order h = ground arith

-- A successful `validate_and_order` returns a topological order of the definition's steps.
pub validate_and_order-IsTopological :
    (d : WorkflowDefinition) (order : List String)
    → validate_and_order d ≡ ok order
    → IsTopological d order
validate_and_order-IsTopological d order h =
    let (u, b, t) = ok_checks d order h in
    let sound = IsSound-checks (step_ids d) d.edges u b in
    let (same, respects) = sort-IsTopological (step_ids d) d.edges order sound t in
    record { same = same; once = λ v. omega (arith, same v, sound.unique v); respects = respects }
