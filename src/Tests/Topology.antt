-- ===== src/Tests/Topology.antt =====
-- Tests of the topological order and of the validation.
use intelligent_workflow_app.Prelude.{
  ℕ, String, Bool, false, ◌≡◌, refl, ◌≤◌, ◌==◌, string_eq, if◌then◌else◌, List, [], ◌∷◌, arith, eqb,
  sorted, count, all, ◌&&◌,
}
use intelligent_workflow_app.Workflow.Topology.{ok, err, cycle, step_ids, validate_and_order}
use intelligent_workflow_app.Workflow.Topology.Order.{
  IsTopological, validate_and_order-IsTopological,
}
use intelligent_workflow_app.Workflow.Topology.Complete.{validate_and_order_complete}
use intelligent_workflow_app.Workflow.Topology.Errors.{Explains, validate_and_order-Explains}
use intelligent_workflow_app.Workflow.Validation.{validate_definition}
use intelligent_workflow_app.Workflow.Validation.Laws.{
  no_errors, is_ok, is_shaped, validate_definition-agrees,
}
use intelligent_workflow_app.Tests.Flows.{linear, cyclic}

linear_order : validate_and_order linear ≡ ok ("fetch" ∷ "draft" ∷ [])
unfolding validate_and_order string_eq
linear_order = refl

cyclic_error : validate_and_order cyclic ≡ err (cycle ("draft" ∷ "fetch" ∷ []))
unfolding validate_and_order string_eq sorted
cyclic_error = refl

validate_and_order-IsTopological_example : IsTopological linear ("fetch" ∷ "draft" ∷ [])
validate_and_order-IsTopological_example =
    validate_and_order-IsTopological linear ("fetch" ∷ "draft" ∷ []) linear_order

abbrev rank : String → ℕ
rank s = if s == "fetch" then 0 else 1

ids_differ : ◌==◌ {A = String} "draft" "fetch" ≡ false
unfolding string_eq
ids_differ = refl

linear_unique : (v : String) → count v ("draft" ∷ "fetch" ∷ []) ≤ 1
linear_unique v = ground (arith, ids_differ)

validate_and_order_complete_example : (order : List String) × (validate_and_order linear ≡ ok order)
unfolding string_eq
validate_and_order_complete_example =
    validate_and_order_complete linear rank linear_unique ((refl, refl), tt) (omega arith, tt)

validate_and_order-Explains_example :
    Explains (step_ids cyclic) cyclic.edges (cycle ("draft" ∷ "fetch" ∷ []))
validate_and_order-Explains_example =
    validate_and_order-Explains cyclic (cycle ("draft" ∷ "fetch" ∷ [])) cyclic_error

abbrev is_blank_char : ℕ → Bool
is_blank_char c = eqb c 32

validate_definition-agrees_example :
    no_errors (validate_definition is_blank_char (λ _. false) cyclic)
    ≡ (is_ok (validate_and_order cyclic) && all (is_shaped is_blank_char) cyclic.steps)
validate_definition-agrees_example = validate_definition-agrees is_blank_char (λ _. false) cyclic
