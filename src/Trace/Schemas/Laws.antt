-- ===== src/Trace/Schemas/Laws.antt =====
-- trace_projection.py: what the concrete schemas let a reader see.
use intelligent_workflow_app.Prelude.{
  ◌≡◌, ◌≤◌, String, true, false, Option, none, some, List, [], ◌∷◌, All, ◌==◌, string_eq, OfSome,
  arith, Bool-cases, inl, inr,
}
use intelligent_workflow_app.Value.{Value, mapping, Fields}
use intelligent_workflow_app.Trace.Tokens.{enum, safe_key}
use intelligent_workflow_app.Trace.Schema.{Node, leaf, declared, Vocabulary}
use intelligent_workflow_app.Trace.Schemas.{
  usage_node, cap_policy_node, step_output_node, audit_detail_node, context_node, instance_node,
  step_row_node, schemas,
}
use intelligent_workflow_app.Trace.ToolCall.{Encoder}
use intelligent_workflow_app.Trace.Projection.{project}
use intelligent_workflow_app.Trace.Projection.Safe.{IsSafe, project-IsSafe}
use intelligent_workflow_app.Trace.Reading.{
  Reading, reads, unknown_kind, call_raises, schema_of, normalize_vocabulary, redact_tool_data,
}
use intelligent_workflow_app.Trace.Reading.Laws.{IsReleasable, normalize_vocabulary-All}
use intelligent_workflow_app.Trace.Schemas.Shown.{IsSafe-IsShort}
use intelligent_workflow_app.Trace.Schemas.Leaves.{Validators}
use intelligent_workflow_app.Trace.Schemas.Short.{IsShort, IsTight, TightPosition}
use intelligent_workflow_app.Trace.Schemas.Tight.{
  enum-IsTight, marker_leaf-IsTight, id_leaf-IsTight, token_leaf-IsTight, ts_leaf-IsTight,
  bool_leaf-IsTight, count_leaf-IsTight, amount_leaf-IsTight, score_leaf-IsTight,
  config_leaf-IsTight,
}

usage_node-IsTight : IsTight usage_node
unfolding IsTight
usage_node-IsTight = search (count_leaf-IsTight)

surface-IsTight :
    IsTight (
      leaf
        (enum ("detail" ∷ "explain" ∷ "audit" ∷ "ws" ∷ "memory" ∷ "escalation" ∷ "dry_run" ∷ [])))
surface-IsTight = enum-IsTight _ (
  omega arith,
  (omega arith, (omega arith, (omega arith, (omega arith, (omega arith, (omega arith, tt)))))),
)

mode-IsTight : IsTight (leaf (enum ("summary" ∷ "categories" ∷ [])))
mode-IsTight = enum-IsTight _ (omega arith, (omega arith, tt))

author-IsTight : IsTight (leaf (enum ("user" ∷ "third_party" ∷ "system" ∷ [])))
author-IsTight = enum-IsTight _ (omega arith, (omega arith, (omega arith, tt)))

module _ (vs : Validators) where
  cap_policy_node-IsTight : IsTight (cap_policy_node vs)
  unfolding IsTight
  cap_policy_node-IsTight = search (token_leaf-IsTight, config_leaf-IsTight vs, count_leaf-IsTight)

  step_output_node-IsTight : IsTight (step_output_node vs)
  unfolding IsTight
  step_output_node-IsTight = search (
    token_leaf-IsTight,
    usage_node-IsTight,
    amount_leaf-IsTight vs,
    count_leaf-IsTight,
    bool_leaf-IsTight,
    score_leaf-IsTight vs,
    marker_leaf-IsTight,
  )

  audit_detail_node-IsTight : IsTight (audit_detail_node vs)
  unfolding IsTight
  audit_detail_node-IsTight = search (
    id_leaf-IsTight,
    token_leaf-IsTight,
    step_output_node-IsTight,
    amount_leaf-IsTight vs,
    count_leaf-IsTight,
    bool_leaf-IsTight,
    marker_leaf-IsTight,
    surface-IsTight,
    mode-IsTight,
    author-IsTight,
  )

  context_node-IsTight : IsTight (context_node vs)
  unfolding IsTight
  context_node-IsTight = search (
    id_leaf-IsTight,
    step_output_node-IsTight,
    cap_policy_node-IsTight,
    amount_leaf-IsTight vs,
    count_leaf-IsTight,
    bool_leaf-IsTight,
    marker_leaf-IsTight,
  )

  instance_node-IsTight : IsTight (instance_node vs)
  unfolding IsTight
  instance_node-IsTight = search (
    id_leaf-IsTight,
    token_leaf-IsTight,
    ts_leaf-IsTight,
    context_node-IsTight,
    amount_leaf-IsTight vs,
    count_leaf-IsTight,
    marker_leaf-IsTight,
  )

  step_row_node-IsTight : IsTight (step_row_node vs)
  unfolding IsTight
  step_row_node-IsTight = search (
    id_leaf-IsTight, token_leaf-IsTight, ts_leaf-IsTight, step_output_node-IsTight,
    count_leaf-IsTight, marker_leaf-IsTight,
  )

  schemas-IsTight : All (λ s. IsTight s.1) (schemas vs)
  schemas-IsTight = search (
    instance_node-IsTight, step_row_node-IsTight, step_output_node-IsTight, context_node-IsTight,
    audit_detail_node-IsTight,
  )

schema_of-IsTight :
    (kind : String) (table : List (String × Node))
    → All (λ s. IsTight s.1) table
    → OfSome IsTight (schema_of kind table)
unfolding schema_of
schema_of-IsTight kind [] h = tt
schema_of-IsTight kind (s ∷ table) h = elim (Bool-cases (kind == s.0)) [
  | inl here ↦ rw (OfSome, here) h.0
  | inr there ↦ rw (OfSome, there) (schema_of-IsTight kind table h.1)
]

position : (n : Node) → IsTight n → TightPosition (declared n)
unfolding IsTight
position n tight = tight

-- Every text and every key that a reading shows is short.
abbrev pub ReadsShort : Reading → Type 0
ReadsShort (reads v) = IsShort v
ReadsShort _ = Unit

words-safe :
    (vocab : Vocabulary)
    → All IsReleasable vocab
    → All (λ w. All (λ s. safe_key s ≡ true) w.1) vocab
words-safe [] h = tt
words-safe (w ∷ vocab) h = (h.0.tokens, words-safe vocab h.1)

read-Short :
    (o : Option Value)
    → OfSome IsShort o
    → ReadsShort (elim o [ none ↦ call_raises | some out ↦ reads out ])
read-Short none h = tt
read-Short (some out) h = h

module _ (enc : Encoder) (small : (v : Value) → enc.json_size v ≤ 1_000_000_000_000)
    (vocab : Value) where
  IsShort-of_safe :
      (n : Node) (o : Option Value)
      → IsTight n
      → OfSome (IsSafe (normalize_vocabulary vocab) (declared n)) o
      → OfSome IsShort o
  IsShort-of_safe n none tight h = tt
  IsShort-of_safe n (some out) tight h =
      IsSafe-IsShort (normalize_vocabulary vocab)
        (words-safe (normalize_vocabulary vocab) (normalize_vocabulary-All vocab).0) (declared n)
        out (position n tight) h

  reading-Short :
      (fs : Fields) (o : Option Node)
      → OfSome IsTight o
      → ReadsShort (elim o [
        | none ↦ unknown_kind
        | some n ↦ elim (project enc (normalize_vocabulary vocab) (declared n) (mapping fs)) [
          | none ↦ call_raises
          | some out ↦ reads out
        ]
      ])
  reading-Short fs none h = tt
  reading-Short fs (some n) h =
      read-Short (project enc (normalize_vocabulary vocab) (declared n) (mapping fs)) (
        IsShort-of_safe n (project enc (normalize_vocabulary vocab) (declared n) (mapping fs)) h
          (project-IsSafe enc (normalize_vocabulary vocab) small (declared n) (mapping fs)))

-- Whatever an asset holds, at any depth and of any kind that `SCHEMAS` has, and whatever vocabulary its
-- workflow declares, a reader without a grant is shown no text and no key of more than 201 characters,
-- where the JSON text of a content has at most 10¹² bytes.
pub redact_tool_data-ReadsShort :
    (enc : Encoder)
    → ((v : Value) → enc.json_size v ≤ 1_000_000_000_000)
    → (vs : Validators) (kind : String) (vocab : Value) (fs : Fields)
    → ReadsShort (redact_tool_data enc (schemas vs) false kind vocab (mapping fs))
unfolding redact_tool_data
redact_tool_data-ReadsShort enc small vs kind vocab fs =
    reading-Short enc small vocab fs (schema_of kind (schemas vs))
      (schema_of-IsTight kind (schemas vs) (schemas-IsTight vs))
