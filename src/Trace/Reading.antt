-- ===== src/Trace/Reading.antt =====
-- trace_projection.py: `_normalize_vocabulary`, `redact_tool_data` and `redact_error`, by which a
-- reader's surface projects what is stored.
pub mod Laws
use intelligent_workflow_app.Prelude.{
  ℕ, zero, suc, String, Bool, true, false, not, ◌||◌, Option, none, some, List, [], ◌∷◌, contains,
  length, leb, ◌==◌, string_eq, if◌then◌else◌,
}
use intelligent_workflow_app.Value.{
  Value, null, text, sequence, mapping, Items, no_items, item, Fields, no_fields, entry,
}
use intelligent_workflow_app.Trace.Markers.{redacted_field}
use intelligent_workflow_app.Trace.Tokens.{safe_key}
use intelligent_workflow_app.Trace.Schema.{Node, declared, Vocabulary}
use intelligent_workflow_app.Trace.ToolCall.{Encoder}
use intelligent_workflow_app.Trace.Projection.{project}

-- `_RESERVED_PROJECTION_FIELDS`
abbrev pub reserved_fields : List String
reserved_fields =
    "_withheld_keys" ∷ "_withheld_key_count" ∷ "_redacted" ∷ "projector_version"
    ∷ "projection_schema_version" ∷ []

-- `{v for v in values if isinstance(v, str) and _short_token(v)}`
unfoldable pub members : Items → List String
members no_items = []
members (item (text s) vs) =
    let rest = members vs in
    if not (safe_key s) then rest else if contains rest s then rest else s ∷ rest
members (item _ vs) = members vs

-- A declared field, or `none` where it is dropped.
unfoldable pub words_for : String → Value → Option (List String)
unfolding members
words_for field (sequence values) =
    let words = members values in
    if not (safe_key field)
    then none
    else if contains reserved_fields field
    then none
    else if leb (length words) 0 || not (leb (length words) 32)
    then none
    else some words
words_for field _ = none

-- The loop over the first fields, of which `n` are left.
unfoldable pub normalize_fields : ℕ → Fields → Vocabulary
unfolding words_for
normalize_fields zero fs = []
normalize_fields (suc n) no_fields = []
normalize_fields (suc n) (entry field values fs) =
    let rest = normalize_fields n fs in
    elim (words_for field values) [ none ↦ rest | some words ↦ (field, words) ∷ rest ]

-- `_normalize_vocabulary`
unfoldable pub normalize_vocabulary : Value → Vocabulary
unfolding normalize_fields
normalize_vocabulary (mapping fs) = normalize_fields 8 fs
normalize_vocabulary _ = []

-- What a reader gets: a value, the `ValueError` of a kind that no schema declares, or the exception
-- of a hostile tool call.
pub data Reading : Type 0 where
  reads : Value → Reading
  unknown_kind : Reading
  call_raises : Reading

unfoldable pub schema_of : String → List (String × Node) → Option Node
schema_of kind [] = none
schema_of kind (s ∷ schemas) = if kind == s.0 then some s.1 else schema_of kind schemas

-- `redact_tool_data`, with `SCHEMAS`.
unfoldable pub redact_tool_data :
    Encoder → List (String × Node) → Bool → String → Value → Value → Reading
unfolding schema_of project normalize_vocabulary
redact_tool_data enc schemas admin kind vocab (mapping fs) =
    if admin then reads (mapping fs) else elim (schema_of kind schemas) [
      | none ↦ unknown_kind
      | some n ↦ elim (project enc (normalize_vocabulary vocab) (declared n) (mapping fs)) [
        | none ↦ call_raises
        | some out ↦ reads out
      ]
    ]
redact_tool_data enc schemas admin kind vocab obj = reads obj

-- `redact_error`
unfoldable redact_error : Option String → Bool → Option String
redact_error none admin = none
redact_error (some error) admin = if admin then some error else some redacted_field
