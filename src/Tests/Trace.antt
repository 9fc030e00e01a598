-- ===== src/Tests/Trace.antt =====
-- Tests of a projection: a step's output with a score, free text and a hostile key.
use intelligent_workflow_app.Prelude.{
  eqb, ◌≡◌, refl, ◌≢◌, ◌≤◌, String, true, false, none, some, [], ◌∷◌, ◌==◌, string_eq, All, length,
  OfSome, arith,
}
use intelligent_workflow_app.Prelude.Int.{pos}
use intelligent_workflow_app.Value.{
  Fields, Value, boolean, num, text, mapping, sequence, no_items, item, no_fields, entry,
}
use intelligent_workflow_app.Trace.Markers.{redacted_field, withheld_legacy, has_redaction_marker}
use intelligent_workflow_app.Trace.Tokens.{short_token, is_count, is_boolean, safe_key}
use intelligent_workflow_app.Trace.Schema.{
  leaf, obj, undeclared, declared, Position, child, no_children, business, engine, Vocabulary,
}
use intelligent_workflow_app.Trace.ToolCall.{Encoder, safe_tool_call}
use intelligent_workflow_app.Trace.Projection.{project}
use intelligent_workflow_app.Trace.Projection.Safe.{IsSafe, project-IsSafe}
use intelligent_workflow_app.Trace.Projection.Fixed.{project_again}
use intelligent_workflow_app.Trace.Projection.Marked.{IsCurrent}
use intelligent_workflow_app.Trace.Projection.Flagged.{project_says_so}
use intelligent_workflow_app.Trace.Reading.{reads, normalize_vocabulary, redact_tool_data}
use intelligent_workflow_app.Trace.Schemas.{schemas}
use intelligent_workflow_app.Trace.Schemas.Leaves.{Validators}
use intelligent_workflow_app.Trace.Schemas.Laws.{ReadsShort, redact_tool_data-ReadsShort}
use intelligent_workflow_app.Trace.Reading.Laws.{IsReleasable, normalize_vocabulary-All}

abbrev enc : Encoder
enc = record { json_size = λ _. 5; real_is_true = λ _. true }

small : (v : Value) → enc.json_size v ≤ 1_000_000_000_000
small v = omega arith

-- A step's output: a flag, a count, and a score that the model gave.
abbrev step_schema : Position
step_schema = declared (
    obj
      (child "parse_ok" (leaf is_boolean)
        (child "attempt" (leaf is_count) (child "score" (leaf is_count) no_children)))
      undeclared false (("parse_ok", business) ∷ ("attempt", engine) ∷ ("score", business) ∷ [])
      true)

abbrev declared_words : Value
declared_words =
    mapping (
      entry "category" (sequence (item (text "invoice") (item (text "receipt") no_items)))
        no_fields)

abbrev vocab : Vocabulary
vocab = ("category", "invoice" ∷ "receipt" ∷ []) ∷ []

abbrev output : Value
output = mapping (
    entry "parse_ok" (boolean true) (
      entry "score" (num (pos 7))
        (entry "category" (text "invoice") (entry "mail body" (text "hello") no_fields))))

abbrev projected_output : Value
projected_output = mapping (
    entry "parse_ok" (boolean true)
      (entry "category" (text "invoice") (entry "_withheld_keys" (boolean true) no_fields)))

words : normalize_vocabulary declared_words ≡ vocab
unfolding normalize_vocabulary safe_key string_eq
words = refl

withholds_score : project enc vocab step_schema output ≡ some projected_output
unfolding project safe_key string_eq is_boolean
withholds_score = refl

-- A tool call whose result is a text raises, as `str` has no `get`.
hostile_call : safe_tool_call enc none (entry "result" (text "x") no_fields) ≡ none
unfolding safe_tool_call string_eq
hostile_call = refl

-- A token may end in a newline: `$` matches before it.
newline_key : safe_key "score\n" ≡ true
unfolding safe_key
newline_key = refl

project-IsSafe_example : OfSome (IsSafe vocab step_schema) (project enc vocab step_schema output)
project-IsSafe_example = project-IsSafe enc vocab small step_schema output

project_again_example :
    OfSome
      (λ out. project enc vocab step_schema out ≡ some out)
      (project enc vocab step_schema output)
project_again_example = project_again enc vocab step_schema output small

apart : (k : String) → (k == withheld_legacy) ≡ false → k ≢ withheld_legacy
apart k ne = ground (arith, ne)

output-IsCurrent : IsCurrent output
unfolding IsCurrent string_eq
output-IsCurrent = (
  apart "parse_ok" refl,
  tt,
  (apart "score" refl, tt, (apart "category" refl, tt, (apart "mail body" refl, tt, tt))),
)

project_says_so_example :
    OfSome
      (λ out. has_redaction_marker out ≡ false → out ≡ output)
      (project enc vocab step_schema output)
project_says_so_example = project_says_so enc vocab small step_schema output output-IsCurrent

normalize_vocabulary-All_example :
    All IsReleasable (normalize_vocabulary declared_words)
    × (length (normalize_vocabulary declared_words) ≤ 8)
normalize_vocabulary-All_example = normalize_vocabulary-All declared_words

abbrev validators : Validators
validators = record { is_amount = λ _. true; is_score = λ _. true; is_space = λ c. eqb c 32 }

abbrev output_fields : Fields
output_fields = entry "parse_ok" (boolean true) (
    entry "model" (text "a model with spaces")
      (entry "category" (text "invoice") (entry "category_score" (num (pos 7)) no_fields)))

reads_step_output :
    redact_tool_data enc
      (schemas validators)
      false
      "step_output"
      declared_words
      (mapping output_fields)
    ≡ reads (
        mapping (
          entry "parse_ok" (boolean true) (
            entry "model" (text redacted_field) (
              entry "category"
                (text "invoice")
                (entry "_withheld_keys" (boolean true) no_fields)))))
unfolding redact_tool_data safe_key string_eq short_token is_boolean
reads_step_output = refl

redact_tool_data-ReadsShort_example : ReadsShort (
    redact_tool_data enc
      (schemas validators)
      false
      "step_output"
      declared_words
      (mapping output_fields))
redact_tool_data-ReadsShort_example =
    redact_tool_data-ReadsShort enc small validators "step_output" declared_words output_fields
