-- ===== src/Trace/Markers.antt =====
-- trace_projection.py: the marks that a projection leaves, and the tests for them.
use intelligent_workflow_app.Prelude.{
  suc, String, Bool, true, false, ◌||◌, Option, some, List, [], ◌∷◌, contains, string_eq, is_none,
  not,
}
use intelligent_workflow_app.Prelude.Int.{pos}
use intelligent_workflow_app.Value.{
  Value, boolean, num, text, sequence, mapping, Items, no_items, item, Fields, no_fields, entry,
  get,
}

abbrev pub redacted_field : String
redacted_field = "[redacted — raw-trace grant required]"

abbrev pub redacted_trigger : String
redacted_trigger = "raw trigger payload withheld (raw-trace privilege only)"

abbrev pub redacted_tool : String
redacted_tool = "raw tool input/result withheld (admin-tier only)"

abbrev pub generated_markers : List String
generated_markers = redacted_field ∷ redacted_trigger ∷ redacted_tool ∷ []

-- `_WITHHELD` and `_WITHHELD_LEGACY`
abbrev pub withheld_key : String
withheld_key = "_withheld_keys"

abbrev pub withheld_legacy : String
withheld_legacy = "_withheld_key_count"

-- `is_generated_marker`
unfoldable pub is_generated_marker : Value → Bool
is_generated_marker (text s) = contains generated_markers s
is_generated_marker _ = false

-- `obj.get(_WITHHELD) is True`
abbrev pub is_true : Option Value → Bool
is_true (some (boolean b)) = b
is_true _ = false

-- The old count: an int that is not a bool, above 0.
abbrev is_positive_int : Option Value → Bool
is_positive_int (some (num (pos (suc n)))) = true
is_positive_int _ = false

-- `is_withheld_marker`, of a dict.
unfoldable pub is_withheld_marker : Fields → Bool
unfolding get
is_withheld_marker fs = is_true (get withheld_key fs) || is_positive_int (get withheld_legacy fs)

-- `has_redaction_marker`
unfoldable mutual
  unfolding is_withheld_marker

  pub has_redaction_marker : Value → Bool
  has_redaction_marker (text s) = contains generated_markers s
  has_redaction_marker (mapping fs) =
      not (is_none (get "_redacted" fs)) || (is_withheld_marker fs || fields_have_marker fs)
  has_redaction_marker (sequence vs) = items_have_marker vs
  has_redaction_marker _ = false

  pub items_have_marker : Items → Bool
  items_have_marker no_items = false
  items_have_marker (item v vs) = has_redaction_marker v || items_have_marker vs

  pub fields_have_marker : Fields → Bool
  fields_have_marker no_fields = false
  fields_have_marker (entry k v fs) = has_redaction_marker v || fields_have_marker fs
