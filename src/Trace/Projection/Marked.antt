-- ===== src/Trace/Projection/Marked.antt =====
-- trace_projection.py: the marks that `_project` leaves on values, calls, triggers and dicts.
use intelligent_workflow_app.Prelude.{
  ◌≡◌, ◌≢◌, refl, ap, ◌∙◌, inl, inr, String, Bool, true, false, not, some, string_eq, is_none,
  neither, clash, or_true, eq_self, arith, Bool-cases,
}
use intelligent_workflow_app.Value.{
  Value, boolean, sequence, mapping, Items, no_items, item, Fields, no_fields, entry, get, put,
}
use intelligent_workflow_app.Value.Laws.{get-put}
use intelligent_workflow_app.Trace.Markers.{
  redacted_field, withheld_key, withheld_legacy, is_withheld_marker, has_redaction_marker,
  items_have_marker, fields_have_marker,
}
use intelligent_workflow_app.Trace.Schema.{
  leaf, obj, seq, tool_calls, trigger_payload, Position, undeclared, declared,
}
use intelligent_workflow_app.Trace.Trigger.{safe_trigger_payload}
use intelligent_workflow_app.Trace.Trigger.Laws.{routing_form, is_in, safe_trigger_payload-form}
use intelligent_workflow_app.Trace.ToolCall.{call_form, Signals}
use intelligent_workflow_app.Trace.ToolCall.Laws.{IsSafeCall}
use intelligent_workflow_app.Trace.Projection.{redacted, scalar, Projected, conclude_fields}

-- Data without the key of the old count, as it is written now.
unfoldable mutual
  pub IsCurrent : Value → Type 0
  IsCurrent (sequence vs) = CurrentItems vs
  IsCurrent (mapping fs) = CurrentFields fs
  IsCurrent _ = Unit

  pub CurrentItems : Items → Type 0
  CurrentItems no_items = Unit
  CurrentItems (item v vs) = IsCurrent v × CurrentItems vs

  pub CurrentFields : Fields → Type 0
  CurrentFields no_fields = Unit
  CurrentFields (entry k v fs) = (k ≢ withheld_legacy) × IsCurrent v × CurrentFields fs

-- Where no marker is left, nothing was left out.
abbrev pub SaysSo : Value → Value → Type 0
SaysSo v out = has_redaction_marker out ≡ false → out ≡ v

redacted_marked : has_redaction_marker redacted ≡ true
unfolding has_redaction_marker
redacted_marked = ground (arith, eq_self redacted_field)

pub redacted-SaysSo : (v : Value) → SaysSo v redacted
redacted-SaysSo v h = absurd (ground (arith, redacted_marked))

pub scalar-SaysSo : (p : Position) (v : Value) → SaysSo v (scalar p v)
scalar-SaysSo (declared (leaf validate)) v = elim (Bool-cases (validate v)) [
  | inl fits ↦ rw fits (λ _. refl)
  | inr fails ↦ rw fails (redacted-SaysSo v)
]
scalar-SaysSo undeclared v = redacted-SaysSo v
scalar-SaysSo (declared (obj _ _ _ _ _)) v = redacted-SaysSo v
scalar-SaysSo (declared (seq n)) v = redacted-SaysSo v
scalar-SaysSo (declared tool_calls) v = redacted-SaysSo v
scalar-SaysSo (declared trigger_payload) v = redacted-SaysSo v

-- A dict that holds the marker key.
pub marked_of_key :
    (fs : Fields) → is_none (get "_redacted" fs) ≡ false → has_redaction_marker (mapping fs) ≡ true
unfolding has_redaction_marker
marked_of_key fs h = rw h refl

pub routing_marked : (m t i : Bool) → is_none (get "_redacted" (routing_form m t i)) ≡ false
unfolding get string_eq
routing_marked m t i = refl

pub trigger_marked : (fs : Fields) → has_redaction_marker (mapping (safe_trigger_payload fs)) ≡ true
trigger_marked fs = marked_of_key (safe_trigger_payload fs) (
    rw (safe_trigger_payload-form fs)
      (routing_marked (is_in "message_id" fs) (is_in "thread_id" fs) (is_in "id" fs)))

pub form_marked :
    (pins probes : Bool) (s : Signals)
    → is_none (get "_redacted" (call_form redacted_field pins probes s)) ≡ false
unfolding get call_form string_eq
form_marked pins probes s = refl

pub call_marked : (tc : Fields) → IsSafeCall tc → has_redaction_marker (mapping tc) ≡ true
call_marked tc h = marked_of_key tc (rw h.form (form_marked h.pins h.probes h.signals))

-- The flag is a marker.
pub marked_of_flag :
    (fs : Fields)
    → get withheld_key fs ≡ some (boolean true)
    → has_redaction_marker (mapping fs) ≡ true
unfolding has_redaction_marker is_withheld_marker
marked_of_flag fs h = rw h (or_true (not (is_none (get "_redacted" fs))))

pub fields_unmarked :
    (fs : Fields) → has_redaction_marker (mapping fs) ≡ false → fields_have_marker fs ≡ false
unfolding has_redaction_marker
fields_unmarked fs h =
    let (_, others) = neither (not (is_none (get "_redacted" fs))) _ h in
    let (_, inside) = neither (is_withheld_marker fs) _ others in inside

pub unmarked-cons :
    (k : String) (v : Value) (fs : Fields)
    → fields_have_marker (entry k v fs) ≡ false
    → (has_redaction_marker v ≡ false) × (fields_have_marker fs ≡ false)
unfolding has_redaction_marker
unmarked-cons k v fs h = neither (has_redaction_marker v) (fields_have_marker fs) h

pub unmarked_item :
    (v : Value) (vs : Items)
    → items_have_marker (item v vs) ≡ false
    → (has_redaction_marker v ≡ false) × (items_have_marker vs ≡ false)
unfolding has_redaction_marker
unmarked_item v vs h = neither (has_redaction_marker v) (items_have_marker vs) h

-- The list of tool calls, the items of a sequence and the entries of a dict.
abbrev pub ItemsSaySo : Items → Items → Type 0
ItemsSaySo vs out = items_have_marker out ≡ false → out ≡ vs

abbrev pub FieldsSaySo : Fields → Projected → Type 0
FieldsSaySo fs r =
    CurrentFields fs → r.withheld ≡ false → fields_have_marker r.out ≡ false → r.out ≡ fs

pub item-SaysSo :
    (v x : Value) (vs ys : Items)
    → SaysSo v x
    → ItemsSaySo vs ys
    → ItemsSaySo (item v vs) (item x ys)
item-SaysSo v x vs ys p q h =
    let (here, there) = unmarked_item x ys h in ap (λ w. item w ys) (p here) ∙ ap (item v) (q there)

pub sequence-SaysSo : (vs out : Items) → ItemsSaySo vs out → SaysSo (sequence vs) (sequence out)
unfolding has_redaction_marker
sequence-SaysSo vs out h unmarked = ap sequence (h unmarked)

-- A dict that is concluded without a marker withheld nothing.
pub conclude-SaysSo :
    (fs : Fields) (r : Projected)
    → CurrentFields fs
    → FieldsSaySo fs r
    → SaysSo (mapping fs) (conclude_fields r)
unfolding conclude_fields
conclude-SaysSo fs r current h = elim (Bool-cases r.withheld) [
  | inr nothing ↦
      rw nothing (λ unmarked. ap mapping (h current nothing (fields_unmarked r.out unmarked)))
  | inl something ↦
      let flagged =
        marked_of_flag (put withheld_key (boolean true) r.out) (
          get-put withheld_key withheld_key (boolean true) r.out
          ∙ rw (eq_self withheld_key) refl) in
      rw something (λ unmarked. absurd (clash flagged unmarked))
]
