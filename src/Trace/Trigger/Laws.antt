-- ===== src/Trace/Trigger/Laws.antt =====
-- What a projected trigger payload is, and that it is projected to itself.
use intelligent_workflow_app.Prelude.{
  ◌≡◌, refl, String, Bool, true, false, not, is_none, string_eq, if◌then◌else◌, Bool-cases, inl,
  inr,
}
use intelligent_workflow_app.Value.{text, Fields, no_fields, entry, get}
use intelligent_workflow_app.Trace.Markers.{redacted_field, redacted_trigger}
use intelligent_workflow_app.Trace.Trigger.{safe_trigger_payload}

abbrev redacted_if : Bool → String → Fields → Fields
redacted_if present key fs = if present then entry key (text redacted_field) fs else fs

-- The marker, and the routing keys that the payload has, each with a redacted value.
abbrev pub routing_form : Bool → Bool → Bool → Fields
routing_form m t i =
    entry "_redacted" (text redacted_trigger)
      (redacted_if m "message_id" (redacted_if t "thread_id" (redacted_if i "id" no_fields)))

abbrev pub is_in : String → Fields → Bool
is_in key fs = not (is_none (get key fs))

pub safe_trigger_payload-form :
    (p : Fields)
    → safe_trigger_payload p
      ≡ routing_form (is_in "message_id" p) (is_in "thread_id" p) (is_in "id" p)
unfolding safe_trigger_payload string_eq
safe_trigger_payload-form p = elim (Bool-cases (is_none (get "message_id" p))) [
  | inl m ↦ elim (Bool-cases (is_none (get "thread_id" p))) [
    | inl t ↦ elim (Bool-cases (is_none (get "id" p))) [
      | inl i ↦ rw (m, t, i) refl
      | inr i ↦ rw (m, t, i) refl
    ]
    | inr t ↦ elim (Bool-cases (is_none (get "id" p))) [
      | inl i ↦ rw (m, t, i) refl
      | inr i ↦ rw (m, t, i) refl
    ]
  ]
  | inr m ↦ elim (Bool-cases (is_none (get "thread_id" p))) [
    | inl t ↦ elim (Bool-cases (is_none (get "id" p))) [
      | inl i ↦ rw (m, t, i) refl
      | inr i ↦ rw (m, t, i) refl
    ]
    | inr t ↦ elim (Bool-cases (is_none (get "id" p))) [
      | inl i ↦ rw (m, t, i) refl
      | inr i ↦ rw (m, t, i) refl
    ]
  ]
]

-- The payload of a reader without a grant, projected again.
pub safe_trigger_payload_again :
    (m t i : Bool) → safe_trigger_payload (routing_form m t i) ≡ routing_form m t i
unfolding safe_trigger_payload get string_eq
safe_trigger_payload_again true true true = refl
safe_trigger_payload_again true true false = refl
safe_trigger_payload_again true false true = refl
safe_trigger_payload_again true false false = refl
safe_trigger_payload_again false true true = refl
safe_trigger_payload_again false true false = refl
safe_trigger_payload_again false false true = refl
safe_trigger_payload_again false false false = refl
