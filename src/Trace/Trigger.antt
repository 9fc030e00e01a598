-- ===== src/Trace/Trigger.antt =====
-- trace_projection.py: `safe_trigger_payload`.
pub mod Laws
use intelligent_workflow_app.Prelude.{
  ◌≡◌, refl, String, Bool, true, false, Option, none, some, List, [], ◌∷◌, is_none, ◌==◌, string_eq,
  if◌then◌else◌, arith, Bool-cases, inl, inr,
}
use intelligent_workflow_app.Value.{Value, text, Fields, no_fields, entry, get, put}
use intelligent_workflow_app.Value.Laws.{get-put}
use intelligent_workflow_app.Trace.Markers.{redacted_field, redacted_trigger}

abbrev routing_keys : List String
routing_keys = "message_id" ∷ "thread_id" ∷ "id" ∷ []

-- The loop over the routing keys.
unfoldable pub add_routing : List String → Fields → Fields → Fields
unfolding get put
add_routing [] payload safe = safe
add_routing (key ∷ keys) payload safe =
    add_routing keys payload
      (if is_none (get key payload) then safe else put key (text redacted_field) safe)

unfoldable pub safe_trigger_payload : Fields → Fields
unfolding add_routing
safe_trigger_payload payload =
    add_routing routing_keys payload (entry "_redacted" (text redacted_trigger) no_fields)
