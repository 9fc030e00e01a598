-- ===== src/Trace/Projection.antt =====
-- trace_projection.py: `_project`. It is `none` where a hostile tool call raises.
pub mod Safe
pub mod Fixed
pub mod Marked
pub mod Flagged
use intelligent_workflow_app.Prelude.{
  ℕ, String, Bool, true, false, Option, none, some, List, [], ◌∷◌, ◌==◌, string_eq, if◌then◌else◌,
}
use mathlib.Core.Option.{map as map_option}
use intelligent_workflow_app.Value.{
  Value, null, boolean, num, real, text, sequence, mapping, Items, no_items, item, Fields,
  no_fields, entry, put,
}
use intelligent_workflow_app.Trace.Markers.{redacted_field, withheld_key}
use intelligent_workflow_app.Trace.Schema.{
  Owner, Node, leaf, obj, seq, tool_calls, trigger_payload, Position, undeclared, declared,
  Children, Vocabulary, Route, emits, projects, withholds, passes, route,
}
use intelligent_workflow_app.Trace.Trigger.{safe_trigger_payload}
use intelligent_workflow_app.Trace.ToolCall.{Encoder, safe_tool_call}

abbrev pub redacted : Value
redacted = text redacted_field

-- `out` and `withheld`
pub record Projected : Type 0 where
  pub out : Fields
  pub withheld : Bool

-- `if withheld: out[_WITHHELD] = True`
unfoldable pub conclude_fields : Projected → Value
unfolding put
conclude_fields p = mapping (if p.withheld then put withheld_key (boolean true) p.out else p.out)

-- An entry before the rest of a dict, whose keys are unique.
abbrev pub keep_entry : String → Value → Projected → Projected
keep_entry k v p = record p { out = entry k v p.out }

abbrev pub withhold : Projected → Projected
withhold p = record p { withheld = true }

-- Both values, where neither raises.
unfoldable pub both {ℓ κ μ} :
    {A : Type ℓ} {B : Type κ} {C : Type μ} → (A → B → C) → Option A → Option B → Option C
both f none b = none
both f (some a) none = none
both f (some a) (some b) = some (f a b)

-- The list of tool calls.
abbrev pub project_call : Encoder → Value → Option Value
project_call enc (mapping tc) = map_option mapping (safe_tool_call enc none tc)
project_call enc _ = some redacted

unfoldable pub project_calls : Encoder → Items → Option Items
unfolding both safe_tool_call
project_calls enc no_items = some no_items
project_calls enc (item v vs) = both item (project_call enc v) (project_calls enc vs)

-- A value that is no container of its node: a leaf keeps what it accepts, and all else is redacted.
abbrev pub scalar : Position → Value → Value
scalar (declared (leaf validate)) v = if validate v then v else redacted
scalar _ v = redacted

unfoldable mutual
  unfolding both route conclude_fields project_calls safe_trigger_payload

  pub project : Encoder → Vocabulary → Position → Value → Option Value
  project enc vocab p null = some null
  project enc vocab p (boolean b) = some (scalar p (boolean b))
  project enc vocab p (num n) = some (scalar p (num n))
  project enc vocab p (real s) = some (scalar p (real s))
  project enc vocab p (text s) = some (scalar p (text s))
  project enc vocab (declared tool_calls) (sequence vs) = map_option sequence (project_calls enc vs)
  project enc vocab (declared (seq n)) (sequence vs) =
      map_option sequence (project_items enc vocab n vs)
  project enc vocab p (sequence vs) = some (scalar p (sequence vs))
  project enc vocab (declared trigger_payload) (mapping fs) =
      some (mapping (safe_trigger_payload fs))
  project enc vocab (declared (obj kids wildcard platform owners step_output)) (mapping fs) =
      map_option conclude_fields
        (project_fields enc vocab kids wildcard platform owners step_output fs)
  project enc vocab p (mapping fs) = some (scalar p (mapping fs))

  pub project_items : Encoder → Vocabulary → Node → Items → Option Items
  project_items enc vocab n no_items = some no_items
  project_items enc vocab n (item v vs) =
      both item (project enc vocab (declared n) v) (project_items enc vocab n vs)

  pub project_fields :
      Encoder
      → Vocabulary
      → Children
      → Position
      → Bool
      → List (String × Owner)
      → Bool
      → Fields
      → Option Projected
  project_fields enc vocab kids wildcard platform owners step_output no_fields =
      some (record { out = no_fields; withheld = false })
  project_fields enc vocab kids wildcard platform owners step_output (entry k v fs) =
      let rest = project_fields enc vocab kids wildcard platform owners step_output fs in
      elim (route vocab kids wildcard platform owners step_output k v) [
        | emits x ↦ map_option (keep_entry k x) rest
        | projects p ↦ both (keep_entry k) (project enc vocab p v) rest
        | withholds ↦ map_option withhold rest
        | passes ↦ rest
      ]
