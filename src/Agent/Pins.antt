-- ===== src/Agent/Pins.antt =====
-- agent/agent.py: the parameters that the engine forces on every tool call of an agent.
pub mod Laws
use intelligent_workflow_app.Prelude.{
  String, Bool, Option, none, some, List, [], ◌∷◌, if◌then◌else◌,
}
use intelligent_workflow_app.Value.{Value, Fields, no_fields, entry, get, put}

-- `tool_input` after the loop.
unfoldable pub pin_params : Fields → Fields → Fields
pin_params no_fields input = input
pin_params (entry key v pins) input = pin_params pins (put key v input)

-- `pinned` after the loop.
unfoldable pub pinned_keys : Fields → List String
pinned_keys no_fields = []
pinned_keys (entry key v pins) = key ∷ pinned_keys pins

-- `pin_overrides` after the loop, with Python's `!=` of two values.
unfoldable pub overrides : (Value → Value → Bool) → Fields → Fields → List String
overrides differs no_fields input = []
overrides differs (entry key v pins) input =
    let rest = overrides differs pins (put key v input) in
    elim (get key input) [
      | none ↦ rest
      | some chosen ↦ if differs chosen v then key ∷ rest else rest
    ]
