-- ===== src/Agent/Pins/Laws.antt =====
-- What the pins do to the input of a tool call.
use intelligent_workflow_app.Prelude.{
  ◌≡◌, refl, String, Bool, false, Option, none, some, string_eq, contains, arith,
}
use intelligent_workflow_app.Value.{Value, Fields, no_fields, entry, get, put, IsDict}
use intelligent_workflow_app.Value.Laws.{get-put}
use intelligent_workflow_app.Agent.Pins.{pin_params, overrides}

-- The pinned value, and the model's where the parameter is not pinned.
abbrev pub pin_or : Option Value → Option Value → Option Value
pin_or none chosen = chosen
pin_or (some v) chosen = some v

pub get-pin_params :
    (key : String) (pins input : Fields)
    → IsDict pins
    → get key (pin_params pins input) ≡ pin_or (get key pins) (get key input)
unfolding get pin_params
get-pin_params key no_fields input h = refl
get-pin_params key (entry k v pins) input h =
    ground (arith, get-pin_params key pins (put k v input) h.1, get-put key k v input, h.0)

-- The model gave a value for a pinned parameter, another one.
abbrev pub is_probe : (Value → Value → Bool) → Option Value → Option Value → Bool
is_probe differs (some v) (some chosen) = differs chosen v
is_probe differs _ _ = false

pub contains-overrides :
    (differs : Value → Value → Bool) (key : String) (pins input : Fields)
    → IsDict pins
    → contains (overrides differs pins input) key ≡ is_probe differs (get key pins) (get key input)
unfolding get overrides
contains-overrides differs key no_fields input h = refl
contains-overrides differs key (entry k v pins) input h =
    ground
      (arith, contains-overrides differs key pins (put k v input) h.1, get-put key k v input, h.0)
