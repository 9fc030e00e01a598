-- ===== src/Security/Capabilities.antt =====
-- security/capabilities.py: one layer of constraints, the effective set of a stack of layers,
-- and the clamp on a model call's output.
pub mod Laws
use intelligent_workflow_app.Prelude.{
  ℕ, min, String, Bool, true, false, ◌&&◌, not, Option, none, some, List, [], ◌∷◌, contains, any,
  all, string_eq, is_none, if◌then◌else◌, keep,
}
use intelligent_workflow_app.Prelude.Int.{pos}
use intelligent_workflow_app.Value.{Value, num, Fields, no_fields, get, put, as_int, at_most}

-- For each attribute `none` means "this layer imposes no constraint", and a list, the empty one
-- too, means "this layer allows only what is listed".
pub record CapabilityPolicy : Type 0 where
  pub tools : Option (List String)
  pub file_read : Option (List String)
  pub file_write : Option (List String)
  pub allowed_hosts : Option (List String)
  pub max_tokens_per_call : Option ℕ

pub record ResolvedCapabilities : Type 0 where
  pub layers : List CapabilityPolicy

-- The attributes that `_all_layers_match` is called with.
pub data Attr : Type 0 where
  file_read_attr file_write_attr allowed_hosts_attr : Attr

-- `getattr(layer, attr)`
unfoldable pub getattr : CapabilityPolicy → Attr → Option (List String)
getattr layer file_read_attr = layer.file_read
getattr layer file_write_attr = layer.file_write
getattr layer allowed_hosts_attr = layer.allowed_hosts

-- The loop of `tool_allowed`.
unfoldable pub tool_allowed_by : List CapabilityPolicy → String → Bool
tool_allowed_by [] name = true
tool_allowed_by (layer ∷ layers) name =
    let rest = tool_allowed_by layers name in
    elim layer.tools [
      | none ↦ rest
      | some tools ↦ if not (contains tools name) then false else rest
    ]

unfoldable pub tool_allowed : ResolvedCapabilities → String → Bool
unfolding tool_allowed_by
tool_allowed caps name = tool_allowed_by caps.layers name

-- The loop of `_all_layers_match`, over a matcher `match_fn value glob`.
unfoldable pub all_layers_match :
    List CapabilityPolicy → Attr → String → (String → String → Bool) → Bool
unfolding getattr
all_layers_match [] attr value match_fn = true
all_layers_match (layer ∷ layers) attr value match_fn =
    let rest = all_layers_match layers attr value match_fn in
    elim (getattr layer attr) [
      | none ↦ rest
      | some globs ↦ if not (any (λ g. match_fn value g) globs) then false else rest
    ]

-- The path matcher and `fnmatch`, which the three tests below pass on.
pub record Matchers : Type 0 where
  pub path_match : String → String → Bool
  pub fnmatch : String → String → Bool

unfoldable pub can_read : Matchers → ResolvedCapabilities → String → Bool
unfolding all_layers_match
can_read m caps path = all_layers_match caps.layers file_read_attr path m.path_match

unfoldable pub can_write : Matchers → ResolvedCapabilities → String → Bool
unfolding all_layers_match
can_write m caps path = all_layers_match caps.layers file_write_attr path m.path_match

unfoldable pub host_allowed : Matchers → ResolvedCapabilities → String → Bool
unfolding all_layers_match
host_allowed m caps host = all_layers_match caps.layers allowed_hosts_attr host m.fnmatch

unfoldable pub restricts_hosts : ResolvedCapabilities → Bool
restricts_hosts caps = any (λ layer. not (is_none layer.allowed_hosts)) caps.layers

-- The list of caps that some layer states.
unfoldable pub token_caps : List CapabilityPolicy → List ℕ
token_caps [] = []
token_caps (layer ∷ layers) =
    let rest = token_caps layers in
    elim layer.max_tokens_per_call [ none ↦ rest | some cap ↦ cap ∷ rest ]

-- `min(caps)` of a list that is not empty.
unfoldable pub min_of : ℕ → List ℕ → ℕ
min_of cap [] = cap
min_of cap (c ∷ cs) = min cap (min_of c cs)

unfoldable pub min_or_none : List ℕ → Option ℕ
unfolding min_of
min_or_none [] = none
min_or_none (cap ∷ caps) = some (min_of cap caps)

unfoldable pub max_tokens_per_call : ResolvedCapabilities → Option ℕ
unfolding token_caps min_or_none
max_tokens_per_call caps = min_or_none (token_caps caps.layers)

-- `[layer for layer in layers if layer is not None]`
unfoldable pub stated_layers : List (Option CapabilityPolicy) → List CapabilityPolicy
stated_layers [] = []
stated_layers (none ∷ layers) = stated_layers layers
stated_layers (some layer ∷ layers) = layer ∷ stated_layers layers

unfoldable pub resolve_capabilities : List (Option CapabilityPolicy) → ResolvedCapabilities
unfolding stated_layers
resolve_capabilities layers = record { layers = stated_layers layers }

-- `min(requested, cap) if isinstance(requested, int) else cap`
unfoldable pub clamped : Option Value → ℕ → Value
clamped none cap = num (pos cap)
clamped (some requested) cap = elim (as_int requested) [
  | none ↦ num (pos cap)
  | some n ↦ if at_most n cap then requested else num (pos cap)
]

unfoldable pub cap_output_tokens : Option Fields → Option ℕ → Option Fields
unfolding clamped
cap_output_tokens config none = config
cap_output_tokens none (some cap) = some (put "maxTokens" (clamped none cap) no_fields)
cap_output_tokens (some config) (some cap) =
    some (put "maxTokens" (clamped (get "maxTokens" config) cap) config)
