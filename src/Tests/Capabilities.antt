-- ===== src/Tests/Capabilities.antt =====
-- Tests of the capability layers.
use intelligent_workflow_app.Prelude.{
  ◌≡◌, ◌↔◌, true, contains, refl, ◌==◌, string_eq, Option, none, some, List, [], ◌∷◌, ◌++◌,
}
use intelligent_workflow_app.Prelude.Int.{pos}
use intelligent_workflow_app.Value.{num, Fields, no_fields, entry}
use intelligent_workflow_app.Security.Capabilities.{
  CapabilityPolicy, ResolvedCapabilities, Matchers, tool_allowed, can_read, can_write, host_allowed,
  max_tokens_per_call, resolve_capabilities,
}
use intelligent_workflow_app.Security.Capabilities.Laws.{
  AllPermit, Matched, resolve_capabilities-AllPermit,
}

abbrev system_layer : CapabilityPolicy
system_layer = record {
  tools = none;
  file_read = none;
  file_write = some [];
  allowed_hosts = some ("api.example.com" ∷ []);
  max_tokens_per_call = some 4096;
}

abbrev step_layer : CapabilityPolicy
step_layer = record {
  tools = some ("file_read" ∷ "http_get" ∷ []);
  file_read = some ("/data" ∷ []);
  file_write = none;
  allowed_hosts = none;
  max_tokens_per_call = some 1024;
}

abbrev exact : Matchers
exact = record { path_match = λ v g. v == g; fnmatch = λ v g. v == g }

abbrev outer : List (Option CapabilityPolicy)
outer = some system_layer ∷ none ∷ []

abbrev inner : List (Option CapabilityPolicy)
inner = some step_layer ∷ []

resolve_capabilities-AllPermit_example :
    ((tool_allowed (resolve_capabilities (outer ++ inner)) "http_get" ≡ true)
      ↔ AllPermit (λ l. l.tools) (λ tools. contains tools "http_get" ≡ true) (outer ++ inner))
    × ((can_read exact (resolve_capabilities (outer ++ inner)) "http_get" ≡ true)
        ↔ AllPermit (λ l. l.file_read) (Matched exact.path_match "http_get") (outer ++ inner))
    × ((can_write exact (resolve_capabilities (outer ++ inner)) "http_get" ≡ true)
        ↔ AllPermit (λ l. l.file_write) (Matched exact.path_match "http_get") (outer ++ inner))
    × ((host_allowed exact (resolve_capabilities (outer ++ inner)) "http_get" ≡ true)
        ↔ AllPermit (λ l. l.allowed_hosts) (Matched exact.fnmatch "http_get") (outer ++ inner))
resolve_capabilities-AllPermit_example =
    resolve_capabilities-AllPermit exact (outer ++ inner) "http_get"

abbrev two_layers : ResolvedCapabilities
two_layers = record { layers = system_layer ∷ step_layer ∷ [] }

two_layers_cap : max_tokens_per_call two_layers ≡ some 1024
unfolding max_tokens_per_call
two_layers_cap = refl

abbrev greedy : Fields
greedy = entry "temperature" (num (pos 0)) (entry "maxTokens" (num (pos 9000)) no_fields)
