-- ===== src/Security/Capabilities/Laws.antt =====
-- What a stack of layers allows, and what the clamp on a model call keeps.
use intelligent_workflow_app.Prelude.{
  ℕ, min, ◌≤◌, ◌≡◌, refl, ◌≢◌, ◌↔◌, inl, inr, String, Bool, true, false, not, Option, none, some,
  List, [], ◌∷◌, arith, contains, All, Some, any, string_eq, nat_eq, Bool-cases, Option-cases,
  if◌then◌else◌,
}
use intelligent_workflow_app.Prelude.Int.{ℤ, pos}
use intelligent_workflow_app.Value.{Value, Fields, no_fields, get, put, as_int, at_most}
use intelligent_workflow_app.Value.Laws.{get-put}
use intelligent_workflow_app.Security.Capabilities.{
  CapabilityPolicy, ResolvedCapabilities, Attr, file_read_attr, file_write_attr, allowed_hosts_attr,
  getattr, tool_allowed_by, tool_allowed, all_layers_match, Matchers, can_read, can_write,
  host_allowed, token_caps, min_of, min_or_none, max_tokens_per_call, stated_layers,
  resolve_capabilities, clamped, cap_output_tokens,
}

-- What a layer says of a value: it has no list for it, or the list lets it through.
abbrev pub Permits : Option (List String) → (List String → Type 0) → Type 0
Permits none P = Unit
Permits (some listed) P = P listed

-- Every layer that is stated permits.
abbrev pub AllPermit :
    (CapabilityPolicy → Option (List String))
    → (List String → Type 0)
    → List (Option CapabilityPolicy)
    → Type 0
AllPermit attr P [] = Unit
AllPermit attr P (none ∷ layers) = AllPermit attr P layers
AllPermit attr P (some layer ∷ layers) = Permits (attr layer) P × AllPermit attr P layers

-- Some pattern of the list matches.
abbrev pub Matched : (String → String → Bool) → String → List String → Type 0
Matched match_fn value globs = Some (λ g. match_fn value g ≡ true) globs

any-Some : {A : Type 0} (p : A → Bool) (xs : List A) → (any p xs ≡ true) ↔ Some (λ x. p x ≡ true) xs
any-Some p [] = (λ h. absurd (ground (arith, h)), λ h. elim h [ ])
any-Some p (x ∷ xs) =
    let (there, back) = any-Some p xs in
    (
      λ h. elim (Bool-cases (p x)) [
        | inl fits ↦ inl fits
        | inr other ↦ inr (there (ground (arith, h, other)))
      ],
      λ h. elim h [ inl fits ↦ ground (arith, fits) | inr more ↦ ground (arith, back more) ],
    )

-- A layer in front of others, for a test that stops at a list that does not let the value through.
layer-AllPermit :
    (o : Option (List String)) (test : List String → Bool) (P : List String → Type 0) (rest : Bool)
    (Rest : Type 0)
    → ((listed : List String) → (test listed ≡ true) ↔ P listed)
    → (rest ≡ true) ↔ Rest
    → (elim o [ none ↦ rest | some listed ↦ if not (test listed) then false else rest ] ≡ true)
      ↔ (Permits o P × Rest)
layer-AllPermit none test P rest Rest same more = (λ h. (tt, more.0 h), λ h. more.1 h.1)
layer-AllPermit (some listed) test P rest Rest same more = (
  λ h. ((same listed).0 (ground (arith, h)), more.0 (ground (arith, h))),
  λ h. ground (arith, (same listed).1 h.0, more.1 h.1),
)

tools_permit :
    (layers : List (Option CapabilityPolicy)) (name : String)
    → (tool_allowed_by (stated_layers layers) name ≡ true)
      ↔ AllPermit (λ l. l.tools) (λ tools. contains tools name ≡ true) layers
unfolding stated_layers tool_allowed_by
tools_permit [] name = (λ _. tt, λ _. refl)
tools_permit (none ∷ layers) name = tools_permit layers name
tools_permit (some l ∷ layers) name =
    layer-AllPermit l.tools (λ tools. contains tools name) (λ tools. contains tools name ≡ true) _ _
      (λ _. (λ h. h, λ h. h)) (tools_permit layers name)

globs_permit :
    (layers : List (Option CapabilityPolicy)) (attr : Attr) (value : String)
    (m : String → String → Bool)
    → (all_layers_match (stated_layers layers) attr value m ≡ true)
      ↔ AllPermit (λ l. getattr l attr) (Matched m value) layers
unfolding stated_layers all_layers_match
globs_permit [] attr value m = (λ _. tt, λ _. refl)
globs_permit (none ∷ layers) attr value m = globs_permit layers attr value m
globs_permit (some l ∷ layers) attr value m =
    layer-AllPermit (getattr l attr) (λ globs. any (λ g. m value g) globs) (Matched m value) _ _
      (λ globs. any-Some (λ g. m value g) globs) (globs_permit layers attr value m)

-- A stack of layers allows exactly what each of its layers allows that states a list for it: a tool
-- that is listed, a path to read or to write, or a host, that matches some pattern of the list for
-- reading, for writing, or of the hosts. A layer that is missing or has no list allows everything, and
-- an empty list nothing.
pub resolve_capabilities-AllPermit :
    (m : Matchers) (layers : List (Option CapabilityPolicy)) (x : String)
    → ((tool_allowed (resolve_capabilities layers) x ≡ true)
        ↔ AllPermit (λ l. l.tools) (λ tools. contains tools x ≡ true) layers)
      × ((can_read m (resolve_capabilities layers) x ≡ true)
          ↔ AllPermit (λ l. l.file_read) (Matched m.path_match x) layers)
      × ((can_write m (resolve_capabilities layers) x ≡ true)
          ↔ AllPermit (λ l. l.file_write) (Matched m.path_match x) layers)
      × ((host_allowed m (resolve_capabilities layers) x ≡ true)
          ↔ AllPermit (λ l. l.allowed_hosts) (Matched m.fnmatch x) layers)
unfolding resolve_capabilities tool_allowed can_read can_write host_allowed getattr
resolve_capabilities-AllPermit m layers x = (
  tools_permit layers x,
  globs_permit layers file_read_attr x m.path_match,
  globs_permit layers file_write_attr x m.path_match,
  globs_permit layers allowed_hosts_attr x m.fnmatch,
)

All-le_trans : (a b : ℕ) (cs : List ℕ) → a ≤ b → All (λ c. b ≤ c) cs → All (λ c. a ≤ c) cs
All-le_trans a b [] h all = tt
All-le_trans a b (c ∷ cs) h all = (omega arith, All-le_trans a b cs h all.1)

min_of_least : (a : ℕ) (cs : List ℕ) → All (λ c. min_of a cs ≤ c) (a ∷ cs)
unfolding min_of
min_of_least a [] = (omega arith, tt)
min_of_least a (c ∷ cs) =
    let rest = min_of_least c cs in
    (omega arith, All-le_trans (min a (min_of c cs)) (min_of c cs) (c ∷ cs) (omega arith) rest)

min_of_stated : (a : ℕ) (cs : List ℕ) → contains (a ∷ cs) (min_of a cs) ≡ true
unfolding min_of
min_of_stated a [] = ground arith
min_of_stated a (c ∷ cs) = ground (arith, min_of_stated c cs)

-- The least of a list of caps, and `none` for the empty list.
abbrev pub IsLeast : List ℕ → Option ℕ → Type 0
IsLeast caps none = caps ≡ []
IsLeast caps (some least) = (contains caps least ≡ true) × All (λ c. least ≤ c) caps

min_or_none-IsLeast : (caps : List ℕ) → IsLeast caps (min_or_none caps)
unfolding min_or_none
min_or_none-IsLeast [] = refl
min_or_none-IsLeast (c ∷ cs) = (min_of_stated c cs, min_of_least c cs)

-- The effective cap is a cap that some layer states, and at most every stated one; there is none
-- exactly when no layer states one.
pub max_tokens_per_call-IsLeast :
    (caps : ResolvedCapabilities) → IsLeast (token_caps caps.layers) (max_tokens_per_call caps)
unfolding max_tokens_per_call
max_tokens_per_call-IsLeast caps = min_or_none-IsLeast (token_caps caps.layers)

-- An output configuration that keeps a call within `most`: `maxTokens` is a number that is at most
-- `most`, it is the requested one where that was a number within the cap, and no other key changed.
pub record IsCapped (config capped : Fields) (most : ℕ) : Type 0 where
  pub limit : Value
  pub stated : get "maxTokens" capped ≡ some limit
  pub amount : ℤ
  pub is_int : as_int limit ≡ some amount
  pub within : at_most amount most ≡ true
  pub kept :
      (requested : Value) (n : ℤ)
      → get "maxTokens" config ≡ some requested
      → as_int requested ≡ some n
      → at_most n most ≡ true
      → limit ≡ requested
  pub others : (key : String) → key ≢ "maxTokens" → get key capped ≡ get key config

clamped_within :
    (old : Option Value) (most : ℕ)
    → (n : ℤ) × (as_int (clamped old most) ≡ some n) × (at_most n most ≡ true)
unfolding clamped
clamped_within none most = (pos most, refl, ground arith)
clamped_within (some v) most = elim (Option-cases (as_int v)) [
  | inl e ↦ (pos most, ground arith, ground arith)
  | inr (n, e) ↦ elim (Bool-cases (at_most n most)) [
    | inl fits ↦ (n, ground arith, fits)
    | inr over ↦ (pos most, ground arith, ground arith)
  ]
]

clamped_kept :
    (v : Value) (most : ℕ) (n : ℤ)
    → as_int v ≡ some n
    → at_most n most ≡ true
    → clamped (some v) most ≡ v
unfolding clamped
clamped_kept v most n e h = ground arith

put-IsCapped :
    (config : Fields) (most : ℕ)
    → IsCapped config (put "maxTokens" (clamped (get "maxTokens" config) most) config) most
put-IsCapped config most =
    let old = get "maxTokens" config in
    let (n, is_int, within) = clamped_within old most in
    record {
      limit = clamped old most;
      stated = ground (arith, get-put "maxTokens" "maxTokens" (clamped old most) config);
      amount = n;
      is_int = is_int;
      within = within;
      kept = λ v k e i h. rw e (clamped_kept v most k i h);
      others = λ key other. ground (arith, get-put key "maxTokens" (clamped old most) config);
    }

abbrev pub or_empty : Option Fields → Fields
or_empty none = no_fields
or_empty (some config) = config

-- Under a cap the clamp always gives a configuration: `maxTokens` is in it as a number at most the
-- cap, a requested number within the cap is kept, and every other key has the value it had.
pub cap_output_tokens-IsCapped :
    (config : Option Fields) (most : ℕ)
    → (capped : Fields) × (cap_output_tokens config (some most) ≡ some capped)
      × IsCapped (or_empty config) capped most
unfolding cap_output_tokens get
cap_output_tokens-IsCapped none most = (_, refl, put-IsCapped no_fields most)
cap_output_tokens-IsCapped (some config) most = (_, refl, put-IsCapped config most)
