-- ===== src/Trace/Projection/Safe.antt =====
-- What a projection shows: default-deny, by the schema.
use intelligent_workflow_app.Prelude.{
  ◌≡◌, refl, ◌⊎◌, inl, inr, ◌≤◌, String, Bool, true, Option, none, some, List, ◌==◌, string_eq,
  arith, Bool-cases, OfSome,
}
use mathlib.Core.Option.{map as map_option}
use intelligent_workflow_app.Value.{
  Value, null, boolean, num, real, text, sequence, mapping, Items, no_items, item, Fields,
  no_fields, entry, put,
}
use intelligent_workflow_app.Trace.Markers.{withheld_key}
use intelligent_workflow_app.Trace.Schema.{
  Owner, Node, leaf, obj, seq, tool_calls, trigger_payload, Position, undeclared, declared,
  Children, Vocabulary, emits, projects, withholds, passes, route,
}
use intelligent_workflow_app.Trace.Schema.Routes.{
  IsShown, IsDeclared, shown, through, hidden, passed, route-Way,
}
use intelligent_workflow_app.Trace.Trigger.Laws.{routing_form, is_in, safe_trigger_payload-form}
use intelligent_workflow_app.Trace.ToolCall.{Encoder, safe_tool_call}
use intelligent_workflow_app.Trace.ToolCall.Laws.{IsSafeCall, safe_tool_call-IsSafeCall}
use intelligent_workflow_app.Trace.Projection.{
  redacted, scalar, Projected, conclude_fields, keep_entry, withhold, both, project_call,
  project_calls, project, project_items, project_fields,
}

-- A projected trigger payload: the marker, and routing keys with redacted values.
abbrev IsRouting : Fields → Type 0
IsRouting fs = (m : Bool) × (t : Bool) × (i : Bool) × (fs ≡ routing_form m t i)

-- The items of a list of tool calls.
abbrev pub SafeCall : Value → Type 0
SafeCall (mapping tc) = IsSafeCall tc
SafeCall v = v ≡ redacted

abbrev pub SafeCalls : Items → Type 0
SafeCalls no_items = Unit
SafeCalls (item v vs) = SafeCall v × SafeCalls vs

-- A value that is no container of its node.
abbrev pub SafeScalar : Position → Value → Type 0
SafeScalar (declared (leaf validate)) v = (v ≡ redacted) ⊎ (validate v ≡ true)
SafeScalar _ v = v ≡ redacted

-- A value that may be shown at a position: nothing, the marker, or what the node there allows.
unfoldable mutual
  pub IsSafe : Vocabulary → Position → Value → Type 0
  IsSafe vocab p null = Unit
  IsSafe vocab p (boolean b) = SafeScalar p (boolean b)
  IsSafe vocab p (num n) = SafeScalar p (num n)
  IsSafe vocab p (real s) = SafeScalar p (real s)
  IsSafe vocab p (text s) = SafeScalar p (text s)
  IsSafe vocab (declared tool_calls) (sequence vs) = SafeCalls vs
  IsSafe vocab (declared (seq n)) (sequence vs) = SafeItems vocab n vs
  IsSafe vocab p (sequence vs) = SafeScalar p (sequence vs)
  IsSafe vocab (declared trigger_payload) (mapping fs) = IsRouting fs
  IsSafe vocab (declared (obj kids wildcard platform owners step_output)) (mapping fs) =
      SafeFields vocab kids wildcard platform owners step_output fs
  IsSafe vocab p (mapping fs) = SafeScalar p (mapping fs)

  pub SafeItems : Vocabulary → Node → Items → Type 0
  SafeItems vocab n no_items = Unit
  SafeItems vocab n (item v vs) = IsSafe vocab (declared n) v × SafeItems vocab n vs

  pub SafeFields :
      Vocabulary → Children → Position → Bool → List (String × Owner) → Bool → Fields → Type 0
  SafeFields vocab kids wildcard platform owners step_output no_fields = Unit
  SafeFields vocab kids wildcard platform owners step_output (entry k v fs) =
      (IsShown vocab kids wildcard platform owners step_output k v
        ⊎ ((n : Node) × IsDeclared vocab kids wildcard platform owners step_output k n
            × IsSafe vocab (declared n) v))
      × SafeFields vocab kids wildcard platform owners step_output fs

pub OfSome-map {ℓ κ} :
    {A : Type ℓ} {B : Type κ} (P : A → Type 0) (Q : B → Type 0) (f : A → B) (o : Option A)
    → ((a : A) → P a → Q (f a))
    → OfSome P o
    → OfSome Q (map_option f o)
OfSome-map P Q f none s h = tt
OfSome-map P Q f (some a) s h = s a h

pub OfSome-both {ℓ κ μ} :
    {A : Type ℓ} {B : Type κ} {C : Type μ} (P : A → Type 0) (Q : B → Type 0) (R : C → Type 0)
    (f : A → B → C) (a : Option A) (b : Option B)
    → ((x : A) (y : B) → P x → Q y → R (f x y))
    → OfSome P a
    → OfSome Q b
    → OfSome R (both f a b)
unfolding both
OfSome-both P Q R f none b s p q = tt
OfSome-both P Q R f (some x) none s p q = tt
OfSome-both P Q R f (some x) (some y) s p q = s x y p q

module _ (enc : Encoder) (vocab : Vocabulary) where
  -- What the loop does with an entry, by its way.
  pub step :
      (kids : Children) (wildcard : Position) (platform : Bool) (owners : List (String × Owner))
      (step_output : Bool) (k : String) (v : Value) (fs : Fields)
      → (let rest = project_fields enc vocab kids wildcard platform owners step_output fs in
          project_fields enc vocab kids wildcard platform owners step_output (entry k v fs)
          ≡ elim (route vocab kids wildcard platform owners step_output k v) [
            | emits x ↦ map_option (keep_entry k x) rest
            | projects p ↦ both (keep_entry k) (project enc vocab p v) rest
            | withholds ↦ map_option withhold rest
            | passes ↦ rest
          ])
  unfolding project
  step kids wildcard platform owners step_output k v fs = refl

module _ (enc : Encoder) (vocab : Vocabulary)
    (small : (v : Value) → enc.json_size v ≤ 1_000_000_000_000) where
  project_call-SafeCall : (v : Value) → OfSome SafeCall (project_call enc v)
  project_call-SafeCall (mapping tc) =
      OfSome-map IsSafeCall SafeCall mapping (safe_tool_call enc none tc) (λ _ p. p)
        (safe_tool_call-IsSafeCall enc small tc)
  project_call-SafeCall null = refl
  project_call-SafeCall (boolean b) = refl
  project_call-SafeCall (num n) = refl
  project_call-SafeCall (real s) = refl
  project_call-SafeCall (text s) = refl
  project_call-SafeCall (sequence vs) = refl

  project_calls-SafeCalls : (vs : Items) → OfSome SafeCalls (project_calls enc vs)
  unfolding project_calls
  project_calls-SafeCalls no_items = tt
  project_calls-SafeCalls (item v vs) =
      OfSome-both SafeCall SafeCalls SafeCalls item (project_call enc v) (project_calls enc vs)
        (λ x y p q. (p, q)) (project_call-SafeCall v) (project_calls-SafeCalls vs)

  leaf-IsSafe :
      (validate : Value → Bool) (v : Value)
      → validate v ≡ true
      → IsSafe vocab (declared (leaf validate)) v
  unfolding IsSafe
  leaf-IsSafe validate null fits = tt
  leaf-IsSafe validate (boolean b) fits = inr fits
  leaf-IsSafe validate (num n) fits = inr fits
  leaf-IsSafe validate (real s) fits = inr fits
  leaf-IsSafe validate (text s) fits = inr fits
  leaf-IsSafe validate (sequence vs) fits = inr fits
  leaf-IsSafe validate (mapping fs) fits = inr fits

  scalar-IsSafe : (p : Position) (v : Value) → IsSafe vocab p (scalar p v)
  unfolding IsSafe
  scalar-IsSafe (declared (leaf validate)) v = elim (Bool-cases (validate v)) [
    | inl fits ↦ rw fits (leaf-IsSafe validate v fits)
    | inr fails ↦ rw fails (inl refl)
  ]
  scalar-IsSafe undeclared v = refl
  scalar-IsSafe (declared (obj _ _ _ _ _)) v = refl
  scalar-IsSafe (declared (seq n)) v = refl
  scalar-IsSafe (declared tool_calls) v = refl
  scalar-IsSafe (declared trigger_payload) v = refl

  SafeFields-put :
      (kids : Children) (wildcard : Position) (platform : Bool) (owners : List (String × Owner))
      (step_output : Bool) (fs : Fields)
      → SafeFields vocab kids wildcard platform owners step_output fs
      → SafeFields vocab kids wildcard platform owners step_output
          (put withheld_key (boolean true) fs)
  unfolding IsSafe put
  SafeFields-put kids wildcard platform owners step_output no_fields h =
      (inl (inl (refl, refl)), tt)
  SafeFields-put kids wildcard platform owners step_output (entry k v fs) h =
      elim (Bool-cases (withheld_key == k)) [
        | inl same ↦ rw same (inl (inl (ground arith, refl)), h.1)
        | inr other ↦
            rw other (h.0, SafeFields-put kids wildcard platform owners step_output fs h.1)
      ]

  conclude_fields-IsSafe :
      (kids : Children) (wildcard : Position) (platform : Bool) (owners : List (String × Owner))
      (step_output : Bool) (r : Projected)
      → SafeFields vocab kids wildcard platform owners step_output r.out
      → IsSafe vocab (declared (obj kids wildcard platform owners step_output)) (conclude_fields r)
  unfolding IsSafe conclude_fields
  conclude_fields-IsSafe kids wildcard platform owners step_output r h =
      elim (Bool-cases r.withheld) [
        | inl some_withheld ↦
            rw some_withheld (SafeFields-put kids wildcard platform owners step_output r.out h)
        | inr none_withheld ↦ rw none_withheld h
      ]

  mutual
    unfolding project IsSafe

    value-IsSafe : (p : Position) (v : Value) → OfSome (IsSafe vocab p) (project enc vocab p v)
    value-IsSafe p null = tt
    value-IsSafe p (boolean b) = scalar-IsSafe p (boolean b)
    value-IsSafe p (num n) = scalar-IsSafe p (num n)
    value-IsSafe p (real s) = scalar-IsSafe p (real s)
    value-IsSafe p (text s) = scalar-IsSafe p (text s)
    value-IsSafe (declared tool_calls) (sequence vs) =
        OfSome-map SafeCalls (IsSafe vocab (declared tool_calls)) sequence (project_calls enc vs)
          (λ _ h. h) (project_calls-SafeCalls vs)
    value-IsSafe (declared (seq n)) (sequence vs) =
        OfSome-map (SafeItems vocab n) (IsSafe vocab (declared (seq n))) sequence
          (project_items enc vocab n vs) (λ _ h. h) (project_items-SafeItems n vs)
    value-IsSafe undeclared (sequence vs) = refl
    value-IsSafe (declared (leaf validate)) (sequence vs) =
        scalar-IsSafe (declared (leaf validate)) (sequence vs)
    value-IsSafe (declared (obj _ _ _ _ _)) (sequence vs) = refl
    value-IsSafe (declared trigger_payload) (sequence vs) = refl
    value-IsSafe (declared trigger_payload) (mapping fs) =
        (is_in "message_id" fs, is_in "thread_id" fs, is_in "id" fs, safe_trigger_payload-form fs)
    value-IsSafe (declared (obj kids wildcard platform owners step_output)) (mapping fs) =
        OfSome-map (λ r. SafeFields vocab kids wildcard platform owners step_output r.out)
          (IsSafe vocab (declared (obj kids wildcard platform owners step_output))) conclude_fields
          (project_fields enc vocab kids wildcard platform owners step_output fs)
          (conclude_fields-IsSafe kids wildcard platform owners step_output)
          (project_fields-SafeFields kids wildcard platform owners step_output fs)
    value-IsSafe undeclared (mapping fs) = refl
    value-IsSafe (declared (leaf validate)) (mapping fs) =
        scalar-IsSafe (declared (leaf validate)) (mapping fs)
    value-IsSafe (declared (seq n)) (mapping fs) = refl
    value-IsSafe (declared tool_calls) (mapping fs) = refl

    project_items-SafeItems :
        (n : Node) (vs : Items) → OfSome (SafeItems vocab n) (project_items enc vocab n vs)
    project_items-SafeItems n no_items = tt
    project_items-SafeItems n (item v vs) =
        OfSome-both (IsSafe vocab (declared n)) (SafeItems vocab n) (SafeItems vocab n) item
          (project enc vocab (declared n) v) (project_items enc vocab n vs) (λ x y p q. (p, q))
          (value-IsSafe (declared n) v) (project_items-SafeItems n vs)

    project_fields-SafeFields :
        (kids : Children) (wildcard : Position) (platform : Bool) (owners : List (String × Owner))
        (step_output : Bool) (fs : Fields)
        → OfSome
            (λ r. SafeFields vocab kids wildcard platform owners step_output r.out)
            (project_fields enc vocab kids wildcard platform owners step_output fs)
    project_fields-SafeFields kids wildcard platform owners step_output no_fields = tt
    project_fields-SafeFields kids wildcard platform owners step_output (entry k v fs) =
        let Safe : Projected → Type 0 =
          λ r. SafeFields vocab kids wildcard platform owners step_output r.out in
        let rest = project_fields enc vocab kids wildcard platform owners step_output fs in
        let ih : OfSome Safe rest =
          project_fields-SafeFields kids wildcard platform owners step_output fs in
        elim (route-Way vocab kids wildcard platform owners step_output k v) [
          | shown e is ↦
              rw (OfSome, e) (OfSome-map Safe Safe (keep_entry k v) rest (λ r h. (inl is, h)) ih)
          | through n e is ↦
              rw (OfSome, e)
                (OfSome-both (IsSafe vocab (declared n)) Safe Safe (keep_entry k)
                  (project enc vocab (declared n) v) rest (λ x r q h. (inr (n, is, q), h))
                  (value-IsSafe (declared n) v) ih)
          | hidden e ↦ rw (OfSome, e) (OfSome-map Safe Safe withhold rest (λ r h. h) ih)
          | passed e _ _ ↦ rw (OfSome, e) ih
        ]

  -- A projection shows only what its schema allows, at every depth: a value at an undeclared place,
  -- or one that its leaf refuses, is the marker; a dict has only its declared children that are no
  -- withheld business field, the keys that the platform made, released words of a step's output, and
  -- the projector's own flag; a trigger payload and a tool call have their projected forms. The JSON
  -- text of a content has at most 10^12 bytes.
  pub project-IsSafe : (p : Position) (v : Value) → OfSome (IsSafe vocab p) (project enc vocab p v)
  project-IsSafe p v = value-IsSafe p v
