-- ===== src/Trace/Projection/Fixed.antt =====
-- A projection is a fixed point: what is safe is projected to itself.
use intelligent_workflow_app.Prelude.{
  ◌≡◌, refl, sym, ap, ◌∙◌, inl, inr, ◌≤◌, String, Bool, false, Option, none, some, List, string_eq,
  Bool-cases, OfSome,
}
use mathlib.Core.Option.{map as map_option}
use intelligent_workflow_app.Value.{
  Value, null, boolean, num, real, text, sequence, mapping, Items, no_items, item, Fields,
  no_fields, entry,
}
use intelligent_workflow_app.Trace.Schema.{
  Owner, Node, leaf, obj, seq, tool_calls, trigger_payload, Position, undeclared, declared,
  Children, Vocabulary,
}
use intelligent_workflow_app.Trace.Schema.Routes.{IsShown, IsDeclared, IsShown-way, IsDeclared-way}
use intelligent_workflow_app.Trace.Trigger.Laws.{safe_trigger_payload_again}
use intelligent_workflow_app.Trace.ToolCall.{Encoder}
use intelligent_workflow_app.Trace.ToolCall.Laws.{IsSafeCall-same}
use intelligent_workflow_app.Trace.Projection.{
  scalar, conclude_fields, both, project_call, project_calls, project, project_items,
  project_fields,
}
use intelligent_workflow_app.Trace.Projection.Safe.{
  SafeCall, SafeCalls, SafeScalar, IsSafe, SafeItems, SafeFields, project-IsSafe, step,
}

module _ (enc : Encoder) (vocab : Vocabulary) where
  project_call_same : (v : Value) → SafeCall v → project_call enc v ≡ some v
  project_call_same (mapping tc) h = ap (map_option mapping) (IsSafeCall-same enc tc h)
  project_call_same null h = ap some (sym h)
  project_call_same (boolean b) h = ap some (sym h)
  project_call_same (num n) h = ap some (sym h)
  project_call_same (real s) h = ap some (sym h)
  project_call_same (text s) h = ap some (sym h)
  project_call_same (sequence vs) h = ap some (sym h)

  project_calls_same : (vs : Items) → SafeCalls vs → project_calls enc vs ≡ some vs
  unfolding project_calls
  project_calls_same no_items h = refl
  project_calls_same (item v vs) h =
      rw (project_call_same v h.0, project_calls_same vs h.1, both) refl

  scalar_same : (p : Position) (v : Value) → SafeScalar p v → scalar p v ≡ v
  scalar_same (declared (leaf validate)) v (inr fits) = rw fits refl
  scalar_same (declared (leaf validate)) v (inl is) = elim (Bool-cases (validate v)) [
    | inl fits ↦ rw fits refl
    | inr fails ↦ rw fails (sym is)
  ]
  scalar_same undeclared v h = sym h
  scalar_same (declared (obj _ _ _ _ _)) v h = sym h
  scalar_same (declared (seq n)) v h = sym h
  scalar_same (declared tool_calls) v h = sym h
  scalar_same (declared trigger_payload) v h = sym h

  shown_same :
      (kids : Children) (wildcard : Position) (platform : Bool) (owners : List (String × Owner))
      (step_output : Bool) (k : String) (v : Value) (fs : Fields)
      → IsShown vocab kids wildcard platform owners step_output k v
      → project_fields enc vocab kids wildcard platform owners step_output fs
        ≡ some (record { out = fs; withheld = false })
      → project_fields enc vocab kids wildcard platform owners step_output (entry k v fs)
        ≡ some (record { out = entry k v fs; withheld = false })
  shown_same kids wildcard platform owners step_output k v fs is rest =
      let e = IsShown-way vocab kids wildcard platform owners step_output k v is in
      step enc vocab kids wildcard platform owners step_output k v fs ∙ rw (e, rest) refl

  declared_same :
      (kids : Children) (wildcard : Position) (platform : Bool) (owners : List (String × Owner))
      (step_output : Bool) (k : String) (v : Value) (fs : Fields) (n : Node)
      → IsDeclared vocab kids wildcard platform owners step_output k n
      → project enc vocab (declared n) v ≡ some v
      → project_fields enc vocab kids wildcard platform owners step_output fs
        ≡ some (record { out = fs; withheld = false })
      → project_fields enc vocab kids wildcard platform owners step_output (entry k v fs)
        ≡ some (record { out = entry k v fs; withheld = false })
  unfolding both
  declared_same kids wildcard platform owners step_output k v fs n is same rest =
      let e = IsDeclared-way vocab kids wildcard platform owners step_output k v n is in
      step enc vocab kids wildcard platform owners step_output k v fs ∙ rw (e, same, rest) refl

  mutual
    unfolding project IsSafe

    pub project_same :
        (p : Position) (v : Value) → IsSafe vocab p v → project enc vocab p v ≡ some v
    project_same p null h = refl
    project_same p (boolean b) h = ap some (scalar_same p (boolean b) h)
    project_same p (num n) h = ap some (scalar_same p (num n) h)
    project_same p (real s) h = ap some (scalar_same p (real s) h)
    project_same p (text s) h = ap some (scalar_same p (text s) h)
    project_same (declared tool_calls) (sequence vs) h =
        ap (map_option sequence) (project_calls_same vs h)
    project_same (declared (seq n)) (sequence vs) h =
        ap (map_option sequence) (project_items_same n vs h)
    project_same undeclared (sequence vs) h = ap some (sym h)
    project_same (declared (leaf validate)) (sequence vs) h =
        ap some (scalar_same (declared (leaf validate)) (sequence vs) h)
    project_same (declared (obj _ _ _ _ _)) (sequence vs) h = ap some (sym h)
    project_same (declared trigger_payload) (sequence vs) h = ap some (sym h)
    project_same (declared trigger_payload) (mapping fs) (m, t, i, form) =
        rw form (ap (λ x. some (mapping x)) (safe_trigger_payload_again m t i))
    project_same (declared (obj kids wildcard platform owners step_output)) (mapping fs) h =
        ap (map_option conclude_fields)
          (project_fields_same kids wildcard platform owners step_output fs h)
    project_same undeclared (mapping fs) h = ap some (sym h)
    project_same (declared (leaf validate)) (mapping fs) h =
        ap some (scalar_same (declared (leaf validate)) (mapping fs) h)
    project_same (declared (seq n)) (mapping fs) h = ap some (sym h)
    project_same (declared tool_calls) (mapping fs) h = ap some (sym h)

    project_items_same :
        (n : Node) (vs : Items) → SafeItems vocab n vs → project_items enc vocab n vs ≡ some vs
    project_items_same n no_items h = refl
    project_items_same n (item v vs) h =
        rw (project_same (declared n) v h.0, project_items_same n vs h.1, both) refl

    project_fields_same :
        (kids : Children) (wildcard : Position) (platform : Bool) (owners : List (String × Owner))
        (step_output : Bool) (fs : Fields)
        → SafeFields vocab kids wildcard platform owners step_output fs
        → project_fields enc vocab kids wildcard platform owners step_output fs
          ≡ some (record { out = fs; withheld = false })
    project_fields_same kids wildcard platform owners step_output no_fields h = refl
    project_fields_same kids wildcard platform owners step_output (entry k v fs) (inl is, h) =
        shown_same kids wildcard platform owners step_output k v fs is
          (project_fields_same kids wildcard platform owners step_output fs h)
    project_fields_same kids wildcard platform owners step_output (entry k v fs)
          (inr (n, is, q), h) =
        declared_same kids wildcard platform owners step_output k v fs n is
          (project_same (declared n) v q)
          (project_fields_same kids wildcard platform owners step_output fs h)

  -- A projection of what a projection gave changes nothing, whatever the schema and the value: the
  -- projection is idempotent where it does not raise. The JSON text of a content has at most 10^12
  -- bytes.
  pub project_again :
      (p : Position) (v : Value)
      → ((w : Value) → enc.json_size w ≤ 1_000_000_000_000)
      → OfSome (λ out. project enc vocab p out ≡ some out) (project enc vocab p v)
  project_again p v small =
      OfSome-weaken (project enc vocab p v) (λ out h. project_same p out h)
        (project-IsSafe enc vocab small p v)
    where
      OfSome-weaken :
          (o : Option Value)
          → ((out : Value) → IsSafe vocab p out → project enc vocab p out ≡ some out)
          → OfSome (IsSafe vocab p) o
          → OfSome (λ out. project enc vocab p out ≡ some out) o
      OfSome-weaken none s h = tt
      OfSome-weaken (some out) s h = s out h
