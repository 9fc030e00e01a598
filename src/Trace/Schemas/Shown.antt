-- ===== src/Trace/Schemas/Shown.antt =====
-- trace_projection.py: what a projection by a schema with tight leaves shows is short.
use intelligent_workflow_app.Prelude.{
  ◌≤◌, length, code_points, ◌≡◌, sym, subst, inl, inr, String, Bool, true, false, List, All, ◌==◌,
  string_eq, if◌then◌else◌, arith, Bool-cases, Option-cases,
}
use intelligent_workflow_app.Value.{
  Value, null, boolean, num, real, text, sequence, mapping, Items, no_items, item, Fields,
  no_fields, entry,
}
use intelligent_workflow_app.Trace.Tokens.{safe_key}
use intelligent_workflow_app.Trace.Schema.{
  Owner, Node, leaf, obj, seq, tool_calls, trigger_payload, Position, undeclared, declared,
  Children, no_children, child, child_at, Vocabulary,
}
use intelligent_workflow_app.Trace.Schema.Routes.{IsShown, IsDeclared}
use intelligent_workflow_app.Trace.Trigger.Laws.{routing_form}
use intelligent_workflow_app.Trace.ToolCall.{call_form, Signals}
use intelligent_workflow_app.Trace.ToolCall.Laws.{IsSafeCall}
use intelligent_workflow_app.Trace.Projection.{redacted}
use intelligent_workflow_app.Trace.Projection.Safe.{
  SafeCalls, SafeScalar, IsSafe, SafeItems, SafeFields,
}
use intelligent_workflow_app.Trace.Markers.{redacted_field}
use intelligent_workflow_app.Trace.Schemas.Short.{
  IsShort, ShortItems, ShortFields, IsTight, TightPosition, TightChildren, vocab_member-IsShort,
  words_of-All, safe_key-length,
}

marker-IsShort : IsShort redacted
unfolding IsShort
marker-IsShort = omega arith

redacted-IsShort : (v : Value) → v ≡ redacted → IsShort v
redacted-IsShort v e = subst IsShort (sym e) marker-IsShort

scalar-IsShort : (p : Position) (v : Value) → TightPosition p → SafeScalar p v → IsShort v
unfolding IsTight
scalar-IsShort undeclared v tight safe = redacted-IsShort v safe
scalar-IsShort (declared (leaf validate)) v tight (inl e) = redacted-IsShort v e
scalar-IsShort (declared (leaf validate)) v tight (inr fits) = tight v fits
scalar-IsShort (declared (obj _ _ _ _ _)) v tight safe = redacted-IsShort v safe
scalar-IsShort (declared (seq n)) v tight safe = redacted-IsShort v safe
scalar-IsShort (declared tool_calls) v tight safe = redacted-IsShort v safe
scalar-IsShort (declared trigger_payload) v tight safe = redacted-IsShort v safe

if-ShortFields :
    (b : Bool) (k : String) (fs : Fields)
    → length (code_points k) ≤ 201
    → ShortFields fs
    → ShortFields (if b then entry k (text redacted_field) fs else fs)
unfolding IsShort
if-ShortFields true k fs short h = (short, omega arith, h)
if-ShortFields false k fs short h = h

routing-IsShort : (m t i : Bool) → IsShort (mapping (routing_form m t i))
unfolding IsShort
routing-IsShort m t i = (
  omega arith,
  omega arith,
  if-ShortFields m "message_id" _ (omega arith) (
      if-ShortFields t "thread_id" _ (omega arith)
        (if-ShortFields i "id" no_fields (omega arith) tt)),
)

form-IsShort :
    (pins probes : Bool) (s : Signals) → IsShort (mapping (call_form redacted_field pins probes s))
unfolding IsShort call_form
form-IsShort pins probes s = elim (Option-cases s.content_bytes) [
  | inl e ↦ rw (e) (search arith)
  | inr (n, e) ↦ rw (e) (search arith)
]

call-IsShort : (tc : Fields) → IsSafeCall tc → IsShort (mapping tc)
call-IsShort tc h =
    subst (λ fs. IsShort (mapping fs)) (sym h.form) (form-IsShort h.pins h.probes h.signals)

calls-IsShort : (vs : Items) → SafeCalls vs → ShortItems vs
unfolding IsShort
calls-IsShort no_items h = tt
calls-IsShort (item (mapping tc) vs) h = (call-IsShort tc h.0, calls-IsShort vs h.1)
calls-IsShort (item null vs) h = (tt, calls-IsShort vs h.1)
calls-IsShort (item (boolean b) vs) h = (tt, calls-IsShort vs h.1)
calls-IsShort (item (num n) vs) h = (tt, calls-IsShort vs h.1)
calls-IsShort (item (real s) vs) h = (tt, calls-IsShort vs h.1)
calls-IsShort (item (text s) vs) h = (redacted-IsShort (text s) h.0, calls-IsShort vs h.1)
calls-IsShort (item (sequence ws) vs) h = (redacted-IsShort (sequence ws) h.0, calls-IsShort vs h.1)

flag-IsShort : IsShort (boolean true)
unfolding IsShort
flag-IsShort = tt

IsUndeclared : Position → Type 0
IsUndeclared undeclared = Unit
IsUndeclared (declared n) = ⊥

child_at-short :
    (k : String) (kids : Children) (n : Node)
    → TightChildren kids
    → child_at k kids ≡ declared n
    → length (code_points k) ≤ 201
unfolding child_at IsTight IsUndeclared
child_at-short k no_children n tight e = absurd (subst IsUndeclared e tt)
child_at-short k (child key m kids) n tight e = elim (Bool-cases (k == key)) [
  | inl here ↦ ground (arith, here, tight.0)
  | inr there ↦
      child_at-short k kids n tight.2
        (subst (λ b. (if b then declared m else child_at k kids) ≡ declared n) there e)
]

child_at-IsTight :
    (k : String) (kids : Children) (n : Node)
    → TightChildren kids
    → child_at k kids ≡ declared n
    → IsTight n
unfolding child_at IsTight IsUndeclared
child_at-IsTight k no_children n tight e = absurd (subst IsUndeclared e tt)
child_at-IsTight k (child key m kids) n tight e = elim (Bool-cases (k == key)) [
  | inl here ↦
      subst TightPosition
        (subst (λ b. (if b then declared m else child_at k kids) ≡ declared n) here e) tight.1
  | inr there ↦
      child_at-IsTight k kids n tight.2
        (subst (λ b. (if b then declared m else child_at k kids) ≡ declared n) there e)
]

wildcard-IsTight : (p : Position) (n : Node) → TightPosition p → p ≡ declared n → IsTight n
unfolding IsTight
wildcard-IsTight p n tight e = subst TightPosition e tight

module _ (vocab : Vocabulary) (words : All (λ w. All (λ s. safe_key s ≡ true) w.1) vocab) where
  shown-IsShort :
      (kids : Children) (wildcard : Position) (platform : Bool) (owners : List (String × Owner))
      (step_output : Bool) (k : String) (v : Value)
      → IsShown vocab kids wildcard platform owners step_output k v
      → IsShort v
  shown-IsShort kids wildcard platform owners step_output k v (inl (_, e)) =
      subst IsShort (sym e) flag-IsShort
  shown-IsShort kids wildcard platform owners step_output k v
        (inr (ws, _, _, _, _, _, there, member)) =
      vocab_member-IsShort ws v (words_of-All k vocab ws words there) member

  shown-short :
      (kids : Children) (wildcard : Position) (platform : Bool) (owners : List (String × Owner))
      (step_output : Bool) (k : String) (v : Value)
      → IsShown vocab kids wildcard platform owners step_output k v
      → length (code_points k) ≤ 201
  shown-short kids wildcard platform owners step_output k v (inl (is, _)) =
      subst (λ s. length (code_points s) ≤ 201) (sym is) (omega arith)
  shown-short kids wildcard platform owners step_output k v (inr (_, _, _, safe, _, _, _, _)) =
      omega (arith, safe_key-length k safe)

  declared-short :
      (kids : Children) (wildcard : Position) (platform : Bool) (owners : List (String × Owner))
      (step_output : Bool) (k : String) (n : Node)
      → TightChildren kids
      → IsDeclared vocab kids wildcard platform owners step_output k n
      → length (code_points k) ≤ 201
  declared-short kids wildcard platform owners step_output k n tight (inl (_, e, _)) =
      child_at-short k kids n tight e
  declared-short kids wildcard platform owners step_output k n tight (inr (_, _, safe, _, _)) =
      omega (arith, safe_key-length k safe)

  declared-IsTight :
      (kids : Children) (wildcard : Position) (platform : Bool) (owners : List (String × Owner))
      (step_output : Bool) (k : String) (n : Node)
      → TightChildren kids
      → TightPosition wildcard
      → IsDeclared vocab kids wildcard platform owners step_output k n
      → IsTight n
  declared-IsTight kids wildcard platform owners step_output k n tight wild (inl (_, e, _)) =
      child_at-IsTight k kids n tight e
  declared-IsTight kids wildcard platform owners step_output k n tight wild (inr (_, _, _, e, _)) =
      wildcard-IsTight wildcard n wild e

  mutual
    unfolding IsShort IsTight IsSafe

    safe-IsShort : (p : Position) (v : Value) → TightPosition p → IsSafe vocab p v → IsShort v
    safe-IsShort p null tight safe = tt
    safe-IsShort p (boolean b) tight safe = tt
    safe-IsShort p (num n) tight safe = tt
    safe-IsShort p (real s) tight safe = tt
    safe-IsShort p (text s) tight safe = scalar-IsShort p (text s) tight safe
    safe-IsShort (declared tool_calls) (sequence vs) tight safe = calls-IsShort vs safe
    safe-IsShort (declared (seq n)) (sequence vs) tight safe = items-IsShort n vs tight safe
    safe-IsShort undeclared (sequence vs) tight safe =
        scalar-IsShort undeclared (sequence vs) tight safe
    safe-IsShort (declared (leaf validate)) (sequence vs) tight safe =
        scalar-IsShort (declared (leaf validate)) (sequence vs) tight safe
    safe-IsShort (declared (obj kids w p o so)) (sequence vs) tight safe =
        scalar-IsShort (declared (obj kids w p o so)) (sequence vs) tight safe
    safe-IsShort (declared trigger_payload) (sequence vs) tight safe =
        scalar-IsShort (declared trigger_payload) (sequence vs) tight safe
    safe-IsShort (declared trigger_payload) (mapping fs) tight (m, t, i, e) =
        subst ShortFields (sym e) (routing-IsShort m t i)
    safe-IsShort (declared (obj kids wildcard platform owners step_output)) (mapping fs) tight
          safe =
        fields-IsShort kids wildcard platform owners step_output fs tight.0 tight.1 safe
    safe-IsShort undeclared (mapping fs) tight safe =
        scalar-IsShort undeclared (mapping fs) tight safe
    safe-IsShort (declared (leaf validate)) (mapping fs) tight safe =
        scalar-IsShort (declared (leaf validate)) (mapping fs) tight safe
    safe-IsShort (declared (seq n)) (mapping fs) tight safe =
        scalar-IsShort (declared (seq n)) (mapping fs) tight safe
    safe-IsShort (declared tool_calls) (mapping fs) tight safe =
        scalar-IsShort (declared tool_calls) (mapping fs) tight safe

    items-IsShort : (n : Node) (vs : Items) → IsTight n → SafeItems vocab n vs → ShortItems vs
    items-IsShort n no_items tight safe = tt
    items-IsShort n (item v vs) tight safe =
        (safe-IsShort (declared n) v tight safe.0, items-IsShort n vs tight safe.1)

    fields-IsShort :
        (kids : Children) (wildcard : Position) (platform : Bool) (owners : List (String × Owner))
        (step_output : Bool) (fs : Fields)
        → TightChildren kids
        → TightPosition wildcard
        → SafeFields vocab kids wildcard platform owners step_output fs
        → ShortFields fs
    fields-IsShort kids wildcard platform owners step_output no_fields tight wild safe = tt
    fields-IsShort kids wildcard platform owners step_output (entry k v fs) tight wild
          (inl is, rest) =
        (
          shown-short kids wildcard platform owners step_output k v is,
          shown-IsShort kids wildcard platform owners step_output k v is,
          fields-IsShort kids wildcard platform owners step_output fs tight wild rest,
        )
    fields-IsShort kids wildcard platform owners step_output (entry k v fs) tight wild
          (inr (n, is, safe), rest) =
        (
          declared-short kids wildcard platform owners step_output k n tight is,
          safe-IsShort (declared n) v
              (declared-IsTight kids wildcard platform owners step_output k n tight wild is) safe,
          fields-IsShort kids wildcard platform owners step_output fs tight wild rest,
        )

  pub IsSafe-IsShort : (p : Position) (v : Value) → TightPosition p → IsSafe vocab p v → IsShort v
  IsSafe-IsShort p v tight safe = safe-IsShort p v tight safe
