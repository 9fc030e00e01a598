-- ===== src/Trace/Projection/Flagged.antt =====
-- trace_projection.py: `_project` says so where it leaves something out.
use intelligent_workflow_app.Prelude.{
  ◌≡◌, refl, ap, ◌∙◌, ◌≤◌, String, Bool, false, none, List, string_eq, clash, OfSome,
}
use intelligent_workflow_app.Value.{
  Value, null, boolean, num, real, text, sequence, mapping, Items, no_items, item, Fields,
  no_fields, entry,
}
use intelligent_workflow_app.Trace.Markers.{has_redaction_marker}
use intelligent_workflow_app.Trace.Schema.{
  Owner, Node, leaf, obj, seq, tool_calls, trigger_payload, Position, undeclared, declared,
  Children, Vocabulary,
}
use intelligent_workflow_app.Trace.Schema.Routes.{shown, through, hidden, passed, route-Way}
use intelligent_workflow_app.Trace.ToolCall.{Encoder, safe_tool_call}
use intelligent_workflow_app.Trace.ToolCall.Laws.{IsSafeCall, safe_tool_call-IsSafeCall}
use intelligent_workflow_app.Trace.Projection.{
  Projected, conclude_fields, keep_entry, withhold, project_call, project_calls, project,
  project_items, project_fields,
}
use intelligent_workflow_app.Trace.Projection.Safe.{OfSome-map, OfSome-both}
use intelligent_workflow_app.Trace.Projection.Marked.{
  CurrentFields, CurrentItems, FieldsSaySo, IsCurrent, ItemsSaySo, SaysSo, call_marked,
  conclude-SaysSo, item-SaysSo, redacted-SaysSo, scalar-SaysSo, sequence-SaysSo, trigger_marked,
  unmarked-cons,
}

module _ (enc : Encoder) (vocab : Vocabulary)
    (small : (v : Value) → enc.json_size v ≤ 1_000_000_000_000) where
  project_call-SaysSo : (v : Value) → OfSome (SaysSo v) (project_call enc v)
  project_call-SaysSo (mapping tc) =
      OfSome-map IsSafeCall (SaysSo (mapping tc)) mapping (safe_tool_call enc none tc)
        (λ out h unmarked. absurd (clash (call_marked out h) unmarked))
        (safe_tool_call-IsSafeCall enc small tc)
  project_call-SaysSo null = redacted-SaysSo null
  project_call-SaysSo (boolean b) = redacted-SaysSo (boolean b)
  project_call-SaysSo (num n) = redacted-SaysSo (num n)
  project_call-SaysSo (real s) = redacted-SaysSo (real s)
  project_call-SaysSo (text s) = redacted-SaysSo (text s)
  project_call-SaysSo (sequence vs) = redacted-SaysSo (sequence vs)

  project_calls-SaysSo : (vs : Items) → OfSome (ItemsSaySo vs) (project_calls enc vs)
  unfolding project_calls
  project_calls-SaysSo no_items = λ _. refl
  project_calls-SaysSo (item v vs) =
      OfSome-both (SaysSo v) (ItemsSaySo vs) (ItemsSaySo (item v vs)) item (project_call enc v)
        (project_calls enc vs) (λ x ys p q. item-SaysSo v x vs ys p q) (project_call-SaysSo v)
        (project_calls-SaysSo vs)

  -- An entry that is emitted, projected or withheld, before the rest of its dict.
  entry-SaysSo :
      (k : String) (v x : Value) (fs : Fields) (r : Projected)
      → (IsCurrent v → SaysSo v x)
      → FieldsSaySo fs r
      → FieldsSaySo (entry k v fs) (keep_entry k x r)
  unfolding IsCurrent
  entry-SaysSo k v x fs r p q current nothing unmarked =
      let (here, there) = unmarked-cons k x r.out unmarked in
      ap (λ w. entry k w r.out) (p current.1 here) ∙ ap (entry k v) (q current.2 nothing there)

  withhold-SaysSo :
      (k : String) (v : Value) (fs : Fields) (r : Projected)
      → FieldsSaySo (entry k v fs) (withhold r)
  withhold-SaysSo k v fs r current nothing unmarked = absurd (clash refl nothing)

  mutual
    unfolding project IsCurrent

    project-SaysSo :
        (p : Position) (v : Value) → IsCurrent v → OfSome (SaysSo v) (project enc vocab p v)
    project-SaysSo p null c = λ _. refl
    project-SaysSo p (boolean b) c = scalar-SaysSo p (boolean b)
    project-SaysSo p (num n) c = scalar-SaysSo p (num n)
    project-SaysSo p (real s) c = scalar-SaysSo p (real s)
    project-SaysSo p (text s) c = scalar-SaysSo p (text s)
    project-SaysSo (declared tool_calls) (sequence vs) c =
        OfSome-map (ItemsSaySo vs) (SaysSo (sequence vs)) sequence (project_calls enc vs)
          (sequence-SaysSo vs) (project_calls-SaysSo vs)
    project-SaysSo (declared (seq n)) (sequence vs) c =
        OfSome-map (ItemsSaySo vs) (SaysSo (sequence vs)) sequence (project_items enc vocab n vs)
          (sequence-SaysSo vs) (project_items-SaysSo n vs c)
    project-SaysSo undeclared (sequence vs) c = redacted-SaysSo (sequence vs)
    project-SaysSo (declared (leaf validate)) (sequence vs) c =
        scalar-SaysSo (declared (leaf validate)) (sequence vs)
    project-SaysSo (declared (obj _ _ _ _ _)) (sequence vs) c = redacted-SaysSo (sequence vs)
    project-SaysSo (declared trigger_payload) (sequence vs) c = redacted-SaysSo (sequence vs)
    project-SaysSo (declared trigger_payload) (mapping fs) c =
        λ unmarked. absurd (clash (trigger_marked fs) unmarked)
    project-SaysSo (declared (obj kids wildcard platform owners step_output)) (mapping fs) c =
        OfSome-map (FieldsSaySo fs) (SaysSo (mapping fs)) conclude_fields
          (project_fields enc vocab kids wildcard platform owners step_output fs)
          (λ r h. conclude-SaysSo fs r c h)
          (project_fields-SaysSo kids wildcard platform owners step_output fs c)
    project-SaysSo undeclared (mapping fs) c = redacted-SaysSo (mapping fs)
    project-SaysSo (declared (leaf validate)) (mapping fs) c =
        scalar-SaysSo (declared (leaf validate)) (mapping fs)
    project-SaysSo (declared (seq n)) (mapping fs) c = redacted-SaysSo (mapping fs)
    project-SaysSo (declared tool_calls) (mapping fs) c = redacted-SaysSo (mapping fs)

    project_items-SaysSo :
        (n : Node) (vs : Items)
        → CurrentItems vs
        → OfSome (ItemsSaySo vs) (project_items enc vocab n vs)
    project_items-SaysSo n no_items c = λ _. refl
    project_items-SaysSo n (item v vs) c =
        OfSome-both (SaysSo v) (ItemsSaySo vs) (ItemsSaySo (item v vs)) item
          (project enc vocab (declared n) v) (project_items enc vocab n vs)
          (λ x ys p q. item-SaysSo v x vs ys p q) (project-SaysSo (declared n) v c.0)
          (project_items-SaysSo n vs c.1)

    project_fields-SaysSo :
        (kids : Children) (wildcard : Position) (platform : Bool) (owners : List (String × Owner))
        (step_output : Bool) (fs : Fields)
        → CurrentFields fs
        → OfSome
            (FieldsSaySo fs)
            (project_fields enc vocab kids wildcard platform owners step_output fs)
    project_fields-SaysSo kids wildcard platform owners step_output no_fields c = λ _ _ _. refl
    project_fields-SaysSo kids wildcard platform owners step_output (entry k v fs) c =
        let rest = project_fields enc vocab kids wildcard platform owners step_output fs in
        let All : Projected → Type 0 = FieldsSaySo (entry k v fs) in
        let ih : OfSome (FieldsSaySo fs) rest =
          project_fields-SaysSo kids wildcard platform owners step_output fs c.2 in
        elim (route-Way vocab kids wildcard platform owners step_output k v) [
          | shown e _ ↦
              rw (OfSome, e)
                (OfSome-map (FieldsSaySo fs) All (keep_entry k v) rest
                  (λ r h. entry-SaysSo k v v fs r (λ _ _. refl) h) ih)
          | through n e _ ↦
              rw (OfSome, e)
                (OfSome-both (SaysSo v) (FieldsSaySo fs) All (keep_entry k)
                  (project enc vocab (declared n) v) rest
                  (λ x r q h. entry-SaysSo k v x fs r (λ _. q) h)
                  (project-SaysSo (declared n) v c.1) ih)
          | hidden e ↦
              rw (OfSome, e)
                (OfSome-map (FieldsSaySo fs) All withhold rest (λ r _. withhold-SaysSo k v fs r) ih)
          | passed e legacy _ ↦ absurd (c.0 legacy)
        ]

  -- Where a projection holds no marker, it is the value itself: nothing is withheld without a mark,
  -- at any depth and whatever the schema. The data have no key of the old count, and the JSON text
  -- of a content has at most 10^12 bytes.
  pub project_says_so :
      (p : Position) (v : Value)
      → IsCurrent v
      → OfSome (λ out. has_redaction_marker out ≡ false → out ≡ v) (project enc vocab p v)
  project_says_so p v current = project-SaysSo p v current
