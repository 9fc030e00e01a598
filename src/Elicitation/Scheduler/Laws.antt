-- ===== src/Elicitation/Scheduler/Laws.antt =====
-- When the scheduler asks, what it asks, and when it touches the store.
use mathlib.Core.Logic.{⊎_elim}
use mathlib.Core.Option.{some-injective, none-ne-some}
use intelligent_workflow_app.Prelude.{
  ◌≡◌, refl, ◌≢◌, ◌⊎◌, inl, inr, sym, ◌∙◌, ap, ◌+◌, ◌*◌, String, true, false, some, arith,
}
use intelligent_workflow_app.Elicitation.Catalog.{
  QuestionTopic, QuestionCatalog, QuestionCandidate, Reason, already_asked, recipient_at_capacity,
  answer_lookup_unavailable, answer_already_known, Validated, usable, refused, validate_candidate,
}
use intelligent_workflow_app.Elicitation.Catalog.Laws.{IsUsable, validate_candidate-IsUsable}
use intelligent_workflow_app.Elicitation.Store.{
  ShadowQuestion, CreateResult, created, pending, new_question, default_expiry, QuestionStore,
}
use intelligent_workflow_app.Elicitation.Store
use intelligent_workflow_app.Elicitation.Store.Contract.{IsLawful}
use intelligent_workflow_app.Elicitation.Scheduler.{
  Lookup, has_answer, raises, AnswerLookup, SchedulingDecision, Setting, suppressed, request_for,
  decide, ask, schedule,
}

-- What warrants a question: a catalogued topic whose answer is not known, asked as it stands in
-- the catalog.
pub record IsWarranted (answers : AnswerLookup) (candidate : QuestionCandidate)
    (catalog : QuestionCatalog) (at : Setting) (q : ShadowQuestion) : Type 0 where
  pub topic : QuestionTopic
  pub usable_topic : IsUsable candidate catalog topic
  pub unanswered : answers at.subject topic.id ≡ has_answer false
  pub as_catalogued : q ≡ record {
    id = at.qid;
    org_id = at.org_id;
    subject = at.subject;
    recipient = at.recipient;
    topic = topic.id;
    catalog_revision = topic.revision;
    prompt_shown = topic.prompt;
    answers_offered = topic.answers;
    fact_mapping = topic.fact;
    status = pending;
    created_at = at.now;
    expires_at = at.now + catalog.pending_expiry_hours * 3600;
  }

Validated-cases :
    (v : Validated) → ((r : Reason) × (v ≡ refused r)) ⊎ ((t : QuestionTopic) × (v ≡ usable t))
Validated-cases (refused r) = inl (r, refl)
Validated-cases (usable t) = inr (t, refl)

Lookup-cases : (l : Lookup) → (l ≡ raises) ⊎ (l ≡ has_answer true) ⊎ (l ≡ has_answer false)
Lookup-cases raises = inl refl
Lookup-cases (has_answer true) = inr (inl refl)
Lookup-cases (has_answer false) = inr (inr refl)

refused-cases :
    (candidate : QuestionCandidate) (catalog : QuestionCatalog) (r : Reason)
    → validate_candidate candidate catalog ≡ refused r
    → (r ≢ already_asked) × (r ≢ recipient_at_capacity)
unfolding validate_candidate
refused-cases candidate catalog r h = (λ e. ground arith, λ e. ground arith)

pub decide-created :
    (topic : String) (r : CreateResult) (q : ShadowQuestion)
    → (decide topic r).question ≡ some q
    → r ≡ created q
unfolding decide
decide-created topic (created p) q h = ap created (some-injective p q h)
decide-created topic (Store.refused x) q h = absurd (cc)

decide-refused :
    (topic : String) (r : CreateResult) (x : Reason)
    → (decide topic r).suppressed_because ≡ some x
    → r ≡ Store.refused x
unfolding decide
decide-refused topic (created p) x h = absurd (cc)
decide-refused topic (Store.refused y) x h = ap Store.refused (some-injective y x h)

module _ (S : QuestionStore) (answers : AnswerLookup) (candidate : QuestionCandidate)
    (catalog : QuestionCatalog) (at : Setting) (s : S.State) where
  abbrev outcome : SchedulingDecision × S.State
  outcome = schedule S answers candidate catalog at s

  -- The ways that `schedule` can take.
  pub data Way : Type 0 where
    invalid :
        (r : Reason)
        → outcome ≡ (suppressed candidate.topic r, s)
        → r ≢ already_asked
        → r ≢ recipient_at_capacity
        → Way
    looked_up :
        (t : QuestionTopic) (r : Reason)
        → outcome ≡ (suppressed t.id r, s)
        → r ≢ already_asked
        → r ≢ recipient_at_capacity
        → Way
    asks :
        (t : QuestionTopic)
        → validate_candidate candidate catalog ≡ usable t
        → answers at.subject t.id ≡ has_answer false
        → outcome ≡ ask S answers t catalog at s
        → Way

  pub way : Way
  unfolding schedule
  way = elim (Validated-cases (validate_candidate candidate catalog)) [
    | inl (r, v) ↦
        let (a, b) = refused-cases candidate catalog r v in invalid r (rw (v, schedule)) a b
    | inr (t, v) ↦ elim (Lookup-cases (answers at.subject t.id)) [
      | inl l ↦
          looked_up t answer_lookup_unavailable (rw (v, schedule) (rw (l, schedule)))
            (λ e. ground arith) (λ e. ground arith)
      | inr (inl l) ↦
          looked_up t answer_already_known (rw (v, schedule) (rw (l, schedule))) (λ e. ground arith)
            (λ e. ground arith)
      | inr (inr l) ↦ asks t v l (rw (v, schedule) (rw (l, schedule)))
    ]
  ]

  -- Over a lawful store, a question that is asked is about a catalogued topic that the candidate
  -- names with an answer and an outcome it may use, the lookup knows no answer, and it has the
  -- prompt, the answers, the facts and the revision of that topic, the parties of the call, and the
  -- catalog's time to expire.
  pub schedule-IsWarranted :
      IsLawful S
      → (q : ShadowQuestion) → outcome.0.question ≡ some q
      → IsWarranted answers candidate catalog at q
  unfolding ask request_for new_question default_expiry
  schedule-IsWarranted law q h = elim way [
    | invalid r e a b ↦
        absurd
          (none-ne-some q (ap (λ (p : SchedulingDecision × S.State). p.0.question) (sym e) ∙ h))
    | looked_up t r e a b ↦
        absurd
          (none-ne-some q (ap (λ (p : SchedulingDecision × S.State). p.0.question) (sym e) ∙ h))
    | asks t v l e ↦
        let request = request_for t catalog at in
        let swept = (S.expire_pending at.now s).1 in
        let made =
          decide-created t.id (S.create_if_permitted request swept).0 q
            (ap (λ (p : SchedulingDecision × S.State). p.0.question) (sym e) ∙ h) in
        record {
          topic = t;
          usable_topic = validate_candidate-IsUsable candidate catalog t v;
          unanswered = l;
          as_catalogued = (law.created_as_asked request swept q made).0;
        }
  ]

  -- Over a lawful store, a decision whose reason is neither "already asked" nor "recipient at
  -- capacity" leaves the store alone: not even the sweep runs.
  pub schedule_untouched :
      (r : Reason)
      → outcome.0.suppressed_because ≡ some r
      → r ≢ already_asked
      → r ≢ recipient_at_capacity
      → IsLawful S
      → outcome.1 ≡ s
  unfolding ask
  schedule_untouched r h a b law = elim way [
    | invalid x e _ _ ↦ ap (λ (p : SchedulingDecision × S.State). p.1) e
    | looked_up t x e _ _ ↦ ap (λ (p : SchedulingDecision × S.State). p.1) e
    | asks t v l e ↦
        let request = request_for t catalog at in
        let swept = (S.expire_pending at.now s).1 in
        let made =
          decide-refused t.id (S.create_if_permitted request swept).0 r
            (ap (λ (p : SchedulingDecision × S.State). p.0.suppressed_because) (sym e) ∙ h) in
        absurd (⊎_elim a b (law.refused_because request swept r made))
  ]
