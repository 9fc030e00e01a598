-- ===== src/Elicitation/Scheduler/Once.antt =====
-- A subject is asked about a topic once: what was asked stays suppressed through any later calls.
use mathlib.Core.Option.{none-ne-some}
use intelligent_workflow_app.Prelude.{◌≡◌, sym, ◌∙◌, ap, String, true, none, some, List, [], ◌∷◌}
use intelligent_workflow_app.Elicitation.Catalog.{QuestionCatalog, QuestionCandidate}
use intelligent_workflow_app.Elicitation.Catalog.Laws.{validate_candidate-IsUsable}
use intelligent_workflow_app.Elicitation.Store.{ShadowQuestion, QuestionStore}
use intelligent_workflow_app.Elicitation.Store.Contract.{IsLawful}
use intelligent_workflow_app.Elicitation.Store.Calls.{
  Call, create, sweep, ask_outstanding, ask_history, ask_questions, call, calls_after,
}
use intelligent_workflow_app.Elicitation.Scheduler.{
  AnswerLookup, SchedulingDecision, Setting, request_for, ask, schedule,
}
use intelligent_workflow_app.Elicitation.Scheduler.Laws.{
  invalid, looked_up, asks, way, decide-created,
}

module _ (S : QuestionStore) (law : IsLawful S) where
  call_keeps :
      (c : Call) (s : S.State) (subject topic : String)
      → S.was_ever_asked subject topic s ≡ true
      → S.was_ever_asked subject topic (call S c s).1 ≡ true
  unfolding call
  call_keeps (create r) s subject topic h = law.create_keeps_history r s subject topic h
  call_keeps (sweep at) s subject topic h = law.sweep_keeps_history at s subject topic ∙ h
  call_keeps (ask_outstanding r) s subject topic h = h
  call_keeps (ask_history u t) s subject topic h = h
  call_keeps ask_questions s subject topic h = h

  calls_keep :
      (calls : List Call) (s : S.State) (subject topic : String)
      → S.was_ever_asked subject topic s ≡ true
      → S.was_ever_asked subject topic (calls_after S calls s) ≡ true
  unfolding calls_after
  calls_keep [] s subject topic h = h
  calls_keep (c ∷ calls) s subject topic h =
      calls_keep calls (call S c s).1 subject topic (call_keeps c s subject topic h)

  module _ (answers : AnswerLookup) (candidate : QuestionCandidate)
      (catalog : QuestionCatalog) where
    -- A question that the scheduler asked is in the history.
    asked_is_recorded :
        (at : Setting) (s : S.State) (q : ShadowQuestion)
        → (schedule S answers candidate catalog at s).0.question ≡ some q
        → S.was_ever_asked at.subject candidate.topic (schedule S answers candidate catalog at s).1
          ≡ true
    unfolding ask request_for
    asked_is_recorded at s q h = elim (way S answers candidate catalog at s) [
      | invalid r e _ _ ↦
          absurd
            (none-ne-some q (ap (λ (p : SchedulingDecision × S.State). p.0.question) (sym e) ∙ h))
      | looked_up t r e _ _ ↦
          absurd
            (none-ne-some q (ap (λ (p : SchedulingDecision × S.State). p.0.question) (sym e) ∙ h))
      | asks t v l e ↦
          let request = request_for t catalog at in
          let swept = (S.expire_pending at.now s).1 in
          let made =
            decide-created t.id (S.create_if_permitted request swept).0 q
              (ap (λ (p : SchedulingDecision × S.State). p.0.question) (sym e) ∙ h) in
          rw (e, ← (validate_candidate-IsUsable candidate catalog t v).named)
            (law.created_as_asked request swept q made).1
    ]

    -- What is in the history is not asked.
    recorded_is_not_asked :
        (at : Setting) (s : S.State)
        → S.was_ever_asked at.subject candidate.topic s ≡ true
        → (schedule S answers candidate catalog at s).0.question ≡ none
    unfolding ask
    recorded_is_not_asked at s h = elim (way S answers candidate catalog at s) [
      | invalid r e _ _ ↦ rw e
      | looked_up t r e _ _ ↦ rw e
      | asks t v l e ↦
          let request = request_for t catalog at in
          let swept = (S.expire_pending at.now s).1 in
          let named = (validate_candidate-IsUsable candidate catalog t v).named in
          let known : S.was_ever_asked at.subject t.id swept ≡ true =
            law.sweep_keeps_history at.now s at.subject t.id ∙ rw named h in
          rw (e, law.refused_for_history request swept known)
    ]

-- After a question was asked, no later schedule of a candidate with its topic, for its subject,
-- asks again, over any lawful store and whatever calls come in between.
pub schedule_once :
    (S : QuestionStore) (law : IsLawful S) (answers answers' : AnswerLookup)
    (first second : QuestionCandidate) (catalog catalog' : QuestionCatalog) (at later : Setting)
    (calls : List Call) (s : S.State) (q : ShadowQuestion)
    → (schedule S answers first catalog at s).0.question ≡ some q
    → later.subject ≡ at.subject
    → second.topic ≡ first.topic
    → (schedule S answers' second catalog' later
        (calls_after S calls (schedule S answers first catalog at s).1)).0.question
      ≡ none
schedule_once S law answers answers' first second catalog catalog' at later calls s q h same_subject
      same_topic =
    let s' = (schedule S answers first catalog at s).1 in
    let known = asked_is_recorded S law answers first catalog at s q h in
    let kept = calls_keep S law calls s' at.subject first.topic known in
    recorded_is_not_asked S law answers' second catalog' later (calls_after S calls s')
      (rw (same_subject, same_topic) kept)
