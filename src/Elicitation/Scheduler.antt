-- ===== src/Elicitation/Scheduler.antt =====
-- elicitation/scheduler.py: from a classifier's candidate to a question or a suppression.
pub mod Laws
pub mod Once
use intelligent_workflow_app.Prelude.{
  ℕ, String, Bool, true, false, Option, none, some, if◌then◌else◌,
}
use intelligent_workflow_app.Elicitation.Catalog.{
  QuestionTopic, QuestionCatalog, QuestionCandidate, Reason, answer_already_known,
  answer_lookup_unavailable, Validated, usable, refused, validate_candidate,
}
use intelligent_workflow_app.Elicitation.Store.{
  ShadowQuestion, CreateResult, created, Request, QuestionStore, default_expiry,
}
use intelligent_workflow_app.Elicitation.Store

-- What the eligible-answer lookup does: it answers, or it raises.
pub data Lookup : Type 0 where
  has_answer : Bool → Lookup
  raises : Lookup

abbrev pub AnswerLookup : Type 0
AnswerLookup = String → String → Lookup

pub record SchedulingDecision : Type 0 where
  pub topic : Option String
  pub asked : Bool
  pub question : Option ShadowQuestion
  pub suppressed_because : Option Reason

-- The arguments that name the parties, what the clock gives, and the id that `uuid4` gives.
pub record Setting : Type 0 where
  pub org_id : String
  pub subject : String
  pub recipient : String
  pub now : ℕ
  pub qid : String

abbrev pub suppressed : String → Reason → SchedulingDecision
suppressed topic reason = record {
  topic = some topic;
  asked = false;
  question = none;
  suppressed_because = some reason;
}

-- The arguments of the create.
unfoldable pub request_for : QuestionTopic → QuestionCatalog → Setting → Request
unfolding default_expiry
request_for topic catalog at = record {
  qid = at.qid;
  now = at.now;
  org_id = at.org_id;
  subject = at.subject;
  recipient = at.recipient;
  topic = topic.id;
  catalog_revision = topic.revision;
  prompt_shown = topic.prompt;
  answers_offered = topic.answers;
  fact_mapping = topic.fact;
  max_outstanding = catalog.max_outstanding_per_recipient;
  expires_at = default_expiry at.now catalog.pending_expiry_hours;
}

-- The decision that the result of the create gives.
unfoldable pub decide : String → CreateResult → SchedulingDecision
decide topic (created q) = record {
  topic = some topic;
  asked = true;
  question = some q;
  suppressed_because = none;
}
decide topic (Store.refused reason) = suppressed topic reason

module _ (S : QuestionStore) (answers : AnswerLookup) where
  -- The sweep, and then the create.
  unfoldable pub ask :
      QuestionTopic → QuestionCatalog → Setting → S.State → SchedulingDecision × S.State
  unfolding request_for decide
  ask topic catalog at s =
      let (n, swept) = S.expire_pending at.now s in
      let (result, s') = S.create_if_permitted (request_for topic catalog at) swept in
      (decide topic.id result, s')

  unfoldable pub schedule :
      QuestionCandidate → QuestionCatalog → Setting → S.State → SchedulingDecision × S.State
  unfolding ask
  schedule candidate catalog at s = elim (validate_candidate candidate catalog) [
    | refused reason ↦ (suppressed candidate.topic reason, s)
    | usable topic ↦ elim (answers at.subject topic.id) [
      | raises ↦ (suppressed topic.id answer_lookup_unavailable, s)
      | has_answer known ↦
          if known then (suppressed topic.id answer_already_known, s) else ask topic catalog at s
    ]
  ]
