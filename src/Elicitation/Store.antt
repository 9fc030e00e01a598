-- ===== src/Elicitation/Store.antt =====
-- elicitation/store.py: what the scheduler sees of a store. Each method of the interface is one
-- atomic step on the store's state; the request carries what the two clocks and `uuid4` give.
pub mod Memory
pub mod Postgres
pub mod Calls
pub mod Contract
pub mod Rows
pub mod Refinement
pub mod Capacity
use intelligent_workflow_app.Prelude.{
  ℕ, ◌*◌, ◌+◌, String, Bool, true, false, ◌&&◌, List, [], ◌∷◌, any, leb, ◌==◌, string_eq,
}
use intelligent_workflow_app.Elicitation.Catalog.{Reason}

pub data Status : Type 0 where
  pending expired : Status

abbrev pub is_pending : Status → Bool
is_pending pending = true
is_pending expired = false

pub record ShadowQuestion : Type 0 where
  pub id : String
  pub org_id : String
  pub subject : String
  pub recipient : String
  pub topic : String
  pub catalog_revision : ℕ
  pub prompt_shown : String
  pub answers_offered : List String
  pub fact_mapping : List (String × String)
  pub status : Status
  pub created_at : ℕ
  pub expires_at : ℕ

-- A question, or the rule that refused it. The source has two optional fields, and each result that a
-- store builds has exactly one of them.
pub data CreateResult : Type 0 where
  created : ShadowQuestion → CreateResult
  refused : Reason → CreateResult

-- The arguments of `create_if_permitted`, with the new id and the time.
pub record Request : Type 0 where
  pub qid : String
  pub now : ℕ
  pub org_id : String
  pub subject : String
  pub recipient : String
  pub topic : String
  pub catalog_revision : ℕ
  pub prompt_shown : String
  pub answers_offered : List String
  pub fact_mapping : List (String × String)
  pub max_outstanding : ℕ
  pub expires_at : ℕ

-- The question that a request creates.
unfoldable pub new_question : Request → ShadowQuestion
new_question r = record {
  id = r.qid;
  org_id = r.org_id;
  subject = r.subject;
  recipient = r.recipient;
  topic = r.topic;
  catalog_revision = r.catalog_revision;
  prompt_shown = r.prompt_shown;
  answers_offered = r.answers_offered;
  fact_mapping = r.fact_mapping;
  status = pending;
  created_at = r.now;
  expires_at = r.expires_at;
}

-- `(subject, topic) in asked`
abbrev pub has_pair : String → String → List (String × String) → Bool
has_pair subject topic asked = any (λ (s, t). s == subject && t == topic) asked

-- Whether a sweep at the time `at` expires the question.
abbrev pub is_due : ℕ → ShadowQuestion → Bool
is_due at q = is_pending q.status && leb q.expires_at at

-- Whether a question holds a slot of the recipient.
abbrev pub holds_slot : String → ShadowQuestion → Bool
holds_slot recipient q = q.recipient == recipient && is_pending q.status

-- `QuestionStore`
pub record QuestionStore : Type 1 where
  pub State : Type 0
  pub create_if_permitted : Request → State → CreateResult × State
  pub expire_pending : ℕ → State → ℕ × State
  pub outstanding : String → State → ℕ
  pub was_ever_asked : String → String → State → Bool
  pub list_questions : State → List ShadowQuestion

-- `default_expiry`, in seconds.
unfoldable pub default_expiry : ℕ → ℕ → ℕ
default_expiry now hours = now + hours * 3600
