-- ===== src/Elicitation/Store/Contract.antt =====
-- What the scheduler relies on of a store, and that both stores keep it.
use intelligent_workflow_app.Prelude.{ℕ, ◌≡◌, refl, ◌⊎◌, String, true, string_eq, arith}
use intelligent_workflow_app.Elicitation.Catalog.{Reason, already_asked, recipient_at_capacity}
use intelligent_workflow_app.Elicitation.Store.{
  ShadowQuestion, created, refused, Request, new_question, QuestionStore,
}
use intelligent_workflow_app.Elicitation.Store.Memory.{Memory, memory_store}
use intelligent_workflow_app.Elicitation.Store.Memory
use intelligent_workflow_app.Elicitation.Store.Postgres.{Tables, Server, postgres_store}
use intelligent_workflow_app.Elicitation.Store.Postgres

-- The promises of `QuestionStore`'s docstrings.
pub record IsLawful (S : QuestionStore) : Type 0 where
  -- A question that is created has the fields of the request, and enters the history.
  pub created_as_asked :
      (r : Request) (s : S.State) (q : ShadowQuestion)
      → (S.create_if_permitted r s).0 ≡ created q
      → (q ≡ new_question r)
        × (S.was_ever_asked r.subject r.topic (S.create_if_permitted r s).1 ≡ true)
  -- The history is permanent.
  pub refused_for_history :
      (r : Request) (s : S.State)
      → S.was_ever_asked r.subject r.topic s ≡ true
      → (S.create_if_permitted r s).0 ≡ refused already_asked
  pub create_keeps_history :
      (r : Request) (s : S.State) (subject topic : String)
      → S.was_ever_asked subject topic s ≡ true
      → S.was_ever_asked subject topic (S.create_if_permitted r s).1 ≡ true
  pub sweep_keeps_history :
      (at : ℕ) (s : S.State) (subject topic : String)
      → S.was_ever_asked subject topic (S.expire_pending at s).1 ≡ S.was_ever_asked subject topic s
  -- There are two reasons to refuse, and a refusal leaves no trace.
  pub refused_because :
      (r : Request) (s : S.State) (reason : Reason)
      → (S.create_if_permitted r s).0 ≡ refused reason
      → (reason ≡ already_asked) ⊎ (reason ≡ recipient_at_capacity)
  pub refused_without_trace :
      (r : Request) (s : S.State) (reason : Reason)
      → (S.create_if_permitted r s).0 ≡ refused reason
      → (S.create_if_permitted r s).1 ≡ s

-- The in-memory store keeps the contract of a question store: what it creates is as asked and
-- recorded for ever, and a refusal has one of two reasons and leaves no trace.
pub memory_store-IsLawful : IsLawful memory_store
unfolding Memory.create_if_permitted Memory.expire_pending Memory.was_ever_asked
memory_store-IsLawful = record {
  created_as_asked = λ r s q h. (ground arith, ground arith);
  refused_for_history = λ r s h. ground arith;
  create_keeps_history = λ r s subject topic h. ground arith;
  sweep_keeps_history = λ at s subject topic. refl;
  refused_because = λ r s reason h. ground arith;
  refused_without_trace = λ r s reason h. ground arith;
}

-- The Postgres store keeps the contract of a question store: what it creates is as asked and
-- recorded for ever, and a refusal has one of two reasons and leaves no trace.
pub postgres_store-IsLawful : (server : Server) → IsLawful (postgres_store server)
unfolding Postgres.create_if_permitted Postgres.expire_pending Postgres.was_ever_asked
postgres_store-IsLawful server = record {
  created_as_asked = λ r s q h. (ground arith, ground arith);
  refused_for_history = λ r s h. ground arith;
  create_keeps_history = λ r s subject topic h. ground arith;
  sweep_keeps_history = λ at s subject topic. refl;
  refused_because = λ r s reason h. ground arith;
  refused_without_trace = λ r s reason h. ground arith;
}
