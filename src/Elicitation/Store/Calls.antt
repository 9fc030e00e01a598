-- ===== src/Elicitation/Store/Calls.antt =====
-- Sequences of calls of a store, and what its callers see.
use intelligent_workflow_app.Prelude.{ℕ, String, Bool, List, [], ◌∷◌}
use intelligent_workflow_app.Elicitation.Store.{
  ShadowQuestion, CreateResult, Request, QuestionStore,
}

-- A call of the store, in an order that the callers choose.
pub data Call : Type 0 where
  create : Request → Call
  sweep : ℕ → Call
  ask_outstanding : String → Call
  ask_history : String → String → Call
  ask_questions : Call

pub data Answer : Type 0 where
  result : CreateResult → Answer
  amount : ℕ → Answer
  truth : Bool → Answer
  rows : List ShadowQuestion → Answer

module _ (S : QuestionStore) where
  unfoldable pub call : Call → S.State → Answer × S.State
  call (create r) s = let (c, s') = S.create_if_permitted r s in (result c, s')
  call (sweep at) s = let (n, s') = S.expire_pending at s in (amount n, s')
  call (ask_outstanding r) s = (amount (S.outstanding r s), s)
  call (ask_history subject topic) s = (truth (S.was_ever_asked subject topic s), s)
  call ask_questions s = (rows (S.list_questions s), s)

  unfoldable pub serve : List Call → S.State → List Answer
  unfolding call
  serve [] s = []
  serve (c ∷ calls) s = let (a, s') = call c s in a ∷ serve calls s'

  -- The state behind a sequence of calls.
  unfoldable pub calls_after : List Call → S.State → S.State
  unfolding call
  calls_after [] s = s
  calls_after (c ∷ calls) s = calls_after calls (call c s).1
