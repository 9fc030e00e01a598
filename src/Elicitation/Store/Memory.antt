-- ===== src/Elicitation/Store/Memory.antt =====
-- elicitation/store.py: `InMemoryShadowStore`.
use intelligent_workflow_app.Prelude.{
  ℕ, suc, String, Bool, List, [], ◌∷◌, count_if, leb, ◌==◌, string_eq, if◌then◌else◌,
}
use intelligent_workflow_app.Elicitation.Catalog.{already_asked, recipient_at_capacity}
use intelligent_workflow_app.Elicitation.Store.{
  ShadowQuestion, expired, CreateResult, created, refused, Request, new_question, has_pair, is_due,
  holds_slot, QuestionStore,
}

-- `questions` is the dict by id, in insertion order.
pub record Memory : Type 0 where
  pub questions : List ShadowQuestion
  pub asked : List (String × String)

-- `self.questions[q.id] = q`
unfoldable pub put_question : ShadowQuestion → List ShadowQuestion → List ShadowQuestion
put_question q [] = q ∷ []
put_question q (p ∷ ps) = if p.id == q.id then q ∷ ps else p ∷ put_question q ps

unfoldable pub outstanding : String → Memory → ℕ
outstanding recipient m = count_if (holds_slot recipient) m.questions

unfoldable pub was_ever_asked : String → String → Memory → Bool
was_ever_asked subject topic m = has_pair subject topic m.asked

unfoldable pub create_if_permitted : Request → Memory → CreateResult × Memory
unfolding outstanding new_question
create_if_permitted r m =
    if has_pair r.subject r.topic m.asked
    then (refused already_asked, m)
    else if leb r.max_outstanding (outstanding r.recipient m)
    then (refused recipient_at_capacity, m)
    else let q = new_question r in
      (
        created q,
        record m { questions = put_question q m.questions; asked = (r.subject, r.topic) ∷ m.asked },
      )

-- The loop of `expire_pending` over the questions: how many expired, and the questions behind it.
unfoldable pub expire_questions : ℕ → List ShadowQuestion → ℕ × List ShadowQuestion
expire_questions at [] = (0, [])
expire_questions at (q ∷ qs) =
    let (n, rest) = expire_questions at qs in
    if is_due at q then (suc n, record q { status = expired } ∷ rest) else (n, q ∷ rest)

unfoldable pub expire_pending : ℕ → Memory → ℕ × Memory
unfolding expire_questions
expire_pending at m =
    let (n, qs) = expire_questions at m.questions in (n, record m { questions = qs })

abbrev pub memory_store : QuestionStore
memory_store = record {
  State = Memory;
  create_if_permitted = create_if_permitted;
  expire_pending = expire_pending;
  outstanding = outstanding;
  was_ever_asked = was_ever_asked;
  list_questions = λ m. m.questions;
}
