-- ===== src/Tests/Scheduler.antt =====
-- Tests of the scheduler, over the in-memory store.
use intelligent_workflow_app.Prelude.{
  ℕ, ◌≡◌, refl, String, true, false, string_eq, none, some, [], ◌∷◌, arith,
}
use intelligent_workflow_app.Elicitation.Catalog.{answer_already_known, validate_candidate}
use intelligent_workflow_app.Value.{get}
use intelligent_workflow_app.Elicitation.Store.{ShadowQuestion, new_question}
use intelligent_workflow_app.Elicitation.Store.Memory.{Memory, memory_store}
use intelligent_workflow_app.Elicitation.Store.Memory
use intelligent_workflow_app.Elicitation.Store.Calls.{sweep, calls_after}
use intelligent_workflow_app.Elicitation.Store.Contract.{memory_store-IsLawful}
use intelligent_workflow_app.Elicitation.Scheduler.{
  AnswerLookup, has_answer, Setting, request_for, schedule,
}
use intelligent_workflow_app.Elicitation.Scheduler.Laws.{
  IsWarranted, schedule-IsWarranted, schedule_untouched,
}
use intelligent_workflow_app.Elicitation.Scheduler.Once.{schedule_once}
use intelligent_workflow_app.Tests.Catalog.{travel, catalog, candidate}
use intelligent_workflow_app.Tests.Store.{empty_memory}

abbrev setting : ℕ → String → Setting
setting now qid = record {
  org_id = "org";
  subject = "ann";
  recipient = "ann";
  now = now;
  qid = qid;
}

abbrev unknown : AnswerLookup
unknown _ _ = has_answer false

abbrev known : AnswerLookup
known _ _ = has_answer true

abbrev question : ShadowQuestion
question = new_question (request_for travel catalog (setting 100 "q1"))

asks_travel :
    (schedule memory_store unknown candidate catalog (setting 100 "q1") empty_memory).0.question
    ≡ some question
unfolding schedule Memory.create_if_permitted Memory.expire_pending validate_candidate string_eq get
asks_travel = refl

schedule-IsWarranted_example : IsWarranted unknown candidate catalog (setting 100 "q1") question
schedule-IsWarranted_example =
    schedule-IsWarranted memory_store unknown candidate catalog (setting 100 "q1") empty_memory
      memory_store-IsLawful question asks_travel

known_suppresses :
    (schedule memory_store known candidate catalog
      (setting 100 "q1")
      empty_memory).0.suppressed_because
    ≡ some answer_already_known
unfolding schedule validate_candidate string_eq get
known_suppresses = refl

schedule_untouched_example :
    (schedule memory_store known candidate catalog (setting 100 "q1") empty_memory).1 ≡ empty_memory
schedule_untouched_example =
    schedule_untouched memory_store known candidate catalog (setting 100 "q1") empty_memory
      answer_already_known known_suppresses (λ e. ground arith) (λ e. ground arith)
      memory_store-IsLawful

schedule_once_example :
    (schedule memory_store unknown candidate catalog (setting 9000000 "q2") (
      calls_after memory_store
        (sweep 8000000 ∷ [])
        (schedule memory_store unknown candidate catalog
          (setting 100 "q1")
          empty_memory).1)).0.question
    ≡ none
schedule_once_example =
    schedule_once memory_store memory_store-IsLawful unknown unknown candidate candidate catalog
      catalog (setting 100 "q1") (setting 9000000 "q2") (sweep 8000000 ∷ []) empty_memory question
      asks_travel refl refl
