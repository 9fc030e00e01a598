-- ===== src/Tests/Store.antt =====
-- Tests of the stores of asked questions.
use intelligent_workflow_app.Prelude.{◌++◌, String, none, List, [], ◌∷◌, arith}
use intelligent_workflow_app.Elicitation.Store.{Request, ShadowQuestion}
use intelligent_workflow_app.Elicitation.Store.Memory.{Memory}
use intelligent_workflow_app.Elicitation.Store.Postgres.{Tables, Server, postgres_store}
use intelligent_workflow_app.Elicitation.Store.Postgres
use intelligent_workflow_app.Elicitation.Store.Calls.{
  Call, create, sweep, ask_outstanding, ask_questions, call,
}
use intelligent_workflow_app.Elicitation.Store.Capacity.{
  start, after, IsConsistent, Reachable-IsConsistent,
}

abbrev request_from : String → String → Request
request_from qid topic = record {
  qid = qid;
  now = 100;
  org_id = "org";
  subject = "ann";
  recipient = "ann";
  topic = topic;
  catalog_revision = 1;
  prompt_shown = "Do you travel?";
  answers_offered = "yes" ∷ "no" ∷ [];
  fact_mapping = [];
  max_outstanding = 1;
  expires_at = 200;
}

abbrev pub empty_memory : Memory
empty_memory = record { questions = []; asked = [] }

abbrev pub empty_tables : Tables
empty_tables = record { shadow_asked = []; shadow_capacity = λ _. none; shadow_questions = [] }

-- The second create meets a full recipient, and the third one an empty one.
abbrev some_calls : List Call
some_calls =
    create (request_from "q1" "travel")
    ∷ create (request_from "q2" "diet")
    ∷ sweep 300
    ∷ create (request_from "q3" "diet")
    ∷ ask_outstanding "ann"
    ∷ ask_questions
    ∷ []

abbrev oldest_last : List ShadowQuestion → List ShadowQuestion
oldest_last [] = []
oldest_last (q ∷ qs) = qs ++ q ∷ []

-- A server whose clock is ahead, and that gives the oldest row last.
abbrev a_server : Server
a_server = record { now = λ _. 101; order = oldest_last }

abbrev two_calls_later : Tables
two_calls_later =
    (call (postgres_store a_server) (sweep 300)
      (call (postgres_store a_server) (create (request_from "q1" "travel")) empty_tables).1).1

Reachable-IsConsistent_example : IsConsistent 3 two_calls_later
Reachable-IsConsistent_example =
    Reachable-IsConsistent a_server 3 two_calls_later
      (after (sweep 300) (after (create (request_from "q1" "travel")) start (omega arith)) tt)
