-- ===== src/Elicitation/Store/Refinement.antt =====
-- The Postgres store does what the in-memory store does: a simulation, step by step and for every
-- sequence of calls.
use intelligent_workflow_app.Prelude.{
  ℕ, ◌+◌, ◌-◌, ◌≡◌, refl, sym, ◌∙◌, ap, map, String, false, Option, none, some, List, [], ◌∷◌, ◌++◌,
  count, count_if, count_if-append, string_eq, arith,
}
use intelligent_workflow_app.Elicitation.Store.{ShadowQuestion, Request, new_question, holds_slot}
use intelligent_workflow_app.Elicitation.Store.Memory.{Memory, put_question, expire_questions}
use intelligent_workflow_app.Elicitation.Store.Memory
use intelligent_workflow_app.Elicitation.Store.Postgres.{
  Tables, insert_asked, insert_capacity, take_slot, expire_rows, release_slot, release_slots,
  row_count, Server, inserted_row, postgres_store,
}
use intelligent_workflow_app.Elicitation.Store.Postgres
use intelligent_workflow_app.Elicitation.Store.Rows.{
  has_id, undated, slots-undated, ids-undated, undated-append, expire-count, expire-kept,
  rows-undated,
}
use intelligent_workflow_app.Elicitation.Store.Calls.{Call, create, call}

-- The two states hold the same rows up to that time, and the capacity rows count the pending
-- questions.
pub record Related (m : Memory) (db : Tables) : Type 0 where
  pub same_questions : map undated m.questions ≡ map undated db.shadow_questions
  pub same_asked : m.asked ≡ db.shadow_asked
  pub counted :
      (r : String) → Postgres.outstanding r db ≡ count_if (holds_slot r) db.shadow_questions

put_question_fresh :
    (q : ShadowQuestion) (qs : List ShadowQuestion)
    → has_id q.id qs ≡ false
    → put_question q qs ≡ qs ++ q ∷ []
unfolding put_question
put_question_fresh q [] h = refl
put_question_fresh q (p ∷ ps) h = ground (arith, put_question_fresh q ps)

slots-same :
    (m : Memory) (db : Tables)
    → Related m db
    → (r : String)
    → count_if (holds_slot r) m.questions ≡ count_if (holds_slot r) db.shadow_questions
slots-same m db rel r =
    sym (slots-undated r m.questions)
    ∙ ap (count_if (holds_slot r)) rel.same_questions
    ∙ slots-undated r db.shadow_questions

ids-same :
    (m : Memory) (db : Tables)
    → Related m db
    → (i : String) → has_id i m.questions ≡ has_id i db.shadow_questions
ids-same m db rel i =
    sym (ids-undated i m.questions)
    ∙ ap (has_id i) rel.same_questions
    ∙ ids-undated i db.shadow_questions

module _ (server : Server) (r : Request) (m : Memory) (db : Tables) (rel : Related m db) where
  create_same_result :
      (Memory.create_if_permitted r m).0 ≡ (Postgres.create_if_permitted server r db).0
  unfolding Memory.create_if_permitted Postgres.create_if_permitted Postgres.outstanding
  create_same_result =
      ground (arith, rel.counted r.recipient, slots-same m db rel r.recipient, rel.same_asked)

  abbrev pub after_memory : Memory
  after_memory = (Memory.create_if_permitted r m).1

  abbrev pub after_postgres : Tables
  after_postgres = (Postgres.create_if_permitted server r db).1

  create_questions :
      has_id r.qid db.shadow_questions ≡ false
      → map undated after_memory.questions ≡ map undated after_postgres.shadow_questions
  unfolding Memory.create_if_permitted Postgres.create_if_permitted Postgres.outstanding
  create_questions fresh =
      let put =
        ap (map undated)
          (put_question_fresh (new_question r) m.questions (ids-same m db rel r.qid ∙ fresh)) in
      let appended = undated-append m.questions (new_question r ∷ []) in
      let inserted = undated-append db.shadow_questions (inserted_row server r ∷ []) in
      ground (
        arith,
        rel.counted r.recipient,
        slots-same m db rel r.recipient,
        rel.same_questions,
        rel.same_asked,
        put,
        appended,
        inserted,
      )

  create_asked : after_memory.asked ≡ after_postgres.shadow_asked
  unfolding Memory.create_if_permitted Postgres.create_if_permitted Postgres.outstanding
  create_asked =
      ground (arith, rel.counted r.recipient, slots-same m db rel r.recipient, rel.same_asked)

  pub create_counted :
      (x : String)
      → Postgres.outstanding x after_postgres
        ≡ count_if (holds_slot x) after_postgres.shadow_questions
  unfolding Postgres.create_if_permitted Postgres.outstanding
  create_counted x = ground (
    arith,
    rel.counted x,
    rel.counted r.recipient,
    count_if-append (holds_slot x) db.shadow_questions (inserted_row server r ∷ []),
  )

  pub create-Related :
      has_id r.qid db.shadow_questions ≡ false
      → ((Memory.create_if_permitted r m).0 ≡ (Postgres.create_if_permitted server r db).0)
        × Related after_memory after_postgres
  create-Related fresh = (
    create_same_result,
    record {
      same_questions = create_questions fresh;
      same_asked = create_asked;
      counted = create_counted;
    },
  )

-- The rows that a sweep expires are the slots that its recipients lose.
pub expire-slots :
    (at : ℕ) (qs : List ShadowQuestion) (x : String)
    → count_if (holds_slot x) (expire_rows at qs).1 + count x (expire_rows at qs).0
      ≡ count_if (holds_slot x) qs
unfolding expire_rows
expire-slots at [] x = refl
expire-slots at (q ∷ qs) x = ground (arith, expire-slots at qs x)

abbrev slots : Option ℕ → ℕ
slots none = 0
slots (some n) = n

release-slots :
    (freed : List String) (capacity : String → Option ℕ) (x : String)
    → slots (release_slots freed capacity x) ≡ slots (capacity x) - count x freed
unfolding release_slots
release-slots [] capacity x = omega arith
release-slots (r ∷ freed) capacity x =
    ground (arith, release-slots freed (release_slot r capacity) x)

pub expire-Related :
    (at : ℕ) (m : Memory) (db : Tables)
    → Related m db
    → ((Memory.expire_pending at m).0 ≡ (Postgres.expire_pending at db).0)
      × Related (Memory.expire_pending at m).1 (Postgres.expire_pending at db).1
unfolding Memory.expire_pending Postgres.expire_pending Postgres.outstanding
expire-Related at m db rel =
    let (freed, kept) = rows-undated at db.shadow_questions in
    let step = λ (qs : List ShadowQuestion). expire_rows at qs in
    (
      expire-count at m.questions
          ∙ ap (λ qs. row_count (step qs).0) rel.same_questions
          ∙ ap row_count freed,
      record {
        same_questions =
            expire-kept at m.questions ∙ ap (λ qs. (step qs).1) rel.same_questions ∙ kept;
        same_asked = rel.same_asked;
        counted = λ x.
            let list = (expire_rows at db.shadow_questions).0 in
            ground (
              arith,
              rel.counted x,
              release-slots list db.shadow_capacity x,
              expire-slots at db.shadow_questions x,
            );
      },
    )

-- `uuid4` gives a new question an id that no question has.
abbrev pub IsFresh : Call → Tables → Type 0
IsFresh (create r) db = has_id r.qid db.shadow_questions ≡ false
IsFresh _ db = Unit

module _ (server : Server) where
  abbrev pub FreshIds : List Call → Tables → Type 0
  FreshIds [] db = Unit
  FreshIds (c ∷ calls) db = IsFresh c db × FreshIds calls (call (postgres_store server) c db).1
