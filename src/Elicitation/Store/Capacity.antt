-- ===== src/Elicitation/Store/Capacity.antt =====
-- What holds of the Postgres store after any calls: the limit of a recipient, and one question
-- for a subject and a topic.
use intelligent_workflow_app.Prelude.{
  ℕ, ◌≤◌, ◌≡◌, refl, ◌∙◌, String, Bool, ◌&&◌, none, List, [], ◌∷◌, count_if, count_if-append, ◌==◌,
  string_eq, if◌then◌else◌, arith,
}
use intelligent_workflow_app.Elicitation.Store.{ShadowQuestion, Request, has_pair, holds_slot}
use intelligent_workflow_app.Elicitation.Store.Calls.{
  Call, create, sweep, ask_outstanding, ask_history, ask_questions, call,
}
use intelligent_workflow_app.Elicitation.Store.Postgres.{
  Tables, Server, inserted_row, expire_rows, postgres_store,
}
use intelligent_workflow_app.Elicitation.Store.Postgres
use intelligent_workflow_app.Elicitation.Store.Memory.{Memory}
use intelligent_workflow_app.Elicitation.Store.Refinement.{
  Related, create_counted, expire-Related, expire-slots,
}

-- `q` is about the subject and the topic.
abbrev pub is_about : String → String → ShadowQuestion → Bool
is_about subject topic q = q.subject == subject && q.topic == topic

-- Calls that ask for at most `limit` slots.
abbrev pub AsksWithin : ℕ → Call → Type 0
AsksWithin limit (create r) = r.max_outstanding ≤ limit
AsksWithin limit _ = Unit

-- The tables that calls lead to, from empty ones.
pub data Reachable (server : Server) (limit : ℕ) : Tables → Type 0 where
  start :
      Reachable server limit
        (record { shadow_asked = []; shadow_capacity = λ _. none; shadow_questions = [] })
  after :
      {db : Tables} (c : Call)
      → Reachable server limit db
      → AsksWithin limit c
      → Reachable server limit (call (postgres_store server) c db).1

pub record IsConsistent (limit : ℕ) (db : Tables) : Type 0 where
  -- The counter of a recipient is the number of its pending questions, and within the limit.
  pub counted :
      (r : String) → Postgres.outstanding r db ≡ count_if (holds_slot r) db.shadow_questions
  pub within : (r : String) → Postgres.outstanding r db ≤ limit
  -- A subject and a topic have one question exactly when they are in the history.
  pub once :
      (subject topic : String)
      → count_if (is_about subject topic) db.shadow_questions
        ≡ (if has_pair subject topic db.shadow_asked then 1 else 0)

-- The in-memory state with the same rows.
abbrev view : Tables → Memory
view db = record { questions = db.shadow_questions; asked = db.shadow_asked }

view-Related : (limit : ℕ) (db : Tables) → IsConsistent limit db → Related (view db) db
view-Related limit db h = record { same_questions = refl; same_asked = refl; counted = h.counted }

expire-about :
    (at : ℕ) (qs : List ShadowQuestion) (subject topic : String)
    → count_if (is_about subject topic) (expire_rows at qs).1 ≡ count_if (is_about subject topic) qs
unfolding expire_rows
expire-about at [] subject topic = refl
expire-about at (q ∷ qs) subject topic = ground (arith, expire-about at qs subject topic)

module _ (server : Server) (limit : ℕ) (db : Tables) (h : IsConsistent limit db) where
  create-within :
      (r : Request)
      → r.max_outstanding ≤ limit
      → (x : String) → Postgres.outstanding x (Postgres.create_if_permitted server r db).1 ≤ limit
  unfolding Postgres.create_if_permitted Postgres.outstanding
  create-within r fits x = ground (arith, h.within x, h.within r.recipient)

  create-once :
      (r : Request) (subject topic : String)
      → count_if
          (is_about subject topic)
          (Postgres.create_if_permitted server r db).1.shadow_questions
        ≡ (if has_pair subject topic (Postgres.create_if_permitted server r db).1.shadow_asked
            then 1
            else 0)
  unfolding Postgres.create_if_permitted
  create-once r subject topic = ground (
    arith,
    h.once subject topic,
    count_if-append (is_about subject topic) db.shadow_questions (inserted_row server r ∷ []),
  )

  create-IsConsistent :
      (r : Request)
      → r.max_outstanding ≤ limit
      → IsConsistent limit (Postgres.create_if_permitted server r db).1
  create-IsConsistent r fits = record {
    counted = create_counted server r (view db) db (view-Related limit db h);
    within = create-within r fits;
    once = create-once r;
  }

  sweep-IsConsistent : (at : ℕ) → IsConsistent limit (Postgres.expire_pending at db).1
  unfolding Postgres.expire_pending
  sweep-IsConsistent at =
      let rel = (expire-Related at (view db) db (view-Related limit db h)).1 in
      record {
        counted = rel.counted;
        within = λ x.
            omega (
              arith,
              rel.counted x,
              expire-slots at db.shadow_questions x,
              h.within x,
              h.counted x,
            );
        once = λ subject topic.
            expire-about at db.shadow_questions subject topic ∙ h.once subject topic;
      }

  call-IsConsistent :
      (c : Call) → AsksWithin limit c → IsConsistent limit (call (postgres_store server) c db).1
  unfolding call
  call-IsConsistent (create r) w = create-IsConsistent r w
  call-IsConsistent (sweep at) w = sweep-IsConsistent at
  call-IsConsistent (ask_outstanding r) w = h
  call-IsConsistent (ask_history subject topic) w = h
  call-IsConsistent ask_questions w = h

-- Whatever calls were made, the counter of each recipient is the number of its pending questions
-- and stays within the largest limit that a call gave, and a subject and a topic that were asked
-- have one question for ever, expired or not.
pub Reachable-IsConsistent :
    (server : Server) (limit : ℕ) (db : Tables) → Reachable server limit db → IsConsistent limit db
unfolding Postgres.outstanding
Reachable-IsConsistent server limit _ start = record {
  counted = λ r. refl;
  within = λ r. omega arith;
  once = λ s t. refl;
}
Reachable-IsConsistent server limit _ (after {db} c r w) =
    call-IsConsistent server limit db (Reachable-IsConsistent server limit db r) c w
