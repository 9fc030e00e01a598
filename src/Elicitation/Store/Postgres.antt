-- ===== src/Elicitation/Store/Postgres.antt =====
-- elicitation/store.py: `PostgresShadowStore`. A method is one transaction over three tables. The
-- conditional update of the capacity row makes the transactions of one recipient serial, so
-- interleaved calls are sequences of these steps.
use intelligent_workflow_app.Prelude.{
  ℕ, suc, ◌+◌, ◌-◌, String, Bool, true, false, Option, none, some, List, [], ◌∷◌, ◌++◌, ltb, ◌==◌,
  string_eq, if◌then◌else◌,
}
use intelligent_workflow_app.Elicitation.Catalog.{already_asked, recipient_at_capacity}
use intelligent_workflow_app.Elicitation.Store.{
  ShadowQuestion, expired, CreateResult, created, refused, Request, new_question, has_pair, is_due,
  QuestionStore,
}

-- The rows of the three tables; a recipient has at most one capacity row.
pub record Tables : Type 0 where
  pub shadow_asked : List (String × String)
  pub shadow_capacity : String → Option ℕ
  pub shadow_questions : List ShadowQuestion

-- What the server brings in: its `now()` in the transaction that inserts a question, by its id, and the
-- order of the rows of a `select` that names none.
pub record Server : Type 0 where
  pub now : String → ℕ
  pub order : List ShadowQuestion → List ShadowQuestion

-- The row that is inserted; the question that the caller gets has the time of the caller.
abbrev pub inserted_row : Server → Request → ShadowQuestion
inserted_row server r = record (new_question r) { created_at = server.now r.qid }

-- `insert into shadow_asked ... on conflict do nothing returning subject`
unfoldable pub insert_asked : String → String → Tables → Bool × Tables
insert_asked subject topic db =
    if has_pair subject topic db.shadow_asked
    then (false, db)
    else (true, record db { shadow_asked = (subject, topic) ∷ db.shadow_asked })

-- `insert into shadow_capacity (recipient, outstanding) values (:r, 0) on conflict do nothing`
unfoldable pub insert_capacity : String → Tables → Tables
insert_capacity r db = elim (db.shadow_capacity r) [
  | some n ↦ db
  | none ↦ record db { shadow_capacity = λ x. if x == r then some 0 else db.shadow_capacity x }
]

-- `update shadow_capacity set outstanding = outstanding + 1 where recipient = :r and
-- outstanding < :cap returning outstanding`
unfoldable pub take_slot : String → ℕ → Tables → Bool × Tables
take_slot r most db = elim (db.shadow_capacity r) [
  | none ↦ (false, db)
  | some n ↦
      if ltb n most
      then (
        true,
        record db { shadow_capacity = λ x. if x == r then some (n + 1) else db.shadow_capacity x },
      )
      else (false, db)
]

-- The transaction of `_create` with the handler of `_CapacityRefused`, which rolls it back.
unfoldable pub create_if_permitted : Server → Request → Tables → CreateResult × Tables
unfolding insert_asked insert_capacity take_slot new_question
create_if_permitted server r db =
    let (fresh, db₁) = insert_asked r.subject r.topic db in
    let (took, db₂) = take_slot r.recipient r.max_outstanding (insert_capacity r.recipient db₁) in
    let q = new_question r in
    if fresh
    then (if took
        then (
          created q,
          record db₂ { shadow_questions = db₂.shadow_questions ++ inserted_row server r ∷ [] },
        )
        else (refused recipient_at_capacity, db))
    else (refused already_asked, db)

-- `update shadow_questions set status = 'expired' where ... returning recipient`
unfoldable pub expire_rows : ℕ → List ShadowQuestion → List String × List ShadowQuestion
expire_rows at [] = ([], [])
expire_rows at (q ∷ qs) =
    let (recipients, rest) = expire_rows at qs in
    if is_due at q
    then (q.recipient ∷ recipients, record q { status = expired } ∷ rest)
    else (recipients, q ∷ rest)

-- `update shadow_capacity set outstanding = greatest(outstanding - 1, 0) where recipient = :r`
unfoldable pub release_slot : String → (String → Option ℕ) → String → Option ℕ
release_slot r capacity x =
    if x == r then elim (capacity r) [ none ↦ none | some n ↦ some (n - 1) ] else capacity x

unfoldable pub release_slots : List String → (String → Option ℕ) → String → Option ℕ
unfolding release_slot
release_slots [] capacity = capacity
release_slots (r ∷ rs) capacity = release_slots rs (release_slot r capacity)

-- `len(rows)`
unfoldable pub row_count : List String → ℕ
row_count [] = 0
row_count (_ ∷ rows) = suc (row_count rows)

unfoldable pub expire_pending : ℕ → Tables → ℕ × Tables
unfolding expire_rows release_slots row_count
expire_pending at db =
    let (rows, qs) = expire_rows at db.shadow_questions in
    (
      row_count rows,
      record db { shadow_questions = qs; shadow_capacity = release_slots rows db.shadow_capacity },
    )

-- `int(row or 0)`
unfoldable pub outstanding : String → Tables → ℕ
outstanding r db = elim (db.shadow_capacity r) [ none ↦ 0 | some n ↦ n ]

unfoldable pub was_ever_asked : String → String → Tables → Bool
was_ever_asked subject topic db = has_pair subject topic db.shadow_asked

-- `list_questions` selects without an order.
abbrev pub postgres_store : Server → QuestionStore
postgres_store server = record {
  State = Tables;
  create_if_permitted = create_if_permitted server;
  expire_pending = expire_pending;
  outstanding = outstanding;
  was_ever_asked = was_ever_asked;
  list_questions = λ db. server.order db.shadow_questions;
}
