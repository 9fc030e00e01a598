-- ===== src/Recovery.antt =====
-- recovery.py: `sweep_interrupted_instances`, with the listing of persistence/memory.py.
pub mod Steps
pub mod Instances
pub mod Listing
pub mod Logged
pub mod Laws
pub mod Undisturbed
use intelligent_workflow_app.Prelude.{
  ℕ, zero, suc, String, Bool, true, false, ◌&&◌, not, Option, none, some, List, [], ◌∷◌, ◌++◌, map,
  keep, take, contains, leb, ◌==◌, string_eq, if◌then◌else◌,
}
use intelligent_workflow_app.Engine.Rows.{
  WorkflowInstance, StepExecution, paused, cancelled, is_running, is_step_running,
}

-- The rows, and the instances for which `workflow_interrupted` was written to the audit log.
pub record Tables : Type 0 where
  pub instances : List WorkflowInstance
  pub steps : List StepExecution
  pub audit : List String

-- Which calls raise during a sweep, by the id of the row they are about, and the time at which a step
-- is updated.
pub record Surroundings : Type 0 where
  pub list_fails : Bool
  pub steps_fail : String → Bool
  pub step_update_fails : String → Bool
  pub update_fails : String → Bool
  pub append_fails : String → Bool
  pub utcnow : String → ℕ

abbrev interrupted_error : String
interrupted_error = "interrupted: process exited while running (recovered at boot)"

-- A place for an instance in a list that is sorted by `created_at`; the sort is stable.
unfoldable pub insert_by_age : WorkflowInstance → List WorkflowInstance → List WorkflowInstance
insert_by_age i [] = i ∷ []
insert_by_age i (j ∷ items) =
    if leb i.created_at j.created_at then i ∷ j ∷ items else j ∷ insert_by_age i items

unfoldable pub sort_by_age : List WorkflowInstance → List WorkflowInstance
unfolding insert_by_age
sort_by_age [] = []
sort_by_age (i ∷ items) = insert_by_age i (sort_by_age items)

-- `list_by_state([RUNNING], limit)`
unfoldable pub list_running : ℕ → List WorkflowInstance → List WorkflowInstance
unfolding sort_by_age
list_running limit items = take limit (sort_by_age (keep (λ i. is_running i.state) items))

-- The loop over the steps of an instance, in the table of the steps: whether it came to its end.
unfoldable pub cancel_running :
    Surroundings → String → List StepExecution → Bool × List StepExecution
cancel_running env instance_id [] = (true, [])
cancel_running env instance_id (s ∷ steps) =
    let rest = cancel_running env instance_id steps in
    if (s.instance_id == instance_id) && is_step_running s.state
    then (if env.step_update_fails s.id then (false, s ∷ steps) else (
      rest.0,
      record s { state = cancelled; completed_at = some (env.utcnow s.id) } ∷ rest.1,
    ))
    else (rest.0, s ∷ rest.1)

-- `repositories.instances.update`
unfoldable pub update : WorkflowInstance → List WorkflowInstance → List WorkflowInstance
update i [] = []
update i (r ∷ items) = (if r.id == i.id then i else r) ∷ update i items

abbrev pub interrupt : WorkflowInstance → WorkflowInstance
interrupt i = record i { state = paused; error = some interrupted_error; completed_at = none }

-- The body of the loop: whether the instance was recovered, and what was written.
unfoldable pub recover : Surroundings → WorkflowInstance → Tables → Bool × Tables
unfolding cancel_running update
recover env i db =
    let done = cancel_running env i.id db.steps in
    let db₁ = record db { steps = done.1 } in
    let db₂ = record db₁ { instances = update (interrupt i) db.instances } in
    if env.steps_fail i.id
    then (false, db)
    else if not done.0
    then (false, db₁)
    else if env.update_fails i.id
    then (false, db₁)
    else if env.append_fails i.id
    then (false, db₂)
    else (true, record db₂ { audit = db.audit ++ i.id ∷ [] })

unfoldable pub recover_all : Surroundings → List WorkflowInstance → Tables → Tables × ℕ
unfolding recover
recover_all env [] db = (db, 0)
recover_all env (i ∷ stranded) db =
    let one = recover env i db in
    let rest = recover_all env stranded one.1 in (rest.0, if one.0 then suc rest.1 else rest.1)

-- `sweep_interrupted_instances`, with the value of the environment variable in lower case.
unfoldable pub sweep_interrupted_instances : Surroundings → String → ℕ → Tables → Tables × ℕ
unfolding list_running recover_all
sweep_interrupted_instances env setting limit db =
    if contains ("1" ∷ "true" ∷ "yes" ∷ []) setting
    then (db, 0)
    else if env.list_fails
    then (db, 0)
    else recover_all env (list_running limit db.instances) db
