-- ===== src/Engine/Dispatch.antt =====
-- engine/executor.py: `_dispatch_loop`, `_schedule_or_skip`, `_check_budget`, `_maybe_pause`,
-- `_cancel_pending` and `_is_edge_active`, with the outcomes of `_drive_inner`. What the tasks and
-- the clock do comes in as a list of ticks: in each, what the store says of the instance, and the
-- tasks that are done, in the order in which the loop takes them.
pub mod Passes
pub mod Keeps
pub mod Parted
pub mod Once
pub mod Ready
pub mod Fuel
pub mod Order
pub mod Predecessors
pub mod Settles
pub mod Ends
pub mod Covered
pub mod Handled
use intelligent_workflow_app.Prelude.{
  ℕ, zero, suc, ◌+◌, String, Bool, true, false, not, ◌&&◌, ◌||◌, Option, none, some, List, [], ◌∷◌,
  ◌++◌, map, foldl, keep, any, contains, erase, length, leb, ◌==◌, string_eq, if◌then◌else◌,
}
use intelligent_workflow_app.Workflow.Definition.{
  Edge, BudgetAction, notify, pause, escalate, WorkflowPolicy, WorkflowDefinition,
}
use intelligent_workflow_app.Workflow.Topology.{step_ids}
use intelligent_workflow_app.Engine.Dag.{
  DagState, resolve_edge, build_dag_state, is_ready, all_inactive,
}

-- The variables of the loop. Beside them, what it did: the steps for which a task was created
-- (`started`), whose result was taken (`settled`), whose task was cancelled (`cancelled`), and whose
-- task was done when the loop was left, its result never taken (`unread`); and the actions that it
-- wrote to the audit log. `finished` is `task.done()` of the tasks as a round finds them.
pub record Dispatch : Type 0 where
  pub dag : DagState
  pub in_progress : List String
  pub scheduled : List String
  pub skipped : List String
  pub started : List String
  pub settled : List String
  pub cancelled : List String
  pub unread : List String
  pub finished : String → Bool
  pub audit : List String

-- A task is created for the step.
abbrev pub start_step : String → Dispatch → Dispatch
start_step sid d = record d {
  scheduled = sid ∷ d.scheduled;
  in_progress = d.in_progress ++ sid ∷ [];
  started = sid ∷ d.started;
}

-- The step is recorded as skipped.
abbrev pub skip_step : String → Dispatch → Dispatch
skip_step sid d = record d { scheduled = sid ∷ d.scheduled; skipped = sid ∷ d.skipped }

-- `sid in scheduled or sid in skipped`
abbrev pub was_seen : String → Dispatch → Bool
was_seen sid d = contains d.scheduled sid || contains d.skipped sid

-- An edge is resolved, and its target is scheduled if that was the last one.
unfoldable pub resolve_then : (String → Dispatch → Dispatch) → Bool → Edge → Dispatch → Dispatch
unfolding resolve_edge
resolve_then schedule active e d =
    let d' = record d { dag = resolve_edge active e d.dag } in
    if is_ready d'.dag e.target then schedule e.target d' else d'

-- `_schedule_or_skip`, on fuel for the recursion along skipped steps.
unfoldable pub schedule_or_skip : ℕ → String → Dispatch → Dispatch
unfolding resolve_then
schedule_or_skip zero sid d = d
schedule_or_skip (suc n) sid d =
    let recur = schedule_or_skip n in
    if was_seen sid d
    then d
    else if all_inactive d.dag sid
    then foldl (λ x e. resolve_then recur false e x) (skip_step sid d) (d.dag.edges_by_source sid)
    else start_step sid d

-- The loop over `steps_by_id` before the first round.
unfoldable pub schedule_initial : ℕ → List String → Dispatch → Dispatch
unfolding schedule_or_skip
schedule_initial fuel [] d = d
schedule_initial fuel (sid ∷ sids) d = schedule_initial fuel sids (
    if is_ready d.dag sid && not (contains d.scheduled sid) then schedule_or_skip fuel sid d else d)

-- The evaluator of conditions, which gives a truth value or raises.
pub data Evaluation : Type 0 where
  value : Bool → Evaluation
  fails : Evaluation

-- `_is_edge_active`; `none` is the `RuntimeError` of a condition that fails.
unfoldable pub is_edge_active : (String → Evaluation) → Edge → Option Bool
is_edge_active eval e = elim e.condition [
  | none ↦ some true
  | some condition ↦ elim (eval condition) [
    | value b ↦ some b
    | fails ↦ if e.on_error == "inactive" then some false else none
  ]
]

-- How a drive of an instance ends.
pub data Outcome : Type 0 where
  completed paused killed failed : Outcome

-- The loop goes on, or it is over.
pub data Run : Type 0 where
  running : Dispatch → Run
  over : Outcome → Dispatch → Run

-- `_cancel_pending`: a task that is done already is not cancelled, and its result is dropped.
unfoldable pub cancel_pending : Dispatch → Dispatch
cancel_pending d = record d {
  in_progress = [];
  cancelled = keep (λ v. not (d.finished v)) d.in_progress ++ d.cancelled;
  unread = keep d.finished d.in_progress ++ d.unread;
}

-- An exception that leaves the loop: the tasks in flight are cancelled first.
abbrev pub leave : Outcome → Dispatch → Run
leave o d = over o (cancel_pending d)

-- `context.total_tokens <= cap`, or there is no cap.
unfoldable pub within_budget : WorkflowPolicy → ℕ → Bool
within_budget p tokens = elim p.max_total_tokens [ none ↦ true | some most ↦ leb tokens most ]

abbrev pub audited : String → Dispatch → Dispatch
audited action d = record d { audit = d.audit ++ action ∷ [] }

-- `_check_budget`
unfoldable pub check_budget : WorkflowPolicy → ℕ → Dispatch → Run
unfolding within_budget cancel_pending
check_budget p tokens d = if within_budget p tokens then running d else elim p.budget_action [
  | notify ↦ running (audited "budget_exceeded" d)
  | pause ↦ leave paused (audited "budget_exceeded" d)
  | escalate ↦ leave paused (audited "budget_escalated" d)
]

-- What the store says of the instance.
pub data Seen : Type 0 where
  undisturbed asked_to_pause asked_to_stop : Seen

-- `_maybe_pause`
unfoldable pub maybe_pause : Seen → Dispatch → Run
unfolding cancel_pending
maybe_pause undisturbed d = running d
maybe_pause asked_to_pause d = leave paused d
maybe_pause asked_to_stop d = leave killed d

-- A task that is done: its step, whether it succeeded, the tokens that the run used so far, and what
-- the conditions evaluate to behind it.
pub record Done : Type 0 where
  pub sid : String
  pub succeeded : Bool
  pub total_tokens : ℕ
  pub eval : String → Evaluation

abbrev pub and_then : (Dispatch → Run) → Run → Run
and_then f (running d) = f d
and_then f (over o d) = over o d

-- The loop over the outgoing edges of a step that succeeded.
unfoldable pub resolve_outgoing : ℕ → (String → Evaluation) → List Edge → Dispatch → Run
unfolding is_edge_active resolve_then schedule_or_skip cancel_pending
resolve_outgoing fuel eval [] d = running d
resolve_outgoing fuel eval (e ∷ es) d = elim (is_edge_active eval e) [
  | none ↦ leave failed d
  | some active ↦ resolve_outgoing fuel eval es (resolve_then (schedule_or_skip fuel) active e d)
]

-- `del in_progress[sid]`, and its result is taken.
abbrev pub take_result : String → Dispatch → Dispatch
take_result sid d = record d { in_progress = erase sid d.in_progress; settled = sid ∷ d.settled }

-- The body of the loop over the tasks that are done. `asyncio.wait` gives back only tasks in progress.
unfoldable pub handle_done : ℕ → WorkflowPolicy → Done → Dispatch → Run
unfolding check_budget resolve_outgoing cancel_pending
handle_done fuel p t d =
    let d' = take_result t.sid d in
    if not (contains d.in_progress t.sid)
    then running d
    else if not t.succeeded
    then leave failed d'
    else and_then (λ x. resolve_outgoing fuel t.eval (x.dag.edges_by_source t.sid) x)
        (check_budget p t.total_tokens d')

unfoldable pub handle_all : ℕ → WorkflowPolicy → List Done → Dispatch → Run
unfolding handle_done
handle_all fuel p [] d = running d
handle_all fuel p (t ∷ ts) d = and_then (handle_all fuel p ts) (handle_done fuel p t d)

-- A round of the loop. Beside what the store says and what `asyncio.wait` gives back, the other tasks
-- that are done when the round leaves the loop, if it does.
pub record Tick : Type 0 where
  pub seen : Seen
  pub done : List Done
  pub finished : String → Bool

-- The tasks that are done become known.
abbrev pub observe : (String → Bool) → Dispatch → Dispatch
observe finished d = record d { finished = finished }

-- What `asyncio.wait` gives back is done, and some others may be.
abbrev pub is_finished : Tick → String → Bool
is_finished t v = any (λ x. x.sid == v) t.done || t.finished v

unfoldable pub round : ℕ → WorkflowPolicy → Tick → Dispatch → Run
unfolding maybe_pause handle_all
round fuel p t d =
    and_then (λ x. handle_all fuel p t.done (observe (is_finished t) x))
      (maybe_pause t.seen (observe t.finished d))

-- `while in_progress`, as far as the ticks go.
unfoldable pub rounds : ℕ → WorkflowPolicy → List Tick → Dispatch → Run
unfolding round
rounds fuel p [] d = elim d.in_progress [ [] ↦ over completed d | _ ∷ _ ↦ running d ]
rounds fuel p (t ∷ ts) d =
    let rest = and_then (rounds fuel p ts) (round fuel p t d) in
    elim d.in_progress [ [] ↦ over completed d | _ ∷ _ ↦ rest ]

-- The state before the first scheduling.
unfoldable pub fresh_dispatch : List Edge → List String → Dispatch
unfolding build_dag_state
fresh_dispatch edges already_done = record {
  dag = build_dag_state edges already_done;
  in_progress = [];
  scheduled = already_done;
  skipped = [];
  started = [];
  settled = [];
  cancelled = [];
  unread = [];
  finished = λ _. false;
  audit = [];
}

-- `_dispatch_loop`; the fuel is the number of the steps.
unfoldable pub dispatch_loop : WorkflowDefinition → List String → List Tick → Run
unfolding fresh_dispatch schedule_initial rounds
dispatch_loop definition already_done ticks =
    let ids = step_ids definition in
    rounds (length ids) definition.policies ticks
      (schedule_initial (length ids) ids (fresh_dispatch definition.edges already_done))
