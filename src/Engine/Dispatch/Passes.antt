-- ===== src/Engine/Dispatch/Passes.antt =====
-- The rounds of the dispatch loop: what the handling of one edge keeps, and what the ends of the loop
-- leave, holds of a run of any ticks.
use intelligent_workflow_app.Prelude.{
  ℕ, ◌≡◌, refl, String, Bool, true, false, List, [], ◌∷◌, contains, string_eq, inl, inr, Bool-cases,
  Option-cases, List-cases,
}
use intelligent_workflow_app.Workflow.Definition.{
  Edge, BudgetAction, notify, pause, escalate, WorkflowPolicy,
}
use intelligent_workflow_app.Engine.Dispatch.{
  Dispatch, resolve_then, schedule_or_skip, Evaluation, is_edge_active, Outcome, completed, paused,
  killed, failed, Run, running, over, cancel_pending, within_budget, audited, check_budget, Seen,
  undisturbed, asked_to_pause, asked_to_stop, maybe_pause, Done, and_then, resolve_outgoing,
  take_result, handle_done, handle_all, Tick, observe, is_finished, round, rounds,
}

-- A property of a run that goes on, and one of a run that is over.
abbrev pub OfRounds : (Dispatch → Type 0) → (Outcome → Dispatch → Type 0) → Run → Type 0
OfRounds P Q (running d) = P d
OfRounds P Q (over o d) = Q o d

-- The loop was left before it completed.
abbrev pub is_left : Outcome → Bool
is_left completed = false
is_left _ = true

-- `P es` holds with the edges `es` still to be resolved, and `Q` of a run that is over.
pub record IsPassed (fuel : ℕ) (P : List Edge → Dispatch → Type 0) (Q : Outcome → Dispatch → Type 0)
    : Type 0 where
  pub takes :
      (sid : String) (d : Dispatch)
      → contains d.in_progress sid ≡ true
      → P [] d
      → P (d.dag.edges_by_source sid) (take_result sid d)
  pub resolves :
      (active : Bool) (e : Edge) (es : List Edge) (d : Dispatch)
      → P (e ∷ es) d
      → P es (resolve_then (schedule_or_skip fuel) active e d)
  pub observes :
      (finished : String → Bool) (es : List Edge) (d : Dispatch)
      → P es d
      → P es (observe finished d)
  pub audits : (action : String) (es : List Edge) (d : Dispatch) → P es d → P es (audited action d)
  pub leaves :
      (o : Outcome) (es : List Edge) (d : Dispatch)
      → is_left o ≡ true
      → P es d
      → Q o (cancel_pending d)
  pub completes : (d : Dispatch) → d.in_progress ≡ [] → P [] d → Q completed d

module _ (fuel : ℕ) (P : List Edge → Dispatch → Type 0) (Q : Outcome → Dispatch → Type 0)
    (k : IsPassed fuel P Q) where
  abbrev Of : (Dispatch → Type 0) → Run → Type 0
  Of R = OfRounds R Q

  and_then_passes :
      (R S : Dispatch → Type 0) (f : Dispatch → Run)
      → ((d : Dispatch) → R d → Of S (f d))
      → (r : Run) → Of R r
      → Of S (and_then f r)
  and_then_passes R S f s (running d) h = s d h
  and_then_passes R S f s (over o d) h = h

  maybe_pause_passes : (t : Seen) (d : Dispatch) → P [] d → Of (P []) (maybe_pause t d)
  unfolding maybe_pause
  maybe_pause_passes undisturbed d h = h
  maybe_pause_passes asked_to_pause d h = k.leaves paused [] d refl h
  maybe_pause_passes asked_to_stop d h = k.leaves killed [] d refl h

  check_budget_passes :
      (p : WorkflowPolicy) (tokens : ℕ) (sid : String) (d : Dispatch)
      → P (d.dag.edges_by_source sid) d
      → Of (λ x. P (x.dag.edges_by_source sid) x) (check_budget p tokens d)
  unfolding check_budget
  check_budget_passes p tokens sid d h = elim (Bool-cases (within_budget p tokens)) [
    | inl within ↦ rw within h
    | inr beyond ↦ rw beyond (by_action p.budget_action)
  ]
    where
      by_action :
          (a : BudgetAction)
          → Of
              (λ x. P (x.dag.edges_by_source sid) x)
              (elim a [
                | notify ↦ running (audited "budget_exceeded" d)
                | pause ↦ over paused (cancel_pending (audited "budget_exceeded" d))
                | escalate ↦ over paused (cancel_pending (audited "budget_escalated" d))
              ])
      by_action notify = k.audits "budget_exceeded" _ d h
      by_action pause = k.leaves paused _ _ refl (k.audits "budget_exceeded" _ d h)
      by_action escalate = k.leaves paused _ _ refl (k.audits "budget_escalated" _ d h)

  resolve_outgoing_passes :
      (eval : String → Evaluation) (es : List Edge) (d : Dispatch)
      → P es d
      → Of (P []) (resolve_outgoing fuel eval es d)
  unfolding resolve_outgoing
  resolve_outgoing_passes eval [] d h = h
  resolve_outgoing_passes eval (e ∷ es) d h = elim (Option-cases (is_edge_active eval e)) [
    | inl broken ↦ rw (broken, resolve_outgoing) (k.leaves failed _ d refl h)
    | inr (active, is) ↦
        rw (is, resolve_outgoing) (resolve_outgoing_passes eval es _ (k.resolves active e es d h))
  ]

  -- The part of a round behind `del in_progress[sid]`.
  pub taken_passes :
      (p : WorkflowPolicy) (t : Done) (d : Dispatch)
      → contains d.in_progress t.sid ≡ true
      → P (d.dag.edges_by_source t.sid) (take_result t.sid d)
      → Of (P []) (handle_done fuel p t d)
  unfolding handle_done
  taken_passes p t d here taken =
      let d' = take_result t.sid d in
      let Next : Dispatch → Type 0 = λ x. P (x.dag.edges_by_source t.sid) x in
      elim (Bool-cases t.succeeded) [
        | inr failure ↦ rw (here, failure) (k.leaves failed _ d' refl taken)
        | inl success ↦
            rw (here, success)
              (and_then_passes Next (P [])
                (λ x. resolve_outgoing fuel t.eval (x.dag.edges_by_source t.sid) x)
                (λ x q. resolve_outgoing_passes t.eval (x.dag.edges_by_source t.sid) x q)
                (check_budget p t.total_tokens d')
                (check_budget_passes p t.total_tokens t.sid d' taken))
      ]

  handle_done_passes :
      (p : WorkflowPolicy) (t : Done) (d : Dispatch) → P [] d → Of (P []) (handle_done fuel p t d)
  unfolding handle_done
  handle_done_passes p t d h = elim (Bool-cases (contains d.in_progress t.sid)) [
    | inr other ↦ rw other h
    | inl here ↦ taken_passes p t d here (k.takes t.sid d here h)
  ]

  pub handle_all_passes :
      (p : WorkflowPolicy) (ts : List Done) (d : Dispatch)
      → P [] d
      → Of (P []) (handle_all fuel p ts d)
  unfolding handle_all
  handle_all_passes p [] d h = h
  handle_all_passes p (t ∷ ts) d h =
      and_then_passes (P []) (P []) (handle_all fuel p ts) (handle_all_passes p ts)
        (handle_done fuel p t d) (handle_done_passes p t d h)

  -- A task that is done, and the others of its round.
  pub first_passes :
      (p : WorkflowPolicy) (t : Done) (ts : List Done) (d : Dispatch)
      → contains d.in_progress t.sid ≡ true
      → P (d.dag.edges_by_source t.sid) (take_result t.sid d)
      → Of (P []) (handle_all fuel p (t ∷ ts) d)
  unfolding handle_all
  first_passes p t ts d here taken =
      and_then_passes (P []) (P []) (handle_all fuel p ts) (handle_all_passes p ts)
        (handle_done fuel p t d) (taken_passes p t d here taken)

  pub round_passes :
      (p : WorkflowPolicy) (t : Tick) (d : Dispatch) → P [] d → Of (P []) (round fuel p t d)
  unfolding round
  round_passes p t d h =
      and_then_passes (P []) (P []) (λ x. handle_all fuel p t.done (observe (is_finished t) x))
        (λ x q.
          handle_all_passes p t.done (observe (is_finished t) x)
            (k.observes (is_finished t) [] x q))
        (maybe_pause t.seen (observe t.finished d))
        (maybe_pause_passes t.seen (observe t.finished d) (k.observes t.finished [] d h))

  pub rounds_pass :
      (p : WorkflowPolicy) (ts : List Tick) (d : Dispatch) → P [] d → Of (P []) (rounds fuel p ts d)
  unfolding rounds
  rounds_pass p [] d h = elim (List-cases d.in_progress) [
    | inl empty ↦ rw (empty, rounds) (k.completes d empty h)
    | inr (x, xs, e) ↦ rw (e, rounds) h
  ]
  rounds_pass p (t ∷ ts) d h = elim (List-cases d.in_progress) [
    | inl empty ↦ rw (empty, rounds) (k.completes d empty h)
    | inr (x, xs, e) ↦
        rw (e, rounds)
          (and_then_passes (P []) (P []) (rounds fuel p ts) (rounds_pass p ts) (round fuel p t d)
            (round_passes p t d h))
  ]
