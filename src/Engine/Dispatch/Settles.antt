-- ===== src/Engine/Dispatch/Settles.antt =====
-- A round in which a task is done takes its result, or ends the loop.
use intelligent_workflow_app.Prelude.{
  ◌≡◌, refl, ℕ, suc, ◌≤◌, String, true, false, List, [], ◌∷◌, any, contains, length, string_eq,
  arith, Bool-cases, inl, inr,
}
use intelligent_workflow_app.Workflow.Definition.{WorkflowPolicy}
use intelligent_workflow_app.Engine.Dispatch.{
  Dispatch, cancel_pending, Run, running, over, and_then, Done, maybe_pause, Seen, undisturbed,
  asked_to_pause, asked_to_stop, handle_done, handle_all, Tick, observe, is_finished, round,
}
use intelligent_workflow_app.Engine.Dispatch.Passes.{IsPassed, first_passes}
use intelligent_workflow_app.Engine.Dispatch.Keeps.{OfRun, IsKept, IsKept-IsPassed}

-- The rest of a run that goes on.
abbrev pub OnRunning : (Dispatch → Type 0) → Run → Type 0
OnRunning P (running d) = P d
OnRunning P (over o d) = Unit

abbrev pub HasSettled : ℕ → Dispatch → Type 0
HasSettled n d = n ≤ length d.settled

HasSettled-IsKept : (ids : List String) (n : ℕ) → IsKept ids (HasSettled n)
unfolding cancel_pending
HasSettled-IsKept ids n = record {
  starts = λ sid d _ _ _ _ h. h;
  skips = λ sid d _ _ _ _ h. h;
  resolves = λ active e d h. h;
  takes = λ sid d _ h. omega arith;
  cancels = λ d h. h;
  observes = λ finished d h. h;
  audits = λ action d h. h;
}

abbrev settled_passes : (n fuel : ℕ) → IsPassed fuel (λ _. HasSettled n) (λ _. HasSettled n)
settled_passes n fuel = IsKept-IsPassed [] (HasSettled n) (HasSettled-IsKept [] n) fuel

handle_done_skips :
    (fuel : ℕ) (p : WorkflowPolicy) (t : Done) (d : Dispatch)
    → contains d.in_progress t.sid ≡ false
    → handle_done fuel p t d ≡ running d
unfolding handle_done
handle_done_skips fuel p t d other = rw other refl

handle_all_settles :
    (n fuel : ℕ) (p : WorkflowPolicy) (ts : List Done) (d : Dispatch)
    → any (λ x. contains d.in_progress x.sid) ts ≡ true
    → HasSettled n d
    → OfRun (HasSettled (suc n)) (handle_all fuel p ts d)
unfolding handle_all
handle_all_settles n fuel p [] d some_done h = absurd (ground arith)
handle_all_settles n fuel p (t ∷ ts) d some_done h =
    elim (Bool-cases (contains d.in_progress t.sid)) [
      | inl here ↦
          first_passes fuel (λ _. HasSettled (suc n)) (λ _. HasSettled (suc n))
            (settled_passes (suc n) fuel) p t ts d here (omega arith)
      | inr other ↦
          rw (handle_done_skips fuel p t d other)
            (handle_all_settles n fuel p ts d (ground arith) h)
    ]

running_of : (P : Dispatch → Type 0) (r : Run) → OfRun P r → OnRunning P r
running_of P (running d) h = h
running_of P (over o d) h = tt

pub round_settles :
    (n fuel : ℕ) (p : WorkflowPolicy) (t : Tick) (d : Dispatch)
    → any (λ x. contains d.in_progress x.sid) t.done ≡ true
    → HasSettled n d
    → OnRunning (HasSettled (suc n)) (round fuel p t d)
unfolding round maybe_pause
round_settles n fuel p t d some_done h = by_seen t.seen
  where
    by_seen :
        (seen : Seen)
        → OnRunning (HasSettled (suc n)) (
            and_then
              (λ x. handle_all fuel p t.done (observe (is_finished t) x))
              (maybe_pause seen (observe t.finished d)))
    by_seen undisturbed = running_of (HasSettled (suc n)) _ (
        handle_all_settles n fuel p t.done (observe (is_finished t) (observe t.finished d))
          some_done h)
    by_seen asked_to_pause = tt
    by_seen asked_to_stop = tt
