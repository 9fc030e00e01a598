-- ===== src/Engine/Dispatch/Once.antt =====
-- No step runs twice, and every task that was created is accounted for.
use intelligent_workflow_app.Prelude.{
  ◌+◌, ◌≤◌, ◌≡◌, refl, String, Bool, true, false, not, keep, ◌&&◌, List, [], ◌∷◌, contains, count,
  count-append, count-erase, count_of_present, count_of_absent, string_eq, arith,
}
use intelligent_workflow_app.Workflow.Definition.{Edge, WorkflowDefinition}
use intelligent_workflow_app.Workflow.Topology.{step_ids}
use intelligent_workflow_app.Engine.Dispatch.{
  Run, running, over, Dispatch, start_step, skip_step, was_seen, cancel_pending, Tick,
  fresh_dispatch, dispatch_loop,
}
use intelligent_workflow_app.Engine.Dispatch.Passes.{OfRounds}
use intelligent_workflow_app.Engine.Dispatch.Parted.{IsUntouched, IsParted, dispatch_loop-IsParted}
use intelligent_workflow_app.Engine.Dispatch.Keeps.{OfRun, IsKept, dispatch_loop-keeps}

count-parts :
    (p : String → Bool) (v : String) (xs : List String)
    → count v (keep (λ x. not (p x)) xs) + count v (keep p xs) ≡ count v xs
count-parts p v [] = refl
count-parts p v (x ∷ xs) = ground (arith, count-parts p v xs)

module _ (already_done : List String) where
  -- A step is started at most once, never if it was done already, and never if it is skipped; and
  -- every step that was started is in progress, or its result was taken, or it was cancelled, or
  -- it was done with its result never taken, and only one of these.
  pub record IsAccounted (d : Dispatch) : Type 0 where
    pub once : (v : String) → count v d.started ≤ 1
    pub seen : (v : String) → contains d.started v ≡ true → contains d.scheduled v ≡ true
    pub done_seen : (v : String) → contains already_done v ≡ true → contains d.scheduled v ≡ true
    pub done_apart : (v : String) → (contains already_done v && contains d.started v) ≡ false
    pub skipped_apart : (v : String) → (contains d.skipped v && contains d.started v) ≡ false
    pub accounted :
        (v : String)
        → count v d.started
          ≡ count v d.in_progress + count v d.settled + count v d.cancelled + count v d.unread

  pub start_step-IsAccounted :
      (sid : String) (d : Dispatch)
      → was_seen sid d ≡ false
      → IsAccounted d
      → IsAccounted (start_step sid d)
  start_step-IsAccounted sid d new h = record {
    once = λ v. ground (arith, h.once v, h.seen v, count_of_absent v d.started);
    seen = λ v m. ground (arith, h.seen v);
    done_seen = λ v m. ground (arith, h.done_seen v);
    done_apart = λ v. ground (arith, h.done_apart v, h.done_seen v);
    skipped_apart = λ v. ground (arith, h.skipped_apart v);
    accounted = λ v. ground (arith, h.accounted v, count-append v d.in_progress (sid ∷ []));
  }

  pub skip_step-IsAccounted :
      (sid : String) (d : Dispatch)
      → was_seen sid d ≡ false
      → IsAccounted d
      → IsAccounted (skip_step sid d)
  skip_step-IsAccounted sid d new h = record {
    once = h.once;
    seen = λ v m. ground (arith, h.seen v);
    done_seen = λ v m. ground (arith, h.done_seen v);
    done_apart = h.done_apart;
    skipped_apart = λ v. ground (arith, h.skipped_apart v, h.seen v);
    accounted = h.accounted;
  }

  pub IsAccounted-IsKept : (ids : List String) → IsKept ids IsAccounted
  unfolding cancel_pending
  IsAccounted-IsKept ids = record {
    starts = λ sid d _ new _ _ h. start_step-IsAccounted sid d new h;
    skips = λ sid d _ new _ _ h. skip_step-IsAccounted sid d new h;
    resolves = λ active e d h. record {
      once = h.once;
      seen = h.seen;
      done_seen = h.done_seen;
      done_apart = h.done_apart;
      skipped_apart = h.skipped_apart;
      accounted = h.accounted;
    };
    takes = λ sid d here h. record {
      once = h.once;
      seen = h.seen;
      done_seen = h.done_seen;
      done_apart = h.done_apart;
      skipped_apart = h.skipped_apart;
      accounted = λ v. ground (
        arith,
        h.accounted v,
        count-erase sid v d.in_progress (count_of_present sid d.in_progress here),
      );
    };
    cancels = λ d h. record {
      once = h.once;
      seen = h.seen;
      done_seen = h.done_seen;
      done_apart = h.done_apart;
      skipped_apart = h.skipped_apart;
      accounted = λ v. ground (
        arith,
        h.accounted v,
        count-append v (keep (λ x. not (d.finished x)) d.in_progress) d.cancelled,
        count-append v (keep d.finished d.in_progress) d.unread,
        count-parts d.finished v d.in_progress,
      );
    };
    observes = λ finished d h. record {
      once = h.once;
      seen = h.seen;
      done_seen = h.done_seen;
      done_apart = h.done_apart;
      skipped_apart = h.skipped_apart;
      accounted = h.accounted;
    };
    audits = λ action d h. record {
      once = h.once;
      seen = h.seen;
      done_seen = h.done_seen;
      done_apart = h.done_apart;
      skipped_apart = h.skipped_apart;
      accounted = h.accounted;
    };
  }

pub fresh-IsAccounted :
    (edges : List Edge) (already_done : List String)
    → IsAccounted already_done (fresh_dispatch edges already_done)
unfolding fresh_dispatch
fresh-IsAccounted edges already_done = record {
  once = λ v. omega arith;
  seen = λ v m. absurd (ground arith);
  done_seen = λ v m. m;
  done_apart = λ v. ground arith;
  skipped_apart = λ v. refl;
  accounted = λ v. refl;
}

-- Of a run that goes on, and of one that is over.
abbrev pub Accounted : List String → Run → Type 0
Accounted already_done =
    OfRounds (λ d. IsAccounted already_done d × IsUntouched d)
      (λ _ d. IsAccounted already_done d × IsParted d)

both :
    (already_done : List String) (r : Run)
    → OfRun (IsAccounted already_done) r
    → OfRounds IsUntouched (λ _. IsParted) r
    → Accounted already_done r
both already_done (running d) h g = (h, g)
both already_done (over o d) h g = (h, g)

-- However the tasks finish and whenever a pause, a stop, a failure or the budget comes in between:
-- the loop starts no step twice, none that was done before and none that it skipped; and each step
-- that it started is in progress, or its result was taken, or its task was cancelled, or its task was
-- done when the loop was left and its result dropped, and only one of these. The tasks that were
-- cancelled were not done then; and while the loop goes on, none is cancelled or dropped.
pub dispatch_loop-IsAccounted :
    (definition : WorkflowDefinition) (already_done : List String) (ticks : List Tick)
    → Accounted already_done (dispatch_loop definition already_done ticks)
dispatch_loop-IsAccounted definition already_done ticks =
    both already_done (dispatch_loop definition already_done ticks)
      (dispatch_loop-keeps (IsAccounted already_done) definition already_done ticks
        (IsAccounted-IsKept already_done (step_ids definition))
        (fresh-IsAccounted definition.edges already_done))
      (dispatch_loop-IsParted definition already_done ticks)
