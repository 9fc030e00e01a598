-- ===== src/Engine/Retry.antt =====
-- engine/executor.py: `_run_step_with_retry`, over the outcome of each attempt.
pub mod Laws
use intelligent_workflow_app.Prelude.{
  ℕ, zero, suc, ◌+◌, String, Bool, true, false, List, [], ◌∷◌, ltb, ◌==◌, string_eq, if◌then◌else◌,
}
use intelligent_workflow_app.Prelude.Int.{ℤ, rounds_of_succ}

-- What `_run_step_once` does: it returns, or it raises a `StepFailure`, or one that is not to be
-- retried, or another exception: one that is no `StepFailure`, or that of the audit call behind one.
pub data StepResult : Type 0 where
  success step_failure non_retryable unexpected : StepResult

pub data Ended : Type 0 where
  returns raises : Ended

-- The attempts that were made, those after which `step_retry` was audited, and how it ended.
pub record RetryRun : Type 0 where
  pub attempts : List ℕ
  pub retried : List ℕ
  pub ended : Ended

-- `max((s.attempt for s in prior if s.step_id == step.id), default=0)`
unfoldable pub latest_attempt : String → List (String × ℕ) → ℕ
latest_attempt sid [] = 0
latest_attempt sid (s ∷ prior) =
    let rest = latest_attempt sid prior in
    if s.0 == sid then (if ltb rest s.1 then s.1 else rest) else rest

-- An attempt, and then the rest of the loop.
abbrev pub retry_then : ℕ → RetryRun → RetryRun
retry_then attempt rest = record rest {
  attempts = attempt ∷ rest.attempts;
  retried = attempt ∷ rest.retried;
}

abbrev pub last_attempt : ℕ → Ended → RetryRun
last_attempt attempt e = record { attempts = attempt ∷ []; retried = []; ended = e }

-- The loop over the offsets, with the number of rounds that are left and the next attempt. It
-- returns where no round is left, because no error was kept then.
unfoldable pub attempt_from : ℕ → ℕ → (ℕ → StepResult) → RetryRun
attempt_from zero attempt run = record { attempts = []; retried = []; ended = returns }
attempt_from (suc n) attempt run = elim (run attempt) [
  | success ↦ last_attempt attempt returns
  | non_retryable ↦ last_attempt attempt raises
  | unexpected ↦ last_attempt attempt raises
  | step_failure ↦ elim n [
    | zero ↦ last_attempt attempt raises
    | suc _ ↦ retry_then attempt (attempt_from n (attempt + 1) run)
  ]
]

unfoldable pub run_step_with_retry : ℤ → String → List (String × ℕ) → (ℕ → StepResult) → RetryRun
unfolding latest_attempt attempt_from
run_step_with_retry retries sid prior run =
    attempt_from (rounds_of_succ retries) (latest_attempt sid prior + 1) run
