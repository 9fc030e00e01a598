-- ===== src/Engine/Retry/Laws.antt =====
-- How a step is retried: its attempts, their numbers, and how it ends.
use intelligent_workflow_app.Prelude.{
  ℕ, zero, suc, ◌+◌, ◌≤◌, ◌<◌, ◌≡◌, refl, ◌⊎◌, inl, inr, String, List, [], ◌∷◌, string_eq, arith,
  subst,
}
use intelligent_workflow_app.Prelude.Int.{pos}
use intelligent_workflow_app.Engine.Retry.{
  StepResult, success, step_failure, non_retryable, unexpected, Ended, returns, raises,
  latest_attempt, attempt_from, run_step_with_retry,
}

-- The story of the attempts with a budget: each but the last is a failure, the numbers follow each
-- other, and the last one ends the step: it succeeded, or it is not to be retried, or it raised another
-- exception, or it failed and used up the budget.
abbrev pub Story : (ℕ → StepResult) → ℕ → ℕ → List ℕ → Ended → Type 0
Story run budget next [] e = ⊥
Story run budget next (a ∷ []) returns = (a ≡ next) × (1 ≤ budget) × (run a ≡ success)
Story run budget next (a ∷ []) raises =
    (a ≡ next)
    × (1 ≤ budget)
    × ((run a ≡ non_retryable) ⊎ (run a ≡ unexpected) ⊎ ((run a ≡ step_failure) × (budget ≡ 1)))
Story run zero next (a ∷ b ∷ more) e = ⊥
Story run (suc budget) next (a ∷ b ∷ more) e =
    (a ≡ next) × (run a ≡ step_failure) × Story run budget (next + 1) (b ∷ more) e

StepResult-cases :
    (r : StepResult) → (r ≡ success) ⊎ (r ≡ non_retryable) ⊎ (r ≡ unexpected) ⊎ (r ≡ step_failure)
StepResult-cases success = inl refl
StepResult-cases non_retryable = inr (inl refl)
StepResult-cases unexpected = inr (inr (inl refl))
StepResult-cases step_failure = inr (inr (inr refl))

Story-cons :
    (run : ℕ → StepResult) (n a : ℕ) (more : List ℕ) (e : Ended)
    → run a ≡ step_failure
    → Story run n (a + 1) more e
    → Story run (suc n) a (a ∷ more) e
Story-cons run n a [] e f s = absurd s
Story-cons run n a (b ∷ more) e f s = (refl, f, s)

attempt_from-Story :
    (n a : ℕ) (run : ℕ → StepResult)
    → (let r = attempt_from (suc n) a run in Story run (suc n) a r.attempts r.ended)
unfolding attempt_from
attempt_from-Story zero a run = elim (StepResult-cases (run a)) [
  | inl e ↦ rw (e, attempt_from) (refl, omega arith, e)
  | inr (inl e) ↦ rw (e, attempt_from) (refl, omega arith, inl e)
  | inr (inr (inl e)) ↦ rw (e, attempt_from) (refl, omega arith, inr (inl e))
  | inr (inr (inr e)) ↦ rw (e, attempt_from) (refl, omega arith, inr (inr (e, refl)))
]
attempt_from-Story (suc n) a run = elim (StepResult-cases (run a)) [
  | inl e ↦ rw (e, attempt_from) (refl, omega arith, e)
  | inr (inl e) ↦ rw (e, attempt_from) (refl, omega arith, inl e)
  | inr (inr (inl e)) ↦ rw (e, attempt_from) (refl, omega arith, inr (inl e))
  | inr (inr (inr e)) ↦
      rw (e, attempt_from) (Story-cons run (suc n) a _ _ e (attempt_from-Story n (a + 1) run))
]

-- `a` numbers later than every number of the step.
abbrev pub IsNew : String → List (String × ℕ) → ℕ → Type 0
IsNew sid [] a = Unit
IsNew sid (s ∷ prior) a = (s.0 ≡ sid → s.1 < a) × IsNew sid prior a

IsNew-mono :
    (sid : String) (prior : List (String × ℕ)) (a b : ℕ)
    → a ≤ b
    → IsNew sid prior a
    → IsNew sid prior b
IsNew-mono sid [] a b l h = tt
IsNew-mono sid (s ∷ prior) a b l h = ((λ e. omega (arith, h.0 e)), IsNew-mono sid prior a b l h.1)

latest_attempt-IsNew :
    (sid : String) (prior : List (String × ℕ)) → IsNew sid prior (latest_attempt sid prior + 1)
unfolding latest_attempt
latest_attempt-IsNew sid [] = tt
latest_attempt-IsNew sid (s ∷ prior) = (
  (λ e. ground arith),
  IsNew-mono sid prior (latest_attempt sid prior + 1) _ (ground arith)
      (latest_attempt-IsNew sid prior),
)

-- A step with a number of retries that is not negative is run at least once and at most one time
-- more than that number; its attempts are numbered on from the latest one, past every number that
-- the step has; each attempt but the last failed with a `StepFailure`; and the step returns where the last one
-- succeeded, and raises where it is not to be retried, where it raised another exception, or where it
-- failed with no retry left. So a retry depends on the class of the error.
pub run_step_with_retry-Story :
    (retries : ℕ) (sid : String) (prior : List (String × ℕ)) (run : ℕ → StepResult)
    → (let r = run_step_with_retry (pos retries) sid prior run in
        let first = latest_attempt sid prior + 1 in
        Story run (retries + 1) first r.attempts r.ended × IsNew sid prior first)
unfolding run_step_with_retry
run_step_with_retry-Story retries sid prior run =
    let first = latest_attempt sid prior + 1 in
    let budget : suc retries ≡ retries + 1 = omega arith in
    (
      subst
          (λ n.
            Story run n first (attempt_from n first run).attempts (attempt_from n first run).ended)
          budget (attempt_from-Story retries first run),
      latest_attempt-IsNew sid prior,
    )
