-- ===== src/Recovery/Steps.antt =====
-- recovery.py: what the sweep does to the steps.
use intelligent_workflow_app.Prelude.{
  ◌≡◌, refl, ◌⊎◌, inl, inr, String, true, false, ◌&&◌, some, List, [], ◌∷◌, All, Paired,
  Paired-refl, ◌==◌, string_eq, arith, Bool-cases, subst, ◌∙◌, ap, clash,
}
use intelligent_workflow_app.Engine.Rows.{StepExecution, cancelled, is_step_running}
use intelligent_workflow_app.Recovery.{Surroundings, cancel_running}

-- No step of the instance is RUNNING.
abbrev pub NoneRunning : String → List StepExecution → Type 0
NoneRunning instance_id steps =
    All (λ s. ((s.instance_id == instance_id) && is_step_running s.state) ≡ false) steps

-- What may become of a step: nothing, or it was RUNNING and is CANCELLED.
abbrev pub IsKeptStep : Surroundings → StepExecution → StepExecution → Type 0
IsKeptStep env old now =
    (now ≡ old)
    ⊎ ((is_step_running old.state ≡ true)
        × (now ≡ record old { state = cancelled; completed_at = some (env.utcnow old.id) }))

module _ (env : Surroundings) (instance_id : String) where
  -- A loop that came to its end leaves no step of the instance RUNNING.
  pub cancel_running-NoneRunning :
      (steps : List StepExecution)
      → (cancel_running env instance_id steps).0 ≡ true
      → NoneRunning instance_id (cancel_running env instance_id steps).1
  unfolding cancel_running
  cancel_running-NoneRunning [] h = tt
  cancel_running-NoneRunning (s ∷ steps) h =
      elim (Bool-cases ((s.instance_id == instance_id) && is_step_running s.state)) [
        | inr bars ↦
            let there = cancel_running-NoneRunning steps (ground (arith, h, bars)) in
            rw (bars) (bars, there)
        | inl fits ↦ elim (Bool-cases (env.step_update_fails s.id)) [
          | inl raises ↦ absurd (ground (arith, h, fits, raises))
          | inr writes ↦
              let there = cancel_running-NoneRunning steps (ground (arith, h, fits, writes)) in
              rw (fits, writes) (ground arith, there)
        ]
      ]

  -- It starts no step.
  pub cancel_running-keeps :
      (other : String) (steps : List StepExecution)
      → NoneRunning other steps
      → NoneRunning other (cancel_running env instance_id steps).1
  unfolding cancel_running
  cancel_running-keeps other [] h = tt
  cancel_running-keeps other (s ∷ steps) h =
      let there = cancel_running-keeps other steps h.1 in
      elim (Bool-cases ((s.instance_id == instance_id) && is_step_running s.state)) [
        | inr bars ↦ rw (bars) (h.0, there)
        | inl fits ↦ elim (Bool-cases (env.step_update_fails s.id)) [
          | inl raises ↦ rw (fits, raises) h
          | inr writes ↦ rw (fits, writes) (ground arith, there)
        ]
      ]

  pub cancel_running-Paired :
      (steps : List StepExecution)
      → Paired (IsKeptStep env) steps (cancel_running env instance_id steps).1
  unfolding cancel_running
  cancel_running-Paired [] = tt
  cancel_running-Paired (s ∷ steps) =
      let there = cancel_running-Paired steps in
      elim (Bool-cases ((s.instance_id == instance_id) && is_step_running s.state)) [
        | inr bars ↦ rw (bars) (inl refl, there)
        | inl fits ↦ elim (Bool-cases (env.step_update_fails s.id)) [
          | inl raises ↦
              rw (fits, raises) (inl refl, Paired-refl (IsKeptStep env) steps (λ _. inl refl))
          | inr writes ↦ rw (fits, writes) (inr (ground (arith, fits), refl), there)
        ]
      ]

-- Two sweeps of a step are one.
pub IsKeptStep-compose :
    (env : Surroundings) (old mid now : StepExecution)
    → IsKeptStep env old mid
    → IsKeptStep env mid now
    → IsKeptStep env old now
IsKeptStep-compose env old mid now (inl e) h = subst (λ s. IsKeptStep env s now) e h
IsKeptStep-compose env old mid now (inr (was, e)) (inl e') = inr (was, e' ∙ e)
IsKeptStep-compose env old mid now (inr (was, e)) (inr (still, e')) =
    absurd (clash still (ap (λ s. is_step_running s.state) e))
