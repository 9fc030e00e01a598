-- ===== src/Recovery/Instances.antt =====
-- recovery.py: what the sweep does with the row of one instance.
use intelligent_workflow_app.Prelude.{
  ◌≡◌, refl, sym, subst, ap, ◌∙◌, ◌⊎◌, inl, inr, String, Bool, true, false, List, [], ◌∷◌, ◌++◌,
  All, Paired, ◌==◌, string_eq, arith, Bool-cases, clash,
}
use intelligent_workflow_app.Engine.Rows.{WorkflowInstance, StepExecution, is_running}
use intelligent_workflow_app.Recovery.{
  Tables, Surroundings, cancel_running, interrupt, update, recover,
}
use intelligent_workflow_app.Recovery.Steps.{NoneRunning, cancel_running-NoneRunning}

-- What may become of an instance: nothing, or it was RUNNING, is PAUSED, and has no RUNNING step.
abbrev pub IsSwept : List StepExecution → WorkflowInstance → WorkflowInstance → Type 0
IsSwept steps old now =
    (now ≡ old) ⊎ ((is_running old.state ≡ true) × (now ≡ interrupt old) × NoneRunning old.id steps)

-- The rows that have the id of a listed one are that one.
abbrev pub IsCopy : List WorkflowInstance → WorkflowInstance → Type 0
IsCopy rows i = All (λ r. (r.id == i.id) ≡ true → r ≡ i) rows

pub update-Paired :
    (steps : List StepExecution) (i : WorkflowInstance)
    → is_running i.state ≡ true
    → NoneRunning i.id steps
    → (rows : List WorkflowInstance) → IsCopy rows i
    → Paired (IsSwept steps) rows (update (interrupt i) rows)
unfolding update
update-Paired steps i was nothing [] copy = tt
update-Paired steps i was nothing (r ∷ rows) copy = (
  elim (Bool-cases (r.id == i.id)) [
    | inl same ↦
        rw (same) (
          subst (λ x. IsSwept steps x (interrupt i)) (sym (copy.0 same)) (inr (was, refl, nothing)))
    | inr other ↦ rw (other) (inl refl)
  ],
  update-Paired steps i was nothing rows copy.1,
)

-- An update leaves the rows of the others as they were.
pub update-IsCopy :
    (i j : WorkflowInstance)
    → (j.id == i.id) ≡ false
    → (rows : List WorkflowInstance) → IsCopy rows j
    → IsCopy (update (interrupt i) rows) j
unfolding update
update-IsCopy i j apart [] copy = tt
update-IsCopy i j apart (r ∷ rows) copy = (
  elim (Bool-cases (r.id == i.id)) [
    | inl same ↦ rw (same) (λ e. absurd (ground (arith, e, apart)))
    | inr other ↦ rw (other) copy.0
  ],
  update-IsCopy i j apart rows copy.1,
)

-- The five ways through the body of the loop.
abbrev IsOutcome : Surroundings → WorkflowInstance → Tables → Bool × Tables → Type 0
IsOutcome env i db r =
    ((r.1.steps ≡ db.steps) ⊎ (r.1.steps ≡ (cancel_running env i.id db.steps).1))
    × ((r.1.instances ≡ db.instances)
        ⊎ ((r.1.instances ≡ update (interrupt i) db.instances) × NoneRunning i.id r.1.steps))
    × (((r.0 ≡ false) × (r.1.audit ≡ db.audit))
        ⊎ ((r.0 ≡ true)
            × (r.1.audit ≡ db.audit ++ i.id ∷ [])
            × (r.1.instances ≡ update (interrupt i) db.instances)))

pub recover-IsOutcome :
    (env : Surroundings) (i : WorkflowInstance) (db : Tables)
    → IsOutcome env i db (recover env i db)
unfolding recover
recover-IsOutcome env i db = elim (Bool-cases (env.steps_fail i.id)) [
  | inl raises ↦ rw (raises) (inl refl, inl refl, inl (refl, refl))
  | inr lists ↦ elim (Bool-cases (cancel_running env i.id db.steps).0) [
    | inr stops ↦ rw (lists, stops) (inr refl, inl refl, inl (refl, refl))
    | inl ends ↦
        let nothing = cancel_running-NoneRunning env i.id db.steps ends in
        elim (Bool-cases (env.update_fails i.id)) [
          | inl raises ↦ rw (lists, ends, raises) (inr refl, inl refl, inl (refl, refl))
          | inr writes ↦ elim (Bool-cases (env.append_fails i.id)) [
            | inl raises ↦
                rw (lists, ends, writes, raises) (inr refl, inr (refl, nothing), inl (refl, refl))
            | inr logs ↦
                rw (lists, ends, writes, logs)
                  (inr refl, inr (refl, nothing), inr (refl, refl, refl))
          ]
        ]
  ]
]

-- Two sweeps of an instance are one, where the second starts no step.
pub IsSwept-compose :
    (between after : List StepExecution)
    → ((other : String) → NoneRunning other between → NoneRunning other after)
    → (old mid now : WorkflowInstance) → IsSwept between old mid
    → IsSwept after mid now
    → IsSwept after old now
IsSwept-compose between after f old mid now (inl e) h = subst (λ i. IsSwept after i now) e h
IsSwept-compose between after f old mid now (inr (was, e, nothing)) (inl e') =
    inr (was, e' ∙ e, f old.id nothing)
IsSwept-compose between after f old mid now (inr (was, e, nothing)) (inr (still, e', _)) =
    absurd (clash still (ap (λ i. is_running i.state) e))
