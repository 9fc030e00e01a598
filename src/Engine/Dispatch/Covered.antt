-- ===== src/Engine/Dispatch/Covered.antt =====
-- No step is forgotten: each step whose edges are all resolved is started or skipped.
use intelligent_workflow_app.Prelude.{
  ◌≡◌, sym, subst, ℕ, zero, suc, String, Bool, true, false, not, ◌&&◌, ◌||◌, List, [], ◌∷◌, All,
  contains, missing-cons, foldl, string_eq, arith, Bool-cases, inl, inr,
}
use intelligent_workflow_app.Workflow.Definition.{Edge}
use intelligent_workflow_app.Engine.Dag.{resolve_edge, is_ready, all_inactive}
use intelligent_workflow_app.Engine.Dispatch.{
  Dispatch, start_step, skip_step, was_seen, resolve_then, schedule_or_skip, schedule_initial,
  Outcome, completed, paused, killed, failed,
}
use intelligent_workflow_app.Engine.Dispatch.Passes.{is_left, IsPassed}
use intelligent_workflow_app.Engine.Dispatch.Fuel.{IsWithin, none_left}

module _ (ids : List String) (edges : String → List Edge)
    (known : (v : String) → All (λ e. contains ids e.target ≡ true) (edges v)) where
  abbrev Within : ℕ → Dispatch → Type 0
  Within = IsWithin ids edges known

  -- A step whose edges are resolved was seen, or it is one of those that are about to be scheduled;
  -- at most `n` steps are left, and no task was cancelled or left unread.
  pub record IsCovered (n : ℕ) (pending : List String) (d : Dispatch) : Type 0 where
    pub within : Within n d
    pub covered :
        (v : String)
        → contains ids v ≡ true
        → is_ready d.dag v ≡ true
        → (was_seen v d || contains pending v) ≡ true
    pub uncancelled : (d.cancelled ≡ []) × (d.unread ≡ [])

  start-IsCovered :
      (n : ℕ) (pending : List String) (sid : String) (d : Dispatch)
      → IsCovered n (sid ∷ pending) d
      → IsCovered n pending (start_step sid d)
  start-IsCovered n pending sid d h = record {
    within = record {
      left = omega (arith, h.within.left, missing-cons sid d.scheduled ids);
      same_edges = h.within.same_edges;
    };
    covered = λ v m r. ground (arith, h.covered v);
    uncancelled = h.uncancelled;
  }

  skip-IsCovered :
      (n : ℕ) (pending : List String) (sid : String) (d : Dispatch)
      → contains ids sid ≡ true
      → was_seen sid d ≡ false
      → IsCovered (suc n) (sid ∷ pending) d
      → IsCovered n pending (skip_step sid d)
  skip-IsCovered n pending sid d m new h = record {
    within = record {
      left = ground (arith, h.within.left, missing-cons sid d.scheduled ids);
      same_edges = h.within.same_edges;
    };
    covered = λ v k r. ground (arith, h.covered v);
    uncancelled = h.uncancelled;
  }

  seen-IsCovered :
      (n : ℕ) (pending : List String) (sid : String) (d : Dispatch)
      → was_seen sid d ≡ true
      → IsCovered n (sid ∷ pending) d
      → IsCovered n pending d
  seen-IsCovered n pending sid d seen h = record {
    within = h.within;
    covered = λ v m r. ground (arith, h.covered v);
    uncancelled = h.uncancelled;
  }

  waits-IsCovered :
      (n : ℕ) (pending : List String) (sid : String) (d : Dispatch)
      → is_ready d.dag sid ≡ false
      → IsCovered n (sid ∷ pending) d
      → IsCovered n pending d
  waits-IsCovered n pending sid d waits h = record {
    within = h.within;
    covered = λ v m r. ground (arith, h.covered v);
    uncancelled = h.uncancelled;
  }

  resolve-IsCovered :
      (n : ℕ) (pending : List String) (active : Bool) (e : Edge) (d : Dispatch)
      → IsCovered n pending d
      → IsCovered n (e.target ∷ pending) (record d { dag = resolve_edge active e d.dag })
  unfolding resolve_edge
  resolve-IsCovered n pending active e d h = record {
    within = record { left = h.within.left; same_edges = h.within.same_edges };
    covered = λ v m r. ground (arith, h.covered v);
    uncancelled = h.uncancelled;
  }

  more-IsCovered :
      (n : ℕ) (pending : List String) (d : Dispatch)
      → IsCovered n pending d
      → IsCovered (suc n) pending d
  more-IsCovered n pending d h = record {
    within = record { left = omega (arith, h.within.left); same_edges = h.within.same_edges };
    covered = h.covered;
    uncancelled = h.uncancelled;
  }

  -- The scheduling of a step that takes it off the pending ones.
  abbrev Covers : ℕ → (String → Dispatch → Dispatch) → Type 0
  Covers n schedule =
      (pending : List String) (sid : String) (d : Dispatch)
      → contains ids sid ≡ true
      → IsCovered n (sid ∷ pending) d
      → IsCovered n pending (schedule sid d)

  resolve_then-IsCovered :
      (n : ℕ) (schedule : String → Dispatch → Dispatch)
      → Covers n schedule
      → (pending : List String) (active : Bool) (e : Edge) (d : Dispatch)
      → contains ids e.target ≡ true
      → IsCovered n pending d
      → IsCovered n pending (resolve_then schedule active e d)
  unfolding resolve_then
  resolve_then-IsCovered n schedule s pending active e d m h =
      let d' : Dispatch = record d { dag = resolve_edge active e d.dag } in
      let after = resolve-IsCovered n pending active e d h in
      elim (Bool-cases (is_ready d'.dag e.target)) [
        | inl ready ↦ rw ready (s pending e.target d' m after)
        | inr waits ↦ rw waits (waits-IsCovered n pending e.target d' waits after)
      ]

  fold-IsCovered :
      (n : ℕ) (schedule : String → Dispatch → Dispatch)
      → Covers n schedule
      → (pending : List String) (es : List Edge) (d : Dispatch)
      → All (λ e. contains ids e.target ≡ true) es
      → IsCovered n pending d
      → IsCovered n pending (foldl (λ x e. resolve_then schedule false e x) d es)
  fold-IsCovered n schedule s pending [] d a h = h
  fold-IsCovered n schedule s pending (e ∷ es) d a h =
      fold-IsCovered n schedule s pending es _ a.1
        (resolve_then-IsCovered n schedule s pending false e d a.0 h)

  known_from :
      (n : ℕ) (sid : String) (d : Dispatch)
      → Within n d
      → All (λ e. contains ids e.target ≡ true) (d.dag.edges_by_source sid)
  known_from n sid d w =
      subst (λ (f : String → List Edge). All (λ e. contains ids e.target ≡ true) (f sid))
        (sym w.same_edges) (known sid)

  schedule-IsCovered : (n : ℕ) → Covers n (schedule_or_skip n)
  unfolding schedule_or_skip
  schedule-IsCovered zero pending sid d m h =
      let gone = none_left ids edges known d.scheduled sid m h.within.left in
      seen-IsCovered zero pending sid d (ground arith) h
  schedule-IsCovered (suc n) pending sid d m h = elim (Bool-cases (was_seen sid d)) [
    | inl seen ↦ rw seen (seen-IsCovered (suc n) pending sid d seen h)
    | inr new ↦ elim (Bool-cases (all_inactive d.dag sid)) [
      | inr go ↦ rw (new, go) (start-IsCovered (suc n) pending sid d h)
      | inl inactive ↦
          rw (new, inactive)
            (more-IsCovered n pending _ (
              fold-IsCovered n (schedule_or_skip n) (schedule-IsCovered n) pending
                (d.dag.edges_by_source sid) (skip_step sid d) (known_from (suc n) sid d h.within)
                (skip-IsCovered n pending sid d m new h)))
    ]
  ]

  pub schedule_initial-IsCovered :
      (n : ℕ) (sids : List String) (d : Dispatch)
      → All (λ v. contains ids v ≡ true) sids
      → IsCovered n sids d
      → IsCovered n [] (schedule_initial n sids d)
  unfolding schedule_initial
  schedule_initial-IsCovered n [] d a h = h
  schedule_initial-IsCovered n (sid ∷ sids) d a h =
      elim (Bool-cases (is_ready d.dag sid && not (contains d.scheduled sid))) [
        | inl new ↦
            rw new (schedule_initial-IsCovered n sids _ a.1 (schedule-IsCovered n sids sid d a.0 h))
        | inr other ↦ rw other (
            schedule_initial-IsCovered n sids d a.1 (elim (Bool-cases (is_ready d.dag sid)) [
              | inl ready ↦ seen-IsCovered n sids sid d (ground arith) h
              | inr waits ↦ waits-IsCovered n sids sid d waits h
            ]))
      ]

  -- Of a run that completed, and of one that was left.
  abbrev pub CoveredAtEnd : ℕ → Outcome → Dispatch → Type 0
  CoveredAtEnd n completed d = IsCovered n [] d
  CoveredAtEnd n _ d = Unit

  left-CoveredAtEnd : (n : ℕ) (o : Outcome) (d : Dispatch) → is_left o ≡ true → CoveredAtEnd n o d
  left-CoveredAtEnd n completed d l = absurd (ground arith)
  left-CoveredAtEnd n paused d l = tt
  left-CoveredAtEnd n killed d l = tt
  left-CoveredAtEnd n failed d l = tt

  pub IsCovered-IsPassed :
      (n : ℕ)
      → IsPassed n
          (λ es d. All (λ e. contains ids e.target ≡ true) es × IsCovered n [] d)
          (CoveredAtEnd n)
  IsCovered-IsPassed n = record {
    takes = λ sid d _ h. (
      known_from n sid d h.1.within,
      record {
        within = record { left = h.1.within.left; same_edges = h.1.within.same_edges };
        covered = h.1.covered;
        uncancelled = h.1.uncancelled;
      },
    );
    resolves = λ active e es d h. (
      h.0.1,
      resolve_then-IsCovered n (schedule_or_skip n) (schedule-IsCovered n) [] active e d h.0.0 h.1,
    );
    observes = λ finished es d h. (
      h.0,
      record {
        within = record { left = h.1.within.left; same_edges = h.1.within.same_edges };
        covered = h.1.covered;
        uncancelled = h.1.uncancelled;
      },
    );
    audits = λ action es d h. (
      h.0,
      record {
        within = record { left = h.1.within.left; same_edges = h.1.within.same_edges };
        covered = h.1.covered;
        uncancelled = h.1.uncancelled;
      },
    );
    leaves = λ o es d l h. left-CoveredAtEnd n o _ l;
    completes = λ d _ h. h.1;
  }
