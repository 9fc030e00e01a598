-- ===== src/Recovery/Undisturbed.antt =====
-- recovery.py: a sweep that nothing disturbs leaves no instance RUNNING.
use intelligent_workflow_app.Prelude.{
  ◌≡◌, refl, sym, subst, ap, ◌∙◌, ℕ, suc, ◌≤◌, inl, inr, String, true, false, List, [], ◌∷◌, map,
  keep, take, take_all, length, count_if, All, ◌==◌, string_eq, eq_self, contains, arith,
  Bool-cases, clash,
}
use intelligent_workflow_app.Engine.Rows.{WorkflowInstance, StepExecution, is_running}
use intelligent_workflow_app.Recovery.{
  Tables, Surroundings, cancel_running, interrupt, update, recover, recover_all, insert_by_age,
  sort_by_age, list_running, sweep_interrupted_instances,
}

-- Nothing raises during the sweep.
abbrev IsUndisturbed : Surroundings → Type 0
IsUndisturbed env =
    (env.list_fails ≡ false)
    × ((sid : String) → env.steps_fail sid ≡ false)
    × ((sid : String) → env.step_update_fails sid ≡ false)
    × ((sid : String) → env.update_fails sid ≡ false)
    × ((sid : String) → env.append_fails sid ≡ false)

-- Every RUNNING row waits to be swept.
abbrev IsAwaited : List WorkflowInstance → List WorkflowInstance → Type 0
IsAwaited stranded rows =
    All (λ r. is_running r.state ≡ true → contains (map (λ i. i.id) stranded) r.id ≡ true) rows

update-IsAwaited :
    (i : WorkflowInstance) (stranded rows : List WorkflowInstance)
    → IsAwaited (i ∷ stranded) rows
    → IsAwaited stranded (update (interrupt i) rows)
unfolding update
update-IsAwaited i stranded [] h = tt
update-IsAwaited i stranded (r ∷ rows) h = (
  elim (Bool-cases (r.id == i.id)) [
    | inl same ↦ rw (same) (λ was. absurd (clash was refl))
    | inr other ↦ rw (other) (λ was. ground (arith, h.0 was, other))
  ],
  update-IsAwaited i stranded rows h.1,
)

none-IsAwaited :
    (rows : List WorkflowInstance) → IsAwaited [] rows → All (λ r. is_running r.state ≡ false) rows
none-IsAwaited [] h = tt
none-IsAwaited (r ∷ rows) h = (
  elim (Bool-cases (is_running r.state)) [
    | inl was ↦ absurd (clash (h.0 was) refl)
    | inr idle ↦ idle
  ],
  none-IsAwaited rows h.1,
)

module _ (env : Surroundings) (calm : IsUndisturbed env) where
  ends :
      (instance_id : String) (steps : List StepExecution)
      → (cancel_running env instance_id steps).0 ≡ true
  unfolding cancel_running
  ends instance_id [] = refl
  ends instance_id (s ∷ steps) = ground (arith, ends instance_id steps, calm.2 s.id)

  recovered_rows :
      (i : WorkflowInstance) (db : Tables)
      → (recover env i db).1.instances ≡ update (interrupt i) db.instances
  unfolding recover
  recovered_rows i db = rw (calm.1 i.id, ends i.id db.steps, calm.3 i.id, calm.4 i.id) refl

  recover_all_rows :
      (stranded : List WorkflowInstance) (db : Tables)
      → IsAwaited stranded db.instances
      → All (λ r. is_running r.state ≡ false) (recover_all env stranded db).0.instances
  unfolding recover_all
  recover_all_rows [] db h = none-IsAwaited db.instances h
  recover_all_rows (i ∷ stranded) db h = recover_all_rows stranded (recover env i db).1 (
      subst (IsAwaited stranded) (sym (recovered_rows i db))
        (update-IsAwaited i stranded db.instances h))

insert_by_age-contains :
    (i : WorkflowInstance) (items : List WorkflowInstance) (a : String)
    → contains (map (λ j. j.id) (insert_by_age i items)) a
      ≡ contains (map (λ j. j.id) (i ∷ items)) a
unfolding insert_by_age
insert_by_age-contains i [] a = refl
insert_by_age-contains i (j ∷ items) a = ground (arith, insert_by_age-contains i items a)

sort_by_age-contains :
    (items : List WorkflowInstance) (a : String)
    → contains (map (λ j. j.id) (sort_by_age items)) a ≡ contains (map (λ j. j.id) items) a
unfolding sort_by_age
sort_by_age-contains [] a = refl
sort_by_age-contains (i ∷ items) a =
    ground (arith, insert_by_age-contains i (sort_by_age items) a, sort_by_age-contains items a)

insert_by_age-length :
    (i : WorkflowInstance) (items : List WorkflowInstance)
    → length (insert_by_age i items) ≡ suc (length items)
unfolding insert_by_age
insert_by_age-length i [] = refl
insert_by_age-length i (j ∷ items) = ground (arith, insert_by_age-length i items)

sort_by_age-length : (items : List WorkflowInstance) → length (sort_by_age items) ≡ length items
unfolding sort_by_age
sort_by_age-length [] = refl
sort_by_age-length (i ∷ items) =
    omega (arith, insert_by_age-length i (sort_by_age items), sort_by_age-length items)

keep_count :
    (items : List WorkflowInstance)
    → length (keep (λ i. is_running i.state) items) ≡ count_if (λ i. is_running i.state) items
keep_count [] = refl
keep_count (i ∷ items) = ground (arith, keep_count items)

-- All RUNNING rows wait in a list that has them.
keep-IsAwaited :
    (whole rows : List WorkflowInstance)
    → ((a : String)
        → contains (map (λ j. j.id) (keep (λ i. is_running i.state) rows)) a ≡ true
        → contains (map (λ j. j.id) whole) a ≡ true)
    → IsAwaited whole rows
keep-IsAwaited whole [] f = tt
keep-IsAwaited whole (r ∷ rows) f = (
  λ was. f r.id (rw (was) (ground (arith, eq_self r.id))),
  keep-IsAwaited whole rows (λ a there. f a (ground (arith, there))),
)

list_running-IsAwaited :
    (limit : ℕ) (rows : List WorkflowInstance)
    → count_if (λ i. is_running i.state) rows ≤ limit
    → IsAwaited (list_running limit rows) rows
unfolding list_running
list_running-IsAwaited limit rows room =
    let kept = keep (λ i. is_running i.state) rows in
    let whole =
      take_all limit (sort_by_age kept)
        (omega (arith, room, sort_by_age-length kept, keep_count rows)) in
    keep-IsAwaited (take limit (sort_by_age kept)) rows (λ a there.
      ap (λ l. contains (map (λ j. j.id) l) a) whole ∙ sort_by_age-contains kept a ∙ there)

-- Where nothing raises, the sweep is not turned off, and there are no more RUNNING instances than it
-- takes at once, no instance is RUNNING after it.
pub sweep_interrupted_instances-All :
    (env : Surroundings) (setting : String) (limit : ℕ) (db : Tables)
    → IsUndisturbed env
    → contains ("1" ∷ "true" ∷ "yes" ∷ []) setting ≡ false
    → count_if (λ i. is_running i.state) db.instances ≤ limit
    → All
        (λ r. is_running r.state ≡ false)
        (sweep_interrupted_instances env setting limit db).0.instances
unfolding sweep_interrupted_instances
sweep_interrupted_instances-All env setting limit db calm on room =
    simp (on, calm.0)
      (recover_all_rows env calm (list_running limit db.instances) db
        (list_running-IsAwaited limit db.instances room))
