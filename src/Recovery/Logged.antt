-- ===== src/Recovery/Logged.antt =====
-- recovery.py: which instances a sweep writes to the audit log.
use mathlib.Core.List.{append_assoc}
use intelligent_workflow_app.Prelude.{
  ◌≡◌, refl, sym, subst, ap, ◌∙◌, ℕ, ◌+◌, ◌≤◌, inl, inr, String, Bool, true, not, ◌&&◌, List, [],
  ◌∷◌, ◌++◌, any, length, length-append, count, count-append, Paired, ◌==◌, string_eq, eq_self,
  if◌then◌else◌, arith, Bool-cases, clash,
}
use intelligent_workflow_app.Engine.Rows.{WorkflowInstance, StepExecution, is_running}
use intelligent_workflow_app.Recovery.{interrupt, update}
use intelligent_workflow_app.Recovery.Instances.{IsSwept, IsCopy}

-- The row of the instance `a`, RUNNING before and no longer.
abbrev is_mark : String → WorkflowInstance → WorkflowInstance → Bool
is_mark a old now = old.id == a && (is_running old.state && not (is_running now.state))

-- The rows with the id `a` that were RUNNING and no longer are.
abbrev pub marks : String → List WorkflowInstance → List WorkflowInstance → ℕ
marks a (old ∷ olds) (now ∷ nows) = (if is_mark a old now then 1 else 0) + marks a olds nows
marks a _ _ = 0

-- The audit log grows by `n` entries, and by as many of one instance as rows of it were swept.
abbrev pub IsLogged :
    List String → List WorkflowInstance → List String → List WorkflowInstance → ℕ → Type 0
IsLogged audit olds audit' nows n =
    (ids : List String) × (audit' ≡ audit ++ ids)
    × (length ids ≡ n)
    × ((a : String) → count a ids ≤ marks a olds nows)

module _ (between after : List StepExecution) where
  mark-compose :
      (a : String) (old mid now : WorkflowInstance)
      → IsSwept between old mid
      → IsSwept after mid now
      → (if is_mark a old mid then 1 else 0) + (if is_mark a mid now then 1 else 0)
        ≤ (if is_mark a old now then 1 else 0)
  mark-compose a old mid now (inl e) h =
      subst
        (λ m.
          (if is_mark a old m then 1 else 0) + (if is_mark a m now then 1 else 0)
          ≤ (if is_mark a old now then 1 else 0))
        (sym e) (ground arith)
  mark-compose a old mid now (inr (was, e, nothing)) (inl e') =
      subst
        (λ n.
          (if is_mark a old mid then 1 else 0) + (if is_mark a mid n then 1 else 0)
          ≤ (if is_mark a old n then 1 else 0))
        (sym e') (ground arith)
  mark-compose a old mid now (inr (was, e, nothing)) (inr (still, e', _)) =
      absurd (clash still (ap (λ i. is_running i.state) e))

  pub marks-compose :
      (a : String) (olds mids nows : List WorkflowInstance)
      → Paired (IsSwept between) olds mids
      → Paired (IsSwept after) mids nows
      → marks a olds mids + marks a mids nows ≤ marks a olds nows
  marks-compose a [] [] [] h g = omega arith
  marks-compose a [] [] (_ ∷ _) h g = absurd g
  marks-compose a [] (_ ∷ _) nows h g = absurd h
  marks-compose a (_ ∷ _) [] nows h g = absurd h
  marks-compose a (_ ∷ _) (_ ∷ _) [] h g = absurd g
  marks-compose a (old ∷ olds) (mid ∷ mids) (now ∷ nows) h g =
      omega (arith, mark-compose a old mid now h.0 g.0, marks-compose a olds mids nows h.1 g.1)

pub update-marks :
    (i : WorkflowInstance) (rows : List WorkflowInstance)
    → is_running i.state ≡ true
    → IsCopy rows i
    → any (λ r. r.id == i.id) rows ≡ true
    → 1 ≤ marks i.id rows (update (interrupt i) rows)
unfolding update
update-marks i [] was copy there = absurd (ground arith)
update-marks i (r ∷ rows) was copy there = elim (Bool-cases (r.id == i.id)) [
  | inl same ↦
      rw (same)
        (ground (arith, same, was, ap (λ (x : WorkflowInstance). is_running x.state) (copy.0 same)))
  | inr other ↦ rw (other) (ground (arith, other, update-marks i rows was copy.1))
]

pub one_mark :
    (i : WorkflowInstance) (rows : List WorkflowInstance)
    → is_running i.state ≡ true
    → IsCopy rows i
    → any (λ r. r.id == i.id) rows ≡ true
    → (a : String) → count a (i.id ∷ []) ≤ marks a rows (update (interrupt i) rows)
one_mark i rows was copy there a = elim (Bool-cases (a == i.id)) [
  | inr other ↦ rw (other) (omega arith)
  | inl same ↦
      let is : a ≡ i.id = ground (arith, same) in
      subst (λ x. count x (i.id ∷ []) ≤ marks x rows (update (interrupt i) rows)) (sym is)
        (ground (arith, eq_self i.id, update-marks i rows was copy there))
]

-- An update leaves every id.
pub update-has :
    (i : WorkflowInstance) (a : String) (rows : List WorkflowInstance)
    → any (λ r. r.id == a) (update (interrupt i) rows) ≡ any (λ r. r.id == a) rows
unfolding update
update-has i a [] = refl
update-has i a (r ∷ rows) = ground (arith, update-has i a rows)

pub IsLogged-compose :
    (between after : List StepExecution) (audit audit' audit'' : List String)
    (olds mids nows : List WorkflowInstance) (n m : ℕ)
    → Paired (IsSwept between) olds mids
    → Paired (IsSwept after) mids nows
    → IsLogged audit olds audit' mids n
    → IsLogged audit' mids audit'' nows m
    → IsLogged audit olds audit'' nows (n + m)
IsLogged-compose between after audit audit' audit'' olds mids nows n m h g (ids, e, l, c)
      (ids', e', l', c') =
    (
      ids ++ ids',
      e' ∙ ap (λ x. x ++ ids') e ∙ append_assoc audit ids ids',
      omega (arith, l, l', length-append ids ids'),
      λ a. omega (
        arith,
        c a,
        c' a,
        count-append a ids ids',
        marks-compose between after a olds mids nows h g,
      ),
    )
