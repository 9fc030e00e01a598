-- ===== src/Engine/Fork/Latest.antt =====
-- engine/executor.py: the loop of `fork` over the source's steps keeps the latest completed attempts.
use intelligent_workflow_app.Prelude.{
  ◌≡◌, refl, sym, subst, ◌≤◌, ◌⊎◌, inl, inr, String, Bool, true, false, ◌&&◌, Option, none, some,
  List, [], ◌∷◌, ◌++◌, foldl, All, Some, contains, ltb, ◌==◌, string_eq, if◌then◌else◌, arith,
  Bool-cases, Option-cases, clash,
}
use mathlib.Core.List.{append-nil, append_assoc}
use intelligent_workflow_app.Engine.Rows.{StepExecution}
use intelligent_workflow_app.Engine.Fork.{
  is_usable, put_attempt, attempt_of, consider, source_attempts,
}

-- A completed row of a step that has an output.
abbrev pub is_candidate : String → StepExecution → Bool
is_candidate p r = (r.step_id == p) && is_usable r

-- The latest of the completed attempts of a step among some rows, or none where there is none.
abbrev pub IsLatest : String → List StepExecution → Option StepExecution → Type 0
IsLatest p rows none = All (λ r. is_candidate p r ≡ false) rows
IsLatest p rows (some best) =
    (is_candidate p best ≡ true)
    × Some (λ r. r ≡ best) rows
    × All (λ r. is_candidate p r ≡ true → r.attempt ≤ best.attempt) rows

attempt_of-put_attempt :
    (p : String) (s : StepExecution) (rows : List StepExecution)
    → attempt_of p (put_attempt s rows) ≡ (if s.step_id == p then some s else attempt_of p rows)
unfolding attempt_of put_attempt
attempt_of-put_attempt p s [] = refl
attempt_of-put_attempt p s (r ∷ rows) = ground (arith, attempt_of-put_attempt p s rows)

-- The better of a row and the one that was kept.
abbrev better : String → StepExecution → Option StepExecution → Option StepExecution
better p s cur =
    if is_candidate p s
    then elim cur [ none ↦ some s | some c ↦ if ltb c.attempt s.attempt then some s else some c ]
    else cur

attempt_of-consider :
    (preserved : List String) (p : String)
    → contains preserved p ≡ true
    → (chosen : List StepExecution) (s : StepExecution)
    → attempt_of p (consider preserved chosen s) ≡ better p s (attempt_of p chosen)
unfolding consider
attempt_of-consider preserved p kept chosen s = elim (Option-cases (attempt_of s.step_id chosen)) [
  | inl e ↦ rw (e) (ground (arith, attempt_of-put_attempt p s chosen))
  | inr (c, e) ↦ rw (e) (ground (arith, attempt_of-put_attempt p s chosen))
]

All-snoc :
    {A : Type 0} (P : A → Type 0) (xs : List A) (x : A) → All P xs → P x → All P (xs ++ x ∷ [])
All-snoc P [] x h p = (p, tt)
All-snoc P (y ∷ xs) x h p = (h.0, All-snoc P xs x h.1 p)

Some-snoc :
    {A : Type 0} (P : A → Type 0) (xs : List A) (x : A) → (Some P xs ⊎ P x) → Some P (xs ++ x ∷ [])
Some-snoc P [] x (inl h) = elim h [ ]
Some-snoc P [] x (inr p) = inl p
Some-snoc P (y ∷ xs) x (inl (inl p)) = inl p
Some-snoc P (y ∷ xs) x (inl (inr h)) = inr (Some-snoc P xs x (inl h))
Some-snoc P (y ∷ xs) x (inr p) = inr (Some-snoc P xs x (inr p))

All-weaken :
    {A : Type 0} (P Q : A → Type 0) (xs : List A) → ((a : A) → P a → Q a) → All P xs → All Q xs
All-weaken P Q [] f h = tt
All-weaken P Q (x ∷ xs) f h = (f x h.0, All-weaken P Q xs f h.1)

-- A row that is no candidate changes nothing.
passed-IsLatest :
    (p : String) (seen : List StepExecution) (s : StepExecution) (cur : Option StepExecution)
    → is_candidate p s ≡ false
    → IsLatest p seen cur
    → IsLatest p (seen ++ s ∷ []) cur
passed-IsLatest p seen s none bars h = All-snoc (λ r. is_candidate p r ≡ false) seen s h bars
passed-IsLatest p seen s (some c) bars h = (
  h.0,
  Some-snoc (λ r. r ≡ c) seen s (inl h.1),
  All-snoc (λ r. is_candidate p r ≡ true → r.attempt ≤ c.attempt) seen s h.2
      (λ fits. absurd (clash fits bars)),
)

-- A candidate that is later than all is kept.
taken-IsLatest :
    (p : String) (seen : List StepExecution) (s : StepExecution)
    → is_candidate p s ≡ true
    → All (λ r. is_candidate p r ≡ true → r.attempt ≤ s.attempt) seen
    → IsLatest p (seen ++ s ∷ []) (some s)
taken-IsLatest p seen s fits h = (
  fits,
  Some-snoc (λ r. r ≡ s) seen s (inr refl),
  All-snoc (λ r. is_candidate p r ≡ true → r.attempt ≤ s.attempt) seen s h (λ _. omega arith),
)

candidate-IsLatest :
    (p : String) (seen : List StepExecution) (s : StepExecution) (cur : Option StepExecution)
    → is_candidate p s ≡ true
    → IsLatest p seen cur
    → IsLatest p (seen ++ s ∷ []) (better p s cur)
candidate-IsLatest p seen s none fits h = rw (fits) (
    taken-IsLatest p seen s fits (
      All-weaken (λ r. is_candidate p r ≡ false)
        (λ r. is_candidate p r ≡ true → r.attempt ≤ s.attempt) seen
        (λ r bars y. absurd (clash y bars)) h))
candidate-IsLatest p seen s (some c) fits h = elim (Bool-cases (ltb c.attempt s.attempt)) [
  | inl later ↦
      rw (fits, later)
        (taken-IsLatest p seen s fits (
          All-weaken (λ r. is_candidate p r ≡ true → r.attempt ≤ c.attempt)
            (λ r. is_candidate p r ≡ true → r.attempt ≤ s.attempt) seen
            (λ r f y. ground (arith, f y, later)) h.2))
  | inr sooner ↦
      rw (fits, sooner)
        (
          h.0,
          Some-snoc (λ r. r ≡ c) seen s (inl h.1),
          All-snoc (λ r. is_candidate p r ≡ true → r.attempt ≤ c.attempt) seen s h.2
              (λ _. ground (arith, sooner)),
        )
]

better-IsLatest :
    (p : String) (seen : List StepExecution) (s : StepExecution) (cur : Option StepExecution)
    → IsLatest p seen cur
    → IsLatest p (seen ++ s ∷ []) (better p s cur)
better-IsLatest p seen s cur h = elim (Bool-cases (is_candidate p s)) [
  | inl fits ↦ candidate-IsLatest p seen s cur fits h
  | inr bars ↦ rw (bars) (passed-IsLatest p seen s cur bars h)
]

fold-IsLatest :
    (preserved : List String) (p : String)
    → contains preserved p ≡ true
    → (seen rows chosen : List StepExecution) → IsLatest p seen (attempt_of p chosen)
    → IsLatest p (seen ++ rows) (attempt_of p (foldl (consider preserved) chosen rows))
fold-IsLatest preserved p kept seen [] chosen h =
    subst (λ l. IsLatest p l (attempt_of p chosen)) (sym (append-nil seen)) h
fold-IsLatest preserved p kept seen (s ∷ rows) chosen h =
    let next =
      subst (IsLatest p (seen ++ s ∷ [])) (sym (attempt_of-consider preserved p kept chosen s))
        (better-IsLatest p seen s (attempt_of p chosen) h) in
    subst
      (λ l.
        IsLatest p l (attempt_of p (foldl (consider preserved) (consider preserved chosen s) rows)))
      (append_assoc seen (s ∷ []) rows)
      (fold-IsLatest preserved p kept (seen ++ s ∷ []) rows (consider preserved chosen s) next)

pub source_attempts-IsLatest :
    (preserved : List String) (p : String)
    → contains preserved p ≡ true
    → (rows : List StepExecution) → IsLatest p rows (attempt_of p (source_attempts preserved rows))
unfolding source_attempts attempt_of
source_attempts-IsLatest preserved p kept rows = fold-IsLatest preserved p kept [] rows [] tt
