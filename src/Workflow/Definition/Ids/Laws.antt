-- ===== src/Workflow/Definition/Ids/Laws.antt =====
-- What an id is that passed the check: it can stand as one segment of a path.
use intelligent_workflow_app.Prelude.{
  ℕ, zero, suc, ◌≤◌, ◌≡◌, refl, Bool, true, false, List, [], ◌∷◌, any, length, eqb, arith,
}
use intelligent_workflow_app.Workflow.Definition.Ids.{
  is_alphanumeric, match_rest, has_dot_dot, safe_id,
}

abbrev has_slash : List ℕ → Bool
has_slash v = any (λ c. eqb c b'/') v

abbrev starts_alphanumeric : List ℕ → Bool
starts_alphanumeric [] = false
starts_alphanumeric (c ∷ cs) = is_alphanumeric c

-- One segment of a path: no separator, no parent directory, and not hidden.
pub record IsSegment (v : List ℕ) : Type 0 where
  pub bounded : length v ≤ 129
  pub no_slash : has_slash v ≡ false
  pub no_parent : has_dot_dot v ≡ false
  pub visible : starts_alphanumeric v ≡ true

match_rest-no_slash :
    (n : ℕ) (v : List ℕ) → match_rest n v ≡ true → (length v ≤ suc n) × (has_slash v ≡ false)
unfolding match_rest
match_rest-no_slash n [] m = (omega arith, refl)
match_rest-no_slash zero (c ∷ []) m = (omega arith, ground arith)
match_rest-no_slash zero (c ∷ d ∷ cs) m = absurd (ground arith)
match_rest-no_slash (suc n) (c ∷ []) m = (omega arith, ground arith)
match_rest-no_slash (suc n) (c ∷ d ∷ cs) m =
    let (l, s) = match_rest-no_slash n (d ∷ cs) (ground arith) in (omega arith, ground arith)

-- An id that is accepted has at most 129 characters, no `/` and no `..`, and it starts with a letter
-- or a digit (so with no dot).
pub safe_id-IsSegment : (v : List ℕ) → safe_id v ≡ true → IsSegment v
unfolding safe_id is_alphanumeric
safe_id-IsSegment [] h = absurd (ground arith)
safe_id-IsSegment (c ∷ cs) h =
    let (l, s) = match_rest-no_slash 127 cs (ground arith) in
    record {
      bounded = omega arith;
      no_slash = ground arith;
      no_parent = ground arith;
      visible = ground arith;
    }
