-- ===== src/Auth/Grants/Refs/Laws.antt =====
-- What a reference is that passed the checks.
use intelligent_workflow_app.Prelude.{
  ℕ, zero, suc, ◌≤◌, ◌≡◌, refl, Bool, true, false, [], ◌∷◌, All, length, eqb, some, arith,
  List-cases, Bool-cases, inl, inr, sym, ◌∙◌, ap, subst,
}
use intelligent_workflow_app.Auth.Grants.{Ref}
use intelligent_workflow_app.Auth.Grants.Refs.{
  is_ref_char, match_rest, ref_match, lstrip, rstrip, strip, validate_opaque_ref,
}

-- A token of 1 to 128 characters of the class.
pub record IsToken (r : Ref) : Type 0 where
  pub some_char : 1 ≤ length r
  pub bounded : length r ≤ 128
  pub chars : All (λ c. is_ref_char c ≡ true) r

abbrev ends_in : (ℕ → Bool) → Ref → Bool
ends_in p [] = false
ends_in p (c ∷ []) = p c
ends_in p (c ∷ d ∷ cs) = ends_in p (d ∷ cs)

match_rest-chars :
    (n : ℕ) (r : Ref)
    → match_rest n r ≡ true
    → ends_in (λ c. eqb c 10) r ≡ false
    → (length r ≤ n) × All (λ c. is_ref_char c ≡ true) r
unfolding match_rest
match_rest-chars n [] m e = (omega arith, tt)
match_rest-chars zero (c ∷ []) m e = absurd (ground arith)
match_rest-chars zero (c ∷ d ∷ cs) m e = absurd (ground arith)
match_rest-chars (suc n) (c ∷ []) m e = (omega arith, ground arith)
match_rest-chars (suc n) (c ∷ d ∷ cs) m e =
    let (l, all) = match_rest-chars n (d ∷ cs) (ground arith) e in
    (omega arith, (ground arith, all))

module _ (is_space : ℕ → Bool) where
  rstrip-ends : (r : Ref) → ends_in is_space (rstrip is_space r) ≡ false
  unfolding rstrip
  rstrip-ends [] = refl
  rstrip-ends (c ∷ cs) = elim (List-cases (rstrip is_space cs)) [
    | inl empty ↦ elim (Bool-cases (is_space c)) [
      | inl space ↦ rw (empty, rstrip) (rw space refl)
      | inr solid ↦ rw (empty, rstrip) (rw solid solid)
    ]
    | inr (d, ds, e) ↦ rw (e, rstrip) (ap (ends_in is_space) (sym e) ∙ rstrip-ends cs)
  ]

  no_newline :
      (r : Ref)
      → is_space 10 ≡ true
      → ends_in is_space r ≡ false
      → ends_in (λ c. eqb c 10) r ≡ false
  no_newline [] s h = refl
  no_newline (c ∷ []) s h = ground (arith, h, s)
  no_newline (c ∷ d ∷ cs) s h = no_newline (d ∷ cs) s h

  ref_match-IsToken : (r : Ref) → ref_match r ≡ true → ends_in (λ c. eqb c 10) r ≡ false → IsToken r
  unfolding ref_match
  ref_match-IsToken [] m e = absurd (ground arith)
  ref_match-IsToken (c ∷ []) m e = record {
    some_char = omega arith;
    bounded = omega arith;
    chars = (ground arith, tt);
  }
  ref_match-IsToken (c ∷ d ∷ cs) m e =
      let (l, all) = match_rest-chars 127 (d ∷ cs) (ground arith) e in
      record { some_char = omega arith; bounded = omega arith; chars = (ground arith, all) }

  -- A reference that passes the check is a token: 1 to 128 characters, all of the class, so that no
  -- white space or prose gets through, where a newline counts as white space.
  pub validate_opaque_ref-IsToken :
      (r s : Ref) → is_space 10 ≡ true → validate_opaque_ref is_space r ≡ some s → IsToken s
  unfolding validate_opaque_ref
  validate_opaque_ref-IsToken r s n h =
      let t = strip is_space r in
      elim (Bool-cases (ref_match t)) [
        | inr bad ↦ absurd (ground (arith, h, bad))
        | inl good ↦
            let is : t ≡ s = ground (arith, h, good) in
            subst IsToken is
              (ref_match-IsToken t good (no_newline t n (rstrip-ends (lstrip is_space r))))
      ]
