-- ===== src/Auth/Grants/Refs.antt =====
-- The opaque references: `_APPROVAL_REF_RE`, `_validate_opaque_ref` and `_validate_approval_ref`.
pub mod Laws
use intelligent_workflow_app.Prelude.{
  ℕ, zero, suc, Bool, true, false, not, ◌&&◌, ◌||◌, [], ◌∷◌, leb, eqb, Option, none, some,
  if◌then◌else◌,
}
use intelligent_workflow_app.Auth.Grants.{Ref}

-- `[A-Za-z0-9._:/-]`
unfoldable pub is_ref_char : ℕ → Bool
is_ref_char c =
    (leb b'A' c && leb c b'Z')
    || (leb b'a' c && leb c b'z')
    || (leb b'0' c && leb c b'9')
    || eqb c b'.'
    || eqb c b'_'
    || eqb c b':'
    || eqb c b'/'
    || eqb c b'-'

-- `[A-Za-z0-9._:/-]{0,n}$`. In Python `$` also matches before a newline that ends the text.
unfoldable pub match_rest : ℕ → Ref → Bool
unfolding is_ref_char
match_rest n [] = true
match_rest zero (c ∷ []) = eqb c 10
match_rest zero (c ∷ d ∷ cs) = false
match_rest (suc n) (c ∷ []) = is_ref_char c || eqb c 10
match_rest (suc n) (c ∷ d ∷ cs) = is_ref_char c && match_rest n (d ∷ cs)

-- `_APPROVAL_REF_RE.match(ref)`
unfoldable pub ref_match : Ref → Bool
unfolding match_rest
ref_match [] = false
ref_match (c ∷ cs) = is_ref_char c && match_rest 127 cs

module _ (is_space : ℕ → Bool) where
  unfoldable pub lstrip : Ref → Ref
  lstrip [] = []
  lstrip (c ∷ cs) = if is_space c then lstrip cs else c ∷ cs

  -- The text without the white space behind it.
  unfoldable pub rstrip : Ref → Ref
  rstrip [] = []
  rstrip (c ∷ cs) = elim (rstrip cs) [
    | [] ↦ if is_space c then [] else c ∷ []
    | d ∷ ds ↦ c ∷ d ∷ ds
  ]

  unfoldable pub strip : Ref → Ref
  unfolding lstrip rstrip
  strip r = rstrip (lstrip r)

  -- `none` is the `MissingApprovalArtifact` that the code raises.
  unfoldable pub validate_opaque_ref : Ref → Option Ref
  unfolding strip ref_match
  validate_opaque_ref r =
      let stripped = strip r in if not (ref_match stripped) then none else some stripped

  unfoldable pub validate_approval_ref : Option Ref → Option Ref
  unfolding validate_opaque_ref
  validate_approval_ref none = none
  validate_approval_ref (some r) = elim (strip r) [ [] ↦ none | _ ∷ _ ↦ validate_opaque_ref r ]
