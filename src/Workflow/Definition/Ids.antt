-- ===== src/Workflow/Definition/Ids.antt =====
-- workflow/definition.py: `_SAFE_ID` and `_safe_id`, over the code points of an id.
pub mod Laws
use intelligent_workflow_app.Prelude.{
  ℕ, zero, suc, Bool, true, false, not, ◌&&◌, ◌||◌, List, [], ◌∷◌, leb, eqb, if◌then◌else◌,
}

-- `[A-Za-z0-9]`
unfoldable pub is_alphanumeric : ℕ → Bool
is_alphanumeric c =
    (leb b'A' c && leb c b'Z') || (leb b'a' c && leb c b'z') || (leb b'0' c && leb c b'9')

-- `[A-Za-z0-9._-]`
unfoldable pub is_id_char : ℕ → Bool
unfolding is_alphanumeric
is_id_char c = is_alphanumeric c || eqb c b'.' || eqb c b'_' || eqb c b'-'

-- `[A-Za-z0-9._-]{0,n}$`. In Python `$` also matches before a newline that ends the text.
unfoldable pub match_rest : ℕ → List ℕ → Bool
unfolding is_id_char
match_rest n [] = true
match_rest zero (c ∷ []) = eqb c 10
match_rest zero (c ∷ cs) = false
match_rest (suc n) (c ∷ []) = is_id_char c || eqb c 10
match_rest (suc n) (c ∷ cs) = is_id_char c && match_rest n cs

-- `_SAFE_ID.match(value)`
unfoldable pub safe_id_match : List ℕ → Bool
unfolding match_rest
safe_id_match [] = false
safe_id_match (c ∷ cs) = is_alphanumeric c && match_rest 127 cs

-- `".." in value`
unfoldable pub has_dot_dot : List ℕ → Bool
has_dot_dot [] = false
has_dot_dot (c ∷ []) = false
has_dot_dot (c ∷ d ∷ cs) = (eqb c b'.' && eqb d b'.') || has_dot_dot (d ∷ cs)

-- `_safe_id`: whether the id is accepted.
unfoldable pub safe_id : List ℕ → Bool
unfolding safe_id_match has_dot_dot
safe_id value = if not (safe_id_match value) || has_dot_dot value then false else true
