-- ===== src/Trace/Schemas/Leaves.antt =====
-- trace_projection.py: the validators of the leaves, with what they ask of a float and of white space
-- as parameters. An int that is too large for a float, at which `_amount` raises, is refused here.
use intelligent_workflow_app.Prelude.{
  ℕ, String, Bool, false, not, ◌&&◌, ◌||◌, List, [], ◌∷◌, any, length, leb, eqb, code_points,
}
use intelligent_workflow_app.Prelude.Int.{pos, negsuc}
use intelligent_workflow_app.Value.{Value, num, real, text}
use intelligent_workflow_app.Trace.Markers.{is_generated_marker}
use intelligent_workflow_app.Trace.Tokens.{
  match_class, opaque_id, short_token, is_boolean, is_count,
}
use intelligent_workflow_app.Trace.Schema.{Node, leaf}

-- `0 <= v <= 10**9` and `-1 <= v <= 100` of a float, and `str.isspace` of a character.
pub record Validators : Type 0 where
  pub is_amount : String → Bool
  pub is_score : String → Bool
  pub is_space : ℕ → Bool

-- `_amount`
unfoldable pub amount : Validators → Value → Bool
amount vs (num (pos n)) = leb n 1_000_000_000
amount vs (real s) = vs.is_amount s
amount vs _ = false

-- `_score`
unfoldable pub score : Validators → Value → Bool
score vs (num (pos n)) = leb n 100
score vs (num (negsuc n)) = eqb n 0
score vs (real s) = vs.is_score s
score vs _ = false

abbrev is_digit : ℕ → Bool
is_digit c = leb b'0' c && leb c b'9'

-- `[0-9:.+Z-]`
abbrev pub is_clock_char : ℕ → Bool
is_clock_char c = is_digit c || eqb c b':' || eqb c b'.' || eqb c b'+' || eqb c b'Z' || eqb c b'-'

-- One character of each class, and then the rest of the text.
unfoldable pub match_each : List (ℕ → Bool) → (List ℕ → Bool) → List ℕ → Bool
match_each [] rest xs = rest xs
match_each (c ∷ cs) rest [] = false
match_each (c ∷ cs) rest (x ∷ xs) = c x && match_each cs rest xs

-- `_TS_RE.match`
unfoldable pub ts_match : List ℕ → Bool
unfolding match_class match_each
ts_match xs =
    let dash : ℕ → Bool = λ c. eqb c b'-' in
    match_each
      (is_digit
        ∷ is_digit
        ∷ is_digit
        ∷ is_digit
        ∷ dash
        ∷ is_digit
        ∷ is_digit
        ∷ dash
        ∷ is_digit
        ∷ is_digit
        ∷ (λ c. eqb c b'T' || eqb c b' ')
        ∷ [])
      (match_class is_clock_char 26) xs

-- `_ts`, of a JSON value, which is no `datetime`.
unfoldable pub ts : Value → Bool
unfolding ts_match
ts (text s) = leb (length (code_points s)) 40 && ts_match (code_points s)
ts _ = false

-- The validator of `_CONFIG`.
unfoldable pub config_text : Validators → Value → Bool
config_text vs (text s) =
    let xs = code_points s in
    not (leb (length xs) 0) && leb (length xs) 200 && not (any vs.is_space xs)
config_text vs _ = false

abbrev pub id_leaf : Node
id_leaf = leaf opaque_id

abbrev pub token_leaf : Node
token_leaf = leaf short_token

abbrev pub ts_leaf : Node
ts_leaf = leaf ts

abbrev pub bool_leaf : Node
bool_leaf = leaf is_boolean

abbrev pub count_leaf : Node
count_leaf = leaf is_count

abbrev pub amount_leaf : Validators → Node
amount_leaf vs = leaf (amount vs)

abbrev pub score_leaf : Validators → Node
score_leaf vs = leaf (score vs)

abbrev pub marker_leaf : Node
marker_leaf = leaf is_generated_marker

abbrev pub config_leaf : Validators → Node
config_leaf vs = leaf (config_text vs)
