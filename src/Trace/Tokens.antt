-- ===== src/Trace/Tokens.antt =====
-- trace_projection.py: the tests of single values and of keys.
use intelligent_workflow_app.Prelude.{
  ℕ, zero, suc, String, Bool, true, false, ◌&&◌, ◌||◌, List, [], ◌∷◌, contains, leb, eqb,
  code_points, string_eq,
}
use intelligent_workflow_app.Prelude.Int.{pos}
use intelligent_workflow_app.Value.{Value, boolean, num, text, sequence, Items, no_items, item}

-- `[A-Za-z0-9._:/=-]`
unfoldable pub is_token_char : ℕ → Bool
is_token_char c =
    (leb b'A' c && leb c b'Z')
    || (leb b'a' c && leb c b'z')
    || (leb b'0' c && leb c b'9')
    || eqb c b'.'
    || eqb c b'_'
    || eqb c b':'
    || eqb c b'/'
    || eqb c b'='
    || eqb c b'-'

-- `[A-Za-z0-9._:@|/=-]`
unfoldable pub is_opaque_char : ℕ → Bool
unfolding is_token_char
is_opaque_char c = is_token_char c || eqb c b'@' || eqb c b'|'

-- `c{0,n}$` of a class. In Python `$` also matches before a newline that ends the text.
unfoldable pub match_class : (ℕ → Bool) → ℕ → List ℕ → Bool
match_class c n [] = true
match_class c zero (x ∷ []) = eqb x 10
match_class c zero (x ∷ xs) = false
match_class c (suc n) (x ∷ []) = c x || eqb x 10
match_class c (suc n) (x ∷ xs) = c x && match_class c n xs

-- `c{1,n + 1}$`
unfoldable pub match_some : (ℕ → Bool) → ℕ → List ℕ → Bool
unfolding match_class
match_some c n [] = false
match_some c n (x ∷ xs) = c x && match_class c n xs

-- `_TOKEN_RE.match`, which is also `_safe_key` of a text.
unfoldable pub safe_key : String → Bool
unfolding match_some is_token_char
safe_key s = match_some is_token_char 119 (code_points s)

unfoldable pub short_token : Value → Bool
unfolding safe_key
short_token (text s) = safe_key s
short_token _ = false

-- `_OPAQUE_ID_RE.match`
unfoldable pub opaque_id : Value → Bool
unfolding match_some is_opaque_char
opaque_id (text s) = match_some is_opaque_char 199 (code_points s)
opaque_id _ = false

-- `_boolean`
unfoldable pub is_boolean : Value → Bool
is_boolean (boolean b) = true
is_boolean _ = false

-- `_count`
unfoldable pub is_count : Value → Bool
is_count (num (pos n)) = leb n 1_000_000_000_000
is_count _ = false

-- `_enum`
unfoldable pub enum : List String → Value → Bool
enum allowed (text s) = contains allowed s
enum allowed _ = false

-- `any(_short_token(x) for x in items)`, and of a value that is no list, `False`.
unfoldable some_token : Items → Bool
unfolding short_token
some_token no_items = false
some_token (item v vs) = short_token v || some_token vs

-- `bool(_token_list(value))`
unfoldable pub has_tokens : Value → Bool
unfolding some_token
has_tokens (sequence vs) = some_token vs
has_tokens _ = false
