-- ===== src/Trace/Schemas/Tight.antt =====
-- trace_projection.py: the leaves of `SCHEMAS` accept short texts only.
use intelligent_workflow_app.Prelude.{
  ◌≡◌, refl, ◌≤◌, String, Bool, true, false, List, [], ◌∷◌, All, length, contains, code_points,
  string_eq, arith, clash,
}
use intelligent_workflow_app.Value.{
  Value, null, boolean, num, real, text, sequence, mapping, Items, Fields,
}
use intelligent_workflow_app.Trace.Markers.{generated_markers, is_generated_marker}
use intelligent_workflow_app.Trace.Tokens.{
  is_opaque_char, opaque_id, short_token, is_boolean, is_count, enum,
}
use intelligent_workflow_app.Trace.Schema.{leaf}
use intelligent_workflow_app.Trace.Schemas.Leaves.{
  Validators, amount, score, ts, config_text, id_leaf, token_leaf, ts_leaf, bool_leaf, count_leaf,
  amount_leaf, score_leaf, marker_leaf, config_leaf,
}
use intelligent_workflow_app.Trace.Schemas.Short.{
  IsShort, IsTight, match_some-length, safe_key-length,
}

-- A validator that refuses containers and long texts.
by_shape :
    (validate : Value → Bool)
    → ((s : String) → validate (text s) ≡ true → length (code_points s) ≤ 201)
    → ((vs : Items) → validate (sequence vs) ≡ false)
    → ((fs : Fields) → validate (mapping fs) ≡ false)
    → IsTight (leaf validate)
unfolding IsTight IsShort
by_shape validate short no_list no_dict null h = tt
by_shape validate short no_list no_dict (boolean b) h = tt
by_shape validate short no_list no_dict (num n) h = tt
by_shape validate short no_list no_dict (real s) h = tt
by_shape validate short no_list no_dict (text s) h = short s h
by_shape validate short no_list no_dict (sequence vs) h = absurd (clash h (no_list vs))
by_shape validate short no_list no_dict (mapping fs) h = absurd (clash h (no_dict fs))

-- A closed set of short texts.
contains-short :
    (allowed : List String) (s : String)
    → All (λ w. length (code_points w) ≤ 201) allowed
    → contains allowed s ≡ true
    → length (code_points s) ≤ 201
contains-short [] s h there = absurd (ground arith)
contains-short (w ∷ allowed) s h there = ground (arith, h.0, there, contains-short allowed s h.1)

pub enum-IsTight :
    (allowed : List String)
    → All (λ w. length (code_points w) ≤ 201) allowed
    → IsTight (leaf (enum allowed))
unfolding enum
enum-IsTight allowed short =
    by_shape (enum allowed) (λ s h. contains-short allowed s short h) (λ _. refl) (λ _. refl)

pub marker_leaf-IsTight : IsTight marker_leaf
unfolding is_generated_marker
marker_leaf-IsTight =
    by_shape is_generated_marker
      (λ s h. contains-short generated_markers s (omega arith, (omega arith, (omega arith, tt))) h)
      (λ _. refl) (λ _. refl)

pub id_leaf-IsTight : IsTight id_leaf
unfolding opaque_id
id_leaf-IsTight =
    by_shape opaque_id
      (λ s h. omega (arith, match_some-length is_opaque_char 199 (code_points s) h)) (λ _. refl)
      (λ _. refl)

pub token_leaf-IsTight : IsTight token_leaf
unfolding short_token
token_leaf-IsTight =
    by_shape short_token (λ s h. omega (arith, safe_key-length s h)) (λ _. refl) (λ _. refl)

pub ts_leaf-IsTight : IsTight ts_leaf
unfolding ts
ts_leaf-IsTight = by_shape ts (λ s h. ground (arith, h)) (λ _. refl) (λ _. refl)

pub bool_leaf-IsTight : IsTight bool_leaf
unfolding is_boolean
bool_leaf-IsTight = by_shape is_boolean (λ s h. absurd (clash h refl)) (λ _. refl) (λ _. refl)

pub count_leaf-IsTight : IsTight count_leaf
unfolding is_count
count_leaf-IsTight = by_shape is_count (λ s h. absurd (clash h refl)) (λ _. refl) (λ _. refl)

module _ (vs : Validators) where
  pub amount_leaf-IsTight : IsTight (amount_leaf vs)
  unfolding amount
  amount_leaf-IsTight = by_shape (amount vs) (λ s h. absurd (clash h refl)) (λ _. refl) (λ _. refl)

  pub score_leaf-IsTight : IsTight (score_leaf vs)
  unfolding score
  score_leaf-IsTight = by_shape (score vs) (λ s h. absurd (clash h refl)) (λ _. refl) (λ _. refl)

  pub config_leaf-IsTight : IsTight (config_leaf vs)
  unfolding config_text
  config_leaf-IsTight = by_shape (config_text vs) (λ s h. ground (arith, h)) (λ _. refl) (λ _. refl)
