-- ===== src/Trace/Schemas/Short.antt =====
-- trace_projection.py: how long the texts are that a projection can show.
use intelligent_workflow_app.Prelude.{
  ◌≡◌, subst, ℕ, zero, suc, ◌+◌, ◌≤◌, inl, inr, String, Bool, true, some, List, [], ◌∷◌, All,
  contains, leb, length, code_points, ◌==◌, string_eq, arith, Bool-cases,
}
use intelligent_workflow_app.Value.{
  Value, null, boolean, num, real, text, sequence, mapping, Items, no_items, item, Fields,
  no_fields, entry,
}
use intelligent_workflow_app.Trace.Tokens.{is_token_char, match_class, match_some, safe_key}
use intelligent_workflow_app.Trace.Schema.{
  Node, leaf, obj, seq, Position, undeclared, declared, Children, no_children, child, Vocabulary,
  words_of, all_words, vocab_member,
}

-- Every text in the value, and every key of a dict in it, has at most 201 characters.
unfoldable mutual
  pub IsShort : Value → Type 0
  IsShort (text s) = length (code_points s) ≤ 201
  IsShort (sequence vs) = ShortItems vs
  IsShort (mapping fs) = ShortFields fs
  IsShort _ = Unit

  pub ShortItems : Items → Type 0
  ShortItems no_items = Unit
  ShortItems (item v vs) = IsShort v × ShortItems vs

  pub ShortFields : Fields → Type 0
  ShortFields no_fields = Unit
  ShortFields (entry k v fs) = (length (code_points k) ≤ 201) × IsShort v × ShortFields fs

-- Every leaf of the node accepts only such values, and every declared key is short.
unfoldable mutual
  pub IsTight : Node → Type 0
  IsTight (leaf validate) = (v : Value) → validate v ≡ true → IsShort v
  IsTight (obj kids wildcard platform owners step_output) =
      TightChildren kids × TightPosition wildcard
  IsTight (seq n) = IsTight n
  IsTight _ = Unit

  pub TightPosition : Position → Type 0
  TightPosition undeclared = Unit
  TightPosition (declared n) = IsTight n

  pub TightChildren : Children → Type 0
  TightChildren no_children = Unit
  TightChildren (child k n kids) =
      (leb (length (code_points k)) 201 ≡ true) × IsTight n × TightChildren kids

match_class-length :
    (c : ℕ → Bool) (n : ℕ) (xs : List ℕ) → match_class c n xs ≡ true → length xs ≤ suc n
unfolding match_class
match_class-length c n [] h = omega arith
match_class-length c zero (x ∷ []) h = omega arith
match_class-length c zero (x ∷ y ∷ xs) h = ground (arith, h)
match_class-length c (suc n) (x ∷ []) h = omega arith
match_class-length c (suc n) (x ∷ y ∷ xs) h = ground (arith, h, match_class-length c n (y ∷ xs))

pub match_some-length :
    (c : ℕ → Bool) (n : ℕ) (xs : List ℕ) → match_some c n xs ≡ true → length xs ≤ n + 2
unfolding match_some
match_some-length c n [] h = omega arith
match_some-length c n (x ∷ xs) h = ground (arith, h, match_class-length c n xs)

pub safe_key-length : (s : String) → safe_key s ≡ true → length (code_points s) ≤ 121
unfolding safe_key
safe_key-length s h = omega (arith, match_some-length is_token_char 119 (code_points s) h)

contains-safe_key :
    (words : List String) (s : String)
    → All (λ w. safe_key w ≡ true) words
    → contains words s ≡ true
    → safe_key s ≡ true
contains-safe_key [] s h there = absurd (ground arith)
contains-safe_key (w ∷ words) s h there = ground (arith, h.0, there, contains-safe_key words s h.1)

all_words-ShortItems :
    (words : List String) (vs : Items)
    → All (λ w. safe_key w ≡ true) words
    → all_words words vs ≡ true
    → ShortItems vs
unfolding IsShort all_words
all_words-ShortItems words no_items h e = tt
all_words-ShortItems words (item (text s) vs) h e = (
  omega (arith, safe_key-length s (contains-safe_key words s h (ground (arith, e)))),
  all_words-ShortItems words vs h (ground (arith, e)),
)
all_words-ShortItems words (item null vs) h e = absurd (ground (arith, e))
all_words-ShortItems words (item (boolean b) vs) h e = absurd (ground (arith, e))
all_words-ShortItems words (item (num n) vs) h e = absurd (ground (arith, e))
all_words-ShortItems words (item (real s) vs) h e = absurd (ground (arith, e))
all_words-ShortItems words (item (sequence ws) vs) h e = absurd (ground (arith, e))
all_words-ShortItems words (item (mapping fs) vs) h e = absurd (ground (arith, e))

pub vocab_member-IsShort :
    (words : List String) (v : Value)
    → All (λ w. safe_key w ≡ true) words
    → vocab_member words v ≡ true
    → IsShort v
unfolding IsShort vocab_member
vocab_member-IsShort words (text s) h e =
    omega (arith, safe_key-length s (contains-safe_key words s h e))
vocab_member-IsShort words (sequence vs) h e = all_words-ShortItems words vs h (ground (arith, e))
vocab_member-IsShort words null h e = tt
vocab_member-IsShort words (boolean b) h e = tt
vocab_member-IsShort words (num n) h e = tt
vocab_member-IsShort words (real s) h e = tt
vocab_member-IsShort words (mapping fs) h e = absurd (ground arith)

pub words_of-All :
    (k : String) (vocab : Vocabulary) (words : List String)
    → All (λ w. All (λ s. safe_key s ≡ true) w.1) vocab
    → words_of k vocab ≡ some words
    → All (λ s. safe_key s ≡ true) words
unfolding words_of
words_of-All k [] words h e = absurd (ground (arith, e))
words_of-All k (w ∷ vocab) words h e = elim (Bool-cases (k == w.0)) [
  | inl here ↦
      let same : w.1 ≡ words = ground (arith, e, here) in
      subst (All (λ s. safe_key s ≡ true)) same h.0
  | inr there ↦ words_of-All k vocab words h.1 (ground (arith, e, there))
]
