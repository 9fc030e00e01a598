-- ===== src/Trace/Reading/Laws.antt =====
-- How far a declared vocabulary widens what a reader sees.
use intelligent_workflow_app.Prelude.{
  ◌≡◌, ℕ, zero, suc, ◌≤◌, String, true, false, not, ◌||◌, List, All, contains, length, count,
  count_of_absent, leb, string_eq, OfSome, subst, arith, Bool-cases, Option-cases, inl, inr,
}
use intelligent_workflow_app.Value.{
  Value, null, boolean, num, real, text, sequence, mapping, Items, no_items, item, Fields,
  no_fields, entry,
}
use intelligent_workflow_app.Trace.Tokens.{safe_key}
use intelligent_workflow_app.Trace.Reading.{
  reserved_fields, members, words_for, normalize_fields, normalize_vocabulary,
}

-- A field of a vocabulary: its name is a token that the projector does not own, and it has from one
-- to 32 words, each of them once, that are tokens too.
pub record IsReleasable (w : String × List String) : Type 0 where
  pub token : safe_key w.0 ≡ true
  pub free : contains reserved_fields w.0 ≡ false
  pub some_words : 1 ≤ length w.1
  pub few_words : length w.1 ≤ 32
  pub tokens : All (λ s. safe_key s ≡ true) w.1
  pub once : (s : String) → count s w.1 ≤ 1

members-tokens : (vs : Items) → All (λ s. safe_key s ≡ true) (members vs)
unfolding members
members-tokens no_items = tt
members-tokens (item (text s) vs) = elim (Bool-cases (safe_key s)) [
  | inr hostile ↦ rw hostile (members-tokens vs)
  | inl fine ↦ elim (Bool-cases (contains (members vs) s)) [
    | inl there ↦ rw (fine, there) (members-tokens vs)
    | inr new ↦ rw (fine, new) (fine, members-tokens vs)
  ]
]
members-tokens (item null vs) = members-tokens vs
members-tokens (item (boolean b) vs) = members-tokens vs
members-tokens (item (num n) vs) = members-tokens vs
members-tokens (item (real s) vs) = members-tokens vs
members-tokens (item (sequence ws) vs) = members-tokens vs
members-tokens (item (mapping fs) vs) = members-tokens vs

members_once : (vs : Items) (s : String) → count s (members vs) ≤ 1
unfolding members
members_once no_items s = omega arith
members_once (item (text t) vs) s =
    ground (arith, members_once vs s, count_of_absent t (members vs))
members_once (item null vs) s = members_once vs s
members_once (item (boolean b) vs) s = members_once vs s
members_once (item (num n) vs) s = members_once vs s
members_once (item (real t) vs) s = members_once vs s
members_once (item (sequence ws) vs) s = members_once vs s
members_once (item (mapping fs) vs) s = members_once vs s

words_for-IsReleasable :
    (field : String) (v : Value) → OfSome (λ words. IsReleasable (field, words)) (words_for field v)
unfolding words_for
words_for-IsReleasable field (sequence values) = elim (Bool-cases (safe_key field)) [
  | inr hostile ↦ rw (OfSome, hostile) tt
  | inl fine ↦ elim (Bool-cases (contains reserved_fields field)) [
    | inl owned ↦ rw (OfSome, fine, owned) tt
    | inr free ↦
        let words = members values in
        elim (Bool-cases (leb (length words) 0 || not (leb (length words) 32))) [
          | inl out ↦ rw (OfSome, fine, free, out) tt
          | inr within ↦
              rw (OfSome, fine, free, within)
                (record {
                  token = fine;
                  free = free;
                  some_words = ground arith;
                  few_words = ground arith;
                  tokens = members-tokens values;
                  once = members_once values;
                })
        ]
  ]
]
words_for-IsReleasable field null = tt
words_for-IsReleasable field (boolean b) = tt
words_for-IsReleasable field (num n) = tt
words_for-IsReleasable field (real s) = tt
words_for-IsReleasable field (text s) = tt
words_for-IsReleasable field (mapping fs) = tt

normalize_fields-All :
    (n : ℕ) (fs : Fields)
    → All IsReleasable (normalize_fields n fs) × (length (normalize_fields n fs) ≤ n)
unfolding normalize_fields
normalize_fields-All zero fs = (tt, omega arith)
normalize_fields-All (suc n) no_fields = (tt, omega arith)
normalize_fields-All (suc n) (entry field values fs) =
    let (all, few) = normalize_fields-All n fs in
    elim (Option-cases (words_for field values)) [
      | inl dropped ↦ rw (All, length, dropped) (all, omega arith)
      | inr (words, found) ↦
          let fine =
            subst (OfSome (λ ws. IsReleasable (field, ws))) found
              (words_for-IsReleasable field values) in
          rw (All, length, found) ((fine, all), omega arith)
    ]

-- Whatever a definition declares, the vocabulary that the projector works with has at most 8 fields,
-- none of them the projector's own, and each has from one to 32 words, once each; the names and the
-- words are tokens.
pub normalize_vocabulary-All :
    (v : Value) → All IsReleasable (normalize_vocabulary v) × (length (normalize_vocabulary v) ≤ 8)
unfolding normalize_vocabulary
normalize_vocabulary-All (mapping fs) = normalize_fields-All 8 fs
normalize_vocabulary-All null = (tt, omega arith)
normalize_vocabulary-All (boolean b) = (tt, omega arith)
normalize_vocabulary-All (num n) = (tt, omega arith)
normalize_vocabulary-All (real s) = (tt, omega arith)
normalize_vocabulary-All (text s) = (tt, omega arith)
normalize_vocabulary-All (sequence vs) = (tt, omega arith)
