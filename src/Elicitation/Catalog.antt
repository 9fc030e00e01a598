-- ===== src/Elicitation/Catalog.antt =====
-- elicitation/catalog.py: the question catalog, its checks at load and the check of a candidate.
pub mod Laws
use intelligent_workflow_app.Prelude.{
  ℕ, zero, suc, ◌<◌, String, Bool, true, false, not, ◌&&◌, ◌||◌, Option, none, some, List, [], ◌∷◌,
  map, contains, any, all, keep, count, ◌==◌, string_eq, eqb, if◌then◌else◌, code_points,
}
use intelligent_workflow_app.Value.{Value, text, Fields, get}

pub record QuestionTopic : Type 0 where
  pub id : String
  pub revision : ℕ
  pub prompt : String
  pub answers : List String
  pub fact : List (String × String)
  pub priority : ℕ
  pub valid_for_days : Option ℕ
  pub review_after_days : Option ℕ
  pub cue : Option String

pub record QuestionCatalog : Type 0 where
  pub topics : List QuestionTopic
  pub max_outstanding_per_recipient : ℕ
  pub pending_expiry_hours : ℕ

pub record QuestionCandidate : Type 0 where
  pub topic : String
  pub if_answer : String
  pub consequence : Fields

-- The rest of a text behind a prefix, if it begins with it.
unfoldable pub after_prefix : List ℕ → List ℕ → Option (List ℕ)
after_prefix [] s = some s
after_prefix (p ∷ ps) [] = none
after_prefix (p ∷ ps) (c ∷ s) = if eqb p c then after_prefix ps s else none

-- The keys of a dict.
abbrev pub keys : List (String × String) → List String
keys = map (λ (k, _). k)

-- Python's character classes `\s` and `\w`.
module _ (is_space is_word : ℕ → Bool) where
  pub skip_space : List ℕ → List ℕ
  skip_space [] = []
  skip_space (c ∷ s) = if is_space c then skip_space s else c ∷ s

  -- `\b[^}]*\}` behind a word.
  pub closes_word : List ℕ → Bool
  closes_word [] = false
  closes_word (c ∷ s) = not (is_word c) && any (λ d. eqb d b'}') (c ∷ s)

  -- `(trigger|steps)\b[^}]*\}`
  pub names_source : List ℕ → Bool
  unfolding after_prefix closes_word
  names_source s = elim (after_prefix (code_points "trigger") s) [
    | some rest ↦ closes_word rest
    | none ↦ elim (after_prefix (code_points "steps") s) [
      | some rest ↦ closes_word rest
      | none ↦ false
    ]
  ]

  -- `_TAINTED_PLACEHOLDER.search(text)`
  pub is_tainted : List ℕ → Bool
  unfolding skip_space names_source
  is_tainted [] = false
  is_tainted (c ∷ s) = (eqb c b'{' && names_source (skip_space s)) || is_tainted s

  -- The field validator of `prompt` and `cue`: whether the text is accepted.
  pub prompt_is_untainted : Option String → Bool
  unfolding is_tainted
  prompt_is_untainted none = true
  prompt_is_untainted (some v) = if is_tainted (code_points v) then false else true

  -- The model validator: no answer without a fact, no fact without an answer, no tainted fact.
  pub facts_cover_answers_and_are_untainted : QuestionTopic → Bool
  unfolding is_tainted
  facts_cover_answers_and_are_untainted t =
      if not (all (λ a. contains (keys t.fact) a) t.answers)
      then false
      else if not (all (λ a. contains t.answers a) (keys t.fact))
      then false
      else all (λ (answer, sentence). not (is_tainted (code_points sentence))) t.fact

  -- Whether a topic loads: `answers` has at least one item, and the validators accept it.
  unfoldable pub topic_loads : QuestionTopic → Bool
  unfolding prompt_is_untainted facts_cover_answers_and_are_untainted
  topic_loads t =
      elim t.answers [ [] ↦ false | _ ∷ _ ↦ true ]
      && prompt_is_untainted (some t.prompt)
      && prompt_is_untainted t.cue
      && facts_cover_answers_and_are_untainted t

-- The validator of the catalog: whether no id is listed twice.
unfoldable pub ids_are_unique : List QuestionTopic → Bool
ids_are_unique topics =
    let seen = map (λ t. t.id) topics in
    all (λ i. elim (count i seen) [ suc (suc _) ↦ false | _ ↦ true ]) seen

unfoldable pub find_topic : List QuestionTopic → String → Option QuestionTopic
find_topic [] topic_id = none
find_topic (t ∷ topics) topic_id = if t.id == topic_id then some t else find_topic topics topic_id

-- `QuestionCatalog.get`
unfoldable pub get_topic : QuestionCatalog → String → Option QuestionTopic
unfolding find_topic
get_topic catalog topic_id = find_topic catalog.topics topic_id

abbrev pub priority_values : List String
priority_values = "relevant" ∷ "not_relevant" ∷ []

-- `priority in PRIORITY_VALUES`, for a value that may be missing or no text.
unfoldable pub in_vocabulary : Option Value → Bool
in_vocabulary (some (text v)) = contains priority_values v
in_vocabulary _ = false

-- The reason tokens of `validate_candidate` and of the scheduler.
pub data Reason : Type 0 where
  topic_not_catalogued branch_answer_not_offered outcome_not_in_vocabulary : Reason
  answer_already_known answer_lookup_unavailable already_asked recipient_at_capacity : Reason

pub data Validated : Type 0 where
  usable : QuestionTopic → Validated
  refused : Reason → Validated

unfoldable pub validate_candidate : QuestionCandidate → QuestionCatalog → Validated
unfolding get_topic in_vocabulary
validate_candidate candidate catalog = elim (get_topic catalog candidate.topic) [
  | none ↦ refused topic_not_catalogued
  | some topic ↦
      if not (contains topic.answers candidate.if_answer)
      then refused branch_answer_not_offered
      else if not (in_vocabulary (get "priority" candidate.consequence))
      then refused outcome_not_in_vocabulary
      else usable topic
]
