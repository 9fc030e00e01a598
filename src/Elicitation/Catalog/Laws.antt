-- ===== src/Elicitation/Catalog/Laws.antt =====
-- What a candidate that is usable, and a topic that loads, satisfy.
use mathlib.Core.Option.{some-injective}
use intelligent_workflow_app.Prelude.{
  ℕ, ◌≡◌, ◌≢◌, ◌⊎◌, ◌++◌, subst, any, eqb, String, Bool, true, false, not, Option, none, some,
  OfSome, clash, List, [], ◌∷◌, contains, all, All, Some, ◌==◌, string_eq, code_points, arith, inl,
  inr, Option-cases, Bool-cases, ap, sym, ◌∙◌,
}
use intelligent_workflow_app.Value.{get}
use intelligent_workflow_app.Elicitation.Catalog.{
  QuestionTopic, QuestionCatalog, QuestionCandidate, keys, after_prefix, skip_space, closes_word,
  names_source, is_tainted, prompt_is_untainted, facts_cover_answers_and_are_untainted, topic_loads,
  find_topic, in_vocabulary, usable, validate_candidate,
}

find_topic-Some :
    (topics : List QuestionTopic) (i : String) (t : QuestionTopic)
    → find_topic topics i ≡ some t
    → Some (λ u. u ≡ t) topics × (t.id ≡ i)
unfolding find_topic
find_topic-Some [] i t h = absurd (cc)
find_topic-Some (u ∷ topics) i t h = elim (Bool-cases (u.id == i)) [
  | inl this ↦
      let is : u ≡ t = some-injective u t (ground (arith, h)) in
      (inl is, ap (λ (q : QuestionTopic). q.id) (sym is) ∙ ground arith)
  | inr other ↦
      let (listed, named) = find_topic-Some topics i t (ground arith) in (inr listed, named)
]

-- The topic is catalogued, the answer is offered, and the outcome is in the vocabulary.
pub record IsUsable (candidate : QuestionCandidate) (catalog : QuestionCatalog)
    (topic : QuestionTopic) : Type 0 where
  pub listed : Some (λ t. t ≡ topic) catalog.topics
  pub named : topic.id ≡ candidate.topic
  pub offered : contains topic.answers candidate.if_answer ≡ true
  pub outcome : in_vocabulary (get "priority" candidate.consequence) ≡ true

-- A candidate that the check lets through with a topic names that topic of the catalog, one of the
-- answers that it offers, and an outcome of the vocabulary.
pub validate_candidate-IsUsable :
    (candidate : QuestionCandidate) (catalog : QuestionCatalog) (topic : QuestionTopic)
    → validate_candidate candidate catalog ≡ usable topic
    → IsUsable candidate catalog topic
unfolding validate_candidate
validate_candidate-IsUsable candidate catalog topic h =
    elim (Option-cases (find_topic catalog.topics candidate.topic)) [
      | inl missing ↦ absurd (ground arith)
      | inr (t, found) ↦
          let is : t ≡ topic = ground arith in
          let (listed, named) =
            find_topic-Some catalog.topics candidate.topic topic (found ∙ ap some is) in
          record {
            listed = listed;
            named = named;
            offered = ground (arith, found, ap (λ (q : QuestionTopic). q.answers) is);
            outcome = ground arith;
          }
    ]

all-contains :
    (p : String → Bool) (xs : List String) (a : String)
    → all p xs ≡ true
    → contains xs a ≡ true
    → p a ≡ true
all-contains p [] a h m = ground arith
all-contains p (x ∷ xs) a h m = ground (arith, all-contains p xs a)

module _ (is_space is_word : ℕ → Bool) where
  -- No placeholder for message text stands anywhere in a text.
  abbrev pub IsClean : List ℕ → Type 0
  IsClean s =
      (front gap : List ℕ) (word : String) (c : ℕ) (body : List ℕ)
      → All (λ x. is_space x ≡ true) gap
      → (word ≡ "trigger") ⊎ (word ≡ "steps")
      → is_word c ≡ false
      → Some (λ x. x ≡ b'}') (c ∷ body)
      → s ≢ front ++ (b'{' ∷ (gap ++ (code_points word ++ (c ∷ body))))

  any_closing : (xs : List ℕ) → Some (λ x. x ≡ b'}') xs → any (λ d. eqb d b'}') xs ≡ true
  any_closing [] h = absurd h
  any_closing (x ∷ xs) (inl e) = ground (arith, e)
  any_closing (x ∷ xs) (inr h) = ground (arith, any_closing xs h)

  closes :
      (c : ℕ) (body : List ℕ)
      → is_word c ≡ false
      → Some (λ x. x ≡ b'}') (c ∷ body)
      → closes_word is_space is_word (c ∷ body) ≡ true
  unfolding closes_word
  closes c body ends h = ground (arith, ends, any_closing (c ∷ body) h)

  found :
      (word : String) (c : ℕ) (body : List ℕ)
      → (word ≡ "trigger") ⊎ (word ≡ "steps")
      → is_word c ≡ false
      → Some (λ x. x ≡ b'}') (c ∷ body)
      → names_source is_space is_word (code_points word ++ (c ∷ body)) ≡ true
  unfolding names_source after_prefix
  found word c body (inl e) ends h =
      subst (λ w. names_source is_space is_word (code_points w ++ c ∷ body) ≡ true) (sym e)
        (closes c body ends h)
  found word c body (inr e) ends h =
      subst (λ w. names_source is_space is_word (code_points w ++ c ∷ body) ≡ true) (sym e)
        (closes c body ends h)

  skip_space-gap :
      (gap : List ℕ) (x : ℕ) (rest : List ℕ)
      → All (λ y. is_space y ≡ true) gap
      → is_space x ≡ false
      → skip_space is_space is_word (gap ++ (x ∷ rest)) ≡ x ∷ rest
  unfolding skip_space
  skip_space-gap [] x rest h e = ground (arith, e)
  skip_space-gap (y ∷ gap) x rest h e = ground (arith, h.0, skip_space-gap gap x rest h.1 e)

  -- Neither word starts with white space.
  module _ (letter_t : is_space b't' ≡ false) (letter_s : is_space b's' ≡ false) where
    skip_to_word :
        (gap : List ℕ) (word : String) (rest : List ℕ)
        → All (λ y. is_space y ≡ true) gap
        → (word ≡ "trigger") ⊎ (word ≡ "steps")
        → skip_space is_space is_word (gap ++ (code_points word ++ rest)) ≡ code_points word ++ rest
    skip_to_word gap word rest h (inl e) =
        let spelt : b't' ∷ b'r' ∷ b'i' ∷ b'g' ∷ b'g' ∷ b'e' ∷ b'r' ∷ rest
            ≡ code_points word ++ rest =
          ap (λ w. code_points w ++ rest) (sym e) in
        subst (λ l. skip_space is_space is_word (gap ++ l) ≡ l) spelt
          (skip_space-gap gap b't' _ h letter_t)
    skip_to_word gap word rest h (inr e) =
        let spelt : b's' ∷ b't' ∷ b'e' ∷ b'p' ∷ b's' ∷ rest ≡ code_points word ++ rest =
          ap (λ w. code_points w ++ rest) (sym e) in
        subst (λ l. skip_space is_space is_word (gap ++ l) ≡ l) spelt
          (skip_space-gap gap b's' _ h letter_s)

    is_tainted-found :
        (front gap : List ℕ) (word : String) (c : ℕ) (body : List ℕ)
        → All (λ x. is_space x ≡ true) gap
        → (word ≡ "trigger") ⊎ (word ≡ "steps")
        → is_word c ≡ false
        → Some (λ x. x ≡ b'}') (c ∷ body)
        → is_tainted is_space is_word (front ++ (b'{' ∷ (gap ++ (code_points word ++ (c ∷ body)))))
          ≡ true
    unfolding is_tainted
    is_tainted-found [] gap word c body spaces named ends closed =
        let behind =
          ap (names_source is_space is_word) (skip_to_word gap word (c ∷ body) spaces named)
          ∙ found word c body named ends closed in
        ground (arith, behind)
    is_tainted-found (x ∷ front) gap word c body spaces named ends closed =
        ground (arith, is_tainted-found front gap word c body spaces named ends closed)

    is_tainted-IsClean : (s : List ℕ) → is_tainted is_space is_word s ≡ false → IsClean s
    is_tainted-IsClean s h front gap word c body spaces named ends closed e =
        clash (is_tainted-found front gap word c body spaces named ends closed)
          (ap (is_tainted is_space is_word) (sym e) ∙ h)

    All-IsClean :
        (fact : List (String × String))
        → all (λ (answer, sentence). not (is_tainted is_space is_word (code_points sentence))) fact
          ≡ true
        → All (λ (answer, sentence). IsClean (code_points sentence)) fact
    All-IsClean [] h = tt
    All-IsClean (p ∷ fact) h = (
      is_tainted-IsClean (code_points p.1) (ground (arith, h)),
      All-IsClean fact (ground (arith, h)),
    )

    -- What loading a topic guarantees.
    pub record IsLoaded (t : QuestionTopic) : Type 0 where
      pub some_answer : t.answers ≢ []
      pub covered : (a : String) → contains t.answers a ≡ contains (keys t.fact) a
      pub clean_prompt : IsClean (code_points t.prompt)
      pub clean_cue : OfSome (λ cue. IsClean (code_points cue)) t.cue
      pub clean_facts : All (λ (answer, sentence). IsClean (code_points sentence)) t.fact

    cue-IsClean :
        (cue : Option String)
        → prompt_is_untainted is_space is_word cue ≡ true
        → OfSome (λ text. IsClean (code_points text)) cue
    unfolding prompt_is_untainted
    cue-IsClean none h = tt
    cue-IsClean (some cue) h = is_tainted-IsClean (code_points cue) (ground (arith, h))

    -- A topic that loads offers an answer, has a fact for exactly the offered answers, and neither in
    -- its prompt, nor in its cue, nor in a fact stands a placeholder for message text: a brace, white
    -- space, `trigger` or `steps` as a whole word, and a closing brace somewhere behind it. Whatever the
    -- character classes are, as long as `t` and `s` are no white space.
    pub topic_loads-IsLoaded :
        (t : QuestionTopic) → topic_loads is_space is_word t ≡ true → IsLoaded t
    unfolding topic_loads facts_cover_answers_and_are_untainted
    topic_loads-IsLoaded t h = record {
      some_answer = λ e. ground (arith, e);
      covered = λ a. ground (
        arith,
        all-contains (λ x. contains (keys t.fact) x) t.answers a,
        all-contains (λ x. contains t.answers x) (keys t.fact) a,
      );
      clean_prompt = cue-IsClean (some t.prompt) (ground arith);
      clean_cue = cue-IsClean t.cue (ground arith);
      clean_facts = All-IsClean t.fact (ground arith);
    }
