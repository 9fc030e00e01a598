-- ===== src/Tests/Catalog.antt =====
-- Tests of the question catalog.
use intelligent_workflow_app.Prelude.{
  ℕ, Bool, true, ◌&&◌, ◌≡◌, refl, string_eq, none, [], ◌∷◌, eqb, leb,
}
use intelligent_workflow_app.Value.{text, no_fields, entry, get}
use intelligent_workflow_app.Elicitation.Catalog.{
  QuestionTopic, QuestionCatalog, QuestionCandidate, topic_loads, usable, validate_candidate,
}
use intelligent_workflow_app.Elicitation.Catalog.Laws.{IsLoaded, topic_loads-IsLoaded}

abbrev pub travel : QuestionTopic
travel = record {
  id = "travel";
  revision = 1;
  prompt = "Do you travel?";
  answers = "yes" ∷ "no" ∷ [];
  fact = ("yes", "Travels.") ∷ ("no", "Does not travel.") ∷ [];
  priority = 0;
  valid_for_days = none;
  review_after_days = none;
  cue = none;
}

abbrev pub catalog : QuestionCatalog
catalog = record {
  topics = travel ∷ [];
  max_outstanding_per_recipient = 1;
  pending_expiry_hours = 24;
}

abbrev pub candidate : QuestionCandidate
candidate = record {
  topic = "travel";
  if_answer = "yes";
  consequence = entry "priority" (text "relevant") no_fields;
}

pub candidate_usable : validate_candidate candidate catalog ≡ usable travel
unfolding validate_candidate string_eq get
candidate_usable = refl

abbrev is_space : ℕ → Bool
is_space c = eqb c 32

abbrev is_word : ℕ → Bool
is_word c = leb b'a' c && leb c b'z'

travel_loads : topic_loads is_space is_word travel ≡ true
unfolding topic_loads string_eq
travel_loads = refl

topic_loads-IsLoaded_example : IsLoaded is_space is_word refl refl travel
topic_loads-IsLoaded_example = topic_loads-IsLoaded is_space is_word refl refl travel travel_loads
