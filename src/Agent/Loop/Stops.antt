-- ===== src/Agent/Loop/Stops.antt =====
-- Why a run ends, and how far it goes.
use intelligent_workflow_app.Prelude.{
  ◌≡◌, refl, sym, ap, ◌∙◌, ◌⊎◌, inl, inr, ℕ, ◌+◌, ◌≤◌, ◌<◌, String, true, false, Option, none, some,
  List, [], ◌∷◌, ◌==◌, string_eq, arith,
}
use intelligent_workflow_app.Prelude.Int.{pos, pos_part}
use intelligent_workflow_app.Value.{Fields}
use intelligent_workflow_app.Agent.Conversation.{
  StopReason, max_iterations, budget_exhausted, coerce_stop_reason, ToolUse, Message, tool_uses,
  is_readable,
}
use intelligent_workflow_app.Agent.Registry.{ToolContext}
use intelligent_workflow_app.Agent.Loop.{
  Agent, Response, Session, Ran, returned, raised, or_zero, call_tool, call_tools,
  execute_tool_calls, take_response, answer_tools, exceeds, raw_stop, call_config, new_session, run,
}
use intelligent_workflow_app.Agent.Loop.Keeps.{OfRan}
use intelligent_workflow_app.Agent.Loop.Rounds.{
  Rounds, rounds_out, over_budget, no_response, model_stops, tools_called, tools_raise,
  turns-Rounds, is_over, heard,
}

module _ (agent : Agent) (context : Option ToolContext) where
  call_tools_usage :
      (tus : List ToolUse) (s : Session)
      → (let u = (call_tools agent context tus s).0.usage in
          (u.iterations ≡ s.usage.iterations)
          × (u.total_tokens ≡ s.usage.total_tokens)
          × (u.input_tokens ≡ s.usage.input_tokens)
          × (u.output_tokens ≡ s.usage.output_tokens))
  unfolding call_tools call_tool
  call_tools_usage [] s = (refl, refl, refl, refl)
  call_tools_usage (tu ∷ tus) s = call_tools_usage tus (call_tool agent context tu s).0

  executed_usage :
      (r : Response) (s : Session)
      → (let u = (execute_tool_calls agent context r.message s).0.usage in
          (u.iterations ≡ s.usage.iterations)
          × (u.total_tokens ≡ s.usage.total_tokens)
          × (u.input_tokens ≡ s.usage.input_tokens)
          × (u.output_tokens ≡ s.usage.output_tokens))
  unfolding execute_tool_calls
  executed_usage r s = call_tools_usage (tool_uses r.message) s

  answer_tools_usage :
      (r : Response) (s : Session)
      → (let u = (answer_tools agent context r s).usage in
          (u.iterations ≡ s.usage.iterations)
          × (u.total_tokens ≡ s.usage.total_tokens)
          × (u.input_tokens ≡ s.usage.input_tokens)
          × (u.output_tokens ≡ s.usage.output_tokens))
  unfolding answer_tools execute_tool_calls
  answer_tools_usage r s = call_tools_usage (tool_uses r.message) s

  module _ (config : Option Fields) where
    -- The model was asked from `before`, it answered with a stop, and its response was taken in.
    pub record IsModelStop (reason : StopReason) (s : Session) : Type 0 where
      pub before : Session
      pub response : Response
      pub within_budget : is_over agent context config before ≡ false
      pub was_heard : heard agent context config before ≡ some response
      pub no_tools : (raw_stop response == "tool_use") ≡ false
      pub same_reason : reason ≡ coerce_stop_reason (raw_stop response)
      pub left : s ≡ take_response response before

    -- The model was asked from `before`, it asked for tools, and one of these tool uses cannot be read.
    pub record IsBrokenUse (s : Session) : Type 0 where
      pub before : Session
      pub response : Response
      pub within_budget : is_over agent context config before ≡ false
      pub was_heard : heard agent context config before ≡ some response
      pub wants_tools : (raw_stop response == "tool_use") ≡ true
      pub unreadable_use : is_readable response.message ≡ false
      pub left :
          s ≡ (execute_tool_calls agent context response.message (take_response response before)).0

    -- How a run with a number of rounds ends.
    abbrev pub IsExplained : ℕ → Ran → Type 0
    IsExplained limit (returned reason s) =
        (s.usage.iterations ≤ limit)
        × (((reason ≡ max_iterations) × (s.usage.iterations ≡ limit))
            ⊎ ((reason ≡ budget_exhausted) × (is_over agent context config s ≡ true))
            ⊎ IsModelStop reason s)
    IsExplained limit (raised s) =
        ((s.usage.iterations < limit) × (heard agent context config s ≡ none))
        ⊎ ((s.usage.iterations ≤ limit) × IsBrokenUse s)

    Rounds-IsExplained :
        (limit : ℕ) {n : ℕ} {s : Session} {ran : Ran}
        → Rounds agent context config n s ran
        → s.usage.iterations + n ≡ limit
        → IsExplained limit ran
    unfolding take_response
    Rounds-IsExplained limit rounds_out h = (omega arith, inl (refl, omega arith))
    Rounds-IsExplained limit (over_budget over) h = (omega arith, inr (inl (refl, over)))
    Rounds-IsExplained limit (no_response _ silent) h = inl (omega arith, silent)
    Rounds-IsExplained limit (model_stops {n} {s} r within spoke stops) h = (
      omega arith,
      inr (
          inr (record {
            before = s;
            response = r;
            within_budget = within;
            was_heard = spoke;
            no_tools = stops;
            same_reason = refl;
            left = refl;
          })),
    )
    Rounds-IsExplained limit (tools_called {n} {s} r _ _ _ _ more) h =
        Rounds-IsExplained limit more (omega (arith, answer_tools_usage r (take_response r s)))
    Rounds-IsExplained limit (tools_raise {n} {s} r within spoke uses broken) h = inr (
      omega (arith, executed_usage r (take_response r s)),
      record {
        before = s;
        response = r;
        within_budget = within;
        was_heard = spoke;
        wants_tools = uses;
        unreadable_use = broken;
        left = refl;
      },
    )

  -- A run takes in at most the policy's number of responses. It returns `max_iterations` after that
  -- number of responses, or `budget_exhausted` with more tokens than the policy's budget, or what
  -- the model's last response gives as its reason, which is not the use of tools; then the budget
  -- was not exceeded before that call, and the session holds that response. It raises only where the call
  -- to the model raises or gives a response without a message, with a count that is no number or a text
  -- that is no string, after fewer responses than the policy's number; or where the model's last
  -- response asks for tools and has a tool use that cannot be read, and then the tool uses before
  -- that one were carried out.
  pub run-IsExplained :
      (message : String)
      → IsExplained
          (call_config agent context)
          (pos_part agent.policy.max_iterations)
          (run agent context message)
  unfolding run new_session
  run-IsExplained message =
      Rounds-IsExplained (call_config agent context) (pos_part agent.policy.max_iterations)
        (turns-Rounds agent context _ _ (new_session message)) (omega arith)

  module _ (budget most : ℕ) (policy : agent.policy.max_total_tokens ≡ pos budget)
      (small : (k : ℕ) (ms : List Message) (c : Option Fields) (r : Response)
        → agent.converse k ms c ≡ some r
        → or_zero r.input_tokens + or_zero r.output_tokens ≤ most) where
    abbrev pub WithinBudget : Session → Type 0
    WithinBudget s =
        (s.usage.total_tokens ≡ s.usage.input_tokens + s.usage.output_tokens)
        × (s.usage.total_tokens ≤ budget + most)

    within_of_test :
        (s : Session) → is_over agent context none s ≡ false → s.usage.total_tokens ≤ budget
    within_of_test s h =
        let h' : exceeds s.usage.total_tokens (pos budget) ≡ false =
          ap (exceeds s.usage.total_tokens) (sym policy) ∙ h in
        ground arith

    take_response-WithinBudget :
        (s : Session) (r : Response)
        → or_zero r.input_tokens + or_zero r.output_tokens ≤ most
        → s.usage.total_tokens ≤ budget
        → WithinBudget s
        → WithinBudget (take_response r s)
    unfolding take_response
    take_response-WithinBudget s r few within h = (refl, omega (arith, h.0))

    Rounds-WithinBudget :
        {config : Option Fields} {n : ℕ} {s : Session} {ran : Ran}
        → Rounds agent context config n s ran
        → WithinBudget s
        → OfRan WithinBudget ran
    Rounds-WithinBudget rounds_out h = h
    Rounds-WithinBudget (over_budget _) h = h
    Rounds-WithinBudget (no_response _ _) h = h
    Rounds-WithinBudget (model_stops {s} r within spoke _) h =
        take_response-WithinBudget s r (small _ _ _ r spoke) (within_of_test s within) h
    Rounds-WithinBudget (tools_raise {s} r within spoke _ _) h =
        let taken =
          take_response-WithinBudget s r (small _ _ _ r spoke) (within_of_test s within) h in
        let same = executed_usage r (take_response r s) in
        (omega (arith, taken.0, same), omega (arith, taken.1, same))
    Rounds-WithinBudget {config} (tools_called {s} r within spoke _ _ more) h =
        let taken =
          take_response-WithinBudget s r (small _ _ _ r spoke) (within_of_test s within) h in
        let same = answer_tools_usage r (take_response r s) in
        Rounds-WithinBudget more (omega (arith, taken.0, same), omega (arith, taken.1, same))

    -- Where every response of the model has at most `most` tokens, a run spends at most its budget
    -- and `most` tokens more, its calls of tools included, whether it returns or raises; the total
    -- is the sum of the tokens in and out.
    pub run-WithinBudget : (message : String) → OfRan WithinBudget (run agent context message)
    unfolding run new_session
    run-WithinBudget message =
        Rounds-WithinBudget (turns-Rounds agent context _ _ (new_session message))
          (refl, omega arith)
