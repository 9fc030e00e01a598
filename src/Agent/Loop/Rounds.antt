-- ===== src/Agent/Loop/Rounds.antt =====
-- The rounds of `Agent.run` as a relation: what a run from a session may lead to.
use intelligent_workflow_app.Prelude.{
  ◌≡◌, refl, ap, ◌∙◌, subst, ℕ, zero, suc, String, Bool, true, false, Option, none, some, ◌==◌,
  string_eq, arith, inl, inr, Bool-cases, Option-cases,
}
use intelligent_workflow_app.Value.{Fields}
use intelligent_workflow_app.Agent.Conversation.{
  end_turn, max_iterations, is_readable, budget_exhausted, coerce_stop_reason,
}
use intelligent_workflow_app.Agent.Registry.{ToolContext}
use intelligent_workflow_app.Agent.Loop.{
  Agent, Response, Session, Ran, returned, raised, take_response, execute_tool_calls, answer_tools,
  exceeds, raw_stop, turns,
}

module _ (agent : Agent) (context : Option ToolContext) (config : Option Fields) where
  abbrev pub is_over : Session → Bool
  is_over s = exceeds s.usage.total_tokens agent.policy.max_total_tokens

  abbrev pub heard : Session → Option Response
  heard s = agent.converse s.usage.iterations s.messages config

  -- With a number of rounds left, a session leads to an end.
  pub data Rounds : ℕ → Session → Ran → Type 0 where
    rounds_out : {s : Session} → Rounds 0 s (returned max_iterations s)
    over_budget :
        {n : ℕ} {s : Session} → is_over s ≡ true → Rounds (suc n) s (returned budget_exhausted s)
    no_response :
        {n : ℕ} {s : Session} → is_over s ≡ false → heard s ≡ none → Rounds (suc n) s (raised s)
    model_stops :
        {n : ℕ} {s : Session} (r : Response)
        → is_over s ≡ false
        → heard s ≡ some r
        → (raw_stop r == "tool_use") ≡ false
        → Rounds (suc n) s (returned (coerce_stop_reason (raw_stop r)) (take_response r s))
    tools_called :
        {n : ℕ} {s : Session} {ran : Ran} (r : Response)
        → is_over s ≡ false
        → heard s ≡ some r
        → (raw_stop r == "tool_use") ≡ true
        → is_readable r.message ≡ true
        → Rounds n (answer_tools agent context r (take_response r s)) ran
        → Rounds (suc n) s ran
    tools_raise :
        {n : ℕ} {s : Session} (r : Response)
        → is_over s ≡ false
        → heard s ≡ some r
        → (raw_stop r == "tool_use") ≡ true
        → is_readable r.message ≡ false
        → Rounds
            (suc n)
            s
            (raised (execute_tool_calls agent context r.message (take_response r s)).0)

  end_turn_coerced : coerce_stop_reason "end_turn" ≡ end_turn
  unfolding coerce_stop_reason string_eq
  end_turn_coerced = refl

  end_turn_stops : ◌==◌ {A = String} "end_turn" "tool_use" ≡ false
  unfolding string_eq
  end_turn_stops = refl

  end_turn-Rounds :
      (n : ℕ) (s : Session) (r : Response)
      → is_over s ≡ false
      → heard s ≡ some r
      → raw_stop r ≡ "end_turn"
      → Rounds (suc n) s (returned end_turn (take_response r s))
  end_turn-Rounds n s r within spoke e =
      let coerced = ap coerce_stop_reason e ∙ end_turn_coerced in
      let stops = ap (λ raw. raw == "tool_use") e ∙ end_turn_stops in
      subst (λ reason. Rounds (suc n) s (returned reason (take_response r s))) coerced
        (model_stops r within spoke stops)

  eq_of_test : (a b : String) → (a == b) ≡ true → a ≡ b
  eq_of_test a b h = ground arith

  pub turns-Rounds : (n : ℕ) (s : Session) → Rounds n s (turns n agent context config s)
  unfolding turns
  turns-Rounds zero s = rounds_out
  turns-Rounds (suc n) s = elim (Bool-cases (is_over s)) [
    | inl over ↦ rw over (over_budget over)
    | inr within ↦ elim (Option-cases (heard s)) [
      | inl silent ↦ rw (within, silent) (no_response within silent)
      | inr (r, spoke) ↦ elim (Bool-cases (raw_stop r == "end_turn")) [
        | inl ends ↦
            rw (within, spoke, ends) (end_turn-Rounds n s r within spoke (eq_of_test _ _ ends))
        | inr on ↦ elim (Bool-cases (raw_stop r == "tool_use")) [
          | inl uses ↦ elim (Bool-cases (is_readable r.message)) [
            | inl readable ↦
                rw (within, spoke, on, uses, readable)
                  (tools_called r within spoke uses readable (turns-Rounds n _))
            | inr broken ↦
                rw (within, spoke, on, uses, broken) (tools_raise r within spoke uses broken)
          ]
          | inr stops ↦ rw (within, spoke, on, stops) (model_stops r within spoke stops)
        ]
      ]
    ]
  ]
