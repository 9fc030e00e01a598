-- ===== src/Agent/Loop/Exchange.antt =====
-- The messages of a run, and its log of the tool calls.
use intelligent_workflow_app.Prelude.{
  ◌≡◌, ◌⊎◌, inl, inr, refl, sym, ap, ◌∙◌, ℕ, ◌+◌, String, false, Option, List, [], ◌∷◌, ◌++◌,
  length, length-append, contains, string_eq, arith,
}
use mathlib.Core.List.{append-nil, append_assoc}
use intelligent_workflow_app.Value.{Fields, get, IsDict}
use intelligent_workflow_app.Agent.Conversation.{
  ToolUse, ToolCallRecord, ToolResultBlock, Block, Message, user_text, assistant, tool_results,
  tool_uses, is_readable, input_of,
}
use intelligent_workflow_app.Agent.Registry.{ToolContext}
use intelligent_workflow_app.Agent.Pins.{pinned_keys}
use intelligent_workflow_app.Agent.Pins.Laws.{pin_or, get-pin_params, is_probe, contains-overrides}
use intelligent_workflow_app.Agent.Loop.{
  Agent, Response, Session, Ran, returned, raised, call_tool, call_tools, execute_tool_calls,
  take_response, answer_tools, new_session, run,
}
use intelligent_workflow_app.Agent.Loop.Rounds.{
  Rounds, rounds_out, over_budget, no_response, model_stops, tools_called, tools_raise,
  turns-Rounds,
}

-- The log's entry and the block that answer one tool use of the model.
pub record IsAnswer (agent : Agent) (tu : ToolUse) (c : ToolCallRecord) (r : ToolResultBlock)
    : Type 0 where
  pub of_use : r.tool_use_id ≡ tu.tool_use_id
  pub same_result : r.result ≡ c.result
  pub same_name : c.name ≡ tu.name
  pub same_pins : c.pinned ≡ pinned_keys agent.pinned_tool_params
  -- The pinned parameters have the pinned values, and the others the model's.
  pub pins :
      (key : String)
      → get key c.input ≡ pin_or (get key agent.pinned_tool_params) (get key (input_of tu))
  -- The overrides are the pins to which the model gave another value.
  pub probes :
      (key : String)
      → contains c.pin_overrides key
        ≡ is_probe agent.differs (get key agent.pinned_tool_params) (get key (input_of tu))

-- The tool uses of a message, each with its entry and its block, in order.
abbrev pub Answers : Agent → List ToolUse → List ToolCallRecord → List ToolResultBlock → Type 0
Answers agent [] [] [] = Unit
Answers agent (tu ∷ tus) (c ∷ cs) (r ∷ rs) = IsAnswer agent tu c r × Answers agent tus cs rs
Answers agent _ _ _ = ⊥

-- A log, and the messages that wait for the model: the user's, and then a message of the model with
-- the results of all its tool uses, any number of times.
pub data Exchange (agent : Agent) : List ToolCallRecord → List Message → Type 0 where
  opened : (message : String) → Exchange agent [] (user_text message ∷ [])
  answered :
      {entries more : List ToolCallRecord} {ms more_ms : List Message} (blocks : List Block)
      (cs : List ToolCallRecord) (rs : List ToolResultBlock)
      → Exchange agent entries ms
      → Answers agent (tool_uses blocks) cs rs
      → more ≡ entries ++ cs
      → more_ms ≡ (ms ++ assistant blocks ∷ []) ++ tool_results rs ∷ []
      → Exchange agent more more_ms

-- What a run leaves: an exchange, or one with a last message of the model behind it, and a count of
-- the tool calls.
pub record IsExchange (agent : Agent) (s : Session) : Type 0 where
  pub counted : s.usage.tool_calls ≡ length s.tool_calls
  pub messages :
      Exchange agent s.tool_calls s.messages
      ⊎ ((ms : List Message) × (blocks : List Block) × (s.messages ≡ ms ++ assistant blocks ∷ [])
          × Exchange agent s.tool_calls ms)

-- What a run leaves that raises at a tool use which it cannot read: an exchange, a last message of the
-- model, and entries for the tool uses before that one.
pub record IsBroken (agent : Agent) (s : Session) : Type 0 where
  pub counted : s.usage.tool_calls ≡ length s.tool_calls
  pub ms : List Message
  pub blocks : List Block
  pub entries : List ToolCallRecord
  pub cs : List ToolCallRecord
  pub rs : List ToolResultBlock
  pub last : s.messages ≡ ms ++ assistant blocks ∷ []
  pub before : Exchange agent entries ms
  pub matched : Answers agent (tool_uses blocks) cs rs
  pub logged : s.tool_calls ≡ entries ++ cs
  pub unreadable_use : is_readable blocks ≡ false

abbrev pub Exchanged : Agent → Ran → Type 0
Exchanged agent (returned reason s) = IsExchange agent s
Exchanged agent (raised s) = IsExchange agent s ⊎ IsBroken agent s

module _ (agent : Agent) (context : Option ToolContext)
    (dict : IsDict agent.pinned_tool_params) where
  call_tool-IsAnswer :
      (tu : ToolUse) (s : Session)
      → (let done = call_tool agent context tu s in
          (c : ToolCallRecord) × (done.0.tool_calls ≡ s.tool_calls ++ c ∷ [])
          × (done.0.messages ≡ s.messages)
          × (done.0.usage.tool_calls ≡ s.usage.tool_calls + 1)
          × IsAnswer agent tu c done.1)
  unfolding call_tool
  call_tool-IsAnswer tu s = (
    _,
    refl,
    refl,
    refl,
    record {
      of_use = refl;
      same_result = refl;
      same_name = refl;
      same_pins = refl;
      pins = λ key. get-pin_params key agent.pinned_tool_params (input_of tu) dict;
      probes =
          λ key. contains-overrides agent.differs key agent.pinned_tool_params (input_of tu) dict;
    },
  )

  call_tools-Answers :
      (tus : List ToolUse) (s : Session)
      → (let done = call_tools agent context tus s in
          (cs : List ToolCallRecord) × (done.0.tool_calls ≡ s.tool_calls ++ cs)
          × (done.0.messages ≡ s.messages)
          × (done.0.usage.tool_calls ≡ s.usage.tool_calls + length cs)
          × Answers agent tus cs done.1)
  unfolding call_tools
  call_tools-Answers [] s = ([], sym (append-nil s.tool_calls), refl, omega arith, tt)
  call_tools-Answers (tu ∷ tus) s =
      let (c, logged, same, counted, a) = call_tool-IsAnswer tu s in
      let (cs, logged', same', counted', as') =
        call_tools-Answers tus (call_tool agent context tu s).0 in
      (
        c ∷ cs,
        logged' ∙ ap (λ entries. entries ++ cs) logged ∙ append_assoc s.tool_calls (c ∷ []) cs,
        same' ∙ same,
        omega arith,
        (a, as'),
      )

  -- Every tool use of the model is answered.
  IsOpen : Session → Type 0
  IsOpen s = Exchange agent s.tool_calls s.messages × (s.usage.tool_calls ≡ length s.tool_calls)

  answer_tools-IsOpen :
      (r : Response) (s : Session)
      → IsOpen s
      → IsOpen (answer_tools agent context r (take_response r s))
  unfolding IsOpen answer_tools execute_tool_calls take_response
  answer_tools-IsOpen r s (open_so_far, count) =
      let (s', results) = execute_tool_calls agent context r.message (take_response r s) in
      let (cs, logged, same, counted, matched) =
        call_tools-Answers (tool_uses r.message) (take_response r s) in
      (
        answered r.message cs results open_so_far matched logged
            (ap (λ ms. ms ++ tool_results results ∷ []) same),
        omega (arith, counted, count, ap length logged, length-append s.tool_calls cs),
      )

  Rounds-IsExchange :
      {config : Option Fields} {n : ℕ} {s : Session} {ran : Ran}
      → Rounds agent context config n s ran
      → IsOpen s
      → Exchanged agent ran
  unfolding IsOpen take_response execute_tool_calls
  Rounds-IsExchange rounds_out h = record { counted = h.1; messages = inl h.0 }
  Rounds-IsExchange (over_budget _) h = record { counted = h.1; messages = inl h.0 }
  Rounds-IsExchange (no_response _ _) h = inl (record { counted = h.1; messages = inl h.0 })
  Rounds-IsExchange (model_stops {s} r _ _ _) h = record {
    counted = h.1;
    messages = inr (s.messages, r.message, refl, h.0);
  }
  Rounds-IsExchange (tools_called {s} r _ _ _ _ more) h =
      Rounds-IsExchange more (answer_tools-IsOpen r s h)
  Rounds-IsExchange (tools_raise {s} r _ _ _ broken) h =
      let (cs, logged, same, counted, matched) =
        call_tools-Answers (tool_uses r.message) (take_response r s) in
      inr (record {
        counted = omega (arith, counted, h.1, ap length logged, length-append s.tool_calls cs);
        ms = s.messages;
        blocks = r.message;
        entries = s.tool_calls;
        cs = cs;
        rs = (call_tools agent context (tool_uses r.message) (take_response r s)).1;
        last = same;
        before = h.0;
        matched = matched;
        logged = logged;
        unreadable_use = broken;
      })

  -- The messages that a run leaves are the user's, then messages of the model that are each
  -- answered, and at most one last message of the model. A message is answered by one block and
  -- one entry of the log for every tool use in it, in order: the block has the id of the tool use,
  -- both have the same result, the entry names the tool that the model asked for, its input is the
  -- model's with the pinned values put in, and its overrides are exactly the pinned parameters to
  -- which the model gave another value. The log has nothing else, and the usage counts its entries;
  -- the pins are a dictionary. Where a run raises at a tool use of the last message that cannot be
  -- read, the log also has the entries for the tool uses before it in that message.
  pub run-IsExchange : (message : String) → Exchanged agent (run agent context message)
  unfolding run new_session IsOpen
  run-IsExchange message =
      Rounds-IsExchange (turns-Rounds agent context _ _ (new_session message))
        (opened message, refl)
