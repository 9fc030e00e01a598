-- ===== src/Agent/Conversation.antt =====
-- agent/agent.py: the messages of a run, what is logged of a tool call, and what a run returns. A
-- block of the provider is kept as the two keys that the code reads of it.
use intelligent_workflow_app.Prelude.{
  true, false, ℕ, String, Bool, Option, none, some, List, [], ◌∷◌, ◌<>◌, ◌==◌, string_eq, is_none,
  if◌then◌else◌,
}
use intelligent_workflow_app.Prelude.Int.{ℤ}
use intelligent_workflow_app.Value.{Value, Fields, no_fields}

pub data StopReason : Type 0 where
  end_turn tool_use max_iterations budget_exhausted upstream_max_tokens stop_sequence
        content_filtered guardrail_intervened error :
      StopReason

-- `_coerce_stop_reason`: the member with that value.
unfoldable pub coerce_stop_reason : String → StopReason
coerce_stop_reason raw =
    if raw == "end_turn"
    then end_turn
    else if raw == "tool_use"
    then tool_use
    else if raw == "max_iterations"
    then max_iterations
    else if raw == "budget_exhausted"
    then budget_exhausted
    else if raw == "max_tokens"
    then upstream_max_tokens
    else if raw == "stop_sequence"
    then stop_sequence
    else if raw == "content_filtered"
    then content_filtered
    else if raw == "guardrail_intervened"
    then guardrail_intervened
    else error

pub record AgentPolicy : Type 0 where
  pub max_iterations : ℤ
  pub max_total_tokens : ℤ
  pub inference_config : Option Fields

pub record AgentUsage : Type 0 where
  pub input_tokens : ℕ
  pub output_tokens : ℕ
  pub total_tokens : ℕ
  pub iterations : ℕ
  pub tool_calls : ℕ

-- Why a tool gave no result: the three texts that `_dispatch` writes, or the tool's own.
pub data ToolError : Type 0 where
  capability_denied : String → ToolError
  unknown_tool : String → ToolError
  execution_failed : ToolError
  reported : String → ToolError

pub record ToolResult : Type 0 where
  pub content : Value
  pub failure : Option ToolError

unfoldable pub ok : ToolResult → Bool
ok r = is_none r.failure

pub record ToolCallRecord : Type 0 where
  pub name : String
  pub input : Fields
  pub result : ToolResult
  pub pinned : List String
  pub pin_overrides : List String

pub record ToolUse : Type 0 where
  pub name : String
  pub input : Option Fields
  pub tool_use_id : String

-- The `toolUse` of a block. One without a name or an id, or whose `input` is true and cannot be made a
-- dict, is not readable: the loop over the blocks raises at it.
pub data ToolPart : Type 0 where
  no_tool_use unreadable : ToolPart
  tool_use : ToolUse → ToolPart

pub record Block : Type 0 where
  pub tool_use_part : ToolPart
  pub text_part : Option String

pub record ToolResultBlock : Type 0 where
  pub tool_use_id : String
  pub result : ToolResult
  pub status : String

pub data Message : Type 0 where
  user_text : String → Message
  assistant : List Block → Message
  tool_results : List ToolResultBlock → Message

pub record AgentResult : Type 0 where
  pub output_text : String
  pub stop_reason : StopReason
  pub usage : AgentUsage
  pub messages : List Message
  pub tool_calls : List ToolCallRecord

-- `[c["text"] for c in content if "text" in c]`
unfoldable pub texts : List Block → List String
texts [] = []
texts (b ∷ bs) = let rest = texts bs in elim b.text_part [ none ↦ rest | some t ↦ t ∷ rest ]

-- `"\n".join(parts)`
unfoldable pub join_lines : List String → String
join_lines [] = ""
join_lines (p ∷ []) = p
join_lines (p ∷ q ∷ ps) = p <> "\n" <> join_lines (q ∷ ps)

unfoldable pub extract_text : List Block → String
unfolding texts join_lines
extract_text bs = join_lines (texts bs)

-- `_extract_text(message) or last_text`
unfoldable pub text_or : List Block → String → String
unfolding extract_text
text_or bs last_text = if extract_text bs == "" then last_text else extract_text bs

-- The blocks that `_execute_tool_calls` does not pass over, up to the first one that it cannot read.
unfoldable pub tool_uses : List Block → List ToolUse
tool_uses [] = []
tool_uses (b ∷ bs) =
    let rest = tool_uses bs in
    elim b.tool_use_part [ no_tool_use ↦ rest | unreadable ↦ [] | tool_use tu ↦ tu ∷ rest ]

-- Whether `_execute_tool_calls` comes to its end.
unfoldable pub is_readable : List Block → Bool
is_readable [] = true
is_readable (b ∷ bs) =
    let rest = is_readable bs in
    elim b.tool_use_part [ no_tool_use ↦ rest | unreadable ↦ false | tool_use tu ↦ rest ]

-- `dict(tu.get("input") or {})`
unfoldable pub input_of : ToolUse → Fields
input_of tu = elim tu.input [ none ↦ no_fields | some input ↦ input ]
