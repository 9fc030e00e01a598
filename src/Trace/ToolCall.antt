-- ===== src/Trace/ToolCall.antt =====
-- trace_projection.py: `safe_tool_call`, with the JSON encoder and the truth of a float as
-- parameters.
pub mod Laws
use intelligent_workflow_app.Prelude.{
  ◌≡◌, refl, ℕ, zero, suc, ◌+◌, ◌*◌, ◌/◌, ◌≤◌, min, String, Bool, true, false, not, ◌&&◌, ◌||◌,
  Option, none, some, List, [], ◌∷◌, contains, length, code_points, is_none, leb, ltb, ◌==◌,
  string_eq, if◌then◌else◌, arith,
}
use intelligent_workflow_app.Prelude.Int.{pos, negsuc}
use intelligent_workflow_app.Value.{
  Value, null, boolean, num, real, text, sequence, mapping, Items, no_items, item, Fields,
  no_fields, entry, get, put,
}
use intelligent_workflow_app.Trace.Markers.{redacted_field, redacted_tool, is_true}
use intelligent_workflow_app.Trace.Tokens.{is_count, has_tokens}
use intelligent_workflow_app.Trace.Schema.{count_items}

-- The number of bytes of `json.dumps(value, sort_keys=True, default=str).encode()`, and whether a
-- float is not zero.
pub record Encoder : Type 0 where
  pub json_size : Value → ℕ
  pub real_is_true : String → Bool

-- `bool(value)`
unfoldable pub truthy : Encoder → Value → Bool
truthy enc null = false
truthy enc (boolean b) = b
truthy enc (num (pos zero)) = false
truthy enc (num _) = true
truthy enc (real s) = enc.real_is_true s
truthy enc (text s) = not (s == "")
truthy enc (sequence no_items) = false
truthy enc (sequence _) = true
truthy enc (mapping no_fields) = false
truthy enc (mapping _) = true

-- `bool(d.get(key))`
abbrev pub truthy_at : Encoder → Option Value → Bool
truthy_at enc none = false
truthy_at enc (some v) = truthy enc v

unfoldable count_fields : Fields → ℕ
count_fields no_fields = 0
count_fields (entry k v fs) = suc (count_fields fs)

-- `len(value)`; `none` is its `TypeError`.
unfoldable pub len : Value → Option ℕ
unfolding count_items count_fields
len (text s) = some (length (code_points s))
len (sequence vs) = some (count_items vs)
len (mapping fs) = some (count_fields fs)
len _ = none

-- `len(d.get(key) or {})`
unfoldable pub len_at : Encoder → Option Value → Option ℕ
unfolding len truthy
len_at enc none = some 0
len_at enc (some v) = if truthy enc v then len v else some 0

-- `_bounded_arity`
abbrev pub bounded_arity : Option Value → ℕ
bounded_arity (some (num (pos n))) = min n 32
bounded_arity _ = 0

-- The largest power of ten up to a number above 0, on fuel.
unfoldable pub magnitude : ℕ → ℕ → ℕ
magnitude zero n = 1
magnitude (suc fuel) n = let power = magnitude fuel (n / 10) in if ltb n 10 then 1 else 10 * power

-- `_bounded_size` of an int; the fuel is the number.
unfoldable pub bounded_size : ℕ → ℕ
unfolding magnitude
bounded_size zero = 0
bounded_size (suc n) = magnitude (suc n) (suc n)

-- `_bounded_size(cb) if _count(cb) else None`
abbrev pub kept_size : Option Value → Option ℕ
kept_size (some (num (pos n))) = if is_count (num (pos n)) then some (bounded_size n) else none
kept_size _ = none

-- `_bounded_size(len(json.dumps(content, …)))`, and `None` for no content.
abbrev pub content_size : Encoder → Option Value → Option ℕ
content_size enc none = none
content_size enc (some null) = none
content_size enc (some v) = some (bounded_size (enc.json_size v))

-- `_resolved_tool_name`, the catalog first.
unfoldable pub resolved_tool_name : Option (List String) → Option Value → String
resolved_tool_name none name = redacted_field
resolved_tool_name (some known) (some (text name)) =
    if contains known name then name else redacted_field
resolved_tool_name (some known) _ = redacted_field

-- The signals that the two branches derive.
pub record Signals : Type 0 where
  pub input_key_count : ℕ
  pub result_ok : Bool
  pub error_present : Bool
  pub content_bytes : Option ℕ

-- The branch of a record that was projected before.
unfoldable pub read_back : Encoder → Fields → Signals
unfolding get truthy bounded_size is_count
read_back enc tc = record {
  input_key_count = bounded_arity (get "input_key_count" tc);
  result_ok = truthy_at enc (get "result_ok" tc);
  error_present = truthy_at enc (get "error_present" tc);
  content_bytes = kept_size (get "content_bytes" tc);
}

-- `tc.get("result") or {}`; `none` where the value has no `get`.
unfoldable pub result_of : Encoder → Option Value → Option Fields
unfolding truthy
result_of enc none = some no_fields
result_of enc (some (mapping fs)) = some fs
result_of enc (some v) = if truthy enc v then none else some no_fields

-- The branch of a raw record; `none` is the exception of a hostile one.
unfoldable pub derive : Encoder → Fields → Option Signals
unfolding get result_of len_at bounded_size
derive enc tc = elim (result_of enc (get "result" tc)) [
  | none ↦ none
  | some result ↦ elim (len_at enc (get "input" tc)) [
    | none ↦ none
    | some arity ↦ some (record {
      input_key_count = min arity 32;
      result_ok = not (truthy_at enc (get "error" result));
      error_present = truthy_at enc (get "error" result);
      content_bytes = content_size enc (get "content" result);
    })
  ]
]

-- The record that is written.
unfoldable pub call_form : String → Bool → Bool → Signals → Fields
call_form name pins probes s =
    let marker = entry "_redacted" (text redacted_tool) (elim s.content_bytes [
      | none ↦ no_fields
      | some n ↦ entry "content_bytes" (num (pos n)) no_fields
    ]) in
    entry "name" (text name) (
      entry "input_key_count" (num (pos s.input_key_count)) (
        entry "result_ok" (boolean s.result_ok) (
          entry "error_present" (boolean s.error_present) (
            entry "pinned_present" (boolean pins)
              (entry "pin_overrides_present" (boolean probes) marker)))))

-- `bool(_token_list(tc.get(key))) or tc.get(flag) is True`
unfoldable pub tokens_or_flag : Option Value → Option Value → Bool
unfolding has_tokens
tokens_or_flag none flag = is_true flag
tokens_or_flag (some v) flag = has_tokens v || is_true flag

abbrev pub was_projected : Fields → Bool
was_projected tc =
    is_none (get "input" tc)
    && (is_none (get "result" tc) && not (is_none (get "input_key_count" tc)))

unfoldable pub safe_tool_call : Encoder → Option (List String) → Fields → Option Fields
unfolding get resolved_tool_name read_back derive call_form tokens_or_flag
safe_tool_call enc known tc =
    let form =
      call_form (resolved_tool_name known (get "name" tc))
        (tokens_or_flag (get "pinned" tc) (get "pinned_present" tc))
        (tokens_or_flag (get "pin_overrides" tc) (get "pin_overrides_present" tc)) in
    if was_projected tc
    then some (form (read_back enc tc))
    else elim (derive enc tc) [ none ↦ none | some s ↦ some (form s) ]
