-- ===== src/Trace/Schemas.antt =====
-- trace_projection.py: the schemas of the assets, `SCHEMAS`, and the owners of their fields.
pub mod Owners
pub mod Leaves
pub mod Short
pub mod Shown
pub mod Tight
pub mod Laws
use intelligent_workflow_app.Prelude.{String, Bool, true, false, List, [], ◌∷◌}
use intelligent_workflow_app.Trace.Tokens.{enum}
use intelligent_workflow_app.Trace.Schema.{
  Owner, engine, config, business, projection, Node, leaf, obj, seq, tool_calls, trigger_payload,
  Position, undeclared, declared, Children, no_children, child,
}
use intelligent_workflow_app.Trace.Schemas.Owners.{
  step_output_owners, step_row_owners, instance_owners, context_owners,
}
use intelligent_workflow_app.Trace.Schemas.Leaves.{
  Validators, id_leaf, token_leaf, ts_leaf, bool_leaf, count_leaf, amount_leaf, score_leaf,
  marker_leaf, config_leaf,
}

-- The dict of the children of a container.
abbrev pub children : List (String × Node) → Children
children [] = no_children
children (c ∷ cs) = child c.0 c.1 (children cs)

abbrev pub usage_node : Node
usage_node =
    obj
      (children (
        ("input_tokens", count_leaf)
        ∷ ("output_tokens", count_leaf)
        ∷ ("total_tokens", count_leaf)
        ∷ ("cache_read_input_tokens", count_leaf)
        ∷ ("cache_write_input_tokens", count_leaf)
        ∷ ("iterations", count_leaf)
        ∷ ("tool_calls", count_leaf)
        ∷ []))
      undeclared false [] false

abbrev pub cap_policy_node : Validators → Node
cap_policy_node vs =
    obj
      (children (
        ("name", token_leaf)
        ∷ ("tools", (seq (config_leaf vs)))
        ∷ ("file_read", (seq (config_leaf vs)))
        ∷ ("file_write", (seq (config_leaf vs)))
        ∷ ("allowed_hosts", (seq (config_leaf vs)))
        ∷ ("max_tokens_per_call", count_leaf)
        ∷ []))
      undeclared false [] false

abbrev capabilities_node : Validators → Node
capabilities_node vs =
    obj (children (("layers", (seq (cap_policy_node vs))) ∷ [])) undeclared false [] false

abbrev pub step_output_node : Validators → Node
step_output_node vs =
    obj
      (children (
        ("model", token_leaf)
        ∷ ("usage", usage_node)
        ∷ ("cost_usd", (amount_leaf vs))
        ∷ ("iterations", count_leaf)
        ∷ ("stop_reason", token_leaf)
        ∷ ("parse_ok", bool_leaf)
        ∷ ("memory_written", bool_leaf)
        ∷ ("memory_hash", token_leaf)
        ∷ ("recall_hash", token_leaf)
        ∷ ("num_steps", count_leaf)
        ∷ ("faithfulness_score", (score_leaf vs))
        ∷ ("category_score", (score_leaf vs))
        ∷ ("relevance_score", (score_leaf vs))
        ∷ ("concern_count", count_leaf)
        ∷ ("needs_tests", bool_leaf)
        ∷ ("tool_calls", tool_calls)
        ∷ ("_redacted", marker_leaf)
        ∷ []))
      undeclared false step_output_owners true

abbrev pub steps_snapshot_node : Validators → Node
steps_snapshot_node vs = obj (children ([])) (declared (step_output_node vs)) true [] false

abbrev pub audit_detail_node : Validators → Node
audit_detail_node vs =
    obj
      (children (
        ("request_id", id_leaf)
        ∷ (
          "surface",
          (leaf (
              enum (
                "detail" ∷ "explain" ∷ "audit" ∷ "ws" ∷ "memory" ∷ "escalation" ∷ "dry_run" ∷ []))),
        )
        ∷ ("outcome", token_leaf)
        ∷ ("purpose", token_leaf)
        ∷ ("reason_code", token_leaf)
        ∷ ("scope", token_leaf)
        ∷ ("workload_identity", token_leaf)
        ∷ ("kinds", (seq token_leaf))
        ∷ ("intended_kinds", (seq token_leaf))
        ∷ ("released_kinds", (seq token_leaf))
        ∷ ("withheld_kinds", (seq token_leaf))
        ∷ ("principal_id", id_leaf)
        ∷ ("grant_id", id_leaf)
        ∷ ("approved_by", id_leaf)
        ∷ ("requested_by", id_leaf)
        ∷ ("revoked_by", id_leaf)
        ∷ ("approval_mode", token_leaf)
        ∷ ("raw_included", bool_leaf)
        ∷ ("redaction_reason", token_leaf)
        ∷ ("org_bypass", bool_leaf)
        ∷ ("org_scoped", bool_leaf)
        ∷ ("state", token_leaf)
        ∷ ("era", count_leaf)
        ∷ ("attempt", count_leaf)
        ∷ ("type", token_leaf)
        ∷ ("content_hash", token_leaf)
        ∷ ("namespace", id_leaf)
        ∷ ("mode", (leaf (enum ("summary" ∷ "categories" ∷ []))))
        ∷ ("budget_action", token_leaf)
        ∷ ("unrecognized_ids", count_leaf)
        ∷ ("org_id", id_leaf)
        ∷ ("original_id", token_leaf)
        ∷ ("source_instance_id", token_leaf)
        ∷ ("from_step_id", token_leaf)
        ∷ ("preserved_step_ids", (seq token_leaf))
        ∷ ("connector", token_leaf)
        ∷ ("workflow_id", token_leaf)
        ∷ ("instance_id", token_leaf)
        ∷ ("step_ids", (seq token_leaf))
        ∷ ("model", token_leaf)
        ∷ ("author", (leaf (enum ("user" ∷ "third_party" ∷ "system" ∷ []))))
        ∷ ("derived_from", (leaf (enum ("user" ∷ "third_party" ∷ "system" ∷ []))))
        ∷ ("text_hash", token_leaf)
        ∷ ("context_hash", token_leaf)
        ∷ ("cost_usd", (amount_leaf vs))
        ∷ ("threshold_seconds", (amount_leaf vs))
        ∷ ("running_for_seconds", (amount_leaf vs))
        ∷ ("input_tokens", count_leaf)
        ∷ ("output_tokens", count_leaf)
        ∷ ("facts", count_leaf)
        ∷ ("quarantined", count_leaf)
        ∷ ("edges", count_leaf)
        ∷ ("observation", count_leaf)
        ∷ ("trigger", trigger_payload)
        ∷ ("trigger_payload", trigger_payload)
        ∷ ("tool_calls", tool_calls)
        ∷ ("output", (step_output_node vs))
        ∷ ("steps", (steps_snapshot_node vs))
        ∷ ("_redacted", marker_leaf)
        ∷ []))
      undeclared false [] false

abbrev pub context_node : Validators → Node
context_node vs =
    obj
      (children (
        ("instance_id", id_leaf)
        ∷ ("workflow_id", id_leaf)
        ∷ ("org_id", id_leaf)
        ∷ ("trigger", trigger_payload)
        ∷ ("steps", (steps_snapshot_node vs))
        ∷ ("capabilities", (capabilities_node vs))
        ∷ ("total_tokens", count_leaf)
        ∷ ("total_cost_usd", (amount_leaf vs))
        ∷ ("dry_run", bool_leaf)
        ∷ ("_redacted", marker_leaf)
        ∷ []))
      undeclared false context_owners false

abbrev pub instance_node : Validators → Node
instance_node vs =
    obj
      (children (
        ("id", id_leaf)
        ∷ ("workflow_id", id_leaf)
        ∷ ("org_id", id_leaf)
        ∷ ("owner_user_id", id_leaf)
        ∷ ("state", token_leaf)
        ∷ ("error", marker_leaf)
        ∷ ("created_at", ts_leaf)
        ∷ ("started_at", ts_leaf)
        ∷ ("completed_at", ts_leaf)
        ∷ ("trigger_payload", trigger_payload)
        ∷ ("context", (context_node vs))
        ∷ ("total_tokens", count_leaf)
        ∷ ("total_cost_usd", (amount_leaf vs))
        ∷ ("_redacted", marker_leaf)
        ∷ []))
      undeclared false instance_owners false

abbrev pub step_row_node : Validators → Node
step_row_node vs =
    obj
      (children (
        ("id", id_leaf)
        ∷ ("instance_id", id_leaf)
        ∷ ("step_id", id_leaf)
        ∷ ("attempt", count_leaf)
        ∷ ("state", token_leaf)
        ∷ ("error", marker_leaf)
        ∷ ("output", (step_output_node vs))
        ∷ ("started_at", ts_leaf)
        ∷ ("completed_at", ts_leaf)
        ∷ ("_redacted", marker_leaf)
        ∷ []))
      undeclared false step_row_owners false

abbrev pub schemas : Validators → List (String × Node)
schemas vs =
    ("instance", (instance_node vs))
    ∷ ("step_row", (step_row_node vs))
    ∷ ("step_output", (step_output_node vs))
    ∷ ("context", (context_node vs))
    ∷ ("audit_detail", (audit_detail_node vs))
    ∷ []
