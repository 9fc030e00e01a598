-- ===== src/Trace/Schemas/Owners.antt =====
-- trace_projection.py: `_OWNERSHIP`, the owners of the fields of each kind.
use intelligent_workflow_app.Prelude.{String, List, [], ◌∷◌}
use intelligent_workflow_app.Trace.Schema.{Owner, engine, config, business, projection}

abbrev pub step_output_owners : List (String × Owner)
step_output_owners =
    ("model", engine)
    ∷ ("usage", engine)
    ∷ ("cost_usd", engine)
    ∷ ("iterations", engine)
    ∷ ("stop_reason", engine)
    ∷ ("memory_written", engine)
    ∷ ("memory_hash", engine)
    ∷ ("recall_hash", engine)
    ∷ ("num_steps", engine)
    ∷ ("tool_calls", engine)
    ∷ ("parse_ok", business)
    ∷ ("faithfulness_score", business)
    ∷ ("category_score", business)
    ∷ ("relevance_score", business)
    ∷ ("concern_count", business)
    ∷ ("needs_tests", business)
    ∷ ("_redacted", projection)
    ∷ []

abbrev pub step_row_owners : List (String × Owner)
step_row_owners =
    ("id", engine)
    ∷ ("instance_id", engine)
    ∷ ("attempt", engine)
    ∷ ("state", engine)
    ∷ ("started_at", engine)
    ∷ ("completed_at", engine)
    ∷ ("error", engine)
    ∷ ("output", engine)
    ∷ ("step_id", config)
    ∷ ("_redacted", projection)
    ∷ []

abbrev pub instance_owners : List (String × Owner)
instance_owners =
    ("id", engine)
    ∷ ("state", engine)
    ∷ ("created_at", engine)
    ∷ ("started_at", engine)
    ∷ ("completed_at", engine)
    ∷ ("error", engine)
    ∷ ("total_tokens", engine)
    ∷ ("total_cost_usd", engine)
    ∷ ("context", engine)
    ∷ ("trigger_payload", engine)
    ∷ ("org_id", config)
    ∷ ("owner_user_id", config)
    ∷ ("workflow_id", config)
    ∷ ("_redacted", projection)
    ∷ []

abbrev pub context_owners : List (String × Owner)
context_owners =
    ("instance_id", engine)
    ∷ ("total_tokens", engine)
    ∷ ("total_cost_usd", engine)
    ∷ ("dry_run", engine)
    ∷ ("steps", engine)
    ∷ ("trigger", engine)
    ∷ ("org_id", config)
    ∷ ("workflow_id", config)
    ∷ ("capabilities", config)
    ∷ ("_redacted", projection)
    ∷ []
