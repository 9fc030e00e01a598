-- ===== src/Recovery/Laws.antt =====
-- recovery.py: what a sweep leaves behind, whatever fails during it.
use intelligent_workflow_app.Prelude.{ℕ, ◌≤◌, String, List, Paired, string_eq}
use intelligent_workflow_app.Recovery.Logged.{IsLogged}
use intelligent_workflow_app.Engine.Rows.{WorkflowInstance}
use intelligent_workflow_app.Recovery.{Tables, Surroundings, recover}
use intelligent_workflow_app.Recovery.Steps.{NoneRunning, IsKeptStep}
use intelligent_workflow_app.Recovery.Instances.{IsSwept}

-- What is known of the tables behind some rounds of the loop.
record Aftermath (env : Surroundings) (db : Tables) (r : Tables × ℕ) : Type 0 where
  swept : Paired (IsSwept r.0.steps) db.instances r.0.instances
  steps_kept : Paired (IsKeptStep env) db.steps r.0.steps
  none_started : (other : String) → NoneRunning other db.steps → NoneRunning other r.0.steps
  logged : IsLogged db.audit db.instances r.0.audit r.0.instances r.1

module _ (env : Surroundings) (i : WorkflowInstance) (db : Tables) where
  abbrev tables_after : Tables
  tables_after = (recover env i db).1

-- What a sweep did to the tables, and how many instances it counts.
abbrev pub HasSwept : Surroundings → ℕ → Tables → Tables × ℕ → Type 0
HasSwept env limit db r =
    Paired (IsSwept r.0.steps) db.instances r.0.instances
    × Paired (IsKeptStep env) db.steps r.0.steps
    × IsLogged db.audit db.instances r.0.audit r.0.instances r.1
    × (r.1 ≤ limit)
