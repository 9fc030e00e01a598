-- ===== src/Engine/Dag.antt =====
-- engine/executor.py: `_DagState` and `_build_dag_state`. A dict by step id is a function; the
-- definition was validated before, so every edge joins two steps and no lookup fails.
pub mod Counts
use intelligent_workflow_app.Prelude.{
  ℕ, ◌+◌, String, Bool, true, List, [], ◌∷◌, ◌++◌, foldl, eqb, ltb, ◌&&◌, string_eq, if◌then◌else◌,
}
use intelligent_workflow_app.Workflow.Definition.{Edge}
use intelligent_workflow_app.Workflow.Topology.{update}

pub record DagState : Type 0 where
  pub incoming_total : String → ℕ
  pub incoming_resolved : String → ℕ
  pub incoming_active : String → ℕ
  pub edges_by_source : String → List Edge

-- `state.incoming_total[edge.target] += 1` and `state.edges_by_source[edge.source].append(edge)`
unfoldable pub count_edge : DagState → Edge → DagState
count_edge s e = record s {
  incoming_total = update s.incoming_total e.target (s.incoming_total e.target + 1);
  edges_by_source = update s.edges_by_source e.source (s.edges_by_source e.source ++ e ∷ []);
}

-- An incoming edge of its target is resolved, as active or not.
unfoldable pub resolve_edge : Bool → Edge → DagState → DagState
resolve_edge active e s = record s {
  incoming_resolved = update s.incoming_resolved e.target (s.incoming_resolved e.target + 1);
  incoming_active =
      if active
      then update s.incoming_active e.target (s.incoming_active e.target + 1)
      else s.incoming_active;
}

-- The outgoing edges of a step that is done already count as active.
unfoldable pub resolve_done : DagState → String → DagState
unfolding resolve_edge
resolve_done s sid = foldl (λ x e. resolve_edge true e x) s (s.edges_by_source sid)

unfoldable pub build_dag_state : List Edge → List String → DagState
unfolding count_edge resolve_done
build_dag_state edges already_done =
    let counted =
      foldl count_edge
        (record {
          incoming_total = λ _. 0;
          incoming_resolved = λ _. 0;
          incoming_active = λ _. 0;
          edges_by_source = λ _. [];
        })
        edges in
    foldl resolve_done counted already_done

-- `state.incoming_resolved[sid] == state.incoming_total[sid]`
abbrev pub is_ready : DagState → String → Bool
is_ready s sid = eqb (s.incoming_resolved sid) (s.incoming_total sid)

-- `state.incoming_total[sid] > 0 and state.incoming_active[sid] == 0`
abbrev pub all_inactive : DagState → String → Bool
all_inactive s sid = ltb 0 (s.incoming_total sid) && eqb (s.incoming_active sid) 0
