-- ===== src/Engine/Ancestors.antt =====
-- engine/executor.py: `_ancestors`, the steps whose outputs a fork keeps.
pub mod Laws
use intelligent_workflow_app.Prelude.{
  ℕ, zero, suc, ◌+◌, String, Bool, true, false, List, [], ◌∷◌, contains, length, ◌==◌, string_eq,
  if◌then◌else◌,
}
use intelligent_workflow_app.Workflow.Definition.{Edge}

-- `incoming.get(sid, [])`
unfoldable pub incoming : List Edge → String → List String
incoming [] sid = []
incoming (e ∷ edges) sid =
    let rest = incoming edges sid in if e.target == sid then e.source ∷ rest else rest

-- The variables of the loop; the end of the Python list is the head of `stack`.
pub record Search : Type 0 where
  pub visited : List String
  pub stack : List String

-- The loop over the sources of a step.
unfoldable pub push_new : List String → Search → Search
push_new [] s = s
push_new (src ∷ sources) s = push_new sources (
    if contains s.visited src
    then s
    else record { visited = src ∷ s.visited; stack = src ∷ s.stack })

-- The `while` loop, on fuel.
unfoldable pub search : List Edge → ℕ → Search → Search
unfolding incoming push_new
search edges zero s = s
search edges (suc fuel) s = elim s.stack [
  | [] ↦ s
  | sid ∷ rest ↦ search edges fuel (push_new (incoming edges sid) (record s { stack = rest }))
]

unfoldable pub ancestors : List Edge → String → List String
unfolding search
ancestors edges target_id =
    (search edges (length edges + 1) (record { visited = []; stack = target_id ∷ [] })).visited
