-- ===== src/Workflow/Topology/Counts.antt =====
-- Edges counted by their ends, and what the loop over the edges builds.
use intelligent_workflow_app.Prelude.{
  ℕ, ◌+◌, ◌≡◌, refl, String, false, not, ◌&&◌, List, [], ◌∷◌, ◌++◌, foldl, contains, count,
  contains-append, ◌==◌, string_eq, if◌then◌else◌, arith,
}
use mathlib.Core.List.{append-nil, append_assoc}
use intelligent_workflow_app.Workflow.Definition.{Edge}
use intelligent_workflow_app.Workflow.Topology.{Graph, add_edge, build}

-- The edges into `v`.
abbrev pub into : String → List Edge → ℕ
into v [] = 0
into v (e ∷ es) = (if v == e.target then 1 else 0) + into v es

-- The edges into `v` whose source is not in `done`.
abbrev pub waiting : List String → String → List Edge → ℕ
waiting done v [] = 0
waiting done v (e ∷ es) =
    (if not (contains done e.source) && v == e.target then 1 else 0) + waiting done v es

-- The targets of the edges that leave `u`.
abbrev pub targets : String → List Edge → List String
targets u [] = []
targets u (e ∷ es) = if u == e.source then e.target ∷ targets u es else targets u es

pub waiting-nil : (v : String) (es : List Edge) → waiting [] v es ≡ into v es
waiting-nil v [] = refl
waiting-nil v (e ∷ es) = omega (arith, waiting-nil v es)

-- A node that joins `done` takes its own edges off the count.
pub waiting-snoc :
    (done : List String) (u v : String) (es : List Edge)
    → contains done u ≡ false
    → waiting (done ++ u ∷ []) v es + count v (targets u es) ≡ waiting done v es
waiting-snoc done u v [] h = refl
waiting-snoc done u v (e ∷ es) h =
    ground (arith, waiting-snoc done u v es h, contains-append e.source done (u ∷ []))

pub fold-in_degree :
    (es : List Edge) (g : Graph) (v : String)
    → (foldl add_edge g es).in_degree v ≡ g.in_degree v + into v es
unfolding add_edge
fold-in_degree [] g v = omega arith
fold-in_degree (e ∷ es) g v = ground (arith, fold-in_degree es (add_edge g e) v)

pub fold-adjacency :
    (es : List Edge) (g : Graph) (u : String)
    → (foldl add_edge g es).adjacency u ≡ g.adjacency u ++ targets u es
unfolding add_edge
fold-adjacency [] g u = rw append-nil
fold-adjacency (e ∷ es) g u = ground (
  arith,
  fold-adjacency es (add_edge g e) u,
  append_assoc (g.adjacency u) (e.target ∷ []) (targets u es),
)

pub build-in_degree : (es : List Edge) (v : String) → (build es).in_degree v ≡ into v es
unfolding build
build-in_degree es v =
    omega (arith, fold-in_degree es (record { in_degree = λ _. 0; adjacency = λ _. [] }) v)

pub build-adjacency : (es : List Edge) (u : String) → (build es).adjacency u ≡ targets u es
unfolding build
build-adjacency es u = fold-adjacency es (record { in_degree = λ _. 0; adjacency = λ _. [] }) u
