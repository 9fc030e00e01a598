-- ===== src/Engine/Ancestors/Laws.antt =====
-- `_ancestors` is reachability, and its fuel is enough.
use intelligent_workflow_app.Prelude.{
  ℕ, zero, suc, ◌+◌, ◌≤◌, ◌≡◌, ◌↔◌, ◌⊎◌, inl, inr, String, true, not, ◌&&◌, ◌||◌, List, [], ◌∷◌,
  contains, length, map, missing, missing-cons, missing_le_length, length-map, ◌==◌, string_eq,
  arith, Bool-cases, List-cases, ap, sym, ◌∙◌,
}
use intelligent_workflow_app.Workflow.Definition.{Edge}
use intelligent_workflow_app.Engine.Ancestors.{incoming, Search, push_new, search, ancestors}

-- A path of edges from a step to another.
pub data Reaches (edges : List Edge) : String → String → Type 0 where
  direct : (s t : String) → contains (incoming edges t) s ≡ true → Reaches edges s t
  through :
      (s u t : String)
      → contains (incoming edges u) s ≡ true
      → Reaches edges u t
      → Reaches edges s t

push_new-visited :
    (ss : List String) (s : Search) (v : String)
    → contains (push_new ss s).visited v ≡ (contains s.visited v || contains ss v)
unfolding push_new
push_new-visited [] s v = ground arith
push_new-visited (x ∷ ss) s v = elim (Bool-cases (contains s.visited x)) [
  | inl seen ↦ rw (seen, push_new) (ground (arith, seen, push_new-visited ss s v))
  | inr new ↦
      rw (new, push_new)
        (ground
          (arith, push_new-visited ss (record { visited = x ∷ s.visited; stack = x ∷ s.stack }) v))
]

push_new-stack :
    (ss : List String) (s : Search) (v : String)
    → contains (push_new ss s).stack v
      ≡ (contains s.stack v || (contains ss v && not (contains s.visited v)))
unfolding push_new
push_new-stack [] s v = ground arith
push_new-stack (x ∷ ss) s v = elim (Bool-cases (contains s.visited x)) [
  | inl seen ↦ rw (seen, push_new) (ground (arith, seen, push_new-stack ss s v))
  | inr new ↦
      rw (new, push_new)
        (ground (
          arith,
          new,
          push_new-stack ss (record { visited = x ∷ s.visited; stack = x ∷ s.stack }) v,
        ))
]

incoming-source :
    (edges : List Edge) (t s : String)
    → contains (incoming edges t) s ≡ true
    → contains (map (λ e. e.source) edges) s ≡ true
unfolding incoming
incoming-source [] t s h = ground arith
incoming-source (e ∷ edges) t s h = ground (arith, incoming-source edges t s)

module _ (edges : List Edge) where
  -- What is left to do: the stack, and the sources that were not visited.
  abbrev work : Search → ℕ
  work s = length s.stack + missing s.visited (map (λ e. e.source) edges)

  push_new-work :
      (ss : List String) (s : Search)
      → ((v : String) → contains ss v ≡ true → contains (map (λ e. e.source) edges) v ≡ true)
      → work (push_new ss s) ≤ work s
  unfolding push_new
  push_new-work [] s h = omega arith
  push_new-work (x ∷ ss) s h = elim (Bool-cases (contains s.visited x)) [
    | inl seen ↦ rw (seen, push_new) (push_new-work ss s (λ v m. h v (ground arith)))
    | inr new ↦
        let known : contains (map (λ e. e.source) edges) x ≡ true = h x (ground arith) in
        rw (new, push_new)
          (ground (
            arith,
            new,
            known,
            missing-cons x s.visited (map (λ e. e.source) edges),
            push_new-work ss (record { visited = x ∷ s.visited; stack = x ∷ s.stack })
                (λ v m. h v (ground arith)),
          ))
  ]

  search-ends : (n : ℕ) (s : Search) → work s ≤ n → (search edges n s).stack ≡ []
  unfolding search
  search-ends zero s h = elim (List-cases s.stack) [
    | inl empty ↦ empty
    | inr (x, rest, e) ↦ absurd (ground (arith, h, ap length e))
  ]
  search-ends (suc n) s h = elim (List-cases s.stack) [
    | inl empty ↦ rw (empty, search) empty
    | inr (x, rest, e) ↦
        let after =
          push_new-work (incoming edges x) (record s { stack = rest }) (incoming-source edges x) in
        rw (e, search) (search-ends n _ (ground (arith, h, ap length e, after)))
  ]

  module _ (target : String) where
    -- Everything that was seen has a path to the target.
    record IsSound (s : Search) : Type 0 where
      visited : (v : String) → contains s.visited v ≡ true → Reaches edges v target
      stack : (v : String) → contains s.stack v ≡ true → (v ≡ target) ⊎ Reaches edges v target

    step-IsSound :
        (x : String) (s : Search)
        → ((x ≡ target) ⊎ Reaches edges x target)
        → IsSound s
        → IsSound (push_new (incoming edges x) s)
    step-IsSound x s here h =
        let from : (v : String) → contains (incoming edges x) v ≡ true → Reaches edges v target =
          λ v m. elim here [
            | inl is ↦ direct v target (ap (λ t. contains (incoming edges t) v) (sym is) ∙ m)
            | inr r ↦ through v x target m r
          ] in
        record {
          visited = λ v m. elim (Bool-cases (contains s.visited v)) [
            | inl old ↦ h.visited v old
            | inr new ↦ from v (ground (arith, push_new-visited (incoming edges x) s v))
          ];
          stack = λ v m. elim (Bool-cases (contains s.stack v)) [
            | inl old ↦ h.stack v old
            | inr new ↦ inr (from v (ground (arith, push_new-stack (incoming edges x) s v)))
          ];
        }

    -- What was seen waits on the stack, or its sources were seen.
    abbrev Closed : Search → Type 0
    Closed s =
        (x : String)
        → (x == target || contains s.visited x) ≡ true
        → (contains s.stack x ≡ true)
          ⊎ ((v : String) → contains (incoming edges x) v ≡ true → contains s.visited v ≡ true)

    step-Closed :
        (y : String) (rest : List String) (s : Search)
        → s.stack ≡ y ∷ rest
        → Closed s
        → Closed (push_new (incoming edges y) (record s { stack = rest }))
    step-Closed y rest s e h x seen =
        let s' : Search = record s { stack = rest } in
        let ss = incoming edges y in
        elim (Bool-cases (x == target || contains s.visited x)) [
          | inr new ↦ inl (ground (arith, push_new-visited ss s' x, push_new-stack ss s' x))
          | inl old ↦ elim (h x old) [
            | inr done ↦ inr (λ v m. ground (arith, done v m, push_new-visited ss s' v))
            | inl waits ↦ elim (Bool-cases (x == y)) [
              | inl same ↦
                  let is : x ≡ y = ground arith in
                  inr (λ v m.
                    let n : contains ss v ≡ true =
                      ap (λ t. contains (incoming edges t) v) (sym is) ∙ m in
                    ground (arith, n, push_new-visited ss s' v))
              | inr other ↦
                  let there : contains (y ∷ rest) x ≡ true =
                    ap (λ l. contains l x) (sym e) ∙ waits in
                  inl (ground (arith, there, push_new-stack ss s' x))
            ]
          ]
        ]

    search-keeps :
        (n : ℕ) (s : Search)
        → IsSound s
        → Closed s
        → IsSound (search edges n s) × Closed (search edges n s)
    unfolding search
    search-keeps zero s h k = (h, k)
    search-keeps (suc n) s h k = elim (List-cases s.stack) [
      | inl empty ↦ rw (empty, search) (h, k)
      | inr (x, rest, e) ↦
          let here = h.stack x (ap (λ l. contains l x) e ∙ ground arith) in
          let popped : IsSound (record s { stack = rest }) = record {
            visited = h.visited;
            stack = λ v m. h.stack v (ap (λ l. contains l v) e ∙ ground (arith, m));
          } in
          rw (e, search)
            (search-keeps n _ (step-IsSound x (record s { stack = rest }) here popped)
              (step-Closed x rest s e k))
    ]

    abbrev start : Search
    start = record { visited = []; stack = target ∷ [] }

    abbrev final : Search
    final = search edges (length edges + 1) start

    start-ends : final.stack ≡ []
    start-ends = search-ends (length edges + 1) start (
        omega (
          arith,
          missing_le_length [] (map (λ e. e.source) edges),
          length-map (λ (e : Edge). e.source) edges,
        ))

    final-keeps : IsSound final × Closed final
    final-keeps =
        search-keeps (length edges + 1) start
          (record { visited = λ v m. absurd (ground arith); stack = λ v m. inl (ground arith) })
          (λ x seen. inl (ground arith))

    reached :
        (s t : String)
        → Reaches edges s t
        → (t == target || contains final.visited t) ≡ true
        → contains final.visited s ≡ true
    reached s t (direct _ _ m) seen = elim (final-keeps.1 t seen) [
      | inl waits ↦ absurd (ground (arith, ap (λ l. contains l t) (sym start-ends) ∙ waits))
      | inr done ↦ done s m
    ]
    reached s t (through _ u _ m r) seen =
        let there : contains final.visited u ≡ true = reached u t r seen in
        elim (final-keeps.1 u (ground (arith, there))) [
          | inl waits ↦ absurd (ground (arith, ap (λ l. contains l u) (sym start-ends) ∙ waits))
          | inr done ↦ done s m
        ]

    -- `_ancestors` gives exactly the steps from which a path of edges leads to the target, so that a
    -- fork keeps all that the target needs and nothing else. Its fuel, one more than the number of the
    -- edges, is enough, also on a graph with cycles.
    pub ancestors-Reaches :
        (s : String) → (contains (ancestors edges target) s ≡ true) ↔ Reaches edges s target
    unfolding ancestors
    ancestors-Reaches s = (λ m. final-keeps.0.visited s m, λ r. reached s target r (ground arith))
