-- ===== src/Workflow/Topology/Loop.antt =====
-- The invariant of Kahn's loop, and its end.
use intelligent_workflow_app.Prelude.{
  ℕ, zero, suc, ◌+◌, ◌≤◌, ◌≡◌, refl, sym, ◌∙◌, ap, String, Bool, false, ◌&&◌, List, [], ◌∷◌, ◌++◌,
  foldl, keep, contains, count, count-append, count_of_present, length, length-append,
  length_le_of_count, List-cases, Bool-cases, ltb, eqb, string_eq, if◌then◌else◌, arith, inl, inr,
}
use intelligent_workflow_app.Workflow.Definition.{Edge}
use intelligent_workflow_app.Workflow.Topology.{Kahn, relax, visit, loop, start, build}
use intelligent_workflow_app.Workflow.Topology.Counts.{
  into, waiting, targets, waiting-nil, waiting-snoc, build-in_degree,
}

relax-ordered : (ns : List String) (k : Kahn) → (foldl relax k ns).ordered ≡ k.ordered
unfolding relax
relax-ordered [] k = refl
relax-ordered (n ∷ ns) k = relax-ordered ns (relax k n)

relax-in_degree :
    (ns : List String) (k : Kahn)
    → ((v : String) → count v ns ≤ k.in_degree v)
    → (v : String) → (foldl relax k ns).in_degree v + count v ns ≡ k.in_degree v
unfolding relax
relax-in_degree [] k h v = omega arith
relax-in_degree (n ∷ ns) k h v =
    let ih = relax-in_degree ns (relax k n) (λ w. ground (arith, h w)) v in ground (arith, ih, h v)

-- A node is queued exactly when its last edge is taken off.
relax-queue :
    (ns : List String) (k : Kahn)
    → ((v : String) → count v ns ≤ k.in_degree v)
    → (v : String)
    → count v (foldl relax k ns).queue
      ≡ count v k.queue
        + (if ltb 0 (count v ns) && eqb ((foldl relax k ns).in_degree v) 0 then 1 else 0)
unfolding relax
relax-queue [] k h v = omega arith
relax-queue (n ∷ ns) k h v =
    let ih = relax-queue ns (relax k n) (λ w. ground (arith, h w)) v in
    let deg = relax-in_degree ns (relax k n) (λ w. ground (arith, h w)) v in
    ground (arith, ih, deg, h v, count-append v k.queue (n ∷ []))

-- What a definition that passed the earlier checks gives.
pub record IsSound (ids : List String) (es : List Edge) : Type 0 where
  pub unique : (v : String) → count v ids ≤ 1
  pub known : (v : String) → 1 ≤ into v es → count v ids ≡ 1

pub waiting-le-into :
    (done : List String) (v : String) (es : List Edge) → waiting done v es ≤ into v es
waiting-le-into done v [] = omega arith
waiting-le-into done v (e ∷ es) = ground (arith, waiting-le-into done v es)

count-keep :
    (p : String → Bool) (v : String) (xs : List String)
    → count v (keep p xs) ≡ (if p v then count v xs else 0)
count-keep p v [] = ground arith
count-keep p v (x ∷ xs) = ground (arith, count-keep p v xs)

module _ (ids : List String) (es : List Edge) (sound : IsSound ids es) where
  -- A node's degree counts its edges from nodes that are not ordered yet, and the nodes with
  -- none left are those that are ordered or queued, each once.
  pub record IsKahn (k : Kahn) : Type 0 where
    pub degrees : (v : String) → k.in_degree v ≡ waiting k.ordered v es
    pub listed :
        (v : String)
        → count v k.ordered + count v k.queue ≡ (if eqb (k.in_degree v) 0 then count v ids else 0)

  pub start-IsKahn : IsKahn (start ids (build es))
  unfolding start
  start-IsKahn = record {
    degrees = λ v. build-in_degree es v ∙ sym (waiting-nil v es);
    listed = λ v. omega (arith, count-keep (λ sid. eqb ((build es).in_degree sid) 0) v ids);
  }

  -- The head of the queue has no edge left and is not ordered yet.
  pub head_facts :
      (k : Kahn) (node : String) (rest : List String)
      → k.queue ≡ node ∷ rest
      → IsKahn k
      → (k.in_degree node ≡ 0) × (contains k.ordered node ≡ false) × (count node ids ≡ 1)
  head_facts k node rest q h =
      let l : count node k.ordered + count node (node ∷ rest)
          ≡ (if eqb (k.in_degree node) 0 then count node ids else 0) =
        simp q at (h.listed node) in
      elim (Bool-cases (contains k.ordered node)) [
        | inl there ↦
            absurd (ground (arith, l, sound.unique node, count_of_present node k.ordered there))
        | inr absent ↦ (ground (arith, l), absent, ground (arith, l, sound.unique node))
      ]

  module _ (adjacency : String → List String)
      (adj : (u : String) → adjacency u ≡ targets u es) where
    pub visit-IsKahn :
        (k : Kahn) (node : String) (rest : List String)
        → k.queue ≡ node ∷ rest
        → IsKahn k
        → IsKahn (visit adjacency k node rest)
    unfolding visit
    visit-IsKahn k node rest q h =
        let (zero_in, absent, once) = head_facts k node rest q h in
        let ns = adjacency node in
        let done = k.ordered ++ node ∷ [] in
        let k' : Kahn = record k { queue = rest; ordered = done } in
        let off : (v : String) → waiting done v es + count v ns ≡ k.in_degree v =
          λ v. rw (adj node) (waiting-snoc k.ordered node v es absent ∙ sym (h.degrees v)) in
        let fits : (v : String) → count v ns ≤ k.in_degree v = λ v. omega (arith, off v) in
        record {
          degrees =
              λ v. rw (relax-ordered ns k') (omega (arith, off v, relax-in_degree ns k' fits v));
          listed = λ v.
              let l : count v k.ordered + count v (node ∷ rest)
                  ≡ (if eqb (k.in_degree v) 0 then count v ids else 0) =
                simp q at (h.listed v) in
              rw (relax-ordered ns k') (
                ground (
                  arith,
                  l,
                  off v,
                  relax-in_degree ns k' fits v,
                  relax-queue ns k' fits v,
                  count-append v k.ordered (node ∷ []),
                  h.degrees v,
                  waiting-le-into k.ordered v es,
                  sound.known v,
                  zero_in,
                ));
        }

    pub visit-ordered :
        (k : Kahn) (node : String) (rest : List String)
        → (visit adjacency k node rest).ordered ≡ k.ordered ++ node ∷ []
    unfolding visit
    visit-ordered k node rest =
        relax-ordered (adjacency node) (record k { queue = rest; ordered = k.ordered ++ node ∷ [] })

    pub loop-IsKahn : (fuel : ℕ) (k : Kahn) → IsKahn k → IsKahn (loop adjacency fuel k)
    unfolding loop
    loop-IsKahn zero k h = h
    loop-IsKahn (suc fuel) k h = elim (List-cases k.queue) [
      | inl empty ↦ rw (empty, loop) h
      | inr (node, rest, q) ↦
          rw (q, loop)
            (loop-IsKahn fuel (visit adjacency k node rest) (visit-IsKahn k node rest q h))
    ]

    -- The ordered nodes are never more than the steps.
    listed_le : (k : Kahn) → IsKahn k → (v : String) → count v (k.ordered ++ k.queue) ≤ count v ids
    listed_le k h v = ground (arith, h.listed v, count-append v k.ordered k.queue)

    pub room : (k : Kahn) → IsKahn k → length k.ordered + length k.queue ≤ length ids
    room k h = omega (
      arith,
      length_le_of_count (k.ordered ++ k.queue) ids (listed_le k h),
      length-append k.ordered k.queue,
    )

    -- The fuel is enough: the loop ends with an empty queue.
    pub loop-queue :
        (fuel : ℕ) (k : Kahn)
        → IsKahn k
        → length ids ≤ fuel + length k.ordered
        → (loop adjacency fuel k).queue ≡ []
    unfolding loop
    loop-queue zero k h enough = elim (List-cases k.queue) [
      | inl empty ↦ empty
      | inr (node, rest, q) ↦ absurd (omega (arith, room k h, ap length q))
    ]
    loop-queue (suc fuel) k h enough = elim (List-cases k.queue) [
      | inl empty ↦ rw (empty, loop) empty
      | inr (node, rest, q) ↦
          rw (q, loop)
            (loop-queue fuel (visit adjacency k node rest) (visit-IsKahn k node rest q h) (
              omega (
                arith,
                ap length (visit-ordered k node rest),
                length-append k.ordered (node ∷ []),
              )))
    ]
