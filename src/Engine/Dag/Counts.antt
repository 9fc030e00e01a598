-- ===== src/Engine/Dag/Counts.antt =====
-- What the counters of a fresh `DagState` are: numbers of edges of the definition.
use intelligent_workflow_app.Prelude.{
  ℕ, ◌+◌, ◌≤◌, ◌≡◌, refl, String, Bool, true, false, ◌&&◌, ◌||◌, List, [], ◌∷◌, All, foldl,
  contains, count, count_of_present, count_if, count_if-append, ◌==◌, string_eq, arith, ◌∙◌, sym,
  ap,
}
use intelligent_workflow_app.Workflow.Definition.{Edge}
use intelligent_workflow_app.Engine.Dag.{
  DagState, count_edge, resolve_edge, resolve_done, build_dag_state,
}

-- The edges into a step, those between two steps, and those into a step from the released ones.
abbrev pub into : String → List Edge → ℕ
into v es = count_if (λ e. e.target == v) es

abbrev pub between : String → String → List Edge → ℕ
between s v es = count_if (λ e. e.source == s && e.target == v) es

abbrev pub released_into : (String → Bool) → String → List Edge → ℕ
released_into rel v es = count_if (λ e. e.target == v && rel e.source) es

pub released_into_ext :
    (rel rel' : String → Bool) (v : String) (es : List Edge)
    → ((s : String) → rel s ≡ rel' s)
    → released_into rel v es ≡ released_into rel' v es
released_into_ext rel rel' v [] h = refl
released_into_ext rel rel' v (e ∷ es) h =
    ground (arith, h e.source, released_into_ext rel rel' v es h)

-- The release of one more step releases the edges from it.
pub released_into-release :
    (rel rel' : String → Bool) (sid v : String) (es : List Edge)
    → ((s : String) → rel' s ≡ (rel s || s == sid))
    → rel sid ≡ false
    → released_into rel' v es ≡ released_into rel v es + between sid v es
released_into-release rel rel' sid v [] h n = refl
released_into-release rel rel' sid v (e ∷ es) h n =
    ground (arith, h e.source, n, released_into-release rel rel' sid v es h n)

-- Where all edges into a step are from released steps by number, they are one by one.
pub All-released :
    (rel : String → Bool) (v : String) (es : List Edge)
    → into v es ≤ released_into rel v es
    → All (λ e. e.target ≡ v → rel e.source ≡ true) es
All-released rel v [] h = tt
All-released rel v (e ∷ es) h = (
  (λ is. ground (arith, h, released_le rel v es)),
  All-released rel v es (ground (arith, h, released_le rel v es)),
)
  where
    released_le :
        (rel : String → Bool) (v : String) (es : List Edge) → released_into rel v es ≤ into v es
    released_le rel v [] = omega arith
    released_le rel v (e ∷ es) = ground (arith, released_le rel v es)

counted :
    (es : List Edge) (s : DagState) (v : String)
    → (foldl count_edge s es).incoming_total v ≡ s.incoming_total v + into v es
unfolding count_edge
counted [] s v = omega arith
counted (e ∷ es) s v = ground (arith, counted es (count_edge s e) v)

counted-sources :
    (es : List Edge) (s : DagState) (i v : String)
    → into v ((foldl count_edge s es).edges_by_source i)
      ≡ into v (s.edges_by_source i) + between i v es
unfolding count_edge
counted-sources [] s i v = omega arith
counted-sources (e ∷ es) s i v = ground (
  arith,
  counted-sources es (count_edge s e) i v,
  count_if-append (λ x. x.target == v) (s.edges_by_source i) (e ∷ []),
)

counted-resolved :
    (es : List Edge) (s : DagState)
    → (foldl count_edge s es).incoming_resolved ≡ s.incoming_resolved
unfolding count_edge
counted-resolved [] s = refl
counted-resolved (e ∷ es) s = counted-resolved es (count_edge s e)

abbrev resolve_all : List Edge → DagState → DagState
resolve_all es s = foldl (λ x e. resolve_edge true e x) s es

resolved :
    (es : List Edge) (s : DagState) (v : String)
    → ((resolve_all es s).incoming_resolved v ≡ s.incoming_resolved v + into v es)
      × ((resolve_all es s).incoming_total ≡ s.incoming_total)
      × ((resolve_all es s).edges_by_source ≡ s.edges_by_source)
unfolding resolve_edge
resolved [] s v = (omega arith, refl, refl)
resolved (e ∷ es) s v =
    let (a, b, c) = resolved es (resolve_edge true e s) v in (ground (arith, a), b, c)

-- The edges out of the steps of a list into a step.
abbrev out_of : (String → List Edge) → List String → String → ℕ
out_of edges [] v = 0
out_of edges (s ∷ sids) v = into v (edges s) + out_of edges sids v

done-resolved :
    (sids : List String) (s : DagState) (v : String)
    → ((foldl resolve_done s sids).incoming_resolved v
        ≡ s.incoming_resolved v + out_of s.edges_by_source sids v)
      × ((foldl resolve_done s sids).incoming_total ≡ s.incoming_total)
      × ((foldl resolve_done s sids).edges_by_source ≡ s.edges_by_source)
unfolding resolve_done
done-resolved [] s v = (omega arith, refl, refl)
done-resolved (i ∷ sids) s v =
    let (a, b, c) = resolved (s.edges_by_source i) s v in
    let (a', b', c') = done-resolved sids (resolve_done s i) v in
    (ground (arith, a, a', ap (λ (f : String → List Edge). out_of f sids v) c), b' ∙ b, c' ∙ c)

released_none : (v : String) (es : List Edge) → released_into (contains []) v es ≡ 0
released_none v [] = refl
released_none v (e ∷ es) = ground (arith, released_none v es)

out_of-released :
    (edges : String → List Edge) (es : List Edge) (sids : List String) (v : String)
    → ((i : String) → into v (edges i) ≡ between i v es)
    → ((i : String) → count i sids ≤ 1)
    → out_of edges sids v ≡ released_into (contains sids) v es
out_of-released edges es [] v h u = sym (released_none v es)
out_of-released edges es (i ∷ sids) v h u =
    let n : contains sids i ≡ false = ground (arith, u i, count_of_present i sids) in
    ground (
      arith,
      h i,
      out_of-released edges es sids v h (λ j. ground (arith, u j)),
      released_into-release (contains sids) (contains (i ∷ sids)) i v es (λ s. ground arith) n,
    )

abbrev zero_state : DagState
zero_state = record {
  incoming_total = λ _. 0;
  incoming_resolved = λ _. 0;
  incoming_active = λ _. 0;
  edges_by_source = λ _. [];
}

module _ (es : List Edge) (already_done : List String) where
  abbrev counted_state : DagState
  counted_state = foldl count_edge zero_state es

  counted_total : (v : String) → counted_state.incoming_total v ≡ into v es
  counted_total v = omega (arith, counted es zero_state v)

  counted_out : (i v : String) → into v (counted_state.edges_by_source i) ≡ between i v es
  counted_out i v = omega (arith, counted-sources es zero_state i v)

  pub build-total : (v : String) → (build_dag_state es already_done).incoming_total v ≡ into v es
  unfolding build_dag_state
  build-total v =
      ap (λ (f : String → ℕ). f v) (done-resolved already_done counted_state v).1 ∙ counted_total v

  pub build-sources :
      (i v : String) → into v ((build_dag_state es already_done).edges_by_source i) ≡ between i v es
  unfolding build_dag_state
  build-sources i v =
      ap (λ (f : String → List Edge). into v (f i)) (done-resolved already_done counted_state v).2
      ∙ counted_out i v

  pub build-resolved :
      ((i : String) → count i already_done ≤ 1)
      → (v : String)
      → (build_dag_state es already_done).incoming_resolved v
        ≡ released_into (contains already_done) v es
  unfolding build_dag_state
  build-resolved u v = omega (
    arith,
    (done-resolved already_done counted_state v).0,
    ap (λ (f : String → ℕ). f v) (counted-resolved es zero_state),
    out_of-released counted_state.edges_by_source es already_done v (λ i. counted_out i v) u,
  )
