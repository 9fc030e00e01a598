-- ===== src/Auth/Grants/Transitions.antt =====
-- The life cycle of a grant: which states lead to which, and what never changes.
use mathlib.Core.Option.{some-injective}
use intelligent_workflow_app.Prelude.{
  ℕ, ◌≡◌, String, Bool, Option, none, some, List, [], ◌∷◌, ◌==◌, string_eq, arith, inl, inr,
  Bool-cases, ◌∙◌, sym, ap, subst,
}
use intelligent_workflow_app.Auth.Grants.{RawTraceGrant}
use intelligent_workflow_app.Auth.Grants.Repository.{save, get, list_for_principal}
use intelligent_workflow_app.Auth.Grants.Rows.{UniqueIds, get-save, save-UniqueIds, list-Current}
use intelligent_workflow_app.Auth.Grants.Service.{World, clear_stale_active}
use intelligent_workflow_app.Auth.Grants.Moves.{Moves, Follows, Follows-refl, expired-Moves}
use intelligent_workflow_app.Auth.Grants.Loops.{clear_keeps}
use intelligent_workflow_app.Auth.Grants.History.{Operation, requests, perform}

module _ (before : List RawTraceGrant) where
  -- A write of a legal move of the row, or of a new row, keeps the relation.
  save-Follows :
      (g : RawTraceGrant) (items : List RawTraceGrant)
      → ((old : RawTraceGrant) → get g.id before ≡ some old → Moves old g)
      → Follows before items
      → Follows before (save g items)
  save-Follows g items moves h i old found = elim (Bool-cases (g.id == i)) [
    | inr differ ↦
        let (g', found', m) = h i old found in (g', ground (arith, get-save i g items, found'), m)
    | inl same ↦
        let is : i ≡ g.id = ground arith in
        (g, ground (arith, get-save i g items), moves old (ap (λ x. get x before) (sym is) ∙ found))
  ]

  -- A row that is read twice is the same grant.
  same_row :
      (g g' old : RawTraceGrant)
      → Moves g g'
      → get g.id before ≡ some g
      → get g.id before ≡ some old
      → Moves old g'
  same_row g g' old m here found =
      subst (λ x. Moves x g') (some-injective g old (sym here ∙ found)) m

-- `uuid4` gives a new grant an id that no row has.
abbrev pub IsFresh : World → Operation → Type 0
IsFresh w (requests a) = get a.id w.grants ≡ none
IsFresh w _ = Unit

module _ (w : World) (u : UniqueIds w.grants) where
  abbrev pub After : List RawTraceGrant → Type 0
  After items = UniqueIds items × Follows w.grants items

  unchanged : After w.grants
  unchanged = (u, Follows-refl w.grants)

  -- A write of a legal move of a row that was read.
  write :
      (g g' : RawTraceGrant) (items : List RawTraceGrant)
      → get g.id w.grants ≡ some g
      → Moves g g'
      → After items
      → After (save g' items)
  write g g' items here m (v, h) = (
    save-UniqueIds g' items v,
    save-Follows w.grants g' items
        (λ old found.
          same_row w.grants g g' old m here (ap (λ i. get i w.grants) (sym m.same_id) ∙ found))
        h,
  )

  pub clear-After :
      (principal : String) (org : Option String) (now : ℕ) (actor : String)
      → After (clear_stale_active principal org now actor w).1.grants
  unfolding clear_stale_active
  clear-After principal org now actor =
      clear_keeps After (λ g. get g.id w.grants ≡ some g) org now actor
        (λ g items here scoped _ h. write g _ items here (expired-Moves g (ground arith)) h)
        (list_for_principal principal w.grants) w (list-Current principal w.grants u) unchanged

module _ (is_space : ℕ → Bool) (dual : Bool) where
  abbrev pub FreshIds : List Operation → World → Type 0
  FreshIds [] w = Unit
  FreshIds (o ∷ operations) w = IsFresh w o × FreshIds operations (perform is_space dual o w)
