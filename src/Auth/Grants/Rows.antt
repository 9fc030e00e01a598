-- ===== src/Auth/Grants/Rows.antt =====
-- Laws of the repository's rows: reads after writes, and unique ids.
use mathlib.Core.Option.{some-injective}
use intelligent_workflow_app.Prelude.{
  ◌+◌, ◌≤◌, ◌≡◌, refl, ◌≢◌, inl, inr, sym, ◌∙◌, ap, String, Bool, true, false, none, some, List, [],
  ◌∷◌, All, keep, contains, count_if, ◌==◌, string_eq, if◌then◌else◌, arith, Bool-cases, subst,
}
use intelligent_workflow_app.Auth.Grants.{RawTraceGrant}
use intelligent_workflow_app.Auth.Grants.Repository.{save, get, list_for_principal}

abbrev pub ids : List RawTraceGrant → List String
ids [] = []
ids (g ∷ items) = g.id ∷ ids items

-- A dict has one value for a key.
abbrev pub UniqueIds : List RawTraceGrant → Type 0
UniqueIds [] = Unit
UniqueIds (g ∷ items) = (contains (ids items) g.id ≡ false) × UniqueIds items

pub get-save :
    (i : String) (g : RawTraceGrant) (items : List RawTraceGrant)
    → get i (save g items) ≡ (if g.id == i then some g else get i items)
unfolding get save
get-save i g [] = refl
get-save i g (h ∷ items) = ground (arith, get-save i g items)

contains-ids-save :
    (i : String) (g : RawTraceGrant) (items : List RawTraceGrant)
    → contains (ids items) i ≡ false
    → g.id ≢ i
    → contains (ids (save g items)) i ≡ false
unfolding save
contains-ids-save i g [] h n = ground arith
contains-ids-save i g (x ∷ items) h n = ground (arith, contains-ids-save i g items)

pub save-UniqueIds :
    (g : RawTraceGrant) (items : List RawTraceGrant) → UniqueIds items → UniqueIds (save g items)
unfolding save
save-UniqueIds g [] u = (refl, tt)
save-UniqueIds g (x ∷ items) u =
    ground (arith, save-UniqueIds g items, contains-ids-save x.id g items)

pub get_of_absent :
    (i : String) (items : List RawTraceGrant) → contains (ids items) i ≡ false → get i items ≡ none
unfolding get
get_of_absent i [] h = refl
get_of_absent i (x ∷ items) h = ground (arith, get_of_absent i items)

pub count_if-save :
    (f : RawTraceGrant → Bool) (g : RawTraceGrant) (items : List RawTraceGrant)
    → count_if f (save g items) ≤ count_if f items + (if f g then 1 else 0)
unfolding save
count_if-save f g [] = omega arith
count_if-save f g (x ∷ items) = ground (arith, count_if-save f g items)

pub All-save :
    (P : RawTraceGrant → Type 0) (g : RawTraceGrant) (items : List RawTraceGrant)
    → P g
    → All P items
    → All P (save g items)
unfolding save
All-save P g [] p h = (p, tt)
All-save P g (x ∷ items) p h = ground (arith, All-save P g items p h.1)

-- The copies are what the rows hold now.
abbrev pub Current : List RawTraceGrant → List RawTraceGrant → Type 0
Current gs items = All (λ g. get g.id items ≡ some g) gs

Current-cons :
    (x : RawTraceGrant) (gs items : List RawTraceGrant)
    → contains (ids gs) x.id ≡ false
    → Current gs items
    → Current gs (x ∷ items)
unfolding get
Current-cons x [] items n c = tt
Current-cons x (g ∷ gs) items n c =
    (ground (arith, c.0), Current-cons x gs items (ground arith) c.1)

Current-self : (items : List RawTraceGrant) → UniqueIds items → Current items items
unfolding get
Current-self [] u = tt
Current-self (x ∷ items) u = (ground arith, Current-cons x items items u.0 (Current-self items u.1))

pub Current-save :
    (x : RawTraceGrant) (gs items : List RawTraceGrant)
    → contains (ids gs) x.id ≡ false
    → Current gs items
    → Current gs (save x items)
Current-save x [] items n c = tt
Current-save x (g ∷ gs) items n c =
    (ground (arith, c.0, get-save g.id x items), Current-save x gs items (ground arith) c.1)

All-keep :
    (P : RawTraceGrant → Type 0) (p : RawTraceGrant → Bool) (items : List RawTraceGrant)
    → All P items
    → All P (keep p items)
All-keep P p [] h = tt
All-keep P p (x ∷ items) h = ground (arith, All-keep P p items h.1, h.0)

contains-ids-keep :
    (p : RawTraceGrant → Bool) (items : List RawTraceGrant) (i : String)
    → contains (ids items) i ≡ false
    → contains (ids (keep p items)) i ≡ false
contains-ids-keep p [] i h = refl
contains-ids-keep p (x ∷ items) i h = ground (arith, contains-ids-keep p items i)

keep-UniqueIds :
    (p : RawTraceGrant → Bool) (items : List RawTraceGrant)
    → UniqueIds items
    → UniqueIds (keep p items)
keep-UniqueIds p [] u = tt
keep-UniqueIds p (x ∷ items) u =
    ground (arith, keep-UniqueIds p items u.1, contains-ids-keep p items x.id u.0)

pub get-id :
    (i : String) (items : List RawTraceGrant) (g : RawTraceGrant) → get i items ≡ some g → g.id ≡ i
unfolding get
get-id i [] g h = absurd (cc)
get-id i (x ∷ items) g h = elim (Bool-cases (x.id == i)) [
  | inl this ↦
      ap (λ (q : RawTraceGrant). q.id) (sym (some-injective x g (ground (arith, h)))) ∙ ground arith
  | inr other ↦ get-id i items g (ground arith)
]

-- Where every row that a read finds has a property, all have it.
pub All-get :
    (P : RawTraceGrant → Type 0) (items : List RawTraceGrant)
    → UniqueIds items
    → ((i : String) (g : RawTraceGrant) → get i items ≡ some g → P g)
    → All P items
All-get P items u h = go items (Current-self items u)
  where
    go : (gs : List RawTraceGrant) → Current gs items → All P gs
    go [] c = tt
    go (g ∷ gs) c = (h g.id g c.0, go gs c.1)

pub get-All :
    (P : RawTraceGrant → Type 0) (items : List RawTraceGrant) (i : String) (g : RawTraceGrant)
    → All P items
    → get i items ≡ some g
    → P g
unfolding get
get-All P [] i g h e = absurd (cc)
get-All P (x ∷ items) i g h e = elim (Bool-cases (x.id == i)) [
  | inl this ↦ subst P (some-injective x g (ground (arith, e))) h.0
  | inr other ↦ get-All P items i g h.1 (ground arith)
]

module _ (principal : String) (items : List RawTraceGrant) (u : UniqueIds items) where
  pub list-Current : Current (list_for_principal principal items) items
  unfolding list_for_principal
  list-Current =
      All-keep (λ g. get g.id items ≡ some g) (λ g. g.principal_id == principal) items
        (Current-self items u)

  pub list-UniqueIds : UniqueIds (list_for_principal principal items)
  unfolding list_for_principal
  list-UniqueIds = keep-UniqueIds (λ g. g.principal_id == principal) items u

pub list-All :
    (P : RawTraceGrant → Type 0) (principal : String) (items : List RawTraceGrant)
    → All P items
    → All P (list_for_principal principal items)
unfolding list_for_principal
list-All P principal items h = All-keep P (λ g. g.principal_id == principal) items h

-- A read that finds a grant of the principal finds one that is listed.
pub get-listed :
    (principal : String) (items : List RawTraceGrant) (i : String) (g : RawTraceGrant)
    → get i items ≡ some g
    → g.principal_id ≡ principal
    → contains (ids (list_for_principal principal items)) i ≡ true
unfolding get list_for_principal
get-listed principal [] i g h e = absurd (cc)
get-listed principal (x ∷ items) i g h e = elim (Bool-cases (x.id == i)) [
  | inl this ↦
      let is = some-injective x g (ground (arith, h)) in
      let of : x.principal_id ≡ principal = ap (λ (q : RawTraceGrant). q.principal_id) is ∙ e in
      ground arith
  | inr other ↦ ground (arith, get-listed principal items i g (ground arith) e)
]
