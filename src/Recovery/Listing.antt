-- ===== src/Recovery/Listing.antt =====
-- persistence/memory.py: `list_by_state`, as the sweep calls it.
use intelligent_workflow_app.Prelude.{
  String, any, eq_self, ◌≡◌, refl, ℕ, zero, suc, ◌≤◌, inl, inr, Bool, true, false, List, [], ◌∷◌,
  keep, take, length, All, All-take, leb, ◌==◌, string_eq, arith, Bool-cases, clash,
}
use intelligent_workflow_app.Engine.Rows.{WorkflowInstance, is_running}
use intelligent_workflow_app.Recovery.{insert_by_age, sort_by_age, list_running}
use intelligent_workflow_app.Recovery.Instances.{IsCopy}

-- No two rows have one id, as in a table with a primary key.
abbrev pub Distinct : List WorkflowInstance → Type 0
Distinct [] = Unit
Distinct (i ∷ items) = All (λ j. (j.id == i.id) ≡ false) items × Distinct items

insert_by_age-All :
    (P : WorkflowInstance → Type 0) (i : WorkflowInstance) (items : List WorkflowInstance)
    → P i
    → All P items
    → All P (insert_by_age i items)
unfolding insert_by_age
insert_by_age-All P i [] p h = (p, tt)
insert_by_age-All P i (j ∷ items) p h = elim (Bool-cases (leb i.created_at j.created_at)) [
  | inl before ↦ rw (before) (p, h)
  | inr behind ↦ rw (behind) (h.0, insert_by_age-All P i items p h.1)
]

sort_by_age-All :
    (P : WorkflowInstance → Type 0) (items : List WorkflowInstance)
    → All P items
    → All P (sort_by_age items)
unfolding sort_by_age
sort_by_age-All P [] h = tt
sort_by_age-All P (i ∷ items) h =
    insert_by_age-All P i (sort_by_age items) h.0 (sort_by_age-All P items h.1)

keep-All :
    (P : WorkflowInstance → Type 0) (p : WorkflowInstance → Bool) (items : List WorkflowInstance)
    → All P items
    → All P (keep p items)
keep-All P p [] h = tt
keep-All P p (i ∷ items) h = elim (Bool-cases (p i)) [
  | inl fits ↦ rw (fits) (h.0, keep-All P p items h.1)
  | inr bars ↦ rw (bars) (keep-All P p items h.1)
]

-- The tables are listed as they are, less some rows and in another order.
listed-All :
    (P : WorkflowInstance → Type 0) (limit : ℕ) (items : List WorkflowInstance)
    → All P (keep (λ i. is_running i.state) items)
    → All P (list_running limit items)
unfolding list_running
listed-All P limit items h =
    All-take P limit (sort_by_age (keep (λ i. is_running i.state) items))
      (sort_by_age-All P (keep (λ i. is_running i.state) items) h)

running_all :
    (items : List WorkflowInstance)
    → All (λ i. is_running i.state ≡ true) (keep (λ i. is_running i.state) items)
running_all [] = tt
running_all (i ∷ items) = elim (Bool-cases (is_running i.state)) [
  | inl fits ↦ rw (fits) (fits, running_all items)
  | inr bars ↦ rw (bars) (running_all items)
]

pub list_running-All :
    (limit : ℕ) (items : List WorkflowInstance)
    → All (λ i. is_running i.state ≡ true) (list_running limit items)
list_running-All limit items =
    listed-All (λ i. is_running i.state ≡ true) limit items (running_all items)

insert_by_age-Distinct :
    (i : WorkflowInstance) (items : List WorkflowInstance)
    → All (λ j. (j.id == i.id) ≡ false) items
    → Distinct items
    → Distinct (insert_by_age i items)
unfolding insert_by_age
insert_by_age-Distinct i [] h d = (tt, tt)
insert_by_age-Distinct i (j ∷ items) h d = elim (Bool-cases (leb i.created_at j.created_at)) [
  | inl before ↦ rw (before) (h, d)
  | inr behind ↦ rw (behind) (
    insert_by_age-All (λ k. (k.id == j.id) ≡ false) i items (ground (arith, h.0)) d.0,
    insert_by_age-Distinct i items h.1 d.1,
  )
]

sort_by_age-Distinct :
    (items : List WorkflowInstance) → Distinct items → Distinct (sort_by_age items)
unfolding sort_by_age
sort_by_age-Distinct [] d = tt
sort_by_age-Distinct (i ∷ items) d =
    insert_by_age-Distinct i (sort_by_age items)
      (sort_by_age-All (λ j. (j.id == i.id) ≡ false) items d.0) (sort_by_age-Distinct items d.1)

keep-Distinct :
    (p : WorkflowInstance → Bool) (items : List WorkflowInstance)
    → Distinct items
    → Distinct (keep p items)
keep-Distinct p [] d = tt
keep-Distinct p (i ∷ items) d = elim (Bool-cases (p i)) [
  | inl fits ↦
      rw (fits) (keep-All (λ j. (j.id == i.id) ≡ false) p items d.0, keep-Distinct p items d.1)
  | inr bars ↦ rw (bars) (keep-Distinct p items d.1)
]

take-Distinct : (n : ℕ) (items : List WorkflowInstance) → Distinct items → Distinct (take n items)
take-Distinct zero items d = tt
take-Distinct (suc n) [] d = tt
take-Distinct (suc n) (i ∷ items) d =
    (All-take (λ j. (j.id == i.id) ≡ false) n items d.0, take-Distinct n items d.1)

pub list_running-Distinct :
    (limit : ℕ) (items : List WorkflowInstance)
    → Distinct items
    → Distinct (list_running limit items)
unfolding list_running
list_running-Distinct limit items d =
    take-Distinct limit (sort_by_age (keep (λ i. is_running i.state) items)) (
      sort_by_age-Distinct (keep (λ i. is_running i.state) items)
        (keep-Distinct (λ i. is_running i.state) items d))

apart-IsCopy :
    (i : WorkflowInstance) (items : List WorkflowInstance)
    → All (λ j. (j.id == i.id) ≡ false) items
    → IsCopy items i
apart-IsCopy i [] h = tt
apart-IsCopy i (j ∷ items) h = (λ same. absurd (clash same h.0), apart-IsCopy i items h.1)

more-IsCopy :
    (i : WorkflowInstance) (rows items : List WorkflowInstance)
    → All (λ j. (j.id == i.id) ≡ false) items
    → All (IsCopy rows) items
    → All (IsCopy (i ∷ rows)) items
more-IsCopy i rows [] h copies = tt
more-IsCopy i rows (j ∷ items) h copies =
    ((λ same. absurd (ground (arith, same, h.0)), copies.0), more-IsCopy i rows items h.1 copies.1)

rows-IsCopy : (rows : List WorkflowInstance) → Distinct rows → All (IsCopy rows) rows
rows-IsCopy [] d = tt
rows-IsCopy (i ∷ rows) d =
    ((λ _. refl, apart-IsCopy i rows d.0), more-IsCopy i rows rows d.0 (rows-IsCopy rows d.1))

pub list_running-IsCopy :
    (limit : ℕ) (items : List WorkflowInstance)
    → Distinct items
    → All (IsCopy items) (list_running limit items)
list_running-IsCopy limit items d =
    listed-All (IsCopy items) limit items
      (keep-All (IsCopy items) (λ i. is_running i.state) items (rows-IsCopy items d))

stored :
    (rows items : List WorkflowInstance)
    → ((i : String) → any (λ r. r.id == i) items ≡ true → any (λ r. r.id == i) rows ≡ true)
    → All (λ i. any (λ r. r.id == i.id) rows ≡ true) items
stored rows [] f = tt
stored rows (i ∷ items) f =
    (f i.id (ground (arith, eq_self i.id)), stored rows items (λ a h. f a (ground (arith, h))))

pub list_running-stored :
    (limit : ℕ) (items : List WorkflowInstance)
    → All (λ i. any (λ r. r.id == i.id) items ≡ true) (list_running limit items)
list_running-stored limit items =
    listed-All (λ i. any (λ r. r.id == i.id) items ≡ true) limit items
      (keep-All (λ i. any (λ r. r.id == i.id) items ≡ true) (λ i. is_running i.state) items
        (stored items items (λ i h. h)))

take-length : (n : ℕ) (items : List WorkflowInstance) → length (take n items) ≤ n
take-length zero items = omega arith
take-length (suc n) [] = omega arith
take-length (suc n) (i ∷ items) = omega (arith, take-length n items)

pub list_running-length :
    (limit : ℕ) (items : List WorkflowInstance) → length (list_running limit items) ≤ limit
unfolding list_running
list_running-length limit items =
    take-length limit (sort_by_age (keep (λ i. is_running i.state) items))
