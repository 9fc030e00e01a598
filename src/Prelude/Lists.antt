-- ===== src/Prelude/Lists.antt =====
-- Lists measured by native numbers: length, membership, counting, positions.
use Prim.Native.Nat.{ℕ, zero, suc, ◌+◌, ◌≤◌, ◌<◌}
use mathlib.Core.Path.{◌≡◌, refl, ap}
use mathlib.Core.Logic.{◌⊎◌, inl, inr}
use mathlib.Core.Bool.{Bool, true, false, not, ◌&&◌, ◌||◌}
use mathlib.Core.List.{List, [], ◌∷◌, ◌++◌, map}
use native.Mathlib.Omega.{arith}
use intelligent_workflow_app.Prelude.Equality.{Eq, ◌==◌, eq_self, contains, if◌then◌else◌}

module _ {ℓ} {A : Type ℓ} where
  abbrev pub length : List A → ℕ
  length [] = 0
  length (x ∷ xs) = suc (length xs)

  pub length-append : (xs ys : List A) → length (xs ++ ys) ≡ length xs + length ys
  length-append [] ys = omega arith
  length-append (x ∷ xs) ys = omega (arith, length-append xs ys)

  pub List-cases : (xs : List A) → (xs ≡ []) ⊎ ((x : A) × (rest : List A) × (xs ≡ x ∷ rest))
  List-cases [] = inl refl
  List-cases (x ∷ xs) = inr (x, xs, refl)

  -- A predicate that holds of every item; it computes to a tuple.
  abbrev pub All {κ} : (A → Type κ) → List A → Type κ
  All P [] = Unit
  All P (x ∷ xs) = P x × All P xs

  -- A predicate that holds of some item; it computes to a sum.
  abbrev pub Some : (A → Type 0) → List A → Type 0
  Some P [] = ⊥
  Some P (x ∷ xs) = P x ⊎ Some P xs

  pub Some-map : (P Q : A → Type 0) (xs : List A) → ((x : A) → P x → Q x) → Some P xs → Some Q xs
  Some-map P Q [] f h = h
  Some-map P Q (x ∷ xs) f (inl p) = inl (f x p)
  Some-map P Q (x ∷ xs) f (inr p) = inr (Some-map P Q xs f p)

  -- Two lists of one length, whose items at the same place are related.
  abbrev pub Paired : (A → A → Type 0) → List A → List A → Type 0
  Paired R [] [] = Unit
  Paired R (x ∷ xs) (y ∷ ys) = R x y × Paired R xs ys
  Paired R _ _ = ⊥

  pub Paired-refl : (R : A → A → Type 0) (xs : List A) → ((x : A) → R x x) → Paired R xs xs
  Paired-refl R [] f = tt
  Paired-refl R (x ∷ xs) f = (f x, Paired-refl R xs f)

  pub Paired-compose :
      (R S T : A → A → Type 0)
      → ((x y z : A) → R x y → S y z → T x z)
      → (xs ys zs : List A) → Paired R xs ys
      → Paired S ys zs
      → Paired T xs zs
  Paired-compose R S T f [] [] [] h g = tt
  Paired-compose R S T f [] [] (z ∷ zs) h g = elim g [ ]
  Paired-compose R S T f [] (y ∷ ys) zs h g = elim h [ ]
  Paired-compose R S T f (x ∷ xs) [] zs h g = elim h [ ]
  Paired-compose R S T f (x ∷ xs) (y ∷ ys) [] h g = elim g [ ]
  Paired-compose R S T f (x ∷ xs) (y ∷ ys) (z ∷ zs) h g =
      (f x y z h.0 g.0, Paired-compose R S T f xs ys zs h.1 g.1)

  abbrev pub take : ℕ → List A → List A
  take zero xs = []
  take (suc n) [] = []
  take (suc n) (x ∷ xs) = x ∷ take n xs

  pub All-take : (P : A → Type 0) (n : ℕ) (xs : List A) → All P xs → All P (take n xs)
  All-take P zero xs h = tt
  All-take P (suc n) [] h = tt
  All-take P (suc n) (x ∷ xs) h = (h.0, All-take P n xs h.1)

  pub take_all : (n : ℕ) (xs : List A) → length xs ≤ n → take n xs ≡ xs
  take_all zero [] h = refl
  take_all zero (x ∷ xs) h = absurd (omega arith)
  take_all (suc n) [] h = refl
  take_all (suc n) (x ∷ xs) h = ap (◌∷◌ x) (take_all n xs (omega arith))

  -- Python's `any` and `all` over a generator, and a comprehension's filter.
  abbrev pub any : (A → Bool) → List A → Bool
  any p [] = false
  any p (x ∷ xs) = p x || any p xs

  abbrev pub all : (A → Bool) → List A → Bool
  all p [] = true
  all p (x ∷ xs) = p x && all p xs

  abbrev pub keep : (A → Bool) → List A → List A
  keep p [] = []
  keep p (x ∷ xs) = if p x then x ∷ keep p xs else keep p xs

  abbrev pub count_if : (A → Bool) → List A → ℕ
  count_if p [] = 0
  count_if p (x ∷ xs) = (if p x then 1 else 0) + count_if p xs

  pub count_if-append :
      (p : A → Bool) (xs ys : List A) → count_if p (xs ++ ys) ≡ count_if p xs + count_if p ys
  count_if-append p [] ys = omega arith
  count_if-append p (x ∷ xs) ys = omega (arith, count_if-append p xs ys)

module _ {ℓ} {A : Type ℓ} ⦃e : Eq A⦄ where
  abbrev pub count : A → List A → ℕ
  count a [] = 0
  count a (x ∷ xs) = (if a == x then 1 else 0) + count a xs

  pub count-append :
      (a : A) (front back : List A) → count a (front ++ back) ≡ count a front + count a back
  count-append a [] back = ground arith
  count-append a (b ∷ front) back = ground (arith, count-append a front back)

  pub count_of_absent : (a : A) (xs : List A) → contains xs a ≡ false → count a xs ≡ 0
  count_of_absent a [] h = refl
  count_of_absent a (x ∷ xs) h = ground (arith, count_of_absent a xs)

  pub count_of_present : (a : A) (xs : List A) → contains xs a ≡ true → 1 ≤ count a xs
  count_of_present a [] h = ground arith
  count_of_present a (x ∷ xs) h = ground (arith, count_of_present a xs)

  pub contains-append :
      (a : A) (xs ys : List A) → contains (xs ++ ys) a ≡ (contains xs a || contains ys a)
  contains-append a [] ys = refl
  contains-append a (x ∷ xs) ys = ground (arith, contains-append a xs ys)

  pub All-contains :
      (whole xs : List A)
      → ((a : A) → contains xs a ≡ true → contains whole a ≡ true)
      → All (λ a. contains whole a ≡ true) xs
  All-contains whole [] h = tt
  All-contains whole (x ∷ xs) h =
      (h x (ground (arith, eq_self x)), All-contains whole xs (λ a m. h a (ground arith)))

  -- The position of the first occurrence, and the length where there is none.
  abbrev pub index : A → List A → ℕ
  index a [] = 0
  index a (x ∷ xs) = if a == x then 0 else suc (index a xs)

  -- `list.remove`, which drops the first occurrence.
  abbrev pub erase : A → List A → List A
  erase a [] = []
  erase a (x ∷ xs) = if a == x then xs else x ∷ erase a xs

  pub length-erase : (a : A) (xs : List A) → 1 ≤ count a xs → suc (length (erase a xs)) ≡ length xs
  length-erase a [] h = absurd (omega arith)
  length-erase a (x ∷ xs) h = ground (arith, length-erase a xs)

  pub count-erase :
      (a b : A) (xs : List A)
      → 1 ≤ count a xs
      → count b (erase a xs) + (if b == a then 1 else 0) ≡ count b xs
  count-erase a b [] h = absurd (omega arith)
  count-erase a b (x ∷ xs) h = ground (arith, count-erase a b xs)

  -- A list that fits into another by counts is no longer than it.
  pub length_le_of_count :
      (xs ys : List A) → ((a : A) → count a xs ≤ count a ys) → length xs ≤ length ys
  length_le_of_count [] ys h = omega arith
  length_le_of_count (x ∷ xs) ys h =
      let there : 1 ≤ count x ys = ground (arith, h x) in
      let rest : (a : A) → count a xs ≤ count a (erase x ys) =
        λ a. ground (arith, h a, count-erase x a ys there) in
      omega (arith, length_le_of_count xs (erase x ys) rest, length-erase x ys there)

  -- Where it is as long, it holds the same items as often.
  pub count_eq_of_length :
      (xs ys : List A)
      → ((a : A) → count a xs ≤ count a ys)
      → length xs ≡ length ys
      → (a : A) → count a xs ≡ count a ys
  count_eq_of_length [] [] h l a = refl
  count_eq_of_length [] (y ∷ ys) h l a = absurd (omega arith)
  count_eq_of_length (x ∷ xs) ys h l a =
      let there : 1 ≤ count x ys = ground (arith, h x) in
      let rest : (b : A) → count b xs ≤ count b (erase x ys) =
        λ b. ground (arith, h b, count-erase x b ys there) in
      let same =
        count_eq_of_length xs (erase x ys) rest (omega (arith, length-erase x ys there)) a in
      ground (arith, same, count-erase x a ys there)

  pub index_lt : (a : A) (xs : List A) → contains xs a ≡ true → index a xs < length xs
  index_lt a [] h = ground arith
  index_lt a (x ∷ xs) h = ground (arith, index_lt a xs)

  pub index_of_absent : (a : A) (xs : List A) → contains xs a ≡ false → index a xs ≡ length xs
  index_of_absent a [] h = refl
  index_of_absent a (x ∷ xs) h = ground (arith, index_of_absent a xs)

  pub index-snoc :
      (a b : A) (xs : List A)
      → index a (xs ++ b ∷ [])
        ≡ (if contains xs a then index a xs else if a == b then length xs else suc (length xs))
  index-snoc a b [] = ground arith
  index-snoc a b (x ∷ xs) = ground (arith, index-snoc a b xs)

  -- The number of the items that are not in `seen` yet.
  abbrev pub missing : List A → List A → ℕ
  missing seen items = count_if (λ v. not (contains seen v)) items

  pub missing-cons :
      (a : A) (seen items : List A)
      → missing (a ∷ seen) items + (if contains items a && not (contains seen a) then 1 else 0)
        ≤ missing seen items
  missing-cons a seen [] = omega arith
  missing-cons a seen (v ∷ items) = ground (arith, missing-cons a seen items)

  pub missing_le_length : (seen items : List A) → missing seen items ≤ length items
  missing_le_length seen [] = omega arith
  missing_le_length seen (v ∷ items) = ground (arith, missing_le_length seen items)

module _ {ℓ κ} {A : Type ℓ} {B : Type κ} where
  pub length-map : (f : A → B) (xs : List A) → length (map f xs) ≡ length xs
  length-map f [] = refl
  length-map f (x ∷ xs) = ap suc (length-map f xs)
