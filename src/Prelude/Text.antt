-- ===== src/Prelude/Text.antt =====
-- A text as the list of its code points, and `sorted` of a list of texts.
use Prim.Native.Nat.{ℕ, suc, ◌+◌, compare, Ordering}
use Prim.Native.Char.{code}
use Prim.Native.String.{String}
use mathlib.Core.Path.{◌≡◌, refl}
use mathlib.Core.Logic.{◌≢◌}
use mathlib.Core.Bool.{Bool, true, false}
use mathlib.Core.List.{List, [], ◌∷◌}
use native.Mathlib.Omega.{arith}
use intelligent_workflow_app.Prelude.Equality.{◌==◌, string_eq, if◌then◌else◌, contains}
use intelligent_workflow_app.Prelude.Lists.{count, length}

-- The code points of a text, in order.
abbrev pub code_points : String → List ℕ
code_points String.[] = []
code_points (String.◌∷◌ c cs) = code c ∷ code_points cs

-- `a <= b` of two texts, by their code points.
pub codes_le : List ℕ → List ℕ → Bool
codes_le [] b = true
codes_le (x ∷ a) [] = false
codes_le (x ∷ a) (y ∷ b) =
    let rest = codes_le a b in
    elim (compare x y) [ Ordering.lt ↦ true | Ordering.eq ↦ rest | Ordering.gt ↦ false ]

pub insert_sorted : String → List String → List String
insert_sorted x [] = x ∷ []
insert_sorted x (y ∷ ys) =
    let rest = insert_sorted x ys in
    if codes_le (code_points x) (code_points y) then x ∷ y ∷ ys else y ∷ rest

unfoldable pub sorted : List String → List String
unfolding insert_sorted codes_le
sorted [] = []
sorted (x ∷ xs) = insert_sorted x (sorted xs)

count-insert_sorted :
    (v x : String) (ys : List String)
    → count v (insert_sorted x ys) ≡ (if v == x then 1 else 0) + count v ys
unfolding insert_sorted
count-insert_sorted v x [] = refl
count-insert_sorted v x (y ∷ ys) = ground (arith, count-insert_sorted v x ys)

pub count-sorted : (v : String) (xs : List String) → count v (sorted xs) ≡ count v xs
unfolding sorted
count-sorted v [] = refl
count-sorted v (x ∷ xs) = ground (arith, count-sorted v xs, count-insert_sorted v x (sorted xs))

length-insert_sorted :
    (x : String) (ys : List String) → length (insert_sorted x ys) ≡ suc (length ys)
unfolding insert_sorted
length-insert_sorted x [] = refl
length-insert_sorted x (y ∷ ys) = ground (arith, length-insert_sorted x ys)

pub length-sorted : (xs : List String) → length (sorted xs) ≡ length xs
unfolding sorted
length-sorted [] = refl
length-sorted (x ∷ xs) = ground (arith, length-sorted xs, length-insert_sorted x (sorted xs))

contains-insert_sorted :
    (v x : String) (ys : List String) → contains (insert_sorted x ys) v ≡ contains (x ∷ ys) v
unfolding insert_sorted
contains-insert_sorted v x [] = refl
contains-insert_sorted v x (y ∷ ys) = ground (arith, contains-insert_sorted v x ys)

pub contains-sorted : (v : String) (xs : List String) → contains (sorted xs) v ≡ contains xs v
unfolding sorted
contains-sorted v [] = refl
contains-sorted v (x ∷ xs) =
    ground (arith, contains-sorted v xs, contains-insert_sorted v x (sorted xs))

pub sorted-ne-nil : (xs : List String) → xs ≢ [] → sorted xs ≢ []
unfolding sorted
sorted-ne-nil [] h e = h refl
sorted-ne-nil (x ∷ xs) h e = ground (arith, contains-sorted x (x ∷ xs))
