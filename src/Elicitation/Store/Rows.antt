-- ===== src/Elicitation/Store/Rows.antt =====
-- elicitation/store.py: the rows of the two stores, up to what the source leaves to the database: the
-- time at which a row was created, and the order in which a `select` gives the rows.
use intelligent_workflow_app.Prelude.{
  ℕ, ◌≡◌, refl, ap, String, Bool, List, [], ◌∷◌, ◌++◌, any, map, count_if, ◌==◌, string_eq, arith,
}
use intelligent_workflow_app.Elicitation.Store.{ShadowQuestion, holds_slot}
use intelligent_workflow_app.Elicitation.Store.Memory.{expire_questions}
use intelligent_workflow_app.Elicitation.Store.Postgres.{expire_rows, row_count}
use intelligent_workflow_app.Elicitation.Store.Calls.{Answer, rows}

abbrev pub has_id : String → List ShadowQuestion → Bool
has_id i qs = any (λ q. q.id == i) qs

-- A row but for the time at which it was created, which the two stores read from different clocks.
abbrev pub undated : ShadowQuestion → ShadowQuestion
undated q = record q { created_at = 0 }

pub slots-undated :
    (r : String) (qs : List ShadowQuestion)
    → count_if (holds_slot r) (map undated qs) ≡ count_if (holds_slot r) qs
slots-undated r [] = refl
slots-undated r (q ∷ qs) = omega (arith, slots-undated r qs)

pub ids-undated : (i : String) (qs : List ShadowQuestion) → has_id i (map undated qs) ≡ has_id i qs
ids-undated i [] = refl
ids-undated i (q ∷ qs) = ground (arith, ids-undated i qs)

pub undated-append :
    (qs ps : List ShadowQuestion) → map undated (qs ++ ps) ≡ map undated qs ++ map undated ps
undated-append [] ps = refl
undated-append (q ∷ qs) ps = ap (◌∷◌ (undated q)) (undated-append qs ps)

pub expire-count :
    (at : ℕ) (qs : List ShadowQuestion)
    → (expire_questions at qs).0 ≡ row_count (expire_rows at (map undated qs)).0
unfolding expire_questions expire_rows row_count
expire-count at [] = refl
expire-count at (q ∷ qs) = ground (arith, expire-count at qs)

pub expire-kept :
    (at : ℕ) (qs : List ShadowQuestion)
    → map undated (expire_questions at qs).1 ≡ (expire_rows at (map undated qs)).1
unfolding expire_questions expire_rows
expire-kept at [] = refl
expire-kept at (q ∷ qs) = ground (arith, expire-kept at qs)

pub rows-undated :
    (at : ℕ) (qs : List ShadowQuestion)
    → ((expire_rows at (map undated qs)).0 ≡ (expire_rows at qs).0)
      × ((expire_rows at (map undated qs)).1 ≡ map undated (expire_rows at qs).1)
unfolding expire_rows
rows-undated at [] = (refl, refl)
rows-undated at (q ∷ qs) = ground (arith, rows-undated at qs)

-- The same rows in some order, up to the time at which they were created.
abbrev pub SameRows : List ShadowQuestion → List ShadowQuestion → Type 0
SameRows xs ys =
    (p : ShadowQuestion → Bool) → count_if p (map undated xs) ≡ count_if p (map undated ys)

-- Two answers that a caller cannot tell apart, by what the interface promises.
abbrev pub Agree : Answer → Answer → Type 0
Agree (rows xs) (rows ys) = SameRows xs ys
Agree a b = a ≡ b

abbrev pub AllAgree : List Answer → List Answer → Type 0
AllAgree [] [] = Unit
AllAgree (a ∷ left) (b ∷ right) = Agree a b × AllAgree left right
AllAgree _ _ = ⊥

pub count_if-undated :
    (p : ShadowQuestion → Bool) (qs : List ShadowQuestion)
    → count_if p (map undated qs) ≡ count_if (λ q. p (undated q)) qs
count_if-undated p [] = refl
count_if-undated p (q ∷ qs) = omega (arith, count_if-undated p qs)
