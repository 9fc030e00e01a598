-- ===== src/Trace/Schema/Routes.antt =====
-- What the chain of tests lets through: the entries of a dict that a projection may show.
use intelligent_workflow_app.Prelude.{
  ◌≡◌, refl, eq_self, sym, ap, ◌∙◌, ◌⊎◌, inl, inr, String, Bool, true, false, not, ◌&&◌, none, some,
  List, contains, ◌==◌, string_eq, if◌then◌else◌, arith, Bool-cases, Option-cases,
}
use intelligent_workflow_app.Value.{Value, null, boolean, num, real, text, sequence, mapping}
use intelligent_workflow_app.Trace.Markers.{withheld_key, withheld_legacy}
use intelligent_workflow_app.Trace.Tokens.{safe_key}
use intelligent_workflow_app.Trace.Schema.{
  Owner, Node, Position, undeclared, declared, Children, Vocabulary, child_at, is_business,
  released_business, words_of, vocab_member, Route, emits, projects, withholds, passes, is_null,
  is_flag, child_route, other_route, route,
}

null_of : (v : Value) → is_null v ≡ true → v ≡ null
null_of null h = refl
null_of (boolean b) h = absurd (ground arith)
null_of (num n) h = absurd (ground arith)
null_of (real s) h = absurd (ground arith)
null_of (text s) h = absurd (ground arith)
null_of (sequence vs) h = absurd (ground arith)
null_of (mapping fs) h = absurd (ground arith)

flag_of : (v : Value) → is_flag v ≡ true → v ≡ boolean true
flag_of (boolean b) h = ap boolean h
flag_of null h = absurd (ground arith)
flag_of (num n) h = absurd (ground arith)
flag_of (real s) h = absurd (ground arith)
flag_of (text s) h = absurd (ground arith)
flag_of (sequence vs) h = absurd (ground arith)
flag_of (mapping fs) h = absurd (ground arith)

flag_apart : (withheld_key == withheld_legacy) ≡ false
unfolding string_eq
flag_apart = refl

Position-cases : (p : Position) → (p ≡ undeclared) ⊎ ((n : Node) × (p ≡ declared n))
Position-cases undeclared = inl refl
Position-cases (declared n) = inr (n, refl)

module _ (vocab : Vocabulary) (kids : Children) (wildcard : Position) (platform : Bool)
    (owners : List (String × Owner)) (step_output : Bool) where
  -- The keys that the projector owns.
  abbrev pub is_reserved : String → Bool
  is_reserved k = if k == withheld_legacy then true else k == withheld_key

  -- The values of the wildcard are shown.
  abbrev pub is_wild : Position → Bool → Bool
  is_wild (declared n) p = p
  is_wild undeclared p = false

  -- An entry that is shown as it is: the projector's own flag, or a released word of a step's output.
  abbrev pub IsShown : String → Value → Type 0
  IsShown k v =
      ((k ≡ withheld_key) × (v ≡ boolean true))
      ⊎ ((words : List String) × (is_reserved k ≡ false)
          × (child_at k kids ≡ undeclared)
          × (safe_key k ≡ true)
          × (is_wild wildcard platform ≡ false)
          × (step_output ≡ true)
          × (words_of k vocab ≡ some words)
          × (vocab_member words v ≡ true))

  -- A key whose value is shown as far as its node allows: a declared child that is no withheld
  -- business field, or a safe key that the platform made.
  abbrev pub IsDeclared : String → Node → Type 0
  IsDeclared k n =
      ((is_reserved k ≡ false)
        × (child_at k kids ≡ declared n)
        × ((is_business k owners && not (contains released_business k)) ≡ false))
      ⊎ ((is_reserved k ≡ false)
          × (child_at k kids ≡ undeclared)
          × (safe_key k ≡ true)
          × (wildcard ≡ declared n)
          × (platform ≡ true))

  abbrev pub way : String → Value → Route
  way = route vocab kids wildcard platform owners step_output

  pub data Way (k : String) (v : Value) : Type 0 where
    shown : way k v ≡ emits v → IsShown k v → Way k v
    through : (n : Node) → way k v ≡ projects (declared n) → IsDeclared k n → Way k v
    hidden : way k v ≡ withholds → Way k v
    passed : way k v ≡ passes → k ≡ withheld_legacy → v ≡ null → Way k v

  abbrev IsWord : Position → Bool → Bool → String → Value → Type 0
  IsWord w p so k v =
      (words : List String) × (is_wild w p ≡ false)
      × (so ≡ true)
      × (words_of k vocab ≡ some words)
      × (vocab_member words v ≡ true)

  -- A safe key that is not declared: it is the platform's, or its value is a released word.
  data OtherWay (w : Position) (p so : Bool) (k : String) (v : Value) : Type 0 where
    wild :
        (n : Node)
        → other_route vocab w p so k v ≡ projects (declared n)
        → w ≡ declared n
        → p ≡ true
        → OtherWay w p so k v
    word : other_route vocab w p so k v ≡ emits v → IsWord w p so k v → OtherWay w p so k v
    neither : other_route vocab w p so k v ≡ withholds → OtherWay w p so k v

  -- The words, where the key is not the platform's.
  tame_route :
      (w : Position) (p : Bool) (k : String) (v : Value)
      → is_wild w p ≡ false
      → other_route vocab w p true k v ≡ elim (words_of k vocab) [
        | none ↦ withholds
        | some allowed ↦ if vocab_member allowed v then emits v else withholds
      ]
  unfolding other_route
  tame_route undeclared true k v t = refl
  tame_route undeclared false k v t = refl
  tame_route (declared n) false k v t = refl
  tame_route (declared n) true k v t = absurd (ground arith)

  word-OtherWay :
      (w : Position) (p : Bool) (k : String) (v : Value)
      → is_wild w p ≡ false
      → OtherWay w p true k v
  word-OtherWay w p k v tame = elim (Option-cases (words_of k vocab)) [
    | inl absent ↦ neither (rw (tame_route w p k v tame, absent) refl)
    | inr (words, found) ↦ elim (Bool-cases (vocab_member words v)) [
      | inl member ↦
          word (rw (tame_route w p k v tame, found, member) refl) (words, tame, refl, found, member)
      | inr prose ↦ neither (rw (tame_route w p k v tame, found, prose) refl)
    ]
  ]

  other_route-OtherWay : (w : Position) (p so : Bool) (k : String) (v : Value) → OtherWay w p so k v
  unfolding other_route
  other_route-OtherWay (declared n) true so k v = wild n refl refl refl
  other_route-OtherWay (declared n) false false k v = neither refl
  other_route-OtherWay (declared n) false true k v = word-OtherWay (declared n) false k v refl
  other_route-OtherWay undeclared true false k v = neither refl
  other_route-OtherWay undeclared false false k v = neither refl
  other_route-OtherWay undeclared true true k v = word-OtherWay undeclared true k v refl
  other_route-OtherWay undeclared false true k v = word-OtherWay undeclared false k v refl

  other-Way :
      (k : String) (v : Value)
      → is_reserved k ≡ false
      → child_at k kids ≡ undeclared
      → safe_key k ≡ true
      → way k v ≡ other_route vocab wildcard platform step_output k v
      → Way k v
  other-Way k v free other safe is = elim (other_route-OtherWay wildcard platform step_output k v) [
    | wild n e w p ↦ through n (is ∙ e) (inr (free, other, safe, w, p))
    | word e (words, tame, so, found, member) ↦
        shown (is ∙ e) (inr (words, free, other, safe, tame, so, found, member))
    | neither e ↦ hidden (is ∙ e)
  ]

  pub route-Way : (k : String) (v : Value) → Way k v
  unfolding route
  route-Way k v = elim (Bool-cases (k == withheld_legacy)) [
    | inl legacy ↦ elim (Bool-cases (is_null v)) [
      | inl empty ↦ passed (rw (legacy, empty) refl) (ground arith) (null_of v empty)
      | inr full ↦ hidden (rw (legacy, full) refl)
    ]
    | inr new ↦ elim (Bool-cases (k == withheld_key)) [
      | inl flag ↦ elim (Bool-cases (is_flag v)) [
        | inl set ↦
            let is = flag_of v set in
            shown (rw (new, flag, set) (ap emits (sym is))) (inl (ground arith, is))
        | inr other ↦ hidden (rw (new, flag, other) refl)
      ]
      | inr free ↦ elim (Position-cases (child_at k kids)) [
        | inr (n, found) ↦
            elim (Bool-cases (is_business k owners && not (contains released_business k))) [
              | inl model ↦ hidden (rw (new, free, found, child_route, model) refl)
              | inr fine ↦
                  through n (rw (new, free, found, child_route, fine) refl)
                    (inl (ground arith, found, fine))
            ]
        | inl other ↦ elim (Bool-cases (safe_key k)) [
          | inr hostile ↦ hidden (rw (new, free, other, hostile) refl)
          | inl safe ↦ other-Way k v (ground arith) other safe (rw (new, free, other, safe) refl)
        ]
      ]
    ]
  ]

  reserved_apart :
      (k : String)
      → is_reserved k ≡ false
      → ((k == withheld_legacy) ≡ false) × ((k == withheld_key) ≡ false)
  reserved_apart k free = ground arith

  -- What may be shown takes its way.
  pub IsShown-way : (k : String) (v : Value) → IsShown k v → way k v ≡ emits v
  unfolding route
  IsShown-way k v (inl (flag, set)) =
      let new = ap (λ x. x == withheld_legacy) flag ∙ flag_apart in
      let same = ap (λ x. x == withheld_key) flag ∙ eq_self withheld_key in rw (new, same, set) refl
  IsShown-way k v (inr (words, free, other, safe, tame, so, found, member)) =
      let (new, unflagged) = reserved_apart k free in
      rw (new, unflagged, other, safe, so, tame_route wildcard platform k v tame, found, member)
        refl

  pub IsDeclared-way :
      (k : String) (v : Value) (n : Node) → IsDeclared k n → way k v ≡ projects (declared n)
  unfolding route child_route
  IsDeclared-way k v n (inl (free, found, fine)) =
      let (new, unflagged) = reserved_apart k free in
      rw (new, unflagged, found, child_route, fine) refl
  IsDeclared-way k v n (inr (free, other, safe, w, p)) =
      let (new, unflagged) = reserved_apart k free in
      rw (new, unflagged, other, safe, w, p, other_route) refl
