-- ===== src/Value.antt =====
-- The values of a `dict[str, Any]`: what JSON and YAML give the code. A float is kept as its text;
-- the code that is modelled only asks whether a value is one.
pub mod Laws
use intelligent_workflow_app.Prelude.{
  ℕ, String, Bool, true, false, Option, none, some, ◌==◌, string_eq, if◌then◌else◌, leb, ◌≡◌,
}
use intelligent_workflow_app.Prelude.Int.{ℤ, pos, negsuc}

mutual
  pub data Value : Type 0 where
    null : Value
    boolean : Bool → Value
    num : ℤ → Value
    real : String → Value
    text : String → Value
    sequence : Items → Value
    mapping : Fields → Value

  pub data Items : Type 0 where
    no_items : Items
    item : Value → Items → Items

  pub data Fields : Type 0 where
    no_fields : Fields
    entry : String → Value → Fields → Fields

-- `d.get(key)`, with `none` for a missing key.
unfoldable pub get : String → Fields → Option Value
get key no_fields = none
get key (entry k v fs) = if key == k then some v else get key fs

-- `d[key] = value`
unfoldable pub put : String → Value → Fields → Fields
put key value no_fields = entry key value no_fields
put key value (entry k v fs) = if key == k then entry k value fs else entry k v (put key value fs)

-- The number that `isinstance(v, int)` accepts; a Python `bool` is an `int`.
abbrev pub as_int : Value → Option ℤ
as_int (num n) = some n
as_int (boolean true) = some (pos 1)
as_int (boolean false) = some (pos 0)
as_int _ = none

-- `n <= cap`
abbrev pub at_most : ℤ → ℕ → Bool
at_most (pos n) cap = leb n cap
at_most (negsuc n) cap = true

-- No key occurs twice, as in every `dict`.
abbrev pub IsDict : Fields → Type 0
IsDict no_fields = Unit
IsDict (entry key v fs) = (get key fs ≡ none) × IsDict fs
