-- ===== src/Trace/Schema.antt =====
-- trace_projection.py: the schema of a projection, and the way that it gives each entry of a dict.
pub mod Routes
use intelligent_workflow_app.Prelude.{
  ℕ, suc, String, Bool, true, false, ◌&&◌, ◌||◌, not, Option, none, some, List, [], ◌∷◌, contains,
  leb, ◌==◌, string_eq, if◌then◌else◌,
}
use intelligent_workflow_app.Value.{Value, null, boolean, text, sequence, Items, no_items, item}
use intelligent_workflow_app.Trace.Markers.{withheld_key, withheld_legacy}
use intelligent_workflow_app.Trace.Tokens.{safe_key}

pub data Owner : Type 0 where
  engine config business projection : Owner

-- A node; a position that a schema may leave undeclared; and the children of a container. `obj` has
-- the children, the wildcard, whether `wildcard_keys` is "platform", the owners, and whether it is
-- `_STEP_OUTPUT`.
mutual
  pub data Node : Type 0 where
    leaf : (Value → Bool) → Node
    obj : Children → Position → Bool → List (String × Owner) → Bool → Node
    seq : Node → Node
    tool_calls : Node
    trigger_payload : Node

  pub data Position : Type 0 where
    undeclared : Position
    declared : Node → Position

  pub data Children : Type 0 where
    no_children : Children
    child : String → Node → Children → Children

-- `node.children.get(k)`
unfoldable pub child_at : String → Children → Position
child_at key no_children = undeclared
child_at key (child k n cs) = if key == k then declared n else child_at key cs

-- `node.owners.get(k) is Owner.BUSINESS`
unfoldable pub is_business : String → List (String × Owner) → Bool
is_business key [] = false
is_business key (o ∷ owners) =
    if key == o.0 then elim o.1 [ business ↦ true | _ ↦ false ] else is_business key owners

abbrev pub released_business : List String
released_business = "parse_ok" ∷ []

-- A released vocabulary: the values that a field may have.
abbrev pub Vocabulary : Type 0
Vocabulary = List (String × List String)

unfoldable pub words_of : String → Vocabulary → Option (List String)
words_of key [] = none
words_of key (w ∷ vocab) = if key == w.0 then some w.1 else words_of key vocab

-- The number of the items, and whether they are texts that are all allowed.
unfoldable pub count_items : Items → ℕ
count_items no_items = 0
count_items (item v vs) = suc (count_items vs)

abbrev pub is_word : List String → Value → Bool
is_word allowed (text s) = contains allowed s
is_word allowed _ = false

unfoldable pub all_words : List String → Items → Bool
all_words allowed no_items = true
all_words allowed (item v vs) = is_word allowed v && all_words allowed vs

-- `_vocab_member`
unfoldable pub vocab_member : List String → Value → Bool
unfolding count_items all_words
vocab_member allowed (text s) = contains allowed s
vocab_member allowed (sequence vs) = leb (count_items vs) 32 && all_words allowed vs
vocab_member allowed _ = false

-- What the loop of `_project` does with an entry: it emits a value, it projects the value at a
-- position, it withholds the entry and says so, or it passes over it.
pub data Route : Type 0 where
  emits : Value → Route
  projects : Position → Route
  withholds passes : Route

abbrev pub is_null : Value → Bool
is_null null = true
is_null _ = false

abbrev pub is_flag : Value → Bool
is_flag (boolean b) = b
is_flag _ = false

-- The position of a child that may be shown.
unfoldable pub child_route : String → List (String × Owner) → Node → Route
unfolding is_business
child_route k owners n =
    if is_business k owners && not (contains released_business k)
    then withholds
    else projects (declared n)

-- A key that is not declared, and safe as a key.
unfoldable pub other_route : Vocabulary → Position → Bool → Bool → String → Value → Route
unfolding words_of vocab_member
other_route vocab (declared n) true step_output k v = projects (declared n)
other_route vocab wildcard platform false k v = withholds
other_route vocab wildcard platform true k v = elim (words_of k vocab) [
  | none ↦ withholds
  | some allowed ↦ if vocab_member allowed v then emits v else withholds
]

-- The chain of tests, in the order of the code.
unfoldable pub route :
    Vocabulary → Children → Position → Bool → List (String × Owner) → Bool → String → Value → Route
unfolding child_at child_route other_route
route vocab kids wildcard platform owners step_output k v =
    if k == withheld_legacy
    then (if is_null v then passes else withholds)
    else if k == withheld_key
    then (if is_flag v then emits (boolean true) else withholds)
    else elim (child_at k kids) [
      | declared n ↦ child_route k owners n
      | undeclared ↦
          if not (safe_key k)
          then withholds
          else other_route vocab wildcard platform step_output k v
    ]
