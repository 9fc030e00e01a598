-- ===== src/Auth/Grants/Repository.antt =====
-- persistence/memory.py: `InMemoryRawTraceGrantRepo`. The dict by id is kept in insertion order,
-- and every grant in it is a copy, so a caller's changes reach it by `save` and `update_if` alone.
use intelligent_workflow_app.Prelude.{
  Bool, true, false, not, String, Option, none, some, List, [], ◌∷◌, keep, ◌==◌, string_eq,
  if◌then◌else◌,
}
use intelligent_workflow_app.Auth.Grants.{
  RawTraceGrant, RawTraceGrantState, pending, active, rejected, cancelled, revoked, expired,
}

-- `self._items[grant.id] = grant`, of `create` and of `save`.
unfoldable pub save : RawTraceGrant → List RawTraceGrant → List RawTraceGrant
save g [] = g ∷ []
save g (h ∷ items) = if h.id == g.id then g ∷ items else h ∷ save g items

unfoldable pub get : String → List RawTraceGrant → Option RawTraceGrant
get i [] = none
get i (h ∷ items) = if h.id == i then some h else get i items

unfoldable pub list_for_principal : String → List RawTraceGrant → List RawTraceGrant
list_for_principal p items = keep (λ g. g.principal_id == p) items

-- `current.state.value == expected_state`
abbrev pub same_state : RawTraceGrantState → RawTraceGrantState → Bool
same_state pending pending = true
same_state active active = true
same_state rejected rejected = true
same_state cancelled cancelled = true
same_state revoked revoked = true
same_state expired expired = true
same_state _ _ = false

-- The compare-and-set: whether it was made, and the items behind it.
unfoldable pub update_if :
    RawTraceGrant → RawTraceGrantState → List RawTraceGrant → Bool × List RawTraceGrant
unfolding get save
update_if g expected items = elim (get g.id items) [
  | none ↦ (false, items)
  | some current ↦
      if not (same_state current.state expected) then (false, items) else (true, save g items)
]
