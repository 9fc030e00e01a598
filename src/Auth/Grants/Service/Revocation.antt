-- ===== src/Auth/Grants/Service/Revocation.antt =====
-- auth/raw_trace_grants.py: `revoke`, `revoke_all_for_principal` and `covering`.
use intelligent_workflow_app.Prelude.{
  ℕ, ◌+◌, String, not, Option, none, some, List, [], ◌∷◌, string_eq, option_eq, if◌then◌else◌,
}
use intelligent_workflow_app.Auth.Grants.{
  RawTraceGrant, RawTraceGrantState, active, cancelled, revoked, covering_grant,
}
use intelligent_workflow_app.Auth.Grants.Repository.{save, get, list_for_principal, update_if}
use intelligent_workflow_app.Auth.Grants.Service.{
  invalid_grant_transition, grant_not_found, raw_grant_revoked, World, return, raise, Action, log,
  save_in, is_open,
}

-- The state behind a revocation, and the copy that is written.
abbrev pub revoked_state : RawTraceGrantState → RawTraceGrantState
revoked_state active = revoked
revoked_state _ = cancelled

unfoldable pub revoked_copy : RawTraceGrant → String → ℕ → RawTraceGrant
revoked_copy g revoked_by now = record g {
  state = revoked_state g.state;
  revoked_by = some revoked_by;
  revoked_at = some now;
}

-- The end of `revoke`, for the copy that it read.
unfoldable pub revoke_commit : RawTraceGrant → String → ℕ → Action RawTraceGrant
unfolding revoked_copy update_if log
revoke_commit g revoked_by now w =
    let g' = revoked_copy g revoked_by now in
    let (swapped, grants) = update_if g' g.state w.grants in
    if not swapped
    then (raise invalid_grant_transition, w)
    else (return g', log revoked_by raw_grant_revoked g' (record w { grants = grants }))

unfoldable pub revoke : String → String → ℕ → Action RawTraceGrant
unfolding get revoke_commit
revoke grant_id revoked_by now w = elim (get grant_id w.grants) [
  | none ↦ (raise grant_not_found, w)
  | some g ↦
      if not (is_open g)
      then (raise invalid_grant_transition, w)
      else revoke_commit g revoked_by now w
]

-- The loop of `revoke_all_for_principal` over the listed copies, with its count.
unfoldable pub revoke_from : List RawTraceGrant → String → ℕ → World → ℕ × World
unfolding revoked_copy log save
revoke_from [] revoked_by now w = (0, w)
revoke_from (g ∷ gs) revoked_by now w =
    let g' = revoked_copy g revoked_by now in
    let (n, after) =
      revoke_from gs revoked_by now (log revoked_by raw_grant_revoked g' (save_in g' w)) in
    let rest = revoke_from gs revoked_by now w in if is_open g then (n + 1, after) else rest

unfoldable pub revoke_all_for_principal : String → String → ℕ → World → ℕ × World
unfolding revoke_from list_for_principal
revoke_all_for_principal principal revoked_by now w =
    revoke_from (list_for_principal principal w.grants) revoked_by now w

unfoldable pub covering : String → Option String → ℕ → World → Option RawTraceGrant
unfolding covering_grant list_for_principal
covering principal target_org now w =
    covering_grant (list_for_principal principal w.grants) target_org now
