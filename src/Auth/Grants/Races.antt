-- ===== src/Auth/Grants/Races.antt =====
-- An approval that lost a race: the row left its pending state after the approval had read it.
use intelligent_workflow_app.Prelude.{
  ℕ, ◌≡◌, refl, String, Bool, true, false, some, List, string_eq, arith, inl, inr,
}
use intelligent_workflow_app.Auth.Grants.{RawTraceGrant, RawTraceGrantState, pending}
use intelligent_workflow_app.Auth.Grants.Repository.{get, same_state, update_if}
use intelligent_workflow_app.Auth.Grants.Rows.{UniqueIds}
use intelligent_workflow_app.Auth.Grants.Service.{
  GrantError, invalid_grant_transition, World, raise, clear_stale_active,
}
use intelligent_workflow_app.Auth.Grants.Service.Activation.{approve_commit}
use intelligent_workflow_app.Auth.Grants.Commits.{Result-cases, activated}
use intelligent_workflow_app.Auth.Grants.Moves.{leads, Follows}
use intelligent_workflow_app.Auth.Grants.Transitions.{clear-After}

leads_from_settled :
    (s t : RawTraceGrantState)
    → same_state s pending ≡ false
    → leads s t ≡ true
    → same_state t pending ≡ false
leads_from_settled s t h l = ground arith

update_if_lost :
    (g : RawTraceGrant) (items : List RawTraceGrant) (current : RawTraceGrant)
    → get g.id items ≡ some current
    → same_state current.state pending ≡ false
    → (update_if g pending items).0 ≡ false
unfolding update_if
update_if_lost g items current found settled = rw (found, update_if) (rw (settled, update_if) refl)

-- The critical section of an approval whose row is no longer pending (a revoke or a cancellation
-- came first) raises, and the rows behind it moved legally: the grant is not brought back. The ids
-- of the rows are unique.
pub approve_commit_lost :
    (is_space : ℕ → Bool) (g : RawTraceGrant) (by : String) (now : ℕ) (w : World)
    (current : RawTraceGrant)
    → UniqueIds w.grants
    → get g.id w.grants ≡ some current
    → same_state current.state pending ≡ false
    → ((e : GrantError) × ((approve_commit is_space g by now w).0 ≡ raise e))
      × Follows w.grants (approve_commit is_space g by now w).1.grants
unfolding approve_commit
approve_commit_lost is_space g by now w current u found settled =
    let cleared = clear_stale_active g.principal_id g.org_id now by w in
    let follows = (clear-After w u g.principal_id g.org_id now by).1 in
    elim (Result-cases cleared.0) [
      | inl (e, failed) ↦ rw (failed, approve_commit) ((e, refl), follows)
      | inr (_, passed) ↦
          let (row, there, m) = follows g.id current found in
          let lost =
            update_if_lost (activated g by now) cleared.1.grants row there
              (leads_from_settled current.state row.state settled m.legal) in
          rw (passed, approve_commit)
            (rw (lost, approve_commit) ((invalid_grant_transition, refl), follows))
    ]
