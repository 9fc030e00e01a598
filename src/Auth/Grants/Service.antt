-- ===== src/Auth/Grants/Service.antt =====
-- auth/raw_trace_grants.py: `RawTraceGrantService`. A method is an action on the repository and
-- the audit log. What was saved before a raise stays saved, so the world comes back beside an
-- error too. The critical section of an activation runs under the service's lock, and is one step.
pub mod Activation
pub mod Revocation
use intelligent_workflow_app.Prelude.{
  ℕ, ◌+◌, String, Bool, true, false, not, ◌&&◌, ◌||◌, Option, none, some, List, [], ◌∷◌, ◌++◌,
  is_none, ◌==◌, string_eq, option_eq, if◌then◌else◌,
}
use intelligent_workflow_app.Auth.Grants.{
  Ref, RawTraceGrant, RawTraceGrantState, pending, active, cancelled, revoked, expired,
  RawTraceApprovalMode, dual_administrator, tenant_authorized, RawTraceReasonCode, is_state_active,
  is_state_pending, is_active, covering_grant,
}
use intelligent_workflow_app.Auth.Grants.Repository.{save, get, list_for_principal, update_if}
use intelligent_workflow_app.Auth.Grants.Refs.{validate_opaque_ref, validate_approval_ref}

pub data GrantError : Type 0 where
  self_escalation approver_conflict duplicate_active_grant invalid_grant_transition : GrantError
  missing_expiry missing_approval_artifact grant_not_found : GrantError

pub data AuditAction : Type 0 where
  raw_grant_requested raw_grant_granted raw_grant_revoked raw_grant_expired : AuditAction

-- An entry has the action, the actor and the grant that its detail is taken from.
pub record AuditEntry : Type 0 where
  pub action : AuditAction
  pub actor_id : String
  pub grant : RawTraceGrant

pub record World : Type 0 where
  pub grants : List RawTraceGrant
  pub audit : List AuditEntry

pub data Result (A : Type 0) : Type 0 where
  return : A → Result A
  raise : GrantError → Result A

abbrev pub Action : Type 0 → Type 0
Action A = World → Result A × World

-- `_audit`
unfoldable pub log : String → AuditAction → RawTraceGrant → World → World
log actor action g w = record w {
  audit = w.audit ++ record { action = action; actor_id = actor; grant = g } ∷ [];
}

abbrev pub save_in : RawTraceGrant → World → World
save_in g w = record w { grants = save g w.grants }

-- `g.state is RawTraceGrantState.ACTIVE and g.org_id == org_id`
abbrev pub is_scoped : Option String → RawTraceGrant → Bool
is_scoped org g = is_state_active g.state && g.org_id == org

-- `grant.state in (RawTraceGrantState.ACTIVE, RawTraceGrantState.PENDING)`
abbrev pub is_open : RawTraceGrant → Bool
is_open g = is_state_active g.state || is_state_pending g.state

-- The loop of `_clear_stale_active` over the listed copies.
unfoldable pub clear_stale_from :
    List RawTraceGrant → Option String → ℕ → String → Action (Unit {0})
unfolding log is_active save
clear_stale_from [] org now actor w = (return tt, w)
clear_stale_from (g ∷ gs) org now actor w =
    let g' = record g { state = expired } in
    let after = clear_stale_from gs org now actor (log actor raw_grant_expired g' (save_in g' w)) in
    let rest = clear_stale_from gs org now actor w in
    if is_scoped org g
    then (if is_active g now then (raise duplicate_active_grant, w) else after)
    else rest

unfoldable pub clear_stale_active : String → Option String → ℕ → String → Action (Unit {0})
unfolding clear_stale_from list_for_principal
clear_stale_active principal org now actor w =
    clear_stale_from (list_for_principal principal w.grants) org now actor w
