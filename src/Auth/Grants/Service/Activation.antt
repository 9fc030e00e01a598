-- ===== src/Auth/Grants/Service/Activation.antt =====
-- auth/raw_trace_grants.py: `request` and `approve`.
use intelligent_workflow_app.Prelude.{
  ℕ, String, Bool, true, false, not, ◌&&◌, Option, none, some, ◌∷◌, is_none, ◌==◌, string_eq,
  option_eq, if◌then◌else◌,
}
use intelligent_workflow_app.Auth.Grants.{
  Ref, RawTraceGrant, pending, active, RawTraceApprovalMode, dual_administrator, tenant_authorized,
  RawTraceReasonCode, is_state_pending,
}
use intelligent_workflow_app.Auth.Grants.Repository.{save, get, update_if}
use intelligent_workflow_app.Auth.Grants.Refs.{validate_opaque_ref, validate_approval_ref}
use intelligent_workflow_app.Auth.Grants.Service.{
  self_escalation, approver_conflict, invalid_grant_transition, missing_expiry,
  missing_approval_artifact, grant_not_found, raw_grant_requested, raw_grant_granted, Result,
  return, raise, Action, log, save_in, clear_stale_active,
}

-- The arguments of `request`, with the id that `uuid4` gives.
pub record Args : Type 0 where
  pub id : String
  pub principal_id : String
  pub org_id : Option String
  pub requested_by : String
  pub reason_code : RawTraceReasonCode
  pub approval_mode : RawTraceApprovalMode
  pub expires_at : Option ℕ
  pub ticket_ref : Option Ref
  pub external_approval_ref : Option Ref
  pub now : ℕ

abbrev pub is_tenant : RawTraceApprovalMode → Bool
is_tenant dual_administrator = false
is_tenant tenant_authorized = true

-- The pending grant of a request.
unfoldable pub new_grant : Args → Option Ref → Option Ref → RawTraceGrant
new_grant a ticket external = record {
  id = a.id;
  principal_id = a.principal_id;
  org_id = a.org_id;
  state = pending;
  approval_mode = a.approval_mode;
  requested_by = a.requested_by;
  requested_at = a.now;
  approved_by = none;
  approved_at = none;
  external_approval_ref = external;
  expires_at = a.expires_at;
  reason_code = a.reason_code;
  ticket_ref = ticket;
  revoked_by = none;
  revoked_at = none;
}

abbrev pub or_missing : Option Ref → Result (Option Ref)
or_missing none = raise missing_approval_artifact
or_missing (some r) = return (some r)

-- `not is_platform and not self._dual_control and approval_mode is DUAL_ADMINISTRATOR`
abbrev pub at_once : Bool → Args → Bool
at_once dual_control a =
    not (is_none a.org_id) && not dual_control && not (is_tenant a.approval_mode)

module _ (is_space : ℕ → Bool) where
  -- The reference of a `tenant_authorized` request.
  unfoldable pub checked_external : RawTraceApprovalMode → Option Ref → Result (Option Ref)
  unfolding validate_approval_ref
  checked_external dual_administrator r = return r
  checked_external tenant_authorized r = or_missing (validate_approval_ref is_space r)

  unfoldable pub checked_ticket : Option Ref → Result (Option Ref)
  unfolding validate_opaque_ref
  checked_ticket none = return none
  checked_ticket (some r) = or_missing (validate_opaque_ref is_space r)

  -- The checks of `request` before it writes.
  unfoldable pub request_checks : Args → Result RawTraceGrant
  unfolding checked_external checked_ticket new_grant
  request_checks a =
      if a.requested_by == a.principal_id
      then raise self_escalation
      else if is_none a.org_id && is_none a.expires_at
      then raise missing_expiry
      else elim (checked_external a.approval_mode a.external_approval_ref) [
        | raise e ↦ raise e
        | return external ↦ elim (checked_ticket a.ticket_ref) [
          | raise e ↦ raise e
          | return ticket ↦ return (new_grant a ticket external)
        ]
      ]

  -- Activation on one Administrator: the rest of `request` under the lock.
  unfoldable pub grant_at_once : RawTraceGrant → ℕ → Action RawTraceGrant
  unfolding clear_stale_active log save
  grant_at_once g now w =
      let (cleared, w') = clear_stale_active g.principal_id g.org_id now g.requested_by w in
      let g' = record g {
        state = active;
        approved_by = some g.requested_by;
        approved_at = some now;
      } in
      elim cleared [
        | raise e ↦ (raise e, w')
        | return _ ↦ (return g', log g.requested_by raw_grant_granted g' (save_in g' w'))
      ]

  -- The end of `request` for a grant that waits for a second authorization.
  unfoldable pub grant_later : RawTraceGrant → Action RawTraceGrant
  unfolding checked_external log save
  grant_later g w = elim (checked_external g.approval_mode g.external_approval_ref) [
    | raise e ↦ (raise e, w)
    | return external ↦
        let g' = record g { external_approval_ref = external } in
        (return g', log g.requested_by raw_grant_requested g' (save_in g' w))
  ]

  unfoldable pub request : Bool → Args → Action RawTraceGrant
  unfolding request_checks grant_at_once grant_later
  request dual_control a w = elim (request_checks a) [
    | raise e ↦ (raise e, w)
    | return g ↦ if at_once dual_control a then grant_at_once g a.now w else grant_later g w
  ]

  -- `external_approval_ref or grant.external_approval_ref`
  abbrev pub or_else_ref : Option Ref → Option Ref → Option Ref
  or_else_ref (some (c ∷ cs)) other = some (c ∷ cs)
  or_else_ref _ other = other

  -- The checks of `approve` on the copy that it read.
  unfoldable pub approve_checks : RawTraceGrant → String → Option Ref → Result RawTraceGrant
  unfolding checked_external
  approve_checks g approved_by ref =
      if not (is_state_pending g.state)
      then raise invalid_grant_transition
      else if approved_by == g.principal_id
      then raise self_escalation
      else if approved_by == g.requested_by
      then raise approver_conflict
      else elim g.approval_mode [
        | dual_administrator ↦ return g
        | tenant_authorized ↦
            elim (checked_external tenant_authorized (or_else_ref ref g.external_approval_ref)) [
              | raise e ↦ raise e
              | return external ↦ return (record g { external_approval_ref = external })
            ]
      ]

  -- The critical section of `approve`, for the copy that passed the checks.
  unfoldable pub approve_commit : RawTraceGrant → String → ℕ → Action RawTraceGrant
  unfolding clear_stale_active update_if log
  approve_commit g approved_by now w =
      let (cleared, w') = clear_stale_active g.principal_id g.org_id now approved_by w in
      let g' = record g {
        approved_by = some approved_by;
        state = active;
        approved_at = some now;
      } in
      let (swapped, grants) = update_if g' pending w'.grants in
      elim cleared [
        | raise e ↦ (raise e, w')
        | return _ ↦
            if not swapped
            then (raise invalid_grant_transition, w')
            else (return g', log approved_by raw_grant_granted g' (record w' { grants = grants }))
      ]

  unfoldable pub approve : String → String → Option Ref → ℕ → Action RawTraceGrant
  unfolding get approve_checks approve_commit
  approve grant_id approved_by ref now w = elim (get grant_id w.grants) [
    | none ↦ (raise grant_not_found, w)
    | some g ↦ elim (approve_checks g approved_by ref) [
      | raise e ↦ (raise e, w)
      | return g' ↦ approve_commit g' approved_by now w
    ]
  ]
