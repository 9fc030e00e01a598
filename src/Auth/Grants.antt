-- ===== src/Auth/Grants.antt =====
-- auth/raw_trace_grants.py with `RawTraceGrant` of persistence/models.py and its in-memory
-- repository: the life cycle of a raw-trace grant. Times are seconds. A reference is the list of
-- its code points, because the service walks it.
pub mod Repository
pub mod Refs
pub mod Rows
pub mod Service
pub mod Loops
pub mod Commits
pub mod History
pub mod Moves
pub mod Transitions
pub mod Separation
pub mod Races
pub mod Unique
pub mod Reads
use intelligent_workflow_app.Prelude.{
  ℕ, String, Bool, true, false, ◌&&◌, ◌||◌, not, Option, none, some, List, [], ◌∷◌, is_none, ltb,
  ◌==◌, string_eq, option_eq, if◌then◌else◌,
}

pub data RawTraceGrantState : Type 0 where
  pending active rejected cancelled revoked expired : RawTraceGrantState

pub data RawTraceApprovalMode : Type 0 where
  dual_administrator tenant_authorized : RawTraceApprovalMode

pub data RawTraceReasonCode : Type 0 where
  incident_investigation customer_support compliance_audit debugging quality_evaluation :
      RawTraceReasonCode

abbrev pub Ref : Type 0
Ref = List ℕ

pub record RawTraceGrant : Type 0 where
  pub id : String
  pub principal_id : String
  pub org_id : Option String
  pub state : RawTraceGrantState
  pub approval_mode : RawTraceApprovalMode
  pub requested_by : String
  pub requested_at : ℕ
  pub approved_by : Option String
  pub approved_at : Option ℕ
  pub external_approval_ref : Option Ref
  pub expires_at : Option ℕ
  pub reason_code : RawTraceReasonCode
  pub ticket_ref : Option Ref
  pub revoked_by : Option String
  pub revoked_at : Option ℕ

abbrev pub is_state_active : RawTraceGrantState → Bool
is_state_active active = true
is_state_active _ = false

abbrev pub is_state_pending : RawTraceGrantState → Bool
is_state_pending pending = true
is_state_pending _ = false

unfoldable pub is_platform_wide : RawTraceGrant → Bool
is_platform_wide g = is_none g.org_id

-- `self.expires_at is None or self.expires_at > now`
abbrev pub not_past : Option ℕ → ℕ → Bool
not_past none now = true
not_past (some t) now = ltb now t

unfoldable pub is_active : RawTraceGrant → ℕ → Bool
is_active g now = if not (is_state_active g.state) then false else not_past g.expires_at now

unfoldable pub covers : RawTraceGrant → Option String → ℕ → Bool
unfolding is_active is_platform_wide
covers g target_org now =
    if not (is_active g now) then false else is_platform_wide g || g.org_id == target_org

unfoldable pub covering_grant : List RawTraceGrant → Option String → ℕ → Option RawTraceGrant
unfolding covers
covering_grant [] target_org now = none
covering_grant (g ∷ grants) target_org now =
    if covers g target_org now then some g else covering_grant grants target_org now
