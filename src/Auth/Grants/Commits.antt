-- ===== src/Auth/Grants/Commits.antt =====
-- What the rows are behind an operation that writes: cases on how far it came.
use intelligent_workflow_app.Prelude.{
  ℕ, ◌≡◌, refl, String, Bool, true, false, Option, some, List, string_eq, inl, inr, Bool-cases,
  Option-cases, ◌⊎◌,
}
use intelligent_workflow_app.Auth.Grants.{Ref, RawTraceGrant, RawTraceGrantState, active, pending}
use intelligent_workflow_app.Auth.Grants.Repository.{save, get, same_state, update_if}
use intelligent_workflow_app.Auth.Grants.Service.{
  GrantError, World, Result, return, raise, is_open, clear_stale_active,
}
use intelligent_workflow_app.Auth.Grants.Service.Activation.{
  Args, at_once, checked_external, request_checks, grant_at_once, grant_later, request,
  approve_checks, approve_commit, approve,
}
use intelligent_workflow_app.Auth.Grants.Service.Revocation.{revoked_copy, revoke}

pub Result-cases :
    {A : Type 0} (r : Result A) → ((e : GrantError) × (r ≡ raise e)) ⊎ ((a : A) × (r ≡ return a))
Result-cases (raise e) = inl (e, refl)
Result-cases (return a) = inr (a, refl)

-- The copy that an activation writes.
abbrev pub activated : RawTraceGrant → String → ℕ → RawTraceGrant
activated g by now = record g { state = active; approved_by = some by; approved_at = some now }

module _ (P : List RawTraceGrant → Type 0) where
  pub update_if_keeps :
      (g : RawTraceGrant) (expected : RawTraceGrantState) (items : List RawTraceGrant)
      → P items
      → ((current : RawTraceGrant)
          → get g.id items ≡ some current
          → same_state current.state expected ≡ true
          → P (save g items))
      → P (update_if g expected items).1
  unfolding update_if
  update_if_keeps g expected items h saved = elim (Option-cases (get g.id items)) [
    | inl missing ↦ rw (missing, update_if) h
    | inr (current, found) ↦ elim (Bool-cases (same_state current.state expected)) [
      | inl same ↦ rw (found, update_if) (rw (same, update_if) (saved current found same))
      | inr differ ↦ rw (found, update_if) (rw (differ, update_if) h)
    ]
  ]

  module _ (is_space : ℕ → Bool) where
    pub grant_at_once_keeps :
        (g : RawTraceGrant) (now : ℕ) (w : World)
        → (let cleared = clear_stale_active g.principal_id g.org_id now g.requested_by w in
            P cleared.1.grants
            → (cleared.0 ≡ return tt → P (save (activated g g.requested_by now) cleared.1.grants))
            → P (grant_at_once is_space g now w).1.grants)
    unfolding grant_at_once
    grant_at_once_keeps g now w h saved =
        elim (Result-cases (clear_stale_active g.principal_id g.org_id now g.requested_by w).0) [
          | inl (e, failed) ↦ rw (failed, grant_at_once) h
          | inr (_, passed) ↦ rw (passed, grant_at_once) (saved passed)
        ]

    pub grant_later_keeps :
        (g : RawTraceGrant) (w : World)
        → P w.grants
        → ((external : Option Ref)
            → P (save (record g { external_approval_ref = external }) w.grants))
        → P (grant_later is_space g w).1.grants
    unfolding grant_later
    grant_later_keeps g w h saved =
        elim (Result-cases (checked_external is_space g.approval_mode g.external_approval_ref)) [
          | inl (e, failed) ↦ rw (failed, grant_later) h
          | inr (external, passed) ↦ rw (passed, grant_later) (saved external)
        ]

    pub approve_commit_keeps :
        (g : RawTraceGrant) (by : String) (now : ℕ) (w : World)
        → (let cleared = clear_stale_active g.principal_id g.org_id now by w in
            P cleared.1.grants
            → (cleared.0 ≡ return tt
                → P (update_if (activated g by now) pending cleared.1.grants).1)
            → P (approve_commit is_space g by now w).1.grants)
    unfolding approve_commit
    approve_commit_keeps g by now w h saved =
        let cleared = clear_stale_active g.principal_id g.org_id now by w in
        elim (Result-cases cleared.0) [
          | inl (e, failed) ↦ rw (failed, approve_commit) h
          | inr (_, passed) ↦
              elim (Bool-cases (update_if (activated g by now) pending cleared.1.grants).0) [
                | inl swapped ↦
                    rw (passed, approve_commit) (rw (swapped, approve_commit) (saved passed))
                | inr lost ↦ rw (passed, approve_commit) (rw (lost, approve_commit) h)
              ]
        ]

    pub request_keeps :
        (dual : Bool) (a : Args) (w : World)
        → P w.grants
        → ((g : RawTraceGrant)
            → request_checks is_space a ≡ return g
            → at_once dual a ≡ true
            → P (grant_at_once is_space g a.now w).1.grants)
        → ((g : RawTraceGrant)
            → request_checks is_space a ≡ return g
            → at_once dual a ≡ false
            → P (grant_later is_space g w).1.grants)
        → P (request is_space dual a w).1.grants
    unfolding request
    request_keeps dual a w h now later = elim (Result-cases (request_checks is_space a)) [
      | inl (e, failed) ↦ rw (failed, request) h
      | inr (g, passed) ↦ elim (Bool-cases (at_once dual a)) [
        | inl direct ↦ rw (passed, request) (rw (direct, request) (now g passed direct))
        | inr waits ↦ rw (passed, request) (rw (waits, request) (later g passed waits))
      ]
    ]

    pub approve_keeps :
        (grant_id by : String) (ref : Option Ref) (now : ℕ) (w : World)
        → P w.grants
        → ((g g' : RawTraceGrant)
            → get grant_id w.grants ≡ some g
            → approve_checks is_space g by ref ≡ return g'
            → P (approve_commit is_space g' by now w).1.grants)
        → P (approve is_space grant_id by ref now w).1.grants
    unfolding approve
    approve_keeps grant_id by ref now w h commits = elim (Option-cases (get grant_id w.grants)) [
      | inl missing ↦ rw (missing, approve) h
      | inr (g, found) ↦ elim (Result-cases (approve_checks is_space g by ref)) [
        | inl (e, failed) ↦ rw (found, approve) (rw (failed, approve) h)
        | inr (g', passed) ↦ rw (found, approve) (rw (passed, approve) (commits g g' found passed))
      ]
    ]

  pub revoke_keeps_one :
      (grant_id by : String) (now : ℕ) (w : World)
      → P w.grants
      → ((g : RawTraceGrant)
          → get grant_id w.grants ≡ some g
          → is_open g ≡ true
          → P (update_if (revoked_copy g by now) g.state w.grants).1)
      → P (revoke grant_id by now w).1.grants
  unfolding revoke
  revoke_keeps_one grant_id by now w h commits = elim (Option-cases (get grant_id w.grants)) [
    | inl missing ↦ rw (missing, revoke) h
    | inr (g, found) ↦ elim (Bool-cases (is_open g)) [
      | inr over ↦ rw (found, revoke) (rw (over, revoke) h)
      | inl live ↦ elim (Bool-cases (update_if (revoked_copy g by now) g.state w.grants).0) [
        | inl swapped ↦
            rw (found, revoke) (rw (live, revoke) (rw (swapped, revoke) (commits g found live)))
        | inr lost ↦ rw (found, revoke) (rw (live, revoke) (rw (lost, revoke) h))
      ]
    ]
  ]
