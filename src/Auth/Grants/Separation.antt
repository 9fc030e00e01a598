-- ===== src/Auth/Grants/Separation.antt =====
-- Separation of duties: no operation of the service leaves a grant that one person gave themself.
use mathlib.Core.Option.{some-injective}
use intelligent_workflow_app.Prelude.{
  ℕ, ◌≡◌, ◌≢◌, String, Bool, true, ◌||◌, Option, none, some, List, [], ◌∷◌, All, is_none, string_eq,
  arith, sym, subst,
}
use intelligent_workflow_app.Auth.Grants.{
  Ref, RawTraceGrant, RawTraceGrantState, pending, active, expired,
}
use intelligent_workflow_app.Auth.Grants.Repository.{list_for_principal}
use intelligent_workflow_app.Auth.Grants.Loops.{clear_keeps, revoke_keeps}
use intelligent_workflow_app.Auth.Grants.Commits.{
  activated, update_if_keeps, grant_at_once_keeps, grant_later_keeps, approve_commit_keeps,
  request_keeps, approve_keeps, revoke_keeps_one,
}
use intelligent_workflow_app.Auth.Grants.History.{
  Operation, requests, approves, revokes, revokes_all, perform, perform_all,
}
use intelligent_workflow_app.Auth.Grants.Rows.{All-save, list-All, get-All}
use intelligent_workflow_app.Auth.Grants.Service.{is_open, World, return, clear_stale_active}
use intelligent_workflow_app.Auth.Grants.Service.Activation.{
  Args, is_tenant, request_checks, request, approve_checks, approve,
}
use intelligent_workflow_app.Auth.Grants.Service.Revocation.{
  revoked_copy, revoke, revoke_all_for_principal,
}

-- Whether one administrator is not enough: a platform-wide grant, one that a tenant authorizes, and
-- every grant under dual control.
abbrev pub needs_second : Bool → RawTraceGrant → Bool
needs_second dual g = is_none g.org_id || dual || is_tenant g.approval_mode

-- The recipient is neither the requester nor the approver; a grant that needs a second
-- authorization is approved by someone other than the requester; a platform-wide one expires.
pub record IsSeparated (dual : Bool) (g : RawTraceGrant) : Type 0 where
  pub not_requested : g.requested_by ≢ g.principal_id
  pub not_approved : g.approved_by ≢ some g.principal_id
  pub second : g.state ≡ active → needs_second dual g ≡ true → g.approved_by ≢ some g.requested_by
  pub someone : g.state ≡ active → g.approved_by ≢ none
  pub expires : g.org_id ≡ none → g.expires_at ≢ none

module _ (dual : Bool) where
  abbrev pub AllSeparated : World → Type 0
  AllSeparated w = All (IsSeparated dual) w.grants

  -- A grant that is no longer active stays separated.
  put_away :
      (g : RawTraceGrant) (s : RawTraceGrantState)
      → s ≢ active
      → IsSeparated dual g
      → IsSeparated dual (record g { state = s })
  put_away g s n h = record {
    not_requested = h.not_requested;
    not_approved = h.not_approved;
    second = λ e. absurd (n e);
    someone = λ e. absurd (n e);
    expires = h.expires;
  }

  clear-AllSeparated :
      (principal : String) (org : Option String) (now : ℕ) (actor : String) (w : World)
      → AllSeparated w
      → AllSeparated (clear_stale_active principal org now actor w).1
  unfolding clear_stale_active
  clear-AllSeparated principal org now actor w h =
      clear_keeps (All (IsSeparated dual)) (IsSeparated dual) org now actor
        (λ g items q _ _ all.
          All-save (IsSeparated dual) _ items (put_away g expired (λ e. ground arith) q) all)
        (list_for_principal principal w.grants) w (list-All (IsSeparated dual) principal w.grants h)
        h

  revoked-IsSeparated :
      (g : RawTraceGrant) (by : String) (now : ℕ)
      → is_open g ≡ true
      → IsSeparated dual g
      → IsSeparated dual (revoked_copy g by now)
  unfolding revoked_copy
  revoked-IsSeparated g by now live h = record {
    not_requested = h.not_requested;
    not_approved = h.not_approved;
    second = λ e. absurd (ground arith);
    someone = λ e. absurd (ground arith);
    expires = h.expires;
  }

  revoke_all-AllSeparated :
      (principal by : String) (now : ℕ) (w : World)
      → AllSeparated w
      → AllSeparated (revoke_all_for_principal principal by now w).1
  unfolding revoke_all_for_principal
  revoke_all-AllSeparated principal by now w h =
      revoke_keeps (All (IsSeparated dual)) (IsSeparated dual) by now
        (λ g items q live all.
          All-save (IsSeparated dual) _ items (revoked-IsSeparated g by now live q) all)
        (list_for_principal principal w.grants) w (list-All (IsSeparated dual) principal w.grants h)
        h

  revoke-AllSeparated :
      (grant_id by : String) (now : ℕ) (w : World)
      → AllSeparated w
      → AllSeparated (revoke grant_id by now w).1
  revoke-AllSeparated grant_id by now w h =
      revoke_keeps_one (All (IsSeparated dual)) grant_id by now w h (λ g found live.
        let q = get-All (IsSeparated dual) w.grants grant_id g h found in
        update_if_keeps (All (IsSeparated dual)) (revoked_copy g by now) g.state w.grants h
          (λ _ _ _. All-save (IsSeparated dual) _ w.grants (revoked-IsSeparated g by now live q) h))

activated-IsSeparated :
    {dual : Bool} (g g' : RawTraceGrant) (by : String) (now : ℕ) (external : Option Ref)
    → g' ≡ record g { external_approval_ref = external }
    → IsSeparated dual g
    → by ≢ g.principal_id
    → by ≢ g.requested_by
    → IsSeparated dual (activated g' by now)
activated-IsSeparated {dual} g g' by now external is q recipient requester =
    subst (λ x. IsSeparated dual (activated x by now)) (sym is)
      (record {
        not_requested = q.not_requested;
        not_approved = λ e. recipient (some-injective _ _ e);
        second = λ _ _ e. requester (some-injective _ _ e);
        someone = λ _ e. ground arith;
        expires = q.expires;
      })

module _ (is_space : ℕ → Bool) (dual : Bool) where
  -- What the checks of a request let through.
  new_grant-checks :
      (a : Args) (g : RawTraceGrant)
      → request_checks is_space a ≡ return g
      → (g.requested_by ≢ g.principal_id)
        × (g.approved_by ≡ none)
        × (g.state ≡ pending)
        × (g.org_id ≡ none → g.expires_at ≢ none)
        × (g.org_id ≡ a.org_id)
        × (g.approval_mode ≡ a.approval_mode)
  unfolding request_checks
  new_grant-checks a g h = ground arith

  approve_checks-copy :
      (g g' : RawTraceGrant) (by : String) (ref : Option Ref)
      → approve_checks is_space g by ref ≡ return g'
      → (external : Option Ref) × (g' ≡ record g { external_approval_ref = external })
        × (by ≢ g.principal_id)
        × (by ≢ g.requested_by)
  unfolding approve_checks
  approve_checks-copy g g' by ref h =
      (g'.external_approval_ref, ground arith, λ e. ground arith, λ e. ground arith)

  request-AllSeparated :
      (a : Args) (w : World) → AllSeparated dual w → AllSeparated dual (request is_space dual a w).1
  request-AllSeparated a w h =
      request_keeps (All (IsSeparated dual)) is_space dual a w h
        (λ g passed direct.
          let (n, none_yet, waits, expires, org, mode) = new_grant-checks a g passed in
          let cleared = clear-AllSeparated dual g.principal_id g.org_id a.now g.requested_by w h in
          grant_at_once_keeps (All (IsSeparated dual)) is_space g a.now w cleared (λ _.
            All-save (IsSeparated dual) (activated g g.requested_by a.now) _
              (record {
                not_requested = n;
                not_approved = λ e. n (some-injective _ _ e);
                second = λ _ e. absurd (ground arith);
                someone = λ _ e. ground arith;
                expires = expires;
              })
              cleared))
        (λ g passed later.
          let (n, none_yet, waits, expires, org, mode) = new_grant-checks a g passed in
          grant_later_keeps (All (IsSeparated dual)) is_space g w h (λ external.
            All-save (IsSeparated dual) _ w.grants
              (record {
                not_requested = n;
                not_approved = λ e. ground arith;
                second = λ e. absurd (ground arith);
                someone = λ e. absurd (ground arith);
                expires = expires;
              })
              h))

  approve-AllSeparated :
      (grant_id by : String) (ref : Option Ref) (now : ℕ) (w : World)
      → AllSeparated dual w
      → AllSeparated dual (approve is_space grant_id by ref now w).1
  approve-AllSeparated grant_id by ref now w h =
      approve_keeps (All (IsSeparated dual)) is_space grant_id by ref now w h (λ g g' found passed.
        let q = get-All (IsSeparated dual) w.grants grant_id g h found in
        let (external, is, recipient, requester) = approve_checks-copy g g' by ref passed in
        let cleared = clear-AllSeparated dual g'.principal_id g'.org_id now by w h in
        approve_commit_keeps (All (IsSeparated dual)) is_space g' by now w cleared (λ _.
          update_if_keeps (All (IsSeparated dual)) (activated g' by now) pending _ cleared (λ _ _ _.
            All-save (IsSeparated dual) (activated g' by now) _
              (activated-IsSeparated g g' by now external is q recipient requester) cleared)))

  perform-AllSeparated :
      (o : Operation) (w : World)
      → AllSeparated dual w
      → AllSeparated dual (perform is_space dual o w)
  unfolding perform
  perform-AllSeparated (requests a) w h = request-AllSeparated a w h
  perform-AllSeparated (approves i by ref now) w h = approve-AllSeparated i by ref now w h
  perform-AllSeparated (revokes i by now) w h = revoke-AllSeparated dual i by now w h
  perform-AllSeparated (revokes_all p by now) w h = revoke_all-AllSeparated dual p by now w h

  -- No sequence of calls of the service leaves a grant that one person gave themself: its recipient
  -- neither requested nor approved it; an active one has an approver, who is not the requester
  -- where the grant is platform-wide or tenant-authorized or dual control is on; and a
  -- platform-wide grant has an expiry. This holds of every row, if it held of the rows at first.
  pub perform_all-AllSeparated :
      (operations : List Operation) (w : World)
      → AllSeparated dual w
      → AllSeparated dual (perform_all is_space dual operations w)
  unfolding perform_all
  perform_all-AllSeparated [] w h = h
  perform_all-AllSeparated (o ∷ operations) w h =
      perform_all-AllSeparated operations _ (perform-AllSeparated o w h)
