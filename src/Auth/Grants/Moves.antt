-- ===== src/Auth/Grants/Moves.antt =====
-- The moves of a grant: which states lead to which, and what never changes.
use intelligent_workflow_app.Prelude.{
  ℕ, ◌≡◌, refl, String, Bool, true, false, Option, some, List, string_eq, arith, ◌∙◌,
}
use intelligent_workflow_app.Auth.Grants.{
  Ref, RawTraceGrant, RawTraceGrantState, pending, active, rejected, cancelled, revoked, expired,
  is_state_active,
}
use intelligent_workflow_app.Auth.Grants.Repository.{get}
use intelligent_workflow_app.Auth.Grants.Service.{return, is_open}
use intelligent_workflow_app.Auth.Grants.Service.Activation.{approve_checks}
use intelligent_workflow_app.Auth.Grants.Service.Revocation.{revoked_copy}
use intelligent_workflow_app.Auth.Grants.Commits.{activated}

-- The states that a state leads to, in any number of legal transitions.
abbrev pub leads : RawTraceGrantState → RawTraceGrantState → Bool
leads pending rejected = false
leads pending _ = true
leads active active = true
leads active revoked = true
leads active expired = true
leads rejected rejected = true
leads cancelled cancelled = true
leads revoked revoked = true
leads expired expired = true
leads _ _ = false

-- The grant moved along legal transitions, and is for the same person, scope and requester.
pub record Moves (g g' : RawTraceGrant) : Type 0 where
  pub legal : leads g.state g'.state ≡ true
  pub same_id : g'.id ≡ g.id
  pub same_principal : g'.principal_id ≡ g.principal_id
  pub same_scope : g'.org_id ≡ g.org_id
  pub same_requester : g'.requested_by ≡ g.requested_by

-- Every row is still there, and moved legally.
abbrev pub Follows : List RawTraceGrant → List RawTraceGrant → Type 0
Follows before items =
    (i : String) (g : RawTraceGrant)
    → get i before ≡ some g
    → (g' : RawTraceGrant) × (get i items ≡ some g') × Moves g g'

leads_refl : (s : RawTraceGrantState) → leads s s ≡ true
leads_refl s = ground arith

pub Follows-refl : (items : List RawTraceGrant) → Follows items items
Follows-refl items i g found = (
  g,
  found,
  record {
    legal = leads_refl g.state;
    same_id = refl;
    same_principal = refl;
    same_scope = refl;
    same_requester = refl;
  },
)

leads_trans : (r s t : RawTraceGrantState) → leads r s ≡ true → leads s t ≡ true → leads r t ≡ true
leads_trans r s t h k = ground arith

pub Follows-trans :
    (before items after : List RawTraceGrant)
    → Follows before items
    → Follows items after
    → Follows before after
Follows-trans before items after h k i g found =
    let (g', found', m) = h i g found in
    let (g'', found'', n) = k i g' found' in
    (
      g'',
      found'',
      record {
        legal = leads_trans g.state g'.state g''.state m.legal n.legal;
        same_id = n.same_id ∙ m.same_id;
        same_principal = n.same_principal ∙ m.same_principal;
        same_scope = n.same_scope ∙ m.same_scope;
        same_requester = n.same_requester ∙ m.same_requester;
      },
    )

pub expired-Moves :
    (g : RawTraceGrant) → is_state_active g.state ≡ true → Moves g (record g { state = expired })
expired-Moves g is = record {
  legal = ground arith;
  same_id = refl;
  same_principal = refl;
  same_scope = refl;
  same_requester = refl;
}

pub revoked-Moves :
    (g : RawTraceGrant) (by : String) (now : ℕ) → is_open g ≡ true → Moves g (revoked_copy g by now)
unfolding revoked_copy
revoked-Moves g by now is = record {
  legal = ground arith;
  same_id = refl;
  same_principal = refl;
  same_scope = refl;
  same_requester = refl;
}

pub activated-Moves :
    (is_space : ℕ → Bool) (g g' : RawTraceGrant) (by : String) (ref : Option Ref) (now : ℕ)
    → approve_checks is_space g by ref ≡ return g'
    → Moves g (activated g' by now)
unfolding approve_checks
activated-Moves is_space g g' by ref now passed = record {
  legal = ground arith;
  same_id = ground arith;
  same_principal = ground arith;
  same_scope = ground arith;
  same_requester = ground arith;
}
