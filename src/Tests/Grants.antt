-- ===== src/Tests/Grants.antt =====
-- Tests of the grants: a platform-wide grant is requested, approved, and cancelled or revoked.
use intelligent_workflow_app.Prelude.{
  ℕ, ◌≡◌, refl, String, Bool, true, false, string_eq, Option, none, some, List, [], ◌∷◌, eqb, arith,
}
use intelligent_workflow_app.Auth.Grants.{
  Ref, RawTraceGrant, pending, cancelled, debugging, dual_administrator,
}
use intelligent_workflow_app.Auth.Grants.Repository.{get}
use intelligent_workflow_app.Auth.Grants.Service.{GrantError, World, raise}
use intelligent_workflow_app.Auth.Grants.Service.Activation.{Args, approve_commit}
use intelligent_workflow_app.Auth.Grants.History.{
  Operation, requests, approves, revokes, revokes_all, perform_all,
}
use intelligent_workflow_app.Auth.Grants.Separation.{AllSeparated, perform_all-AllSeparated}
use intelligent_workflow_app.Auth.Grants.Unique.{OneActive, perform_all-OneActive}
use intelligent_workflow_app.Auth.Grants.Moves.{Follows}
use intelligent_workflow_app.Auth.Grants.Races.{approve_commit_lost}
use intelligent_workflow_app.Auth.Grants.Refs.{validate_opaque_ref}
use intelligent_workflow_app.Workflow.Definition.Ids.{safe_id}
use intelligent_workflow_app.Workflow.Definition.Ids.Laws.{IsSegment, safe_id-IsSegment}

abbrev blank : ℕ → Bool
blank c = elim (eqb c 32) [ true ↦ true | false ↦ eqb c 10 ]

abbrev ask : String → Option String → Args
ask id org = record {
  id = id;
  principal_id = "ann";
  org_id = org;
  requested_by = "bob";
  reason_code = debugging;
  approval_mode = dual_administrator;
  expires_at = some 900;
  ticket_ref = none;
  external_approval_ref = none;
  now = 100;
}

abbrev empty_world : World
empty_world = record { grants = []; audit = [] }

abbrev some_calls : List Operation
some_calls =
    requests (ask "g1" none)
    ∷ approves "g1" "cyd" none 150
    ∷ requests (ask "g2" (some "org"))
    ∷ revokes "g1" "bob" 200
    ∷ revokes_all "ann" "bob" 300
    ∷ []

abbrev granted : World
granted =
    perform_all blank false (requests (ask "g1" none) ∷ approves "g1" "cyd" none 150 ∷ [])
      empty_world

perform_all-AllSeparated_example :
    AllSeparated false (perform_all blank false some_calls empty_world)
perform_all-AllSeparated_example = perform_all-AllSeparated blank false some_calls empty_world tt

perform_all-OneActive_example : OneActive (perform_all blank false some_calls empty_world).grants
perform_all-OneActive_example =
    perform_all-OneActive blank false some_calls empty_world
      (record { unique = tt; one = λ p org. omega arith })

abbrev opaque : Ref
opaque = 32 ∷ b'T' ∷ b'-' ∷ b'1' ∷ 10 ∷ []

opaque_accepted : validate_opaque_ref blank opaque ≡ some (b'T' ∷ b'-' ∷ b'1' ∷ [])
unfolding validate_opaque_ref
opaque_accepted = refl

newline_accepted : safe_id (b'a' ∷ 10 ∷ []) ≡ true
unfolding safe_id
newline_accepted = refl

safe_id-IsSegment_example : IsSegment (b'a' ∷ 10 ∷ [])
safe_id-IsSegment_example = safe_id-IsSegment (b'a' ∷ 10 ∷ []) newline_accepted

-- A grant that was cancelled while its approval was on the way.
abbrev waiting : RawTraceGrant
waiting = record {
  id = "g1";
  principal_id = "ann";
  org_id = none;
  state = pending;
  approval_mode = dual_administrator;
  requested_by = "bob";
  requested_at = 100;
  approved_by = none;
  approved_at = none;
  external_approval_ref = none;
  expires_at = some 900;
  reason_code = debugging;
  ticket_ref = none;
  revoked_by = none;
  revoked_at = none;
}

abbrev gone : RawTraceGrant
gone = record waiting { state = cancelled; revoked_by = some "bob"; revoked_at = some 120 }

abbrev raced : World
raced = record { grants = gone ∷ []; audit = [] }

gone_stored : get "g1" raced.grants ≡ some gone
unfolding get string_eq
gone_stored = refl

approve_commit_lost_example :
    ((e : GrantError) × ((approve_commit blank waiting "cyd" 150 raced).0 ≡ raise e))
    × Follows raced.grants (approve_commit blank waiting "cyd" 150 raced).1.grants
approve_commit_lost_example =
    approve_commit_lost blank waiting "cyd" 150 raced gone (refl, tt) gone_stored refl
