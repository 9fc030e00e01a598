-- ===== src/Auth/Grants/History.antt =====
-- The operations of the service as values, and the world behind a sequence of them.
use intelligent_workflow_app.Prelude.{ℕ, String, Bool, Option, List, [], ◌∷◌}
use intelligent_workflow_app.Auth.Grants.{Ref}
use intelligent_workflow_app.Auth.Grants.Service.{World}
use intelligent_workflow_app.Auth.Grants.Service.Activation.{Args, request, approve}
use intelligent_workflow_app.Auth.Grants.Service.Revocation.{revoke, revoke_all_for_principal}

-- A call, with the time that the clock gives.
pub data Operation : Type 0 where
  requests : Args → Operation
  approves : String → String → Option Ref → ℕ → Operation
  revokes : String → String → ℕ → Operation
  revokes_all : String → String → ℕ → Operation

module _ (is_space : ℕ → Bool) (dual_control : Bool) where
  unfoldable pub perform : Operation → World → World
  unfolding request approve revoke revoke_all_for_principal
  perform (requests a) w = (request is_space dual_control a w).1
  perform (approves grant_id approved_by ref now) w =
      (approve is_space grant_id approved_by ref now w).1
  perform (revokes grant_id revoked_by now) w = (revoke grant_id revoked_by now w).1
  perform (revokes_all principal revoked_by now) w =
      (revoke_all_for_principal principal revoked_by now w).1

  unfoldable pub perform_all : List Operation → World → World
  unfolding perform
  perform_all [] w = w
  perform_all (o ∷ operations) w = perform_all operations (perform o w)
