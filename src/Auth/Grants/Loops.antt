-- ===== src/Auth/Grants/Loops.antt =====
-- What the two loops of the service keep: an invariant of the rows that each write of a listed copy
-- keeps.
use intelligent_workflow_app.Prelude.{
  ℕ, ◌≡◌, String, true, false, Option, List, [], ◌∷◌, All, string_eq, option_eq, inl, inr,
  Bool-cases,
}
use intelligent_workflow_app.Auth.Grants.{RawTraceGrant, expired, is_active}
use intelligent_workflow_app.Auth.Grants.Repository.{save}
use intelligent_workflow_app.Auth.Grants.Service.{World, clear_stale_from, is_scoped, is_open}
use intelligent_workflow_app.Auth.Grants.Service.Revocation.{revoked_copy, revoke_from}

module _ (P : List RawTraceGrant → Type 0) (Q : RawTraceGrant → Type 0) where
  module _ (org : Option String) (now : ℕ) (actor : String)
      (step : (g : RawTraceGrant) (items : List RawTraceGrant)
        → Q g
        → is_scoped org g ≡ true
        → is_active g now ≡ false
        → P items
        → P (save (record g { state = expired }) items)) where
    pub clear_keeps :
        (gs : List RawTraceGrant) (w : World)
        → All Q gs
        → P w.grants
        → P (clear_stale_from gs org now actor w).1.grants
    unfolding clear_stale_from
    clear_keeps [] w q h = h
    clear_keeps (g ∷ gs) w q h = elim (Bool-cases (is_scoped org g)) [
      | inr other ↦ rw (other, clear_stale_from) (clear_keeps gs w q.1 h)
      | inl scoped ↦ elim (Bool-cases (is_active g now)) [
        | inl live ↦ rw (scoped, live) h
        | inr stale ↦
            rw (scoped, stale, clear_stale_from)
              (clear_keeps gs _ q.1 (step g w.grants q.0 scoped stale h))
      ]
    ]

  module _ (by : String) (now : ℕ)
      (step : (g : RawTraceGrant) (items : List RawTraceGrant)
        → Q g
        → is_open g ≡ true
        → P items
        → P (save (revoked_copy g by now) items)) where
    pub revoke_keeps :
        (gs : List RawTraceGrant) (w : World)
        → All Q gs
        → P w.grants
        → P (revoke_from gs by now w).1.grants
    unfolding revoke_from
    revoke_keeps [] w q h = h
    revoke_keeps (g ∷ gs) w q h = elim (Bool-cases (is_open g)) [
      | inr other ↦ rw (other, revoke_from) (revoke_keeps gs w q.1 h)
      | inl live ↦ rw (live, revoke_from) (revoke_keeps gs _ q.1 (step g w.grants q.0 live h))
    ]
