-- ===== src/Auth/Grants/Reads.antt =====
-- What a read surface relies on: the covering grant, and the compare-and-set of an activation.
use intelligent_workflow_app.Prelude.{
  ℕ, ◌≡◌, String, true, false, ◌&&◌, Option, none, some, List, All, Some, ◌==◌, string_eq,
  option_eq, ◌⊎◌,
}
use intelligent_workflow_app.Auth.Grants.{RawTraceGrant, active, covers, covering_grant, not_past}
use intelligent_workflow_app.Auth.Grants.Repository.{list_for_principal}

-- A grant that lets its principal read: it is stored, active, in time, and of the scope.
pub record IsCover (items : List RawTraceGrant) (principal : String) (target : Option String)
    (now : ℕ) (g : RawTraceGrant) : Type 0 where
  pub stored : Some (λ x. x ≡ g) items
  pub of_principal : g.principal_id ≡ principal
  pub is_granted : g.state ≡ active
  pub in_time : not_past g.expires_at now ≡ true
  pub in_scope : (g.org_id ≡ none) ⊎ (g.org_id ≡ target)

-- What the lookup finds: a cover, or that no grant of the principal covers.
abbrev pub Found : List RawTraceGrant → String → Option String → ℕ → Option RawTraceGrant → Type 0
Found items principal target now none =
    All (λ g. (g.principal_id == principal && covers g target now) ≡ false) items
Found items principal target now (some g) = IsCover items principal target now g

module _ (principal : String) (target : Option String) (now : ℕ) where
  lookup : List RawTraceGrant → Option RawTraceGrant
  lookup items = covering_grant (list_for_principal principal items) target now
