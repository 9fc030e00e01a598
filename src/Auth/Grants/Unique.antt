-- ===== src/Auth/Grants/Unique.antt =====
-- A principal has at most one active grant for a scope.
use mathlib.Core.Option.{some-injective}
use intelligent_workflow_app.Prelude.{
  ℕ, ◌≤◌, ◌≡◌, refl, String, Bool, true, false, ◌&&◌, Option, some, List, [], ◌∷◌, All, contains,
  count_if, ◌==◌, string_eq, option_eq, arith, inl, inr, Bool-cases, ap,
}
use intelligent_workflow_app.Auth.Grants.{
  RawTraceGrant, pending, expired, is_state_active, is_active,
}
use intelligent_workflow_app.Auth.Grants.Repository.{save, get, list_for_principal}
use intelligent_workflow_app.Auth.Grants.Rows.{
  ids, UniqueIds, get-save, save-UniqueIds, count_if-save, Current, Current-save, All-get,
  list-Current, list-UniqueIds, get-listed,
}
use intelligent_workflow_app.Auth.Grants.Service.{
  World, Result, return, is_scoped, clear_stale_from, clear_stale_active,
}
use intelligent_workflow_app.Auth.Grants.Service.Activation.{Args, request_checks}
use intelligent_workflow_app.Auth.Grants.Service.Revocation.{revoked_copy, revoke_all_for_principal}
use intelligent_workflow_app.Auth.Grants.Loops.{clear_keeps, revoke_keeps}
use intelligent_workflow_app.Auth.Grants.Commits.{
  activated, update_if_keeps, grant_at_once_keeps, grant_later_keeps, approve_commit_keeps,
  request_keeps, approve_keeps, revoke_keeps_one,
}
use intelligent_workflow_app.Auth.Grants.History.{
  Operation, requests, approves, revokes, revokes_all, perform, perform_all,
}

-- An active grant of the principal for the scope, expired or not.
abbrev pub held : String → Option String → RawTraceGrant → Bool
held principal org g = g.principal_id == principal && is_scoped org g

-- The rows have unique ids, and a principal has at most one active grant for a scope.
pub record OneActive (items : List RawTraceGrant) : Type 0 where
  pub unique : UniqueIds items
  pub one : (principal : String) (org : Option String) → count_if (held principal org) items ≤ 1

count_if_zero :
    (f : RawTraceGrant → Bool) (items : List RawTraceGrant)
    → All (λ g. f g ≡ false) items
    → count_if f items ≡ 0
count_if_zero f [] h = refl
count_if_zero f (g ∷ items) h = ground (arith, h.0, count_if_zero f items h.1)

-- A write of a grant that is not active keeps the invariant.
save_inactive :
    (g : RawTraceGrant) (items : List RawTraceGrant)
    → is_state_active g.state ≡ false
    → OneActive items
    → OneActive (save g items)
save_inactive g items e h = record {
  unique = save-UniqueIds g items h.unique;
  one = λ p org. ground (arith, count_if-save (held p org) g items, h.one p org);
}

trivial : (gs : List RawTraceGrant) → All (λ _. Unit {0}) gs
trivial [] = tt
trivial (g ∷ gs) = (tt, trivial gs)

clear-OneActive :
    (principal : String) (org : Option String) (now : ℕ) (actor : String) (w : World)
    → OneActive w.grants
    → OneActive (clear_stale_active principal org now actor w).1.grants
unfolding clear_stale_active
clear-OneActive principal org now actor w h =
    clear_keeps OneActive (λ _. Unit) org now actor
      (λ g items _ _ _ one. save_inactive _ items refl one) (list_for_principal principal w.grants)
      w (trivial (list_for_principal principal w.grants)) h

revoked_copy-inactive :
    (g : RawTraceGrant) (by : String) (now : ℕ)
    → is_state_active (revoked_copy g by now).state ≡ false
unfolding revoked_copy
revoked_copy-inactive g by now = ground arith

revoke_all-OneActive :
    (principal by : String) (now : ℕ) (w : World)
    → OneActive w.grants
    → OneActive (revoke_all_for_principal principal by now w).1.grants
unfolding revoke_all_for_principal
revoke_all-OneActive principal by now w h =
    revoke_keeps OneActive (λ _. Unit) by now
      (λ g items _ _ one. save_inactive _ items (revoked_copy-inactive g by now) one)
      (list_for_principal principal w.grants) w (trivial (list_for_principal principal w.grants)) h

request-inactive :
    (is_space : ℕ → Bool) (a : Args) (g : RawTraceGrant)
    → request_checks is_space a ≡ return g
    → is_state_active g.state ≡ false
unfolding request_checks
request-inactive is_space a g h = ground arith

module _ (principal : String) (org : Option String) (now : ℕ) (actor : String) where
  -- Every grant that is held is still to come in the loop.
  abbrev Remaining : List RawTraceGrant → List RawTraceGrant → Type 0
  Remaining gs items =
      (i : String) (g : RawTraceGrant)
      → get i items ≡ some g
      → held principal org g ≡ true
      → contains (ids gs) i ≡ true

  skip :
      (g : RawTraceGrant) (gs items : List RawTraceGrant)
      → get g.id items ≡ some g
      → is_scoped org g ≡ false
      → Remaining (g ∷ gs) items
      → Remaining gs items
  skip g gs items here other h i x found is = elim (Bool-cases (i == g.id)) [
    | inl same ↦
        let e : some g ≡ some x = ground (arith, here, found) in
        absurd (ground (arith, ap (is_scoped org) (some-injective g x e)))
    | inr differ ↦ ground (arith, h i x found is)
  ]

  expire :
      (g : RawTraceGrant) (gs items : List RawTraceGrant)
      → Remaining (g ∷ gs) items
      → Remaining gs (save (record g { state = expired }) items)
  expire g gs items h i x found is =
      let g' : RawTraceGrant = record g { state = expired } in
      elim (Bool-cases (g.id == i)) [
        | inl same ↦
            let e : some g' ≡ some x = ground (arith, get-save i g' items, found) in
            absurd (ground (arith, ap (is_scoped org) (some-injective g' x e)))
        | inr differ ↦
            let old : get i items ≡ some x = ground (arith, get-save i g' items, found) in
            ground (arith, h i x old is)
      ]

  -- A pass that does not raise leaves no grant that is held.
  abbrev Clears : Result (Unit {0}) × World → Type 0
  Clears after = after.0 ≡ return tt → Remaining [] after.1.grants

  clear_stale_from-Clears :
      (gs : List RawTraceGrant) (w : World)
      → UniqueIds gs
      → Current gs w.grants
      → Remaining gs w.grants
      → Clears (clear_stale_from gs org now actor w)
  unfolding clear_stale_from
  clear_stale_from-Clears [] w u c h = λ _. h
  clear_stale_from-Clears (g ∷ gs) w u c h = elim (Bool-cases (is_scoped org g)) [
    | inr other ↦
        rw (other, clear_stale_from)
          (clear_stale_from-Clears gs w u.1 c.1 (skip g gs w.grants c.0 other h))
    | inl scoped ↦ elim (Bool-cases (is_active g now)) [
      | inl live ↦ rw (scoped, live) (λ passed. absurd (ground arith))
      | inr stale ↦
          rw (scoped, stale, clear_stale_from)
            (clear_stale_from-Clears gs _ u.1 (Current-save _ gs w.grants u.0 c.1)
              (expire g gs w.grants h))
    ]
  ]

  clear_none :
      (w : World)
      → OneActive w.grants
      → (clear_stale_active principal org now actor w).0 ≡ return tt
      → count_if (held principal org) (clear_stale_active principal org now actor w).1.grants ≡ 0
  unfolding clear_stale_active
  clear_none w h passed =
      let gs = list_for_principal principal w.grants in
      let after = (clear_stale_from gs org now actor w).1.grants in
      let start : Remaining gs w.grants =
        λ i g found is. get-listed principal w.grants i g found (ground arith) in
      let cleared =
        clear_stale_from-Clears gs w (list-UniqueIds principal w.grants h.unique)
          (list-Current principal w.grants h.unique) start passed in
      count_if_zero (held principal org) after (
        All-get (λ g. held principal org g ≡ false) after
          (clear-OneActive principal org now actor w h).unique
          (λ i g found. elim (Bool-cases (held principal org g)) [
            | inl is ↦ absurd (ground (arith, cleared i g found is))
            | inr other ↦ other
          ]))

-- Where none is held, a grant may be activated.
activate :
    (g : RawTraceGrant) (items : List RawTraceGrant)
    → OneActive items
    → count_if (held g.principal_id g.org_id) items ≡ 0
    → OneActive (save g items)
activate g items h none_held = record {
  unique = save-UniqueIds g items h.unique;
  one = λ p org. elim (Bool-cases (held p org g)) [
    | inr other ↦ ground (arith, count_if-save (held p org) g items, h.one p org)
    | inl is ↦
        let same_p : p ≡ g.principal_id = ground arith in
        let same_org : org ≡ g.org_id = ground arith in
        rw (same_p, same_org)
          (ground (arith, none_held, count_if-save (held g.principal_id g.org_id) g items))
  ];
}

module _ (is_space : ℕ → Bool) (dual : Bool) where
  perform-OneActive :
      (o : Operation) (w : World)
      → OneActive w.grants
      → OneActive (perform is_space dual o w).grants
  unfolding perform
  perform-OneActive (requests a) w h =
      request_keeps OneActive is_space dual a w h
        (λ g _ _.
          let cleared = clear-OneActive g.principal_id g.org_id a.now g.requested_by w h in
          grant_at_once_keeps OneActive is_space g a.now w cleared (λ passed.
            activate (activated g g.requested_by a.now) _ cleared
              (clear_none g.principal_id g.org_id a.now g.requested_by w h passed)))
        (λ g passed _.
          grant_later_keeps OneActive is_space g w h
            (λ external. save_inactive _ w.grants (request-inactive is_space a g passed) h))
  perform-OneActive (approves i by ref now) w h =
      approve_keeps OneActive is_space i by ref now w h (λ _ g _ _.
        let cleared = clear-OneActive g.principal_id g.org_id now by w h in
        approve_commit_keeps OneActive is_space g by now w cleared (λ passed.
          update_if_keeps OneActive (activated g by now) pending _ cleared (λ _ _ _.
            activate (activated g by now) _ cleared
              (clear_none g.principal_id g.org_id now by w h passed))))
  perform-OneActive (revokes i by now) w h =
      revoke_keeps_one OneActive i by now w h (λ g found live.
        update_if_keeps OneActive (revoked_copy g by now) g.state w.grants h
          (λ _ _ _. save_inactive _ w.grants (revoked_copy-inactive g by now) h))
  perform-OneActive (revokes_all p by now) w h = revoke_all-OneActive p by now w h

  -- Whatever calls were made, a principal has at most one active grant for a scope (an organization,
  -- or the platform), and the rows have unique ids, if both held at first.
  pub perform_all-OneActive :
      (operations : List Operation) (w : World)
      → OneActive w.grants
      → OneActive (perform_all is_space dual operations w).grants
  unfolding perform_all
  perform_all-OneActive [] w h = h
  perform_all-OneActive (o ∷ operations) w h =
      perform_all-OneActive operations _ (perform-OneActive o w h)
