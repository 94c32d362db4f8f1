-- ===== src/Engine/Issuance/Separated.antt =====
-- engine/core.py (`authorize`): what was checked before a grant is issued, and the roles of the call.
use chitragupta_protocol.Base.{
  ℕ, ◌≡◌, refl, sym, ◌∙◌, Bool, true, false, Option, none, some, List, [], ◌∷◌, ◌++◌, arith,
}
use chitragupta_protocol.Domain.{Texts}
use chitragupta_protocol.Duty.{
  RoleAssignment, SeparationOfDutyPolicy, approver_role, executor_role, proposer_role, has_pair,
  sorted_pairs, new_role_assignment, validate_entries, merge, base_role_assignment,
  check_separation_of_duty,
}
use chitragupta_protocol.Duty.Separation.{
  Holds, IsSeparated, satisfied_iff, sorted-has_pair, append-has_pair,
}
use chitragupta_protocol.Engine.Checks.{Context, passes}
use chitragupta_protocol.Engine.Control.{Control}
use chitragupta_protocol.Engine.Issuance.{
  Issuing, Authorization, separation_type, assert_budget_registered, bundle_check,
  policy_from_payload, enforce_separation, combined_roles, before_issue, conclude_separation,
}
use chitragupta_protocol.Engine.Issuance.Inversion.{checked_then, lift_then, attempt_then}
use chitragupta_protocol.Errors.{ok, bind-ok, Result-cases}
use chitragupta_protocol.Manifest.{verify_seal}
use chitragupta_protocol.Policy.{SealedPolicyBundle, verify_policy_bundle}

conclude_separation-ok :
    (b : Bool) (w v : Control)
    → conclude_separation b w ≡ (ok tt, v)
    → (b ≡ true) × (v.engine ≡ w.engine)
conclude_separation-ok true w v h = (refl, ground arith)
conclude_separation-ok false w v h = absurd (ground arith)

-- What a separation policy that was enforced has established.
pub record IsEnforced (c : Context) (i : Issuing) (b : SealedPolicyBundle) (roles : RoleAssignment)
    : Type 0 where
  pub policy : SeparationOfDutyPolicy
  pub verified :
      verify_policy_bundle c.bundle_hash c.check b c.keyring i.now_separation (some separation_type)
      ≡ ok tt
  pub read : policy_from_payload i b.bundle.payload ≡ ok policy
  pub separated : IsSeparated roles policy.forbidden_role_pairs

enforce-ok :
    (c : Context) (i : Issuing) (b : SealedPolicyBundle) (roles : RoleAssignment) (w v : Control)
    → enforce_separation c i (some b) roles w ≡ (ok tt, v)
    → IsEnforced c i b roles
unfolding enforce_separation
enforce-ok c i b roles w v h =
    let (u, verified, k) =
      attempt_then _
        (verify_policy_bundle c.bundle_hash c.check b c.keyring i.now_separation
          (some separation_type))
        _ w h in
    let (policy, read, l) = lift_then (policy_from_payload i b.bundle.payload) _ w k in
    let done = conclude_separation-ok (check_separation_of_duty roles policy).satisfied w v l in
    record {
      policy = policy;
      verified = verified;
      read = read;
      separated = (satisfied_iff roles policy).0 done.0;
    }

-- What precedes the issue, where it returns.
pub record IsPrepared (c : Context) (i : Issuing) (a : Authorization) (w : Control) : Type 0 where
  pub roles : RoleAssignment
  pub seal : verify_seal c.manifest_hash c.check a.sealed c.keyring ≡ ok tt
  pub budget : assert_budget_registered w.budget_ledger a.terms.authority_budget_id ≡ ok tt
  pub bundle : bundle_check c a.policy_bundle ≡ passes tt
  pub combined : combined_roles i a ≡ ok roles
  pub enforced :
      (b : SealedPolicyBundle) → a.separation_policy_bundle ≡ some b → IsEnforced c i b roles

pub before_issue-ok :
    (c : Context) (i : Issuing) (a : Authorization) (w v : Control)
    → before_issue c i a w ≡ (ok tt, v)
    → IsPrepared c i a w
unfolding before_issue
before_issue-ok c i a w v h =
    let (_, seal, h1) = lift_then (verify_seal c.manifest_hash c.check a.sealed c.keyring) _ w h in
    let (_, budget, h2) =
      lift_then (assert_budget_registered w.budget_ledger a.terms.authority_budget_id) _ w h1 in
    let (_, bundle, h3) = checked_then (bundle_check c a.policy_bundle) _ w h2 in
    let (roles, combined, h4) = lift_then (combined_roles i a) _ w h3 in
    record {
      roles = roles;
      seal = seal;
      budget = budget;
      bundle = bundle;
      combined = combined;
      enforced = λ b e. enforce-ok c i b roles w v (rw (sym e) h4);
    }

-- The entries of an assignment that is constructed are those given.
new-entries :
    (texts : Texts) (h : ℕ) (es : List (ℕ × ℕ)) (r : RoleAssignment)
    → new_role_assignment texts h es ≡ ok r
    → r.assignments ≡ es
unfolding new_role_assignment
new-entries texts h es r e = ground (arith, Result-cases (validate_entries texts [] es))

merge_keeps :
    (texts : Texts) (a r : RoleAssignment) (other : Option RoleAssignment) (role p : ℕ)
    → merge texts a other ≡ ok r
    → Holds a role p
    → Holds r role p
unfolding merge
merge_keeps texts a r none role p h k = ground arith
merge_keeps texts a r (some other) role p h k =
    let entries : List (ℕ × ℕ) = sorted_pairs (a.assignments ++ other.assignments) in
    let made : new_role_assignment texts a.manifest_hash entries ≡ ok r = ground arith in
    rw (new-entries texts a.manifest_hash entries r made) (
      ground (
        arith,
        sorted-has_pair (role, p) (a.assignments ++ other.assignments),
        append-has_pair (role, p) a.assignments other.assignments k,
      ))

-- The roles that the call itself knows are among the combined ones.
pub combined-Holds :
    (i : Issuing) (a : Authorization) (roles : RoleAssignment)
    → combined_roles i a ≡ ok roles
    → Holds roles proposer_role a.sealed.manifest.actor.principal_id
      × Holds roles executor_role a.terms.subject.principal_id
      × Holds roles approver_role a.terms.issuer.principal_id
unfolding combined_roles base_role_assignment
combined-Holds i a roles h =
    let actor : ℕ = a.sealed.manifest.actor.principal_id in
    let subject : ℕ = a.terms.subject.principal_id in
    let issuer : ℕ = a.terms.issuer.principal_id in
    let known : List (ℕ × ℕ) =
      (proposer_role, actor) ∷ (executor_role, subject) ∷ (approver_role, issuer) ∷ [] in
    let (base, made, merged) =
      bind-ok (new_role_assignment i.texts a.sealed.seal.manifest_hash (sorted_pairs known))
        (λ b. merge i.texts b a.role_assignment) h in
    let entries : base.assignments ≡ sorted_pairs known =
      new-entries i.texts a.sealed.seal.manifest_hash (sorted_pairs known) base made in
    let held : (role p : ℕ) → has_pair (role, p) known ≡ true → Holds roles role p = λ role p k.
      merge_keeps i.texts base roles a.role_assignment role p merged
        (rw entries (sorted-has_pair (role, p) known ∙ k)) in
    (
      held proposer_role actor (ground arith),
      held executor_role subject (ground arith),
      held approver_role issuer (ground arith),
    )
