-- ===== src/Engine/Issuance/Granted.antt =====
-- engine/core.py (`authorize`): what holds of a grant that is returned.
use chitragupta_protocol.Base.{
  ℕ, ◌≡◌, ◌≢◌, ◌⊎◌, refl, sym, subst, Bool, true, false, ◌||◌, Option, none, some, arith,
  Bool-cases, inl, inr,
}
use chitragupta_protocol.Base.Dict.{get}
use chitragupta_protocol.Domain.{is_agent}
use chitragupta_protocol.Duty.{
  RoleAssignment, SeparationOfDutyPolicy, approver_role, executor_role, proposer_role, has_pair,
}
use chitragupta_protocol.Duty.Separation.{Holds, IsSeparated}
use chitragupta_protocol.Engine.{transition_to}
use chitragupta_protocol.Engine.Checks.{
  Context, passes, attempt, lift, enforce_policy_tenant, policy_bundle_verification_failed,
}
use chitragupta_protocol.Engine.Checks.Signed.{
  bind-passes, attempt-passes, IsInForce, verified-IsInForce,
}
use chitragupta_protocol.Engine.Control.{Control, move}
use chitragupta_protocol.Engine.Issuance.{
  Issuing, Authorization, bundle_check, policy_from_payload, bundle_hash_of, authorized_terms,
  keep_lineage, before_issue, authorize, grant_issued_event,
}
use chitragupta_protocol.Engine.Issuance.Inversion.{continue-ok, attempt_then, lift-passes}
use chitragupta_protocol.Engine.Issuance.Separated.{
  IsEnforced, IsPrepared, before_issue-ok, combined-Holds,
}
use chitragupta_protocol.Engine.WriteThrough.{moved_record}
use chitragupta_protocol.Errors.{ok, Result-cases}
use chitragupta_protocol.Grants.{ExecutionGrant}
use chitragupta_protocol.Grants.Issuer.{issue_grant}
use chitragupta_protocol.Grants.Issuing.{IsIssued, issue-IsIssued}
use chitragupta_protocol.Lifecycle.{LifecycleRecord, authorized}
use chitragupta_protocol.Manifest.{verify_seal}
use chitragupta_protocol.Policy.{SealedPolicyBundle, verify_policy_bundle}

move-ok :
    (m event now : ℕ) (w v : Control)
    → move m authorized event now w ≡ (ok tt, v)
    → (r : LifecycleRecord) × (get m v.engine.records ≡ some r) × (r.state ≡ authorized)
unfolding move
move-ok m event now w v h = elim (Result-cases (transition_to m authorized event now w.engine).0) [
  | inr (x, e) ↦ absurd (ground arith)
  | inl (r, e) ↦
      let (held, state) = moved_record m now event authorized w.engine r e in
      (r, ground (arith, held), state)
]

-- An authorization that returns was prepared, issued its grant, and moved the manifest's record.
authorize-ok :
    (c : Context) (i : Issuing) (a : Authorization) (g : ExecutionGrant) (w v : Control)
    → authorize c i a w ≡ (ok g, v)
    → IsPrepared c i a w
      × IsIssued c.grant_hash i.sign (authorized_terms a) a.signing_key i.now_issued g
      × (r : LifecycleRecord) × (get a.sealed.manifest.manifest_id v.engine.records ≡ some r)
      × (r.state ≡ authorized)
unfolding authorize keep_lineage
authorize-ok c i a g w v h =
    let (_, x, before, h1) = continue-ok (before_issue c i a w) _ h in
    let (made, issued, h2) =
      attempt_then _
        (issue_grant i.texts c.grant_hash i.sign (authorized_terms a) a.signing_key i.now_issued) _
        x h1 in
    let (_, y, moved, h3) =
      continue-ok
        (move a.sealed.manifest.manifest_id authorized grant_issued_event c.now_transition x) _
        h2 in
    let (r, held, state) =
      move-ok a.sealed.manifest.manifest_id grant_issued_event c.now_transition x y moved in
    let same : made ≡ g = ground arith in
    (
      before_issue-ok c i a w x before,
      issue-IsIssued i.texts c.grant_hash i.sign (authorized_terms a) a.signing_key i.now_issued g
          (ground (arith, issued, same)),
      r,
      ground (arith, held),
      state,
    )

-- The bundle that is given, if any, is signed over its own digest, in effect and of the engine's
-- tenant.
abbrev pub BundleHolds : Context → Option SealedPolicyBundle → Type 0
BundleHolds c none = Unit
BundleHolds c (some b) = IsInForce c b

-- The hash of the bundle that is given, if any.
abbrev pub NamesBundle : Context → Option SealedPolicyBundle → Option ℕ → Type 0
NamesBundle c none named = named ≡ none
NamesBundle c (some b) named = named ≡ some (c.bundle_hash b.bundle)

bundle-BundleHolds :
    (c : Context) (b : Option SealedPolicyBundle)
    → bundle_check c b ≡ passes tt
    → BundleHolds c b × NamesBundle c b (bundle_hash_of b)
unfolding bundle_check bundle_hash_of
bundle-BundleHolds c none h = (tt, refl)
bundle-BundleHolds c (some b) h =
    let (_, verified, k) =
      bind-passes
        (attempt policy_bundle_verification_failed
          (verify_policy_bundle c.bundle_hash c.check b c.keyring c.now_bundle none))
        (λ _. lift (enforce_policy_tenant c b)) h in
    let force =
      verified-IsInForce c b (attempt-passes _ _ verified)
        (lift-passes (enforce_policy_tenant c b) k) in
    (force, rw force.intact refl)

-- When `authorize` returns a grant: the seal verified; the issuer is no agent; the policy bundle, where
-- one is given, is signed by a trusted key over its own digest, in effect and of the engine's tenant;
-- the grant names the sealed hash, the digest of that bundle or none, and the budget asked for; and the
-- engine holds the manifest's record as AUTHORIZED.
pub authorize_sound :
    (c : Context) (i : Issuing) (a : Authorization) (g : ExecutionGrant) (w v : Control)
    → authorize c i a w ≡ (ok g, v)
    → (verify_seal c.manifest_hash c.check a.sealed c.keyring ≡ ok tt)
      × (is_agent g.issuer.principal_type ≡ false)
      × BundleHolds c a.policy_bundle
      × (g.manifest_hash ≡ some a.sealed.seal.manifest_hash)
      × NamesBundle c a.policy_bundle g.policy_bundle_hash
      × (g.authority_budget_id ≡ a.terms.authority_budget_id)
      × (r : LifecycleRecord) × (get a.sealed.manifest.manifest_id v.engine.records ≡ some r)
      × (r.state ≡ authorized)
unfolding authorized_terms
authorize_sound c i a g w v h =
    let (prepared, issued, r, held, state) = authorize-ok c i a g w v h in
    let (force, names) = bundle-BundleHolds c a.policy_bundle prepared.bundle in
    (
      prepared.seal,
      rw issued.fields issued.issuer,
      force,
      rw issued.fields refl,
      rw issued.fields names,
      rw issued.fields refl,
      r,
      held,
      state,
    )

-- The policy forbids one principal to hold both roles, in whichever order it lists them.
abbrev pub forbids : SeparationOfDutyPolicy → ℕ → ℕ → Bool
forbids policy a b =
    has_pair (a, b) policy.forbidden_role_pairs || has_pair (b, a) policy.forbidden_role_pairs

separated_roles :
    (roles : RoleAssignment) (policy : SeparationOfDutyPolicy) (a b p q : ℕ)
    → IsSeparated roles policy.forbidden_role_pairs
    → Holds roles a p
    → Holds roles b q
    → (forbids policy a b ≡ false) ⊎ (p ≢ q)
separated_roles roles policy a b p q apart held other = elim (Bool-cases (forbids policy a b)) [
  | inr free ↦ inl free
  | inl m ↦ inr (λ e.
      let both : has_pair (b, p) roles.assignments ≡ true =
        subst (λ x. Holds roles b x) (sym e) other in
      elim (Bool-cases (has_pair (a, b) policy.forbidden_role_pairs)) [
        | inl f ↦ apart a b p f held both
        | inr f ↦ apart b a p (ground arith) both held
      ])
]

-- When `authorize` returns a grant under a separation policy, the policy does not forbid approver with
-- executor, in either order, or the issuer is not the subject, and it does not forbid proposer with
-- approver, in either order, or the manifest's actor is not the issuer, whatever further roles are
-- given.
pub authorized_by_another :
    (c : Context) (i : Issuing) (a : Authorization) (g : ExecutionGrant) (w v : Control)
    (b : SealedPolicyBundle) (policy : SeparationOfDutyPolicy)
    → a.separation_policy_bundle ≡ some b
    → policy_from_payload i b.bundle.payload ≡ ok policy
    → authorize c i a w ≡ (ok g, v)
    → ((forbids policy approver_role executor_role ≡ false)
        ⊎ (a.terms.issuer.principal_id ≢ a.terms.subject.principal_id))
      × ((forbids policy proposer_role approver_role ≡ false)
          ⊎ (a.sealed.manifest.actor.principal_id ≢ a.terms.issuer.principal_id))
authorized_by_another c i a g w v b policy given read h =
    let (prepared, issued, r, held, state) = authorize-ok c i a g w v h in
    let enforced : IsEnforced c i b prepared.roles = prepared.enforced b given in
    let same : enforced.policy ≡ policy = ground (arith, enforced.read) in
    let (proposed, executed, approved) = combined-Holds i a prepared.roles prepared.combined in
    let apart : IsSeparated prepared.roles policy.forbidden_role_pairs =
      subst (λ (y : SeparationOfDutyPolicy). IsSeparated prepared.roles y.forbidden_role_pairs) same
        enforced.separated in
    (
      separated_roles prepared.roles policy approver_role executor_role a.terms.issuer.principal_id
          a.terms.subject.principal_id apart approved executed,
      separated_roles prepared.roles policy proposer_role approver_role
          a.sealed.manifest.actor.principal_id a.terms.issuer.principal_id apart proposed approved,
    )
