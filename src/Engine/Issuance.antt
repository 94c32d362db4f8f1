-- ===== src/Engine/Issuance.antt =====
-- engine/core.py: `authorize` and `delegate`. An identifier or a nonce that the caller leaves out is
-- drawn by the `uuid` library: here both are given.
pub mod Inversion
pub mod Separated
pub mod Granted
pub mod Attenuated
use chitragupta_protocol.Base.{ℕ, Bool, true, false, Option, none, some, List, [], ◌∷◌, ◌++◌, not}
use chitragupta_protocol.Budget.{BudgetLedger, AuthorityBudget, require_budget}
use chitragupta_protocol.Crypto.{SigningKey, Signing}
use chitragupta_protocol.Delegation.{assert_grant_narrower_or_equal}
use chitragupta_protocol.Delegation.Lineage.{record_grant_lineage}
use chitragupta_protocol.Domain.{Principal, Texts}
use chitragupta_protocol.Duty.{
  RoleAssignment, SeparationOfDutyPolicy, SeparationOfDutyResult, base_role_assignment, merge,
  check_separation_of_duty, validate_separation_policy,
}
use chitragupta_protocol.Engine.Checks.{
  Context, Checked, attempt, lift, enforce_policy_tenant, policy_bundle_verification_failed,
  separation_bundle_verification_failed, separation_evaluated, grant_issue_denied, grant_delegated,
  grant_delegation_denied,
}
use chitragupta_protocol.Engine.Checks
use chitragupta_protocol.Engine.Control.{
  Control, M, continue, ◌>>=◌, ◌>>◌, return, raise, note, checked, move, discard,
}
use chitragupta_protocol.Errors
use chitragupta_protocol.Errors.{separation_of_duty_violation_error, Error, Result, ok, err}
use chitragupta_protocol.Grants.{ScopeConstraints, ExecutionGrant}
use chitragupta_protocol.Grants.Issuer.{GrantTerms, issue_grant}
use chitragupta_protocol.Lifecycle.{authorized}
use chitragupta_protocol.Manifest.{SealedManifest, verify_seal}
use chitragupta_protocol.Policy.{SealedPolicyBundle, verify_policy_bundle}

-- What an issuing call is given besides the context: the signature by a private key, the texts, the
-- reading of a bundle's payload as a policy (`_as_str` and `_as_role_pairs`), and the clock's further
-- answers.
pub record Issuing : Type 0 where
  pub sign : Signing
  pub texts : Texts
  pub read_policy : ℕ → Result SeparationOfDutyPolicy
  pub now_separation : ℕ
  pub now_issued : ℕ

-- The arguments of `authorize`. Of the terms the hashes are the call's own.
pub record Authorization : Type 0 where
  pub sealed : SealedManifest
  pub terms : GrantTerms
  pub signing_key : SigningKey
  pub policy_bundle : Option SealedPolicyBundle
  pub separation_policy_bundle : Option SealedPolicyBundle
  pub role_assignment : Option RoleAssignment

-- The text "separation.v1".
abbrev pub separation_type : ℕ
separation_type = 41

abbrev pub grant_issued_event : ℕ
grant_issued_event = 10

-- `_assert_authority_budget_registered`
unfoldable pub assert_budget_registered : Option BudgetLedger → Option ℕ → Result (Unit {0})
assert_budget_registered ledger none = ok tt
assert_budget_registered ledger (some budget_id) = discard (require_budget ledger budget_id)

-- The test of the policy bundle, where one is given.
unfoldable pub bundle_check : Context → Option SealedPolicyBundle → Checked (Unit {0})
bundle_check c none = Checks.passes tt
bundle_check c (some b) =
    Checks.◌>>◌
      (attempt policy_bundle_verification_failed
        (verify_policy_bundle c.bundle_hash c.check b c.keyring c.now_bundle none))
      (lift (enforce_policy_tenant c b))

-- `separation_of_duty_policy_from_bundle_payload`
unfoldable pub policy_from_payload : Issuing → ℕ → Result SeparationOfDutyPolicy
policy_from_payload i payload =
    Errors.◌>>=◌ (i.read_policy payload)
      (λ policy. Errors.◌>>◌ (validate_separation_policy i.texts policy) (ok policy))

-- The audit record of an evaluation, and the exception after it.
abbrev pub conclude_separation : Bool → M (Unit {0})
conclude_separation true w = note separation_evaluated none w
conclude_separation false w =
    (do
      note separation_evaluated (some separation_of_duty_violation_error)
      raise separation_of_duty_violation_error)
      w

-- `_enforce_separation_of_duty`, where a bundle is given
unfoldable pub enforce_separation :
    Context → Issuing → Option SealedPolicyBundle → RoleAssignment → M (Unit {0})
enforce_separation c i none roles w = (ok tt, w)
enforce_separation c i (some b) roles w =
    (do
      checked (
          attempt separation_bundle_verification_failed (
            verify_policy_bundle c.bundle_hash c.check b c.keyring i.now_separation
              (some separation_type)))
      policy ← checked (lift (policy_from_payload i b.bundle.payload))
      conclude_separation (check_separation_of_duty roles policy).satisfied)
      w

unfoldable pub bundle_hash_of : Option SealedPolicyBundle → Option ℕ
bundle_hash_of none = none
bundle_hash_of (some b) = some b.seal.bundle_hash

-- The roles that the call knows, merged with those that it is given.
unfoldable pub combined_roles : Issuing → Authorization → Result RoleAssignment
combined_roles i a =
    Errors.◌>>=◌
      (base_role_assignment i.texts a.sealed.seal.manifest_hash a.sealed.manifest.actor.principal_id
        a.terms.subject.principal_id (a.terms.issuer.principal_id ∷ []))
      (λ base. merge i.texts base a.role_assignment)

-- The terms of the grant that `authorize` issues.
unfoldable pub authorized_terms : Authorization → GrantTerms
authorized_terms a = record a.terms {
  manifest_hash = some a.sealed.seal.manifest_hash;
  policy_bundle_hash = bundle_hash_of a.policy_bundle;
  approval_set_hash = none;
  decision_envelope_hash = none;
  causal_graph_hash = none;
}

-- `_record_grant_lineage`
unfoldable pub keep_lineage : ExecutionGrant → M (Unit {0})
keep_lineage g w = (ok tt, record w { grant_store = record_grant_lineage g w.grant_store })

-- What precedes the issue of the grant.
unfoldable pub before_issue : Context → Issuing → Authorization → M (Unit {0})
before_issue c i a w =
    (do
      checked (lift (verify_seal c.manifest_hash c.check a.sealed c.keyring))
      checked (lift (assert_budget_registered w.budget_ledger a.terms.authority_budget_id))
      checked (bundle_check c a.policy_bundle)
      roles ← checked (lift (combined_roles i a))
      enforce_separation c i a.separation_policy_bundle roles)
      w

unfoldable pub authorize : Context → Issuing → Authorization → M ExecutionGrant
authorize c i a w =
    (do
      before_issue c i a
      g ← checked (
          attempt grant_issue_denied (
            issue_grant i.texts c.grant_hash i.sign (authorized_terms a) a.signing_key
              i.now_issued))
      move a.sealed.manifest.manifest_id authorized grant_issued_event c.now_transition
      keep_lineage g
      return g)
      w

-- The arguments of `delegate`.
pub record Delegated : Type 0 where
  pub issuer : Principal
  pub subject : Principal
  pub signing_key : SigningKey
  pub grant_id : ℕ
  pub nonce : ℕ
  pub audience : Option (List ℕ)
  pub allowed_effect_types : Option (List ℕ)
  pub scope : Option ScopeConstraints
  pub not_before : Option ℕ
  pub expires_at : Option ℕ
  pub max_uses : Option ℕ
  pub manifest_hash : Option ℕ
  pub authority_budget_id : Option ℕ

-- `x if x is not None else inherited`
abbrev pub or_inherit {ℓ} : {A : Type ℓ} → Option A → A → A
or_inherit none inherited = inherited
or_inherit (some x) inherited = x

-- `parent.authority_budget_id if authority_budget_id is None else authority_budget_id`
abbrev pub budget_or_inherit : Option ℕ → Option ℕ → Option ℕ
budget_or_inherit none inherited = inherited
budget_or_inherit (some b) inherited = some b

unfoldable pub delegated_terms : ExecutionGrant → Delegated → GrantTerms
delegated_terms parent d = record {
  grant_id = d.grant_id;
  issuer = d.issuer;
  subject = d.subject;
  audience = or_inherit d.audience parent.audience;
  allowed_effect_types = or_inherit d.allowed_effect_types parent.allowed_effect_types;
  scope = or_inherit d.scope parent.scope;
  not_before = or_inherit d.not_before parent.not_before;
  expires_at = or_inherit d.expires_at parent.expires_at;
  nonce = d.nonce;
  manifest_hash = d.manifest_hash;
  policy_bundle_hash = none;
  approval_set_hash = none;
  decision_envelope_hash = none;
  causal_graph_hash = none;
  authority_budget_id = budget_or_inherit d.authority_budget_id parent.authority_budget_id;
  max_uses = or_inherit d.max_uses parent.max_uses;
  parent_grant_id = some parent.grant_id;
}

unfoldable pub delegate : Context → Issuing → ExecutionGrant → Delegated → M ExecutionGrant
delegate c i parent d w =
    (do
      child ← checked (
          lift (
            issue_grant i.texts c.grant_hash i.sign (delegated_terms parent d) d.signing_key
              i.now_issued))
      checked (attempt grant_delegation_denied (assert_grant_narrower_or_equal child parent))
      note grant_delegated none
      keep_lineage child
      return child)
      w
