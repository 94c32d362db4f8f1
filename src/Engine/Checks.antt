-- ===== src/Engine/Checks.antt =====
-- engine/core.py: what `commit` checks before it touches any state (the part of `commit` up to the
-- reservation of a budget), with the audit event of each denial.
pub mod Signed
pub mod Bindings
use chitragupta_protocol.Base.{
  ℕ, Bool, true, false, Option, none, some, List, ◌!=◌, eq_option, if◌then◌else◌, not, contains,
}
use chitragupta_protocol.Adapters.{EffectAdapter, TrustedAdapterRegistry, require_effect}
use chitragupta_protocol.Causal.{
  CausalLink, CausalEffectGraph, assert_manifest_in_plan, require_matching_plan_hash,
}
use chitragupta_protocol.Crypto.{Keyring, SignatureCheck}
use chitragupta_protocol.Delegation.{assert_no_revoked_ancestors, max_delegation_depth}
use chitragupta_protocol.Envelope.Decision.{
  DecisionEnvelope, verify_decision_envelope, assert_manifest_fits_envelope, differs,
}
use chitragupta_protocol.Errors
use chitragupta_protocol.Errors.{
  Error, grant_revoked_error, grant_manifest_mismatch_error, grant_audience_error,
  policy_bundle_mismatch_error, decision_envelope_mismatch_error, atomic_plan_error,
  adapter_mismatch_error, Result, ok, err, is_protocol_error,
}
use chitragupta_protocol.Grants.{ExecutionGrant, verify_grant}
use chitragupta_protocol.GrantStore.{GrantStore, is_revoked}
use chitragupta_protocol.Manifest.{EffectManifest, SealedManifest, verify_seal}
use chitragupta_protocol.Policy.{PolicyBundle, SealedPolicyBundle, verify_policy_bundle}
use chitragupta_protocol.Tenant.{bind_engine_and_policy_tenant}

-- The events that the engine records besides those of transitions.
pub data EventType : Type 0 where
  seal_verification_failed grant_verification_failed grant_manifest_mismatch : EventType
  policy_bundle_missing policy_bundle_verification_failed policy_bundle_mismatch : EventType
  tenant_policy_isolation decision_envelope_missing : EventType
  decision_envelope_verification_failed decision_envelope_mismatch : EventType
  decision_envelope_constraint_failed atomic_plan_missing atomic_plan_verification_failed :
      EventType
  grant_audience_mismatch adapter_identity_mismatch adapter_untrusted : EventType
  grant_effect_type_mismatch grant_revoked grant_ancestor_revoked grant_lineage_uncertain :
      EventType
  grant_ancestor_revocation_checked authority_budget_resolve_failed : EventType
  authority_budget_exhausted grant_reservation_failed outbox_record_failed : EventType
  ambiguous_recovery_probe revoke_requested_past_safepoint : EventType
  separation_bundle_verification_failed separation_evaluated grant_issue_denied : EventType
  grant_delegated grant_delegation_denied : EventType

-- What a check comes to: a value, a denial that is recorded and raised, or another exception.
pub data Checked {ℓ} (A : Type ℓ) : Type ℓ where
  passes : A → Checked A
  denies : EventType → Error → Checked A
  raises : Error → Checked A

infixl 5 ◌>>=◌ ◌>>◌
abbrev pub ◌>>=◌ {ℓ κ} : {A : Type ℓ} {B : Type κ} → Checked A → (A → Checked B) → Checked B
passes a >>= f = f a
denies event e >>= f = denies event e
raises e >>= f = raises e

abbrev pub ◌>>◌ {ℓ κ} : {A : Type ℓ} {B : Type κ} → Checked A → Checked B → Checked B
m >> k = m >>= λ _. k

-- `try: … except KarmaSakshiError as exc: deny(event, …, exc)`
abbrev pub attempt {ℓ} : {A : Type ℓ} → EventType → Result A → Checked A
attempt event (ok a) = passes a
attempt event (err e) = if is_protocol_error e then denies event e else raises e

-- A call whose exceptions are not caught.
abbrev pub lift {ℓ} : {A : Type ℓ} → Result A → Checked A
lift (ok a) = passes a
lift (err e) = raises e

-- `if test: deny(event, …, exc)`
abbrev pub deny_if : Bool → EventType → Error → Checked (Unit {0})
deny_if true event e = denies event e
deny_if false event e = passes tt

-- What stays the same during a call: the `EngineContext` less its stores, the digests, and what the
-- clock reads at each place where the call asks it.
pub record Context : Type 0 where
  pub check : SignatureCheck
  pub keyring : Keyring
  pub manifest_hash : EffectManifest → ℕ
  pub grant_hash : ExecutionGrant → ℕ
  pub bundle_hash : PolicyBundle → ℕ
  pub envelope_hash : DecisionEnvelope → ℕ
  pub link_digest : CausalLink → ℕ
  pub graph_hash : CausalEffectGraph → ℕ
  pub now_grant : ℕ
  pub now_bundle : ℕ
  pub now_envelope : ℕ
  pub now_transition : ℕ
  pub leeway : ℕ
  pub tenant_id : Option ℕ
  pub adapter_registry : Option TrustedAdapterRegistry

-- The arguments of `commit`.
pub record Request : Type 0 where
  pub sealed : SealedManifest
  pub grant : ExecutionGrant
  pub adapter : EffectAdapter
  pub policy_bundle : Option SealedPolicyBundle
  pub decision_envelope : Option DecisionEnvelope
  pub causal_graph : Option CausalEffectGraph

-- `_enforce_policy_tenant`, of a bundle that is there
unfoldable pub enforce_policy_tenant : Context → SealedPolicyBundle → Result (Unit {0})
enforce_policy_tenant c b = bind_engine_and_policy_tenant c.tenant_id b.bundle.tenant_id

-- The branch without a bundle in the grant: the tenant is tested only where the engine has one.
unfoldable pub unbound_policy : Context → Option ℕ → Option SealedPolicyBundle → Checked (Unit {0})
unbound_policy c none b = passes tt
unbound_policy c (some tenant) none = passes tt
unbound_policy c (some tenant) (some b) =
    attempt tenant_policy_isolation (enforce_policy_tenant c b)

-- Of the bundle's hash in the grant, and the bundle presented.
unfoldable pub policy_check : Context → Option ℕ → Option SealedPolicyBundle → Checked (Unit {0})
policy_check c none b = unbound_policy c c.tenant_id b
policy_check c (some required) none = denies policy_bundle_missing policy_bundle_mismatch_error
policy_check c (some required) (some b) = do
  attempt policy_bundle_verification_failed
      (verify_policy_bundle c.bundle_hash c.check b c.keyring c.now_bundle none)
  deny_if (b.seal.bundle_hash != required) policy_bundle_mismatch policy_bundle_mismatch_error
  attempt tenant_policy_isolation (enforce_policy_tenant c b)

unfoldable pub envelope_check :
    Context → EffectManifest → Option ℕ → Option DecisionEnvelope → Checked (Unit {0})
envelope_check c m none e = passes tt
envelope_check c m (some required) none =
    denies decision_envelope_missing decision_envelope_mismatch_error
envelope_check c m (some required) (some e) = do
  attempt decision_envelope_verification_failed
      (verify_decision_envelope c.envelope_hash c.check e c.keyring c.now_envelope)
  deny_if (c.envelope_hash e != required) decision_envelope_mismatch
      decision_envelope_mismatch_error
  attempt decision_envelope_constraint_failed (assert_manifest_fits_envelope m e)

unfoldable pub plan_check : Context → ℕ → Option ℕ → Option CausalEffectGraph → Checked (Unit {0})
plan_check c manifest_hash none g = passes tt
plan_check c manifest_hash (some required) none = denies atomic_plan_missing atomic_plan_error
plan_check c manifest_hash (some required) (some g) = do
  attempt atomic_plan_verification_failed (require_matching_plan_hash c.graph_hash g required)
  attempt atomic_plan_verification_failed
      (assert_manifest_in_plan c.link_digest c.check manifest_hash g c.keyring)

-- `_require_trusted_adapter`, with the effect type
unfoldable pub require_trusted_adapter :
    Option TrustedAdapterRegistry → EffectAdapter → ℕ → Result (Unit {0})
require_trusted_adapter none adapter effect_type = ok tt
require_trusted_adapter (some entries) adapter effect_type =
    Errors.◌>>=◌ (require_effect adapter.identity effect_type entries) (λ _. ok tt)

-- The event of a failed search of the ancestors.
abbrev pub ancestor_event : Error → EventType
ancestor_event grant_revoked_error = grant_ancestor_revoked
ancestor_event _ = grant_lineage_uncertain

abbrev pub check_ancestors : Result (List ℕ) → Checked (List ℕ)
check_ancestors (ok ancestors) = passes ancestors
check_ancestors (err e) = denies (ancestor_event e) e

-- The checks on what is signed and bound.
unfoldable pub binding_checks : Context → Request → Checked (Unit {0})
binding_checks c q = do
  attempt seal_verification_failed (verify_seal c.manifest_hash c.check q.sealed c.keyring)
  attempt grant_verification_failed
      (verify_grant c.check c.grant_hash q.grant c.keyring c.now_grant c.leeway)
  deny_if (not (eq_option q.grant.manifest_hash (some q.sealed.seal.manifest_hash)))
      grant_manifest_mismatch grant_manifest_mismatch_error
  policy_check c q.grant.policy_bundle_hash q.policy_bundle
  envelope_check c q.sealed.manifest q.grant.decision_envelope_hash q.decision_envelope
  plan_check c q.sealed.seal.manifest_hash q.grant.causal_graph_hash q.causal_graph

-- The checks on the adapter, the effect type, and revocations.
unfoldable pub standing_checks : Context → Request → GrantStore → Checked (List ℕ)
standing_checks c q store = do
  deny_if (not (contains q.grant.audience q.adapter.identity.adapter_id)) grant_audience_mismatch
      grant_audience_error
  deny_if (differs q.sealed.manifest.adapter q.adapter.identity) adapter_identity_mismatch
      adapter_mismatch_error
  attempt adapter_untrusted
      (require_trusted_adapter c.adapter_registry q.adapter q.sealed.manifest.effect_type)
  deny_if (not (contains q.grant.allowed_effect_types q.sealed.manifest.effect_type))
      grant_effect_type_mismatch grant_audience_error
  deny_if (is_revoked q.grant.grant_id store) grant_revoked grant_revoked_error
  check_ancestors (assert_no_revoked_ancestors q.grant store max_delegation_depth)

unfoldable pub commit_checks : Context → Request → GrantStore → Checked (List ℕ)
commit_checks c q store = do binding_checks c q; standing_checks c q store
