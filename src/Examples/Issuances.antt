-- ===== src/Examples/Issuances.antt =====
-- engine/core.py: an authorization under a separation policy and a delegation, and the theorems at them.
use chitragupta_protocol.Base.{◌≡◌, ◌≢◌, ◌⊎◌, refl, true, false, none, some, [], ◌∷◌}
use chitragupta_protocol.Base.Dict.{get, put}
use chitragupta_protocol.Budget.{require_budget, require}
use chitragupta_protocol.Crypto.{SigningKey, verify}
use chitragupta_protocol.Delegation.{
  assert_grant_narrower_or_equal, assert_scope_narrower_or_equal, assert_allow_list, assert_amount,
  assert_budget,
}
use chitragupta_protocol.Delegation.Lineage.{record_grant_lineage}
use chitragupta_protocol.Domain.{ed25519, human, is_agent, dedupe_sorted, insert_text, version}
use chitragupta_protocol.Duty.{
  SeparationOfDutyPolicy, approver_role, executor_role, proposer_role, new_role_assignment,
  validate_entries, merge, base_role_assignment, sorted_pairs, insert_pair, holders, principals_for,
  common, violations_of, check_separation_of_duty, validate_separation_policy, validate_pairs,
}
use chitragupta_protocol.Engine.{get_record, transition_to, write_through, persist_lifecycle}
use chitragupta_protocol.Engine.Checks.{
  enforce_policy_tenant, passes, policy_check, envelope_check, plan_check,
}
use chitragupta_protocol.Engine.Control.{Control, move}
use chitragupta_protocol.Engine.Issuance.{
  Issuing, Authorization, Delegated, delegate, delegated_terms, keep_lineage, authorize,
  before_issue, bundle_check, bundle_hash_of, combined_roles, authorized_terms, enforce_separation,
  policy_from_payload, assert_budget_registered,
}
use chitragupta_protocol.Engine.Issuance.Attenuated.{
  IsWithin, delegated_grant_attenuates, delegation_drops_bindings,
}
use chitragupta_protocol.Engine.Issuance.Granted.{
  BundleHolds, NamesBundle, forbids, authorize_sound, authorized_by_another,
}
use chitragupta_protocol.Errors.{ok}
use chitragupta_protocol.Examples.{person, root_grant, keys, check, grant_hash}
use chitragupta_protocol.Examples.Bindings.{bundle, tenanted}
use chitragupta_protocol.Tenant.{bind_engine_and_policy_tenant, assert_tenant_match}
use chitragupta_protocol.Examples.Commits.{manifest, context, request, control}
use chitragupta_protocol.Grants.{ExecutionGrant}
use chitragupta_protocol.Grants.Issuer.{
  GrantTerms, issue_grant, new_grant, validate_fields, validate_whole, nonempty_tuple, is_bad_hash,
  is_bad_budget_id,
}
use chitragupta_protocol.GrantStore.{record_lineage, get_parent_grant_id}
use chitragupta_protocol.Lifecycle.{
  sealed, authorized, LifecycleRecord, LifecycleState-discrete, transition, assert_legal_transition,
  is_legal_transition, transitions,
}
use chitragupta_protocol.Manifest.{verify_seal, verify_integrity}
use chitragupta_protocol.Policy.{SealedPolicyBundle, verify_policy_bundle, verify_bundle_integrity}

abbrev signer : SigningKey
signer = record { key_id = 5; algorithm = ed25519; private_key = 56 }

abbrev forbidden : SeparationOfDutyPolicy
forbidden = record {
  policy_id = 70;
  policy_version = 71;
  forbidden_role_pairs = (approver_role, executor_role) ∷ (approver_role, proposer_role) ∷ [];
}

-- Every text has three characters and a dot, and is a digest.
abbrev issuing : Issuing
issuing = record {
  sign = λ key digest. digest;
  texts = record { length = λ _. 3; is_digest = λ _. true; has_dot = λ _. true };
  read_policy = λ _. ok forbidden;
  now_separation = 120;
  now_issued = 121;
}

abbrev delegated : Delegated
delegated = record {
  issuer = person;
  subject = person;
  signing_key = signer;
  grant_id = 2;
  nonce = 3;
  audience = some (20 ∷ []);
  allowed_effect_types = none;
  scope = none;
  not_before = none;
  expires_at = some 150;
  max_uses = some 1;
  manifest_hash = none;
  authority_budget_id = none;
}

-- A parent that is bound to a policy bundle too.
abbrev parent : ExecutionGrant
parent = record root_grant { policy_bundle_hash = some 90 }

abbrev child : ExecutionGrant
child = record root_grant {
  grant_id = 2;
  manifest_hash = none;
  audience = 20 ∷ [];
  issued_at = 121;
  expires_at = 150;
  max_uses = 1;
  nonce = 3;
  parent_grant_id = some 1;
  signature = some 2;
}

abbrev after : Control
after = record control {
  grant_store = record { slots = []; idempotency = []; lineage = (2, some 1) ∷ [] };
  journal = (delegate context issuing parent delegated control).1.journal;
}

delegates : delegate context issuing parent delegated control ≡ (ok child, after)
unfolding delegate delegated_terms issue_grant new_grant validate_fields validate_whole
    nonempty_tuple is_bad_hash is_bad_budget_id dedupe_sorted insert_text
    assert_grant_narrower_or_equal assert_scope_narrower_or_equal assert_allow_list assert_amount
    assert_budget keep_lineage record_grant_lineage record_lineage put
delegates = refl

delegated_grant_attenuates_example :
    (is_agent child.issuer.principal_type ≡ false)
    × IsWithin child parent
    × (get_parent_grant_id 2 after.grant_store ≡ some 1)
    × (child.signature ≡ some (issuing.sign 56 (grant_hash (record child { signature = none }))))
delegated_grant_attenuates_example =
    delegated_grant_attenuates context issuing parent child delegated control after delegates

delegation_drops_bindings_example :
    (child.manifest_hash ≡ none)
    × (policy_check context none none ≡ passes tt)
    × (envelope_check context manifest none none ≡ passes tt)
    × (plan_check context 77 none none ≡ passes tt)
delegation_drops_bindings_example =
    delegation_drops_bindings context issuing parent child delegated control after manifest 77 refl
      delegates

-- Principal 2 lets principal 3 execute the manifest that principal 1 proposed.
abbrev terms : GrantTerms
terms = record {
  grant_id = 4;
  issuer = record { principal_id = 2; principal_type = human };
  subject = record { principal_id = 3; principal_type = human };
  audience = 20 ∷ [];
  allowed_effect_types = 30 ∷ [];
  scope = root_grant.scope;
  not_before = 100;
  expires_at = 200;
  nonce = 6;
  manifest_hash = none;
  policy_bundle_hash = none;
  approval_set_hash = none;
  decision_envelope_hash = none;
  causal_graph_hash = none;
  authority_budget_id = some 3;
  max_uses = 1;
  parent_grant_id = none;
}

abbrev separation_bundle : SealedPolicyBundle
separation_bundle = record {
  bundle = record {
    bundle_id = 60;
    bundle_version = 1;
    policy_type = 41;
    payload = 61;
    issuer = person;
    tenant_id = none;
    created_at = 100;
    effective_from = 100;
    effective_until = none;
  };
  seal = record {
    algorithm = ed25519;
    key_id = 5;
    bundle_hash = 60;
    signature = 60;
    sealed_at = 100;
  };
}

abbrev authorization : Authorization
authorization = record {
  sealed = request.sealed;
  terms = terms;
  signing_key = signer;
  policy_bundle = some bundle;
  separation_policy_bundle = some separation_bundle;
  role_assignment = none;
}

abbrev proposed_control : Control
proposed_control = record control {
  engine = record {
    records = (7, record { manifest_id = 7; state = sealed; history = [] }) ∷ [];
    lifecycle_store = none;
    events = [];
  };
}

abbrev granted : ExecutionGrant
granted = record {
  schema_version = version 1 0;
  grant_id = 4;
  manifest_hash = some 77;
  policy_bundle_hash = some 60;
  approval_set_hash = none;
  decision_envelope_hash = none;
  causal_graph_hash = none;
  authority_budget_id = some 3;
  issuer = terms.issuer;
  subject = terms.subject;
  audience = 20 ∷ [];
  allowed_effect_types = 30 ∷ [];
  scope = terms.scope;
  issued_at = 121;
  not_before = 100;
  expires_at = 200;
  max_uses = 1;
  nonce = 6;
  parent_grant_id = none;
  key_id = 5;
  algorithm = ed25519;
  signature = some 4;
}

authorizes :
    authorize tenanted issuing authorization proposed_control
    ≡ (ok granted, (authorize tenanted issuing authorization proposed_control).1)
unfolding authorize before_issue verify_seal verify_integrity verify get assert_budget_registered
    bundle_check combined_roles base_role_assignment new_role_assignment validate_entries merge
    sorted_pairs insert_pair enforce_separation verify_policy_bundle verify_bundle_integrity
    policy_from_payload validate_separation_policy validate_pairs check_separation_of_duty
    violations_of principals_for holders common dedupe_sorted insert_text issue_grant new_grant
    validate_fields validate_whole nonempty_tuple is_bad_hash is_bad_budget_id authorized_terms
    bundle_hash_of move transition_to get_record transition assert_legal_transition
    is_legal_transition transitions LifecycleState-discrete write_through persist_lifecycle
    keep_lineage record_grant_lineage put require_budget require enforce_policy_tenant
    bind_engine_and_policy_tenant assert_tenant_match
authorizes = refl

abbrev granted_control : Control
granted_control = (authorize tenanted issuing authorization proposed_control).1

reads : policy_from_payload issuing 61 ≡ ok forbidden
unfolding policy_from_payload validate_separation_policy validate_pairs
reads = refl

authorize_sound_example :
    (verify_seal tenanted.manifest_hash check request.sealed keys ≡ ok tt)
    × (is_agent granted.issuer.principal_type ≡ false)
    × BundleHolds tenanted (some bundle)
    × (granted.manifest_hash ≡ some 77)
    × NamesBundle tenanted (some bundle) (some 60)
    × (granted.authority_budget_id ≡ some 3)
    × (r : LifecycleRecord) × (get 7 granted_control.engine.records ≡ some r)
    × (r.state ≡ authorized)
authorize_sound_example =
    authorize_sound tenanted issuing authorization granted proposed_control granted_control
      authorizes

authorized_by_another_example :
    ((forbids forbidden approver_role executor_role ≡ false)
      ⊎ (terms.issuer.principal_id ≢ terms.subject.principal_id))
    × ((forbids forbidden proposer_role approver_role ≡ false)
        ⊎ (person.principal_id ≢ terms.issuer.principal_id))
authorized_by_another_example =
    authorized_by_another tenanted issuing authorization granted proposed_control granted_control
      separation_bundle forbidden refl reads authorizes
