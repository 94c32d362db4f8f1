-- ===== src/Examples/Bindings.antt =====
-- engine/core.py: commits of grants that name a policy bundle and a decision envelope, or a causal
-- graph, with a registry of adapters, and the theorem on what was checked.
use chitragupta_protocol.Base.{ℕ, ◌≡◌, ◌≢◌, refl, true, false, none, some, List, [], ◌∷◌}
use chitragupta_protocol.Base.Dict.{get, put}
use chitragupta_protocol.Adapters.{RegistryEntry, lookup, require_adapter, require_effect}
use chitragupta_protocol.Budget.{
  require_budget, require, resolve_budget_consume_amount, resolve, usage, limit, limit_of,
  reservation, commit_reserved,
}
use chitragupta_protocol.Budget
use chitragupta_protocol.Causal.{
  CausalEffectGraph, causes, verify_causal_link, verify_causal_links, verify_graph,
  assert_manifest_in_plan, require_matching_plan_hash,
}
use chitragupta_protocol.Crypto.{verify}
use chitragupta_protocol.Delegation.{assert_no_revoked_ancestors, walk}
use chitragupta_protocol.Domain.{
  AdapterIdentity, ed25519, parse_major, assert_supported_schema_version,
  assert_supported_algorithm,
}
use chitragupta_protocol.Engine.{get_record, transition_to, write_through, persist_lifecycle}
use chitragupta_protocol.Engine.Checks.{
  Context, Request, commit_checks, binding_checks, standing_checks, policy_check, envelope_check,
  plan_check, require_trusted_adapter, enforce_policy_tenant,
}
use chitragupta_protocol.Engine.Control.{move, commit_budget, confirm_outbox, finalize_grant}
use chitragupta_protocol.Engine.Commit.{
  commit, execute, reserve_budget, budget_amount, reserve_grant, start_committing, record_intent,
  intent, finish, after_preconditions, perform, after_effect, succeed, outcome_of,
}
use chitragupta_protocol.Engine.Commit.Authority.{IsAuthorized, commit-IsAuthorized}
use chitragupta_protocol.Envelope.Decision.{
  DecisionEnvelope, verify_decision_envelope, assert_manifest_fits_envelope, accepts_all,
  assert_cost,
}
use chitragupta_protocol.Examples.{person, root_grant}
use chitragupta_protocol.Examples.Commits.{context, request, control}
use chitragupta_protocol.Grants.{verify_grant, verify_grant_signature, verify_grant_time_window}
use chitragupta_protocol.GrantStore.{is_revoked, get_idempotent_outcome, commit_slot}
use chitragupta_protocol.GrantStore
use chitragupta_protocol.Lifecycle.{
  LifecycleState-discrete, transition, assert_legal_transition, is_legal_transition, transitions,
}
use chitragupta_protocol.Manifest.{verify_seal, verify_integrity}
use chitragupta_protocol.Outbox.{record_pending, mark_confirmed, confirm}
use chitragupta_protocol.Policy.{SealedPolicyBundle, verify_policy_bundle, verify_bundle_integrity}
use chitragupta_protocol.Tenant.{bind_engine_and_policy_tenant, assert_tenant_match}

abbrev pub bundle : SealedPolicyBundle
bundle = record {
  bundle = record {
    bundle_id = 60;
    bundle_version = 1;
    policy_type = 42;
    payload = 61;
    issuer = person;
    tenant_id = some 80;
    created_at = 100;
    effective_from = 100;
    effective_until = some 300;
  };
  seal = record {
    algorithm = ed25519;
    key_id = 5;
    bundle_hash = 60;
    signature = 60;
    sealed_at = 100;
  };
}

abbrev envelope : DecisionEnvelope
envelope = record {
  envelope_id = 65;
  effect_type = 30;
  adapter = record { adapter_id = 20; adapter_version = 1 };
  target_resources = 10 ∷ 11 ∷ [];
  parameter_constraints = [];
  forbid_unknown_parameters = true;
  require_all_constrained_parameters = true;
  max_estimated_cost = some (record { currency = 9; minor_units = 100 });
  causal_graph_hash = none;
  issuer = person;
  created_at = 100;
  not_before = 100;
  expires_at = 200;
  nonce = 0;
  key_id = 5;
  algorithm = ed25519;
  signature = some 65;
}

-- The manifest, of digest 77, after one of digest 66.
abbrev graph : CausalEffectGraph
graph = record {
  graph_id = 68;
  node_manifest_hashes = 66 ∷ 77 ∷ [];
  links =
      record {
        link_id = 69;
        parent_manifest_hash = 66;
        child_manifest_hash = 77;
        relation = causes;
        created_at = 100;
        key_id = 5;
        signature = 69;
      }
      ∷ [];
}

abbrev listed : AdapterIdentity × RegistryEntry
listed = (
  record { adapter_id = 20; adapter_version = 1 },
  record {
    capability = record {
      identity = record { adapter_id = 20; adapter_version = 1 };
      supported_effect_types = 30 ∷ [];
      environments = [];
    };
    revoked = false;
    revoked_at = none;
  },
)

abbrev pub tenanted : Context
tenanted = record context { tenant_id = some 80; adapter_registry = some (listed ∷ []) }

abbrev enveloped : Request
enveloped = record request {
  grant = record root_grant { policy_bundle_hash = some 60; decision_envelope_hash = some 65 };
  policy_bundle = some bundle;
  decision_envelope = some envelope;
}

abbrev planned : Request
planned = record request {
  grant = record root_grant { policy_bundle_hash = some 60; causal_graph_hash = some 68 };
  policy_bundle = some bundle;
  causal_graph = some graph;
}

-- In both cases the adapter is called, with the key 40.
both_call :
    ((commit tenanted enveloped control).1.performed ≡ 40 ∷ [])
    × ((commit tenanted planned control).1.performed ≡ 40 ∷ [])
unfolding commit execute commit_checks binding_checks standing_checks verify_seal verify_integrity
    verify verify_grant verify_grant_signature verify_grant_time_window parse_major
    assert_supported_schema_version assert_supported_algorithm policy_check verify_policy_bundle
    verify_bundle_integrity enforce_policy_tenant bind_engine_and_policy_tenant assert_tenant_match
    envelope_check verify_decision_envelope assert_manifest_fits_envelope accepts_all assert_cost
    plan_check require_matching_plan_hash assert_manifest_in_plan verify_graph verify_causal_links
    verify_causal_link require_trusted_adapter require_effect require_adapter lookup is_revoked
    assert_no_revoked_ancestors walk reserve_budget budget_amount require_budget require
    resolve_budget_consume_amount resolve Budget.reserve usage limit limit_of reserve_grant
    GrantStore.reserve start_committing move transition_to get_record transition
    assert_legal_transition is_legal_transition transitions LifecycleState-discrete write_through
    persist_lifecycle record_intent intent record_pending finish get_idempotent_outcome
    after_preconditions perform after_effect succeed commit_budget Budget.commit reservation
    commit_reserved confirm_outbox mark_confirmed confirm finalize_grant GrantStore.commit
    commit_slot outcome_of get put
both_call = (refl, refl)

not_empty : (x : ℕ) (xs : List ℕ) → xs ≡ x ∷ [] → xs ≢ []
not_empty x xs e h = cc

commit-IsAuthorized_example : IsAuthorized tenanted enveloped control
commit-IsAuthorized_example =
    commit-IsAuthorized tenanted enveloped control
      (not_empty 40 (commit tenanted enveloped control).1.performed both_call.0)
