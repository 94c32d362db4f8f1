-- ===== src/Examples/Commits.antt =====
-- engine/core.py: a commit over an empty grant store, with a budget and an outbox, and the theorems on
-- `commit` at it.
use chitragupta_protocol.Base.{◌*◌, ◌≡◌, refl, true, none, some, [], ◌∷◌}
use chitragupta_protocol.Base.Dict.{get, put}
use chitragupta_protocol.Adapters.{EffectAdapter}
use chitragupta_protocol.Budget.{
  monetary, AuthorityBudget, BudgetLedger, require_budget, require, resolve_budget_consume_amount,
  resolve, usage, limit, limit_of, reservation, commit_reserved,
}
use chitragupta_protocol.Budget
use chitragupta_protocol.Crypto.{verify}
use chitragupta_protocol.Delegation.{assert_no_revoked_ancestors, walk}
use chitragupta_protocol.Grants.{verify_grant, verify_grant_signature, verify_grant_time_window}
use chitragupta_protocol.Engine.{get_record, transition_to, write_through, persist_lifecycle}
use chitragupta_protocol.Engine.Checks.{
  Context, Request, commit_checks, binding_checks, standing_checks, policy_check, unbound_policy,
  envelope_check, plan_check, require_trusted_adapter,
}
use chitragupta_protocol.Engine.Control.{
  Control, move, release_grant, release_budget, commit_budget, confirm_outbox, finalize_grant,
}
use chitragupta_protocol.Engine.Commit.{
  commit, execute, reserve_budget, budget_amount, reserve_grant, start_committing, record_intent,
  intent, finish, after_preconditions, perform, after_effect, succeed, replay, release_both,
  outcome_of,
}
use chitragupta_protocol.Engine.Commit.Endings.{Ending, reports_success}
use chitragupta_protocol.Engine.Commit.Accounts.{commit_ends}
use chitragupta_protocol.Engine.Commit.Once.{
  is_held, reserved_of, commit_leaves_no_reservation, calls_with, commits, effect_at_most_once,
}
use chitragupta_protocol.Errors.{ok}
use chitragupta_protocol.GrantStore.{GrantStore, is_revoked, get_idempotent_outcome, commit_slot}
use chitragupta_protocol.GrantStore
use chitragupta_protocol.Engine.Commit.Keeping.{state_of}
use chitragupta_protocol.Outbox.{OutboxEntry, abandoned, record_pending, mark_confirmed, confirm}
use chitragupta_protocol.Lifecycle.{
  authorized, committing, LifecycleState-discrete, transition, assert_legal_transition,
  is_legal_transition, transitions,
}
use chitragupta_protocol.Manifest.{EffectManifest, verify_seal, verify_integrity}
use chitragupta_protocol.Examples.{person, check, grant_hash, keys, root_grant}
use chitragupta_protocol.Domain.{
  version, ed25519, parse_major, assert_supported_schema_version, assert_supported_algorithm,
}

abbrev pub manifest : EffectManifest
manifest = record {
  schema_version = version 1 0;
  manifest_id = 7;
  effect_type = 30;
  actor = person;
  principal = person;
  adapter = record { adapter_id = 20; adapter_version = 1 };
  target_resource = 10;
  parameters = [];
  before_state_digest = none;
  expected_after_state_digest = none;
  estimated_cost = some (record { currency = 9; minor_units = 100 });
  idempotency_key = 40;
  created_at = 100;
  expires_at = 200;
  nonce = 0;
  parent_manifest_id = none;
}

-- The digest of a manifest is taken to be a multiple of its identifier.
abbrev pub context : Context
context = record {
  check = check;
  keyring = keys;
  manifest_hash = λ m. m.manifest_id * 11;
  grant_hash = grant_hash;
  bundle_hash = λ b. b.bundle_id;
  envelope_hash = λ e. e.envelope_id;
  link_digest = λ l. l.link_id;
  graph_hash = λ g. g.graph_id;
  now_grant = 150;
  now_bundle = 150;
  now_envelope = 150;
  now_transition = 151;
  leeway = 0;
  tenant_id = none;
  adapter_registry = none;
}

abbrev pub adapter : EffectAdapter
adapter = record {
  identity = record { adapter_id = 20; adapter_version = 1 };
  validate_preconditions = λ _. ok true;
  perform = λ _ _. ok (record { success = true; provider_reference = some 500 });
  observe = λ _. ok (record { matched_expected = true; observed_after_state_digest = some 9 });
}

abbrev pub request : Request
request = record {
  sealed = record {
    manifest = manifest;
    seal = record {
      algorithm = ed25519;
      key_id = 5;
      manifest_hash = 77;
      signature = 77;
      sealed_at = 110;
    };
  };
  grant = root_grant;
  adapter = adapter;
  policy_bundle = none;
  decision_envelope = none;
  causal_graph = none;
}

abbrev budget : AuthorityBudget
budget = record {
  schema_version = 1;
  budget_id = 3;
  kind = monetary;
  currency = some 9;
  limit_minor_units = some 1000;
  limit_count = none;
}

abbrev pub control : Control
control = record {
  engine = record {
    records = (7, record { manifest_id = 7; state = authorized; history = [] }) ∷ [];
    lifecycle_store = none;
    events = [];
  };
  grant_store = record { slots = []; idempotency = []; lineage = [] };
  budget_ledger =
      some (record { budgets = (3, budget) ∷ []; consumed = (3, 0) ∷ []; reserved = (3, 0) ∷ [] });
  outbox_store = some [];
  journal = [];
  performed = [];
}

-- The adapter is called with the key 40, and the commit reports success.
runs :
    ((commit context request control).1.performed ≡ 40 ∷ [])
    × (reports_success (commit context request control).0 ≡ true)
unfolding commit execute commit_checks binding_checks standing_checks verify_seal verify_integrity
    verify verify_grant verify_grant_signature verify_grant_time_window parse_major
    assert_supported_schema_version assert_supported_algorithm policy_check unbound_policy
    envelope_check plan_check require_trusted_adapter is_revoked assert_no_revoked_ancestors walk
    reserve_budget budget_amount require_budget require resolve_budget_consume_amount resolve
    Budget.reserve usage limit limit_of reserve_grant GrantStore.reserve start_committing move
    transition_to get_record transition assert_legal_transition is_legal_transition transitions
    LifecycleState-discrete write_through persist_lifecycle record_intent intent record_pending
    finish get_idempotent_outcome after_preconditions perform after_effect succeed replay
    commit_budget Budget.commit reservation commit_reserved confirm_outbox mark_confirmed confirm
    finalize_grant GrantStore.commit commit_slot outcome_of get put
runs = (refl, refl)

commit_ends_example : Ending context request control (commit context request control)
commit_ends_example = commit_ends context request control

commit_leaves_no_reservation_example :
    (is_held (get 1 (commit context request control).1.grant_store.slots)
      ≡ is_held (get 1 control.grant_store.slots))
    × (reserved_of 3 (commit context request control).1.budget_ledger
        ≡ reserved_of 3 control.budget_ledger)
commit_leaves_no_reservation_example = commit_leaves_no_reservation context request control 1 3

effect_at_most_once_example :
    calls_with 40 (commits ((context, request) ∷ []) (commit context request control).1).performed
    ≡ calls_with 40 (commit context request control).1.performed
effect_at_most_once_example =
    effect_at_most_once context request control ((context, request) ∷ []) runs.1

-- An earlier intent under the key was abandoned, and the grant names no budget.
abbrev unpaid : Request
unpaid = record request { grant = record root_grant { authority_budget_id = none } }

abbrev old_intent : OutboxEntry
old_intent = record {
  idempotency_key = 40;
  grant_id = 1;
  manifest_id = 7;
  manifest_hash = 77;
  status = abandoned;
  outcome_ref = none;
}

abbrev abandoned_before : Control
abandoned_before = record control { outbox_store = some ((40, old_intent) ∷ []) }

-- It is left COMMITTING.
stays_committing : state_of 7 (commit context unpaid abandoned_before).1 ≡ committing
unfolding commit execute commit_checks binding_checks standing_checks verify_seal verify_integrity
    verify verify_grant verify_grant_signature verify_grant_time_window parse_major
    assert_supported_schema_version assert_supported_algorithm policy_check unbound_policy
    envelope_check plan_check require_trusted_adapter is_revoked assert_no_revoked_ancestors walk
    reserve_budget reserve_grant GrantStore.reserve start_committing move transition_to get_record
    transition assert_legal_transition is_legal_transition transitions LifecycleState-discrete
    write_through persist_lifecycle record_intent intent record_pending release_both release_grant
    release_budget GrantStore.release get put
stays_committing = refl
