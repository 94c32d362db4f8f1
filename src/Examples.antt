-- ===== src/Examples.antt =====
-- Concrete grants, keys and runs on which the theorems are applied, and the applications.
mod Lifecycles
mod Grants
mod Delegations
mod Budgets
mod Envelopes
mod Sagas
mod Engines
pub mod Commits
pub mod Bindings
mod Recoveries
mod Seals
mod Decisions
mod Issuances
mod Approvals
mod Services
use chitragupta_protocol.Base.{ℕ, Bool, true, Option, none, some, List, [], ◌∷◌, ◌==◌}
use chitragupta_protocol.Crypto.{Keyring, SignatureCheck}
use chitragupta_protocol.Domain.{Principal, human, version, ed25519}
use chitragupta_protocol.Grants.{ExecutionGrant, ScopeConstraints}

abbrev person : Principal
person = record { principal_id = 1; principal_type = human }

abbrev scope : ScopeConstraints
scope = record {
  target_resources = some (10 ∷ 11 ∷ []);
  recipients = none;
  max_amount = some (record { currency = 9; minor_units = 500 });
  allowed_fields = none;
  environments = none;
}

-- A signature is right when it is the digest.
abbrev check : SignatureCheck
check key digest signature = digest == signature

abbrev grant_hash : ExecutionGrant → ℕ
grant_hash g = g.grant_id

abbrev keys : Keyring
keys = (5, record { key_id = 5; algorithm = ed25519; public_key = 55 }) ∷ []

abbrev root_grant : ExecutionGrant
root_grant = record {
  schema_version = version 1 0;
  grant_id = 1;
  manifest_hash = some 77;
  policy_bundle_hash = none;
  approval_set_hash = none;
  decision_envelope_hash = none;
  causal_graph_hash = none;
  authority_budget_id = some 3;
  issuer = person;
  subject = person;
  audience = 20 ∷ 21 ∷ [];
  allowed_effect_types = 30 ∷ [];
  scope = scope;
  issued_at = 100;
  not_before = 100;
  expires_at = 200;
  max_uses = 2;
  nonce = 0;
  parent_grant_id = none;
  key_id = 5;
  algorithm = ed25519;
  signature = some 1;
}

-- Granted on from the root grant: one resource, a lower amount, a shorter time, one use.
abbrev child_grant : ExecutionGrant
child_grant = record root_grant {
  grant_id = 2;
  audience = 20 ∷ [];
  scope = record scope {
    target_resources = some (10 ∷ []);
    max_amount = some (record { currency = 9; minor_units = 300 });
  };
  expires_at = 150;
  max_uses = 1;
  parent_grant_id = some 1;
  signature = some 2;
}
