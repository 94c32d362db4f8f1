-- ===== src/Grants.antt =====
-- grants/model.py and grants/verifier.py: execution grants and their structural verification.
-- Times are microseconds.
pub mod Verify
pub mod Issuer
pub mod Issuing
use chitragupta_protocol.Base.{ℕ, ◌+◌, ◌-◌, Bool, Option, none, some, List, ltb, is_none, not}
use chitragupta_protocol.Crypto.{Keyring, SignatureCheck, verify}
use chitragupta_protocol.Domain.{
  Principal, MonetaryAmount, SchemaVersion, assert_supported_schema_version,
  assert_supported_algorithm,
}
use chitragupta_protocol.Errors.{
  Error, invalid_signature_error, grant_not_yet_valid_error, grant_expired_error, Result, ok, err,
  or_raise, raise_if, ◌>>=◌, ◌>>◌,
}

-- None is unrestricted.
pub record ScopeConstraints : Type 0 where
  pub target_resources : Option (List ℕ)
  pub recipients : Option (List ℕ)
  pub max_amount : Option MonetaryAmount
  pub allowed_fields : Option (List ℕ)
  pub environments : Option (List ℕ)

pub record ExecutionGrant : Type 0 where
  pub schema_version : SchemaVersion
  pub grant_id : ℕ
  pub manifest_hash : Option ℕ
  pub policy_bundle_hash : Option ℕ
  pub approval_set_hash : Option ℕ
  pub decision_envelope_hash : Option ℕ
  pub causal_graph_hash : Option ℕ
  pub authority_budget_id : Option ℕ
  pub issuer : Principal
  pub subject : Principal
  pub audience : List ℕ
  pub allowed_effect_types : List ℕ
  pub scope : ScopeConstraints
  pub issued_at : ℕ
  pub not_before : ℕ
  pub expires_at : ℕ
  pub max_uses : ℕ
  pub nonce : ℕ
  pub parent_grant_id : Option ℕ
  pub key_id : ℕ
  pub algorithm : ℕ
  pub signature : Option ℕ

-- `signing_payload`: everything but the signature. `canonical_hash` is its digest; the digest itself,
-- SHA-256 of the canonical JSON, is a parameter.
unfoldable pub signing_payload : ExecutionGrant → ExecutionGrant
signing_payload g = record g { signature = none }

unfoldable pub canonical_hash : (ExecutionGrant → ℕ) → ExecutionGrant → ℕ
canonical_hash digest g = digest (signing_payload g)

-- What a verification of grants is given: the signature check, and `ExecutionGrant.canonical_hash`,
-- the digest of every field but the signature.
module _ (check : SignatureCheck) (grant_hash : ExecutionGrant → ℕ) where
  unfoldable pub verify_grant_signature : ExecutionGrant → Keyring → Result (Unit {0})
  verify_grant_signature g keys = do
    assert_supported_schema_version g.schema_version
    assert_supported_algorithm g.algorithm
    signature ← or_raise g.signature invalid_signature_error
    verify check keys g.key_id (grant_hash g) signature

-- `now` lies in [not_before - leeway, expires_at + leeway].
unfoldable pub verify_grant_time_window : ExecutionGrant → ℕ → ℕ → Result (Unit {0})
verify_grant_time_window g now leeway = do
  raise_if (ltb now (g.not_before - leeway)) grant_not_yet_valid_error
  raise_if (ltb (g.expires_at + leeway) now) grant_expired_error

unfoldable pub verify_grant :
    SignatureCheck → (ExecutionGrant → ℕ) → ExecutionGrant → Keyring → ℕ → ℕ → Result (Unit {0})
verify_grant check grant_hash g keys now leeway = do
  verify_grant_signature check grant_hash g keys
  verify_grant_time_window g now leeway
