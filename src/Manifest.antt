-- ===== src/Manifest.antt =====
-- domain/manifest.py, domain/seal.py and protocol/sealing.py: the manifest of an effect and its seal.
-- The fingerprint, the preconditions, the classifications and the metadata are read by adapters and
-- advice only and are left out, as are the validators; `hash` stands for
-- `EffectManifest.canonical_hash`, a digest of every field.
pub mod Sealing
use chitragupta_protocol.Base.{ℕ, Option, ◌!=◌}
use chitragupta_protocol.Base.Dict.{Dict}
use chitragupta_protocol.Crypto.{Keyring, SignatureCheck, SigningKey, Signing, verify}
use chitragupta_protocol.Domain.{Principal, AdapterIdentity, MonetaryAmount, SchemaVersion}
use chitragupta_protocol.Envelope.{ParameterValue}
use chitragupta_protocol.Errors.{manifest_tampered_error, Result, raise_if, ◌>>=◌, ◌>>◌}

pub record EffectManifest : Type 0 where
  pub schema_version : SchemaVersion
  pub manifest_id : ℕ
  pub effect_type : ℕ
  pub actor : Principal
  pub principal : Principal
  pub adapter : AdapterIdentity
  pub target_resource : ℕ
  pub parameters : Dict ParameterValue
  pub before_state_digest : Option ℕ
  pub expected_after_state_digest : Option ℕ
  pub estimated_cost : Option MonetaryAmount
  pub idempotency_key : ℕ
  pub created_at : ℕ
  pub expires_at : ℕ
  pub nonce : ℕ
  pub parent_manifest_id : Option ℕ

pub record Seal : Type 0 where
  pub algorithm : ℕ
  pub key_id : ℕ
  pub manifest_hash : ℕ
  pub signature : ℕ
  pub sealed_at : ℕ

pub record SealedManifest : Type 0 where
  pub manifest : EffectManifest
  pub seal : Seal

module _ (hash : EffectManifest → ℕ) where
  unfoldable pub seal_manifest : Signing → EffectManifest → SigningKey → ℕ → SealedManifest
  seal_manifest sign manifest signing_key now = record {
    manifest = manifest;
    seal = record {
      algorithm = signing_key.algorithm;
      key_id = signing_key.key_id;
      manifest_hash = hash manifest;
      signature = sign signing_key.private_key (hash manifest);
      sealed_at = now;
    };
  }

  -- `SealedManifest.verify_integrity`
  unfoldable pub verify_integrity : SealedManifest → Result (Unit {0})
  verify_integrity s = raise_if (hash s.manifest != s.seal.manifest_hash) manifest_tampered_error

  unfoldable pub verify_seal : SignatureCheck → SealedManifest → Keyring → Result (Unit {0})
  verify_seal check s keys = do
    verify_integrity s
    verify check keys s.seal.key_id s.seal.manifest_hash s.seal.signature
