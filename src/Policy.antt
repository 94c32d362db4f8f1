-- ===== src/Policy.antt =====
-- policy/bundle.py and policy/sealing.py: signed policy bundles. The validators are left out; `hash`
-- stands for `PolicyBundle.canonical_hash`, and the payload is known by that digest only.
pub mod Sealing
use chitragupta_protocol.Base.{ℕ, Bool, true, false, Option, none, some, ltb, leb, ◌!=◌, ◌&&◌, not}
use chitragupta_protocol.Crypto.{Keyring, SignatureCheck, SigningKey, Signing, verify}
use chitragupta_protocol.Domain.{Principal}
use chitragupta_protocol.Errors.{
  policy_bundle_tampered_error, policy_bundle_type_mismatch_error,
  policy_bundle_not_yet_effective_error, policy_bundle_expired_error, Result, ok, raise_if, ◌>>=◌,
  ◌>>◌,
}

pub record PolicyBundle : Type 0 where
  pub bundle_id : ℕ
  pub bundle_version : ℕ
  pub policy_type : ℕ
  pub payload : ℕ
  pub issuer : Principal
  pub tenant_id : Option ℕ
  pub created_at : ℕ
  pub effective_from : ℕ
  pub effective_until : Option ℕ

-- `effective_until is not None and when >= effective_until`
abbrev pub is_over : Option ℕ → ℕ → Bool
is_over none now = false
is_over (some until) now = leb until now

unfoldable pub is_effective_at : PolicyBundle → ℕ → Bool
is_effective_at b now = not (ltb now b.effective_from) && not (is_over b.effective_until now)

pub record PolicyBundleSeal : Type 0 where
  pub algorithm : ℕ
  pub key_id : ℕ
  pub bundle_hash : ℕ
  pub signature : ℕ
  pub sealed_at : ℕ

pub record SealedPolicyBundle : Type 0 where
  pub bundle : PolicyBundle
  pub seal : PolicyBundleSeal

-- `expected_policy_type is not None and policy_type != expected_policy_type`
abbrev pub is_other_type : Option ℕ → ℕ → Bool
is_other_type none policy_type = false
is_other_type (some expected) policy_type = policy_type != expected

module _ (hash : PolicyBundle → ℕ) where
  unfoldable pub seal_policy_bundle : Signing → PolicyBundle → SigningKey → ℕ → SealedPolicyBundle
  seal_policy_bundle sign bundle signing_key now = record {
    bundle = bundle;
    seal = record {
      algorithm = signing_key.algorithm;
      key_id = signing_key.key_id;
      bundle_hash = hash bundle;
      signature = sign signing_key.private_key (hash bundle);
      sealed_at = now;
    };
  }

  -- `SealedPolicyBundle.verify_integrity`
  unfoldable pub verify_bundle_integrity : SealedPolicyBundle → Result (Unit {0})
  verify_bundle_integrity s =
      raise_if (hash s.bundle != s.seal.bundle_hash) policy_bundle_tampered_error

  unfoldable pub verify_policy_bundle :
      SignatureCheck → SealedPolicyBundle → Keyring → ℕ → Option ℕ → Result (Unit {0})
  verify_policy_bundle check s keys now expected_policy_type = do
    verify_bundle_integrity s
    verify check keys s.seal.key_id s.seal.bundle_hash s.seal.signature
    raise_if (is_other_type expected_policy_type s.bundle.policy_type)
        policy_bundle_type_mismatch_error
    raise_if (ltb now s.bundle.effective_from) policy_bundle_not_yet_effective_error
    raise_if (is_over s.bundle.effective_until now) policy_bundle_expired_error
