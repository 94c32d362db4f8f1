-- ===== src/Policy/Sealing.antt =====
-- policy/sealing.py: sealing and verifying policy bundles.
use chitragupta_protocol.Base.{ℕ, ◌≡◌, ◌↔◌, true, none, some, arith}
use chitragupta_protocol.Base.Dict.{get}
use chitragupta_protocol.Crypto.{
  Keyring, VerificationKey, SignatureCheck, SigningKey, Signing, IsKeyPair, verify,
}
use chitragupta_protocol.Errors.{ok}
use chitragupta_protocol.Policy.{
  PolicyBundle, seal_policy_bundle, verify_bundle_integrity, verify_policy_bundle, is_effective_at,
}

-- A bundle sealed by a key that the ring trusts verifies, at a time and for the type that it has or
-- for none in particular, exactly if the bundle presented has the digest of the sealed one and is in
-- effect.
pub seal_bundle-verify :
    (check : SignatureCheck) (sign : Signing) (hash : PolicyBundle → ℕ) (keys : Keyring)
    (signer : SigningKey) (key : VerificationKey) (sealed_at now : ℕ) (b presented : PolicyBundle)
    → IsKeyPair check sign signer key
    → get signer.key_id keys ≡ some key
    → (verify_policy_bundle hash check
          (record (seal_policy_bundle hash sign b signer sealed_at) { bundle = presented })
          keys
          now
          none
        ≡ ok tt)
      ↔ ((hash presented ≡ hash b) × (is_effective_at presented now ≡ true))
unfolding seal_policy_bundle verify_policy_bundle verify_bundle_integrity verify is_effective_at
seal_bundle-verify check sign hash keys signer key sealed_at now b presented pair held =
    (λ h. ground (arith, pair (hash b)), λ h. ground (arith, pair (hash b)))
