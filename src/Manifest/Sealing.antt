-- ===== src/Manifest/Sealing.antt =====
-- protocol/sealing.py: sealing and verifying.
use chitragupta_protocol.Base.{ℕ, ◌≡◌, ◌↔◌, true, some, arith, Option-cases, inl, inr}
use chitragupta_protocol.Base.Dict.{get}
use chitragupta_protocol.Crypto.{
  Keyring, VerificationKey, SignatureCheck, SigningKey, Signing, IsKeyPair, verify,
}
use chitragupta_protocol.Errors.{ok}
use chitragupta_protocol.Manifest.{
  EffectManifest, SealedManifest, seal_manifest, verify_integrity, verify_seal,
}

-- A seal by a key whose public part the ring holds under its identifier verifies over a manifest
-- exactly if that manifest has the digest of the one that was sealed.
pub seal-verify :
    (check : SignatureCheck) (sign : Signing) (hash : EffectManifest → ℕ) (keys : Keyring)
    (signer : SigningKey) (key : VerificationKey) (now : ℕ) (m presented : EffectManifest)
    → IsKeyPair check sign signer key
    → get signer.key_id keys ≡ some key
    → (verify_seal hash check
          (record (seal_manifest hash sign m signer now) { manifest = presented })
          keys
        ≡ ok tt)
      ↔ (hash presented ≡ hash m)
unfolding seal_manifest verify_seal verify_integrity verify
seal-verify check sign hash keys signer key now m presented pair held =
    (λ h. ground (arith, pair (hash m)), λ h. ground (arith, pair (hash m)))

-- A seal that verifies is signed by a key that the ring trusts, over the digest of the very manifest
-- presented.
pub verify_seal_sound :
    (check : SignatureCheck) (hash : EffectManifest → ℕ) (keys : Keyring) (s : SealedManifest)
    → verify_seal hash check s keys ≡ ok tt
    → (key : VerificationKey) × (get s.seal.key_id keys ≡ some key)
      × (check key.public_key (hash s.manifest) s.seal.signature ≡ true)
unfolding verify_seal verify_integrity verify
verify_seal_sound check hash keys s h = elim (Option-cases (get s.seal.key_id keys)) [
  | inl e ↦ absurd (ground arith)
  | inr (key, e) ↦ (key, e, ground arith)
]
