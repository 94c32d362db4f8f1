-- ===== src/Envelope/Decision/Sealing.antt =====
-- envelope/sealing.py: sealing and verifying decision envelopes.
use chitragupta_protocol.Base.{ℕ, ◌≡◌, ◌↔◌, true, some, arith}
use chitragupta_protocol.Base.Dict.{get}
use chitragupta_protocol.Crypto.{
  Keyring, VerificationKey, SignatureCheck, SigningKey, Signing, IsKeyPair, verify,
}
use chitragupta_protocol.Errors.{ok}
use chitragupta_protocol.Envelope.Decision.{
  DecisionEnvelope, seal_decision_envelope, verify_decision_envelope, is_effective_at,
}

-- An envelope that was sealed by a key that the ring trusts verifies at a time exactly if the time is
-- in its window, where the digest leaves the signature out.
pub seal_envelope-verify :
    (check : SignatureCheck) (sign : Signing) (hash : DecisionEnvelope → ℕ) (keys : Keyring)
    (signer : SigningKey) (key : VerificationKey) (now : ℕ) (e signed : DecisionEnvelope)
    → IsKeyPair check sign signer key
    → get signer.key_id keys ≡ some key
    → hash signed ≡ hash e
    → seal_decision_envelope hash sign e signer ≡ ok signed
    → (verify_decision_envelope hash check signed keys now ≡ ok tt)
      ↔ (is_effective_at signed now ≡ true)
unfolding seal_decision_envelope verify_decision_envelope verify is_effective_at
seal_envelope-verify check sign hash keys signer key now e signed pair held same h =
    (λ k. ground (arith, pair (hash e)), λ k. ground (arith, pair (hash e)))
