-- ===== src/Engine/Checks/Signed.antt =====
-- engine/core.py: inversions of the checks, and what a verified signature and a verified policy bundle
-- come to.
use chitragupta_protocol.Base.{
  ℕ, ◌≡◌, refl, Bool, true, false, none, some, ◌≤◌, inl, inr, arith, Bool-cases, Option-cases,
}
use chitragupta_protocol.Base.Dict.{get}
use chitragupta_protocol.Crypto.{Keyring, SignatureCheck, VerificationKey, verify}
use chitragupta_protocol.Engine.Checks.{
  EventType, Context, Checked, passes, denies, raises, ◌>>=◌, attempt, deny_if,
  enforce_policy_tenant,
}
use chitragupta_protocol.Errors.{Error, Result, ok, err, is_protocol_error, Result-cases}
use chitragupta_protocol.Policy.{
  SealedPolicyBundle, is_over, verify_bundle_integrity, verify_policy_bundle,
}
use chitragupta_protocol.Tenant.Isolation.{tenant_match_iff}

-- Inversions of the three kinds of checks.
pub bind-passes :
    {A B : Type 0} (m : Checked A) (f : A → Checked B) {b : B}
    → ◌>>=◌ m f ≡ passes b
    → (a : A) × (m ≡ passes a) × (f a ≡ passes b)
bind-passes (passes a) f h = (a, refl, h)
bind-passes (denies event e) f h = absurd (ground arith)
bind-passes (raises e) f h = absurd (ground arith)

pub attempt-passes :
    {A : Type 0} (event : EventType) (r : Result A) {a : A} → attempt event r ≡ passes a → r ≡ ok a
attempt-passes event (ok a) h = ground arith
attempt-passes event (err e) h = elim (Bool-cases (is_protocol_error e)) [
  | inl b ↦ absurd (ground arith)
  | inr b ↦ absurd (ground arith)
]

pub deny_if-passes :
    (b : Bool) (event : EventType) (e : Error) {u : Unit {0}}
    → deny_if b event e ≡ passes u
    → b ≡ false
deny_if-passes true event e h = absurd (ground arith)
deny_if-passes false event e h = refl

-- A key that the ring trusts under the identifier accepts the signature over the digest.
pub record IsSigned (check : SignatureCheck) (keys : Keyring) (key_id digest signature : ℕ)
    : Type 0 where
  pub key : VerificationKey
  pub trusted : get key_id keys ≡ some key
  pub checked : check key.public_key digest signature ≡ true

pub verify-IsSigned :
    (check : SignatureCheck) (keys : Keyring) (key_id digest signature : ℕ)
    → verify check keys key_id digest signature ≡ ok tt
    → IsSigned check keys key_id digest signature
unfolding verify
verify-IsSigned check keys key_id digest signature h = elim (Option-cases (get key_id keys)) [
  | inl e ↦ absurd (ground arith)
  | inr (key, e) ↦ record { key = key; trusted = e; checked = ground arith }
]

-- A presented policy bundle is signed over its own digest, in effect, and of the engine's tenant.
pub record IsInForce (c : Context) (b : SealedPolicyBundle) : Type 0 where
  pub intact : c.bundle_hash b.bundle ≡ b.seal.bundle_hash
  pub signed : IsSigned c.check c.keyring b.seal.key_id (c.bundle_hash b.bundle) b.seal.signature
  pub begun : b.bundle.effective_from ≤ c.now_bundle
  pub current : is_over b.bundle.effective_until c.now_bundle ≡ false
  pub tenant : c.tenant_id ≡ b.bundle.tenant_id

verified-signed :
    (c : Context) (b : SealedPolicyBundle)
    → verify_policy_bundle c.bundle_hash c.check b c.keyring c.now_bundle none ≡ ok tt
    → (c.bundle_hash b.bundle ≡ b.seal.bundle_hash)
      × (verify c.check c.keyring b.seal.key_id b.seal.bundle_hash b.seal.signature ≡ ok tt)
      × (b.bundle.effective_from ≤ c.now_bundle)
      × (is_over b.bundle.effective_until c.now_bundle ≡ false)
unfolding verify_policy_bundle verify_bundle_integrity
verified-signed c b h =
    elim (Result-cases
      (verify c.check c.keyring b.seal.key_id b.seal.bundle_hash b.seal.signature)) [
        | inr (e, q) ↦ absurd (ground arith)
        | inl (u, q) ↦ (ground arith, q, ground arith, ground arith)
      ]

pub verified-IsInForce :
    (c : Context) (b : SealedPolicyBundle)
    → verify_policy_bundle c.bundle_hash c.check b c.keyring c.now_bundle none ≡ ok tt
    → enforce_policy_tenant c b ≡ ok tt
    → IsInForce c b
unfolding enforce_policy_tenant
verified-IsInForce c b h k =
    let (intact, signed, begun, current) = verified-signed c b h in
    record {
      intact = intact;
      signed = rw intact (
          verify-IsSigned c.check c.keyring b.seal.key_id b.seal.bundle_hash b.seal.signature
            signed);
      begun = begun;
      current = current;
      tenant = (tenant_match_iff c.tenant_id b.bundle.tenant_id).0 k;
    }
