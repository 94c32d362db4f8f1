-- ===== src/Grants/Verify.antt =====
-- grants/verifier.py: what a verified grant is known to be.
use chitragupta_protocol.Base.{ℕ, ◌+◌, ◌≤◌, ◌≡◌, ◌↔◌, true, some, arith, Option-cases, inl, inr}
use chitragupta_protocol.Base.Dict.{get}
use chitragupta_protocol.Crypto.{Keyring, SignatureCheck, VerificationKey, verify}
use chitragupta_protocol.Domain.{
  SchemaVersion, malformed, version, assert_supported_schema_version, assert_supported_algorithm,
  ed25519, supported_major,
}
use chitragupta_protocol.Errors.{ok, Result-cases}
use chitragupta_protocol.Grants.{
  ExecutionGrant, verify_grant_signature, verify_grant_time_window, verify_grant,
}

-- A grant verifies only if a trusted key accepts its signature over its digest, its schema version
-- and algorithm are the supported ones, and the time lies in its window, widened by the leeway.
pub record IsAuthentic (check : SignatureCheck) (grant_hash : ExecutionGrant → ℕ)
    (g : ExecutionGrant) (keys : Keyring) (now leeway : ℕ) : Type 0 where
  pub key : VerificationKey
  pub signature : ℕ
  pub trusted : get g.key_id keys ≡ some key
  pub signed : g.signature ≡ some signature
  pub checked : check key.public_key (grant_hash g) signature ≡ true
  pub minor : ℕ
  pub schema : g.schema_version ≡ version supported_major minor
  pub supported : g.algorithm ≡ ed25519
  pub started : g.not_before ≤ now + leeway
  pub unexpired : now ≤ g.expires_at + leeway

schema_of :
    (v : SchemaVersion)
    → assert_supported_schema_version v ≡ ok tt
    → (minor : ℕ) × (v ≡ version supported_major minor)
unfolding assert_supported_schema_version
schema_of malformed h = cc
schema_of (version major minor) h = (minor, ground arith)

module _ (check : SignatureCheck) (grant_hash : ExecutionGrant → ℕ) where
  signature_of :
      (g : ExecutionGrant) (keys : Keyring)
      → verify_grant_signature check grant_hash g keys ≡ ok tt
      → (key : VerificationKey) × (signature : ℕ) × (get g.key_id keys ≡ some key)
        × (g.signature ≡ some signature)
        × (check key.public_key (grant_hash g) signature ≡ true)
        × (g.algorithm ≡ ed25519)
        × (assert_supported_schema_version g.schema_version ≡ ok tt)
  unfolding verify_grant_signature verify assert_supported_algorithm
  signature_of g keys h = elim (Option-cases g.signature) [
    | inl e ↦ absurd (ground arith)
    | inr (signature, e) ↦ elim (Option-cases (get g.key_id keys)) [
      | inl f ↦ absurd (ground arith)
      | inr (key, f) ↦ (
        key,
        signature,
        f,
        e,
        ground arith,
        ground arith,
        ground (arith, Result-cases (assert_supported_schema_version g.schema_version)),
      )
    ]
  ]

  forth :
      (g : ExecutionGrant) (keys : Keyring) (now leeway : ℕ)
      → verify_grant check grant_hash g keys now leeway ≡ ok tt
      → IsAuthentic check grant_hash g keys now leeway
  unfolding verify_grant verify_grant_time_window
  forth g keys now leeway h =
      let (key, signature, f, e, c, a, v) = signature_of g keys (ground arith) in
      let (minor, q) = schema_of g.schema_version v in
      record {
        key = key;
        signature = signature;
        trusted = f;
        signed = e;
        checked = c;
        minor = minor;
        schema = q;
        supported = a;
        started = ground arith;
        unexpired = ground arith;
      }

  back :
      (g : ExecutionGrant) (keys : Keyring) (now leeway : ℕ)
      → IsAuthentic check grant_hash g keys now leeway
      → verify_grant check grant_hash g keys now leeway ≡ ok tt
  unfolding verify_grant verify_grant_signature verify_grant_time_window verify
      assert_supported_schema_version assert_supported_algorithm
  back g keys now leeway a = ground arith

  -- A grant verifies exactly if a key of the ring accepts its signature over its digest, its schema
  -- version and algorithm are the supported ones, and the time lies in its window, widened by the
  -- leeway on both sides.
  pub verify_grant_iff :
      (g : ExecutionGrant) (keys : Keyring) (now leeway : ℕ)
      → (verify_grant check grant_hash g keys now leeway ≡ ok tt)
        ↔ IsAuthentic check grant_hash g keys now leeway
  unfolding verify_grant
  verify_grant_iff g keys now leeway =
      (λ h. forth g keys now leeway h, λ a. back g keys now leeway a)
