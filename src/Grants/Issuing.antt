-- ===== src/Grants/Issuing.antt =====
-- grants/issuer.py: what an issued grant is, and that it verifies.
use chitragupta_protocol.Base.{
  ℕ, ◌≡◌, ◌≤◌, ◌<◌, ◌+◌, false, none, some, List, [], ◌∷◌, arith, ◌⊎◌, ◌↔◌, Option-cases,
}
use chitragupta_protocol.Base.Dict.{get}
use chitragupta_protocol.Crypto.{
  Keyring, VerificationKey, SignatureCheck, SigningKey, Signing, IsKeyPair, verify,
}
use chitragupta_protocol.Domain.{
  Texts, is_agent, ed25519, dedupe_sorted, assert_supported_schema_version,
  assert_supported_algorithm,
}
use chitragupta_protocol.Errors.{grant_issuer_not_authorized_error, ok, raise_if, bind-ok}
use chitragupta_protocol.Grants.{
  ExecutionGrant, signing_payload, canonical_hash, verify_grant, verify_grant_signature,
  verify_grant_time_window,
}
use chitragupta_protocol.Grants.Issuer.{
  GrantTerms, nonempty_tuple, validate_fields, validate_whole, new_grant, unsigned, issue_grant,
}

-- The grant of the terms before its signature.
abbrev pub issued : GrantTerms → SigningKey → ℕ → ExecutionGrant
issued t signer now = record (unsigned t signer now) {
  audience = dedupe_sorted t.audience;
  allowed_effect_types = dedupe_sorted t.allowed_effect_types;
}

-- The terms as a grant carries them, under the signature of the key over the grant's digest.
pub record IsIssued (grant_hash : ExecutionGrant → ℕ) (sign : Signing) (t : GrantTerms)
    (signer : SigningKey) (now : ℕ) (g : ExecutionGrant) : Type 0 where
  pub issuer : is_agent t.issuer.principal_type ≡ false
  pub fields : g ≡ record (issued t signer now) {
    signature = some (sign signer.private_key (grant_hash (issued t signer now)));
  }
  pub algorithm : signer.algorithm ≡ ed25519
  pub window : t.not_before < t.expires_at
  pub uses : 1 ≤ t.max_uses
  pub one_plan : (t.decision_envelope_hash ≡ none) ⊎ (t.causal_graph_hash ≡ none)

nonempty_tuple-ok : (xs ys : List ℕ) → nonempty_tuple xs ≡ ok ys → ys ≡ dedupe_sorted xs
unfolding nonempty_tuple
nonempty_tuple-ok [] ys h = absurd (ground arith)
nonempty_tuple-ok (x ∷ xs) ys h = ground arith

new_grant-ok :
    (texts : Texts) (g h : ExecutionGrant)
    → new_grant texts g ≡ ok h
    → (validate_fields texts g ≡ ok tt)
      × (validate_whole g ≡ ok tt)
      × (h ≡ record g {
        audience = dedupe_sorted g.audience;
        allowed_effect_types = dedupe_sorted g.allowed_effect_types;
      })
unfolding new_grant
new_grant-ok texts g h e =
    let (u, a, k) = bind-ok (validate_fields texts g) _ e in
    let (xs, b, l) = bind-ok (nonempty_tuple g.audience) _ k in
    let (ys, c, m) = bind-ok (nonempty_tuple g.allowed_effect_types) _ l in
    let (v, d, n) = bind-ok (validate_whole g) _ m in
    let same_xs : xs ≡ dedupe_sorted g.audience = nonempty_tuple-ok _ xs b in
    let same_ys : ys ≡ dedupe_sorted g.allowed_effect_types = nonempty_tuple-ok _ ys c in
    (a, d, ground (arith, same_xs, same_ys))

module _ (texts : Texts) (grant_hash : ExecutionGrant → ℕ) (sign : Signing) where
  pub issue-IsIssued :
      (t : GrantTerms) (signer : SigningKey) (now : ℕ) (g : ExecutionGrant)
      → issue_grant texts grant_hash sign t signer now ≡ ok g
      → IsIssued grant_hash sign t signer now g
  unfolding issue_grant validate_fields validate_whole
  issue-IsIssued t signer now g h =
      let (u, a, k) =
        bind-ok (raise_if (is_agent t.issuer.principal_type) grant_issuer_not_authorized_error) _
          h in
      let (made, b, l) = bind-ok (new_grant texts (unsigned t signer now)) _ k in
      let (c, d, e) = new_grant-ok texts (unsigned t signer now) made b in
      record {
        issuer = ground arith;
        fields = ground arith;
        algorithm = ground arith;
        window = ground arith;
        uses = ground arith;
        one_plan =
            ground (arith, Option-cases t.decision_envelope_hash, Option-cases t.causal_graph_hash);
      }

module _ (texts : Texts) (digest : ExecutionGrant → ℕ) (sign : Signing) where
  -- A grant that was issued verifies, where the ring holds the key's public part under its
  -- identifier, exactly while the time lies in its window, widened by the leeway.
  pub issue-verify :
      (check : SignatureCheck) (keys : Keyring) (t : GrantTerms) (signer : SigningKey)
      (key : VerificationKey) (issued_at now leeway : ℕ) (g : ExecutionGrant)
      → IsKeyPair check sign signer key
      → get signer.key_id keys ≡ some key
      → issue_grant texts (canonical_hash digest) sign t signer issued_at ≡ ok g
      → (verify_grant check (canonical_hash digest) g keys now leeway ≡ ok tt)
        ↔ ((g.not_before ≤ now + leeway) × (now ≤ g.expires_at + leeway))
  unfolding verify_grant verify_grant_signature verify_grant_time_window verify canonical_hash
      signing_payload assert_supported_schema_version assert_supported_algorithm
  issue-verify check keys t signer key issued_at now leeway g pair held h =
      let i : IsIssued (canonical_hash digest) sign t signer issued_at g =
        issue-IsIssued texts (canonical_hash digest) sign t signer issued_at g h in
      let good = pair (canonical_hash digest (issued t signer issued_at)) in
      rw i.fields (λ v. ground (arith, good, i.algorithm), λ w. ground (arith, good, i.algorithm))
