-- ===== src/Engine/Checks/Bindings.antt =====
-- engine/core.py: what the checks of `commit` and `authorize` on signed documents come to: the policy
-- bundle, the decision envelope, the causal graph, and the adapter in its registry.
use chitragupta_protocol.Base.{
  ℕ, ◌≡◌, refl, sym, ◌∙◌, true, false, Option, none, some, List, [], ◌∷◌, ◌≤◌, ◌<◌, inl, inr, ◌!=◌,
  arith, contains, All, Option-cases,
}
use chitragupta_protocol.Adapters.{
  EffectAdapter, RegistryEntry, TrustedAdapterRegistry, lookup, require_adapter, require_effect,
}
use chitragupta_protocol.Causal.{
  CausalLink, CausalEffectGraph, verify_causal_link, verify_causal_links, verify_graph,
  assert_manifest_in_plan, require_matching_plan_hash,
}
use chitragupta_protocol.Crypto.{verify}
use chitragupta_protocol.Domain.{AdapterIdentity}
use chitragupta_protocol.Engine.Checks.{
  Context, passes, attempt, deny_if, enforce_policy_tenant, unbound_policy, policy_check,
  envelope_check, plan_check, require_trusted_adapter, policy_bundle_verification_failed,
  policy_bundle_mismatch, tenant_policy_isolation, decision_envelope_verification_failed,
  decision_envelope_mismatch, decision_envelope_constraint_failed,
}
use chitragupta_protocol.Envelope.Decision.{
  DecisionEnvelope, verify_decision_envelope, assert_manifest_fits_envelope,
}
use chitragupta_protocol.Envelope.Decision.Fitting.{FitsEnvelope, fitting-FitsEnvelope}
use chitragupta_protocol.Errors.{
  policy_bundle_mismatch_error, decision_envelope_mismatch_error, ok, Result-cases,
}
use chitragupta_protocol.Manifest.{EffectManifest}
use chitragupta_protocol.Policy.{SealedPolicyBundle, verify_policy_bundle}
use chitragupta_protocol.Tenant.Isolation.{tenant_match_iff}
use chitragupta_protocol.Engine.Checks.Signed.{
  bind-passes, attempt-passes, deny_if-passes, IsSigned, verify-IsSigned, IsInForce,
  verified-IsInForce,
}

-- The tenant of a bundle that the grant does not name, where the engine has one and a bundle is there.
abbrev pub TenantHolds : Option ℕ → Option SealedPolicyBundle → Type 0
TenantHolds none b = Unit
TenantHolds (some tenant) none = Unit
TenantHolds (some tenant) (some b) = some tenant ≡ b.bundle.tenant_id

-- Of the bundle's hash in the grant, and the bundle presented: the bundle named is there, is in force,
-- and has that hash.
abbrev pub PolicyHolds : Context → Option ℕ → Option SealedPolicyBundle → Type 0
PolicyHolds c none b = TenantHolds c.tenant_id b
PolicyHolds c (some required) none = ⊥
PolicyHolds c (some required) (some b) = IsInForce c b × (c.bundle_hash b.bundle ≡ required)

-- A presented decision envelope is signed over its digest and in effect, and the manifest fits it.
pub record IsAdmitting (c : Context) (m : EffectManifest) (e : DecisionEnvelope) : Type 0 where
  pub signature : ℕ
  pub given : e.signature ≡ some signature
  pub signed : IsSigned c.check c.keyring e.key_id (c.envelope_hash e) signature
  pub begun : e.not_before ≤ c.now_envelope
  pub unexpired : c.now_envelope < e.expires_at
  pub fits : FitsEnvelope m e

abbrev pub EnvelopeHolds : Context → EffectManifest → Option ℕ → Option DecisionEnvelope → Type 0
EnvelopeHolds c m none e = Unit
EnvelopeHolds c m (some required) none = ⊥
EnvelopeHolds c m (some required) (some e) = IsAdmitting c m e × (c.envelope_hash e ≡ required)

-- A presented plan has the manifest among its nodes, and each of its links is signed.
pub record IsPlanned (c : Context) (manifest_hash : ℕ) (g : CausalEffectGraph) : Type 0 where
  pub node : contains g.node_manifest_hashes manifest_hash ≡ true
  pub links : All (λ l. IsSigned c.check c.keyring l.key_id (c.link_digest l) l.signature) g.links

abbrev pub PlanHolds : Context → ℕ → Option ℕ → Option CausalEffectGraph → Type 0
PlanHolds c manifest_hash none g = Unit
PlanHolds c manifest_hash (some required) none = ⊥
PlanHolds c manifest_hash (some required) (some g) =
    IsPlanned c manifest_hash g × (c.graph_hash g ≡ required)

-- The registry, where there is one, has an entry of the adapter that is not revoked and supports the
-- effect type.
pub record IsListed (entries : TrustedAdapterRegistry) (key : AdapterIdentity) (effect_type : ℕ)
    : Type 0 where
  pub entry : RegistryEntry
  pub found : lookup key entries ≡ some entry
  pub unrevoked : entry.revoked ≡ false
  pub supported : contains entry.capability.supported_effect_types effect_type ≡ true

abbrev pub TrustHolds : Option TrustedAdapterRegistry → AdapterIdentity → ℕ → Type 0
TrustHolds none key effect_type = Unit
TrustHolds (some entries) key effect_type = IsListed entries key effect_type

unbound-TenantHolds :
    (c : Context) (tenant : Option ℕ) (b : Option SealedPolicyBundle)
    → c.tenant_id ≡ tenant
    → unbound_policy c tenant b ≡ passes tt
    → TenantHolds tenant b
unfolding unbound_policy enforce_policy_tenant
unbound-TenantHolds c none b e h = tt
unbound-TenantHolds c (some t) none e h = tt
unbound-TenantHolds c (some t) (some b) e h =
    sym e ∙ (tenant_match_iff c.tenant_id b.bundle.tenant_id).0 (attempt-passes _ _ h)

pub policy-PolicyHolds :
    (c : Context) (required : Option ℕ) (b : Option SealedPolicyBundle)
    → policy_check c required b ≡ passes tt
    → PolicyHolds c required b
unfolding policy_check
policy-PolicyHolds c none b h = unbound-TenantHolds c c.tenant_id b refl h
policy-PolicyHolds c (some required) none h = absurd (ground arith)
policy-PolicyHolds c (some required) (some b) h =
    let (_, verified, k) =
      bind-passes
        (attempt policy_bundle_verification_failed
          (verify_policy_bundle c.bundle_hash c.check b c.keyring c.now_bundle none))
        _ h in
    let (_, named, l) =
      bind-passes
        (deny_if (b.seal.bundle_hash != required) policy_bundle_mismatch
          policy_bundle_mismatch_error)
        (λ _. attempt tenant_policy_isolation (enforce_policy_tenant c b)) k in
    let force =
      verified-IsInForce c b (attempt-passes _ _ verified)
        (attempt-passes tenant_policy_isolation (enforce_policy_tenant c b) l) in
    let same : (b.seal.bundle_hash != required) ≡ false = deny_if-passes _ _ _ named in
    (force, ground (arith, force.intact, same))

verified-envelope :
    (c : Context) (e : DecisionEnvelope)
    → verify_decision_envelope c.envelope_hash c.check e c.keyring c.now_envelope ≡ ok tt
    → (signature : ℕ) × (e.signature ≡ some signature)
      × (verify c.check c.keyring e.key_id (c.envelope_hash e) signature ≡ ok tt)
      × (e.not_before ≤ c.now_envelope)
      × (c.now_envelope < e.expires_at)
unfolding verify_decision_envelope
verified-envelope c e h = elim (Option-cases e.signature) [
  | inl q ↦ absurd (ground arith)
  | inr (s, q) ↦ elim (Result-cases (verify c.check c.keyring e.key_id (c.envelope_hash e) s)) [
    | inr (x, r) ↦ absurd (ground arith)
    | inl (u, r) ↦ (s, q, r, ground arith, ground arith)
  ]
]

pub envelope-EnvelopeHolds :
    (c : Context) (m : EffectManifest) (required : Option ℕ) (e : Option DecisionEnvelope)
    → envelope_check c m required e ≡ passes tt
    → EnvelopeHolds c m required e
unfolding envelope_check
envelope-EnvelopeHolds c m none e h = tt
envelope-EnvelopeHolds c m (some required) none h = absurd (ground arith)
envelope-EnvelopeHolds c m (some required) (some e) h =
    let (_, verified, k) =
      bind-passes
        (attempt decision_envelope_verification_failed
          (verify_decision_envelope c.envelope_hash c.check e c.keyring c.now_envelope))
        _ h in
    let (_, named, l) =
      bind-passes
        (deny_if (c.envelope_hash e != required) decision_envelope_mismatch
          decision_envelope_mismatch_error)
        (λ _. attempt decision_envelope_constraint_failed (assert_manifest_fits_envelope m e)) k in
    let (s, given, signed, begun, unexpired) =
      verified-envelope c e (attempt-passes _ _ verified) in
    let same : (c.envelope_hash e != required) ≡ false = deny_if-passes _ _ _ named in
    (
      record {
        signature = s;
        given = given;
        signed = verify-IsSigned _ _ _ _ _ signed;
        begun = begun;
        unexpired = unexpired;
        fits = fitting-FitsEnvelope m e (
            attempt-passes decision_envelope_constraint_failed (assert_manifest_fits_envelope m e)
              l);
      },
      ground (arith, same),
    )

links-All :
    (c : Context) (links : List CausalLink)
    → verify_causal_links c.link_digest c.check links c.keyring ≡ ok tt
    → All (λ l. IsSigned c.check c.keyring l.key_id (c.link_digest l) l.signature) links
unfolding verify_causal_links verify_causal_link
links-All c [] h = tt
links-All c (l ∷ links) h =
    elim (Result-cases (verify c.check c.keyring l.key_id (c.link_digest l) l.signature)) [
      | inr (x, q) ↦ absurd (ground arith)
      | inl (u, q) ↦ (verify-IsSigned _ _ _ _ _ q, links-All c links (ground arith))
    ]

plan_graph :
    (c : Context) (manifest_hash : ℕ) (g : CausalEffectGraph)
    → assert_manifest_in_plan c.link_digest c.check manifest_hash g c.keyring ≡ ok tt
    → IsPlanned c manifest_hash g
unfolding assert_manifest_in_plan verify_graph
plan_graph c manifest_hash g h =
    elim (Result-cases (verify_causal_links c.link_digest c.check g.links c.keyring)) [
      | inr (x, q) ↦ absurd (ground arith)
      | inl (u, q) ↦ record { node = ground arith; links = links-All c g.links q }
    ]

matching_plan :
    (hash : CausalEffectGraph → ℕ) (g : CausalEffectGraph) (required : ℕ)
    → require_matching_plan_hash hash g required ≡ ok tt
    → hash g ≡ required
unfolding require_matching_plan_hash
matching_plan hash g required h = ground arith

pub plan-PlanHolds :
    (c : Context) (manifest_hash : ℕ) (required : Option ℕ) (g : Option CausalEffectGraph)
    → plan_check c manifest_hash required g ≡ passes tt
    → PlanHolds c manifest_hash required g
unfolding plan_check
plan-PlanHolds c manifest_hash none g h = tt
plan-PlanHolds c manifest_hash (some required) none h = absurd (ground arith)
plan-PlanHolds c manifest_hash (some required) (some g) h =
    let (_, named, k) = bind-passes (attempt _ _) _ h in
    (
      plan_graph c manifest_hash g (attempt-passes _ _ k),
      matching_plan c.graph_hash g required (attempt-passes _ _ named),
    )

pub trusted-TrustHolds :
    (entries : Option TrustedAdapterRegistry) (adapter : EffectAdapter) (effect_type : ℕ)
    → require_trusted_adapter entries adapter effect_type ≡ ok tt
    → TrustHolds entries adapter.identity effect_type
unfolding require_trusted_adapter require_effect require_adapter
trusted-TrustHolds none adapter effect_type h = tt
trusted-TrustHolds (some entries) adapter effect_type h =
    elim (Option-cases (lookup adapter.identity entries)) [
      | inl e ↦ absurd (ground arith)
      | inr (entry, e) ↦ record {
        entry = entry;
        found = e;
        unrevoked = ground arith;
        supported = ground arith;
      }
    ]
