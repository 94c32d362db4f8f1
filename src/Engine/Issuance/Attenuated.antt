-- ===== src/Engine/Issuance/Attenuated.antt =====
-- engine/core.py (`delegate`): what a delegated grant is, and what it is not bound to.
use chitragupta_protocol.Base.{
  ℕ, ◌≡◌, ◌≤◌, ◌+◌, ◌⊎◌, refl, sym, true, false, Option, none, some, List, arith, ◌↔◌, is_subset,
}
use chitragupta_protocol.Base.Dict.{get, get-put_self}
use chitragupta_protocol.Crypto.{VerificationKey, IsKeyPair}
use chitragupta_protocol.Delegation.{
  assert_allow_list, assert_amount, assert_grant_narrower_or_equal,
}
use chitragupta_protocol.Delegation.Attenuation.{IsNarrower, accepted-IsNarrower, budget_kept}
use chitragupta_protocol.Delegation.Lineage.{record_grant_lineage}
use chitragupta_protocol.Domain.{is_agent, MonetaryAmount}
use chitragupta_protocol.Engine.Checks.{
  Context, passes, policy_check, unbound_policy, envelope_check, plan_check,
}
use chitragupta_protocol.Engine.Control.{Control}
use chitragupta_protocol.Engine.Issuance.{
  Issuing, Delegated, delegated_terms, keep_lineage, delegate,
}
use chitragupta_protocol.Engine.Issuance.Inversion.{lift_then, attempt_then}
use chitragupta_protocol.Errors.{ok}
use chitragupta_protocol.Grants.{ExecutionGrant, canonical_hash, verify_grant}
use chitragupta_protocol.Grants.Issuer.{issue_grant}
use chitragupta_protocol.Grants.Issuing.{IsIssued, issue-IsIssued, issue-verify}
use chitragupta_protocol.GrantStore.{record_lineage, get_parent_grant_id}
use chitragupta_protocol.Manifest.{EffectManifest}

-- A delegation that returns has issued its child, found it narrower, and recorded it.
delegate-ok :
    (c : Context) (i : Issuing) (parent child : ExecutionGrant) (d : Delegated) (w v : Control)
    → delegate c i parent d w ≡ (ok child, v)
    → (issue_grant i.texts c.grant_hash i.sign (delegated_terms parent d) d.signing_key i.now_issued
        ≡ ok child)
      × (assert_grant_narrower_or_equal child parent ≡ ok tt)
      × (v.grant_store ≡ record_grant_lineage child w.grant_store)
unfolding delegate keep_lineage
delegate-ok c i parent child d w v h =
    let (g, a, k) =
      lift_then
        (issue_grant i.texts c.grant_hash i.sign (delegated_terms parent d) d.signing_key
          i.now_issued)
        _ w h in
    let (u, b, l) = attempt_then _ (assert_grant_narrower_or_equal g parent) _ w k in
    let same : g ≡ child = ground arith in
    (ground (arith, a, same), ground (arith, b, same), ground arith)

recorded_parent :
    (c : Context) (i : Issuing) (parent child : ExecutionGrant) (d : Delegated) (w v : Control)
    → IsIssued c.grant_hash i.sign (delegated_terms parent d) d.signing_key i.now_issued child
    → v.grant_store ≡ record_grant_lineage child w.grant_store
    → get_parent_grant_id child.grant_id v.grant_store ≡ some parent.grant_id
unfolding record_grant_lineage record_lineage get_parent_grant_id delegated_terms
recorded_parent c i parent child d w v issued h =
    let below : child.parent_grant_id ≡ some parent.grant_id = rw issued.fields refl in
    rw (h, below)
      (ground (arith, get-put_self child.grant_id (some parent.grant_id) w.grant_store.lineage))

-- An allow-list keeps within the parent's, where the parent has one.
abbrev pub ListWithin : Option (List ℕ) → Option (List ℕ) → Type 0
ListWithin child none = Unit
ListWithin none (some parent) = ⊥
ListWithin (some child) (some parent) = is_subset child parent ≡ true

-- A cap keeps within the parent's, in its currency, where the parent has one.
abbrev pub CapWithin : Option MonetaryAmount → Option MonetaryAmount → Type 0
CapWithin child none = Unit
CapWithin none (some parent) = ⊥
CapWithin (some child) (some parent) =
    (child.currency ≡ parent.currency) × (child.minor_units ≤ parent.minor_units)

-- A child grant within its parent on every dimension that is compared.
pub record IsWithin (child parent : ExecutionGrant) : Type 0 where
  pub expiry : child.expires_at ≤ parent.expires_at
  pub start : parent.not_before ≤ child.not_before
  pub uses : child.max_uses ≤ parent.max_uses
  pub audience : is_subset child.audience parent.audience ≡ true
  pub effects : is_subset child.allowed_effect_types parent.allowed_effect_types ≡ true
  pub resources : ListWithin child.scope.target_resources parent.scope.target_resources
  pub recipients : ListWithin child.scope.recipients parent.scope.recipients
  pub amount : CapWithin child.scope.max_amount parent.scope.max_amount
  pub fields : ListWithin child.scope.allowed_fields parent.scope.allowed_fields
  pub environments : ListWithin child.scope.environments parent.scope.environments
  pub budget :
      (parent.authority_budget_id ≡ none) ⊎ (child.authority_budget_id ≡ parent.authority_budget_id)

allow_list-ListWithin :
    (child parent : Option (List ℕ))
    → assert_allow_list child parent ≡ ok tt
    → ListWithin child parent
unfolding assert_allow_list
allow_list-ListWithin child none h = tt
allow_list-ListWithin none (some p) h = absurd (ground arith)
allow_list-ListWithin (some c) (some p) h = ground arith

amount-CapWithin :
    (child parent : Option MonetaryAmount)
    → assert_amount child parent ≡ ok tt
    → CapWithin child parent
unfolding assert_amount
amount-CapWithin child none h = tt
amount-CapWithin none (some p) h = absurd (ground arith)
amount-CapWithin (some c) (some p) h = ground arith

narrower-IsWithin :
    (child parent : ExecutionGrant) → IsNarrower child parent → IsWithin child parent
narrower-IsWithin child parent n = record {
  expiry = n.expiry;
  start = n.start;
  uses = n.uses;
  audience = allow_list-ListWithin (some child.audience) (some parent.audience) n.audience;
  effects =
      allow_list-ListWithin (some child.allowed_effect_types) (some parent.allowed_effect_types)
        n.effects;
  resources = allow_list-ListWithin _ _ n.resources;
  recipients = allow_list-ListWithin _ _ n.recipients;
  amount = amount-CapWithin _ _ n.amount;
  fields = allow_list-ListWithin _ _ n.fields;
  environments = allow_list-ListWithin _ _ n.environments;
  budget = budget_kept child.authority_budget_id parent.authority_budget_id n.budget;
}

-- When `delegate` returns a child, its issuer is no agent, the child keeps within
-- the parent in its window, uses, audience, effect types and every dimension of its scope, and has the
-- parent's budget if the parent has one, the store has the parent on record for it, and it carries the signature of the signing key over the digest of
-- everything but the signature.
pub delegated_grant_attenuates :
    (c : Context) (i : Issuing) (parent child : ExecutionGrant) (d : Delegated) (w v : Control)
    → delegate c i parent d w ≡ (ok child, v)
    → (is_agent child.issuer.principal_type ≡ false)
      × IsWithin child parent
      × (get_parent_grant_id child.grant_id v.grant_store ≡ some parent.grant_id)
      × (child.signature
          ≡ some
              (i.sign d.signing_key.private_key (c.grant_hash (record child { signature = none }))))
unfolding delegated_terms
delegated_grant_attenuates c i parent child d w v h =
    let (made, narrower, kept) = delegate-ok c i parent child d w v h in
    let issued =
      issue-IsIssued i.texts c.grant_hash i.sign (delegated_terms parent d) d.signing_key
        i.now_issued child made in
    (
      rw issued.fields issued.issuer,
      narrower-IsWithin child parent (accepted-IsNarrower child parent narrower),
      recorded_parent c i parent child d w v issued kept,
      rw issued.fields refl,
    )

-- A child that `delegate` returns verifies exactly while the time lies in its window, widened by the
-- leeway, where the ring holds the public part of the signing key under its identifier.
pub delegate-verify :
    (digest : ExecutionGrant → ℕ) (c : Context) (i : Issuing) (parent child : ExecutionGrant)
    (d : Delegated) (key : VerificationKey) (w v : Control) (now : ℕ)
    → c.grant_hash ≡ canonical_hash digest
    → IsKeyPair c.check i.sign d.signing_key key
    → get d.signing_key.key_id c.keyring ≡ some key
    → delegate c i parent d w ≡ (ok child, v)
    → (verify_grant c.check c.grant_hash child c.keyring now c.leeway ≡ ok tt)
      ↔ ((child.not_before ≤ now + c.leeway) × (now ≤ child.expires_at + c.leeway))
delegate-verify digest c i parent child d key w v now hashed pair held h =
    let (made, narrower, kept) = delegate-ok c i parent child d w v h in
    rw hashed (
      issue-verify i.texts digest i.sign c.check c.keyring (delegated_terms parent d) d.signing_key
        key i.now_issued now c.leeway child pair held (rw (sym hashed) made))

-- What `delegate` returns is bound to the manifest that the call names, if it names one, whatever the
-- parent is bound to; and in an engine without a tenant it passes the checks of the policy bundle,
-- the decision envelope and the causal graph with none of them presented.
pub delegation_drops_bindings :
    (c : Context) (i : Issuing) (parent child : ExecutionGrant) (d : Delegated) (w v : Control)
    (m : EffectManifest) (presented : ℕ)
    → c.tenant_id ≡ none
    → delegate c i parent d w ≡ (ok child, v)
    → (child.manifest_hash ≡ d.manifest_hash)
      × (policy_check c child.policy_bundle_hash none ≡ passes tt)
      × (envelope_check c m child.decision_envelope_hash none ≡ passes tt)
      × (plan_check c presented child.causal_graph_hash none ≡ passes tt)
unfolding policy_check unbound_policy envelope_check plan_check delegated_terms
delegation_drops_bindings c i parent child d w v m presented alone h =
    let (made, narrower, kept) = delegate-ok c i parent child d w v h in
    let issued =
      issue-IsIssued i.texts c.grant_hash i.sign (delegated_terms parent d) d.signing_key
        i.now_issued child made in
    rw (issued.fields, alone) (refl, refl, refl, refl)
