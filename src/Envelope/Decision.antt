-- ===== src/Envelope/Decision.antt =====
-- envelope/model.py and envelope/sealing.py: signed decision envelopes, the manifests that fit one,
-- and when one envelope is narrower than another. The validators are left out; `hash` stands for
-- `DecisionEnvelope.canonical_hash`, a digest of every field but the signature.
pub mod Fitting
pub mod Sealing
use chitragupta_protocol.Base.{
  ℕ, Bool, true, false, Option, none, some, List, [], ◌∷◌, ltb, leb, ◌!=◌, ◌||◌, ◌&&◌, eq_option,
  is_none, if◌then◌else◌, not, contains, is_subset, map,
}
use chitragupta_protocol.Base.Dict.{Dict, get}
use chitragupta_protocol.Crypto.{Keyring, SignatureCheck, SigningKey, Signing, verify}
use chitragupta_protocol.Domain.{Principal, AdapterIdentity, MonetaryAmount, is_agent}
use chitragupta_protocol.Envelope.{
  ParameterValue, ParameterConstraint, accepts, assert_constraint_narrower_or_equal,
}
use chitragupta_protocol.Errors.{
  decision_envelope_constraint_error, decision_envelope_mismatch_error, invalid_signature_error,
  decision_envelope_not_yet_valid_error, decision_envelope_expired_error,
  decision_envelope_tampered_error, decision_envelope_issuer_error, incomparable_constraint_error,
  key_error, Result, ok, err, or_raise, raise_if, ◌>>=◌, ◌>>◌,
}
use chitragupta_protocol.Manifest.{EffectManifest}

pub record DecisionEnvelope : Type 0 where
  pub envelope_id : ℕ
  pub effect_type : ℕ
  pub adapter : AdapterIdentity
  pub target_resources : List ℕ
  pub parameter_constraints : Dict ParameterConstraint
  pub forbid_unknown_parameters : Bool
  pub require_all_constrained_parameters : Bool
  pub max_estimated_cost : Option MonetaryAmount
  pub causal_graph_hash : Option ℕ
  pub issuer : Principal
  pub created_at : ℕ
  pub not_before : ℕ
  pub expires_at : ℕ
  pub nonce : ℕ
  pub key_id : ℕ
  pub algorithm : ℕ
  pub signature : Option ℕ

unfoldable pub is_effective_at : DecisionEnvelope → ℕ → Bool
is_effective_at e now = leb e.not_before now && ltb now e.expires_at

-- `build_decision_envelope`, of the envelope as it is to be, unsigned
unfoldable pub build_decision_envelope : DecisionEnvelope → Result DecisionEnvelope
build_decision_envelope e = do
  raise_if (is_agent e.issuer.principal_type) decision_envelope_issuer_error
  ok (record e { signature = none })

module _ (hash : DecisionEnvelope → ℕ) where
  unfoldable pub seal_decision_envelope :
      Signing → DecisionEnvelope → SigningKey → Result DecisionEnvelope
  seal_decision_envelope sign e signing_key = do
    raise_if (e.key_id != signing_key.key_id) invalid_signature_error
    raise_if (not (is_none e.signature)) invalid_signature_error
    ok (record e { signature = some (sign signing_key.private_key (hash e)) })

  unfoldable pub verify_decision_envelope :
      SignatureCheck → DecisionEnvelope → Keyring → ℕ → Result (Unit {0})
  verify_decision_envelope check e keys now = do
    signature ← or_raise e.signature invalid_signature_error
    verify check keys e.key_id (hash e) signature
    raise_if (ltb now e.not_before) decision_envelope_not_yet_valid_error
    raise_if (leb e.expires_at now) decision_envelope_expired_error

  unfoldable pub assert_envelope_integrity : DecisionEnvelope → ℕ → Result (Unit {0})
  assert_envelope_integrity e expected_hash =
      raise_if (hash e != expected_hash) decision_envelope_tampered_error

  unfoldable pub require_matching_envelope_hash : DecisionEnvelope → ℕ → Result (Unit {0})
  require_matching_envelope_hash e expected_hash =
      raise_if (hash e != expected_hash) decision_envelope_mismatch_error

-- The keys of a dict, in its order.
abbrev pub keys_of {ℓ} : {V : Type ℓ} → Dict V → List ℕ
keys_of [] = []
keys_of ((k, v) ∷ d) = k ∷ keys_of d

abbrev pub differs : AdapterIdentity → AdapterIdentity → Bool
differs a b = a.adapter_id != b.adapter_id || a.adapter_version != b.adapter_version

abbrev pub accepts_found : ParameterConstraint → Option ParameterValue → Result (Unit {0})
accepts_found constraint none = ok tt
accepts_found constraint (some v) = accepts constraint v

-- The loop over the constraints: those on a parameter that the manifest has.
unfoldable pub accepts_all : Dict ParameterConstraint → Dict ParameterValue → Result (Unit {0})
accepts_all [] params = ok tt
accepts_all ((key, constraint) ∷ constraints) params = do
  accepts_found constraint (get key params)
  accepts_all constraints params

-- The cost cap: of the cap and the manifest's estimate.
unfoldable pub assert_cost : Option MonetaryAmount → Option MonetaryAmount → Result (Unit {0})
assert_cost none cost = ok tt
assert_cost (some cap_) none = err decision_envelope_constraint_error
assert_cost (some cap_) (some cost) = do
  raise_if (cost.currency != cap_.currency) decision_envelope_constraint_error
  raise_if (ltb cap_.minor_units cost.minor_units) decision_envelope_constraint_error

unfoldable pub assert_manifest_fits_envelope : EffectManifest → DecisionEnvelope → Result (Unit {0})
assert_manifest_fits_envelope m e = do
  raise_if (m.effect_type != e.effect_type) decision_envelope_constraint_error
  raise_if (differs m.adapter e.adapter) decision_envelope_constraint_error
  raise_if (not (contains e.target_resources m.target_resource)) decision_envelope_constraint_error
  raise_if
      (e.forbid_unknown_parameters
        && not (is_subset (keys_of m.parameters) (keys_of e.parameter_constraints)))
      decision_envelope_constraint_error
  raise_if
      (e.require_all_constrained_parameters
        && not (is_subset (keys_of e.parameter_constraints) (keys_of m.parameters)))
      decision_envelope_constraint_error
  accepts_all e.parameter_constraints m.parameters
  assert_cost e.max_estimated_cost m.estimated_cost

-- The cost caps of a child and its parent.
unfoldable pub assert_cap_narrower :
    Option MonetaryAmount → Option MonetaryAmount → Result (Unit {0})
assert_cap_narrower child none = ok tt
assert_cap_narrower none (some parent) = err decision_envelope_constraint_error
assert_cap_narrower (some child) (some parent) = do
  raise_if (child.currency != parent.currency) incomparable_constraint_error
  raise_if (ltb parent.minor_units child.minor_units) decision_envelope_constraint_error

-- The loop over the parent's constraints: each against the child's of the same key.
unfoldable pub narrower_all :
    Dict ParameterConstraint → Dict ParameterConstraint → Result (Unit {0})
narrower_all child [] = ok tt
narrower_all child ((key, parent) ∷ parents) = do
  c ← or_raise (get key child) key_error
  assert_constraint_narrower_or_equal c parent
  narrower_all child parents

unfoldable pub assert_envelope_narrower_or_equal :
    DecisionEnvelope → DecisionEnvelope → Result (Unit {0})
assert_envelope_narrower_or_equal child parent = do
  raise_if (child.effect_type != parent.effect_type) incomparable_constraint_error
  raise_if (differs child.adapter parent.adapter) incomparable_constraint_error
  raise_if (not (is_subset child.target_resources parent.target_resources))
      decision_envelope_constraint_error
  assert_cap_narrower child.max_estimated_cost parent.max_estimated_cost
  raise_if (not (eq_option child.causal_graph_hash parent.causal_graph_hash))
      decision_envelope_constraint_error
  raise_if (parent.forbid_unknown_parameters && not child.forbid_unknown_parameters)
      decision_envelope_constraint_error
  raise_if
      (parent.require_all_constrained_parameters && not child.require_all_constrained_parameters)
      decision_envelope_constraint_error
  raise_if
      (not (is_subset (keys_of parent.parameter_constraints) (keys_of child.parameter_constraints)))
      decision_envelope_constraint_error
  narrower_all child.parameter_constraints parent.parameter_constraints
  raise_if (ltb parent.expires_at child.expires_at) decision_envelope_constraint_error
  raise_if (ltb child.not_before parent.not_before) decision_envelope_constraint_error
