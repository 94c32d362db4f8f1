-- ===== src/Errors.antt =====
-- errors/__init__.py: the exception classes that the modelled code raises, and calls that may raise.
-- A message carries no control flow and is left out.
use chitragupta_protocol.Base.{
  ◌≡◌, refl, ◌⊎◌, inl, inr, Bool, true, false, Option, none, some, arith,
}

pub data Error : Type 0 where
  manifest_tampered_error schema_version_error : Error
  unknown_key_error invalid_signature_error unsupported_algorithm_error : Error
  grant_expired_error grant_not_yet_valid_error grant_revoked_error grant_exhausted_error : Error
  grant_manifest_mismatch_error grant_audience_error : Error
  grant_issuer_not_authorized_error role_assignment_error : Error
  separation_of_duty_violation_error : Error
  delegation_error delegation_lineage_error constraint_widening_error : Error
  incomparable_constraint_error illegal_transition_error stale_manifest_error : Error
  store_unavailable_error audit_tampered_error : Error
  decision_envelope_constraint_error decision_envelope_mismatch_error : Error
  atomic_plan_error authority_budget_error authority_budget_exhausted_error : Error
  saga_plan_error saga_ordering_error saga_illegal_transition_error : Error
  saga_ambiguous_step_error saga_graph_mismatch_error : Error
  policy_bundle_mismatch_error policy_bundle_tampered_error : Error
  policy_bundle_type_mismatch_error : Error
  policy_bundle_not_yet_effective_error policy_bundle_expired_error : Error
  decision_envelope_not_yet_valid_error decision_envelope_expired_error : Error
  decision_envelope_tampered_error decision_envelope_issuer_error : Error
  causal_graph_error adapter_mismatch_error untrusted_adapter_error : Error
  unknown_tenant_error tenant_isolation_error outbox_conflict_error : Error
  approval_expired_error approval_batch_too_large_error : Error
  witness_expired_error witness_batch_too_large_error : Error
  request_too_large_error rate_limit_exceeded_error : Error
  -- Python's own `RuntimeError`, `ValueError`, `KeyError` and `IndexError`, and whatever else an adapter raises.
  runtime_error value_error key_error index_error adapter_exception : Error

-- A call returns a value or raises.
pub data Result {ℓ} (A : Type ℓ) : Type ℓ where
  ok : A → Result A
  err : Error → Result A

infixl 5 ◌>>=◌ ◌>>◌
abbrev pub ◌>>=◌ {ℓ κ} : {A : Type ℓ} {B : Type κ} → Result A → (A → Result B) → Result B
ok a >>= f = f a
err e >>= f = err e

abbrev pub ◌>>◌ {ℓ κ} : {A : Type ℓ} {B : Type κ} → Result A → Result B → Result B
m >> k = m >>= λ _. k

-- `if o is None: raise e`
abbrev pub or_raise {ℓ} : {A : Type ℓ} → Option A → Error → Result A
or_raise none e = err e
or_raise (some a) e = ok a

-- `if test: raise e`
abbrev pub raise_if : Bool → Error → Result (Unit {0})
raise_if true e = err e
raise_if false e = ok tt

-- `isinstance(exc, KarmaSakshiError)`
abbrev pub is_protocol_error : Error → Bool
is_protocol_error runtime_error = false
is_protocol_error value_error = false
is_protocol_error key_error = false
is_protocol_error index_error = false
is_protocol_error adapter_exception = false
is_protocol_error _ = true

abbrev pub is_ok {ℓ} : {A : Type ℓ} → Result A → Bool
is_ok (ok a) = true
is_ok (err e) = false

pub Result-cases {ℓ} :
    {A : Type ℓ} (r : Result A) → ((a : A) × (r ≡ ok a)) ⊎ ((e : Error) × (r ≡ err e))
Result-cases (ok a) = inl (a, refl)
Result-cases (err e) = inr (e, refl)

-- Inversion of a sequence of calls.
pub bind-ok :
    {A B : Type 0} (m : Result A) (f : A → Result B) {b : B}
    → m >>= f ≡ ok b
    → (a : A) × (m ≡ ok a) × (f a ≡ ok b)
bind-ok (ok a) f h = (a, refl, h)
bind-ok (err e) f h = absurd (ground arith)
