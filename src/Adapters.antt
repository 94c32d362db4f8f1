-- ===== src/Adapters.antt =====
-- adapters/base.py: what an adapter answers. adapters/registry.py: the allow-list of adapters by exact identifier and version. Capability facts
-- that only advice reads, and the validators, are left out. The registry's lock makes each method a
-- step.
pub mod Trust
use chitragupta_protocol.Base.{
  ℕ, Bool, true, false, Option, none, some, List, [], ◌∷◌, ◌==◌, ◌&&◌, if◌then◌else◌, not, contains,
}
use chitragupta_protocol.Domain.{AdapterIdentity}
use chitragupta_protocol.Grants.{ExecutionGrant}
use chitragupta_protocol.Manifest.{EffectManifest}
use chitragupta_protocol.Errors.{
  untrusted_adapter_error, Result, ok, err, or_raise, raise_if, ◌>>=◌, ◌>>◌,
}

-- `CommitResult` and `OutcomeProof`, of which the engine reads these fields.
pub record CommitResult : Type 0 where
  pub success : Bool
  pub provider_reference : Option ℕ

pub record OutcomeProof : Type 0 where
  pub matched_expected : Bool
  pub observed_after_state_digest : Option ℕ

-- An adapter is not the engine's code: it is what its methods answer, or raise, in one call of the
-- engine.
pub record EffectAdapter : Type 0 where
  pub identity : AdapterIdentity
  pub validate_preconditions : EffectManifest → Result Bool
  pub perform : EffectManifest → ExecutionGrant → Result CommitResult
  pub observe : EffectManifest → Result OutcomeProof

pub record AdapterCapability : Type 0 where
  pub identity : AdapterIdentity
  pub supported_effect_types : List ℕ
  pub environments : List ℕ

pub record RegistryEntry : Type 0 where
  pub capability : AdapterCapability
  pub revoked : Bool
  pub revoked_at : Option ℕ

-- The entries, by `(adapter_id, adapter_version)`, in the order of their first registration.
abbrev pub TrustedAdapterRegistry : Type 0
TrustedAdapterRegistry = List (AdapterIdentity × RegistryEntry)

-- Equality of the keys: both texts are the same.
abbrev pub same_identity : AdapterIdentity → AdapterIdentity → Bool
same_identity a b = a.adapter_id == b.adapter_id && a.adapter_version == b.adapter_version

unfoldable pub lookup : AdapterIdentity → TrustedAdapterRegistry → Option RegistryEntry
lookup key [] = none
lookup key ((k, e) ∷ entries) = if same_identity k key then some e else lookup key entries

-- `self._entries[key] = entry`
unfoldable pub store_entry :
    AdapterIdentity → RegistryEntry → TrustedAdapterRegistry → TrustedAdapterRegistry
store_entry key e [] = (key, e) ∷ []
store_entry key e ((k, old) ∷ entries) =
    if same_identity k key then (key, e) ∷ entries else (k, old) ∷ store_entry key e entries

unfoldable pub register_adapter :
    AdapterCapability → TrustedAdapterRegistry → TrustedAdapterRegistry
register_adapter capability entries =
    store_entry capability.identity
      (record { capability = capability; revoked = false; revoked_at = none }) entries

unfoldable pub revoke_adapter :
    AdapterIdentity → ℕ → TrustedAdapterRegistry → Result TrustedAdapterRegistry
revoke_adapter key revoked_at entries = do
  existing ← or_raise (lookup key entries) untrusted_adapter_error
  ok (store_entry key (record existing { revoked = true; revoked_at = some revoked_at }) entries)

unfoldable pub is_trusted : AdapterIdentity → TrustedAdapterRegistry → Bool
is_trusted key entries = elim (lookup key entries) [ none ↦ false | some e ↦ not e.revoked ]

-- `require`, and `require_adapter` of an adapter's own identifier and version
unfoldable pub require_adapter : AdapterIdentity → TrustedAdapterRegistry → Result AdapterCapability
require_adapter key entries = do
  e ← or_raise (lookup key entries) untrusted_adapter_error
  raise_if e.revoked untrusted_adapter_error
  ok e.capability

unfoldable pub require_effect :
    AdapterIdentity → ℕ → TrustedAdapterRegistry → Result AdapterCapability
require_effect key effect_type entries = do
  capability ← require_adapter key entries
  raise_if (not (contains capability.supported_effect_types effect_type)) untrusted_adapter_error
  ok capability

abbrev pub is_empty : List ℕ → Bool
is_empty [] = true
is_empty (x ∷ xs) = false

unfoldable pub require_environment :
    AdapterIdentity → ℕ → TrustedAdapterRegistry → Result AdapterCapability
require_environment key environment entries = do
  capability ← require_adapter key entries
  raise_if
      (not (is_empty capability.environments) && not (contains capability.environments environment))
      untrusted_adapter_error
  ok capability
