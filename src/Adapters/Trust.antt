-- ===== src/Adapters/Trust.antt =====
-- adapters/registry.py: the registry against the plain map of the capabilities that are trusted.
use chitragupta_protocol.Base.{
  ℕ, ◌≡◌, refl, ◌∙◌, true, false, Option, none, some, List, [], ◌∷◌, arith, if◌then◌else◌,
  Option-cases, inl, inr,
}
use chitragupta_protocol.Domain.{AdapterIdentity}
use chitragupta_protocol.Errors.{untrusted_adapter_error, Result, ok, err, or_raise}
use chitragupta_protocol.Adapters.{
  AdapterCapability, RegistryEntry, TrustedAdapterRegistry, same_identity, lookup, store_entry,
  register_adapter, revoke_adapter, require_adapter,
}

pub lookup-store :
    (j key : AdapterIdentity) (e : RegistryEntry) (entries : TrustedAdapterRegistry)
    → lookup j (store_entry key e entries)
      ≡ (if same_identity key j then some e else lookup j entries)
unfolding lookup store_entry
lookup-store j key e [] = refl
lookup-store j key e ((k, old) ∷ entries) = ground (arith, lookup-store j key e entries)

-- The operators' calls: a registration, and a revocation at a time.
pub data Call : Type 0 where
  registers : AdapterCapability → Call
  revokes : AdapterIdentity → ℕ → Call

-- A revocation that raises leaves the registry as it is.
abbrev pub kept : TrustedAdapterRegistry → Result TrustedAdapterRegistry → TrustedAdapterRegistry
kept entries (ok after) = after
kept entries (err e) = entries

unfoldable pub run : TrustedAdapterRegistry → List Call → TrustedAdapterRegistry
run entries [] = entries
run entries (registers c ∷ cs) = run (register_adapter c entries) cs
run entries (revokes key at ∷ cs) = run (kept entries (revoke_adapter key at entries)) cs

-- What is promised: the trusted capability of each identity, if any.
abbrev pub Trusted : Type 0
Trusted = AdapterIdentity → Option AdapterCapability

abbrev pub trust_of : Option RegistryEntry → Option AdapterCapability
trust_of none = none
trust_of (some e) = if e.revoked then none else some e.capability

abbrev pub view : TrustedAdapterRegistry → Trusted
view entries j = trust_of (lookup j entries)

-- A registration trusts the capability under its identity; a revocation leaves the identity without.
unfoldable pub promise : Trusted → List Call → Trusted
promise t [] j = t j
promise t (registers c ∷ cs) j =
    promise (λ k. if same_identity c.identity k then some c else t k) cs j
promise t (revokes key at ∷ cs) j = promise (λ k. if same_identity key k then none else t k) cs j

promise-same :
    (cs : List Call) (t u : Trusted) (j : AdapterIdentity)
    → ((k : AdapterIdentity) → t k ≡ u k)
    → promise t cs j ≡ promise u cs j
unfolding promise
promise-same [] t u j h = h j
promise-same (registers c ∷ cs) t u j h =
    promise-same cs _ _ j (λ (k : AdapterIdentity). ground (arith, h k))
promise-same (revokes key at ∷ cs) t u j h =
    promise-same cs _ _ j (λ (k : AdapterIdentity). ground (arith, h k))

lookup-same :
    (a b : AdapterIdentity) (entries : TrustedAdapterRegistry)
    → same_identity a b ≡ true
    → lookup a entries ≡ lookup b entries
unfolding lookup
lookup-same a b [] h = refl
lookup-same a b ((k, e) ∷ entries) h = ground (arith, lookup-same a b entries)

revoked-view :
    (key k : AdapterIdentity) (at : ℕ) (entries : TrustedAdapterRegistry)
    → view (kept entries (revoke_adapter key at entries)) k
      ≡ (if same_identity key k then none else view entries k)
unfolding revoke_adapter
revoked-view key k at entries = elim (Option-cases (lookup key entries)) [
  | inl unknown ↦ ground (arith, lookup-same key k entries)
  | inr (x, known) ↦
      ground (arith, lookup-store k key (record x { revoked = true; revoked_at = some at }) entries)
]

run-promise :
    (cs : List Call) (entries : TrustedAdapterRegistry) (j : AdapterIdentity)
    → view (run entries cs) j ≡ promise (view entries) cs j
unfolding run promise register_adapter
run-promise [] entries j = refl
run-promise (registers c ∷ cs) entries j =
    let e : RegistryEntry = record { capability = c; revoked = false; revoked_at = none } in
    run-promise cs (store_entry c.identity e entries) j
    ∙ promise-same cs _ _ j
        λ (k : AdapterIdentity). ground (arith, lookup-store k c.identity e entries)
run-promise (revokes key at ∷ cs) entries j =
    run-promise cs (kept entries (revoke_adapter key at entries)) j
    ∙ promise-same cs _ _ j (λ (k : AdapterIdentity). revoked-view key k at entries)

-- After any sequence of registrations and revocations over an empty registry, an adapter is required
-- with success exactly as the plain map says in which a registration sets the capability of its
-- identity and a revocation clears it: it yields the capability last registered and not revoked since,
-- and is refused otherwise.
pub registry_refines :
    (cs : List Call) (j : AdapterIdentity)
    → require_adapter j (run [] cs) ≡ or_raise (promise (λ _. none) cs j) untrusted_adapter_error
unfolding require_adapter lookup
registry_refines cs j =
    let same : view (run [] cs) j ≡ promise (λ _. none) cs j = run-promise cs [] j in
    elim (Option-cases (lookup j (run [] cs))) [ inl e ↦ ground arith | inr (x, e) ↦ ground arith ]
