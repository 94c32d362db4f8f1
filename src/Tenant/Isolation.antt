-- ===== src/Tenant/Isolation.antt =====
-- tenant/enforce.py and tenant/registry.py: what the tests let through.
use chitragupta_protocol.Base.{
  ℕ, ◌≡◌, ◌↔◌, Option, none, some, arith, Option-cases, inl, inr, if◌then◌else◌, ◌==◌,
}
use chitragupta_protocol.Base.Dict.{get, put, get-put}
use chitragupta_protocol.Errors.{ok, err, tenant_isolation_error}
use chitragupta_protocol.Tenant.{
  TenantRegistry, suspended, assert_tenant_match, bind_engine_and_policy_tenant, require_tenant,
  suspend_tenant,
}

-- The engine's tenant and the policy's match exactly if both are unset or both are the same.
pub tenant_match_iff :
    (expected presented : Option ℕ)
    → (bind_engine_and_policy_tenant expected presented ≡ ok tt) ↔ (expected ≡ presented)
unfolding bind_engine_and_policy_tenant assert_tenant_match
tenant_match_iff none none = ground arith
tenant_match_iff none (some p) = ground arith
tenant_match_iff (some e) none = ground arith
tenant_match_iff (some e) (some p) = ground arith

-- A tenant that was suspended is refused, and every other tenant is judged as before.
pub require_tenant-suspend_tenant :
    (t j : ℕ) (tenants after : TenantRegistry)
    → suspend_tenant t tenants ≡ ok after
    → require_tenant j after
      ≡ (if t == j then err tenant_isolation_error else require_tenant j tenants)
unfolding suspend_tenant require_tenant
require_tenant-suspend_tenant t j tenants after h = elim (Option-cases (get t tenants)) [
  | inl e ↦ absurd (ground arith)
  | inr (x, e) ↦
      let suspended_row : put t (record x { status = suspended }) tenants ≡ after = ground arith in
      rw (← suspended_row) (ground (arith, get-put j t (record x { status = suspended }) tenants))
]
