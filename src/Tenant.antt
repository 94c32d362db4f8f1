-- ===== src/Tenant.antt =====
-- tenant/model.py, tenant/registry.py and tenant/enforce.py: tenants and the tests that keep them
-- apart. A tenant's display name and creation time are shown to people only.
pub mod Isolation
use chitragupta_protocol.Base.{ℕ, Bool, true, false, Option, none, some, ◌!=◌, ◌==◌, if◌then◌else◌}
use chitragupta_protocol.Base.Dict.{Dict, get, put}
use chitragupta_protocol.Errors.{
  tenant_isolation_error, unknown_tenant_error, Result, ok, err, or_raise, raise_if, ◌>>=◌, ◌>>◌,
}

pub data TenantStatus : Type 0 where
  active suspended : TenantStatus

abbrev pub is_suspended : TenantStatus → Bool
is_suspended active = false
is_suspended suspended = true

pub record Tenant : Type 0 where
  pub tenant_id : ℕ
  pub status : TenantStatus

abbrev pub TenantRegistry : Type 0
TenantRegistry = Dict Tenant

unfoldable pub register_tenant : Tenant → TenantRegistry → TenantRegistry
register_tenant t tenants = put t.tenant_id t tenants

unfoldable pub require_tenant : ℕ → TenantRegistry → Result Tenant
require_tenant tenant_id tenants = do
  t ← or_raise (get tenant_id tenants) unknown_tenant_error
  raise_if (is_suspended t.status) tenant_isolation_error
  ok t

unfoldable pub suspend_tenant : ℕ → TenantRegistry → Result TenantRegistry
suspend_tenant tenant_id tenants = do
  t ← or_raise (get tenant_id tenants) unknown_tenant_error
  ok (put tenant_id (record t { status = suspended }) tenants)

-- The identifier arrives stripped of blanks: 0 is a blank one.
unfoldable pub require_active_tenant : Option TenantRegistry → Option ℕ → Result Tenant
unfolding require_tenant
require_active_tenant none tenant_id = err tenant_isolation_error
require_active_tenant (some tenants) none = err tenant_isolation_error
require_active_tenant (some tenants) (some tenant_id) = do
  raise_if (tenant_id == 0) tenant_isolation_error
  require_tenant tenant_id tenants

unfoldable pub assert_tenant_match : Option ℕ → Option ℕ → Result (Unit {0})
assert_tenant_match none none = ok tt
assert_tenant_match none (some presented) = err tenant_isolation_error
assert_tenant_match (some expected) none = err tenant_isolation_error
assert_tenant_match (some expected) (some presented) =
    raise_if (expected != presented) tenant_isolation_error

unfoldable pub bind_engine_and_policy_tenant : Option ℕ → Option ℕ → Result (Unit {0})
bind_engine_and_policy_tenant engine_tenant_id policy_tenant_id =
    assert_tenant_match engine_tenant_id policy_tenant_id
