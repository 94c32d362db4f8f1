-- ===== src/Delegation.antt =====
-- delegation/attenuation.py, delegation/chain.py and delegation/revocation.py: a child grant may only
-- narrow its parent, a chain of grants is verified hop by hop, and a grant's recorded ancestors are
-- searched for a revoked one.
pub mod Attenuation
pub mod Chain
pub mod Revocation
pub mod Lineage
use chitragupta_protocol.Base.{
  ℕ, ◌+◌, ◌-◌, Bool, true, false, ◌&&◌, ◌||◌, Option, none, some, List, [], ◌∷◌, ◌++◌, ltb, leb,
  ◌==◌, ◌!=◌, eq_option, is_none, if◌then◌else◌, not, contains, is_subset,
}
use chitragupta_protocol.Crypto.{Keyring, SignatureCheck}
use chitragupta_protocol.Domain.{MonetaryAmount}
use chitragupta_protocol.Errors.{
  Error, delegation_error, delegation_lineage_error, grant_revoked_error, constraint_widening_error,
  incomparable_constraint_error, Result, ok, err, raise_if, ◌>>=◌, ◌>>◌,
}
use chitragupta_protocol.Grants.{ExecutionGrant, ScopeConstraints, verify_grant}
use chitragupta_protocol.GrantStore.{GrantStore, is_revoked, get_parent_grant_id, has_lineage}

-- `_assert_allow_list_narrower_or_equal`, of the child's list and the parent's
unfoldable pub assert_allow_list : Option (List ℕ) → Option (List ℕ) → Result (Unit {0})
assert_allow_list child none = ok tt
assert_allow_list none (some parent) = err constraint_widening_error
assert_allow_list (some child) (some parent) =
    raise_if (not (is_subset child parent)) constraint_widening_error

-- `_assert_amount_narrower_or_equal`
unfoldable pub assert_amount : Option MonetaryAmount → Option MonetaryAmount → Result (Unit {0})
assert_amount child none = ok tt
assert_amount none (some parent) = err constraint_widening_error
assert_amount (some child) (some parent) = do
  raise_if (child.currency != parent.currency) incomparable_constraint_error
  raise_if (ltb parent.minor_units child.minor_units) constraint_widening_error

unfoldable pub assert_scope_narrower_or_equal :
    ScopeConstraints → ScopeConstraints → Result (Unit {0})
assert_scope_narrower_or_equal child parent = do
  assert_allow_list child.target_resources parent.target_resources
  assert_allow_list child.recipients parent.recipients
  assert_amount child.max_amount parent.max_amount
  assert_allow_list child.allowed_fields parent.allowed_fields
  assert_allow_list child.environments parent.environments

-- The budget binding: a parent's may not be dropped or swapped.
unfoldable pub assert_budget : Option ℕ → Option ℕ → Result (Unit {0})
assert_budget child none = ok tt
assert_budget none (some parent) = err constraint_widening_error
assert_budget (some child) (some parent) = raise_if (child != parent) constraint_widening_error

unfoldable pub assert_grant_narrower_or_equal : ExecutionGrant → ExecutionGrant → Result (Unit {0})
assert_grant_narrower_or_equal child parent = do
  raise_if (ltb parent.expires_at child.expires_at) constraint_widening_error
  raise_if (ltb child.not_before parent.not_before) constraint_widening_error
  raise_if (ltb parent.max_uses child.max_uses) constraint_widening_error
  assert_allow_list (some child.audience) (some parent.audience)
  assert_allow_list (some child.allowed_effect_types) (some parent.allowed_effect_types)
  assert_scope_narrower_or_equal child.scope parent.scope
  assert_budget child.authority_budget_id parent.authority_budget_id

module _ (check : SignatureCheck) (grant_hash : ExecutionGrant → ℕ) (keys : Keyring)
    (store : GrantStore) (now leeway : ℕ) where
  -- The loop over the chain that verifies each grant by itself.
  unfoldable pub verify_each : List ExecutionGrant → Result (Unit {0})
  verify_each [] = ok tt
  verify_each (g ∷ gs) = do
    verify_grant check grant_hash g keys now leeway
    raise_if (is_revoked g.grant_id store) grant_revoked_error
    verify_each gs

-- The loop over the pairs of neighbours: the parent, and the grants after it.
unfoldable pub verify_links : ExecutionGrant → List ExecutionGrant → Result (Unit {0})
verify_links parent [] = ok tt
verify_links parent (child ∷ rest) = do
  raise_if (not (eq_option child.parent_grant_id (some parent.grant_id))) delegation_error
  assert_grant_narrower_or_equal child parent
  verify_links child rest

unfoldable pub verify_delegation_chain :
    SignatureCheck
    → (ExecutionGrant → ℕ)
    → Keyring
    → GrantStore
    → ℕ
    → ℕ
    → List ExecutionGrant
    → Result (Unit {0})
verify_delegation_chain check grant_hash keys store now leeway [] = err delegation_error
verify_delegation_chain check grant_hash keys store now leeway (root ∷ rest) = do
  raise_if (not (is_none root.parent_grant_id)) delegation_error
  verify_each check grant_hash keys store now leeway (root ∷ rest)
  verify_links root rest

abbrev pub max_delegation_depth : ℕ
max_delegation_depth = 16

-- The loop of `assert_no_revoked_ancestors`: `left` is `max_depth` less the depth reached, `seen` the
-- grants met, `checked` the ancestors passed.
unfoldable pub walk : GrantStore → ℕ → Option ℕ → List ℕ → List ℕ → Result (List ℕ)
walk store left none seen checked = ok checked
walk store ℕ.zero (some current) seen checked = err delegation_lineage_error
walk store (ℕ.suc left) (some current) seen checked =
    let next = get_parent_grant_id current store in
    let rest = walk store left next (current ∷ seen) (checked ++ current ∷ []) in
    if contains seen current
    then err delegation_lineage_error
    else if is_revoked current store
    then err grant_revoked_error
    else if is_none next && not (has_lineage current store)
    then err delegation_lineage_error
    else rest

unfoldable pub assert_no_revoked_ancestors : ExecutionGrant → GrantStore → ℕ → Result (List ℕ)
assert_no_revoked_ancestors g store max_depth =
    if ltb max_depth 1 || ltb max_delegation_depth max_depth
    then err delegation_lineage_error
    else walk store max_depth g.parent_grant_id (g.grant_id ∷ []) []
