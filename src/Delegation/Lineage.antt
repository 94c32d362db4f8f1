-- ===== src/Delegation/Lineage.antt =====
-- engine/core.py (`_record_grant_lineage`): what the engine records of a grant's parent, and what it
-- means for the search of delegation/revocation.py.
use chitragupta_protocol.Base.{
  ℕ, zero, suc, ◌≡◌, ◌≢◌, Option, none, some, List, [], ◌∷◌, ◌++◌, arith, Option-cases, inl, inr,
}
use chitragupta_protocol.Base.Dict.{get, get-put, get-empty}
use chitragupta_protocol.Errors.{ok}
use chitragupta_protocol.Grants.{ExecutionGrant}
use chitragupta_protocol.GrantStore.{
  GrantStore, empty, get_parent_grant_id, has_lineage, reserve, release, commit, revoke,
  record_idempotent_outcome, record_lineage,
}
use chitragupta_protocol.Delegation.{walk, assert_no_revoked_ancestors}

unfoldable pub record_grant_lineage : ExecutionGrant → GrantStore → GrantStore
record_grant_lineage g store = elim g.parent_grant_id [
  | none ↦ store
  | some p ↦ record_lineage g.grant_id (some p) store
]

-- What the engine does with its grant store.
pub data Action : Type 0 where
  issues : ExecutionGrant → Action
  reserves : ℕ → ℕ → Action
  releases : ℕ → Action
  commits : ℕ → ℕ → ℕ → Action
  revokes : ℕ → Action
  records_outcome : ℕ → ℕ → Action

unfoldable pub act : GrantStore → Action → GrantStore
act st (issues g) = record_grant_lineage g st
act st (reserves g n) = (reserve g n st).1
act st (releases g) = release g st
act st (commits g k o) = (commit g k o st).1
act st (revokes g) = revoke g st
act st (records_outcome k o) = record_idempotent_outcome k o st

unfoldable pub acts : GrantStore → List Action → GrantStore
acts st [] = st
acts st (a ∷ actions) = acts (act st a) actions

-- No grant is recorded as a root.
abbrev HasNoRoot : GrantStore → Type 0
HasNoRoot st = (g : ℕ) → get g st.lineage ≢ some none

act-HasNoRoot : (st : GrantStore) (a : Action) → HasNoRoot st → HasNoRoot (act st a)
unfolding act record_grant_lineage reserve release commit revoke record_idempotent_outcome
    record_lineage
act-HasNoRoot st (issues g) i x = elim (Option-cases g.parent_grant_id) [
  | inl e ↦ ground (arith, e, i x)
  | inr (p, e) ↦ ground (arith, e, i x, get-put x g.grant_id (some p) st.lineage)
]
act-HasNoRoot st (reserves g n) i x = ground (arith, i x)
act-HasNoRoot st (releases g) i x = elim (Option-cases (get g st.slots)) [
  | inl e ↦ ground (arith, e, i x)
  | inr (s, e) ↦ ground (arith, e, i x)
]
act-HasNoRoot st (commits g k o) i x = elim (Option-cases (get g st.slots)) [
  | inl e ↦ ground (arith, e, i x)
  | inr (s, e) ↦ ground (arith, e, i x)
]
act-HasNoRoot st (revokes g) i x = i x
act-HasNoRoot st (records_outcome k o) i x = i x

acts-HasNoRoot :
    (st : GrantStore) (actions : List Action) → HasNoRoot st → HasNoRoot (acts st actions)
unfolding acts
acts-HasNoRoot st [] i = i
acts-HasNoRoot st (a ∷ actions) i = acts-HasNoRoot (act st a) actions (act-HasNoRoot st a i)

walk_fails :
    (st : GrantStore) (left p : ℕ) (seen checked found : List ℕ)
    → HasNoRoot st
    → walk st left (some p) seen checked ≢ ok found
unfolding walk get_parent_grant_id has_lineage
walk_fails st zero p seen checked found i h = ground arith
walk_fails st (suc left) p seen checked found i h = elim (Option-cases (get p st.lineage)) [
  | inl e ↦ ground arith
  | inr (none, e) ↦ i p e
  | inr (some q, e) ↦ ground (arith, walk_fails st left q (p ∷ seen) (checked ++ p ∷ []) found i)
]

-- Whatever the engine has issued, reserved, committed and revoked over a fresh grant store, the search
-- of the recorded ancestors passes for no grant that has a parent: the engine records no root.
pub delegated_grants_refused :
    (actions : List Action) (g : ExecutionGrant) (p max_depth : ℕ) (found : List ℕ)
    → g.parent_grant_id ≡ some p
    → assert_no_revoked_ancestors g (acts empty actions) max_depth ≢ ok found
unfolding assert_no_revoked_ancestors
delegated_grants_refused actions g p max_depth found e h =
    let rootless : HasNoRoot (acts empty actions) =
      acts-HasNoRoot empty actions
        (unfold empty in λ x. ground (arith, get-empty {V = Option ℕ} x)) in
    ground
      (arith, e, walk_fails (acts empty actions) max_depth p (g.grant_id ∷ []) [] found rootless)
