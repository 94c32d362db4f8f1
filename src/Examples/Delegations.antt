-- ===== src/Examples/Delegations.antt =====
-- delegation/: the theorems on a root grant and a grant delegated from it.
use chitragupta_protocol.Base.{
  ◌≡◌, ◌≢◌, ◌≤◌, ◌⊎◌, refl, true, false, none, some, List, [], ◌∷◌, arith, All,
}
use chitragupta_protocol.Base.Dict.{get}
use chitragupta_protocol.Crypto.{verify}
use chitragupta_protocol.Domain.{assert_supported_schema_version, assert_supported_algorithm}
use chitragupta_protocol.Errors.{ok}
use chitragupta_protocol.Grants.{verify_grant, verify_grant_signature, verify_grant_time_window}
use chitragupta_protocol.GrantStore.{
  GrantStore, empty, is_revoked, get_parent_grant_id, has_lineage,
}
use chitragupta_protocol.Delegation.{
  assert_allow_list, assert_amount, assert_scope_narrower_or_equal, assert_budget,
  assert_grant_narrower_or_equal, verify_each, verify_links, verify_delegation_chain, walk,
  assert_no_revoked_ancestors,
}
use chitragupta_protocol.Delegation.Attenuation.{Request, Allows, narrower_sound}
use chitragupta_protocol.Delegation.Chain.{IsLinked, IsUsable, chain_sound}
use chitragupta_protocol.Delegation.Lineage.{
  Action, issues, revokes, acts, delegated_grants_refused,
}
use chitragupta_protocol.Delegation.Revocation.{
  here, IsClearLine, IsRecorded, no_revoked_ancestors_sound, no_revoked_ancestors_complete,
  revoked_ancestor_blocks,
}
use chitragupta_protocol.Examples.{check, grant_hash, keys, root_grant, child_grant}

accepted : assert_grant_narrower_or_equal child_grant root_grant ≡ ok tt
unfolding assert_grant_narrower_or_equal assert_scope_narrower_or_equal assert_allow_list
    assert_amount assert_budget
accepted = refl

-- 250 units of currency 9 to resource 10.
abbrev request : Request
request = record {
  resource = 10;
  recipient = 44;
  amount = record { currency = 9; minor_units = 250 };
  field_name = 1;
  environment = 1;
  adapter_id = 20;
  effect_type = 30;
  time = 120;
}

allowed : Allows child_grant request
allowed = record {
  resource = refl;
  recipient = tt;
  amount = (refl, omega arith);
  field_name = tt;
  environment = tt;
  adapter = refl;
  effect = refl;
  started = omega arith;
  unexpired = omega arith;
}

narrower_sound_example :
    Allows root_grant request
    × (1 ≤ 2)
    × ((root_grant.authority_budget_id ≡ none)
        ⊎ (child_grant.authority_budget_id ≡ root_grant.authority_budget_id))
narrower_sound_example = narrower_sound child_grant root_grant request accepted allowed

chain_passes :
    verify_delegation_chain check grant_hash keys empty 120 5 (root_grant ∷ child_grant ∷ [])
    ≡ ok tt
unfolding verify_delegation_chain verify_each verify_grant verify_grant_signature
    assert_supported_schema_version assert_supported_algorithm verify get verify_grant_time_window
    is_revoked empty verify_links assert_grant_narrower_or_equal assert_allow_list
    assert_scope_narrower_or_equal assert_amount assert_budget
chain_passes = refl

chain_sound_example :
    (root_grant.parent_grant_id ≡ none)
    × IsLinked root_grant (child_grant ∷ [])
    × All (IsUsable check grant_hash keys empty 120 5) (root_grant ∷ child_grant ∷ [])
    × (assert_grant_narrower_or_equal child_grant root_grant ≡ ok tt)
chain_sound_example =
    chain_sound check grant_hash keys empty 120 5 root_grant (child_grant ∷ []) chain_passes

-- The lineage as it is meant to be recorded: grant 1 a root, grant 2 below it.
abbrev recorded : GrantStore
recorded = record { slots = []; idempotency = []; lineage = (1, none) ∷ (2, some 1) ∷ [] }

abbrev revoked : GrantStore
revoked = record recorded {
  slots = (1, record { max_uses = 2; uses = 0; revoked = true; reserved = false }) ∷ [];
}

search_passes : assert_no_revoked_ancestors child_grant recorded 16 ≡ ok (1 ∷ [])
unfolding assert_no_revoked_ancestors walk is_revoked get get_parent_grant_id has_lineage
search_passes = refl

no_revoked_ancestors_sound_example :
    IsClearLine recorded (some 1) (1 ∷ []) × IsRecorded recorded (1 ∷ []) × (1 ≤ 16) × (16 ≤ 16)
no_revoked_ancestors_sound_example =
    no_revoked_ancestors_sound child_grant recorded 16 search_passes

line : IsClearLine recorded (some 1) (1 ∷ [])
unfolding is_revoked get_parent_grant_id get
line = (refl, refl, tt)

in_record : IsRecorded recorded (1 ∷ [])
unfolding has_lineage get
in_record = (refl, tt)

no_revoked_ancestors_complete_example :
    assert_no_revoked_ancestors child_grant recorded 16 ≡ ok (1 ∷ [])
no_revoked_ancestors_complete_example =
    no_revoked_ancestors_complete child_grant recorded 16 (1 ∷ []) (omega arith) (omega arith) line
      (refl, tt) in_record (omega arith)

root_revoked : is_revoked 1 revoked ≡ true
unfolding is_revoked get
root_revoked = refl

revoked_ancestor_blocks_example : assert_no_revoked_ancestors child_grant revoked 16 ≢ ok []
revoked_ancestor_blocks_example =
    revoked_ancestor_blocks child_grant revoked 1 16 [] (here 1) root_revoked

abbrev issued : List Action
issued = issues root_grant ∷ issues child_grant ∷ revokes 9 ∷ []

delegated_grants_refused_example :
    assert_no_revoked_ancestors child_grant (acts empty issued) 16 ≢ ok (1 ∷ [])
delegated_grants_refused_example = delegated_grants_refused issued child_grant 1 16 (1 ∷ []) refl
