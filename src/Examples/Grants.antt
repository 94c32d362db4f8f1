-- ===== src/Examples/Grants.antt =====
-- grants/ and stores/memory.py: the theorems on one grant, and on a store over a few calls.
use chitragupta_protocol.Base.{
  ℕ, ◌≡◌, ◌≢◌, ◌↔◌, ◌≤◌, refl, true, false, some, List, [], ◌∷◌, arith, All,
}
use chitragupta_protocol.Base.Dict.{get}
use chitragupta_protocol.Errors.{ok}
use chitragupta_protocol.Grants.{verify_grant}
use chitragupta_protocol.Grants.Verify.{IsAuthentic, verify_grant_iff}
use chitragupta_protocol.GrantStore.{empty, reserve, get_use_count}
use chitragupta_protocol.GrantStore.Steps.{Call, reserves, commits, records_lineage, run}
use chitragupta_protocol.GrantStore.Uses.{AsksAtMost, successes, commits_bounded}
use chitragupta_protocol.GrantStore.Exclusion.{IsOtherThan, reserve_excludes}
use chitragupta_protocol.Examples.{check, grant_hash, keys, root_grant}

verify_grant_iff_example :
    (verify_grant check grant_hash root_grant keys 150 5 ≡ ok tt)
    ↔ IsAuthentic check grant_hash root_grant keys 150 5
verify_grant_iff_example = verify_grant_iff check grant_hash root_grant keys 150 5

-- Two callers contend for grant 1, which has two uses; a third one uses grant 2.
abbrev contended : List Call
contended =
    reserves 1 2
    ∷ reserves 1 2
    ∷ commits 1 40 50
    ∷ reserves 2 9
    ∷ reserves 1 2
    ∷ commits 1 41 51
    ∷ reserves 1 2
    ∷ commits 1 42 52
    ∷ []

asked : All (AsksAtMost 1 2) contended
asked = (omega arith, (omega arith, (tt, (tt, (omega arith, (tt, (omega arith, (tt, tt))))))))

commits_bounded_example :
    (get_use_count 1 (run empty contended) ≡ successes 1 empty contended)
    × (successes 1 empty contended ≤ 2)
commits_bounded_example = commits_bounded 1 2 contended asked

abbrev others : List Call
others = reserves 2 1 ∷ commits 2 40 50 ∷ records_lineage 2 (some 1) ∷ reserves 1 2 ∷ []

two_is_not_one : ◌≢◌ {A = ℕ} 2 1
two_is_not_one e = omega arith

held_elsewhere : All (IsOtherThan 1) others
held_elsewhere = (tt, (two_is_not_one, (tt, (tt, tt))))

first_reserves : (reserve 1 2 empty).0 ≡ true
unfolding reserve empty get
first_reserves = refl

reserve_excludes_example : (reserve 1 5 (run (reserve 1 2 empty).1 others)).0 ≡ false
reserve_excludes_example = reserve_excludes 1 2 5 empty others held_elsewhere first_reserves
