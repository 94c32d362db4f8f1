-- ===== src/GrantStore/Uses.antt =====
-- stores/memory.py: how often a grant can be used, over any interleaving of calls by any number of callers.
use chitragupta_protocol.Base.{
  ℕ, ◌+◌, ◌≤◌, ◌≡◌, refl, Bool, true, false, Option, none, some, List, [], ◌∷◌, arith, All, ◌==◌,
  if◌then◌else◌,
}
use chitragupta_protocol.Base.Dict.{get, get-empty}
use chitragupta_protocol.Errors.{is_ok}
use chitragupta_protocol.GrantStore.Steps.{
  Call, reserves, releases, commits, revokes, records_outcome, records_lineage, step, run,
  slot_step, step-slot,
}
use chitragupta_protocol.GrantStore.{Slot, GrantStore, empty, commit, get_use_count}

abbrev pub held : Bool → ℕ
held true = 1
held false = 0

-- A slot never promises more uses than its grant has, which are at most `n`.
abbrev pub IsSound : ℕ → Option Slot → Type 0
IsSound n none = Unit
IsSound n (some s) = (s.uses + held s.reserved ≤ s.max_uses) × (s.max_uses ≤ n)

-- A call that reserves the grant `g` names at most `n` uses for it.
abbrev pub AsksAtMost : ℕ → ℕ → Call → Type 0
AsksAtMost g n (reserves h m) = if h == g then m ≤ n else Unit
AsksAtMost g n _ = Unit

slot_step-IsSound :
    (c : Call) (g n : ℕ) (o : Option Slot)
    → AsksAtMost g n c
    → IsSound n o
    → IsSound n (slot_step g c o)
slot_step-IsSound (reserves h m) g n o a v = ground arith
slot_step-IsSound (releases h) g n o a v = ground arith
slot_step-IsSound (commits h k r) g n o a v = ground arith
slot_step-IsSound (revokes h) g n o a v = ground arith
slot_step-IsSound (records_outcome k r) g n o a v = v
slot_step-IsSound (records_lineage h p) g n o a v = v

run-IsSound :
    (st : GrantStore) (cs : List Call) (g n : ℕ)
    → All (AsksAtMost g n) cs
    → IsSound n (get g st.slots)
    → IsSound n (get g (run st cs).slots)
unfolding run
run-IsSound st [] g n a v = v
run-IsSound st (c ∷ cs) g n a v =
    run-IsSound (step st c) cs g n a.1
      (rw step-slot (slot_step-IsSound c g n (get g st.slots) a.0 v))

-- The calls of `commit` for the grant `g` that go through.
abbrev pub counted : ℕ → GrantStore → Call → ℕ
counted g st (commits h k o) = if h == g then (if is_ok (commit h k o st).0 then 1 else 0) else 0
counted g st _ = 0

unfoldable pub successes : ℕ → GrantStore → List Call → ℕ
successes g st [] = 0
successes g st (c ∷ cs) = counted g st c + successes g (step st c) cs

step-counted :
    (g : ℕ) (st : GrantStore) (c : Call)
    → get_use_count g (step st c) ≡ get_use_count g st + counted g st c
unfolding get_use_count commit
step-counted g st (reserves h m) = ground (arith, step-slot st (reserves h m) g)
step-counted g st (releases h) = ground (arith, step-slot st (releases h) g)
step-counted g st (commits h k r) = ground (arith, step-slot st (commits h k r) g)
step-counted g st (revokes h) = ground (arith, step-slot st (revokes h) g)
step-counted g st (records_outcome k r) = ground (arith, step-slot st (records_outcome k r) g)
step-counted g st (records_lineage h p) = ground (arith, step-slot st (records_lineage h p) g)

pub run-counted :
    (g : ℕ) (st : GrantStore) (cs : List Call)
    → get_use_count g (run st cs) ≡ get_use_count g st + successes g st cs
unfolding run successes
run-counted g st [] = omega arith
run-counted g st (c ∷ cs) = omega (arith, run-counted g (step st c) cs, step-counted g st c)

use_count-le : (g n : ℕ) (st : GrantStore) → IsSound n (get g st.slots) → get_use_count g st ≤ n
unfolding get_use_count
use_count-le g n st v = ground arith

use_count-empty : (g : ℕ) → get_use_count g empty ≡ 0
unfolding get_use_count empty
use_count-empty g = rw (get-empty {V = Slot}, get_use_count) refl

-- From an empty store, over any sequence of calls in which a reservation of the grant names at
-- most `n` uses, the commits of the grant that go through are counted and are at most `n`.
pub commits_bounded :
    (g n : ℕ) (cs : List Call)
    → All (AsksAtMost g n) cs
    → (get_use_count g (run empty cs) ≡ successes g empty cs) × (successes g empty cs ≤ n)
unfolding empty
commits_bounded g n cs a =
    let sound : IsSound n (get g (run empty cs).slots) =
      run-IsSound empty cs g n a (rw get-empty tt) in
    let count : get_use_count g (run empty cs) ≡ successes g empty cs =
      omega (arith, run-counted g empty cs, use_count-empty g) in
    (count, omega (arith, count, use_count-le g n (run empty cs) sound))
