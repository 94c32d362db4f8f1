-- ===== src/GrantStore/Exclusion.antt =====
-- stores/memory.py: reservations exclude one another, and a revocation is for good.
use chitragupta_protocol.Base.{
  ℕ, ◌≡◌, ◌≢◌, true, false, Option, none, some, List, [], ◌∷◌, arith, All,
}
use chitragupta_protocol.Base.Dict.{get, get-put}
use chitragupta_protocol.GrantStore.{
  Slot, GrantStore, slot_or, fresh_slot, reserve, revoke, is_revoked,
}
use chitragupta_protocol.GrantStore.Steps.{
  slot_step, step-slot, Call, reserves, releases, commits, revokes, records_outcome,
  records_lineage, step, run,
}

-- A call that gives the reservation of the grant `g` back: its release, or a commit.
abbrev pub IsOtherThan : ℕ → Call → Type 0
IsOtherThan g (releases h) = h ≢ g
IsOtherThan g (commits h k o) = h ≢ g
IsOtherThan g _ = Unit

abbrev pub IsHeld : Option Slot → Type 0
IsHeld none = ⊥
IsHeld (some s) = s.reserved ≡ true

reserve-IsHeld :
    (g n : ℕ) (st : GrantStore)
    → (reserve g n st).0 ≡ true
    → IsHeld (get g (reserve g n st).1.slots)
unfolding reserve
reserve-IsHeld g n st h =
    let slot : Slot = slot_or (get g st.slots) (fresh_slot n) in
    ground (arith, get-put g g (record slot { reserved = true }) st.slots)

slot_step-IsHeld :
    (c : Call) (g : ℕ) (o : Option Slot) → IsOtherThan g c → IsHeld o → IsHeld (slot_step g c o)
slot_step-IsHeld (reserves h m) g o a v = ground arith
slot_step-IsHeld (releases h) g o a v = ground arith
slot_step-IsHeld (commits h k r) g o a v = ground arith
slot_step-IsHeld (revokes h) g o a v = ground arith
slot_step-IsHeld (records_outcome k r) g o a v = v
slot_step-IsHeld (records_lineage h p) g o a v = v

run-IsHeld :
    (st : GrantStore) (cs : List Call) (g : ℕ)
    → All (IsOtherThan g) cs
    → IsHeld (get g st.slots)
    → IsHeld (get g (run st cs).slots)
unfolding run
run-IsHeld st [] g a v = v
run-IsHeld st (c ∷ cs) g a v =
    run-IsHeld (step st c) cs g a.1 (rw step-slot (slot_step-IsHeld c g (get g st.slots) a.0 v))

held-reserve : (g n : ℕ) (st : GrantStore) → IsHeld (get g st.slots) → (reserve g n st).0 ≡ false
unfolding reserve
held-reserve g n st v = ground arith

-- Once a caller holds the reservation of a grant, every other reservation of it is refused, after
-- any calls that do not release or commit that grant.
pub reserve_excludes :
    (g n m : ℕ) (st : GrantStore) (cs : List Call)
    → All (IsOtherThan g) cs
    → (reserve g n st).0 ≡ true
    → (reserve g m (run (reserve g n st).1 cs)).0 ≡ false
reserve_excludes g n m st cs a h =
    held-reserve g m (run (reserve g n st).1 cs)
      (run-IsHeld (reserve g n st).1 cs g a (reserve-IsHeld g n st h))

abbrev IsMarked : Option Slot → Type 0
IsMarked none = ⊥
IsMarked (some s) = s.revoked ≡ true

slot_step-IsMarked : (c : Call) (g : ℕ) (o : Option Slot) → IsMarked o → IsMarked (slot_step g c o)
slot_step-IsMarked (reserves h m) g o v = ground arith
slot_step-IsMarked (releases h) g o v = ground arith
slot_step-IsMarked (commits h k r) g o v = ground arith
slot_step-IsMarked (revokes h) g o v = ground arith
slot_step-IsMarked (records_outcome k r) g o v = v
slot_step-IsMarked (records_lineage h p) g o v = v

run-IsMarked :
    (st : GrantStore) (cs : List Call) (g : ℕ)
    → IsMarked (get g st.slots)
    → IsMarked (get g (run st cs).slots)
unfolding run
run-IsMarked st [] g v = v
run-IsMarked st (c ∷ cs) g v =
    run-IsMarked (step st c) cs g (rw step-slot (slot_step-IsMarked c g (get g st.slots) v))

revoke-IsMarked : (g : ℕ) (st : GrantStore) → IsMarked (get g (revoke g st).slots)
unfolding revoke
revoke-IsMarked g st =
    let slot : Slot = slot_or (get g st.slots) (fresh_slot 0) in
    ground (arith, get-put g g (record slot { revoked = true }) st.slots)

marked-reserve :
    (g n : ℕ) (st : GrantStore)
    → IsMarked (get g st.slots)
    → (is_revoked g st ≡ true) × ((reserve g n st).0 ≡ false)
unfolding is_revoked reserve
marked-reserve g n st v = ground arith

-- Once a grant is revoked it stays so, and no reservation of it succeeds, after any calls.
pub revoke_is_final :
    (g n : ℕ) (st : GrantStore) (cs : List Call)
    → (is_revoked g (run (revoke g st) cs) ≡ true)
      × ((reserve g n (run (revoke g st) cs)).0 ≡ false)
revoke_is_final g n st cs =
    marked-reserve g n (run (revoke g st) cs)
      (run-IsMarked (revoke g st) cs g (revoke-IsMarked g st))
