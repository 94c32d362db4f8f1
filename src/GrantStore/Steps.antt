-- ===== src/GrantStore/Steps.antt =====
-- The calls that change a grant store, as steps, and what a step does to the slot of one grant.
use chitragupta_protocol.Base.{
  ℕ, ◌+◌, ◌≡◌, refl, true, false, ◌||◌, Option, none, some, List, [], ◌∷◌, arith, leb, ◌==◌,
  if◌then◌else◌, Option-cases, inl, inr,
}
use chitragupta_protocol.Base.Dict.{get, get-put}
use chitragupta_protocol.GrantStore.{
  Slot, GrantStore, slot_or, fresh_slot, reserve, release, commit, revoke,
  record_idempotent_outcome, record_lineage,
}

pub data Call : Type 0 where
  reserves : ℕ → ℕ → Call
  releases : ℕ → Call
  commits : ℕ → ℕ → ℕ → Call
  revokes : ℕ → Call
  records_outcome : ℕ → ℕ → Call
  records_lineage : ℕ → Option ℕ → Call

unfoldable pub step : GrantStore → Call → GrantStore
step st (reserves g n) = (reserve g n st).1
step st (releases g) = release g st
step st (commits g k o) = (commit g k o st).1
step st (revokes g) = revoke g st
step st (records_outcome k o) = record_idempotent_outcome k o st
step st (records_lineage g p) = record_lineage g p st

unfoldable pub run : GrantStore → List Call → GrantStore
run st [] = st
run st (c ∷ cs) = run (step st c) cs

abbrev pub reserved_slot : Slot → Slot
reserved_slot s =
    if s.revoked || s.reserved || leb s.max_uses s.uses then s else record s { reserved = true }

abbrev pub released_slot : Option Slot → Option Slot
released_slot none = none
released_slot (some s) = some (record s { reserved = false })

abbrev pub used_slot : Option Slot → Option Slot
used_slot none = none
used_slot (some s) =
    if s.reserved then some (record s { uses = s.uses + 1; reserved = false }) else some s

-- What a call makes of the slot of the grant `g`.
abbrev pub slot_step : ℕ → Call → Option Slot → Option Slot
slot_step g (reserves h n) o = if h == g then some (reserved_slot (slot_or o (fresh_slot n))) else o
slot_step g (releases h) o = if h == g then released_slot o else o
slot_step g (commits h k r) o = if h == g then used_slot o else o
slot_step g (revokes h) o =
    if h == g then some (record (slot_or o (fresh_slot 0)) { revoked = true }) else o
slot_step g _ o = o

-- A step touches no slot but that of the grant it names.
pub step-slot :
    (st : GrantStore) (c : Call) (g : ℕ) → get g (step st c).slots ≡ slot_step g c (get g st.slots)
unfolding step reserve release commit revoke record_idempotent_outcome record_lineage
step-slot st (reserves h n) g =
    let slot : Slot = slot_or (get h st.slots) (fresh_slot n) in
    ground
      (arith, get-put g h slot st.slots, get-put g h (record slot { reserved = true }) st.slots)
step-slot st (releases h) g = elim (Option-cases (get h st.slots)) [
  | inl e ↦ ground arith
  | inr (s, e) ↦ ground (arith, get-put g h (record s { reserved = false }) st.slots)
]
step-slot st (commits h k r) g = elim (Option-cases (get h st.slots)) [
  | inl e ↦ ground arith
  | inr (s, e) ↦
      ground (arith, get-put g h (record s { uses = s.uses + 1; reserved = false }) st.slots)
]
step-slot st (revokes h) g =
    let slot : Slot = slot_or (get h st.slots) (fresh_slot 0) in
    ground (arith, get-put g h (record slot { revoked = true }) st.slots)
step-slot st (records_outcome k r) g = refl
step-slot st (records_lineage h p) g = refl
