-- ===== src/GrantStore.antt =====
-- stores/memory.py: the in-memory grant store, which `stores/base.py` describes. Every method holds
-- the store's lock, so a call is one step, and threads interleave whole calls.
pub mod Steps
pub mod Uses
pub mod Exclusion
use chitragupta_protocol.Base.{
  ℕ, ◌+◌, Bool, true, false, ◌||◌, Option, none, some, [], leb, is_none, if◌then◌else◌, not,
}
use chitragupta_protocol.Base.Dict.{Dict, get, put}
use chitragupta_protocol.Errors.{Error, runtime_error, Result, ok, err}

pub record Slot : Type 0 where
  pub max_uses : ℕ
  pub uses : ℕ
  pub revoked : Bool
  pub reserved : Bool

pub record GrantStore : Type 0 where
  pub slots : Dict Slot
  pub idempotency : Dict ℕ
  -- the grant's parent; none is a recorded root
  pub lineage : Dict (Option ℕ)

unfoldable pub empty : GrantStore
empty = record { slots = []; idempotency = []; lineage = [] }

abbrev pub fresh_slot : ℕ → Slot
fresh_slot max_uses = record { max_uses = max_uses; uses = 0; revoked = false; reserved = false }

-- The slot that a call finds, or the one that it makes.
abbrev pub slot_or : Option Slot → Slot → Slot
slot_or none s = s
slot_or (some s) _ = s

unfoldable pub reserve : ℕ → ℕ → GrantStore → Bool × GrantStore
reserve grant_id max_uses st =
    let slot = slot_or (get grant_id st.slots) (fresh_slot max_uses) in
    if slot.revoked || slot.reserved || leb slot.max_uses slot.uses
    then (false, record st { slots = put grant_id slot st.slots })
    else (true, record st { slots = put grant_id (record slot { reserved = true }) st.slots })

unfoldable pub release : ℕ → GrantStore → GrantStore
release grant_id st = elim (get grant_id st.slots) [
  | none ↦ st
  | some slot ↦ record st { slots = put grant_id (record slot { reserved = false }) st.slots }
]

-- The part of `commit` that runs with a slot found.
unfoldable pub commit_slot : ℕ → ℕ → ℕ → Slot → GrantStore → Result (Unit {0}) × GrantStore
commit_slot grant_id idempotency_key outcome_ref slot st =
    if not slot.reserved then (err runtime_error, st) else (
      ok tt,
      record st {
        slots = put grant_id (record slot { uses = slot.uses + 1; reserved = false }) st.slots;
        idempotency = put idempotency_key outcome_ref st.idempotency;
      },
    )

unfoldable pub commit : ℕ → ℕ → ℕ → GrantStore → Result (Unit {0}) × GrantStore
unfolding commit_slot
commit grant_id idempotency_key outcome_ref st = elim (get grant_id st.slots) [
  | none ↦ (err runtime_error, st)
  | some slot ↦ commit_slot grant_id idempotency_key outcome_ref slot st
]

unfoldable pub revoke : ℕ → GrantStore → GrantStore
revoke grant_id st =
    let slot = slot_or (get grant_id st.slots) (fresh_slot 0) in
    record st { slots = put grant_id (record slot { revoked = true }) st.slots }

unfoldable pub is_revoked : ℕ → GrantStore → Bool
is_revoked grant_id st = elim (get grant_id st.slots) [ none ↦ false | some slot ↦ slot.revoked ]

unfoldable pub get_use_count : ℕ → GrantStore → ℕ
get_use_count grant_id st = elim (get grant_id st.slots) [ none ↦ 0 | some slot ↦ slot.uses ]

unfoldable pub get_idempotent_outcome : ℕ → GrantStore → Option ℕ
get_idempotent_outcome idempotency_key st = get idempotency_key st.idempotency

unfoldable pub record_idempotent_outcome : ℕ → ℕ → GrantStore → GrantStore
record_idempotent_outcome idempotency_key outcome_ref st = record st {
  idempotency = put idempotency_key outcome_ref st.idempotency;
}

unfoldable pub record_lineage : ℕ → Option ℕ → GrantStore → GrantStore
record_lineage grant_id parent st = record st { lineage = put grant_id parent st.lineage }

unfoldable pub get_parent_grant_id : ℕ → GrantStore → Option ℕ
get_parent_grant_id grant_id st = elim (get grant_id st.lineage) [ none ↦ none | some p ↦ p ]

unfoldable pub has_lineage : ℕ → GrantStore → Bool
has_lineage grant_id st = not (is_none (get grant_id st.lineage))
