-- ===== src/Engine/Commit/Settling.antt =====
-- engine/core.py: what a reservation that `commit` holds in each store comes to when it is given back
-- or used.
use chitragupta_protocol.Base.{
  ℕ, ◌+◌, ◌≤◌, ◌≡◌, refl, true, false, Option, none, some, arith, Option-cases, inl, inr,
}
use chitragupta_protocol.Base.Dict.{get, put, get-put_self, put-put, put_present}
use chitragupta_protocol.Budget.{
  AuthorityBudget, BudgetLedger, usage, require, reservation, commit_reserved,
}
use chitragupta_protocol.Budget
use chitragupta_protocol.Errors.{ok}
use chitragupta_protocol.GrantStore.{Slot, GrantStore, slot_or, fresh_slot, commit_slot}
use chitragupta_protocol.GrantStore
use chitragupta_protocol.Outbox.{
  Outbox, OutboxStatus, confirmed, abandoned, OutboxEntry, pending, record_pending, mark_confirmed,
  mark_abandoned, confirm, abandon,
}
use chitragupta_protocol.Outbox.Progress.{record_pending_sound}

-- The ledger with an amount consumed of a budget.
abbrev pub add_consumed : Option ℕ → ℕ → ℕ → BudgetLedger → BudgetLedger
add_consumed none id amount l = l
add_consumed (some consumed) id amount l = record l {
  consumed = put id (consumed + amount) l.consumed;
}

-- What a granted reservation of the ledger comes to.
pub record Reserved (id amount : ℕ) (l l1 : BudgetLedger) : Type 0 where
  pub before : ℕ
  pub consumed : ℕ
  pub had : get id l.reserved ≡ some before
  pub used : get id l.consumed ≡ some consumed
  pub known : (b : AuthorityBudget) × (get id l.budgets ≡ some b)
  pub positive : 1 ≤ amount
  pub after : l1 ≡ record l { reserved = put id (before + amount) l.reserved }

pub budget-Reserved :
    (id amount : ℕ) (l : BudgetLedger)
    → (Budget.reserve id amount l).0 ≡ ok true
    → Reserved id amount l (Budget.reserve id amount l).1
unfolding Budget.reserve usage require
budget-Reserved id amount l h = elim (Option-cases (get id l.budgets)) [
  | inl e ↦ absurd (ground arith)
  | inr (b, e) ↦ elim (Option-cases (get id l.reserved)) [
    | inl f ↦ absurd (ground arith)
    | inr (r, f) ↦ elim (Option-cases (get id l.consumed)) [
      | inl g ↦ absurd (ground arith)
      | inr (c, g) ↦ record {
        before = r;
        consumed = c;
        had = f;
        used = g;
        known = (b, e);
        positive = ground arith;
        after = ground arith;
      }
    ]
  ]
]

pub release-Reserved :
    (id amount : ℕ) (l l1 : BudgetLedger)
    → Reserved id amount l l1
    → Budget.release id amount l1 ≡ (ok tt, l)
unfolding Budget.release reservation require
release-Reserved id amount l l1 r = rw r.after (
    ground (
      arith,
      r.known.1,
      get-put_self id (r.before + amount) l.reserved,
      put-put id r.before (r.before + amount) l.reserved,
      put_present id r.before l.reserved r.had,
    ))

pub commit-Reserved :
    (id amount : ℕ) (l l1 : BudgetLedger)
    → Reserved id amount l l1
    → Budget.commit id amount l1 ≡ (ok tt, add_consumed (get id l.consumed) id amount l)
unfolding Budget.commit commit_reserved reservation require
commit-Reserved id amount l l1 r = rw r.after (
    ground (
      arith,
      r.known.1,
      r.used,
      get-put_self id (r.before + amount) l.reserved,
      put-put id r.before (r.before + amount) l.reserved,
      put_present id r.before l.reserved r.had,
    ))

abbrev pub slot_of : ℕ → ℕ → GrantStore → Slot
slot_of grant_id max_uses st = slot_or (get grant_id st.slots) (fresh_slot max_uses)

-- The store after a reservation that was refused or given back: it holds a slot of the grant.
abbrev pub touched : ℕ → ℕ → GrantStore → GrantStore
touched grant_id max_uses st = record st {
  slots = put grant_id (slot_of grant_id max_uses st) st.slots;
}

-- The store after a reservation that was used.
abbrev pub used : ℕ → ℕ → ℕ → ℕ → GrantStore → GrantStore
used grant_id max_uses key outcome st = record st {
  slots =
      put grant_id
        (record (slot_of grant_id max_uses st) { uses = (slot_of grant_id max_uses st).uses + 1 })
        st.slots;
  idempotency = put key outcome st.idempotency;
}

-- What a granted reservation of the grant store comes to.
pub record Taken (grant_id max_uses : ℕ) (st st1 : GrantStore) : Type 0 where
  pub unrevoked : (slot_of grant_id max_uses st).revoked ≡ false
  pub unreserved : (slot_of grant_id max_uses st).reserved ≡ false
  pub unspent : (slot_of grant_id max_uses st).uses + 1 ≤ (slot_of grant_id max_uses st).max_uses
  pub after : st1 ≡ record st {
    slots = put grant_id (record (slot_of grant_id max_uses st) { reserved = true }) st.slots;
  }

pub grant-Taken :
    (grant_id max_uses : ℕ) (st : GrantStore)
    → (GrantStore.reserve grant_id max_uses st).0 ≡ true
    → Taken grant_id max_uses st (GrantStore.reserve grant_id max_uses st).1
unfolding GrantStore.reserve
grant-Taken grant_id max_uses st h = record {
  unrevoked = ground arith;
  unreserved = ground arith;
  unspent = ground arith;
  after = ground arith;
}

pub refused-touched :
    (grant_id max_uses : ℕ) (st : GrantStore)
    → (GrantStore.reserve grant_id max_uses st).0 ≡ false
    → (GrantStore.reserve grant_id max_uses st).1 ≡ touched grant_id max_uses st
unfolding GrantStore.reserve
refused-touched grant_id max_uses st h = ground arith

pub release-Taken :
    (grant_id max_uses : ℕ) (st st1 : GrantStore)
    → Taken grant_id max_uses st st1
    → GrantStore.release grant_id st1 ≡ touched grant_id max_uses st
unfolding GrantStore.release
release-Taken grant_id max_uses st st1 t =
    let slot : Slot = slot_of grant_id max_uses st in
    rw t.after (
      ground (
        arith,
        get-put_self grant_id (record slot { reserved = true }) st.slots,
        put-put grant_id slot (record slot { reserved = true }) st.slots,
      ))

pub commit-Taken :
    (grant_id max_uses key outcome : ℕ) (st st1 : GrantStore)
    → Taken grant_id max_uses st st1
    → GrantStore.commit grant_id key outcome st1 ≡ (ok tt, used grant_id max_uses key outcome st)
unfolding GrantStore.commit commit_slot
commit-Taken grant_id max_uses key outcome st st1 t =
    let slot : Slot = slot_of grant_id max_uses st in
    rw t.after (
      ground (
        arith,
        get-put_self grant_id (record slot { reserved = true }) st.slots,
        put-put grant_id (record slot { uses = slot.uses + 1 }) (record slot { reserved = true })
            st.slots,
      ))

confirm-pending :
    (s : OutboxStatus) (key outcome : ℕ) (e : OutboxEntry) (box : Outbox)
    → s ≡ pending
    → (box' : Outbox) × (confirm s key outcome e box ≡ ok box')
unfolding confirm
confirm-pending pending key outcome e box h = (_, refl)
confirm-pending confirmed key outcome e box h = absurd (ground arith)
confirm-pending abandoned key outcome e box h = absurd (ground arith)

abandon-pending :
    (s : OutboxStatus) (key : ℕ) (e : OutboxEntry) (box : Outbox)
    → s ≡ pending
    → (box' : Outbox) × (abandon s key e box ≡ ok box')
unfolding abandon
abandon-pending pending key e box h = (_, refl)
abandon-pending confirmed key e box h = absurd (ground arith)
abandon-pending abandoned key e box h = absurd (ground arith)

-- What a recorded intent comes to: it can be confirmed, and it can be abandoned.
pub confirm-recorded :
    (entry : OutboxEntry) (outcome : ℕ) (box after : Outbox)
    → record_pending entry box ≡ ok after
    → (box' : Outbox) × (mark_confirmed entry.idempotency_key outcome after ≡ ok box')
unfolding mark_confirmed
confirm-recorded entry outcome box after h =
    let (e, found, waits, _, _) = record_pending_sound entry box after h in
    let (box', done) = confirm-pending e.status entry.idempotency_key outcome e after waits in
    (box', ground arith)

pub abandon-recorded :
    (entry : OutboxEntry) (box after : Outbox)
    → record_pending entry box ≡ ok after
    → (box' : Outbox) × (mark_abandoned entry.idempotency_key after ≡ ok box')
unfolding mark_abandoned
abandon-recorded entry box after h =
    let (e, found, waits, _, _) = record_pending_sound entry box after h in
    let (box', done) = abandon-pending e.status entry.idempotency_key e after waits in
    (box', ground arith)
