-- ===== src/Engine/Control.antt =====
-- engine/core.py and engine/context.py: the stores that an engine works on, and the steps on them
-- that `commit`, `recover_ambiguous_commit` and `revoke` share. A step that raises keeps the state that
-- it has reached. The stores are the in-memory ones.
use chitragupta_protocol.Base.{
  ℕ, Bool, true, false, ◌||◌, Option, none, some, List, [], ◌∷◌, ◌++◌, if◌then◌else◌,
}
use chitragupta_protocol.Base.Dict.{get}
use chitragupta_protocol.Budget.{BudgetLedger}
use chitragupta_protocol.Budget
use chitragupta_protocol.Engine.{Engine, transition_to}
use chitragupta_protocol.Engine.Checks.{EventType, Checked, passes, denies, raises}
use chitragupta_protocol.Errors.{Error, Result, ok, err}
use chitragupta_protocol.GrantStore.{GrantStore}
use chitragupta_protocol.GrantStore
use chitragupta_protocol.Lifecycle.{LifecycleState}
use chitragupta_protocol.Outbox.{Outbox, OutboxEntry, is_pending, mark_confirmed, mark_abandoned}

-- An audit record that is not of a transition, with the exception that it announces.
pub record JournalEntry : Type 0 where
  pub event_type : EventType
  pub blocked : Option Error

pub record Control : Type 0 where
  pub engine : Engine
  pub grant_store : GrantStore
  pub budget_ledger : Option BudgetLedger
  pub outbox_store : Option Outbox
  pub journal : List JournalEntry
  -- the idempotency keys with which an adapter's `commit` was called: no part of the code's state
  pub performed : List ℕ

abbrev pub M : Type 0 → Type 0
M A = Control → Result A × Control

-- What follows a step, of where the step has come to.
abbrev pub continue : {A B : Type 0} → Result A × Control → (A → M B) → Result B × Control
continue (ok a, w) f = f a w
continue (err e, w) f = (err e, w)

infixl 5 ◌>>=◌ ◌>>◌
abbrev pub ◌>>=◌ : {A B : Type 0} → M A → (A → M B) → M B
◌>>=◌ m f w = continue (m w) f

abbrev pub ◌>>◌ : {A B : Type 0} → M A → M B → M B
m >> k = m >>= λ _. k

abbrev pub return : {A : Type 0} → A → M A
return a w = (ok a, w)

abbrev pub raise : {A : Type 0} → Error → M A
raise e w = (err e, w)

-- `except Exception: handler; raise`
abbrev pub handle : {A : Type 0} → Result A × Control → M (Unit {0}) → Result A × Control
handle (ok a, w) handler = (ok a, w)
handle (err e, w) handler = (handler >> raise e) w

-- `audit.record`, of an event that is not of a transition
abbrev pub note : EventType → Option Error → M (Unit {0})
note event blocked w = (
  ok tt,
  record w { journal = w.journal ++ record { event_type = event; blocked = blocked } ∷ [] },
)

abbrev pub deny : {A : Type 0} → EventType → Error → M A
deny event e = note event (some e) >> raise e

abbrev pub checked : {A : Type 0} → Checked A → M A
checked (passes a) w = (ok a, w)
checked (denies event e) w = deny event e w
checked (raises e) w = (err e, w)

abbrev pub discard {ℓ} : {A : Type ℓ} → Result A → Result (Unit {0})
discard (ok a) = ok tt
discard (err e) = err e

-- `self._transition(...)`
unfoldable pub move : ℕ → LifecycleState → ℕ → ℕ → M (Unit {0})
move manifest_id target event now w =
    let moved = transition_to manifest_id target event now w.engine in
    (discard moved.0, record w { engine = moved.1 })

unfoldable pub release_grant : ℕ → M (Unit {0})
release_grant grant_id w =
    (ok tt, record w { grant_store = GrantStore.release grant_id w.grant_store })

unfoldable pub finalize_grant : ℕ → ℕ → ℕ → M (Unit {0})
finalize_grant grant_id idempotency_key outcome w =
    let done = GrantStore.commit grant_id idempotency_key outcome w.grant_store in
    (done.0, record w { grant_store = done.1 })

-- A call of the ledger, where one is configured; `a` is the result where none is.
abbrev pub on_ledger :
    {A : Type 0} → Option BudgetLedger → (BudgetLedger → Result A × BudgetLedger) → A → M A
on_ledger none call a w = (ok a, w)
on_ledger (some l) call a w = ((call l).0, record w { budget_ledger = some (call l).1 })

-- `release_budget`, of the budget and the amount reserved of it, if any
unfoldable pub release_budget : Option (ℕ × ℕ) → M (Unit {0})
release_budget none w = (ok tt, w)
release_budget (some (budget_id, amount)) w =
    on_ledger w.budget_ledger (Budget.release budget_id amount) tt w

unfoldable pub commit_budget : Option (ℕ × ℕ) → M (Unit {0})
commit_budget none w = (ok tt, w)
commit_budget (some (budget_id, amount)) w =
    on_ledger w.budget_ledger (Budget.commit budget_id amount) tt w

-- The store after a call that may raise.
abbrev pub set_outbox : Result Outbox → M (Unit {0})
set_outbox (ok box) w = (ok tt, record w { outbox_store = some box })
set_outbox (err e) w = (err e, w)

abbrev pub abandon_in : Option Outbox → ℕ → M (Unit {0})
abandon_in none key w = (ok tt, w)
abandon_in (some box) key w = set_outbox (mark_abandoned key box) w

-- `abandon_outbox`, of `outbox_pending`
unfoldable pub abandon_outbox : Bool → ℕ → M (Unit {0})
abandon_outbox false key w = (ok tt, w)
abandon_outbox true key w = abandon_in w.outbox_store key w

abbrev pub pending_entry : Option OutboxEntry → Bool
pending_entry none = false
pending_entry (some entry) = is_pending entry.status

abbrev pub confirm_in : Option Outbox → Bool → ℕ → ℕ → M (Unit {0})
confirm_in none pending key outcome w = (ok tt, w)
confirm_in (some box) pending key outcome w =
    if pending_entry (get key box) || pending
    then set_outbox (mark_confirmed key outcome box) w
    else (ok tt, w)

-- `confirm_outbox`, of `outbox_pending`
unfoldable pub confirm_outbox : Bool → ℕ → ℕ → M (Unit {0})
confirm_outbox pending key outcome w = confirm_in w.outbox_store pending key outcome w
