-- ===== src/Engine/Commit/Holding.antt =====
-- engine/core.py: what `commit` holds from its intent on, and what giving it back or using it leaves.
use chitragupta_protocol.Base.{ℕ, ◌≡◌, refl, Bool, true, false, Option, none, some, arith}
use chitragupta_protocol.Budget.{BudgetLedger}
use chitragupta_protocol.Budget
use chitragupta_protocol.Base.Dict.{get}
use chitragupta_protocol.Engine.Checks.{Context, Request}
use chitragupta_protocol.Engine.Control.{
  Control, move, release_grant, on_ledger, release_budget, commit_budget, abandon_outbox,
  confirm_outbox, abandon_in, confirm_in,
}
use chitragupta_protocol.Engine.Commit.{release_both, fail}
use chitragupta_protocol.Engine.Commit.Settling.{
  add_consumed, Reserved, release-Reserved, commit-Reserved, touched, Taken, release-Taken,
}
use chitragupta_protocol.Errors.{ok}
use chitragupta_protocol.GrantStore.{GrantStore, get_idempotent_outcome}
use chitragupta_protocol.GrantStore
use chitragupta_protocol.Outbox.{Outbox, mark_confirmed, mark_abandoned}

-- The ledger before a commit, and with the amount reserved of a budget, if any.
abbrev pub Ledgers : Option (ℕ × ℕ) → Option BudgetLedger → Option BudgetLedger → Type 0
Ledgers none l0 l = l ≡ l0
Ledgers (some (id, amount)) none l = ⊥
Ledgers (some (id, amount)) (some l0) none = ⊥
Ledgers (some (id, amount)) (some l0) (some l) = Reserved id amount l0 l

-- The ledger with what was reserved of it consumed.
abbrev pub spent : Option (ℕ × ℕ) → Option BudgetLedger → Option BudgetLedger
spent none l = l
spent (some (id, amount)) none = none
spent (some (id, amount)) (some l) = some (add_consumed (get id l.consumed) id amount l)

pub release_budget-Ledgers :
    (budget : Option (ℕ × ℕ)) (l0 : Option BudgetLedger) (w : Control)
    → Ledgers budget l0 w.budget_ledger
    → release_budget budget w ≡ (ok tt, record w { budget_ledger = l0 })
unfolding release_budget
release_budget-Ledgers none l0 w h = ground arith
release_budget-Ledgers (some (id, amount)) l0 w h = release_some id amount l0 w.budget_ledger w h
  where
    release_some :
        (id amount : ℕ) (l0 l : Option BudgetLedger) (w : Control)
        → Ledgers (some (id, amount)) l0 l
        → on_ledger l (Budget.release id amount) tt w ≡ (ok tt, record w { budget_ledger = l0 })
    release_some id amount none l w h = absurd h
    release_some id amount (some l0) none w h = absurd h
    release_some id amount (some l0) (some l) w h = rw (release-Reserved id amount l0 l h) refl

pub commit_budget-Ledgers :
    (budget : Option (ℕ × ℕ)) (l0 : Option BudgetLedger) (w : Control)
    → Ledgers budget l0 w.budget_ledger
    → commit_budget budget w ≡ (ok tt, record w { budget_ledger = spent budget l0 })
unfolding commit_budget
commit_budget-Ledgers none l0 w h = ground arith
commit_budget-Ledgers (some (id, amount)) l0 w h = commit_some id amount l0 w.budget_ledger w h
  where
    commit_some :
        (id amount : ℕ) (l0 l : Option BudgetLedger) (w : Control)
        → Ledgers (some (id, amount)) l0 l
        → on_ledger l (Budget.commit id amount) tt w
          ≡ (ok tt, record w { budget_ledger = spent (some (id, amount)) l0 })
    commit_some id amount none l w h = absurd h
    commit_some id amount (some l0) none w h = absurd h
    commit_some id amount (some l0) (some l) w h = rw (commit-Reserved id amount l0 l h) refl

-- The outbox holds a pending intent under the key, or none is configured.
abbrev pub Ready : Bool → ℕ → Option Outbox → Type 0
Ready false key none = Unit
Ready true key (some box) =
    ((outcome : ℕ) → (box' : Outbox) × (mark_confirmed key outcome box ≡ ok box'))
    × ((box' : Outbox) × (mark_abandoned key box ≡ ok box'))
Ready _ key _ = ⊥

confirm_in-Ready :
    (p : Bool) (key outcome : ℕ) (box : Option Outbox) (w : Control)
    → w.outbox_store ≡ box
    → Ready p key box
    → (o : Option Outbox) × (confirm_in box p key outcome w
        ≡ (ok tt, record w { outbox_store = o }))
confirm_in-Ready false key outcome none w e r = (none, ground arith)
confirm_in-Ready true key outcome none w e r = absurd r
confirm_in-Ready false key outcome (some box) w e r = absurd r
confirm_in-Ready true key outcome (some box) w e r =
    let (box', done) = r.0 outcome in (some box', ground arith)

pub confirm_outbox-Ready :
    (p : Bool) (key outcome : ℕ) (w : Control)
    → Ready p key w.outbox_store
    → (o : Option Outbox) × (confirm_outbox p key outcome w
        ≡ (ok tt, record w { outbox_store = o }))
unfolding confirm_outbox
confirm_outbox-Ready p key outcome w r = confirm_in-Ready p key outcome w.outbox_store w refl r

abandon_in-Ready :
    (key : ℕ) (box : Option Outbox) (w : Control)
    → Ready true key box
    → (o : Option Outbox) × (abandon_in box key w ≡ (ok tt, record w { outbox_store = o }))
abandon_in-Ready key none w r = absurd r
abandon_in-Ready key (some box) w r = let (box', done) = r.1 in (some box', ground arith)

-- What an abandonment needs: nothing, where there is no intent to abandon.
abbrev pub CanAbandon : Bool → ℕ → Option Outbox → Type 0
CanAbandon false key box = Unit
CanAbandon true key box = Ready true key box

pub Ready-CanAbandon :
    (p : Bool) (key : ℕ) (box : Option Outbox) → Ready p key box → CanAbandon p key box
Ready-CanAbandon false key box r = tt
Ready-CanAbandon true key box r = r

pub abandon_outbox_lem :
    (p : Bool) (key : ℕ) (w : Control)
    → CanAbandon p key w.outbox_store
    → (o : Option Outbox) × (abandon_outbox p key w ≡ (ok tt, record w { outbox_store = o }))
unfolding abandon_outbox
abandon_outbox_lem false key w r = (w.outbox_store, refl)
abandon_outbox_lem true key w r = abandon_in-Ready key w.outbox_store w r

-- What a commit holds once it has noted its intent, over the state `w0` in which it began.
pub record Held (q : Request) (budget : Option (ℕ × ℕ)) (p : Bool) (w0 w : Control) : Type 0 where
  pub ledgers : Ledgers budget w0.budget_ledger w.budget_ledger
  pub taken : Taken q.grant.grant_id q.grant.max_uses w0.grant_store w.grant_store
  pub ready : Ready p q.sealed.manifest.idempotency_key w.outbox_store

pub release_both_lem :
    (q : Request) (budget : Option (ℕ × ℕ)) (w0 w : Control)
    → Ledgers budget w0.budget_ledger w.budget_ledger
    → Taken q.grant.grant_id q.grant.max_uses w0.grant_store w.grant_store
    → release_both q.grant.grant_id budget w ≡ (
      ok tt,
      record w {
        grant_store = touched q.grant.grant_id q.grant.max_uses w0.grant_store;
        budget_ledger = w0.budget_ledger;
      },
    )
unfolding release_both release_grant
release_both_lem q budget w0 w ledgers taken =
    rw (← release-Taken q.grant.grant_id q.grant.max_uses w0.grant_store w.grant_store taken) (
      release_budget-Ledgers budget w0.budget_ledger
        (record w { grant_store = GrantStore.release q.grant.grant_id w.grant_store }) ledgers)

-- The state after a failure: everything reserved is given back.
pub record GivenBack (q : Request) (w0 w : Control) : Type 0 where
  pub ledger : w.budget_ledger ≡ w0.budget_ledger
  pub store : w.grant_store ≡ touched q.grant.grant_id q.grant.max_uses w0.grant_store

pub fail-GivenBack :
    (c : Context) (q : Request) (budget : Option (ℕ × ℕ)) (p abandons : Bool) (event : ℕ)
    (w0 w : Control)
    → Held q budget p w0 w
    → CanAbandon abandons q.sealed.manifest.idempotency_key w.outbox_store
    → GivenBack q w0 (fail c q budget p abandons event w).1
      × ((fail c q budget p abandons event w).1.performed ≡ w.performed)
unfolding fail move
fail-GivenBack c q budget p abandons event w0 w h r =
    let back : Control = record w {
      grant_store = touched q.grant.grant_id q.grant.max_uses w0.grant_store;
      budget_ledger = w0.budget_ledger;
    } in
    let (o, abandoned) = abandon_outbox_lem abandons q.sealed.manifest.idempotency_key back r in
    rw (release_both_lem q budget w0 w h.ledgers h.taken, abandoned)
      (record { ledger = refl; store = refl }, refl)
