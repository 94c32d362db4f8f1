-- ===== src/Engine/Commit/Keeping.antt =====
-- engine/core.py: the steps of `commit` that leave the engine, the outbox and the calls of adapters as
-- they are.
use chitragupta_protocol.Base.{ℕ, ◌≡◌, refl, ◌∙◌, Bool, true, false, Option, none, some}
use chitragupta_protocol.Budget
use chitragupta_protocol.Domain.{MonetaryAmount}
use chitragupta_protocol.Engine.{get_record}
use chitragupta_protocol.Engine.Checks.{
  Checked, passes, denies, raises, attempt, authority_budget_resolve_failed,
  grant_reservation_failed,
}
use chitragupta_protocol.Engine.Control.{
  Control, M, continue, checked, on_ledger, release_grant, release_budget, deny,
}
use chitragupta_protocol.Engine.Commit.{
  budget_amount, budget_granted, reserve_budget, reserve_grant, grant_reserved, release_both,
}
use chitragupta_protocol.Errors.{grant_exhausted_error, Result, ok, err}
use chitragupta_protocol.Grants.{ExecutionGrant}
use chitragupta_protocol.GrantStore
use chitragupta_protocol.GrantStore.{get_idempotent_outcome}
use chitragupta_protocol.Lifecycle.{LifecycleState}

-- The state that the engine has a manifest in.
abbrev pub state_of : ℕ → Control → LifecycleState
state_of m w = (get_record m w.engine).state

-- A step that leaves the engine, the outbox and the calls of adapters as they are.
abbrev pub Keeps : Control → Control → Type 0
Keeps w v = (v.engine ≡ w.engine) × (v.outbox_store ≡ w.outbox_store) × (v.performed ≡ w.performed)

pub release_budget-Keeps : (b : Option (ℕ × ℕ)) (w : Control) → Keeps w (release_budget b w).1
unfolding release_budget
release_budget-Keeps none w = (refl, refl, refl)
release_budget-Keeps (some (id, amount)) w = on w.budget_ledger
  where
    on : (l : Option Budget.BudgetLedger) → Keeps w (on_ledger l (Budget.release id amount) tt w).1
    on none = (refl, refl, refl)
    on (some l) = (refl, refl, refl)

-- Whatever follows a step does not see whether it raised, if both ends keep.
pub continue-Keeps :
    {A B : Type 0} (w : Control) (r : Result A × Control) (f : A → M B)
    → Keeps w r.1
    → ((a : A) (v : Control) → Keeps w v → Keeps w (f a v).1)
    → Keeps w (continue r f).1
continue-Keeps w (ok a, v) f k next = next a v k
continue-Keeps w (err e, v) f k next = k

pub release_both-Keeps : (g : ℕ) (b : Option (ℕ × ℕ)) (w : Control) → Keeps w (release_both g b w).1
unfolding release_both release_grant
release_both-Keeps g b w =
    release_budget-Keeps b (record w { grant_store = GrantStore.release g w.grant_store })

checked-Keeps : {A : Type 0} (r : Checked A) (w : Control) → Keeps w (checked r w).1
checked-Keeps (passes a) w = (refl, refl, refl)
checked-Keeps (denies event e) w = (refl, refl, refl)
checked-Keeps (raises e) w = (refl, refl, refl)

pub kept_twice : (u v w : Control) → Keeps u v → Keeps v w → Keeps u w
kept_twice u v w a b = (b.0 ∙ a.0, b.1 ∙ a.1, b.2 ∙ a.2)

pub on_ledger-Keeps :
    (w : Control) (l : Option Budget.BudgetLedger)
    (call : Budget.BudgetLedger → Result Bool × Budget.BudgetLedger)
    → Keeps w (on_ledger l call false w).1
on_ledger-Keeps w none call = (refl, refl, refl)
on_ledger-Keeps w (some l) call = (refl, refl, refl)

pub budget_granted-Keeps :
    (id amount : ℕ) (b : Bool) (w : Control) → Keeps w (budget_granted id amount b w).1
budget_granted-Keeps id amount true w = (refl, refl, refl)
budget_granted-Keeps id amount false w = (refl, refl, refl)

pub reserve_budget-Keeps :
    (o : Option ℕ) (cost : Option MonetaryAmount) (w : Control)
    → Keeps w (reserve_budget o cost w).1
unfolding reserve_budget
reserve_budget-Keeps none cost w = (refl, refl, refl)
reserve_budget-Keeps (some id) cost w =
    continue-Keeps w
      (checked (attempt authority_budget_resolve_failed (budget_amount w.budget_ledger id cost)) w)
      _
      (checked-Keeps
        (attempt authority_budget_resolve_failed (budget_amount w.budget_ledger id cost)) w)
      (λ amount v k.
        kept_twice w v
          (continue (on_ledger w.budget_ledger (Budget.reserve id amount) false v)
            (budget_granted id amount)).1
          k
          (continue-Keeps v (on_ledger w.budget_ledger (Budget.reserve id amount) false v)
            (budget_granted id amount)
            (on_ledger-Keeps v w.budget_ledger (Budget.reserve id amount))
            (λ b u l.
              kept_twice v u (budget_granted id amount b u).1 l
                (budget_granted-Keeps id amount b u))))

pub reserve_grant-Keeps :
    (g : ExecutionGrant) (b : Option (ℕ × ℕ)) (w : Control) → Keeps w (reserve_grant g b w).1
unfolding reserve_grant
reserve_grant-Keeps g b w =
    let won : Bool = (GrantStore.reserve g.grant_id g.max_uses w.grant_store).0 in
    let v : Control = record w {
      grant_store = (GrantStore.reserve g.grant_id g.max_uses w.grant_store).1;
    } in
    answered won v (refl, refl, refl)
  where
    answered : (won : Bool) (v : Control) → Keeps w v → Keeps w (grant_reserved b won v).1
    answered true v k = k
    answered false v k =
        continue-Keeps w (release_budget b v)
          (λ _. deny {A = Unit {0}} grant_reservation_failed grant_exhausted_error)
          (kept_twice w v (release_budget b v).1 k (release_budget-Keeps b v)) (λ a u l. l)
