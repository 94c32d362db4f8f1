-- ===== src/Engine/Commit/Budgeting.antt =====
-- engine/core.py: the stages of `commit`, and what reserving the budget leaves.
use chitragupta_protocol.Base.{
  ℕ, ◌≡◌, ◌≢◌, refl, sym, ap, ◌∙◌, subst, Bool, true, false, Option, none, some, ◌⊎◌, arith, inl,
  if◌then◌else◌,
}
use chitragupta_protocol.Budget.{BudgetLedger, usage, require}
use chitragupta_protocol.Budget
use chitragupta_protocol.Engine.Checks.{
  Context, Request, denies, raises, attempt, authority_budget_resolve_failed,
}
use chitragupta_protocol.Engine.Control.{Control, continue, ◌>>=◌, checked, on_ledger}
use chitragupta_protocol.Engine.Commit.{budget_amount, budget_granted, reserve_budget}
use chitragupta_protocol.Engine.Commit.Settling.{budget-Reserved, touched}
use chitragupta_protocol.Engine.Commit.Holding.{Ledgers}
use chitragupta_protocol.Engine.Commit.Endings.{Charged, Ending, kept, Return}
use chitragupta_protocol.Errors.{Result, ok, err, is_protocol_error}

-- What a stage leaves: it returns in a state of one kind, or raises in one of another.
abbrev pub Stage :
    {A : Type 0} → (A → Control → Type 0) → (Control → Type 0) → Result A × Control → Type 0
Stage P Q (ok a, w) = P a w
Stage P Q (err e, w) = Q w

-- The state in which a refused commit stops.
pub record Stopped (q : Request) (w0 w : Control) : Type 0 where
  pub performed : w.performed ≡ w0.performed
  pub ledger : w.budget_ledger ≡ w0.budget_ledger
  pub store :
      (w.grant_store ≡ w0.grant_store)
      ⊎ (w.grant_store ≡ touched q.grant.grant_id q.grant.max_uses w0.grant_store)

pub stage-Ending :
    {A : Type 0} (c : Context) (q : Request) (w0 : Control) (P : A → Control → Type 0)
    (r : Result A × Control) (f : A → Control → Return)
    → Stage P (Stopped q w0) r
    → ((a : A) (w : Control) → P a w → Ending c q w0 (f a w))
    → Ending c q w0 (continue r f)
stage-Ending c q w0 P (ok a, w) f s next = next a w s
stage-Ending c q w0 P (err e, w) f s next =
    kept record { calls = inl s.performed; unsuccessful = refl; ledger = s.ledger; store = s.store }

-- The budget is reserved, and nothing else has changed.
pub record BudgetHeld (q : Request) (w0 : Control) (budget : Option (ℕ × ℕ)) (w : Control)
    : Type 0 where
  pub charged :
      Charged q.grant.authority_budget_id w0.budget_ledger q.sealed.manifest.estimated_cost budget
  pub ledgers : Ledgers budget w0.budget_ledger w.budget_ledger
  pub store : w.grant_store ≡ w0.grant_store
  pub performed : w.performed ≡ w0.performed
  pub engine : w.engine ≡ w0.engine

-- A ledger that does not grant a reservation stays as it is.
refused_ledger :
    (id amount : ℕ) (l : BudgetLedger)
    → (Budget.reserve id amount l).0 ≢ ok true
    → (Budget.reserve id amount l).1 ≡ l
unfolding Budget.reserve
refused_ledger id amount l h = ground arith

granted-Stage :
    (q : Request) (w0 : Control) (id amount : ℕ) (l : BudgetLedger) (r : Result Bool) (w : Control)
    → (Budget.reserve id amount l).0 ≡ r
    → w0.budget_ledger ≡ some l
    → w.grant_store ≡ w0.grant_store
    → w.performed ≡ w0.performed
    → w.engine ≡ w0.engine
    → Charged q.grant.authority_budget_id w0.budget_ledger q.sealed.manifest.estimated_cost
        (some (id, amount))
    → Stage (BudgetHeld q w0) (Stopped q w0) (
        continue
          (r, record w { budget_ledger = some (Budget.reserve id amount l).1 })
          (budget_granted id amount))
granted-Stage q w0 id amount l (err x) w e known st p en charged = record {
  ledger = ap some (refused_ledger id amount l (λ y. ground arith)) ∙ sym known;
  performed = p;
  store = inl st;
}
granted-Stage q w0 id amount l (ok false) w e known st p en charged = record {
  ledger = ap some (refused_ledger id amount l (λ y. ground arith)) ∙ sym known;
  performed = p;
  store = inl st;
}
granted-Stage q w0 id amount l (ok true) w e known st p en charged = record {
  charged = charged;
  ledgers =
      subst
        (λ (x : Option BudgetLedger).
          Ledgers (some (id, amount)) x (some (Budget.reserve id amount l).1))
        (sym known) (budget-Reserved id amount l e);
  store = st;
  performed = p;
  engine = en;
}

-- Without a ledger there is no amount to reserve.
on_ledger-Stage :
    (q : Request) (w0 : Control) (id amount : ℕ) (ledger : Option BudgetLedger) (w : Control)
    → w0.budget_ledger ≡ ledger
    → w.budget_ledger ≡ w0.budget_ledger
    → w.grant_store ≡ w0.grant_store
    → w.performed ≡ w0.performed
    → w.engine ≡ w0.engine
    → Charged q.grant.authority_budget_id w0.budget_ledger q.sealed.manifest.estimated_cost
        (some (id, amount))
    → Stage
        (BudgetHeld q w0)
        (Stopped q w0)
        (continue (on_ledger ledger (Budget.reserve id amount) false w) (budget_granted id amount))
on_ledger-Stage q w0 id amount none w e same st p en charged = record {
  performed = p;
  ledger = same;
  store = inl st;
}
on_ledger-Stage q w0 id amount (some l) w e same st p en charged =
    granted-Stage q w0 id amount l (Budget.reserve id amount l).0 w refl e st p en charged

abbrev reserve_resolved : ℕ → Result ℕ → Control → Result (Option (ℕ × ℕ)) × Control
reserve_resolved id resolved w =
    continue (checked (attempt authority_budget_resolve_failed resolved) w) λ amount.
      on_ledger w.budget_ledger (Budget.reserve id amount) false >>= budget_granted id amount

resolved-Stage :
    (q : Request) (w0 : Control) (id : ℕ) (resolved : Result ℕ)
    → q.grant.authority_budget_id ≡ some id
    → budget_amount w0.budget_ledger id q.sealed.manifest.estimated_cost ≡ resolved
    → Stage (BudgetHeld q w0) (Stopped q w0) (reserve_resolved id resolved w0)
resolved-Stage q w0 id (ok amount) e k =
    on_ledger-Stage q w0 id amount w0.budget_ledger w0 refl refl refl refl refl (
      subst
        (λ (o : Option ℕ).
          Charged o w0.budget_ledger q.sealed.manifest.estimated_cost (some (id, amount)))
        (sym e) (amount, k, refl))
resolved-Stage q w0 id (err x) e k = checked-Stage (is_protocol_error x)
  where
    checked-Stage :
        (b : Bool)
        → Stage (BudgetHeld q w0) (Stopped q w0) (
            continue
              (checked (if b then denies authority_budget_resolve_failed x else raises x) w0)
              λ amount.
                on_ledger w0.budget_ledger (Budget.reserve id amount) false
                >>= budget_granted id amount)
    checked-Stage true = record { performed = refl; ledger = refl; store = inl refl }
    checked-Stage false = record { performed = refl; ledger = refl; store = inl refl }

-- Of `grant.authority_budget_id`.
pub reserve_budget-Stage :
    (q : Request) (w0 : Control) (o : Option ℕ)
    → q.grant.authority_budget_id ≡ o
    → Stage (BudgetHeld q w0) (Stopped q w0) (reserve_budget o q.sealed.manifest.estimated_cost w0)
unfolding reserve_budget
reserve_budget-Stage q w0 none e = record {
  charged =
      subst (λ (o : Option ℕ). Charged o w0.budget_ledger q.sealed.manifest.estimated_cost none)
        (sym e) refl;
  ledgers = refl;
  store = refl;
  performed = refl;
  engine = refl;
}
reserve_budget-Stage q w0 (some id) e =
    resolved-Stage q w0 id (budget_amount w0.budget_ledger id q.sealed.manifest.estimated_cost) e
      refl
