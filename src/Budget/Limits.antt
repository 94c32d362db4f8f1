-- ===== src/Budget/Limits.antt =====
-- budget/ledger.py: each call leaves every budget within its limit.
use chitragupta_protocol.Base.{
  ℕ, ◌+◌, ◌-◌, ◌≤◌, ◌≡◌, Option, none, some, arith, ◌==◌, if◌then◌else◌, Option-cases, inl, inr,
}
use chitragupta_protocol.Base.Dict.{Dict, get, get-put}
use chitragupta_protocol.Errors.{Result, ok, err}
use chitragupta_protocol.Budget.{
  AuthorityBudget, BudgetLedger, add_budget, limit, put_default, register, require, usage, reserve,
  reservation, release, commit, consume,
}

abbrev pub Fits : Result ℕ → ℕ → Type 0
Fits (ok n) used = used ≤ n
Fits (err e) used = used ≡ 0

-- One budget in a ledger: known with its two amounts, which together fit the limit, or unknown.
abbrev pub IsWithin : Option AuthorityBudget → Option ℕ → Option ℕ → Type 0
IsWithin none none none = Unit
IsWithin (some b) (some consumed) (some reserved) = Fits (limit b) (consumed + reserved)
IsWithin _ _ _ = ⊥

abbrev pub Within : ℕ → BudgetLedger → Type 0
Within id l = IsWithin (get id l.budgets) (get id l.consumed) (get id l.reserved)

pub reserve-Within :
    (id j amount : ℕ) (l : BudgetLedger) → Within j l → Within j (reserve id amount l).1
unfolding reserve usage require
reserve-Within id j amount l v = elim (Option-cases (get id l.reserved)) [
  | inl e ↦ ground arith
  | inr (r, e) ↦ ground (arith, get-put j id (r + amount) l.reserved)
]

pub release-Within :
    (id j amount : ℕ) (l : BudgetLedger) → Within j l → Within j (release id amount l).1
unfolding release reservation require
release-Within id j amount l v = elim (Option-cases (get id l.reserved)) [
  | inl e ↦ ground arith
  | inr (r, e) ↦ ground (arith, get-put j id (r - amount) l.reserved)
]

pub commit-Within :
    (id j amount : ℕ) (l : BudgetLedger)
    → Within id l
    → Within j l
    → Within j (commit id amount l).1
unfolding commit reservation require
commit-Within id j amount l w v = elim (Option-cases (get id l.reserved)) [
  | inl e ↦ ground arith
  | inr (r, e) ↦ elim (Option-cases (get id l.consumed)) [
    | inl f ↦ ground arith
    | inr (c, f) ↦
        ground (arith, get-put j id (r - amount) l.reserved, get-put j id (c + amount) l.consumed)
  ]
]

pub consume-Within :
    (id j amount : ℕ) (l : BudgetLedger) → Within j l → Within j (consume id amount l).1
unfolding consume usage require
consume-Within id j amount l v = elim (Option-cases (get id l.consumed)) [
  | inl e ↦ ground arith
  | inr (c, e) ↦ ground (arith, get-put j id (c + amount) l.consumed)
]

pub get-put_default :
    (j key v : ℕ) (d : Dict ℕ)
    → get j (put_default key v d)
      ≡ (if key == j then elim (get j d) [ none ↦ some v | some w ↦ some w ] else get j d)
unfolding put_default
get-put_default j key v d = ground (arith, get-put j key v d)

-- The digest tells budgets of different limits apart, as one without collisions does.
abbrev pub IsCollisionFree : (AuthorityBudget → ℕ) → Type 0
IsCollisionFree hash = (a b : AuthorityBudget) → hash a ≡ hash b → limit a ≡ limit b

Fits-zero : (r : Result ℕ) → Fits r (0 + 0)
Fits-zero (ok n) = omega arith
Fits-zero (err e) = omega arith

pub register-Within :
    (hash : AuthorityBudget → ℕ) (b : AuthorityBudget) (j : ℕ) (l : BudgetLedger)
    → IsCollisionFree hash
    → Within j l
    → Within j (register hash b l).1
unfolding register add_budget
register-Within hash b j l inj v = elim (Option-cases (get b.budget_id l.budgets)) [
  | inl e ↦ ground (
    arith,
    get-put j b.budget_id b l.budgets,
    get-put_default j b.budget_id 0 l.consumed,
    get-put_default j b.budget_id 0 l.reserved,
    Fits-zero (limit b),
  )
  | inr (x, e) ↦ ground (
    arith,
    get-put j b.budget_id b l.budgets,
    get-put_default j b.budget_id 0 l.consumed,
    get-put_default j b.budget_id 0 l.reserved,
    inj x b,
  )
]
