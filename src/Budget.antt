-- ===== src/Budget.antt =====
-- budget/model.py, budget/ledger.py and budget/consume.py: authority budgets, the in-process ledger
-- of what is consumed and reserved, and how much a commit consumes. Amounts are minor units or
-- counts, which the models validate to be at least 0; an amount below 1 is refused like 0. Each
-- method of the ledger holds its lock, so a call is one step.
pub mod Limits
pub mod Spending
use chitragupta_protocol.Base.{
  ℕ, ◌+◌, ◌-◌, Bool, true, false, ◌||◌, Option, none, some, [], ltb, leb, ◌!=◌, eq_option, is_none,
  if◌then◌else◌, not,
}
use chitragupta_protocol.Base.Dict.{Dict, get, put}
use chitragupta_protocol.Domain.{MonetaryAmount}
use chitragupta_protocol.Errors.{
  Error, authority_budget_error, authority_budget_exhausted_error, key_error, Result, ok, err,
  or_raise, raise_if, ◌>>=◌, ◌>>◌,
}

pub data BudgetKind : Type 0 where
  monetary count : BudgetKind

pub record AuthorityBudget : Type 0 where
  pub schema_version : ℕ
  pub budget_id : ℕ
  pub kind : BudgetKind
  pub currency : Option ℕ
  pub limit_minor_units : Option ℕ
  pub limit_count : Option ℕ

unfoldable pub limit_of : BudgetKind → AuthorityBudget → Result ℕ
limit_of monetary b = or_raise b.limit_minor_units authority_budget_error
limit_of count b = or_raise b.limit_count authority_budget_error

-- `AuthorityBudget.limit`
unfoldable pub limit : AuthorityBudget → Result ℕ
unfolding limit_of
limit b = limit_of b.kind b

pub record BudgetLedger : Type 0 where
  pub budgets : Dict AuthorityBudget
  pub consumed : Dict ℕ
  pub reserved : Dict ℕ

unfoldable pub empty : BudgetLedger
empty = record { budgets = []; consumed = []; reserved = [] }

-- `d.setdefault(key, value)`
unfoldable pub put_default : ℕ → ℕ → Dict ℕ → Dict ℕ
put_default key v d = elim (get key d) [ none ↦ put key v d | some _ ↦ d ]

-- A call on the ledger: what it returns or raises, and the ledger afterwards.
abbrev pub Call : Type 0 → Type 0
Call A = BudgetLedger → Result A × BudgetLedger

unfoldable pub add_budget : AuthorityBudget → BudgetLedger → BudgetLedger
unfolding put_default
add_budget b l = record {
  budgets = put b.budget_id b l.budgets;
  consumed = put_default b.budget_id 0 l.consumed;
  reserved = put_default b.budget_id 0 l.reserved;
}

-- `hash` stands for `AuthorityBudget.canonical_hash`, a digest of the model's JSON.
unfoldable pub register : (AuthorityBudget → ℕ) → AuthorityBudget → Call (Unit {0})
unfolding add_budget
register hash b l = elim (get b.budget_id l.budgets) [
  | none ↦ (ok tt, add_budget b l)
  | some existing ↦
      if hash existing != hash b then (err authority_budget_error, l) else (ok tt, add_budget b l)
]

-- `_require`, which `get` returns under the lock
unfoldable pub require : ℕ → BudgetLedger → Result AuthorityBudget
require budget_id l = or_raise (get budget_id l.budgets) authority_budget_error

-- The available amount, with what is consumed and reserved.
unfoldable pub usage : ℕ → BudgetLedger → Result (ℕ × ℕ × ℕ)
unfolding require
usage budget_id l = do
  budget ← require budget_id l
  total ← limit budget
  consumed ← or_raise (get budget_id l.consumed) key_error
  reserved ← or_raise (get budget_id l.reserved) key_error
  ok (total - consumed - reserved, consumed, reserved)

unfoldable pub remaining : ℕ → BudgetLedger → Result ℕ
remaining budget_id l = usage budget_id l >>= λ u. ok (u.0)

unfoldable pub reserve : ℕ → ℕ → Call Bool
reserve budget_id amount l =
    if ltb amount 1 then (err authority_budget_error, l) else elim (usage budget_id l) [
      | err e ↦ (err e, l)
      | ok (available, consumed, reserved) ↦
          if ltb available amount
          then (ok false, l)
          else (ok true, record l { reserved = put budget_id (reserved + amount) l.reserved })
    ]

-- What `release` and `commit` read first: the reserved amount of a known budget.
unfoldable pub reservation : ℕ → BudgetLedger → Result ℕ
reservation budget_id l = do require budget_id l; or_raise (get budget_id l.reserved) key_error

unfoldable pub release : ℕ → ℕ → Call (Unit {0})
release budget_id amount l = elim (reservation budget_id l) [
  | err e ↦ (err e, l)
  | ok reserved ↦
      if ltb amount 1 || ltb reserved amount
      then (err authority_budget_error, l)
      else (ok tt, record l { reserved = put budget_id (reserved - amount) l.reserved })
]

-- `self._consumed[budget_id] += amount`, after the reservation was lowered
unfoldable pub commit_reserved : ℕ → ℕ → ℕ → Call (Unit {0})
commit_reserved budget_id amount reserved l =
    let lowered = record l { reserved = put budget_id (reserved - amount) l.reserved } in
    elim (get budget_id l.consumed) [
      | none ↦ (err key_error, lowered)
      | some consumed ↦
          (ok tt, record lowered { consumed = put budget_id (consumed + amount) l.consumed })
    ]

unfoldable pub commit : ℕ → ℕ → Call (Unit {0})
unfolding commit_reserved
commit budget_id amount l = elim (reservation budget_id l) [
  | err e ↦ (err e, l)
  | ok reserved ↦
      if ltb amount 1 || ltb reserved amount
      then (err authority_budget_error, l)
      else commit_reserved budget_id amount reserved l
]

unfoldable pub consume : ℕ → ℕ → Call (Unit {0})
consume budget_id amount l =
    if ltb amount 1 then (err authority_budget_error, l) else elim (usage budget_id l) [
      | err e ↦ (err e, l)
      | ok (available, consumed, reserved) ↦
          if ltb available amount
          then (err authority_budget_exhausted_error, l)
          else (ok tt, record l { consumed = put budget_id (consumed + amount) l.consumed })
    ]

-- `assert_can_reserve`
unfoldable pub assert_can_reserve : ℕ → ℕ → Call (Unit {0})
assert_can_reserve budget_id amount l =
    let (r, l') = reserve budget_id amount l in
    elim r [
      | err e ↦ (err e, l')
      | ok done ↦ if done then (ok tt, l') else (err authority_budget_exhausted_error, l')
    ]

unfoldable pub resolve : BudgetKind → AuthorityBudget → Option MonetaryAmount → Result ℕ
resolve count b cost = ok 1
resolve monetary b none = err authority_budget_error
resolve monetary b (some cost) = do
  raise_if (is_none b.currency || not (eq_option (some cost.currency) b.currency))
      authority_budget_error
  raise_if (ltb cost.minor_units 1) authority_budget_error
  ok cost.minor_units

-- `resolve_budget_consume_amount`, on the manifest's `estimated_cost`
unfoldable pub resolve_budget_consume_amount : AuthorityBudget → Option MonetaryAmount → Result ℕ
unfolding resolve
resolve_budget_consume_amount b cost = resolve b.kind b cost

unfoldable pub require_budget : Option BudgetLedger → ℕ → Result AuthorityBudget
require_budget none budget_id = err authority_budget_error
require_budget (some l) budget_id = require budget_id l
