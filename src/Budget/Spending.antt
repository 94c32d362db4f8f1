-- ===== src/Budget/Spending.antt =====
-- budget/ledger.py: over any sequence of calls, what is spent of a budget is counted exactly and
-- stays within its limit.
use chitragupta_protocol.Base.{
  ℕ, ◌+◌, ◌≤◌, ◌≡◌, ap, Option, none, some, List, [], ◌∷◌, arith, ◌==◌, if◌then◌else◌, Option-cases,
  inl, inr,
}
use chitragupta_protocol.Base.Dict.{get, get-put, get-empty}
use chitragupta_protocol.Errors.{ok, is_ok}
use chitragupta_protocol.Budget.{
  AuthorityBudget, BudgetLedger, limit, register, usage, reserve, release, commit, consume, empty,
  require, add_budget,
}
use chitragupta_protocol.Budget.Limits.{
  Within, IsWithin, IsCollisionFree, reserve-Within, release-Within, commit-Within, consume-Within,
  register-Within, get-put_default,
}

pub data Call : Type 0 where
  registers : AuthorityBudget → Call
  reserves releases commits consumes : ℕ → ℕ → Call

abbrev pub or_zero : Option ℕ → ℕ
or_zero none = 0
or_zero (some n) = n

abbrev pub consumed_of : ℕ → BudgetLedger → ℕ
consumed_of j l = or_zero (get j l.consumed)

get_consumed-register :
    (hash : AuthorityBudget → ℕ) (b : AuthorityBudget) (j : ℕ) (l : BudgetLedger)
    → consumed_of j (register hash b l).1 ≡ consumed_of j l
unfolding register add_budget
get_consumed-register hash b j l = ground (arith, get-put_default j b.budget_id 0 l.consumed)

consumed-reserve :
    (id amount : ℕ) (l : BudgetLedger) → (reserve id amount l).1.consumed ≡ l.consumed
unfolding reserve
consumed-reserve id amount l = ground arith

consumed-release :
    (id amount : ℕ) (l : BudgetLedger) → (release id amount l).1.consumed ≡ l.consumed
unfolding release
consumed-release id amount l = ground arith

get_consumed-commit :
    (j id amount : ℕ) (l : BudgetLedger)
    → consumed_of j (commit id amount l).1
      ≡ consumed_of j l
        + (if id == j then (if is_ok (commit id amount l).0 then amount else 0) else 0)
unfolding commit
get_consumed-commit j id amount l = elim (Option-cases (get id l.consumed)) [
  | inl f ↦ ground arith
  | inr (c, f) ↦ ground (arith, get-put j id (c + amount) l.consumed)
]

get_consumed-consume :
    (j id amount : ℕ) (l : BudgetLedger)
    → consumed_of j (consume id amount l).1
      ≡ consumed_of j l
        + (if id == j then (if is_ok (consume id amount l).0 then amount else 0) else 0)
unfolding consume usage require
get_consumed-consume j id amount l = elim (Option-cases (get id l.consumed)) [
  | inl f ↦ ground arith
  | inr (c, f) ↦ ground (arith, get-put j id (c + amount) l.consumed)
]

-- Calls in the order in which the lock admits them. A call that raises may be followed by others.
module _ (hash : AuthorityBudget → ℕ) where
  unfoldable pub step : BudgetLedger → Call → BudgetLedger
  step l (registers b) = (register hash b l).1
  step l (reserves id amount) = (reserve id amount l).1
  step l (releases id amount) = (release id amount l).1
  step l (commits id amount) = (commit id amount l).1
  step l (consumes id amount) = (consume id amount l).1

  unfoldable pub run : BudgetLedger → List Call → BudgetLedger
  run l [] = l
  run l (c ∷ cs) = run (step l c) cs

  -- What a call spends of the budget `j`.
  abbrev pub spends : ℕ → BudgetLedger → Call → ℕ
  spends j l (commits id amount) =
      if id == j then (if is_ok (commit id amount l).0 then amount else 0) else 0
  spends j l (consumes id amount) =
      if id == j then (if is_ok (consume id amount l).0 then amount else 0) else 0
  spends j l _ = 0

  unfoldable pub spent : ℕ → BudgetLedger → List Call → ℕ
  spent j l [] = 0
  spent j l (c ∷ cs) = spends j l c + spent j (step l c) cs

  step-Within :
      (j : ℕ) (l : BudgetLedger) (c : Call)
      → IsCollisionFree hash
      → ((i : ℕ) → Within i l)
      → Within j (step l c)
  unfolding step
  step-Within j l (registers b) inj v = register-Within hash b j l inj (v j)
  step-Within j l (reserves id amount) inj v = reserve-Within id j amount l (v j)
  step-Within j l (releases id amount) inj v = release-Within id j amount l (v j)
  step-Within j l (commits id amount) inj v = commit-Within id j amount l (v id) (v j)
  step-Within j l (consumes id amount) inj v = consume-Within id j amount l (v j)

  run-Within :
      (l : BudgetLedger) (cs : List Call)
      → IsCollisionFree hash
      → ((i : ℕ) → Within i l)
      → (j : ℕ) → Within j (run l cs)
  unfolding run
  run-Within l [] inj v = v
  run-Within l (c ∷ cs) inj v = run-Within (step l c) cs inj (λ i. step-Within i l c inj v)

  step-spends :
      (j : ℕ) (l : BudgetLedger) (c : Call)
      → consumed_of j (step l c) ≡ consumed_of j l + spends j l c
  unfolding step
  step-spends j l (registers b) = rw get_consumed-register (omega arith)
  step-spends j l (reserves id amount) = rw consumed-reserve (omega arith)
  step-spends j l (releases id amount) = rw consumed-release (omega arith)
  step-spends j l (commits id amount) = get_consumed-commit j id amount l
  step-spends j l (consumes id amount) = get_consumed-consume j id amount l

  run-spent :
      (j : ℕ) (l : BudgetLedger) (cs : List Call)
      → consumed_of j (run l cs) ≡ consumed_of j l + spent j l cs
  unfolding run spent
  run-spent j l [] = omega arith
  run-spent j l (c ∷ cs) = omega (arith, run-spent j (step l c) cs, step-spends j l c)

consumed-empty : (j : ℕ) → get j empty.consumed ≡ none
unfolding empty
consumed-empty j = get-empty j

empty-Within : (j : ℕ) → Within j empty
unfolding empty
empty-Within j = rw (get-empty {V = AuthorityBudget}, get-empty {V = ℕ}) tt

within_limit :
    (n : ℕ) (b : AuthorityBudget) (consumed reserved : Option ℕ)
    → limit b ≡ ok n
    → IsWithin (some b) consumed reserved
    → or_zero consumed + or_zero reserved ≤ n
within_limit n b (some c) (some r) e v = ground arith
within_limit n b none (some r) e v = elim v [ ]
within_limit n b none none e v = elim v [ ]
within_limit n b (some c) none e v = elim v [ ]

-- From an empty ledger, over any sequence of registrations, reservations, releases, commits and
-- consumptions, the successful ones counted: the ledger's consumed amount of a budget is exactly
-- what was spent of it, and with what is reserved it is at most the limit of the budget that is
-- registered, if the digest of budgets tells different limits apart.
pub spent_within_limit :
    (hash : AuthorityBudget → ℕ) (cs : List Call) (id n : ℕ) (b : AuthorityBudget)
    → IsCollisionFree hash
    → get id (run hash empty cs).budgets ≡ some b
    → limit b ≡ ok n
    → (consumed_of id (run hash empty cs) ≡ spent hash id empty cs)
      × (spent hash id empty cs + or_zero (get id (run hash empty cs).reserved) ≤ n)
spent_within_limit hash cs id n b inj known lim =
    let l : BudgetLedger = run hash empty cs in
    let count : consumed_of id l ≡ spent hash id empty cs =
      omega (arith, run-spent hash id empty cs, ap or_zero (consumed-empty id)) in
    let v : IsWithin (some b) (get id l.consumed) (get id l.reserved) =
      rw known at (run-Within hash empty cs inj empty-Within id) in
    (count, omega (arith, count, within_limit n b (get id l.consumed) (get id l.reserved) lim v))
