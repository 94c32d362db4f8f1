-- ===== src/Examples/Budgets.antt =====
-- budget/ and outbox/: the theorems on a ledger and on an outbox over a few calls.
use chitragupta_protocol.Base.{ℕ, ◌+◌, ◌≡◌, ◌≢◌, ◌≤◌, refl, none, some, List, [], ◌∷◌, arith}
use chitragupta_protocol.Base.Dict.{get, put}
use chitragupta_protocol.Errors.{Result, ok, err}
use chitragupta_protocol.Budget.{
  AuthorityBudget, count, limit, limit_of, empty, register, add_budget, put_default, reserve, usage,
  require, consume, commit, reservation, commit_reserved,
}
use chitragupta_protocol.Budget.Limits.{IsCollisionFree}
use chitragupta_protocol.Budget.Spending.{
  Call, step, registers, reserves, commits, consumes, run, spent, consumed_of, or_zero,
  spent_within_limit,
}
use chitragupta_protocol.Outbox.{pending, confirmed, OutboxEntry, Outbox, record_pending}
use chitragupta_protocol.Outbox.Progress
use chitragupta_protocol.Outbox.Progress.{
  records, confirms, abandons, Becomes, intent_is_kept, no_second_intent, record_pending_sound,
}

-- A digest that tells different limits apart.
abbrev digest_of : Result ℕ → ℕ
digest_of (ok n) = n + 1
digest_of (err e) = 0

abbrev digest : AuthorityBudget → ℕ
digest b = digest_of (limit b)

digest_tells : IsCollisionFree digest
unfolding limit limit_of
digest_tells a b h = ground (arith, h)

abbrev budget : AuthorityBudget
budget = record {
  schema_version = 1;
  budget_id = 3;
  kind = count;
  currency = none;
  limit_minor_units = none;
  limit_count = some 5;
}

abbrev spending : List Call
spending =
    registers budget ∷ reserves 3 2 ∷ consumes 3 3 ∷ consumes 3 1 ∷ commits 3 2 ∷ reserves 3 1 ∷ []

registered : get 3 (run digest empty spending).budgets ≡ some budget
unfolding run step empty register add_budget put_default reserve usage require consume commit
    reservation commit_reserved limit limit_of get put
registered = refl

five : limit budget ≡ ok 5
unfolding limit
five = refl

spent_within_limit_example :
    (consumed_of 3 (run digest empty spending) ≡ spent digest 3 empty spending)
    × (spent digest 3 empty spending + or_zero (get 3 (run digest empty spending).reserved) ≤ 5)
spent_within_limit_example =
    spent_within_limit digest spending 3 5 budget digest_tells registered five

abbrev intent : OutboxEntry
intent = record {
  idempotency_key = 8;
  grant_id = 1;
  manifest_id = 7;
  manifest_hash = 77;
  status = pending;
  outcome_ref = none;
}

abbrev settled : OutboxEntry
settled = record intent { status = confirmed; outcome_ref = some 4 }

abbrev box : Outbox
box = (8, settled) ∷ []

settled_found : get 8 box ≡ some settled
unfolding get
settled_found = refl

intent_is_kept_example :
    (e : OutboxEntry) × (get 8 (Progress.run box (abandons 8 ∷ records intent ∷ confirms 9 1 ∷ []))
      ≡ some e)
    × Becomes settled e
intent_is_kept_example =
    intent_is_kept (abandons 8 ∷ records intent ∷ confirms 9 1 ∷ []) 8 settled box settled_found

not_pending : confirmed ≢ pending
not_pending e = ground (arith, e)

recorded : record_pending intent [] ≡ ok ((8, intent) ∷ [])
unfolding record_pending get put
recorded = refl
