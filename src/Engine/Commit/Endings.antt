-- ===== src/Engine/Commit/Endings.antt =====
-- engine/core.py: the ways in which `commit` ends, of what it leaves in the grant store, the ledger and
-- the adapter.
use chitragupta_protocol.Base.{
  ℕ, ◌≡◌, refl, sym, subst, Bool, true, false, Option, none, some, List, [], ◌∷◌, ◌++◌, ◌⊎◌, inl,
  inr, ap, ◌∙◌,
}
use chitragupta_protocol.Adapters.{CommitResult}
use chitragupta_protocol.Budget.{BudgetLedger}
use chitragupta_protocol.Domain.{MonetaryAmount}
use chitragupta_protocol.Engine.Checks.{Context, Request}
use chitragupta_protocol.Engine.Control.{Control, continue, return, raise, move, finalize_grant}
use chitragupta_protocol.Engine.Commit.{
  budget_amount, outcome_of, replay, fail, succeed, after_effect, perform, after_preconditions,
  finish, conclude, committing_event, replay_event, committed_event, commit_error_event,
  commit_failed_event, precondition_error_event, stale_event,
}
use chitragupta_protocol.Lifecycle.{committing, committed}
use chitragupta_protocol.Engine.{transition_to}
use chitragupta_protocol.Engine.Commit.Settling.{touched, used, commit-Taken}
use chitragupta_protocol.Errors.{stale_manifest_error, Error, Result, ok, err, is_ok}
use chitragupta_protocol.GrantStore.{GrantStore, get_idempotent_outcome}
use chitragupta_protocol.GrantStore
use chitragupta_protocol.Engine.Commit.Holding.{
  spent, release_budget-Ledgers, commit_budget-Ledgers, confirm_outbox-Ready, CanAbandon,
  Ready-CanAbandon, Held, fail-GivenBack,
}

-- A commit reports success.
abbrev pub reports_success : Result CommitResult → Bool
reports_success (ok r) = r.success
reports_success (err e) = false

abbrev pub Return : Type 0
Return = Result CommitResult × Control

-- What holds when a commit calls its adapter, of the state in which it began: the grant store gave it
-- a use, the lifecycle moved to COMMITTING, no outcome is known for the idempotency key, and the
-- adapter found its preconditions satisfied.
pub record Cleared (c : Context) (q : Request) (w : Control) : Type 0 where
  pub reserved : (GrantStore.reserve q.grant.grant_id q.grant.max_uses w.grant_store).0 ≡ true
  pub moved :
      is_ok
        (transition_to q.sealed.manifest.manifest_id committing committing_event c.now_transition
          w.engine).0
      ≡ true
  pub unknown : get_idempotent_outcome q.sealed.manifest.idempotency_key w.grant_store ≡ none
  pub satisfied : q.adapter.validate_preconditions q.sealed.manifest ≡ ok true

-- The adapter was not called, or it was called once, and cleared before.
abbrev pub Calls : Context → Request → Control → List ℕ → Type 0
Calls c q w performed =
    (performed ≡ w.performed)
    ⊎ (Cleared c q w × (performed ≡ w.performed ++ q.sealed.manifest.idempotency_key ∷ []))

-- The commit was refused or failed: nothing is consumed, and nothing reserved stays.
pub record Kept (c : Context) (q : Request) (w : Control) (r : Return) : Type 0 where
  pub calls : Calls c q w r.1.performed
  pub unsuccessful : reports_success r.0 ≡ false
  pub ledger : r.1.budget_ledger ≡ w.budget_ledger
  pub store :
      (r.1.grant_store ≡ w.grant_store)
      ⊎ (r.1.grant_store ≡ touched q.grant.grant_id q.grant.max_uses w.grant_store)

-- The grant store held an outcome for the idempotency key: a use is consumed, no budget is, and the
-- adapter is not called.
pub record Replayed (c : Context) (q : Request) (w : Control) (r : Return) : Type 0 where
  pub moved :
      is_ok
        (transition_to q.sealed.manifest.manifest_id committing committing_event c.now_transition
          w.engine).0
      ≡ true
  pub outcome : ℕ
  pub known : get_idempotent_outcome q.sealed.manifest.idempotency_key w.grant_store ≡ some outcome
  pub ledger : r.1.budget_ledger ≡ w.budget_ledger
  pub store :
      r.1.grant_store
      ≡ used q.grant.grant_id q.grant.max_uses q.sealed.manifest.idempotency_key outcome
          w.grant_store
  pub not_performed : r.1.performed ≡ w.performed

-- The adapter reported success: a use is consumed, and the amount that the grant's budget is charged.
pub record Performed (c : Context) (q : Request) (budget : Option (ℕ × ℕ)) (w : Control)
    (r : Return) : Type 0 where
  pub cleared : Cleared c q w
  pub answer : CommitResult
  pub answered : q.adapter.perform q.sealed.manifest q.grant ≡ ok answer
  pub successful : answer.success ≡ true
  pub ledger : r.1.budget_ledger ≡ spent budget w.budget_ledger
  pub store :
      r.1.grant_store
      ≡ used q.grant.grant_id q.grant.max_uses q.sealed.manifest.idempotency_key
          (outcome_of answer.provider_reference)
          w.grant_store
  pub once : r.1.performed ≡ w.performed ++ q.sealed.manifest.idempotency_key ∷ []

-- A call whose value is given after a last step, or an error raised: the step's state is final.
landed :
    {A : Type 0} (r : Result (Unit {0}) × Control) (a : A) → (continue r (λ _. return a)).1 ≡ r.1
landed (ok u, w) a = refl
landed (err e, w) a = refl

raised :
    (r : Result (Unit {0}) × Control) (e : Error)
    → ((continue {B = CommitResult} r (λ _. raise e)).1 ≡ r.1)
      × (reports_success (continue {B = CommitResult} r (λ _. raise e)).0 ≡ false)
raised (ok u, w) e = (refl, refl)
raised (err x, w) e = (refl, refl)

unsuccessful :
    (r : Result (Unit {0}) × Control) (a : CommitResult)
    → a.success ≡ false
    → reports_success (continue r (λ _. return a)).0 ≡ false
unsuccessful (ok u, w) a h = h
unsuccessful (err e, w) a h = refl

replay-Replayed :
    (c : Context) (q : Request) (budget : Option (ℕ × ℕ)) (p : Bool) (outcome : ℕ) (w0 w : Control)
    → Held q budget p w0 w
    → w.performed ≡ w0.performed
    → is_ok
        (transition_to q.sealed.manifest.manifest_id committing committing_event c.now_transition
          w0.engine).0
      ≡ true
    → get_idempotent_outcome q.sealed.manifest.idempotency_key w0.grant_store ≡ some outcome
    → Replayed c q w0 (replay c q budget p outcome w)
unfolding replay finalize_grant move
replay-Replayed c q budget p outcome w0 w h same moved known =
    let key : ℕ = q.sealed.manifest.idempotency_key in
    let w1 : Control = record w { budget_ledger = w0.budget_ledger } in
    let (o, confirmed) = confirm_outbox-Ready p key outcome w1 h.ready in
    let w2 : Control = record w1 {
      outbox_store = o;
      grant_store = used q.grant.grant_id q.grant.max_uses key outcome w0.grant_store;
    } in
    let answer : CommitResult = record { success = true; provider_reference = some outcome } in
    let end =
      landed (move q.sealed.manifest.manifest_id committed replay_event c.now_transition w2)
        answer in
    rw
      (
        release_budget-Ledgers budget w0.budget_ledger w h.ledgers,
        confirmed,
        commit-Taken q.grant.grant_id q.grant.max_uses key outcome w0.grant_store w.grant_store
            h.taken,
      )
      record {
        moved = moved;
        outcome = outcome;
        known = known;
        ledger = ap (λ (x : Control). x.budget_ledger) end;
        store = ap (λ (x : Control). x.grant_store) end;
        not_performed = ap (λ (x : Control). x.performed) end ∙ same;
      }

succeed-Performed :
    (c : Context) (q : Request) (budget : Option (ℕ × ℕ)) (p : Bool) (answer : CommitResult)
    (w0 w : Control)
    → Held q budget p w0 w
    → Cleared c q w0
    → w.performed ≡ w0.performed ++ q.sealed.manifest.idempotency_key ∷ []
    → q.adapter.perform q.sealed.manifest q.grant ≡ ok answer
    → answer.success ≡ true
    → Performed c q budget w0 (succeed c q budget p answer w)
unfolding succeed finalize_grant move
succeed-Performed c q budget p answer w0 w h clear once answered s =
    let key : ℕ = q.sealed.manifest.idempotency_key in
    let outcome : ℕ = outcome_of answer.provider_reference in
    let w1 : Control = record w { budget_ledger = spent budget w0.budget_ledger } in
    let (o, confirmed) = confirm_outbox-Ready p key outcome w1 h.ready in
    let w2 : Control = record w1 {
      outbox_store = o;
      grant_store = used q.grant.grant_id q.grant.max_uses key outcome w0.grant_store;
    } in
    let end =
      landed (move q.sealed.manifest.manifest_id committed committed_event c.now_transition w2)
        answer in
    rw
      (
        commit_budget-Ledgers budget w0.budget_ledger w h.ledgers,
        confirmed,
        commit-Taken q.grant.grant_id q.grant.max_uses key outcome w0.grant_store w.grant_store
            h.taken,
      )
      record {
        cleared = clear;
        answer = answer;
        answered = answered;
        successful = s;
        ledger = ap (λ (x : Control). x.budget_ledger) end;
        store = ap (λ (x : Control). x.grant_store) end;
        once = ap (λ (x : Control). x.performed) end ∙ once;
      }

-- A failure that ends in an exception.
fail-Kept :
    (c : Context) (q : Request) (budget : Option (ℕ × ℕ)) (p abandons : Bool) (event : ℕ)
    (e : Error) (w0 w : Control)
    → Held q budget p w0 w
    → CanAbandon abandons q.sealed.manifest.idempotency_key w.outbox_store
    → Calls c q w0 w.performed
    → Kept c q w0 (continue (fail c q budget p abandons event w) (λ _. raise e))
fail-Kept c q budget p abandons event e w0 w h r calls =
    let (back, same) = fail-GivenBack c q budget p abandons event w0 w h r in
    let (end, fails) = raised (fail c q budget p abandons event w) e in
    record {
      calls = subst (Calls c q w0) (sym (ap (λ (x : Control). x.performed) end ∙ same)) calls;
      unsuccessful = fails;
      ledger = ap (λ (x : Control). x.budget_ledger) end ∙ back.ledger;
      store = inr (ap (λ (x : Control). x.grant_store) end ∙ back.store);
    }

-- The budget and the amount that a commit is to charge, of what the grant names.
abbrev pub Charged :
    Option ℕ → Option BudgetLedger → Option MonetaryAmount → Option (ℕ × ℕ) → Type 0
Charged none ledger cost budget = budget ≡ none
Charged (some id) ledger cost budget =
    (amount : ℕ) × (budget_amount ledger id cost ≡ ok amount) × (budget ≡ some (id, amount))

-- The ways in which a commit ends.
pub data Ending (c : Context) (q : Request) (w : Control) (r : Return) : Type 0 where
  kept : Kept c q w r → Ending c q w r
  replayed : Replayed c q w r → Ending c q w r
  performs :
      (budget : Option (ℕ × ℕ))
      → Charged q.grant.authority_budget_id w.budget_ledger q.sealed.manifest.estimated_cost budget
      → Performed c q budget w r
      → Ending c q w r

-- From the adapter's answer on.
after_effect-Ending :
    (c : Context) (q : Request) (budget : Option (ℕ × ℕ)) (p : Bool) (answer : Result CommitResult)
    (w0 w : Control)
    → Charged q.grant.authority_budget_id w0.budget_ledger q.sealed.manifest.estimated_cost budget
    → Held q budget p w0 w
    → Cleared c q w0
    → w.performed ≡ w0.performed ++ q.sealed.manifest.idempotency_key ∷ []
    → q.adapter.perform q.sealed.manifest q.grant ≡ answer
    → Ending c q w0 (after_effect c q budget p answer w)
unfolding after_effect
after_effect-Ending c q budget p (err e) w0 w charged h clear once a =
    kept (fail-Kept c q budget p false commit_error_event e w0 w h tt (inr (clear, once)))
after_effect-Ending c q budget p (ok answer) w0 w charged h clear once a =
    conclude-Ending answer.success refl
  where
    conclude-Ending :
        (b : Bool) → answer.success ≡ b → Ending c q w0 (conclude c q budget p b answer w)
    conclude-Ending true s =
        performs budget charged (succeed-Performed c q budget p answer w0 w h clear once a s)
    conclude-Ending false s =
        let (back, same) =
          fail-GivenBack c q budget p p commit_failed_event w0 w h
            (Ready-CanAbandon p q.sealed.manifest.idempotency_key w.outbox_store h.ready) in
        let end = landed (fail c q budget p p commit_failed_event w) answer in
        kept record {
          calls = inr (clear, ap (λ (x : Control). x.performed) end ∙ same ∙ once);
          unsuccessful = unsuccessful (fail c q budget p p commit_failed_event w) answer s;
          ledger = ap (λ (x : Control). x.budget_ledger) end ∙ back.ledger;
          store = inr (ap (λ (x : Control). x.grant_store) end ∙ back.store);
        }

-- From the answer on the preconditions on.
after_preconditions-Ending :
    (c : Context) (q : Request) (budget : Option (ℕ × ℕ)) (p : Bool) (answer : Result Bool)
    (w0 w : Control)
    → Charged q.grant.authority_budget_id w0.budget_ledger q.sealed.manifest.estimated_cost budget
    → Held q budget p w0 w
    → w.performed ≡ w0.performed
    → (q.adapter.validate_preconditions q.sealed.manifest ≡ ok true → Cleared c q w0)
    → q.adapter.validate_preconditions q.sealed.manifest ≡ answer
    → Ending c q w0 (after_preconditions c q budget p answer w)
unfolding after_preconditions perform
after_preconditions-Ending c q budget p (err e) w0 w charged h same clear a = kept (
    fail-Kept c q budget p p precondition_error_event e w0 w h
      (Ready-CanAbandon p q.sealed.manifest.idempotency_key w.outbox_store h.ready) (inl same))
after_preconditions-Ending c q budget p (ok false) w0 w charged h same clear a = kept (
    fail-Kept c q budget p p stale_event stale_manifest_error w0 w h
      (Ready-CanAbandon p q.sealed.manifest.idempotency_key w.outbox_store h.ready) (inl same))
after_preconditions-Ending c q budget p (ok true) w0 w charged h same clear a =
    after_effect-Ending c q budget p (q.adapter.perform q.sealed.manifest q.grant) w0
      (record w { performed = w.performed ++ q.sealed.manifest.idempotency_key ∷ [] }) charged
      record { ledgers = h.ledgers; taken = h.taken; ready = h.ready } (clear a)
      (ap (λ (x : List ℕ). x ++ q.sealed.manifest.idempotency_key ∷ []) same) refl

-- From the intent on, of the outcome that the grant store holds.
pub finish-Ending :
    (c : Context) (q : Request) (budget : Option (ℕ × ℕ)) (p : Bool) (found : Option ℕ)
    (w0 w : Control)
    → Charged q.grant.authority_budget_id w0.budget_ledger q.sealed.manifest.estimated_cost budget
    → Held q budget p w0 w
    → w.performed ≡ w0.performed
    → (GrantStore.reserve q.grant.grant_id q.grant.max_uses w0.grant_store).0 ≡ true
    → is_ok
        (transition_to q.sealed.manifest.manifest_id committing committing_event c.now_transition
          w0.engine).0
      ≡ true
    → get_idempotent_outcome q.sealed.manifest.idempotency_key w0.grant_store ≡ found
    → Ending c q w0 (finish c q budget p found w)
unfolding finish
finish-Ending c q budget p none w0 w charged h same reserved moved unknown =
    after_preconditions-Ending c q budget p (q.adapter.validate_preconditions q.sealed.manifest) w0
      w charged h same
      (λ ready. record { reserved = reserved; moved = moved; unknown = unknown; satisfied = ready })
      refl
finish-Ending c q budget p (some outcome) w0 w charged h same reserved moved known =
    replayed (replay-Replayed c q budget p outcome w0 w h same moved known)
