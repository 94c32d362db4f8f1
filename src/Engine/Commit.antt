-- ===== src/Engine/Commit.antt =====
-- engine/core.py: `commit`. After the checks it reserves a part of the budget and a use of the grant,
-- moves the lifecycle to COMMITTING, notes its intent in the outbox, and calls the adapter.
pub mod Settling
pub mod Holding
pub mod Endings
pub mod Budgeting
pub mod Accounts
pub mod Once
pub mod Authority
pub mod Keeping
pub mod Stuck
use chitragupta_protocol.Base.{
  ℕ, Bool, true, false, Option, none, some, List, [], ◌∷◌, ◌++◌, ◌==◌, if◌then◌else◌,
}
use chitragupta_protocol.Adapters.{EffectAdapter, CommitResult}
use chitragupta_protocol.Budget.{
  AuthorityBudget, BudgetLedger, require_budget, resolve_budget_consume_amount,
}
use chitragupta_protocol.Budget
use chitragupta_protocol.Domain.{MonetaryAmount}
use chitragupta_protocol.Engine.Checks.{
  Context, Request, commit_checks, attempt, grant_ancestor_revocation_checked,
  authority_budget_resolve_failed, authority_budget_exhausted, grant_reservation_failed,
  outbox_record_failed,
}
use chitragupta_protocol.Engine.Control.{
  Control, M, continue, ◌>>=◌, ◌>>◌, return, raise, handle, note, deny, checked, move,
  release_grant, finalize_grant, on_ledger, release_budget, commit_budget, abandon_outbox,
  confirm_outbox,
}
use chitragupta_protocol.Errors
use chitragupta_protocol.Errors.{
  Error, authority_budget_exhausted_error, grant_exhausted_error, stale_manifest_error, Result, ok,
  err,
}
use chitragupta_protocol.Grants.{ExecutionGrant}
use chitragupta_protocol.GrantStore.{GrantStore, get_idempotent_outcome}
use chitragupta_protocol.GrantStore
use chitragupta_protocol.Lifecycle.{committing, committed, failed}
use chitragupta_protocol.Manifest.{EffectManifest}
use chitragupta_protocol.Outbox.{OutboxEntry, Outbox, pending, record_pending}

-- The event types of the transitions, which are texts.
abbrev pub committing_event : ℕ
committing_event = 1

abbrev pub committed_event : ℕ
committed_event = 2

abbrev pub replay_event : ℕ
replay_event = 3

abbrev pub precondition_error_event : ℕ
precondition_error_event = 4

abbrev pub stale_event : ℕ
stale_event = 5

abbrev pub commit_error_event : ℕ
commit_error_event = 6

abbrev pub commit_failed_event : ℕ
commit_failed_event = 7

-- The text "committed".
abbrev pub committed_text : ℕ
committed_text = 1

-- `provider_reference or "committed"`
unfoldable pub outcome_of : Option ℕ → ℕ
outcome_of none = committed_text
outcome_of (some reference) = if reference == 0 then committed_text else reference

-- The ancestors that were checked are recorded if there are any.
abbrev pub note_ancestors : List ℕ → M (Unit {0})
note_ancestors [] w = (ok tt, w)
note_ancestors (x ∷ xs) w = note grant_ancestor_revocation_checked none w

unfoldable pub budget_amount : Option BudgetLedger → ℕ → Option MonetaryAmount → Result ℕ
budget_amount ledger budget_id cost =
    Errors.◌>>=◌ (require_budget ledger budget_id) λ b. resolve_budget_consume_amount b cost

-- The end of the reservation: whether the ledger granted it.
abbrev pub budget_granted : ℕ → ℕ → Bool → M (Option (ℕ × ℕ))
budget_granted budget_id amount true w = (ok (some (budget_id, amount)), w)
budget_granted budget_id amount false w =
    deny authority_budget_exhausted authority_budget_exhausted_error w

-- Of `grant.authority_budget_id` and the manifest's estimated cost.
unfoldable pub reserve_budget : Option ℕ → Option MonetaryAmount → M (Option (ℕ × ℕ))
reserve_budget none cost w = (ok none, w)
reserve_budget (some budget_id) cost w =
    (do
      amount ←
          checked
            (attempt authority_budget_resolve_failed (budget_amount w.budget_ledger budget_id cost))
      granted ← on_ledger w.budget_ledger (Budget.reserve budget_id amount) false
      budget_granted budget_id amount granted)
      w

-- `release` on the grant store, then `release_budget`
unfoldable pub release_both : ℕ → Option (ℕ × ℕ) → M (Unit {0})
release_both grant_id budget = do release_grant grant_id; release_budget budget

abbrev pub grant_reserved : Option (ℕ × ℕ) → Bool → M (Unit {0})
grant_reserved budget true w = (ok tt, w)
grant_reserved budget false w =
    (do release_budget budget; deny grant_reservation_failed grant_exhausted_error) w

unfoldable pub reserve_grant : ExecutionGrant → Option (ℕ × ℕ) → M (Unit {0})
reserve_grant g budget w =
    let (won, after) = GrantStore.reserve g.grant_id g.max_uses w.grant_store in
    grant_reserved budget won (record w { grant_store = after })

unfoldable pub start_committing : Context → Request → Option (ℕ × ℕ) → M (Unit {0})
start_committing c q budget w =
    handle (move q.sealed.manifest.manifest_id committing committing_event c.now_transition w)
      (release_both q.grant.grant_id budget)

-- The intent that `commit` records.
unfoldable pub intent : Request → OutboxEntry
intent q = record {
  idempotency_key = q.sealed.manifest.idempotency_key;
  grant_id = q.grant.grant_id;
  manifest_id = q.sealed.manifest.manifest_id;
  manifest_hash = q.sealed.seal.manifest_hash;
  status = pending;
  outcome_ref = none;
}

abbrev pub intent_recorded : Request → Option (ℕ × ℕ) → Result Outbox → M Bool
intent_recorded q budget (ok box) w = (ok true, record w { outbox_store = some box })
intent_recorded q budget (err e) w =
    (do release_both q.grant.grant_id budget; deny outbox_record_failed e) w

abbrev pub intent_in : Option Outbox → Request → Option (ℕ × ℕ) → M Bool
intent_in none q budget w = (ok false, w)
intent_in (some box) q budget w = intent_recorded q budget (record_pending (intent q) box) w

-- The result is `outbox_pending`.
unfoldable pub record_intent : Request → Option (ℕ × ℕ) → M Bool
record_intent q budget w = intent_in w.outbox_store q budget w

-- What `commit` does from the call of the adapter on, or with the outcome of an earlier one, of the
-- budget reserved and `outbox_pending`.
module _ (c : Context) (q : Request) (budget : Option (ℕ × ℕ)) (outbox_pending : Bool) where
  unfoldable pub replay : ℕ → M CommitResult
  replay outcome = do
    release_budget budget
    confirm_outbox outbox_pending q.sealed.manifest.idempotency_key outcome
    finalize_grant q.grant.grant_id q.sealed.manifest.idempotency_key outcome
    move q.sealed.manifest.manifest_id committed replay_event c.now_transition
    return (record { success = true; provider_reference = some outcome })

  -- Everything reserved is released; `abandons` is false where the outcome is ambiguous.
  unfoldable pub fail : Bool → ℕ → M (Unit {0})
  fail abandons event = do
    release_both q.grant.grant_id budget
    abandon_outbox abandons q.sealed.manifest.idempotency_key
    move q.sealed.manifest.manifest_id failed event c.now_transition

  unfoldable pub succeed : CommitResult → M CommitResult
  succeed r = do
    commit_budget budget
    confirm_outbox outbox_pending q.sealed.manifest.idempotency_key
        (outcome_of r.provider_reference)
    finalize_grant q.grant.grant_id q.sealed.manifest.idempotency_key
        (outcome_of r.provider_reference)
    move q.sealed.manifest.manifest_id committed committed_event c.now_transition
    return r

  abbrev pub conclude : Bool → CommitResult → M CommitResult
  conclude true r w = succeed r w
  conclude false r w = (do fail outbox_pending commit_failed_event; return r) w

  -- After the adapter's `commit`.
  unfoldable pub after_effect : Result CommitResult → M CommitResult
  after_effect (err e) w = (do fail false commit_error_event; raise e) w
  after_effect (ok r) w = conclude r.success r w

  -- `adapter.commit`
  unfoldable pub perform : M CommitResult
  perform w =
      after_effect (q.adapter.perform q.sealed.manifest q.grant)
        (record w { performed = w.performed ++ q.sealed.manifest.idempotency_key ∷ [] })

  -- After the adapter's `validate_preconditions`.
  unfoldable pub after_preconditions : Result Bool → M CommitResult
  after_preconditions (err e) w = (do fail outbox_pending precondition_error_event; raise e) w
  after_preconditions (ok false) w =
      (do fail outbox_pending stale_event; raise stale_manifest_error) w
  after_preconditions (ok true) w = perform w

  -- Of the outcome that the grant store holds for the idempotency key.
  unfoldable pub finish : Option ℕ → M CommitResult
  finish (some outcome) w = replay outcome w
  finish none w = after_preconditions (q.adapter.validate_preconditions q.sealed.manifest) w

-- `commit` after its checks.
unfoldable pub execute : Context → Request → M CommitResult
execute c q = do
  budget ← reserve_budget q.grant.authority_budget_id q.sealed.manifest.estimated_cost
  reserve_grant q.grant budget
  start_committing c q budget
  outbox_pending ← record_intent q budget
  λ w.
      finish c q budget outbox_pending
        (get_idempotent_outcome q.sealed.manifest.idempotency_key w.grant_store) w

unfoldable pub commit : Context → Request → M CommitResult
commit c q w =
    (do
      ancestors ← checked (commit_checks c q w.grant_store)
      note_ancestors ancestors
      execute c q)
      w
