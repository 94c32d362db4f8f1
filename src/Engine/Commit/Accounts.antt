-- ===== src/Engine/Commit/Accounts.antt =====
-- engine/core.py: the stages of `commit` after the budget, and the accounts of the whole.
use chitragupta_protocol.Base.{
  ℕ, ◌≡◌, refl, sym, ap, subst, Bool, true, false, Option, none, some, List, [], ◌∷◌, ◌++◌, inl,
  inr,
}
use chitragupta_protocol.Engine.Checks.{
  Context, Request, Checked, passes, denies, raises, commit_checks,
  grant_ancestor_revocation_checked,
}
use chitragupta_protocol.Engine.Control.{
  Control, JournalEntry, continue, ◌>>◌, move, discard, handle, checked,
}
use chitragupta_protocol.Engine.Commit.{
  reserve_budget, release_both, reserve_grant, grant_reserved, start_committing, intent, intent_in,
  intent_recorded, record_intent, execute, commit, note_ancestors, committing_event,
}
use chitragupta_protocol.Engine.Commit.Settling.{
  Taken, grant-Taken, refused-touched, confirm-recorded, abandon-recorded,
}
use chitragupta_protocol.Engine.Commit.Holding.{
  Ledgers, release_budget-Ledgers, Ready, Held, release_both_lem,
}
use chitragupta_protocol.Engine.Commit.Endings.{
  Charged, Ending, kept, replayed, performs, finish-Ending, Return,
}
use chitragupta_protocol.Engine.{Engine, transition_to}
use chitragupta_protocol.Errors.{Result, ok, err, is_ok}
use chitragupta_protocol.GrantStore.{GrantStore, get_idempotent_outcome}
use chitragupta_protocol.GrantStore
use chitragupta_protocol.Lifecycle.{LifecycleRecord, committing}
use chitragupta_protocol.Outbox.{Outbox, record_pending}
use chitragupta_protocol.Engine.Commit.Budgeting.{
  Stage, stage-Ending, Stopped, BudgetHeld, reserve_budget-Stage,
}

-- The use of the grant is reserved too.
record GrantHeld (q : Request) (w0 : Control) (budget : Option (ℕ × ℕ)) (w : Control) : Type 0 where
  charged :
      Charged q.grant.authority_budget_id w0.budget_ledger q.sealed.manifest.estimated_cost budget
  ledgers : Ledgers budget w0.budget_ledger w.budget_ledger
  taken : Taken q.grant.grant_id q.grant.max_uses w0.grant_store w.grant_store
  reserved : (GrantStore.reserve q.grant.grant_id q.grant.max_uses w0.grant_store).0 ≡ true
  performed : w.performed ≡ w0.performed
  engine : w.engine ≡ w0.engine

refused-Stage :
    (q : Request) (w0 : Control) (budget : Option (ℕ × ℕ)) (won : Bool) (w : Control)
    → BudgetHeld q w0 budget w
    → (GrantStore.reserve q.grant.grant_id q.grant.max_uses w0.grant_store).0 ≡ won
    → Stage
        (λ _. GrantHeld q w0 budget)
        (Stopped q w0)
        (grant_reserved budget won (record w {
          grant_store = (GrantStore.reserve q.grant.grant_id q.grant.max_uses w0.grant_store).1;
        }))
refused-Stage q w0 budget true w h e = record {
  charged = h.charged;
  ledgers = h.ledgers;
  taken = grant-Taken q.grant.grant_id q.grant.max_uses w0.grant_store e;
  reserved = e;
  performed = h.performed;
  engine = h.engine;
}
refused-Stage q w0 budget false w h e =
    rw
      (release_budget-Ledgers budget w0.budget_ledger
        (record w {
          grant_store = (GrantStore.reserve q.grant.grant_id q.grant.max_uses w0.grant_store).1;
        })
        h.ledgers)
      record {
        performed = h.performed;
        ledger = refl;
        store = inr (refused-touched q.grant.grant_id q.grant.max_uses w0.grant_store e);
      }

reserve_grant-Stage :
    (q : Request) (w0 : Control) (budget : Option (ℕ × ℕ)) (w : Control)
    → BudgetHeld q w0 budget w
    → Stage (λ _. GrantHeld q w0 budget) (Stopped q w0) (reserve_grant q.grant budget w)
unfolding reserve_grant
reserve_grant-Stage q w0 budget w h = rw h.store (
    refused-Stage q w0 budget
      (GrantStore.reserve q.grant.grant_id q.grant.max_uses w0.grant_store).0 w h refl)

-- The lifecycle has moved too.
record Moving (c : Context) (q : Request) (w0 : Control) (budget : Option (ℕ × ℕ)) (w : Control)
    : Type 0 where
  charged :
      Charged q.grant.authority_budget_id w0.budget_ledger q.sealed.manifest.estimated_cost budget
  ledgers : Ledgers budget w0.budget_ledger w.budget_ledger
  taken : Taken q.grant.grant_id q.grant.max_uses w0.grant_store w.grant_store
  reserved : (GrantStore.reserve q.grant.grant_id q.grant.max_uses w0.grant_store).0 ≡ true
  performed : w.performed ≡ w0.performed
  moved :
      is_ok
        (transition_to q.sealed.manifest.manifest_id committing committing_event c.now_transition
          w0.engine).0
      ≡ true

-- `moved` is the end of `_transition`, and `w` is with the engine that it leaves.
moved-Stage :
    (c : Context) (q : Request) (w0 : Control) (budget : Option (ℕ × ℕ))
    (moved : Result LifecycleRecord) (w : Control)
    → (transition_to q.sealed.manifest.manifest_id committing committing_event c.now_transition
        w0.engine).0
      ≡ moved
    → GrantHeld q w0 budget (record w { engine = w0.engine })
    → Stage
        (λ _. Moving c q w0 budget)
        (Stopped q w0)
        (handle (discard moved, w) (release_both q.grant.grant_id budget))
moved-Stage c q w0 budget (ok r) w e h = record {
  charged = h.charged;
  ledgers = h.ledgers;
  taken = h.taken;
  reserved = h.reserved;
  performed = h.performed;
  moved = ap is_ok e;
}
moved-Stage c q w0 budget (err x) w e h =
    rw (release_both_lem q budget w0 w h.ledgers h.taken)
      record { performed = h.performed; ledger = refl; store = inr refl }

start_committing-Stage :
    (c : Context) (q : Request) (w0 : Control) (budget : Option (ℕ × ℕ)) (w : Control)
    → GrantHeld q w0 budget w
    → Stage (λ _. Moving c q w0 budget) (Stopped q w0) (start_committing c q budget w)
unfolding start_committing move
start_committing-Stage c q w0 budget w h =
    let moved =
      transition_to q.sealed.manifest.manifest_id committing committing_event c.now_transition
        w.engine in
    moved-Stage c q w0 budget moved.0 (record w { engine = moved.1 })
      (ap
        (λ (x : Engine).
          (transition_to q.sealed.manifest.manifest_id committing committing_event c.now_transition
            x).0)
        (sym h.engine))
      record {
        charged = h.charged;
        ledgers = h.ledgers;
        taken = h.taken;
        reserved = h.reserved;
        performed = h.performed;
        engine = refl;
      }

-- The intent is noted, or no outbox is configured.
record Noted (c : Context) (q : Request) (w0 : Control) (budget : Option (ℕ × ℕ)) (p : Bool)
    (w : Control) : Type 0 where
  charged :
      Charged q.grant.authority_budget_id w0.budget_ledger q.sealed.manifest.estimated_cost budget
  held : Held q budget p w0 w
  performed : w.performed ≡ w0.performed
  reserved : (GrantStore.reserve q.grant.grant_id q.grant.max_uses w0.grant_store).0 ≡ true
  moved :
      is_ok
        (transition_to q.sealed.manifest.manifest_id committing committing_event c.now_transition
          w0.engine).0
      ≡ true

recorded-Stage :
    (c : Context) (q : Request) (w0 : Control) (budget : Option (ℕ × ℕ)) (box : Outbox)
    (r : Result Outbox) (w : Control)
    → Moving c q w0 budget w
    → record_pending (intent q) box ≡ r
    → Stage (Noted c q w0 budget) (Stopped q w0) (intent_recorded q budget r w)
unfolding intent
recorded-Stage c q w0 budget box (ok after) w h e = record {
  charged = h.charged;
  held = record {
    ledgers = h.ledgers;
    taken = h.taken;
    ready = (
      λ outcome. confirm-recorded (intent q) outcome box after e,
      abandon-recorded (intent q) box after e,
    );
  };
  performed = h.performed;
  reserved = h.reserved;
  moved = h.moved;
}
recorded-Stage c q w0 budget box (err x) w h e =
    rw (release_both_lem q budget w0 w h.ledgers h.taken)
      record { performed = h.performed; ledger = refl; store = inr refl }

intent_in-Stage :
    (c : Context) (q : Request) (w0 : Control) (budget : Option (ℕ × ℕ)) (box : Option Outbox)
    (w : Control)
    → w.outbox_store ≡ box
    → Moving c q w0 budget w
    → Stage (Noted c q w0 budget) (Stopped q w0) (intent_in box q budget w)
intent_in-Stage c q w0 budget none w e h = record {
  charged = h.charged;
  held = record {
    ledgers = h.ledgers;
    taken = h.taken;
    ready = subst (Ready false q.sealed.manifest.idempotency_key) (sym e) tt;
  };
  performed = h.performed;
  reserved = h.reserved;
  moved = h.moved;
}
intent_in-Stage c q w0 budget (some box) w e h =
    recorded-Stage c q w0 budget box (record_pending (intent q) box) w h refl

record_intent-Stage :
    (c : Context) (q : Request) (w0 : Control) (budget : Option (ℕ × ℕ)) (w : Control)
    → Moving c q w0 budget w
    → Stage (Noted c q w0 budget) (Stopped q w0) (record_intent q budget w)
unfolding record_intent
record_intent-Stage c q w0 budget w h = intent_in-Stage c q w0 budget w.outbox_store w refl h

-- A reservation leaves the outcomes that the store holds.
same_outcome :
    (c : Context) (q : Request) (w0 : Control) (budget : Option (ℕ × ℕ)) (p : Bool) (w : Control)
    → Noted c q w0 budget p w
    → get_idempotent_outcome q.sealed.manifest.idempotency_key w.grant_store
      ≡ get_idempotent_outcome q.sealed.manifest.idempotency_key w0.grant_store
unfolding get_idempotent_outcome
same_outcome c q w0 budget p w n = rw n.held.taken.after refl

-- `commit` after its checks ends in one of the ways.
execute-Ending : (c : Context) (q : Request) (w0 : Control) → Ending c q w0 (execute c q w0)
unfolding execute
execute-Ending c q w0 =
    stage-Ending c q w0 (BudgetHeld q w0)
      (reserve_budget q.grant.authority_budget_id q.sealed.manifest.estimated_cost w0) _
      (reserve_budget-Stage q w0 q.grant.authority_budget_id refl)
      λ budget w1 h1.
        stage-Ending c q w0 (λ _. GrantHeld q w0 budget) (reserve_grant q.grant budget w1) _
          (reserve_grant-Stage q w0 budget w1 h1)
          λ _ w2 h2.
            stage-Ending c q w0 (λ _. Moving c q w0 budget) (start_committing c q budget w2) _
              (start_committing-Stage c q w0 budget w2 h2)
              λ _ w3 h3.
                stage-Ending c q w0 (Noted c q w0 budget) (record_intent q budget w3) _
                  (record_intent-Stage c q w0 budget w3 h3)
                  λ p w4 n.
                    finish-Ending c q budget p
                      (get_idempotent_outcome q.sealed.manifest.idempotency_key w4.grant_store) w0
                      w4 n.charged n.held n.performed n.reserved n.moved
                      (sym (same_outcome c q w0 budget p w4 n))

-- Appending to the journal changes no account.
ending_with_journal :
    (c : Context) (q : Request) (w : Control) (journal : List JournalEntry) (r : Return)
    → Ending c q (record w { journal = journal }) r
    → Ending c q w r
ending_with_journal c q w journal r (kept k) = kept record {
  calls = elim k.calls [
    | inl s ↦ inl s
    | inr (a, s) ↦ inr (
      record {
        reserved = a.reserved;
        moved = a.moved;
        unknown = a.unknown;
        satisfied = a.satisfied;
      },
      s,
    )
  ];
  unsuccessful = k.unsuccessful;
  ledger = k.ledger;
  store = k.store;
}
ending_with_journal c q w journal r (replayed k) = replayed record {
  moved = k.moved;
  outcome = k.outcome;
  known = k.known;
  ledger = k.ledger;
  store = k.store;
  not_performed = k.not_performed;
}
ending_with_journal c q w journal r (performs budget charged k) = performs budget charged record {
  cleared = record {
    reserved = k.cleared.reserved;
    moved = k.cleared.moved;
    unknown = k.cleared.unknown;
    satisfied = k.cleared.satisfied;
  };
  answer = k.answer;
  answered = k.answered;
  successful = k.successful;
  ledger = k.ledger;
  store = k.store;
  once = k.once;
}

noted-Ending :
    (c : Context) (q : Request) (w : Control) (ancestors : List ℕ)
    → Ending c q w (continue (note_ancestors ancestors w) (λ _. execute c q))
noted-Ending c q w [] = execute-Ending c q w
noted-Ending c q w (x ∷ xs) =
    ending_with_journal c q w
      (w.journal ++ record { event_type = grant_ancestor_revocation_checked; blocked = none } ∷ [])
      _ (execute-Ending c q _)

checked-Ending :
    (c : Context) (q : Request) (w : Control) (r : Checked (List ℕ))
    → Ending c q w (continue (checked r w) (λ ancestors. note_ancestors ancestors >> execute c q))
checked-Ending c q w (passes ancestors) = noted-Ending c q w ancestors
checked-Ending c q w (denies event e) =
    kept record { calls = inl refl; unsuccessful = refl; ledger = refl; store = inl refl }
checked-Ending c q w (raises e) =
    kept record { calls = inl refl; unsuccessful = refl; ledger = refl; store = inl refl }

-- Whatever the request and the state, a commit ends in one of three ways. It is not successful, and
-- then the ledger is as it was and the grant store too, but for a fresh slot of the grant, and the
-- adapter was not called or was called once after all of: the grant store gave it a use, the lifecycle
-- moved to COMMITTING, no outcome is known for the idempotency key, the preconditions hold. Or the
-- grant store held an outcome for the key: then one use is consumed, no budget is, and the adapter is
-- not called. Or the adapter was called once, after the same, and reported success: then one use is
-- consumed, and of the budget that the grant names the amount that the manifest's cost asks for.
pub commit_ends : (c : Context) (q : Request) (w : Control) → Ending c q w (commit c q w)
unfolding commit
commit_ends c q w = checked-Ending c q w (commit_checks c q w.grant_store)
