-- ===== src/Engine/Recovery/Refusal.antt =====
-- engine/core.py: later commits of a manifest whose outcome was recovered.
use chitragupta_protocol.Base.{
  ℕ, ◌≡◌, ◌≢◌, refl, sym, subst, ◌∙◌, Bool, true, false, Option, none, some, ◌⊎◌, arith, Bool-cases,
  inl, inr, ◌||◌, if◌then◌else◌,
}
use chitragupta_protocol.Adapters.{EffectAdapter, OutcomeProof}
use chitragupta_protocol.Base.Dict.{get, get-put_self}
use chitragupta_protocol.Engine.{Engine, get_record, hold, transition_to}
use chitragupta_protocol.Engine.WriteThrough.{moved_record, failed_transition_rolls_back}
use chitragupta_protocol.Engine.Checks.{Context, Request}
use chitragupta_protocol.Engine.Control.{
  Control, continue, return, move, set_outbox, confirm_in, pending_entry,
}
use chitragupta_protocol.Engine.Commit.{commit}
use chitragupta_protocol.Engine.Commit.Authority.{success_was_authorized}
use chitragupta_protocol.Engine.Commit.Endings.{reports_success}
use chitragupta_protocol.Engine.Recovery.{
  recovery_event, recovered_outcome, read_record, remember_outcome, confirm_pending, reconcile,
  backfill, backfill_if, resolve_ambiguous, recover_ambiguous_commit,
}
use chitragupta_protocol.Errors.{Result, ok, err, Result-cases}
use chitragupta_protocol.GrantStore.{record_idempotent_outcome}
use chitragupta_protocol.Lifecycle.{
  LifecycleState, authorized, failed, recovered_committed, LifecycleRecord, is_legal_transition,
}
use chitragupta_protocol.Manifest.{EffectManifest}
use chitragupta_protocol.Outbox.{Outbox, mark_confirmed}
use chitragupta_protocol.Engine.Recovery.Evidence.{continue-keeps}

held-state :
    (m : ℕ) (r : LifecycleRecord) (e : Engine)
    → get m e.records ≡ some r
    → (get_record m e).state ≡ r.state
unfolding get_record
held-state m r e h = ground arith

-- The state of the manifest after a transition: the target, or as it was.
moved-state :
    (m now event : ℕ) (target : LifecycleState) (e : Engine)
    → ((get_record m (transition_to m target event now e).1).state ≡ target)
      ⊎ ((get_record m (transition_to m target event now e).1).state ≡ (get_record m e).state)
moved-state m now event target e = elim (Result-cases (transition_to m target event now e).0) [
  | inl (moved, h) ↦
      let (held, there) = moved_record m now event target e moved h in
      inl (held-state m moved (transition_to m target event now e).1 held ∙ there)
  | inr (x, h) ↦ inr (
      held-state m (get_record m e) (transition_to m target event now e).1
        (failed_transition_rolls_back m now event target e x h).0)
]

-- A state that is not AUTHORIZED.
abbrev IsDone : ℕ → Control → Type 0
IsDone m w = (get_record m w.engine).state ≢ authorized

recovered-ne-authorized : recovered_committed ≢ authorized
recovered-ne-authorized = λ e. cc

confirm_in-engine :
    (box : Option Outbox) (key outcome : ℕ) (w : Control)
    → (confirm_in box false key outcome w).1.engine ≡ w.engine
confirm_in-engine none key outcome w = refl
confirm_in-engine (some box) key outcome w = ifs (pending_entry (get key box) || false)
  where
    sets : (r : Result Outbox) → (set_outbox r w).1.engine ≡ w.engine
    sets (ok after) = refl
    sets (err e) = refl

    ifs :
        (b : Bool)
        → (if b then set_outbox (mark_confirmed key outcome box) w else (ok tt, w)).1.engine
          ≡ w.engine
    ifs true = sets (mark_confirmed key outcome box)
    ifs false = refl

read-IsDone :
    (m : ℕ) (w : Control)
    → IsDone m w
    → IsDone m (record w { engine = hold m (get_record m w.engine) w.engine })
read-IsDone m w d a = d (
    sym (
      held-state m (get_record m w.engine) (hold m (get_record m w.engine) w.engine)
        (get-put_self m (get_record m w.engine) w.engine.records))
    ∙ a)

reconcile-IsDone :
    (c : Context) (m : ℕ) (b : Bool) (w : Control) → IsDone m w → IsDone m (reconcile c m b w).1
unfolding move
reconcile-IsDone c m false w d = d
reconcile-IsDone c m true w d =
    elim (moved-state m c.now_transition recovery_event recovered_committed w.engine) [
      | inl e ↦ λ a. recovered-ne-authorized (sym e ∙ a)
      | inr e ↦ λ a. d (sym e ∙ a)
    ]

backfill-IsDone :
    (c : Context) (m : EffectManifest) (digest : Option ℕ) (w : Control)
    → IsDone m.manifest_id w
    → IsDone m.manifest_id (backfill c m digest w).1
unfolding backfill remember_outcome confirm_pending read_record
backfill-IsDone c m digest w d =
    let outcome : ℕ = recovered_outcome digest in
    let w1 : Control = record w {
      grant_store = record_idempotent_outcome m.idempotency_key outcome w.grant_store;
    } in
    continue-keeps (IsDone m.manifest_id)
      (confirm_in w.outbox_store false m.idempotency_key outcome w1) _
      (subst (λ (x : Engine). (get_record m.manifest_id x).state ≢ authorized)
        (sym (confirm_in-engine w.outbox_store m.idempotency_key outcome w1)) d)
      λ _ w2 d2.
        reconcile-IsDone c m.manifest_id
          (is_legal_transition (get_record m.manifest_id w2.engine).state recovered_committed) _
          (read-IsDone m.manifest_id w2 d2)

backfilled-IsDone :
    (c : Context) (m : EffectManifest) (proof : OutcomeProof) (b : Bool) (w : Control)
    → IsDone m.manifest_id w
    → IsDone m.manifest_id
        (continue (backfill_if b c m proof.observed_after_state_digest w) (λ _. return proof)).1
backfilled-IsDone c m proof false w d = d
backfilled-IsDone c m proof true w d =
    continue-keeps (IsDone m.manifest_id) (backfill c m proof.observed_after_state_digest w) _
      (backfill-IsDone c m proof.observed_after_state_digest w d) λ _ w1 p. p

resolved-IsDone :
    (c : Context) (m : EffectManifest) (answer : Result OutcomeProof) (w : Control)
    → IsDone m.manifest_id w
    → IsDone m.manifest_id (resolve_ambiguous c m answer w).1
unfolding resolve_ambiguous
resolved-IsDone c m (err e) w d = d
resolved-IsDone c m (ok proof) w d = backfilled-IsDone c m proof proof.matched_expected _ d

failed-ne-authorized : failed ≢ authorized
failed-ne-authorized = λ e. cc

-- After the recovery of a manifest that is FAILED, whatever the adapter answers, a commit of the
-- manifest does not report success: the recovered manifest takes no replay path.
pub recovered_commit_is_refused :
    (c c' : Context) (m : EffectManifest) (adapter : EffectAdapter) (w : Control) (q : Request)
    → (get_record m.manifest_id w.engine).state ≡ failed
    → q.sealed.manifest.manifest_id ≡ m.manifest_id
    → reports_success (commit c' q (recover_ambiguous_commit c m adapter w).1).0 ≡ false
unfolding recover_ambiguous_commit
recovered_commit_is_refused c c' m adapter w q f same =
    let w' : Control = (recover_ambiguous_commit c m adapter w).1 in
    elim (Bool-cases (reports_success (commit c' q w').0)) [
      | inr b ↦ b
      | inl b ↦ absurd (
          resolved-IsDone c m (adapter.observe m) w (λ a. failed-ne-authorized (sym f ∙ a))
            (subst (λ (x : ℕ). (get_record x w'.engine).state ≡ authorized) same
              (success_was_authorized c' q w' b)))
    ]
