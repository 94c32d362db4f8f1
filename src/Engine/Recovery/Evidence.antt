-- ===== src/Engine/Recovery/Evidence.antt =====
-- engine/core.py: what the evidence that a recovery finds means for later commits.
use chitragupta_protocol.Base.{
  ℕ, ◌≡◌, refl, Bool, true, false, Option, none, some, List, arith, ◌||◌, if◌then◌else◌,
}
use chitragupta_protocol.Adapters.{EffectAdapter, OutcomeProof}
use chitragupta_protocol.Base.Dict.{get, get-put_self}
use chitragupta_protocol.Engine.{get_record}
use chitragupta_protocol.Engine.Checks.{Context, Request}
use chitragupta_protocol.Engine.Control.{
  Control, M, continue, return, move, set_outbox, confirm_in, pending_entry,
}
use chitragupta_protocol.Engine.Commit.Once.{IsSettled, commits, calls_with, commits-IsSettled}
use chitragupta_protocol.Engine.Recovery.{
  recovered_outcome, read_record, remember_outcome, confirm_pending, reconcile, backfill,
  backfill_if, resolve_ambiguous, recover_ambiguous_commit,
}
use chitragupta_protocol.Errors.{Result, ok, err}
use chitragupta_protocol.GrantStore.{GrantStore, get_idempotent_outcome, record_idempotent_outcome}
use chitragupta_protocol.Lifecycle.{recovered_committed, is_legal_transition}
use chitragupta_protocol.Manifest.{EffectManifest}
use chitragupta_protocol.Outbox.{Outbox, mark_confirmed}

-- What each step keeps, a sequence of them keeps, whether or not one raises.
pub continue-keeps :
    {A B : Type 0} (P : Control → Type 0) (r : Result A × Control) (f : A → M B)
    → P r.1
    → ((a : A) (w : Control) → P w → P (f a w).1)
    → P (continue r f).1
continue-keeps P (ok a, w) f p k = k a w p
continue-keeps P (err e, w) f p k = p

-- A property of the grant store and the calls of adapters is kept by a write of the outbox.
abbrev OfStore : Type 1
OfStore = GrantStore → List ℕ → Type 0

confirm_in-keeps :
    (P : OfStore) (box : Option Outbox) (key outcome : ℕ) (w : Control)
    → P w.grant_store w.performed
    → P
        (confirm_in box false key outcome w).1.grant_store
        (confirm_in box false key outcome w).1.performed
confirm_in-keeps P none key outcome w p = p
confirm_in-keeps P (some box) key outcome w p = ifs (pending_entry (get key box) || false)
  where
    sets : (r : Result Outbox) → P (set_outbox r w).1.grant_store (set_outbox r w).1.performed
    sets (ok after) = p
    sets (err e) = p

    ifs :
        (b : Bool)
        → P
            (if b then set_outbox (mark_confirmed key outcome box) w else (ok tt, w)).1.grant_store
            (if b then set_outbox (mark_confirmed key outcome box) w else (ok tt, w)).1.performed
    ifs true = sets (mark_confirmed key outcome box)
    ifs false = p

reconcile-keeps :
    (P : OfStore) (c : Context) (m : ℕ) (b : Bool) (w : Control)
    → P w.grant_store w.performed
    → P (reconcile c m b w).1.grant_store (reconcile c m b w).1.performed
unfolding move
reconcile-keeps P c m true w p = p
reconcile-keeps P c m false w p = p

backfill-keeps :
    (P : OfStore) (c : Context) (m : EffectManifest) (digest : Option ℕ) (w : Control)
    → P
        (record_idempotent_outcome m.idempotency_key (recovered_outcome digest) w.grant_store)
        w.performed
    → P (backfill c m digest w).1.grant_store (backfill c m digest w).1.performed
unfolding backfill remember_outcome confirm_pending read_record
backfill-keeps P c m digest w p =
    continue-keeps (λ (x : Control). P x.grant_store x.performed)
      (confirm_in w.outbox_store false m.idempotency_key (recovered_outcome digest) (record w {
        grant_store =
            record_idempotent_outcome m.idempotency_key (recovered_outcome digest) w.grant_store;
      }))
      _
      (confirm_in-keeps P w.outbox_store m.idempotency_key (recovered_outcome digest)
        (record w {
          grant_store =
              record_idempotent_outcome m.idempotency_key (recovered_outcome digest) w.grant_store;
        })
        p)
      λ _ w1 p1.
        reconcile-keeps P c m.manifest_id
          (is_legal_transition (get_record m.manifest_id w1.engine).state recovered_committed) _ p1

remembered-known :
    (key outcome : ℕ) (st : GrantStore)
    → get_idempotent_outcome key (record_idempotent_outcome key outcome st) ≡ some outcome
unfolding get_idempotent_outcome record_idempotent_outcome
remembered-known key outcome st = get-put_self key outcome st.idempotency

backfilled-IsSettled :
    (c : Context) (m : EffectManifest) (proof : OutcomeProof) (b : Bool) (w : Control)
    → b ≡ true
    → IsSettled m.idempotency_key
        (calls_with m.idempotency_key w.performed)
        (continue (backfill_if b c m proof.observed_after_state_digest w) (λ _. return proof)).1
backfilled-IsSettled c m proof false w h = absurd (ground arith)
backfilled-IsSettled c m proof true w h =
    let key : ℕ = m.idempotency_key in
    let outcome : ℕ = recovered_outcome proof.observed_after_state_digest in
    continue-keeps (IsSettled key (calls_with key w.performed))
      (backfill c m proof.observed_after_state_digest w) _
      (backfill-keeps
        (λ st calls.
          ((o : ℕ) × (get_idempotent_outcome key st ≡ some o))
          × (calls_with key calls ≡ calls_with key w.performed))
        c m proof.observed_after_state_digest w
        ((outcome, remembered-known key outcome w.grant_store), refl))
      λ _ w1 p. p

-- Once a recovery has found evidence of the effect, no adapter is called with its idempotency key
-- again, whatever commits follow.
pub recovered_effect_is_not_repeated :
    (c : Context) (m : EffectManifest) (adapter : EffectAdapter) (w : Control)
    (proof : OutcomeProof) (cs : List (Context × Request))
    → adapter.observe m ≡ ok proof
    → proof.matched_expected ≡ true
    → calls_with m.idempotency_key (commits cs (recover_ambiguous_commit c m adapter w).1).performed
      ≡ calls_with m.idempotency_key w.performed
unfolding recover_ambiguous_commit resolve_ambiguous
recovered_effect_is_not_repeated c m adapter w proof cs h matched = rw h (
    (commits-IsSettled cs _ m.idempotency_key (calls_with m.idempotency_key w.performed)
      (backfilled-IsSettled c m proof proof.matched_expected _ matched)).1)
