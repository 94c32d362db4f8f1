-- ===== src/Engine/Recovery.antt =====
-- engine/core.py: `recover_ambiguous_commit`, `list_pending_outbox` and `revoke`.
pub mod Evidence
pub mod Refusal
pub mod Revocation
use chitragupta_protocol.Base.{
  ℕ, Bool, true, false, Option, none, some, List, [], ◌∷◌, ◌==◌, if◌then◌else◌,
}
use chitragupta_protocol.Base.Dict.{get}
use chitragupta_protocol.Adapters.{EffectAdapter, OutcomeProof}
use chitragupta_protocol.Engine.{get_record, hold}
use chitragupta_protocol.Engine.Checks.{
  Context, ambiguous_recovery_probe, revoke_requested_past_safepoint,
}
use chitragupta_protocol.Engine.Control.{
  Control, M, continue, ◌>>=◌, ◌>>◌, return, raise, note, move, confirm_in,
}
use chitragupta_protocol.Errors.{Error, Result, ok, err}
use chitragupta_protocol.Grants.{ExecutionGrant}
use chitragupta_protocol.GrantStore.{record_idempotent_outcome}
use chitragupta_protocol.GrantStore
use chitragupta_protocol.Lifecycle.{
  LifecycleState, revoked, recovered_committed, LifecycleRecord, is_legal_transition, is_revocable,
}
use chitragupta_protocol.Manifest.{EffectManifest}
use chitragupta_protocol.Outbox.{Outbox, OutboxEntry, list_pending}

-- The event types of the transitions, which are texts.
abbrev pub recovery_event : ℕ
recovery_event = 8

abbrev pub revoked_event : ℕ
revoked_event = 9

-- The text "recovered-externally".
abbrev pub recovered_text : ℕ
recovered_text = 2

-- `observed_after_state_digest or "recovered-externally"`
unfoldable pub recovered_outcome : Option ℕ → ℕ
recovered_outcome none = recovered_text
recovered_outcome (some digest) = if digest == 0 then recovered_text else digest

-- `_get_record`, after which the engine holds the record
unfoldable pub read_record : ℕ → M LifecycleRecord
read_record manifest_id w =
    let r = get_record manifest_id w.engine in
    (ok r, record w { engine = hold manifest_id r w.engine })

unfoldable pub remember_outcome : ℕ → ℕ → M (Unit {0})
remember_outcome key outcome w =
    (ok tt, record w { grant_store = record_idempotent_outcome key outcome w.grant_store })

-- A pending intent of the key is confirmed.
unfoldable pub confirm_pending : ℕ → ℕ → M (Unit {0})
confirm_pending key outcome w = confirm_in w.outbox_store false key outcome w

-- The last transition, where it is legal.
abbrev pub reconcile : Context → ℕ → Bool → M (Unit {0})
reconcile c manifest_id true w =
    move manifest_id recovered_committed recovery_event c.now_transition w
reconcile c manifest_id false w = (ok tt, w)

-- With evidence of the effect.
unfoldable pub backfill : Context → EffectManifest → Option ℕ → M (Unit {0})
backfill c m digest = do
  remember_outcome m.idempotency_key (recovered_outcome digest)
  confirm_pending m.idempotency_key (recovered_outcome digest)
  r ← read_record m.manifest_id
  reconcile c m.manifest_id (is_legal_transition r.state recovered_committed)

abbrev pub backfill_if : Bool → Context → EffectManifest → Option ℕ → M (Unit {0})
backfill_if true c m digest w = backfill c m digest w
backfill_if false c m digest w = (ok tt, w)

-- Of what the adapter's `verify` answers to the probe.
unfoldable pub resolve_ambiguous : Context → EffectManifest → Result OutcomeProof → M OutcomeProof
resolve_ambiguous c m (err e) w = (err e, w)
resolve_ambiguous c m (ok proof) w =
    (do
      note ambiguous_recovery_probe none
      backfill_if proof.matched_expected c m proof.observed_after_state_digest
      return proof)
      w

unfoldable pub recover_ambiguous_commit : Context → EffectManifest → EffectAdapter → M OutcomeProof
recover_ambiguous_commit c m adapter w = resolve_ambiguous c m (adapter.observe m) w

abbrev pub entries_of : Option Outbox → List OutboxEntry
entries_of none = []
entries_of (some box) = list_pending box

unfoldable pub list_pending_outbox : Control → List OutboxEntry
list_pending_outbox w = entries_of w.outbox_store

abbrev pub revoke_at : Context → ℕ → Bool → M Bool
revoke_at c manifest_id true w =
    (do move manifest_id revoked revoked_event c.now_transition; return true) w
revoke_at c manifest_id false w = (do note revoke_requested_past_safepoint none; return false) w

-- `revoke`
unfoldable pub revoke_grant : Context → ExecutionGrant → ℕ → M Bool
revoke_grant c g manifest_id w =
    (do r ← read_record manifest_id; revoke_at c manifest_id (is_revocable r.state))
      (record w { grant_store = GrantStore.revoke g.grant_id w.grant_store })
