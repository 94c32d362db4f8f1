-- ===== src/Engine/Commit/Stuck.antt =====
-- engine/core.py: a commit whose intent the outbox refuses.
use chitragupta_protocol.Base.{ℕ, ◌≡◌, ◌⊎◌, false, Option}
use chitragupta_protocol.Adapters.{CommitResult}
use chitragupta_protocol.Engine.{Engine}
use chitragupta_protocol.Engine.Checks.{Context, Request}
use chitragupta_protocol.Engine.Control.{Control, M, continue}
use chitragupta_protocol.Engine.Commit.{record_intent, finish}
use chitragupta_protocol.Engine.Commit.Endings.{reports_success, Return}
use chitragupta_protocol.GrantStore.{get_idempotent_outcome}
use chitragupta_protocol.Lifecycle.{committing}
use chitragupta_protocol.Outbox.{Outbox}
use chitragupta_protocol.Engine.Commit.Keeping.{state_of}

-- A commit that comes to nothing: no adapter is called, no success reported, and the manifest is in the
-- state in which it was, or in COMMITTING.
pub record Stopped (m : ℕ) (w : Control) (r : Return) : Type 0 where
  pub calls : r.1.performed ≡ w.performed
  pub unsuccessful : reports_success r.0 ≡ false
  pub state : (state_of m r.1 ≡ state_of m w) ⊎ (state_of m r.1 ≡ committing)

-- What `commit` does once the lifecycle is COMMITTING.
abbrev committing_from : Context → Request → Option (ℕ × ℕ) → M CommitResult
committing_from c q b w = continue (record_intent q b w) (λ pending u.
    finish c q b pending (get_idempotent_outcome q.sealed.manifest.idempotency_key u.grant_store) u)
