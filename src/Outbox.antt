-- ===== src/Outbox.antt =====
-- outbox/model.py and outbox/memory.py: the intents to commit, by idempotency key. The lock of the
-- store makes each operation one step; `schema_version` and `created_at` steer nothing and are left out.
pub mod Progress
use chitragupta_protocol.Base.{
  ℕ, Bool, true, false, ◌||◌, Option, none, some, List, [], ◌∷◌, ◌!=◌, if◌then◌else◌, not,
}
use chitragupta_protocol.Base.Dict.{Dict, get, put}
use chitragupta_protocol.Errors.{Error, outbox_conflict_error, Result, ok, err}

pub data OutboxStatus : Type 0 where
  pending confirmed abandoned : OutboxStatus

abbrev pub is_pending : OutboxStatus → Bool
is_pending pending = true
is_pending _ = false

pub record OutboxEntry : Type 0 where
  pub idempotency_key : ℕ
  pub grant_id : ℕ
  pub manifest_id : ℕ
  pub manifest_hash : ℕ
  pub status : OutboxStatus
  pub outcome_ref : Option ℕ

abbrev pub Outbox : Type 0
Outbox = Dict OutboxEntry

unfoldable pub record_pending : OutboxEntry → Outbox → Result Outbox
record_pending entry entries =
    if not (is_pending entry.status)
    then err outbox_conflict_error
    else elim (get entry.idempotency_key entries) [
      | none ↦ ok (put entry.idempotency_key entry entries)
      | some existing ↦
          if existing.grant_id != entry.grant_id || existing.manifest_hash != entry.manifest_hash
          then err outbox_conflict_error
          else if not (is_pending existing.status)
          then err outbox_conflict_error
          else ok entries
    ]

-- The last two statements of `mark_confirmed`, by the status found.
unfoldable pub confirm : OutboxStatus → ℕ → ℕ → OutboxEntry → Outbox → Result Outbox
confirm confirmed key outcome entry entries = ok entries
confirm abandoned key outcome entry entries = err outbox_conflict_error
confirm pending key outcome entry entries =
    ok (put key (record entry { status = confirmed; outcome_ref = some outcome }) entries)

unfoldable pub mark_confirmed : ℕ → ℕ → Outbox → Result Outbox
mark_confirmed key outcome entries = elim (get key entries) [
  | none ↦ err outbox_conflict_error
  | some entry ↦ confirm entry.status key outcome entry entries
]

unfoldable pub abandon : OutboxStatus → ℕ → OutboxEntry → Outbox → Result Outbox
abandon abandoned key entry entries = ok entries
abandon confirmed key entry entries = err outbox_conflict_error
abandon pending key entry entries = ok (put key (record entry { status = abandoned }) entries)

unfoldable pub mark_abandoned : ℕ → Outbox → Result Outbox
mark_abandoned key entries = elim (get key entries) [
  | none ↦ err outbox_conflict_error
  | some entry ↦ abandon entry.status key entry entries
]

unfoldable pub list_pending : Outbox → List OutboxEntry
list_pending [] = []
list_pending ((key, entry) ∷ entries) =
    let rest = list_pending entries in if is_pending entry.status then entry ∷ rest else rest
