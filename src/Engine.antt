-- ===== src/Engine.antt =====
-- engine/core.py: the lifecycle records of the engine and their write-through to a lifecycle store.
-- The audit journal records an event in every branch of `transition_to`: here the list of what it is
-- told. A journal that refuses to write is left out.
pub mod WriteThrough
pub mod Checks
pub mod Control
pub mod Commit
pub mod Recovery
pub mod Issuance
use chitragupta_protocol.Base.{
  ℕ, Bool, true, false, Option, none, some, List, [], ◌∷◌, ◌++◌, not, ◌&&◌, ◌||◌, is_none,
  if◌then◌else◌,
}
use chitragupta_protocol.Base.Dict.{Dict, get, put}
use chitragupta_protocol.Errors.{Error, store_unavailable_error, Result, ok, err}
use chitragupta_protocol.Lifecycle.{
  LifecycleState, proposed, LifecycleRecord, Entry, fresh_record, transition,
}
use chitragupta_protocol.Lifecycle.Store.{LifecycleStore, compare_and_set, eq_state}

pub data Decision : Type 0 where
  allowed blocked_illegal_transition blocked_lifecycle_store_unavailable : Decision

pub record TransitionEvent : Type 0 where
  pub manifest_id : ℕ
  pub event_type : ℕ
  pub decision : Decision
  pub from_state : LifecycleState
  pub to_state : LifecycleState

pub record Engine : Type 0 where
  pub records : Dict LifecycleRecord
  pub lifecycle_store : Option LifecycleStore
  pub events : List TransitionEvent

-- `store.get(manifest_id)`, of a store that may not be configured
abbrev pub stored : Option LifecycleStore → ℕ → Option LifecycleState
stored none manifest_id = none
stored (some store) manifest_id = get manifest_id store

unfoldable pub seed_lifecycle_state : ℕ → LifecycleState → Engine → Engine
seed_lifecycle_state manifest_id state e = record e {
  records = put manifest_id (fresh_record manifest_id state) e.records;
  lifecycle_store = elim e.lifecycle_store [
    | none ↦ none
    | some s ↦ some (put manifest_id state s)
  ];
}

-- The state of a record that the engine does not hold.
abbrev pub state_or_proposed : Option LifecycleState → LifecycleState
state_or_proposed none = proposed
state_or_proposed (some s) = s

-- `_get_record`: the record, which the engine then holds.
unfoldable pub get_record : ℕ → Engine → LifecycleRecord
get_record manifest_id e = elim (get manifest_id e.records) [
  | some r ↦ r
  | none ↦ fresh_record manifest_id (state_or_proposed (stored e.lifecycle_store manifest_id))
]

abbrev pub hold : ℕ → LifecycleRecord → Engine → Engine
hold manifest_id r e = record e { records = put manifest_id r e.records }

-- The two writes of `_persist_lifecycle` for a manifest without a row: as a new row, or else from
-- the expected state.
unfoldable pub insert_or_set :
    ℕ → LifecycleState → LifecycleState → LifecycleStore → Bool × LifecycleStore
insert_or_set manifest_id source target store =
    let (inserted, after) = compare_and_set manifest_id none target store in
    if inserted then (true, after) else compare_and_set manifest_id (some source) target after

unfoldable pub persist :
    ℕ → LifecycleState → LifecycleState → LifecycleStore → Bool × LifecycleStore
persist manifest_id source target store =
    if is_none (get manifest_id store) && eq_state (some source) (some proposed)
    then insert_or_set manifest_id source target store
    else compare_and_set manifest_id (some source) target store

-- `_persist_lifecycle`
unfoldable pub persist_lifecycle :
    ℕ
    → LifecycleState
    → LifecycleState
    → Option LifecycleStore
    → Result (Unit {0}) × Option LifecycleStore
persist_lifecycle manifest_id source target none = (ok tt, none)
persist_lifecycle manifest_id source target (some store) =
    let (written, after) = persist manifest_id source target store in
    ((if written then ok tt else err store_unavailable_error), some after)

abbrev pub tell : Decision → ℕ → ℕ → LifecycleState → LifecycleState → Engine → Engine
tell decision manifest_id event_type source target e = record e {
  events =
      e.events
      ++ record {
        manifest_id = manifest_id;
        event_type = event_type;
        decision = decision;
        from_state = source;
        to_state = target;
      }
        ∷ [];
}

-- `_transition` after the record has moved: `r` is the record before, `moved` after.
unfoldable pub write_through :
    LifecycleRecord
    → LifecycleRecord
    → ℕ
    → ℕ
    → LifecycleState
    → Engine
    → Result LifecycleRecord × Engine
write_through r moved manifest_id event_type target e =
    let (written, store) = persist_lifecycle manifest_id r.state target e.lifecycle_store in
    elim written [
      | err x ↦ (
        err x,
        tell blocked_lifecycle_store_unavailable manifest_id event_type r.state target
            (hold manifest_id r (record e { lifecycle_store = store })),
      )
      | ok _ ↦ (
        ok moved,
        tell allowed manifest_id event_type r.state target
            (hold manifest_id moved (record e { lifecycle_store = store })),
      )
    ]

-- `_transition`
unfoldable pub transition_to : ℕ → LifecycleState → ℕ → ℕ → Engine → Result LifecycleRecord × Engine
transition_to manifest_id target event_type now e =
    let r = get_record manifest_id e in
    elim (transition r target now) [
      | err x ↦ (
        err x,
        tell blocked_illegal_transition manifest_id event_type r.state target
            (hold manifest_id r e),
      )
      | ok moved ↦ write_through r moved manifest_id event_type target e
    ]
