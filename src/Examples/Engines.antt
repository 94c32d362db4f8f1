-- ===== src/Examples/Engines.antt =====
-- engine/core.py: the theorems on an engine that reads a manifest's state from its store, and on one
-- whose store another writer has moved.
use chitragupta_protocol.Base.{◌≡◌, ◌⊎◌, refl, true, none, some, [], ◌∷◌}
use chitragupta_protocol.Base.Dict.{get, put}
use chitragupta_protocol.Errors.{store_unavailable_error, ok, err}
use chitragupta_protocol.Lifecycle.{
  proposed, authorized, committing, revoked, LifecycleRecord, fresh_record, transition,
  is_legal_transition, assert_legal_transition,
}
use chitragupta_protocol.Lifecycle.Store.{LifecycleStore, compare_and_set, eq_state}
use chitragupta_protocol.Engine.{
  Engine, stored, get_record, insert_or_set, persist, persist_lifecycle, write_through,
  transition_to,
}
use chitragupta_protocol.Engine.WriteThrough.{transition_is_stored, failed_transition_rolls_back}

abbrev rows : LifecycleStore
rows = (7, authorized) ∷ []

abbrev engine : Engine
engine = record { records = []; lifecycle_store = some rows; events = [] }

abbrev moved : LifecycleRecord
moved = record {
  manifest_id = 7;
  state = committing;
  history = record { source = authorized; target = committing; at = 5 } ∷ [];
}

returns : (transition_to 7 committing 1 5 engine).0 ≡ ok moved
unfolding transition_to write_through persist_lifecycle persist insert_or_set compare_and_set
    eq_state get_record fresh_record transition assert_legal_transition is_legal_transition get put
returns = refl

transition_is_stored_example :
    (is_legal_transition (get_record 7 engine).state committing ≡ true)
    × (committing ≡ committing)
    × (get 7 (transition_to 7 committing 1 5 engine).1.records ≡ some moved)
    × (stored (transition_to 7 committing 1 5 engine).1.lifecycle_store 7 ≡ some committing)
    × ((get 7 rows ≡ some (get_record 7 engine).state)
        ⊎ ((get 7 rows ≡ none) × ((get_record 7 engine).state ≡ proposed)))
transition_is_stored_example = transition_is_stored 7 5 1 committing engine rows moved refl returns

-- The engine holds the manifest as authorized, and the store has it revoked.
abbrev overtaken : Engine
overtaken = record {
  records = (7, record { manifest_id = 7; state = authorized; history = [] }) ∷ [];
  lifecycle_store = some ((7, revoked) ∷ []);
  events = [];
}

refuses : (transition_to 7 committing 1 5 overtaken).0 ≡ err store_unavailable_error
unfolding transition_to write_through persist_lifecycle persist insert_or_set compare_and_set
    eq_state get_record fresh_record transition assert_legal_transition is_legal_transition get put
refuses = refl

failed_transition_rolls_back_example :
    (get 7 (transition_to 7 committing 1 5 overtaken).1.records ≡ some (get_record 7 overtaken))
    × ((transition_to 7 committing 1 5 overtaken).1.lifecycle_store ≡ overtaken.lifecycle_store)
failed_transition_rolls_back_example =
    failed_transition_rolls_back 7 5 1 committing overtaken store_unavailable_error refuses
