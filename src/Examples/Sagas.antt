-- ===== src/Examples/Sagas.antt =====
-- saga/: the theorems on a plan of three steps whose last fails, and on one that finishes.
use chitragupta_protocol.Base.{◌≡◌, refl, true, false, some, List, [], ◌∷◌, ◌++◌}
use chitragupta_protocol.Errors.{Error, Result, ok, err, adapter_exception}
use chitragupta_protocol.Adapters.{CommitResult}
use chitragupta_protocol.Saga.{
  failed_partial, compensation_verified, SagaStepRecord, SagaPlan, SagaRun, running, fresh_steps,
  build_saga_run, validate_steps,
}
use chitragupta_protocol.Saga.Machine.{
  assert_can_commit_step, mark_step_authorized, mark_step_committed, mark_step_failed,
  mark_step_verified, mark_compensation_result, move_compensation_cursor, start_compensation,
  done_indices, done_below, max_of, replace_step, next_compensation_manifest_hash, is_done,
}
use chitragupta_protocol.Saga.Session.{
  begin_saga, authorize_saga_step, commit_saga_step, commit_guarded, assert_committable,
  after_commit, verify_saga_step, record_saga_compensation, raises, Call, authorizes, commits,
  verifies, compensates, call, calls,
}
use chitragupta_protocol.Saga.Shape.{is_verified, every, IsWellFormed}
use chitragupta_protocol.Saga.Split.{is_clear}
use chitragupta_protocol.Saga.Forward.{Committable}
use chitragupta_protocol.Saga.Safety.{saga_is_well_formed}
use chitragupta_protocol.Saga.Order.{
  saga_commits_in_order, partial_leaves_none_done, compensates_in_reverse,
}
use chitragupta_protocol.Saga.Refusal.{has_turned}
use chitragupta_protocol.Saga.Halt.{no_way_forward}

abbrev plan : SagaPlan
plan = record {
  saga_id = 1;
  causal_graph_hash = 90;
  step_manifest_hashes = 70 ∷ 71 ∷ [];
  created_at = 0;
  nonce = 0;
}

abbrev begun : SagaRun
begun = record (build_saga_run plan 5) { status = running }

begins : begin_saga plan 90 5 ≡ ok begun
unfolding begin_saga validate_steps
begins = refl

abbrev success : Result CommitResult
success = ok (record { success = true; provider_reference = some 6 })

-- The first step takes effect and is verified, the second is authorized.
abbrev half : List Call
half =
    authorizes 90 70 (ok 1)
    ∷ commits 90 70 false success
    ∷ verifies 70 (ok true)
    ∷ authorizes 90 71 (ok 2)
    ∷ []

-- Then the second fails.
abbrev broken : List Call
broken = half ++ commits 90 71 false (err adapter_exception) ∷ []

-- And the first is compensated.
abbrev undone : List Call
undone = broken ++ compensates 70 compensation_verified ∷ []

saga_is_well_formed_example : IsWellFormed (calls begun undone)
saga_is_well_formed_example = saga_is_well_formed plan 90 5 begun undone begins

second_committable : assert_can_commit_step (calls begun half) 71 ≡ ok 1
unfolding calls call authorize_saga_step commit_saga_step commit_guarded assert_committable
    after_commit verify_saga_step record_saga_compensation next_compensation_manifest_hash
    build_saga_run fresh_steps assert_can_commit_step mark_step_authorized mark_step_committed
    mark_step_failed mark_step_verified mark_compensation_result move_compensation_cursor
    start_compensation done_indices done_below max_of replace_step
second_committable = refl

saga_commits_in_order_example : Committable (calls begun half) 71 1
saga_commits_in_order_example =
    saga_commits_in_order plan 90 5 71 1 begun half begins second_committable

ends_partly : (calls begun undone).status ≡ failed_partial
unfolding calls call authorize_saga_step commit_saga_step commit_guarded assert_committable
    after_commit verify_saga_step record_saga_compensation next_compensation_manifest_hash
    build_saga_run fresh_steps assert_can_commit_step mark_step_authorized mark_step_committed
    mark_step_failed mark_step_verified mark_compensation_result move_compensation_cursor
    start_compensation done_indices done_below max_of replace_step
ends_partly = refl

partial_leaves_none_done_example : is_clear is_done (calls begun undone).steps ≡ true
partial_leaves_none_done_example =
    partial_leaves_none_done plan 90 5 begun undone begins ends_partly

broken_IsWellFormed : IsWellFormed (calls begun broken)
broken_IsWellFormed = saga_is_well_formed plan 90 5 begun broken begins

is_broken : has_turned (calls begun broken).status ≡ true
unfolding calls call authorize_saga_step commit_saga_step commit_guarded assert_committable
    after_commit verify_saga_step record_saga_compensation next_compensation_manifest_hash
    build_saga_run fresh_steps assert_can_commit_step mark_step_authorized mark_step_committed
    mark_step_failed mark_step_verified mark_compensation_result move_compensation_cursor
    start_compensation done_indices done_below max_of replace_step
is_broken = refl

first_compensated :
    (record_saga_compensation (calls begun broken) 70 compensation_verified).result ≡ ok tt
unfolding calls call authorize_saga_step commit_saga_step commit_guarded assert_committable
    after_commit verify_saga_step record_saga_compensation next_compensation_manifest_hash
    build_saga_run fresh_steps assert_can_commit_step mark_step_authorized mark_step_committed
    mark_step_failed mark_step_verified mark_compensation_result move_compensation_cursor
    start_compensation done_indices done_below max_of replace_step
first_compensated = refl

compensates_in_reverse_example :
    (before : List SagaStepRecord) × (step : SagaStepRecord) × (after : List SagaStepRecord)
    × ((calls begun broken).steps ≡ before ++ step ∷ after)
    × (step.manifest_hash ≡ 70)
    × (every is_verified (before ++ step ∷ []) ≡ true)
    × (is_clear is_done after ≡ true)
compensates_in_reverse_example =
    compensates_in_reverse (calls begun broken) 70 compensation_verified broken_IsWellFormed
      first_compensated

no_way_forward_example :
    (has_turned (calls (calls begun broken) (verifies 70 (ok true) ∷ [])).status ≡ true)
    × ((e : Error) × (authorize_saga_step
            (calls (calls begun broken) (verifies 70 (ok true) ∷ []))
            90
            71
            (ok 9)
          ≡ raises (calls (calls begun broken) (verifies 70 (ok true) ∷ [])) e))
    × ((e : Error) × (commit_saga_step
            (calls (calls begun broken) (verifies 70 (ok true) ∷ []))
            90
            71
            false
            success
          ≡ raises (calls (calls begun broken) (verifies 70 (ok true) ∷ [])) e))
no_way_forward_example =
    no_way_forward (calls begun broken) (verifies 70 (ok true) ∷ []) 90 71 (ok 9) false success
      broken_IsWellFormed is_broken
