-- ===== src/Saga/Session.antt =====
-- engine/core.py: the saga operations of the engine. Each takes the run that the engine holds under
-- the run's identifier and returns the result and the run that it then holds. What the engine's other
-- operations return to them (`authorize_plan`, `commit`, `verify`, `recover_ambiguous_commit`) is an
-- argument; audit events are left out.
use chitragupta_protocol.Base.{
  ℕ, Bool, true, false, Option, some, List, [], ◌∷◌, not, contains, ◌==◌, ◌!=◌, eq_option,
  if◌then◌else◌,
}
use chitragupta_protocol.Adapters.{CommitResult}
use chitragupta_protocol.Errors.{
  Error, stale_manifest_error, runtime_error, value_error, key_error, index_error,
  adapter_exception, saga_graph_mismatch_error, saga_ambiguous_step_error, Result, ok, err,
  raise_if, ◌>>=◌, ◌>>◌,
}
use chitragupta_protocol.Saga.{
  running, authorized, CompensationStatus, SagaStepRecord, SagaPlan, SagaRun, validate_steps,
  build_saga_run,
}
use chitragupta_protocol.Saga.Machine.{
  illegal, assert_can_commit_step, assert_can_recover_step, mark_step_authorized,
  mark_step_committed, mark_step_failed, mark_step_verified, mark_step_ambiguous,
  mark_compensation_result, next_compensation_manifest_hash,
}

-- The result of a call, and the run that the engine holds after it.
pub record Outcome : Type 0 where
  pub result : Result (Unit {0})
  pub run : SagaRun

-- A call that raises leaves the run as it is.
abbrev pub advance : SagaRun → Result SagaRun → Outcome
advance run (ok updated) = record { result = ok tt; run = updated }
advance run (err e) = record { result = err e; run = run }

abbrev pub raises : SagaRun → Error → Outcome
raises run e = record { result = err e; run = run }

-- A run that is stored before the call raises.
abbrev pub advance_raising : SagaRun → Error → Result SagaRun → Outcome
advance_raising run e (ok updated) = record { result = err e; run = updated }
advance_raising run e (err x) = record { result = err x; run = run }

-- `isinstance(exc, KarmaSakshiError) and not isinstance(exc, StaleManifestError)`
abbrev pub is_security_denial : Error → Bool
is_security_denial stale_manifest_error = false
is_security_denial runtime_error = false
is_security_denial value_error = false
is_security_denial key_error = false
is_security_denial index_error = false
is_security_denial adapter_exception = false
is_security_denial _ = true

-- `begin_saga`, of the plan built and the hash of the verified graph
unfoldable pub begin_saga : SagaPlan → ℕ → ℕ → Result SagaRun
begin_saga plan graph_hash run_id = do
  validate_steps plan.step_manifest_hashes
  raise_if (plan.causal_graph_hash != graph_hash) saga_graph_mismatch_error
  ok (record (build_saga_run plan run_id) { status = running })

abbrev pub assert_graph : SagaRun → ℕ → Result (Unit {0})
assert_graph run graph_hash =
    raise_if (graph_hash != run.plan.causal_graph_hash) saga_graph_mismatch_error

unfoldable pub authorize_saga_step : SagaRun → ℕ → ℕ → Result ℕ → Outcome
authorize_saga_step run graph_hash manifest_hash grant = advance run do
  assert_graph run graph_hash
  grant_id ← grant
  mark_step_authorized run manifest_hash grant_id

-- What `commit_saga_step` makes of the end of `commit`.
unfoldable pub after_commit : SagaRun → ℕ → Result CommitResult → Outcome
after_commit run manifest_hash (err e) =
    if is_security_denial e
    then raises run e
    else advance_raising run e (mark_step_failed run manifest_hash)
after_commit run manifest_hash (ok r) = advance run (
    if not r.success
    then mark_step_failed run manifest_hash
    else mark_step_committed run manifest_hash true r.provider_reference)

unfoldable pub assert_committable : SagaRun → ℕ → ℕ → Result (Unit {0})
assert_committable run graph_hash manifest_hash = do
  assert_graph run graph_hash
  assert_can_commit_step run manifest_hash
  raise_if (not (contains run.plan.step_manifest_hashes manifest_hash)) illegal

-- `commit_saga_step` after its guards.
unfoldable pub commit_guarded :
    Result (Unit {0}) → SagaRun → ℕ → Bool → Result CommitResult → Outcome
commit_guarded (err e) run manifest_hash reports_ambiguous committed = raises run e
commit_guarded (ok _) run manifest_hash true committed =
    advance_raising run saga_ambiguous_step_error (mark_step_ambiguous run manifest_hash)
commit_guarded (ok _) run manifest_hash false committed = after_commit run manifest_hash committed

unfoldable pub commit_saga_step : SagaRun → ℕ → ℕ → Bool → Result CommitResult → Outcome
commit_saga_step run graph_hash manifest_hash reports_ambiguous committed =
    commit_guarded (assert_committable run graph_hash manifest_hash) run manifest_hash
      reports_ambiguous committed

-- `verify_saga_step`, of whether the proof matched
unfoldable pub verify_saga_step : SagaRun → ℕ → Result Bool → Outcome
verify_saga_step run manifest_hash (err e) = raises run e
verify_saga_step run manifest_hash (ok matched) =
    if matched
    then advance run (mark_step_verified run manifest_hash)
    else record { result = ok tt; run = run }

-- The steps of the run that `recover_saga_step` builds: the recovered one AUTHORIZED again.
unfoldable pub reopen : ℕ → List SagaStepRecord → List SagaStepRecord
reopen manifest_hash [] = []
reopen manifest_hash (s ∷ ss) =
    (if s.manifest_hash == manifest_hash
      then record s { status = authorized; is_ambiguous = false }
      else s)
    ∷ reopen manifest_hash ss

unfoldable pub recover_saga_step : SagaRun → ℕ → Result Bool → Option ℕ → Outcome
recover_saga_step run manifest_hash recovered digest = advance run do
  assert_can_recover_step run manifest_hash
  matched ← recovered
  if matched
      then mark_step_committed
          (record run { status = running; steps = reopen manifest_hash run.steps }) manifest_hash
          true digest
      else mark_step_failed run manifest_hash

unfoldable pub record_saga_compensation : SagaRun → ℕ → CompensationStatus → Outcome
record_saga_compensation run manifest_hash status = advance run do
  expected ← next_compensation_manifest_hash run
  raise_if (not (eq_option expected (some manifest_hash))) illegal
  mark_compensation_result run manifest_hash status

-- The calls on a run, each with what the engine's other operations returned to it.
pub data Call : Type 0 where
  authorizes : ℕ → ℕ → Result ℕ → Call
  commits : ℕ → ℕ → Bool → Result CommitResult → Call
  verifies : ℕ → Result Bool → Call
  recovers : ℕ → Result Bool → Option ℕ → Call
  compensates : ℕ → CompensationStatus → Call

unfoldable pub call : SagaRun → Call → Outcome
call run (authorizes graph h grant) = authorize_saga_step run graph h grant
call run (commits graph h reports_ambiguous committed) =
    commit_saga_step run graph h reports_ambiguous committed
call run (verifies h matched) = verify_saga_step run h matched
call run (recovers h recovered digest) = recover_saga_step run h recovered digest
call run (compensates h status) = record_saga_compensation run h status

unfoldable pub calls : SagaRun → List Call → SagaRun
calls run [] = run
calls run (c ∷ cs) = calls (call run c).run cs
