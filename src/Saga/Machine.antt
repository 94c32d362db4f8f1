-- ===== src/Saga/Machine.antt =====
-- saga/machine.py: the transitions of a run and of its steps.
use chitragupta_protocol.Base.{
  ℕ, suc, ◌&&◌, ◌||◌, Bool, true, false, Option, none, some, List, [], ◌∷◌, ltb, leb, not, length,
  ◌==◌, ◌!=◌, eq_option, if◌then◌else◌, get_elem?, set,
}
use chitragupta_protocol.Errors.{
  Error, index_error, saga_illegal_transition_error, saga_ambiguous_step_error, Result, ok,
  or_raise, raise_if, ◌>>=◌, ◌>>◌,
}
use chitragupta_protocol.Saga.{
  SagaRunStatus, pending_run, running, awaiting_recovery, compensating, completed, failed_partial,
  aborted, SagaStepStatus, pending, ready, authorized, committed, verified, failed, ambiguous,
  compensated, compensation_refused, compensation_failed, CompensationStatus, refused, attempted,
  compensation_verified, SagaStepRecord, SagaRun,
}

abbrev pub illegal : Error
illegal = saga_illegal_transition_error

abbrev pub is_step_ambiguous : SagaStepStatus → Bool
is_step_ambiguous ambiguous = true
is_step_ambiguous _ = false

abbrev pub is_step_authorized : SagaStepStatus → Bool
is_step_authorized authorized = true
is_step_authorized _ = false

abbrev pub is_step_committed : SagaStepStatus → Bool
is_step_committed committed = true
is_step_committed _ = false

-- `status in {READY, PENDING}`
abbrev pub is_waiting : SagaStepStatus → Bool
is_waiting ready = true
is_waiting pending = true
is_waiting _ = false

-- `status in {COMMITTED, VERIFIED}`
abbrev pub is_done : SagaStepStatus → Bool
is_done committed = true
is_done verified = true
is_done _ = false

-- The statuses that `assert_can_commit_step` refuses.
abbrev pub refuses_commits : SagaRunStatus → Bool
refuses_commits pending_run = false
refuses_commits running = false
refuses_commits _ = true

abbrev pub is_awaiting : SagaRunStatus → Bool
is_awaiting awaiting_recovery = true
is_awaiting _ = false

abbrev pub is_compensating : SagaRunStatus → Bool
is_compensating compensating = true
is_compensating _ = false

-- `run.steps[index]`
abbrev pub step_at : SagaRun → ℕ → Result SagaStepRecord
step_at run index = or_raise (get_elem? run.steps index) index_error

unfoldable pub replace_step : SagaRun → ℕ → SagaStepRecord → Result SagaRun
replace_step run index step = do
  raise_if (leb (length run.steps) index) index_error
  ok (record run { steps = set run.steps index step })

-- `next((s for s in steps if s.manifest_hash == manifest_hash), None)`
abbrev pub find_step : List SagaStepRecord → ℕ → Option SagaStepRecord
find_step [] h = none
find_step (s ∷ ss) h = if s.manifest_hash == h then some s else find_step ss h

abbrev pub require_step : SagaRun → ℕ → Result SagaStepRecord
require_step run h = or_raise (find_step run.steps h) illegal

unfoldable pub assert_can_commit_step : SagaRun → ℕ → Result ℕ
assert_can_commit_step run manifest_hash = do
  raise_if (leb (length run.steps) run.cursor) illegal
  step ← step_at run run.cursor
  raise_if (step.manifest_hash != manifest_hash) illegal
  raise_if (is_step_ambiguous step.status || step.is_ambiguous) saga_ambiguous_step_error
  raise_if (refuses_commits run.status) illegal
  raise_if (not (is_step_authorized step.status)) illegal
  ok run.cursor

unfoldable pub assert_can_recover_step : SagaRun → ℕ → Result ℕ
assert_can_recover_step run manifest_hash = do
  raise_if (not (is_awaiting run.status)) illegal
  step ← require_step run manifest_hash
  raise_if (not (is_step_ambiguous step.status)) illegal
  ok step.index

unfoldable pub mark_step_authorized : SagaRun → ℕ → ℕ → Result SagaRun
mark_step_authorized run manifest_hash grant_id = do
  raise_if (leb (length run.steps) run.cursor) illegal
  step ← step_at run run.cursor
  raise_if (step.manifest_hash != manifest_hash) illegal
  raise_if (not (is_waiting step.status)) illegal
  updated ←
      replace_step run step.index (record step { status = authorized; grant_id = some grant_id })
  ok (record updated { status = running })

-- `[s.index for s in steps if s.status in {COMMITTED, VERIFIED}]`
unfoldable pub done_indices : List SagaStepRecord → List ℕ
done_indices [] = []
done_indices (s ∷ ss) =
    let rest = done_indices ss in if is_done s.status then s.index ∷ rest else rest

-- `max` of a list, and none of an empty one.
unfoldable pub max_of : List ℕ → Option ℕ
max_of [] = none
max_of (i ∷ is) = elim (max_of is) [ none ↦ some i | some j ↦ some (if ltb j i then i else j) ]

unfoldable pub start_compensation : SagaRun → SagaRun
start_compensation run = elim (max_of (done_indices run.steps)) [
  | none ↦ record run { status = aborted }
  | some i ↦ record run { status = compensating; compensation_cursor = some i }
]

unfoldable pub mark_step_failed : SagaRun → ℕ → Result SagaRun
mark_step_failed run manifest_hash = do
  step ← require_step run manifest_hash
  updated ←
      replace_step run step.index (record step { status = failed; commit_success = some false })
  ok (start_compensation updated)

unfoldable pub mark_step_committed : SagaRun → ℕ → Bool → Option ℕ → Result SagaRun
mark_step_committed run manifest_hash success reference = do
  index ← assert_can_commit_step run manifest_hash
  step ← step_at run index
  if not success then mark_step_failed run manifest_hash else do
    updated ← replace_step run index (record step {
      status = committed;
      commit_success = some true;
      provider_reference = reference;
    })
    ok (record updated { status = running })

unfoldable pub mark_step_verified : SagaRun → ℕ → Result SagaRun
mark_step_verified run manifest_hash = do
  step ← require_step run manifest_hash
  raise_if (not (is_step_committed step.status)) illegal
  updated ← replace_step run step.index (record step { status = verified })
  if leb (length run.steps) (suc step.index)
      then ok (record updated { cursor = suc step.index; status = completed })
      else do
        next ← step_at updated (suc step.index)
        readied ← replace_step updated (suc step.index) (record next { status = ready })
        ok (record readied { cursor = suc step.index; status = running })

unfoldable pub mark_step_ambiguous : SagaRun → ℕ → Result SagaRun
mark_step_ambiguous run manifest_hash = do
  index ← assert_can_commit_step run manifest_hash
  step ← step_at run index
  updated ← replace_step run index (record step { status = ambiguous; is_ambiguous = true })
  ok (record updated { status = awaiting_recovery })

abbrev pub status_after : CompensationStatus → SagaStepStatus
status_after compensation_verified = compensated
status_after refused = compensation_refused
status_after attempted = compensation_failed

-- `[s.index for s in steps if s.index < index and s.status in {COMMITTED, VERIFIED}]`
unfoldable pub done_below : ℕ → List SagaStepRecord → List ℕ
done_below index [] = []
done_below index (s ∷ ss) =
    let rest = done_below index ss in
    if ltb s.index index && is_done s.status then s.index ∷ rest else rest

-- What follows the write of `mark_compensation_result`.
unfoldable pub move_compensation_cursor : ℕ → SagaRun → SagaRun
move_compensation_cursor index run = elim (max_of (done_below index run.steps)) [
  | none ↦ record run { status = failed_partial; compensation_cursor = none }
  | some i ↦ record run { compensation_cursor = some i }
]

unfoldable pub mark_compensation_result : SagaRun → ℕ → CompensationStatus → Result SagaRun
mark_compensation_result run manifest_hash status = do
  raise_if (not (is_compensating run.status)) illegal
  step ← require_step run manifest_hash
  raise_if (not (eq_option run.compensation_cursor (some step.index))) illegal
  updated ←
      replace_step run step.index
        (record step { status = status_after status; compensation_status = some status })
  ok (move_compensation_cursor step.index updated)

unfoldable pub next_compensation_manifest_hash : SagaRun → Result (Option ℕ)
next_compensation_manifest_hash run =
    if not (is_compensating run.status) then ok none else elim run.compensation_cursor [
      | none ↦ ok none
      | some i ↦ do step ← step_at run i; ok (some step.manifest_hash)
    ]
