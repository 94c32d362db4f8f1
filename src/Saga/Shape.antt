-- ===== src/Saga/Shape.antt =====
-- saga/machine.py: the shape of a run that the engine holds: where its steps stand, by its status.
use chitragupta_protocol.Base.{
  ℕ, suc, ◌+◌, ◌≡◌, refl, Bool, true, false, Option, none, some, List, [], ◌∷◌, ◌++◌, arith, length,
  all_of,
}
use chitragupta_protocol.Saga.{
  SagaRunStatus, running, awaiting_recovery, compensating, completed, failed_partial, aborted,
  SagaStepStatus, pending, ready, authorized, committed, verified, failed, ambiguous, compensated,
  compensation_refused, compensation_failed, SagaStepRecord, SagaRun, is_unique,
}
use chitragupta_protocol.Saga.Split.{IsIndexed, hashes_of, is_clear}

abbrev pub is_verified : SagaStepStatus → Bool
is_verified verified = true
is_verified _ = false

abbrev pub is_pending : SagaStepStatus → Bool
is_pending pending = true
is_pending _ = false

-- A compensation is recorded for the step: it was compensated, refused, or failed.
abbrev pub is_undone : SagaStepStatus → Bool
is_undone compensated = true
is_undone compensation_refused = true
is_undone compensation_failed = true
is_undone _ = false

abbrev pub every : (SagaStepStatus → Bool) → List SagaStepRecord → Bool
every p ss = all_of (λ s. p s.status) ss

-- The status of the step at the cursor, by that of the run.
abbrev pub is_current : SagaRunStatus → SagaStepStatus → Bool
is_current running ready = true
is_current running authorized = true
is_current running committed = true
is_current awaiting_recovery ambiguous = true
is_current _ _ = false

-- The compensation cursor is at the last of the `n` steps still to be compensated.
abbrev pub IsReversing : SagaRunStatus → Option ℕ → ℕ → Type 0
IsReversing compensating (some i) n = n ≡ suc i
IsReversing failed_partial none n = n ≡ 0
IsReversing aborted _ n = n ≡ 0
IsReversing _ _ _ = ⊥

pub data Phase (run : SagaRun) : Type 0 where
  -- Every step before the cursor is verified, every step after it untouched.
  forward :
      (before : List SagaStepRecord) (current : SagaStepRecord) (after : List SagaStepRecord)
      → run.steps ≡ before ++ current ∷ after
      → run.cursor ≡ length before
      → every is_verified before ≡ true
      → every is_pending after ≡ true
      → is_current run.status current.status ≡ true
      → Phase run
  finished :
      run.status ≡ completed
      → run.cursor ≡ length run.steps
      → every is_verified run.steps ≡ true
      → Phase run
  -- The step at the cursor has failed; of those before it, the last have a compensation recorded and
  -- the first are verified.
  reversing :
      (kept undone : List SagaStepRecord) (current : SagaStepRecord) (after : List SagaStepRecord)
      → run.steps ≡ kept ++ (undone ++ current ∷ after)
      → run.cursor ≡ length kept + length undone
      → every is_verified kept ≡ true
      → every is_undone undone ≡ true
      → current.status ≡ failed
      → every is_pending after ≡ true
      → IsReversing run.status run.compensation_cursor (length kept)
      → Phase run

-- The steps are those of the plan, each with its index.
pub record IsOrdered (run : SagaRun) : Type 0 where
  pub indexed : IsIndexed 0 run.steps
  pub of_plan : hashes_of run.steps ≡ run.plan.step_manifest_hashes
  pub distinct : is_unique run.plan.step_manifest_hashes ≡ true

pub record IsWellFormed (run : SagaRun) : Type 0 where
  pub phase : Phase run
  pub ordered : IsOrdered run

-- A predicate that fails of a status fails of all steps that have it.
pub clear-verified :
    (p : SagaStepStatus → Bool) (ss : List SagaStepRecord)
    → p verified ≡ false
    → every is_verified ss ≡ true
    → is_clear p ss ≡ true
clear-verified p [] n h = refl
clear-verified p (s ∷ ss) n h =
    ground (arith, status_verified s.status (ground arith), clear-verified p ss n)
  where
    status_verified : (t : SagaStepStatus) → is_verified t ≡ true → t ≡ verified
    status_verified t h = ground arith

pub clear-pending :
    (p : SagaStepStatus → Bool) (ss : List SagaStepRecord)
    → p pending ≡ false
    → every is_pending ss ≡ true
    → is_clear p ss ≡ true
clear-pending p [] n h = refl
clear-pending p (s ∷ ss) n h =
    ground (arith, status_pending s.status (ground arith), clear-pending p ss n)
  where
    status_pending : (t : SagaStepStatus) → is_pending t ≡ true → t ≡ pending
    status_pending t h = ground arith

pub clear-undone :
    (p : SagaStepStatus → Bool) (ss : List SagaStepRecord)
    → p compensated ≡ false
    → p compensation_refused ≡ false
    → p compensation_failed ≡ false
    → every is_undone ss ≡ true
    → is_clear p ss ≡ true
clear-undone p [] a b c h = refl
clear-undone p (s ∷ ss) a b c h =
    ground (arith, clear_status s.status (ground arith), clear-undone p ss a b c)
  where
    clear_status : (t : SagaStepStatus) → is_undone t ≡ true → p t ≡ false
    clear_status t h = ground arith
