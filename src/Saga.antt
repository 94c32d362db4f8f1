-- ===== src/Saga.antt =====
-- saga/model.py: a plan of effects in order, and the run over it. `detail`, free text that no branch
-- reads, is left out.
pub mod Machine
pub mod Session
pub mod Shape
pub mod Split
pub mod Forward
pub mod Verifying
pub mod Reverse
pub mod Undo
pub mod Runs
pub mod Safety
pub mod Order
pub mod Refusal
pub mod Halt
use chitragupta_protocol.Base.{
  ℕ, zero, suc, ◌+◌, ◌&&◌, ◌||◌, Bool, true, false, Option, none, some, List, [], ◌∷◌, ltb, not,
  length, contains, ◌==◌, if◌then◌else◌,
}
use chitragupta_protocol.Errors.{value_error, Result, raise_if, ◌>>=◌, ◌>>◌}

pub data SagaRunStatus : Type 0 where
  pending_run running awaiting_recovery compensating completed failed_partial aborted :
      SagaRunStatus

pub data SagaStepStatus : Type 0 where
  pending ready authorized committing committed verified failed ambiguous : SagaStepStatus
  being_compensated compensated compensation_refused compensation_failed : SagaStepStatus

-- compensation/status.py
pub data CompensationStatus : Type 0 where
  refused attempted compensation_verified : CompensationStatus

pub record SagaStepRecord : Type 0 where
  pub manifest_hash : ℕ
  pub index : ℕ
  pub status : SagaStepStatus
  pub grant_id : Option ℕ
  pub commit_success : Option Bool
  pub provider_reference : Option ℕ
  pub is_ambiguous : Bool
  pub compensation_status : Option CompensationStatus

pub record SagaPlan : Type 0 where
  pub saga_id : ℕ
  pub causal_graph_hash : ℕ
  pub step_manifest_hashes : List ℕ
  pub created_at : ℕ
  pub nonce : ℕ

pub record SagaRun : Type 0 where
  pub run_id : ℕ
  pub plan : SagaPlan
  pub status : SagaRunStatus
  pub steps : List SagaStepRecord
  pub cursor : ℕ
  pub compensation_cursor : Option ℕ

abbrev pub max_saga_steps : ℕ
max_saga_steps = 256

-- `len(set(hashes)) == len(hashes)`
abbrev pub is_unique : List ℕ → Bool
is_unique [] = true
is_unique (h ∷ hs) = not (contains hs h) && is_unique hs

-- The validator of `SagaPlan.step_manifest_hashes`, which pydantic runs on construction.
unfoldable pub validate_steps : List ℕ → Result (Unit {0})
validate_steps hashes = do
  raise_if (length hashes == 0) value_error
  raise_if (ltb max_saga_steps (length hashes)) value_error
  raise_if (not (is_unique hashes)) value_error

abbrev pub fresh_step : ℕ → ℕ → SagaStepRecord
fresh_step index manifest_hash = record {
  manifest_hash = manifest_hash;
  index = index;
  status = if index == 0 then ready else pending;
  grant_id = none;
  commit_success = none;
  provider_reference = none;
  is_ambiguous = false;
  compensation_status = none;
}

-- The steps of a plan, `enumerate`d from the index given.
unfoldable pub fresh_steps : ℕ → List ℕ → List SagaStepRecord
fresh_steps index [] = []
fresh_steps index (h ∷ hs) = fresh_step index h ∷ fresh_steps (suc index) hs

unfoldable pub build_saga_run : SagaPlan → ℕ → SagaRun
build_saga_run plan run_id = record {
  run_id = run_id;
  plan = plan;
  status = pending_run;
  steps = fresh_steps 0 plan.step_manifest_hashes;
  cursor = 0;
  compensation_cursor = none;
}
