-- ===== src/Saga/Refusal.antt =====
-- saga/machine.py and engine/core.py: what a run that has turned refuses.
use chitragupta_protocol.Base.{
  ℕ, ◌≡◌, ◌≢◌, refl, Bool, true, false, ◌∷◌, ◌++◌, arith, Option-cases, inl, inr,
}
use chitragupta_protocol.Errors.{ok}
use chitragupta_protocol.Saga.{
  SagaRunStatus, aborted, compensating, failed_partial, SagaStepStatus, SagaRun,
}
use chitragupta_protocol.Saga.Machine.{
  find_step, is_step_committed, assert_can_commit_step, assert_can_recover_step,
  mark_step_authorized, mark_step_verified,
}
use chitragupta_protocol.Saga.Shape.{
  is_current, forward, finished, reversing, IsWellFormed, clear-verified, clear-pending,
  clear-undone,
}
use chitragupta_protocol.Saga.Split.{is_clear, is_clear-append, find-clear}
use chitragupta_protocol.Saga.Forward.{committable, commits_in_order, failed_at}

-- COMPENSATING, FAILED_PARTIAL or ABORTED
abbrev pub has_turned : SagaRunStatus → Bool
has_turned compensating = true
has_turned failed_partial = true
has_turned aborted = true
has_turned _ = false

turned_not_current :
    (r : SagaRunStatus) (s : SagaStepStatus) → is_current r s ≡ true → has_turned r ≡ false
turned_not_current r s h = ground arith

pub cannot_commit :
    (run : SagaRun) (h i : ℕ)
    → IsWellFormed run
    → has_turned run.status ≡ true
    → assert_can_commit_step run h ≢ ok i
cannot_commit run h i w t q = elim (commits_in_order run h i w q) [
  | committable xs y zs e c v p r s m j ↦ ground (arith, r)
]

pub cannot_authorize :
    (run : SagaRun) (h g : ℕ) (x : SagaRun)
    → IsWellFormed run
    → has_turned run.status ≡ true
    → mark_step_authorized run h g ≢ ok x
unfolding mark_step_authorized
cannot_authorize run h g x w t k = elim w.phase [
  | forward xs y zs e c v p s ↦ ground (arith, turned_not_current run.status y.status s)
  | finished s c v ↦ ground arith
  | reversing kept undone y after e c v u f p r ↦
      ground (arith, failed_at run kept undone y after e c)
]

pub cannot_verify :
    (run : SagaRun) (h : ℕ) (x : SagaRun)
    → IsWellFormed run
    → has_turned run.status ≡ true
    → mark_step_verified run h ≢ ok x
unfolding mark_step_verified
cannot_verify run h x w t k = elim (Option-cases (find_step run.steps h)) [
  | inl f ↦ ground arith
  | inr (s, f) ↦ elim w.phase [
    | forward xs y zs e c v p q ↦ ground (arith, turned_not_current run.status y.status q)
    | finished q c v ↦ ground arith
    | reversing kept undone y after e c v u q p r ↦
        let clear : is_clear is_step_committed run.steps ≡ true = rw e (
          is_clear-append is_step_committed kept (undone ++ y ∷ after)
            (clear-verified is_step_committed kept refl v)
            (is_clear-append is_step_committed undone (y ∷ after)
              (clear-undone is_step_committed undone refl refl refl u)
              (ground (arith, q, clear-pending is_step_committed after refl p)))) in
        ground (arith, find-clear is_step_committed run.steps h s clear f)
  ]
]

pub cannot_recover :
    (run : SagaRun) (h i : ℕ) → has_turned run.status ≡ true → assert_can_recover_step run h ≢ ok i
unfolding assert_can_recover_step
cannot_recover run h i t k = ground arith
