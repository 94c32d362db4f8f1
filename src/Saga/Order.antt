-- ===== src/Saga/Order.antt =====
-- saga/machine.py and engine/core.py: commits in the plan's order, compensations in the reverse one, and
-- no way forward once a step has failed.
use chitragupta_protocol.Base.{
  last-cases, ℕ, suc, ◌≡◌, refl, ap, ◌∙◌, subst, true, Option, some, List, [], ◌∷◌, ◌++◌, arith,
  length, length-append, get_elem?, Option-cases, Bool-cases, inl, inr,
}
use mathlib.Core.List.{append_assoc}
use chitragupta_protocol.Errors.{ok}
use chitragupta_protocol.Saga.{
  SagaRunStatus, failed_partial, CompensationStatus, SagaStepStatus, SagaStepRecord, SagaRun,
  SagaPlan,
}
use chitragupta_protocol.Saga.Machine.{
  is_done, is_compensating, assert_can_commit_step, next_compensation_manifest_hash,
}
use chitragupta_protocol.Saga.Session.{begin_saga, record_saga_compensation, Call, calls}
use chitragupta_protocol.Saga.Shape.{
  is_verified, every, is_current, forward, finished, reversing, IsReversing, IsWellFormed,
  clear-undone,
}
use chitragupta_protocol.Saga.Split.{is_clear, is_clear-append, get_at}
use chitragupta_protocol.Saga.Forward.{Committable, commits_in_order}
use chitragupta_protocol.Saga.Reverse.{failed-clear}
use chitragupta_protocol.Saga.Undo.{cursor_of, not_forward}
use chitragupta_protocol.Saga.Safety.{saga_is_well_formed}

-- In a saga that the engine began and operated on in any way, a step is let through to its commit only
-- when it is the authorized step at the cursor, every step before it is verified and no step after
-- it has begun.
pub saga_commits_in_order :
    (plan : SagaPlan) (graph id h i : ℕ) (run : SagaRun) (cs : List Call)
    → begin_saga plan graph id ≡ ok run
    → assert_can_commit_step (calls run cs) h ≡ ok i
    → Committable (calls run cs) h i
saga_commits_in_order plan graph id h i run cs k q =
    commits_in_order (calls run cs) h i (saga_is_well_formed plan graph id run cs k) q

partial_kept :
    (r : SagaRunStatus) (c : Option ℕ) (n : ℕ) → r ≡ failed_partial → IsReversing r c n → n ≡ 0
partial_kept r c n e x = ground (arith, x)

length-zero : {A : Type 0} (xs : List A) → length xs ≡ 0 → xs ≡ []
length-zero [] h = refl
length-zero (x ∷ xs) h = absurd (ground arith)

not_partial :
    (r : SagaRunStatus) (s : SagaStepStatus) → r ≡ failed_partial → is_current r s ≡ true → ⊥
not_partial r s e h = ground arith

-- When a saga ends FAILED_PARTIAL, no step is left committed or verified: each step that took effect
-- has a compensation recorded, be it refused, attempted or verified.
pub partial_leaves_none_done :
    (plan : SagaPlan) (graph id : ℕ) (run : SagaRun) (cs : List Call)
    → begin_saga plan graph id ≡ ok run
    → (calls run cs).status ≡ failed_partial
    → is_clear is_done (calls run cs).steps ≡ true
partial_leaves_none_done plan graph id run cs k e =
    elim (saga_is_well_formed plan graph id run cs k).phase [
      | forward xs y zs q c v p s ↦ absurd (not_partial (calls run cs).status y.status e s)
      | finished s c v ↦ absurd (ground arith)
      | reversing kept undone y after q c v u f p r ↦
          let gone : kept ≡ [] = length-zero kept (
            partial_kept (calls run cs).status (calls run cs).compensation_cursor (length kept) e
              r) in
          rw (q, gone)
            (is_clear-append is_done undone (y ∷ after)
              (clear-undone is_done undone refl refl refl u) (failed-clear y after f p))
    ]

-- A compensation is recorded only for the last step that is still verified: every step before it is
-- verified, and none after it is committed or verified.
pub compensates_in_reverse :
    (run : SagaRun) (h : ℕ) (status : CompensationStatus)
    → IsWellFormed run
    → (record_saga_compensation run h status).result ≡ ok tt
    → (before : List SagaStepRecord) × (step : SagaStepRecord) × (after : List SagaStepRecord)
      × (run.steps ≡ before ++ step ∷ after)
      × (step.manifest_hash ≡ h)
      × (every is_verified (before ++ step ∷ []) ≡ true)
      × (is_clear is_done after ≡ true)
unfolding record_saga_compensation next_compensation_manifest_hash
compensates_in_reverse run h status w k = elim (Bool-cases (is_compensating run.status)) [
  | inr b ↦ absurd (ground arith)
  | inl b ↦ elim w.phase [
    | forward xs y zs e c v p s ↦ absurd (ground (arith, not_forward run.status y.status s))
    | finished s c v ↦ absurd (ground arith)
    | reversing kept undone y after e c v u f p r ↦ elim (Option-cases run.compensation_cursor) [
      | inl q ↦ absurd (ground arith)
      | inr (i, q) ↦
          let count : length kept ≡ suc i =
            cursor_of run.status run.compensation_cursor i (length kept) b q r in
          elim (last-cases kept) [
            | inl x ↦ absurd (ground (arith, x, count))
            | inr (ks, s, x) ↦
                let rest : List SagaStepRecord = undone ++ y ∷ after in
                let split : run.steps ≡ ks ++ s ∷ rest =
                  e ∙ ap (λ l. l ++ rest) x ∙ append_assoc ks (s ∷ []) rest in
                let place : i ≡ length ks = ground (arith, count, x, length-append ks (s ∷ [])) in
                let found : get_elem? run.steps i ≡ some s = rw (split, place) (get_at ks s rest) in
                (
                  ks,
                  s,
                  rest,
                  split,
                  ground (arith, found, q),
                  subst (λ l. every is_verified l ≡ true) x v,
                  is_clear-append is_done undone (y ∷ after)
                      (clear-undone is_done undone refl refl refl u) (failed-clear y after f p),
                )
          ]
    ]
  ]
]
