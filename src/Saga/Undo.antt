-- ===== src/Saga/Undo.antt =====
-- saga/machine.py (`mark_compensation_result`): compensations are recorded for the last step that is
-- still verified, then for the one before it.
use chitragupta_protocol.Base.{
  last-cases, ℕ, suc, ◌+◌, ◌≡◌, refl, ap, ◌∙◌, subst, true, false, Option, none, some, List, [],
  ◌∷◌, ◌++◌, arith, length, length-append, Option-cases, inl, inr, eq_option_iff,
}
use mathlib.Core.List.{append_assoc}
use chitragupta_protocol.Errors.{ok}
use chitragupta_protocol.Saga.{
  SagaRunStatus, compensating, failed_partial, failed, CompensationStatus, SagaStepStatus,
  SagaStepRecord, SagaRun,
}
use chitragupta_protocol.Saga.Machine.{
  find_step, is_done, is_compensating, status_after, mark_compensation_result,
  move_compensation_cursor, max_of, done_below,
}
use chitragupta_protocol.Saga.Shape.{
  is_verified, is_pending, is_undone, every, is_current, forward, finished, reversing, IsReversing,
  IsOrdered, IsWellFormed, clear-undone,
}
use chitragupta_protocol.Saga.Split.{
  IsIndexed, find_at, is_clear, is_clear-append, get_at, replace_at, max_below, done_below-clear,
}
use chitragupta_protocol.Saga.Forward.{rewritten_order}
use chitragupta_protocol.Saga.Reverse.{every-last, done_of_verified, failed-clear}

pub cursor_of :
    (r : SagaRunStatus) (c : Option ℕ) (i n : ℕ)
    → is_compensating r ≡ true
    → c ≡ some i
    → IsReversing r c n
    → n ≡ suc i
cursor_of r c i n h e x = ground (arith, e, x)

undone_after : (s : CompensationStatus) → is_undone (status_after s) ≡ true
undone_after s = ground arith

not_done_after : (s : CompensationStatus) → is_done (status_after s) ≡ false
not_done_after s = ground arith

-- What is left after a compensation: the cursor moves back, or the run ends.
moved :
    (run : SagaRun) (ks : List SagaStepRecord) (z : SagaStepRecord) (undone : List SagaStepRecord)
    (y : SagaStepRecord) (after : List SagaStepRecord)
    → IsOrdered run
    → run.status ≡ compensating
    → run.steps ≡ ks ++ (z ∷ undone ++ y ∷ after)
    → run.cursor ≡ length ks + suc (length undone)
    → every is_verified ks ≡ true
    → every is_undone (z ∷ undone) ≡ true
    → y.status ≡ failed
    → every is_pending after ≡ true
    → IsWellFormed (move_compensation_cursor (length ks) run)
unfolding move_compensation_cursor
moved run ks z undone y after o r e c v u f p =
    let clear : is_clear is_done (z ∷ undone ++ y ∷ after) ≡ true =
      is_clear-append is_done (z ∷ undone) (y ∷ after)
        (clear-undone is_done (z ∷ undone) refl refl refl u) (failed-clear y after f p) in
    let same_order : (new : SagaRun) → new.steps ≡ run.steps → new.plan ≡ run.plan → IsOrdered new =
      λ new s q. record {
        indexed = rw s o.indexed;
        of_plan = rw (s, q) o.of_plan;
        distinct = rw q o.distinct;
      } in
    elim (last-cases ks) [
      | inl q ↦
          let nothing : max_of (done_below (length ks) run.steps) ≡ none =
            unfold max_of in
            ground (arith, e, q, done_below-clear (length ks) (z ∷ undone ++ y ∷ after) clear) in
          let new : SagaRun = record run { status = failed_partial; compensation_cursor = none } in
          let is_new : new ≡ move_compensation_cursor (length ks) run = ground (arith, nothing) in
          subst IsWellFormed is_new (record {
            phase = reversing ks (z ∷ undone) y after e c v u f p (ground (arith, q));
            ordered = same_order new refl refl;
          })
      | inr (js, j, q) ↦
          let split : run.steps ≡ js ++ j ∷ (z ∷ undone ++ y ∷ after) =
            e
            ∙ ap (λ l. l ++ (z ∷ undone ++ y ∷ after)) q
            ∙ append_assoc js (j ∷ []) (z ∷ undone ++ y ∷ after) in
          let last : is_done j.status ≡ true =
            done_of_verified j.status
              (every-last is_verified js j (subst (λ l. every is_verified l ≡ true) q v)).1 in
          let count : length ks ≡ 0 + suc (length js) =
            ground (arith, q, length-append js (j ∷ [])) in
          let found : max_of (done_below (length ks) (js ++ j ∷ (z ∷ undone ++ y ∷ after)))
              ≡ some (0 + length js) =
            max_below 0 (length ks) js j (z ∷ undone ++ y ∷ after)
              (subst (IsIndexed 0) split o.indexed) last clear count in
          let new : SagaRun = record run { compensation_cursor = some (0 + length js) } in
          let is_new : new ≡ move_compensation_cursor (length ks) run =
            ground (arith, split, found) in
          subst IsWellFormed is_new (record {
            phase = reversing ks (z ∷ undone) y after e c v u f p (rw r (omega (arith, count)));
            ordered = same_order new refl refl;
          })
    ]

pub not_forward :
    (r : SagaRunStatus) (s : SagaStepStatus) → is_current r s ≡ true → is_compensating r ≡ false
not_forward r s h = ground arith

is_compensating_run : (r : SagaRunStatus) → is_compensating r ≡ true → r ≡ compensating
is_compensating_run r h = ground arith

-- The step that a compensation is recorded for: the last of those still verified.
undo_last :
    (run : SagaRun) (h : ℕ) (status : CompensationStatus) (run' : SagaRun)
    (ks : List SagaStepRecord) (k : SagaStepRecord) (undone : List SagaStepRecord)
    (y : SagaStepRecord) (after : List SagaStepRecord)
    → IsWellFormed run
    → run.steps ≡ (ks ++ k ∷ []) ++ (undone ++ y ∷ after)
    → run.cursor ≡ length (ks ++ k ∷ []) + length undone
    → every is_verified (ks ++ k ∷ []) ≡ true
    → every is_undone undone ≡ true
    → y.status ≡ failed
    → every is_pending after ≡ true
    → run.compensation_cursor ≡ some (length ks)
    → mark_compensation_result run h status ≡ ok run'
    → IsWellFormed run'
unfolding mark_compensation_result
undo_last run h status run' ks k undone y after w e c v u f p q m =
    elim (Option-cases (find_step run.steps h)) [
      | inl g ↦ absurd (ground arith)
      | inr (s, g) ↦
          let rest : List SagaStepRecord = undone ++ y ∷ after in
          let split : run.steps ≡ ks ++ k ∷ rest = e ∙ append_assoc ks (k ∷ []) rest in
          let here : s.index ≡ length ks =
            ground (arith, q, eq_option_iff run.compensation_cursor (some s.index)) in
          let (j, a, b) = find_at 0 run.steps h s w.ordered.indexed g in
          let place : j ≡ length ks = omega (arith, a, here) in
          let is_last : s ≡ k = ground (arith, b, split, place, get_at ks k rest) in
          let z : SagaStepRecord = record k {
            status = status_after status;
            compensation_status = some status;
          } in
          let new : SagaRun = record run { steps = ks ++ z ∷ rest } in
          let is_after : move_compensation_cursor (length ks) new ≡ run' =
            ground (arith, here, is_last, replace_at run ks k z rest split) in
          subst IsWellFormed is_after (
            moved new ks z undone y after
              (rewritten_order run ks k z rest new w.ordered split refl refl refl refl)
              (is_compensating_run run.status (ground arith)) refl
              (omega (arith, c, length-append ks (k ∷ []))) (every-last is_verified ks k v).0
              (ground (arith, undone_after status)) f p)
    ]

pub compensated-IsWellFormed :
    (run : SagaRun) (h : ℕ) (status : CompensationStatus) (run' : SagaRun)
    → IsWellFormed run
    → mark_compensation_result run h status ≡ ok run'
    → IsWellFormed run'
compensated-IsWellFormed run h status run' w m =
    let on : is_compensating run.status ≡ true = unfold mark_compensation_result in ground arith in
    elim w.phase [
      | forward xs y zs e c v p s ↦ absurd (ground (arith, not_forward run.status y.status s))
      | finished s c v ↦ absurd (ground arith)
      | reversing kept undone y after e c v u f p r ↦ elim (Option-cases run.compensation_cursor) [
        | inl q ↦ absurd (
            unfold mark_compensation_result in ground (arith, Option-cases (find_step run.steps h)))
        | inr (i, q) ↦
            let count : length kept ≡ suc i =
              cursor_of run.status run.compensation_cursor i (length kept) on q r in
            elim (last-cases kept) [
              | inl x ↦ absurd (ground (arith, x, count))
              | inr (ks, k, x) ↦
                  undo_last run h status run' ks k undone y after w
                    (subst (λ l. run.steps ≡ l ++ (undone ++ y ∷ after)) x e)
                    (subst (λ l. run.cursor ≡ length l + length undone) x c)
                    (subst (λ l. every is_verified l ≡ true) x v) u f p
                    (ground (arith, q, count, x, length-append ks (k ∷ []))) m
            ]
      ]
    ]
