-- ===== src/Saga/Reverse.antt =====
-- saga/machine.py: a failed step turns a run round, and compensations walk back over its verified steps.
use chitragupta_protocol.Base.{
  last-cases, ℕ, suc, ◌+◌, ◌≡◌, refl, ap, ◌∙◌, subst, Bool, true, false, none, some, List, [], ◌∷◌,
  ◌++◌, arith, length, length-append, inl, inr,
}
use mathlib.Core.List.{append_assoc}
use chitragupta_protocol.Errors.{ok}
use chitragupta_protocol.Saga.{
  aborted, compensating, failed, SagaStepStatus, SagaStepRecord, SagaRun, is_unique,
}
use chitragupta_protocol.Saga.Machine.{
  find_step, is_done, mark_step_failed, start_compensation, done_indices, max_of,
}
use chitragupta_protocol.Saga.Shape.{
  is_verified, is_pending, every, reversing, IsOrdered, IsWellFormed, clear-pending,
}
use chitragupta_protocol.Saga.Split.{
  IsIndexed, hashes_of, find_unique, is_clear, replace_at, max_done, done_indices-clear,
}
use chitragupta_protocol.Saga.Forward.{rewritten_order, index_of}

pub every-last :
    (p : SagaStepStatus → Bool) (xs : List SagaStepRecord) (y : SagaStepRecord)
    → every p (xs ++ y ∷ []) ≡ true
    → (every p xs ≡ true) × (p y.status ≡ true)
every-last p [] y h = (refl, ground arith)
every-last p (x ∷ xs) y h = let (a, b) = every-last p xs y (ground arith) in (ground (arith, a), b)

pub done_of_verified : (s : SagaStepStatus) → is_verified s ≡ true → is_done s ≡ true
done_of_verified s h = ground arith

pub failed-clear :
    (z : SagaStepRecord) (zs : List SagaStepRecord)
    → z.status ≡ failed
    → every is_pending zs ≡ true
    → is_clear is_done (z ∷ zs) ≡ true
failed-clear z zs f p = ground (arith, f, clear-pending is_done zs refl p)

-- A run whose step at the cursor has just failed is turned round.
turned :
    (run : SagaRun) (xs : List SagaStepRecord) (z : SagaStepRecord) (zs : List SagaStepRecord)
    → IsOrdered run
    → run.steps ≡ xs ++ z ∷ zs
    → run.cursor ≡ length xs
    → every is_verified xs ≡ true
    → z.status ≡ failed
    → every is_pending zs ≡ true
    → IsWellFormed (start_compensation run)
unfolding start_compensation
turned run xs z zs o e c v f p = elim (last-cases xs) [
  | inl q ↦
      let nothing : done_indices run.steps ≡ [] =
        rw (e, q) (done_indices-clear (z ∷ zs) (failed-clear z zs f p)) in
      let none_done : max_of (done_indices run.steps) ≡ none =
        unfold max_of in ground (arith, nothing) in
      let new : SagaRun = record run { status = aborted } in
      let is_new : new ≡ start_compensation run = ground (arith, none_done) in
      subst IsWellFormed is_new (record {
        phase = reversing [] [] z zs (rw e (rw q refl)) (ground (arith, q, c)) refl refl f p refl;
        ordered = record { indexed = o.indexed; of_plan = o.of_plan; distinct = o.distinct };
      })
  | inr (ks, k, q) ↦
      let split : run.steps ≡ ks ++ k ∷ z ∷ zs =
        e ∙ ap (λ l. l ++ z ∷ zs) q ∙ append_assoc ks (k ∷ []) (z ∷ zs) in
      let last : is_done k.status ≡ true =
        done_of_verified k.status
          (every-last is_verified ks k (subst (λ l. every is_verified l ≡ true) q v)).1 in
      let found : max_of (done_indices (ks ++ k ∷ z ∷ zs)) ≡ some (0 + length ks) =
        max_done 0 ks k (z ∷ zs) (subst (IsIndexed 0) split o.indexed) last
          (failed-clear z zs f p) in
      let new : SagaRun = record run {
        status = compensating;
        compensation_cursor = some (0 + length ks);
      } in
      let is_new : new ≡ start_compensation run = ground (arith, split, found) in
      let count : length xs ≡ suc (0 + length ks) = ground (arith, q, length-append ks (k ∷ [])) in
      subst IsWellFormed is_new (record {
        phase = reversing xs [] z zs e (ground (arith, c)) v refl f p count;
        ordered = record { indexed = o.indexed; of_plan = o.of_plan; distinct = o.distinct };
      })
]

pub failed-IsWellFormed :
    (run : SagaRun) (h : ℕ) (run' : SagaRun) (xs : List SagaStepRecord) (y : SagaStepRecord)
    (zs : List SagaStepRecord)
    → IsWellFormed run
    → run.steps ≡ xs ++ y ∷ zs
    → run.cursor ≡ length xs
    → every is_verified xs ≡ true
    → every is_pending zs ≡ true
    → y.manifest_hash ≡ h
    → mark_step_failed run h ≡ ok run'
    → IsWellFormed run'
unfolding mark_step_failed
failed-IsWellFormed run h run' xs y zs w e c v p m k =
    let z : SagaStepRecord = record y { status = failed; commit_success = some false } in
    let new : SagaRun = record run { steps = xs ++ z ∷ zs } in
    let unique : is_unique (hashes_of (xs ++ y ∷ zs)) ≡ true =
      subst (λ l. is_unique (hashes_of l) ≡ true) e (rw w.ordered.of_plan w.ordered.distinct) in
    let found : find_step run.steps h ≡ some y = rw (e, ← m) (find_unique xs y zs unique) in
    let is_after : start_compensation new ≡ run' =
      ground (arith, found, index_of run xs y zs w e, replace_at run xs y z zs e) in
    subst IsWellFormed is_after (
      turned new xs z zs (rewritten_order run xs y z zs new w.ordered e refl refl refl refl) refl c
        v refl p)
