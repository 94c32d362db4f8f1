-- ===== src/Saga/Verifying.antt =====
-- saga/machine.py (`mark_step_verified`): a verified step readies the next, or finishes the run.
use chitragupta_protocol.Base.{
  ℕ, suc, ◌≡◌, refl, sym, subst, Bool, true, some, List, [], ◌∷◌, ◌++◌, arith, length,
  length-append, get_elem?, Option-cases, inl, inr,
}
use mathlib.Core.List.{append_assoc}
use chitragupta_protocol.Errors.{ok}
use chitragupta_protocol.Saga.{
  running, completed, ready, verified, SagaStepStatus, SagaStepRecord, SagaRun,
}
use chitragupta_protocol.Saga.Machine.{find_step, is_step_committed, mark_step_verified}
use chitragupta_protocol.Saga.Shape.{
  is_verified, is_pending, every, forward, finished, reversing, IsOrdered, IsWellFormed,
  clear-verified, clear-pending, clear-undone,
}
use chitragupta_protocol.Saga.Split.{
  find_current, find-clear, is_clear, is_clear-append, get_at, replace_at,
}
use chitragupta_protocol.Saga.Forward.{rewritten, rewritten_order, index_of}

-- The step that a search finds committed is the one at the cursor of a run that goes forward.
found_committed :
    (run : SagaRun) (h : ℕ) (s : SagaStepRecord)
    → IsWellFormed run
    → find_step run.steps h ≡ some s
    → is_step_committed s.status ≡ true
    → (xs : List SagaStepRecord) × (zs : List SagaStepRecord) × (run.steps ≡ xs ++ s ∷ zs)
      × (every is_verified xs ≡ true)
      × (every is_pending zs ≡ true)
found_committed run h s w f c = elim w.phase [
  | forward xs y zs e q v p t ↦
      let is_it : s ≡ y =
        find_current is_step_committed xs y zs h s (clear-verified is_step_committed xs refl v)
          (clear-pending is_step_committed zs refl p) c (rw (← e) f) in
      (xs, zs, rw is_it e, v, p)
  | finished t q v ↦ absurd (
      ground (
        arith,
        find-clear is_step_committed run.steps h s
            (clear-verified is_step_committed run.steps refl v) f,
      ))
  | reversing kept undone y zs e q v u t p r ↦
      let clear : is_clear is_step_committed run.steps ≡ true = rw e (
        is_clear-append is_step_committed kept (undone ++ y ∷ zs)
          (clear-verified is_step_committed kept refl v)
          (is_clear-append is_step_committed undone (y ∷ zs)
            (clear-undone is_step_committed undone refl refl refl u)
            (ground (arith, clear-pending is_step_committed zs refl p)))) in
      absurd (ground (arith, find-clear is_step_committed run.steps h s clear f))
]

every-append :
    (p : SagaStepStatus → Bool) (xs ys : List SagaStepRecord)
    → every p xs ≡ true
    → every p ys ≡ true
    → every p (xs ++ ys) ≡ true
every-append p [] ys h k = k
every-append p (x ∷ xs) ys h k = ground (arith, every-append p xs ys)

-- The last step is verified: the run is finished.
finish :
    (run : SagaRun) (h : ℕ) (s : SagaStepRecord) (run' : SagaRun) (xs : List SagaStepRecord)
    → IsWellFormed run
    → mark_step_verified run h ≡ ok run'
    → find_step run.steps h ≡ some s
    → is_step_committed s.status ≡ true
    → run.steps ≡ xs ++ s ∷ []
    → every is_verified xs ≡ true
    → IsWellFormed run'
unfolding mark_step_verified
finish run h s run' xs w k f c e v =
    let z : SagaStepRecord = record s { status = verified } in
    let here : s.index ≡ length xs = index_of run xs s [] w e in
    let new : SagaRun = record run {
      steps = xs ++ z ∷ [];
      cursor = suc (length xs);
      status = completed;
    } in
    let is_after : new ≡ run' =
      ground (arith, here, e, length-append xs (s ∷ []), replace_at run xs s z [] e) in
    subst IsWellFormed is_after (
      rewritten run xs s z [] new w e refl refl refl refl (
        finished refl (omega (arith, length-append xs (z ∷ [])))
          (every-append is_verified xs (z ∷ []) v refl)))

-- A step is verified that has one after it, which is readied.
ready_next :
    (run : SagaRun) (h : ℕ) (s : SagaStepRecord) (run' : SagaRun) (xs : List SagaStepRecord)
    (n : SagaStepRecord) (ns : List SagaStepRecord)
    → IsWellFormed run
    → mark_step_verified run h ≡ ok run'
    → find_step run.steps h ≡ some s
    → is_step_committed s.status ≡ true
    → run.steps ≡ xs ++ s ∷ n ∷ ns
    → every is_verified xs ≡ true
    → every is_pending ns ≡ true
    → IsWellFormed run'
unfolding mark_step_verified
ready_next run h s run' xs n ns w k f c e v p =
    let z : SagaStepRecord = record s { status = verified } in
    let r : SagaStepRecord = record n { status = ready } in
    let here : s.index ≡ length xs = index_of run xs s (n ∷ ns) w e in
    let ys : List SagaStepRecord = xs ++ z ∷ [] in
    let next_index : suc (length xs) ≡ length ys = omega (arith, length-append xs (z ∷ [])) in
    let middle : SagaRun = record run { steps = xs ++ z ∷ n ∷ ns } in
    let split : middle.steps ≡ ys ++ n ∷ ns = sym (append_assoc xs (z ∷ []) (n ∷ ns)) in
    let next : get_elem? middle.steps (suc (length xs)) ≡ some n =
      rw (next_index, split) (get_at ys n ns) in
    let new : SagaRun = record run {
      steps = ys ++ r ∷ ns;
      cursor = suc (length xs);
      status = running;
    } in
    let is_after : new ≡ run' = ground (
      arith,
      here,
      e,
      length-append xs (s ∷ n ∷ ns),
      next_index,
      next,
      replace_at run xs s z (n ∷ ns) e,
      replace_at middle ys n r ns split,
    ) in
    let order : IsOrdered middle =
      rewritten_order run xs s z (n ∷ ns) middle w.ordered e refl refl refl refl in
    subst IsWellFormed is_after (record {
      phase = forward ys r ns refl next_index (every-append is_verified xs (z ∷ []) v refl) p refl;
      ordered = rewritten_order middle ys n r ns new order split refl refl refl refl;
    })

pub verified-IsWellFormed :
    (run : SagaRun) (h : ℕ) (run' : SagaRun)
    → IsWellFormed run
    → mark_step_verified run h ≡ ok run'
    → IsWellFormed run'
verified-IsWellFormed run h run' w k = elim (Option-cases (find_step run.steps h)) [
  | inl f ↦ absurd (unfold mark_step_verified in ground arith)
  | inr (s, f) ↦
      let c : is_step_committed s.status ≡ true = unfold mark_step_verified in ground arith in
      let (xs, zs, e, v, p) = found_committed run h s w f c in by_rest s f c xs v zs e p
]
  where
    by_rest :
        (s : SagaStepRecord)
        → find_step run.steps h ≡ some s
        → is_step_committed s.status ≡ true
        → (xs : List SagaStepRecord) → every is_verified xs ≡ true
        → (zs : List SagaStepRecord) → run.steps ≡ xs ++ s ∷ zs
        → every is_pending zs ≡ true
        → IsWellFormed run'
    by_rest s f c xs v [] e p = finish run h s run' xs w k f c e v
    by_rest s f c xs v (n ∷ ns) e p = ready_next run h s run' xs n ns w k f c e v (ground arith)
