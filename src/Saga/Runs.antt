-- ===== src/Saga/Runs.antt =====
-- engine/core.py: every saga operation of the engine keeps the shape of the run.
use chitragupta_protocol.Base.{
  ℕ, suc, ◌≡◌, refl, ap, subst, Bool, true, false, not, some, List, [], ◌∷◌, arith, length, ◌!=◌,
  Bool-cases, inl, inr, eq_option,
}
use chitragupta_protocol.Errors.{Error, saga_ambiguous_step_error, Result, ok, err, Result-cases}
use chitragupta_protocol.Adapters.{CommitResult}
use chitragupta_protocol.Saga.{
  running, CompensationStatus, SagaRun, SagaPlan, is_unique, fresh_step, fresh_steps,
  build_saga_run, validate_steps,
}
use chitragupta_protocol.Saga.Machine.{
  assert_can_commit_step, mark_step_authorized, mark_step_ambiguous, mark_step_verified,
  next_compensation_manifest_hash, mark_step_failed, mark_step_committed, mark_compensation_result,
}
use chitragupta_protocol.Saga.Session.{
  advance, advance_raising, is_security_denial, begin_saga, authorize_saga_step, after_commit,
  commit_guarded, commit_saga_step, verify_saga_step, record_saga_compensation, assert_committable,
}
use chitragupta_protocol.Saga.Shape.{is_pending, every, forward, IsWellFormed}
use chitragupta_protocol.Saga.Split.{IsIndexed, hashes_of}
use chitragupta_protocol.Saga.Forward.{
  authorized-IsWellFormed, committed-IsWellFormed, ambiguous-IsWellFormed, committable,
  commits_in_order,
}
use chitragupta_protocol.Saga.Verifying.{verified-IsWellFormed}
use chitragupta_protocol.Saga.Reverse.{failed-IsWellFormed}
use chitragupta_protocol.Saga.Undo.{compensated-IsWellFormed}

fresh-IsIndexed : (i : ℕ) (hs : List ℕ) → IsIndexed i (fresh_steps i hs)
unfolding fresh_steps
fresh-IsIndexed i [] = tt
fresh-IsIndexed i (h ∷ hs) = (refl, fresh-IsIndexed (suc i) hs)

fresh-hashes : (i : ℕ) (hs : List ℕ) → hashes_of (fresh_steps i hs) ≡ hs
unfolding fresh_steps
fresh-hashes i [] = refl
fresh-hashes i (h ∷ hs) = ap (λ l. h ∷ l) (fresh-hashes (suc i) hs)

fresh-pending : (i : ℕ) (hs : List ℕ) → every is_pending (fresh_steps (suc i) hs) ≡ true
unfolding fresh_steps
fresh-pending i [] = refl
fresh-pending i (h ∷ hs) = ground (arith, fresh-pending (suc i) hs)

begun :
    (plan : SagaPlan) (id : ℕ) (hs : List ℕ) (run : SagaRun)
    → hs ≡ plan.step_manifest_hashes
    → record (build_saga_run plan id) { status = running } ≡ run
    → (length hs ≡ 0 → ⊥)
    → is_unique hs ≡ true
    → IsWellFormed run
unfolding build_saga_run
begun plan id [] run q e n u = absurd (n refl)
begun plan id (h ∷ hs) run q e n u =
    let new : SagaRun = record (build_saga_run plan id) { status = running } in
    let steps_split : new.steps ≡ fresh_step 0 h ∷ fresh_steps 1 hs =
      rw (← q) (unfold fresh_steps in refl) in
    subst IsWellFormed e (record {
      phase =
          forward [] (fresh_step 0 h) (fresh_steps 1 hs) steps_split refl refl (fresh-pending 0 hs)
            refl;
      ordered = record {
        indexed = fresh-IsIndexed 0 plan.step_manifest_hashes;
        of_plan = fresh-hashes 0 plan.step_manifest_hashes;
        distinct = rw (← q) u;
      };
    })

pub begin-IsWellFormed :
    (plan : SagaPlan) (graph id : ℕ) (run : SagaRun)
    → begin_saga plan graph id ≡ ok run
    → IsWellFormed run
unfolding begin_saga validate_steps
begin-IsWellFormed plan graph id run k =
    begun plan id plan.step_manifest_hashes run refl (ground arith) (λ e. ground (arith))
      (ground arith)

pub advanced :
    (run : SagaRun) (r : Result SagaRun)
    → IsWellFormed run
    → ((x : SagaRun) → r ≡ ok x → IsWellFormed x)
    → IsWellFormed (advance run r).run
advanced run (ok x) w f = f x refl
advanced run (err e) w f = w

advanced_raising :
    (run : SagaRun) (e : Error) (r : Result SagaRun)
    → IsWellFormed run
    → ((x : SagaRun) → r ≡ ok x → IsWellFormed x)
    → IsWellFormed (advance_raising run e r).run
advanced_raising run e (ok x) w f = f x refl
advanced_raising run e (err y) w f = w

failed_commit :
    (run : SagaRun) (h i : ℕ) (x : SagaRun)
    → IsWellFormed run
    → assert_can_commit_step run h ≡ ok i
    → mark_step_failed run h ≡ ok x
    → IsWellFormed x
failed_commit run h i x w q k = elim (commits_in_order run h i w q) [
  | committable xs y zs e c v p r s m j ↦ failed-IsWellFormed run h x xs y zs w e c v p m k
]

after_commit-IsWellFormed :
    (run : SagaRun) (h i : ℕ) (committed : Result CommitResult)
    → IsWellFormed run
    → assert_can_commit_step run h ≡ ok i
    → IsWellFormed (after_commit run h committed).run
unfolding after_commit
after_commit-IsWellFormed run h i (err e) w q = elim (Bool-cases (is_security_denial e)) [
  | inl d ↦ rw d w
  | inr d ↦
      rw d
        (advanced_raising run e (mark_step_failed run h) w (λ x k. failed_commit run h i x w q k))
]
after_commit-IsWellFormed run h i (ok r) w q = elim (Bool-cases r.success) [
  | inl d ↦ rw d (
      advanced run (mark_step_committed run h true r.provider_reference) w
        (λ x k. committed-IsWellFormed run h r.provider_reference x w k))
  | inr d ↦ rw d (advanced run (mark_step_failed run h) w (λ x k. failed_commit run h i x w q k))
]

pub authorize-IsWellFormed :
    (run : SagaRun) (graph h : ℕ) (grant : Result ℕ)
    → IsWellFormed run
    → IsWellFormed (authorize_saga_step run graph h grant).run
unfolding authorize_saga_step
authorize-IsWellFormed run graph h grant w =
    elim (Bool-cases (graph != run.plan.causal_graph_hash)) [
      | inl b ↦ rw b w
      | inr b ↦ elim (Result-cases grant) [
        | inr (e, q) ↦ rw (b, q) w
        | inl (g, q) ↦
            rw (b, q)
              (advanced run (mark_step_authorized run h g) w
                (λ x k. authorized-IsWellFormed run h g x w k))
      ]
    ]

committable_step :
    (run : SagaRun) (graph h : ℕ)
    → assert_committable run graph h ≡ ok tt
    → (i : ℕ) × (assert_can_commit_step run h ≡ ok i)
unfolding assert_committable
committable_step run graph h q = elim (Result-cases (assert_can_commit_step run h)) [
  | inr (e, m) ↦ absurd (ground (arith, m))
  | inl (i, m) ↦ (i, m)
]

guarded-IsWellFormed :
    (r : Result (Unit {0})) (run : SagaRun) (h : ℕ) (reports_ambiguous : Bool)
    (committed : Result CommitResult)
    → (r ≡ ok tt → (i : ℕ) × (assert_can_commit_step run h ≡ ok i))
    → IsWellFormed run
    → IsWellFormed (commit_guarded r run h reports_ambiguous committed).run
unfolding commit_guarded
guarded-IsWellFormed (err e) run h b committed a w = w
guarded-IsWellFormed (ok u) run h true committed a w =
    advanced_raising run saga_ambiguous_step_error (mark_step_ambiguous run h) w
      (λ x k. ambiguous-IsWellFormed run h x w k)
guarded-IsWellFormed (ok u) run h false committed a w =
    let (i, m) = a refl in after_commit-IsWellFormed run h i committed w m

pub commit-IsWellFormed :
    (run : SagaRun) (graph h : ℕ) (reports_ambiguous : Bool) (committed : Result CommitResult)
    → IsWellFormed run
    → IsWellFormed (commit_saga_step run graph h reports_ambiguous committed).run
unfolding commit_saga_step
commit-IsWellFormed run graph h reports_ambiguous committed w =
    guarded-IsWellFormed (assert_committable run graph h) run h reports_ambiguous committed
      (committable_step run graph h) w

pub verify-IsWellFormed :
    (run : SagaRun) (h : ℕ) (matched : Result Bool)
    → IsWellFormed run
    → IsWellFormed (verify_saga_step run h matched).run
unfolding verify_saga_step
verify-IsWellFormed run h (err e) w = w
verify-IsWellFormed run h (ok false) w = w
verify-IsWellFormed run h (ok true) w =
    advanced run (mark_step_verified run h) w (λ x k. verified-IsWellFormed run h x w k)

pub compensate-IsWellFormed :
    (run : SagaRun) (h : ℕ) (status : CompensationStatus)
    → IsWellFormed run
    → IsWellFormed (record_saga_compensation run h status).run
unfolding record_saga_compensation
compensate-IsWellFormed run h status w = elim (Result-cases (next_compensation_manifest_hash run)) [
  | inr (e, q) ↦ rw q w
  | inl (o, q) ↦ elim (Bool-cases (not (eq_option o (some h)))) [
    | inl b ↦ rw (q, b) w
    | inr b ↦
        rw (q, b)
          (advanced run (mark_compensation_result run h status) w
            (λ x k. compensated-IsWellFormed run h status x w k))
  ]
]
