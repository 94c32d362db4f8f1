-- ===== src/Saga/Halt.antt =====
-- saga/machine.py and engine/core.py: once a step has failed there is no way forward.
use chitragupta_protocol.Base.{
  ℕ, ◌≡◌, refl, subst, Bool, true, false, not, Option, some, List, [], ◌∷◌, arith, Option-cases,
  Bool-cases, inl, inr, eq_option, ◌!=◌,
}
use chitragupta_protocol.Errors.{Error, saga_graph_mismatch_error, Result, ok, err, Result-cases}
use chitragupta_protocol.Adapters.{CommitResult}
use chitragupta_protocol.Saga.{CompensationStatus, SagaStepRecord, SagaRun}
use chitragupta_protocol.Saga.Machine.{
  status_after, find_step, assert_can_commit_step, assert_can_recover_step, mark_step_authorized,
  mark_step_verified, mark_compensation_result, move_compensation_cursor, max_of, done_below,
  replace_step, next_compensation_manifest_hash,
}
use chitragupta_protocol.Saga.Session.{
  raises, advance, authorize_saga_step, commit_saga_step, commit_guarded, assert_committable,
  verify_saga_step, recover_saga_step, record_saga_compensation, Call, authorizes, commits,
  verifies, recovers, compensates, call, calls,
}
use chitragupta_protocol.Saga.Shape.{IsWellFormed}
use chitragupta_protocol.Saga.Safety.{call-IsWellFormed}
use chitragupta_protocol.Saga.Refusal.{
  has_turned, cannot_commit, cannot_authorize, cannot_verify, cannot_recover,
}

moved-status :
    (run : SagaRun) (i : ℕ)
    → has_turned run.status ≡ true
    → has_turned (move_compensation_cursor i run).status ≡ true
unfolding move_compensation_cursor
moved-status run i t = elim (Option-cases (max_of (done_below i run.steps))) [
  | inl q ↦ ground (arith, q)
  | inr (j, q) ↦ ground (arith, q)
]

replaced-status :
    (run : SagaRun) (i : ℕ) (z : SagaStepRecord) (x : SagaRun)
    → replace_step run i z ≡ ok x
    → x.status ≡ run.status
unfolding replace_step
replaced-status run i z x k = ground arith

compensated-status :
    (run : SagaRun) (h : ℕ) (s : CompensationStatus) (x : SagaRun)
    → has_turned run.status ≡ true
    → mark_compensation_result run h s ≡ ok x
    → has_turned x.status ≡ true
unfolding mark_compensation_result
compensated-status run h s x t k = elim (Option-cases (find_step run.steps h)) [
  | inl f ↦ absurd (ground arith)
  | inr (y, f) ↦
      let z : SagaStepRecord = record y { status = status_after s; compensation_status = some s } in
      elim (Result-cases (replace_step run y.index z)) [
        | inr (e, q) ↦ absurd (ground (arith, f, q))
        | inl (u, q) ↦
            let is_after : move_compensation_cursor y.index u ≡ x = ground (arith, f, q) in
            let turned_u : has_turned u.status ≡ true = rw (replaced-status run y.index z u q) t in
            subst (λ r. has_turned r.status ≡ true) is_after (moved-status u y.index turned_u)
      ]
]

advanced_turned :
    (run : SagaRun) (r : Result SagaRun)
    → has_turned run.status ≡ true
    → ((x : SagaRun) → r ≡ ok x → has_turned x.status ≡ true)
    → has_turned (advance run r).run.status ≡ true
advanced_turned run (ok x) t f = f x refl
advanced_turned run (err e) t f = t

-- A saga run that has turned does not authorize a step.
refuses_authorize :
    (run : SagaRun) (graph h : ℕ) (grant : Result ℕ)
    → IsWellFormed run
    → has_turned run.status ≡ true
    → (e : Error) × (authorize_saga_step run graph h grant ≡ raises run e)
unfolding authorize_saga_step
refuses_authorize run graph h grant w t = elim (Bool-cases (graph != run.plan.causal_graph_hash)) [
  | inl b ↦ (saga_graph_mismatch_error, ground (arith, b))
  | inr b ↦ elim (Result-cases grant) [
    | inr (e, q) ↦ (e, ground (arith, b, q))
    | inl (g, q) ↦ elim (Result-cases (mark_step_authorized run h g)) [
      | inl (x, m) ↦ absurd (cannot_authorize run h g x w t m)
      | inr (e, m) ↦ (e, ground (arith, b, q, m))
    ]
  ]
]

refuses_commit :
    (run : SagaRun) (graph h : ℕ) (b : Bool) (committed : Result CommitResult)
    → IsWellFormed run
    → has_turned run.status ≡ true
    → (e : Error) × (commit_saga_step run graph h b committed ≡ raises run e)
unfolding commit_saga_step commit_guarded
refuses_commit run graph h b committed w t = elim (Result-cases (assert_committable run graph h)) [
  | inr (e, q) ↦ (e, ground (arith, q))
  | inl (u, q) ↦ elim (Result-cases (assert_can_commit_step run h)) [
    | inl (i, m) ↦ absurd (cannot_commit run h i w t m)
    | inr (e, m) ↦ absurd (unfold assert_committable in ground (arith, m))
  ]
]

verify_turned :
    (run : SagaRun) (h : ℕ) (matched : Result Bool)
    → IsWellFormed run
    → has_turned run.status ≡ true
    → has_turned (verify_saga_step run h matched).run.status ≡ true
unfolding verify_saga_step
verify_turned run h (err e) w t = t
verify_turned run h (ok false) w t = t
verify_turned run h (ok true) w t =
    advanced_turned run (mark_step_verified run h) t (λ x k. absurd (cannot_verify run h x w t k))

recover_turned :
    (run : SagaRun) (h : ℕ) (outcome : Result Bool) (digest : Option ℕ)
    → has_turned run.status ≡ true
    → has_turned (recover_saga_step run h outcome digest).run.status ≡ true
unfolding recover_saga_step
recover_turned run h outcome digest t = elim (Result-cases (assert_can_recover_step run h)) [
  | inr (e, q) ↦ rw q t
  | inl (i, q) ↦ absurd (cannot_recover run h i t q)
]

compensate_turned :
    (run : SagaRun) (h : ℕ) (s : CompensationStatus)
    → has_turned run.status ≡ true
    → has_turned (record_saga_compensation run h s).run.status ≡ true
unfolding record_saga_compensation
compensate_turned run h s t = elim (Result-cases (next_compensation_manifest_hash run)) [
  | inr (e, q) ↦ rw q t
  | inl (o, q) ↦ elim (Bool-cases (not (eq_option o (some h)))) [
    | inl b ↦ rw (q, b) t
    | inr b ↦
        rw (q, b)
          (advanced_turned run (mark_compensation_result run h s) t
            (λ x k. compensated-status run h s x t k))
  ]
]

call_turned :
    (run : SagaRun) (c : Call)
    → IsWellFormed run
    → has_turned run.status ≡ true
    → has_turned (call run c).run.status ≡ true
unfolding call
call_turned run (authorizes graph h g) w t = rw ((refuses_authorize run graph h g w t).1) t
call_turned run (commits graph h a o) w t = rw ((refuses_commit run graph h a o w t).1) t
call_turned run (verifies h m) w t = verify_turned run h m w t
call_turned run (recovers h o d) w t = recover_turned run h o d t
call_turned run (compensates h s) w t = compensate_turned run h s t

-- Once a well-formed run is compensating, partly failed or aborted, it stays so whatever operations
-- follow, and every later authorization or commit of a step raises and leaves the run as it is.
pub no_way_forward :
    (run : SagaRun) (cs : List Call) (graph h : ℕ) (grant : Result ℕ) (reports_ambiguous : Bool)
    (committed : Result CommitResult)
    → IsWellFormed run
    → has_turned run.status ≡ true
    → (has_turned (calls run cs).status ≡ true)
      × ((e : Error) × (authorize_saga_step (calls run cs) graph h grant ≡ raises (calls run cs) e))
      × ((e : Error) × (commit_saga_step (calls run cs) graph h reports_ambiguous committed
            ≡ raises (calls run cs) e))
unfolding calls
no_way_forward run [] graph h grant a o w t =
    (t, refuses_authorize run graph h grant w t, refuses_commit run graph h a o w t)
no_way_forward run (c ∷ cs) graph h grant a o w t =
    no_way_forward (call run c).run cs graph h grant a o (call-IsWellFormed run c w)
      (call_turned run c w t)
