-- ===== src/Saga/Safety.antt =====
-- engine/core.py: what holds of a saga run whatever operations the engine performs on it.
use chitragupta_protocol.Base.{
  ℕ, ◌≡◌, refl, subst, Bool, true, false, Option, some, List, [], ◌∷◌, ◌++◌, arith, length,
  Option-cases, Bool-cases, inl, inr, if◌then◌else◌, if◌then◌else◌,
}
use chitragupta_protocol.Errors.{Result, ok, Result-cases}
use chitragupta_protocol.Saga.{
  SagaRunStatus, running, authorized, SagaStepRecord, SagaRun, SagaPlan, is_unique,
}
use chitragupta_protocol.Saga.Machine.{
  find_step, is_step_ambiguous, is_awaiting, assert_can_recover_step, mark_step_failed,
  mark_step_committed,
}
use chitragupta_protocol.Saga.Session.{
  begin_saga, reopen, recover_saga_step, Call, authorizes, commits, verifies, recovers, compensates,
  call, calls,
}
use chitragupta_protocol.Saga.Shape.{
  forward, finished, reversing, IsReversing, IsWellFormed, clear-verified, clear-pending,
}
use chitragupta_protocol.Saga.Split.{hashes_of, find_current, reopen_at}
use chitragupta_protocol.Saga.Forward.{rewritten, committed-IsWellFormed}
use chitragupta_protocol.Saga.Reverse.{failed-IsWellFormed}
use chitragupta_protocol.Saga.Runs.{
  begin-IsWellFormed, advanced, authorize-IsWellFormed, commit-IsWellFormed, verify-IsWellFormed,
  compensate-IsWellFormed,
}

find-hash :
    (ss : List SagaStepRecord) (h : ℕ) (s : SagaStepRecord)
    → find_step ss h ≡ some s
    → s.manifest_hash ≡ h
find-hash [] h s f = absurd (ground arith)
find-hash (x ∷ ss) h s f = ground (arith, find-hash ss h s)

-- A run that awaits recovery has its ambiguous step at the cursor.
awaiting : (r : SagaRunStatus) (n : ℕ) (c : Option ℕ) → is_awaiting r ≡ true → IsReversing r c n → ⊥
awaiting r n c h x = ground (arith, x)

recovered :
    (run : SagaRun) (h i : ℕ) (matched : Bool) (digest : Option ℕ) (x : SagaRun)
    → IsWellFormed run
    → assert_can_recover_step run h ≡ ok i
    → (if matched
        then mark_step_committed
            (record run { status = running; steps = reopen h run.steps })
            h
            true
            digest
        else mark_step_failed run h)
      ≡ ok x
    → IsWellFormed x
unfolding assert_can_recover_step
recovered run h i matched digest x w q k = elim (Option-cases (find_step run.steps h)) [
  | inl f ↦ absurd (ground arith)
  | inr (s, f) ↦
      let on : is_awaiting run.status ≡ true = ground arith in
      let doubtful : is_step_ambiguous s.status ≡ true = ground arith in
      elim w.phase [
        | finished t c v ↦ absurd (ground arith)
        | reversing kept undone y after e c v u t p r ↦
            absurd (awaiting run.status (length kept) run.compensation_cursor on r)
        | forward xs y zs e c v p t ↦
            let is_it : s ≡ y =
              find_current is_step_ambiguous xs y zs h s
                (clear-verified is_step_ambiguous xs refl v)
                (clear-pending is_step_ambiguous zs refl p) doubtful (rw (← e) f) in
            let hash : y.manifest_hash ≡ h = rw (← is_it) (find-hash run.steps h s f) in
            elim (Bool-cases matched) [
              | inr b ↦ failed-IsWellFormed run h x xs y zs w e c v p hash (ground (arith, b))
              | inl b ↦
                  let z : SagaStepRecord = record y { status = authorized; is_ambiguous = false } in
                  let unique : is_unique (hashes_of (xs ++ y ∷ zs)) ≡ true =
                    subst (λ l. is_unique (hashes_of l) ≡ true) e
                      (rw w.ordered.of_plan w.ordered.distinct) in
                  let reopened : reopen h run.steps ≡ xs ++ z ∷ zs =
                    rw (e, ← hash) (reopen_at xs y zs unique) in
                  let open_run : SagaRun = record run {
                    status = running;
                    steps = reopen h run.steps;
                  } in
                  committed-IsWellFormed open_run h digest x
                    (rewritten run xs y z zs open_run w e reopened refl refl refl
                      (forward xs z zs reopened c v p refl))
                    (ground (arith, b))
            ]
      ]
]

recover-IsWellFormed :
    (run : SagaRun) (h : ℕ) (outcome : Result Bool) (digest : Option ℕ)
    → IsWellFormed run
    → IsWellFormed (recover_saga_step run h outcome digest).run
unfolding recover_saga_step
recover-IsWellFormed run h outcome digest w = elim (Result-cases (assert_can_recover_step run h)) [
  | inr (e, q) ↦ rw q w
  | inl (i, q) ↦ elim (Result-cases outcome) [
    | inr (e, m) ↦ rw (q, m) w
    | inl (matched, m) ↦
        rw (q, m)
          (advanced run
            (if matched
              then mark_step_committed (record run { status = running; steps = reopen h run.steps })
                  h true digest
              else mark_step_failed run h)
            w (λ x k. recovered run h i matched digest x w q k))
  ]
]

pub call-IsWellFormed :
    (run : SagaRun) (c : Call) → IsWellFormed run → IsWellFormed (call run c).run
unfolding call
call-IsWellFormed run (authorizes graph h g) w = authorize-IsWellFormed run graph h g w
call-IsWellFormed run (commits graph h a o) w = commit-IsWellFormed run graph h a o w
call-IsWellFormed run (verifies h m) w = verify-IsWellFormed run h m w
call-IsWellFormed run (recovers h o d) w = recover-IsWellFormed run h o d w
call-IsWellFormed run (compensates h s) w = compensate-IsWellFormed run h s w

pub calls-IsWellFormed :
    (run : SagaRun) (cs : List Call) → IsWellFormed run → IsWellFormed (calls run cs)
unfolding calls
calls-IsWellFormed run [] w = w
calls-IsWellFormed run (c ∷ cs) w =
    calls-IsWellFormed (call run c).run cs (call-IsWellFormed run c w)

-- A run that the engine began is well formed whatever saga operations followed, on every outcome of
-- the calls that they make: the steps are the plan's; while it goes forward every step before the
-- cursor is verified and every one after it untouched; once a step has failed, a compensation,
-- carried out, refused or failed, is recorded for the last of the steps before it, the first of them are
-- verified, and the compensation cursor is at the last of these.
pub saga_is_well_formed :
    (plan : SagaPlan) (graph id : ℕ) (run : SagaRun) (cs : List Call)
    → begin_saga plan graph id ≡ ok run
    → IsWellFormed (calls run cs)
saga_is_well_formed plan graph id run cs k =
    calls-IsWellFormed run cs (begin-IsWellFormed plan graph id run k)
