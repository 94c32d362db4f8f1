-- ===== src/Saga/Forward.antt =====
-- saga/machine.py: the forward transitions keep the shape of a run.
use chitragupta_protocol.Base.{
  ℕ, ◌+◌, ◌≡◌, refl, sym, ap, ◌∙◌, subst, true, false, Option, some, List, ◌∷◌, ◌++◌, arith, length,
  length-append, get_elem?, inl, inr,
}
use mathlib.Core.List.{append_assoc}
use chitragupta_protocol.Errors.{ok, Result-cases}
use chitragupta_protocol.Saga.{
  SagaRunStatus, running, awaiting_recovery, SagaStepStatus, authorized, committed, ambiguous,
  SagaStepRecord, SagaRun,
}
use chitragupta_protocol.Saga.Machine.{
  is_step_authorized, refuses_commits, assert_can_commit_step, mark_step_authorized,
  mark_step_committed, mark_step_ambiguous,
}
use chitragupta_protocol.Saga.Shape.{
  is_verified, is_pending, every, is_current, Phase, forward, finished, reversing, IsOrdered,
  IsWellFormed,
}
use chitragupta_protocol.Saga.Split.{
  IsIndexed, hashes_of, get_at, replace_at, index_at, set-IsIndexed, hashes_of-set,
}

-- A run with one step written anew, by a record of the same index and hash.
pub rewritten_order :
    (run : SagaRun) (xs : List SagaStepRecord) (y z : SagaStepRecord) (zs : List SagaStepRecord)
    (run' : SagaRun)
    → IsOrdered run
    → run.steps ≡ xs ++ y ∷ zs
    → run'.steps ≡ xs ++ z ∷ zs
    → run'.plan ≡ run.plan
    → z.index ≡ y.index
    → z.manifest_hash ≡ y.manifest_hash
    → IsOrdered run'
rewritten_order run xs y z zs run' w e e' p i h = record {
  indexed = rw e' (set-IsIndexed 0 xs y z zs i (subst (IsIndexed 0) e w.indexed));
  of_plan =
      ap hashes_of e'
      ∙ hashes_of-set xs y z zs h
      ∙ sym (ap hashes_of e)
      ∙ w.of_plan
      ∙ sym (ap (λ q. q.step_manifest_hashes) p);
  distinct = rw p w.distinct;
}

pub rewritten :
    (run : SagaRun) (xs : List SagaStepRecord) (y z : SagaStepRecord) (zs : List SagaStepRecord)
    (run' : SagaRun)
    → IsWellFormed run
    → run.steps ≡ xs ++ y ∷ zs
    → run'.steps ≡ xs ++ z ∷ zs
    → run'.plan ≡ run.plan
    → z.index ≡ y.index
    → z.manifest_hash ≡ y.manifest_hash
    → Phase run'
    → IsWellFormed run'
rewritten run xs y z zs run' w e e' p i h phase = record {
  phase = phase;
  ordered = rewritten_order run xs y z zs run' w.ordered e e' p i h;
}

pub at_cursor :
    (run : SagaRun) (xs : List SagaStepRecord) (y : SagaStepRecord) (zs : List SagaStepRecord)
    → run.steps ≡ xs ++ y ∷ zs
    → run.cursor ≡ length xs
    → get_elem? run.steps run.cursor ≡ some y
at_cursor run xs y zs e c = rw (e, c) (get_at xs y zs)

pub index_of :
    (run : SagaRun) (xs : List SagaStepRecord) (y : SagaStepRecord) (zs : List SagaStepRecord)
    → IsWellFormed run
    → run.steps ≡ xs ++ y ∷ zs
    → y.index ≡ length xs
index_of run xs y zs w e =
    omega (arith, index_at 0 xs y zs (subst (IsIndexed 0) e w.ordered.indexed))

-- The failed step of a run that is reversing stands at the cursor.
pub failed_at :
    (run : SagaRun) (kept undone : List SagaStepRecord) (y : SagaStepRecord)
    (after : List SagaStepRecord)
    → run.steps ≡ kept ++ (undone ++ y ∷ after)
    → run.cursor ≡ length kept + length undone
    → get_elem? run.steps run.cursor ≡ some y
failed_at run kept undone y after e c =
    at_cursor run (kept ++ undone) y after (e ∙ sym (append_assoc kept undone (y ∷ after)))
      (c ∙ sym (length-append kept undone))

pub authorized-IsWellFormed :
    (run : SagaRun) (h g : ℕ) (run' : SagaRun)
    → IsWellFormed run
    → mark_step_authorized run h g ≡ ok run'
    → IsWellFormed run'
unfolding mark_step_authorized
authorized-IsWellFormed run h g run' w k = elim w.phase [
  | forward xs y zs e c v p s ↦
      let z : SagaStepRecord = record y { status = authorized; grant_id = some g } in
      let is_after : record run { steps = xs ++ z ∷ zs; status = running } ≡ run' =
        ground (
          arith,
          at_cursor run xs y zs e c,
          replace_at run xs y z zs e,
          index_of run xs y zs w e,
        ) in
      subst IsWellFormed is_after (
        rewritten run xs y z zs (record run { steps = xs ++ z ∷ zs; status = running }) w e refl
          refl refl refl (forward xs z zs refl c v p refl))
  | finished s c v ↦ absurd (ground arith)
  | reversing kept undone y zs e c v u s p r ↦
      absurd (ground (arith, failed_at run kept undone y zs e c))
]

-- A step is to be committed: it is authorized and at the cursor of a running saga, every step before
-- it is verified and every step after it untouched.
pub data Committable (run : SagaRun) (h i : ℕ) : Type 0 where
  committable :
      (before : List SagaStepRecord) (current : SagaStepRecord) (after : List SagaStepRecord)
      → run.steps ≡ before ++ current ∷ after
      → run.cursor ≡ length before
      → every is_verified before ≡ true
      → every is_pending after ≡ true
      → run.status ≡ running
      → current.status ≡ authorized
      → current.manifest_hash ≡ h
      → i ≡ length before
      → Committable run h i

current_is_authorized :
    (r : SagaRunStatus) (s : SagaStepStatus)
    → refuses_commits r ≡ false
    → is_step_authorized s ≡ true
    → is_current r s ≡ true
    → (r ≡ running) × (s ≡ authorized)
current_is_authorized r s a b c = ground arith

-- A step is let through to its commit only when it is the step at the cursor, authorized, with every
-- step before it verified and no step after it begun.
pub commits_in_order :
    (run : SagaRun) (h i : ℕ)
    → IsWellFormed run
    → assert_can_commit_step run h ≡ ok i
    → Committable run h i
unfolding assert_can_commit_step
commits_in_order run h i w k = elim w.phase [
  | forward xs y zs e c v p s ↦
      let current : get_elem? run.steps run.cursor ≡ some y = at_cursor run xs y zs e c in
      let both : (run.status ≡ running) × (y.status ≡ authorized) =
        current_is_authorized run.status y.status (ground (arith, current))
          (ground (arith, current)) s in
      committable xs y zs e c v p both.0 both.1 (ground (arith, current)) (ground (arith, current))
  | finished s c v ↦ absurd (ground arith)
  | reversing kept undone y zs e c v u s p r ↦
      absurd (ground (arith, failed_at run kept undone y zs e c))
]

pub committed-IsWellFormed :
    (run : SagaRun) (h : ℕ) (reference : Option ℕ) (run' : SagaRun)
    → IsWellFormed run
    → mark_step_committed run h true reference ≡ ok run'
    → IsWellFormed run'
unfolding mark_step_committed
committed-IsWellFormed run h reference run' w k =
    elim (Result-cases (assert_can_commit_step run h)) [
      | inr (x, q) ↦ absurd (ground arith)
      | inl (i, q) ↦ elim (commits_in_order run h i w q) [
        | committable xs y zs e c v p r s m j ↦
            let z : SagaStepRecord = record y {
              status = committed;
              commit_success = some true;
              provider_reference = reference;
            } in
            let new : SagaRun = record run { steps = xs ++ z ∷ zs; status = running } in
            let is_after : new ≡ run' =
              ground (arith, at_cursor run xs y zs e c, replace_at run xs y z zs e) in
            subst IsWellFormed is_after (
              rewritten run xs y z zs new w e refl refl refl refl (forward xs z zs refl c v p refl))
      ]
    ]

pub ambiguous-IsWellFormed :
    (run : SagaRun) (h : ℕ) (run' : SagaRun)
    → IsWellFormed run
    → mark_step_ambiguous run h ≡ ok run'
    → IsWellFormed run'
unfolding mark_step_ambiguous
ambiguous-IsWellFormed run h run' w k = elim (Result-cases (assert_can_commit_step run h)) [
  | inr (x, q) ↦ absurd (ground arith)
  | inl (i, q) ↦ elim (commits_in_order run h i w q) [
    | committable xs y zs e c v p r s m j ↦
        let z : SagaStepRecord = record y { status = ambiguous; is_ambiguous = true } in
        let new : SagaRun = record run { steps = xs ++ z ∷ zs; status = awaiting_recovery } in
        let is_after : new ≡ run' =
          ground (arith, at_cursor run xs y zs e c, replace_at run xs y z zs e) in
        subst IsWellFormed is_after
          (rewritten run xs y z zs new w e refl refl refl refl (forward xs z zs refl c v p refl))
  ]
]
