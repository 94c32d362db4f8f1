-- ===== src/Lifecycle/History.antt =====
-- Whole lives of a lifecycle record: any sequence of attempted transitions, where a refused attempt
-- leaves the record as it was.
use chitragupta_protocol.Base.{
  same, ℕ, ◌+◌, ◌≤◌, ◌≡◌, refl, ◌⊎◌, Bool, true, false, ◌&&◌, List, [], ◌∷◌, ◌++◌, arith, length,
  length-append, any_of,
}
use chitragupta_protocol.Errors.{Result, ok, err}
use chitragupta_protocol.Lifecycle.{
  LifecycleState, proposed, prepared, sealed, authorized, committing, committed, verified, failed,
  recovered_committed, revoked, expired, compensating, compensated, LifecycleState-discrete,
  is_legal_transition, Entry, LifecycleRecord, fresh_record, transition,
}
use chitragupta_protocol.Lifecycle.Graph.{steps_left, steps_left_lt}

abbrev pub after : LifecycleRecord → Result LifecycleRecord → LifecycleRecord
after r (ok r') = r'
after r (err e) = r

unfoldable pub attempts : LifecycleRecord → List (LifecycleState × ℕ) → LifecycleRecord
attempts r [] = r
attempts r ((target, at) ∷ rest) = attempts (after r (transition r target at)) rest

-- The entries lead from one state to another by legal transitions only.
abbrev pub Chain : LifecycleState → List Entry → LifecycleState → Type 0
Chain s [] t = s ≡ t
Chain s (e ∷ es) t = (e.source ≡ s) × (is_legal_transition s e.target ≡ true) × Chain e.target es t

Chain-snoc :
    (s : LifecycleState) (es : List Entry) (e : Entry)
    → Chain s es e.source
    → is_legal_transition e.source e.target ≡ true
    → Chain s (es ++ e ∷ []) e.target
Chain-snoc s [] e c h = ground arith
Chain-snoc s (x ∷ es) e c h = (c.0, c.1, Chain-snoc x.target es e c.2 h)

-- What holds of every record: its history explains its state, and is short.
pub record IsLived (r : LifecycleRecord) : Type 0 where
  pub explained : Chain proposed r.history r.state
  pub bounded : length r.history + steps_left r.state ≤ 9

transition-IsLived :
    (r : LifecycleRecord) (target : LifecycleState) (at : ℕ)
    → IsLived r
    → IsLived (after r (transition r target at))
unfolding transition
transition-IsLived r target at v = ground (
  arith,
  Chain-snoc proposed r.history (record { source = r.state; target = target; at = at }) v.explained,
  length-append r.history (record { source = r.state; target = target; at = at } ∷ []),
  steps_left_lt r.state target,
)

attempts-IsLived :
    (r : LifecycleRecord) (ts : List (LifecycleState × ℕ)) → IsLived r → IsLived (attempts r ts)
unfolding attempts
attempts-IsLived r [] v = v
attempts-IsLived r ((target, at) ∷ rest) v =
    attempts-IsLived (after r (transition r target at)) rest (transition-IsLived r target at v)

-- Whatever transitions are attempted on a new record, its history is a chain of legal transitions
-- from `proposed` to its state, and holds at most nine of them.
pub history_explains :
    (manifest_id : ℕ) (ts : List (LifecycleState × ℕ))
    → let r = attempts (fresh_record manifest_id proposed) ts in
      Chain proposed r.history r.state × (length r.history ≤ 9)
unfolding fresh_record
history_explains manifest_id ts =
    let v : IsLived (attempts (fresh_record manifest_id proposed) ts) =
      attempts-IsLived (fresh_record manifest_id proposed) ts
        (record { explained = refl; bounded = omega arith }) in
    (v.explained, omega arith)

-- Before the commit point, and past it.
abbrev early : LifecycleState → Bool
early proposed = true
early prepared = true
early sealed = true
early authorized = true
early _ = false

abbrev pub effected : LifecycleState → Bool
effected committing = true
effected committed = true
effected verified = true
effected compensating = true
effected compensated = true
effected _ = false

abbrev dead : LifecycleState → Bool
dead failed = true
dead recovered_committed = true
dead revoked = true
dead expired = true
dead _ = false

pub is_step : LifecycleState → LifecycleState → Entry → Bool
unfolding LifecycleState-discrete
is_step s t e = same LifecycleState-discrete e.source s && same LifecycleState-discrete e.target t

is_step_self :
    (s t : LifecycleState) (e : Entry) → e.source ≡ s → e.target ≡ t → is_step s t e ≡ true
unfolding is_step
is_step_self s t e p q = ground arith

legal_from_early :
    (s t : LifecycleState)
    → is_legal_transition s t ≡ true
    → early s ≡ true
    → (early t ≡ true) ⊎ ((s ≡ authorized) × (t ≡ committing)) ⊎ (dead t ≡ true)
unfolding is_legal_transition
legal_from_early s t h e = ground arith

legal_from_dead :
    (s t : LifecycleState) → is_legal_transition s t ≡ true → dead s ≡ true → dead t ≡ true
unfolding is_legal_transition
legal_from_dead s t h e = ground arith

dead-effected : (s : LifecycleState) → dead s ≡ true → effected s ≡ false
dead-effected s h = ground arith

early-effected : (s : LifecycleState) → early s ≡ true → effected s ≡ false
early-effected s h = ground arith

Chain-dead :
    (s t : LifecycleState) (es : List Entry) → Chain s es t → dead s ≡ true → effected t ≡ false
Chain-dead s t [] c h = ground (arith, dead-effected s h)
Chain-dead s t (e ∷ es) c h = Chain-dead e.target t es c.2 (legal_from_dead s e.target c.1 h)

-- A chain from before the commit point to past it has taken the one step between.
Chain-effected :
    (s t : LifecycleState) (es : List Entry)
    → Chain s es t
    → early s ≡ true
    → effected t ≡ true
    → any_of (is_step authorized committing) es ≡ true
Chain-effected s t [] c h k = ground (arith, early-effected s h)
Chain-effected s t (e ∷ es) c h k = ground (
  arith,
  legal_from_early s e.target c.1 h,
  Chain-effected e.target t es c.2,
  is_step_self authorized committing e,
  Chain-dead e.target t es c.2,
)

-- Whatever transitions are attempted on a new record: if it is now committing, committed, verified
-- or being compensated, its history holds the transition from `authorized` to `committing`.
pub effect_was_authorized :
    (manifest_id : ℕ) (ts : List (LifecycleState × ℕ))
    → effected (attempts (fresh_record manifest_id proposed) ts).state ≡ true
    → any_of
        (is_step authorized committing)
        (attempts (fresh_record manifest_id proposed) ts).history
      ≡ true
effect_was_authorized manifest_id ts =
    Chain-effected proposed (attempts (fresh_record manifest_id proposed) ts).state
      (attempts (fresh_record manifest_id proposed) ts).history (history_explains manifest_id ts).0
      refl
