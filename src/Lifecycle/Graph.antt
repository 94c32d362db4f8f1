-- ===== src/Lifecycle/Graph.antt =====
-- What the transition table of the lifecycle says: its exits, its order, and its gates.
use chitragupta_protocol.Base.{ℕ, ◌<◌, ◌≡◌, ◌↔◌, true, [], Option, none, some, arith}
use chitragupta_protocol.Lifecycle.{
  LifecycleState, proposed, prepared, sealed, authorized, committing, committed, verified, failed,
  recovered_committed, revoked, compensating, transitions, is_legal_transition, is_revocable,
  is_terminal,
}

-- The listed terminal states are exactly the states that the table gives no exit.
pub is_terminal_iff : (s : LifecycleState) → (is_terminal s ≡ true) ↔ (transitions s ≡ [])
unfolding is_terminal is_legal_transition
is_terminal_iff s = ground arith

-- A state is revocable exactly if the table has a transition from it to `revoked`.
pub is_revocable_iff : (s : LifecycleState) → is_revocable s ≡ is_legal_transition s revoked
unfolding is_revocable is_legal_transition
is_revocable_iff s = ground arith

-- The number of transitions that are still possible from a state, at most.
abbrev pub steps_left : LifecycleState → ℕ
steps_left proposed = 9
steps_left prepared = 8
steps_left sealed = 7
steps_left authorized = 6
steps_left committing = 5
steps_left committed = 4
steps_left verified = 3
steps_left compensating = 2
steps_left failed = 1
steps_left _ = 0

-- Every legal transition uses up at least one of the steps that are left: there is no cycle.
pub steps_left_lt :
    (s t : LifecycleState) → is_legal_transition s t ≡ true → steps_left t < steps_left s
unfolding is_legal_transition
steps_left_lt s t h = ground arith

-- The one state that a state must be entered from, for those that an effect must earn.
abbrev pub sole_origin : LifecycleState → Option LifecycleState
sole_origin authorized = some sealed
sole_origin committing = some authorized
sole_origin committed = some committing
sole_origin verified = some committed
sole_origin recovered_committed = some failed
sole_origin _ = none

-- The states that an effect must earn are entered from one state each: `authorized` from `sealed`,
-- `committing` from `authorized`, `committed` from `committing`, `verified` from `committed` and
-- `recovered_committed` from `failed`.
pub gate :
    (s t o : LifecycleState) → is_legal_transition s t ≡ true → sole_origin t ≡ some o → s ≡ o
unfolding is_legal_transition
gate s t o h e = ground arith
