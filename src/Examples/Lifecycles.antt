-- ===== src/Examples/Lifecycles.antt =====
-- lifecycle/ and stores/lifecycle_memory.py: the theorems on a lifecycle of three transitions.
use chitragupta_protocol.Base.{ℕ, ◌≡◌, ◌≤◌, refl, true, List, [], ◌∷◌, any_of, length}
use chitragupta_protocol.Lifecycle.{
  LifecycleState, proposed, prepared, sealed, authorized, committing, committed, LifecycleRecord,
  fresh_record, transition, is_legal_transition, assert_legal_transition,
}
use chitragupta_protocol.Lifecycle.History.{
  attempts, effected, effect_was_authorized, history_explains, is_step, Chain,
}

abbrev attempted : List (LifecycleState × ℕ)
attempted = (prepared, 1) ∷ (committed, 2) ∷ (sealed, 3) ∷ (authorized, 4) ∷ (committing, 5) ∷ []

abbrev lived : LifecycleRecord
lived = attempts (fresh_record 7 proposed) attempted

lived_committing : effected lived.state ≡ true
unfolding attempts fresh_record transition is_legal_transition assert_legal_transition
lived_committing = refl

effect_was_authorized_example : any_of (is_step authorized committing) lived.history ≡ true
effect_was_authorized_example = effect_was_authorized 7 attempted lived_committing

history_explains_example : Chain proposed lived.history lived.state × (length lived.history ≤ 9)
history_explains_example = history_explains 7 attempted

legal : is_legal_transition authorized committing ≡ true
unfolding is_legal_transition
legal = refl
