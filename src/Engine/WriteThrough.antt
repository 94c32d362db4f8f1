-- ===== src/Engine/WriteThrough.antt =====
-- engine/core.py (`_transition`): memory and the lifecycle store move together or not at all.
use chitragupta_protocol.Base.{
  ℕ, ◌≡◌, ◌⊎◌, true, false, none, some, arith, Option-cases, Bool-cases, inl, inr,
}
use chitragupta_protocol.Base.Dict.{get, get-put_self}
use chitragupta_protocol.Errors.{Error, ok, err, Result-cases}
use chitragupta_protocol.Lifecycle.{
  LifecycleState, proposed, LifecycleRecord, transition, is_legal_transition,
  assert_legal_transition,
}
use chitragupta_protocol.Lifecycle.Store.{
  LifecycleStore, compare_and_set, eq_state, eq_state-true, eq_state_refl,
}
use chitragupta_protocol.Engine.{
  Engine, stored, get_record, insert_or_set, persist, persist_lifecycle, write_through,
  transition_to,
}

-- A refused write leaves the store as it was.
persist_refused :
    (m : ℕ) (source target : LifecycleState) (s : LifecycleStore)
    → (persist m source target s).0 ≡ false
    → (persist m source target s).1 ≡ s
unfolding persist insert_or_set compare_and_set
persist_refused m source target s h = ground arith

-- A write that goes through is read back, and what it replaced was the expected state, or nothing.
persist_written :
    (m : ℕ) (source target : LifecycleState) (s : LifecycleStore)
    → (persist m source target s).0 ≡ true
    → (get m (persist m source target s).1 ≡ some target)
      × ((get m s ≡ some source) ⊎ ((get m s ≡ none) × (source ≡ proposed)))
unfolding persist insert_or_set compare_and_set
persist_written m source target s h = elim (Option-cases (get m s)) [
  | inl e ↦ elim (Bool-cases (eq_state (some source) (some proposed))) [
    | inl b ↦ (
      ground (arith, e, b, eq_state_refl none, get-put_self m target s),
      inr (e, ground (arith, eq_state-true (some source) (some proposed) b)),
    )
    | inr b ↦ absurd (ground (arith, e, b, eq_state-true (get m s) (some source)))
  ]
  | inr (a, e) ↦
      let is_source : get m s ≡ some source =
        ground (arith, e, eq_state-true (get m s) (some source)) in
      (ground (arith, e, get-put_self m target s), inl is_source)
]

pub legal_move :
    (r moved : LifecycleRecord) (target : LifecycleState) (now : ℕ)
    → transition r target now ≡ ok moved
    → (is_legal_transition r.state target ≡ true) × (moved.state ≡ target)
unfolding transition assert_legal_transition
legal_move r moved target now h = ground arith

-- When a transition over a lifecycle store returns, it was legal, the record and the store hold its
-- target, and the store held the state that the record was in, or no row for a proposed record.
pub transition_is_stored :
    (m now event : ℕ) (target : LifecycleState) (e : Engine) (s : LifecycleStore)
    (moved : LifecycleRecord)
    → e.lifecycle_store ≡ some s
    → (transition_to m target event now e).0 ≡ ok moved
    → (is_legal_transition (get_record m e).state target ≡ true)
      × (moved.state ≡ target)
      × (get m (transition_to m target event now e).1.records ≡ some moved)
      × (stored (transition_to m target event now e).1.lifecycle_store m ≡ some target)
      × ((get m s ≡ some (get_record m e).state)
          ⊎ ((get m s ≡ none) × ((get_record m e).state ≡ proposed)))
unfolding transition_to write_through persist_lifecycle
transition_is_stored m now event target e s moved h k =
    let r : LifecycleRecord = get_record m e in
    elim (Result-cases (transition r target now)) [
      | inr (x, q) ↦ absurd (ground (arith, q))
      | inl (after, q) ↦
          let (legal, moves) = legal_move r after target now q in
          elim (Bool-cases (persist m r.state target s).0) [
            | inr b ↦ absurd (ground (arith, q, h, b))
            | inl b ↦
                let (read, before) = persist_written m r.state target s b in
                let same : after ≡ moved = ground (arith, q, h, b) in
                (
                  legal,
                  ground (arith, same, moves),
                  ground (arith, q, h, b, same, get-put_self m after e.records),
                  ground (arith, q, h, b, read),
                  before,
                )
          ]
    ]

-- When a transition raises, the record is as it was before and so is the store: memory is never ahead
-- of a durable write that failed.
pub failed_transition_rolls_back :
    (m now event : ℕ) (target : LifecycleState) (e : Engine) (x : Error)
    → (transition_to m target event now e).0 ≡ err x
    → (get m (transition_to m target event now e).1.records ≡ some (get_record m e))
      × ((transition_to m target event now e).1.lifecycle_store ≡ e.lifecycle_store)
unfolding transition_to write_through persist_lifecycle
failed_transition_rolls_back m now event target e x k =
    let r : LifecycleRecord = get_record m e in
    elim (Result-cases (transition r target now)) [
      | inr (y, q) ↦ (ground (arith, q, get-put_self m r e.records), ground (arith, q))
      | inl (after, q) ↦ elim (Option-cases e.lifecycle_store) [
        | inl h ↦ absurd (ground (arith, q, h))
        | inr (s, h) ↦ elim (Bool-cases (persist m r.state target s).0) [
          | inl b ↦ absurd (ground (arith, q, h, b))
          | inr b ↦ (
            ground (arith, q, h, b, get-put_self m r e.records),
            ground (arith, q, h, b, persist_refused m r.state target s b),
          )
        ]
      ]
    ]

-- The record that a transition returns is the one that the engine then holds, in its target.
pub moved_record :
    (m now event : ℕ) (target : LifecycleState) (e : Engine) (moved : LifecycleRecord)
    → (transition_to m target event now e).0 ≡ ok moved
    → (get m (transition_to m target event now e).1.records ≡ some moved) × (moved.state ≡ target)
unfolding transition_to write_through
moved_record m now event target e moved k =
    let r : LifecycleRecord = get_record m e in
    elim (Result-cases (transition r target now)) [
      | inr (x, q) ↦ absurd (ground (arith, q))
      | inl (after, q) ↦
          let (legal, moves) = legal_move r after target now q in
          elim (Result-cases (persist_lifecycle m r.state target e.lifecycle_store).0) [
            | inr (x, b) ↦ absurd (ground (arith, q, b))
            | inl (u, b) ↦
                let same : after ≡ moved = ground (arith, q, b) in
                (
                  ground (arith, q, b, same, get-put_self m after e.records),
                  ground (arith, same, moves),
                )
          ]
    ]
