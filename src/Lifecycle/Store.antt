-- ===== src/Lifecycle/Store.antt =====
-- stores/lifecycle_memory.py: the process-local lifecycle store. `stores/lifecycle.py` is its
-- protocol. Each method holds the lock, so a call is one step.
use chitragupta_protocol.Base.{
  same, ℕ, ◌≡◌, refl, ◌≢◌, Bool, true, false, Option, none, some, arith, if◌then◌else◌,
}
use chitragupta_protocol.Base.Dict.{Dict, get, put, get-put}
use chitragupta_protocol.Lifecycle.{LifecycleState, LifecycleState-discrete}

abbrev pub LifecycleStore : Type 0
LifecycleStore = Dict LifecycleState

-- `current == expected`, where either may be None.
unfoldable pub eq_state : Option LifecycleState → Option LifecycleState → Bool
unfolding LifecycleState-discrete
eq_state none none = true
eq_state none (some b) = false
eq_state (some a) none = false
eq_state (some a) (some b) = same LifecycleState-discrete a b

unfoldable pub compare_and_set :
    ℕ → Option LifecycleState → LifecycleState → LifecycleStore → Bool × LifecycleStore
compare_and_set manifest_id expected new_state states =
    if eq_state (get manifest_id states) expected
    then (true, put manifest_id new_state states)
    else (false, states)

pub eq_state-true : (a b : Option LifecycleState) → eq_state a b ≡ true → a ≡ b
unfolding eq_state
eq_state-true none none h = refl
eq_state-true none (some b) h = cc
eq_state-true (some a) none h = cc
eq_state-true (some a) (some b) h = ground arith

pub eq_state_refl : (a : Option LifecycleState) → eq_state a a ≡ true
unfolding eq_state
eq_state_refl none = refl
eq_state_refl (some a) = ground arith

-- A compare-and-set writes exactly if the stored value is the expected one; then the new state is
-- read back and no other manifest changes, and otherwise the store is as it was.
pub compare_and_set_lem :
    (m j : ℕ) (expected : Option LifecycleState) (new : LifecycleState) (s : LifecycleStore)
    → let (done, s') = compare_and_set m expected new s in
      (done ≡ true → (get m s ≡ expected) × (get m s' ≡ some new))
      × (done ≡ false → (get m s ≢ expected) × (s' ≡ s))
      × (j ≢ m → get j s' ≡ get j s)
unfolding compare_and_set
compare_and_set_lem m j expected new s = ground (
  arith,
  eq_state-true (get m s) expected,
  eq_state_refl expected,
  get-put j m new s,
  get-put m m new s,
)

-- Two writers that expect the same state and move it to another: of the two calls, in the order in
-- which the lock admits them, only the first succeeds.
pub compare_and_set_once :
    (m : ℕ) (expected : Option LifecycleState) (new other : LifecycleState) (s : LifecycleStore)
    → expected ≢ some new
    → (compare_and_set m expected new s).0 ≡ true
    → (compare_and_set m expected other (compare_and_set m expected new s).1).0 ≡ false
unfolding compare_and_set
compare_and_set_once m expected new other s ne done =
    ground (arith, eq_state-true (get m (put m new s)) expected, get-put m m new s)
