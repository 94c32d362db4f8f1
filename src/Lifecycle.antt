-- ===== src/Lifecycle.antt =====
-- state_machine/states.py and state_machine/record.py: the lifecycle graph of an effect, its tests,
-- and the record of one manifest's lifecycle.
pub mod Graph
pub mod History
pub mod Store
use chitragupta_protocol.Base.{ℕ, Bool, List, [], ◌∷◌, ◌++◌, member, not}
use chitragupta_protocol.Errors.{illegal_transition_error, Result, ok, raise_if, ◌>>=◌, ◌>>◌}

pub data LifecycleState : Type 0 where
  proposed prepared sealed authorized committing committed verified failed : LifecycleState
  recovered_committed revoked expired compensating compensated : LifecycleState

unfoldable pub LifecycleState-discrete : Discrete LifecycleState
LifecycleState-discrete = hlevel

-- `TRANSITIONS`: each state's frozenset of targets, in the order of the source.
unfoldable pub transitions : LifecycleState → List LifecycleState
transitions proposed = prepared ∷ failed ∷ revoked ∷ []
transitions prepared = sealed ∷ failed ∷ revoked ∷ expired ∷ []
transitions sealed = authorized ∷ failed ∷ revoked ∷ expired ∷ []
transitions authorized = committing ∷ failed ∷ revoked ∷ expired ∷ []
transitions committing = committed ∷ failed ∷ []
transitions committed = verified ∷ []
transitions verified = compensating ∷ compensated ∷ []
transitions compensating = compensated ∷ failed ∷ []
transitions failed = recovered_committed ∷ []
transitions recovered_committed = []
transitions revoked = []
transitions expired = []
transitions compensated = []

abbrev pub revocable_states : List LifecycleState
revocable_states = proposed ∷ prepared ∷ sealed ∷ authorized ∷ []

abbrev pub terminal_states : List LifecycleState
terminal_states = recovered_committed ∷ revoked ∷ expired ∷ compensated ∷ []

unfoldable pub is_legal_transition : LifecycleState → LifecycleState → Bool
unfolding transitions LifecycleState-discrete
is_legal_transition current target = member LifecycleState-discrete target (transitions current)

unfoldable pub assert_legal_transition : LifecycleState → LifecycleState → Result (Unit {0})
assert_legal_transition current target =
    raise_if (not (is_legal_transition current target)) illegal_transition_error

unfoldable pub is_revocable : LifecycleState → Bool
unfolding LifecycleState-discrete
is_revocable current = member LifecycleState-discrete current revocable_states

unfoldable pub is_terminal : LifecycleState → Bool
unfolding LifecycleState-discrete
is_terminal current = member LifecycleState-discrete current terminal_states

-- One entry of a record's history: from, to, when.
pub record Entry : Type 0 where
  pub source : LifecycleState
  pub target : LifecycleState
  pub at : ℕ

pub record LifecycleRecord : Type 0 where
  pub manifest_id : ℕ
  pub state : LifecycleState
  pub history : List Entry

-- A record as its constructor makes it, at a given state.
unfoldable pub fresh_record : ℕ → LifecycleState → LifecycleRecord
fresh_record manifest_id state = record { manifest_id = manifest_id; state = state; history = [] }

-- `LifecycleRecord.transition`
unfoldable pub transition : LifecycleRecord → LifecycleState → ℕ → Result LifecycleRecord
unfolding assert_legal_transition
transition r target at = do
  assert_legal_transition r.state target
  ok (record r {
    state = target;
    history = r.history ++ record { source = r.state; target = target; at = at } ∷ [];
  })
