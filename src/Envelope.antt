-- ===== src/Envelope.antt =====
-- envelope/constraints.py: the value space that a decision envelope gives a parameter.
pub mod Values
pub mod Narrowing
pub mod Decision
use chitragupta_protocol.Base.{
  ℕ, Bool, true, false, ◌&&◌, ◌||◌, Option, none, some, List, [], ◌∷◌, ltb, leb, ◌==◌, ◌!=◌,
  eq_option, is_none, if◌then◌else◌, not, length, all_of, any_of,
}
use chitragupta_protocol.Base.Int.{ℤ, pos, negsuc, ltb_ℤ, eq_ℤ}
use chitragupta_protocol.Domain.{MonetaryAmount}
use chitragupta_protocol.Errors.{
  Error, decision_envelope_constraint_error, incomparable_constraint_error, value_error, Result, ok,
  err, raise_if, ◌>>=◌, ◌>>◌,
}

-- `ParameterValue`: str, int, bool or None.
pub data ParameterValue : Type 0 where
  text : ℕ → ParameterValue
  int : ℤ → ParameterValue
  bool : Bool → ParameterValue
  null : ParameterValue

abbrev pub int_of_bool : Bool → ℤ
int_of_bool true = pos 1
int_of_bool false = pos 0

-- Python's `==`, for which True is 1 and False is 0.
unfoldable pub eq_value : ParameterValue → ParameterValue → Bool
eq_value (text a) (text b) = a == b
eq_value (int a) (int b) = eq_ℤ a b
eq_value (int a) (bool b) = eq_ℤ a (int_of_bool b)
eq_value (bool a) (int b) = eq_ℤ (int_of_bool a) b
eq_value (bool a) (bool b) = eq_ℤ (int_of_bool a) (int_of_bool b)
eq_value null null = true
eq_value _ _ = false

pub data ConstraintKind : Type 0 where
  exact enum integer_range monetary_range : ConstraintKind

pub record ParameterConstraint : Type 0 where
  pub kind : ConstraintKind
  pub exact_value : ParameterValue
  pub allowed_values : Option (List ParameterValue)
  pub min_int : Option ℤ
  pub max_int : Option ℤ
  pub currency : Option ℕ
  pub min_amount : Option MonetaryAmount
  pub max_amount : Option MonetaryAmount

abbrev pub constraint_error : Error
constraint_error = decision_envelope_constraint_error

unfoldable pub is_in : ParameterValue → List ParameterValue → Bool
is_in v [] = false
is_in v (w ∷ ws) = eq_value w v || is_in v ws

-- `min is not None and value < min`, and `max is not None and value > max`
abbrev pub below : Option ℤ → ℤ → Bool
below none v = false
below (some m) v = ltb_ℤ v m

abbrev pub above : Option ℤ → ℤ → Bool
above none v = false
above (some m) v = ltb_ℤ m v

abbrev pub units : Option MonetaryAmount → Option ℤ
units none = none
units (some a) = some (pos a.minor_units)

-- `MonetaryAmount(currency=…, minor_units=value)`, whose validator refuses a negative value and one
-- above 10 ** 15 by a ValueError.
unfoldable pub build_amount : ℤ → Result (Unit {0})
build_amount (negsuc n) = err value_error
build_amount (pos n) = raise_if (ltb 1_000_000_000_000_000 n) value_error

unfoldable pub accepts_enum : Option (List ParameterValue) → ParameterValue → Result (Unit {0})
accepts_enum none v = err constraint_error
accepts_enum (some ws) v = raise_if (not (is_in v ws)) constraint_error

-- An int that is no bool, within the bounds.
unfoldable pub accepts_int : ParameterConstraint → ParameterValue → Result (Unit {0})
accepts_int c (int v) = do
  raise_if (below c.min_int v) constraint_error
  raise_if (above c.max_int v) constraint_error
accepts_int c _ = err constraint_error

unfoldable pub accepts_money : ParameterConstraint → ParameterValue → Result (Unit {0})
accepts_money c (int v) = do
  raise_if (is_none c.currency) constraint_error
  build_amount v
  raise_if (below (units c.min_amount) v) constraint_error
  raise_if (above (units c.max_amount) v) constraint_error
accepts_money c _ = err constraint_error

unfoldable pub accepts_kind :
    ConstraintKind → ParameterConstraint → ParameterValue → Result (Unit {0})
accepts_kind exact c v = raise_if (not (eq_value v c.exact_value)) constraint_error
accepts_kind enum c v = accepts_enum c.allowed_values v
accepts_kind integer_range c v = accepts_int c v
accepts_kind monetary_range c v = accepts_money c v

-- `ParameterConstraint.accepts`
unfoldable pub accepts : ParameterConstraint → ParameterValue → Result (Unit {0})
unfolding accepts_kind
accepts c v = accepts_kind c.kind c v

-- The handler of `except DecisionEnvelopeConstraintError`, which raises one again: the result of the
-- call as it was, since messages are left out.
unfoldable pub accepts_each : ParameterConstraint → List ParameterValue → Result (Unit {0})
accepts_each parent [] = ok tt
accepts_each parent (v ∷ vs) = do accepts parent v; accepts_each parent vs

-- `parent.min is not None and (child.min is None or child.min < parent.min)`
abbrev pub widens_floor : Option ℤ → Option ℤ → Bool
widens_floor child none = false
widens_floor none (some p) = true
widens_floor (some c) (some p) = ltb_ℤ c p

abbrev pub widens_ceiling : Option ℤ → Option ℤ → Bool
widens_ceiling child none = false
widens_ceiling none (some p) = true
widens_ceiling (some c) (some p) = ltb_ℤ p c

unfoldable pub assert_int_bounds_narrower :
    ParameterConstraint → ParameterConstraint → Result (Unit {0})
assert_int_bounds_narrower child parent = do
  raise_if (widens_floor child.min_int parent.min_int) constraint_error
  raise_if (widens_ceiling child.max_int parent.max_int) constraint_error

unfoldable pub assert_money_bounds_narrower :
    ParameterConstraint → ParameterConstraint → Result (Unit {0})
assert_money_bounds_narrower child parent = do
  raise_if (widens_floor (units child.min_amount) (units parent.min_amount)) constraint_error
  raise_if (widens_ceiling (units child.max_amount) (units parent.max_amount)) constraint_error

unfoldable pub assert_subset :
    Option (List ParameterValue) → Option (List ParameterValue) → Result (Unit {0})
assert_subset none _ = err constraint_error
assert_subset (some cs) none = err constraint_error
assert_subset (some cs) (some ps) = raise_if (not (all_of (λ v. is_in v ps) cs)) constraint_error

unfoldable pub assert_each_accepted :
    Option (List ParameterValue) → ParameterConstraint → Result (Unit {0})
assert_each_accepted none parent = err constraint_error
assert_each_accepted (some vs) parent = accepts_each parent vs

-- The pairs of kinds, in the order of the source's tests.
unfoldable pub narrower_kinds :
    ConstraintKind → ConstraintKind → ParameterConstraint → ParameterConstraint → Result (Unit {0})
narrower_kinds exact _ child parent = accepts parent child.exact_value
narrower_kinds enum exact child parent = err constraint_error
narrower_kinds integer_range exact child parent = err constraint_error
narrower_kinds monetary_range exact child parent = err constraint_error
narrower_kinds enum enum child parent = assert_subset child.allowed_values parent.allowed_values
narrower_kinds integer_range integer_range child parent = assert_int_bounds_narrower child parent
narrower_kinds monetary_range monetary_range child parent = do
  raise_if (not (eq_option child.currency parent.currency)) incomparable_constraint_error
  assert_money_bounds_narrower child parent
narrower_kinds enum integer_range child parent = assert_each_accepted child.allowed_values parent
narrower_kinds enum monetary_range child parent = assert_each_accepted child.allowed_values parent
narrower_kinds _ _ child parent = err incomparable_constraint_error

unfoldable pub assert_constraint_narrower_or_equal :
    ParameterConstraint → ParameterConstraint → Result (Unit {0})
unfolding narrower_kinds
assert_constraint_narrower_or_equal child parent =
    narrower_kinds child.kind parent.kind child parent
