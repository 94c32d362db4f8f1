-- ===== src/Examples/Envelopes.antt =====
-- envelope/constraints.py: the theorems on a range of integers and narrowings of it.
use chitragupta_protocol.Base.{◌≡◌, ◌≢◌, refl, true, none, some, [], ◌∷◌}
use chitragupta_protocol.Base.Int.{pos}
use chitragupta_protocol.Errors.{ok}
use chitragupta_protocol.Envelope.{
  int, bool, null, exact, enum, integer_range, ParameterConstraint, accepts, accepts_int,
  accepts_enum, is_in, eq_value, accepts_each, assert_each_accepted,
  assert_constraint_narrower_or_equal,
}
use chitragupta_protocol.Envelope.Narrowing.{narrower_bool}

-- From 0 to 10.
abbrev range : ParameterConstraint
range = record {
  kind = integer_range;
  exact_value = null;
  allowed_values = none;
  min_int = some (pos 0);
  max_int = some (pos 10);
  currency = none;
  min_amount = none;
  max_amount = none;
}

abbrev choice : ParameterConstraint
choice = record range {
  kind = enum;
  allowed_values = some (int (pos 1) ∷ int (pos 4) ∷ []);
  min_int = none;
  max_int = none;
}

abbrev one : ParameterConstraint
one = record range { kind = exact; exact_value = int (pos 1); min_int = none; max_int = none }

choice_is_narrower : assert_constraint_narrower_or_equal choice range ≡ ok tt
unfolding assert_constraint_narrower_or_equal assert_each_accepted accepts_each accepts accepts_int
choice_is_narrower = refl

choice_takes_four : accepts choice (int (pos 4)) ≡ ok tt
unfolding accepts accepts_enum is_in eq_value
choice_takes_four = refl

range_takes_one : accepts range (int (pos 1)) ≡ ok tt
unfolding accepts accepts_int
range_takes_one = refl

narrower_bool_example :
    (assert_constraint_narrower_or_equal one range ≡ ok tt)
    × (accepts one (bool true) ≡ ok tt)
    × (accepts range (bool true) ≢ ok tt)
narrower_bool_example = narrower_bool one range refl refl refl range_takes_one
