-- ===== src/Examples/Decisions.antt =====
-- envelope/model.py: an envelope, a child of it, a manifest that fits both, and a parameter that only a
-- child knows.
use chitragupta_protocol.Base.{
  ◌≡◌, ◌≢◌, refl, Bool, true, false, none, some, [], ◌∷◌, ◌==◌, if◌then◌else◌,
}
use chitragupta_protocol.Base.Dict.{get}
use chitragupta_protocol.Base.Int.{pos}
use chitragupta_protocol.Domain.{ed25519}
use chitragupta_protocol.Envelope.{
  ParameterConstraint, int, null, enum, integer_range, accepts, accepts_int, accepts_enum, is_in,
  eq_value, accepts_each, assert_each_accepted, assert_int_bounds_narrower, narrower_kinds,
  assert_constraint_narrower_or_equal,
}
use chitragupta_protocol.Envelope.Decision.{
  DecisionEnvelope, assert_manifest_fits_envelope, assert_envelope_narrower_or_equal, accepts_all,
  assert_cost, assert_cap_narrower, narrower_all,
}
use chitragupta_protocol.Envelope.Decision.Fitting.{
  IsNotBoolIf, HasNoBool, envelope_narrower_sound, constrain, narrower_admits_unknown,
}
use chitragupta_protocol.Errors.{ok}
use chitragupta_protocol.Manifest.{EffectManifest}
use chitragupta_protocol.Examples.{person}
use chitragupta_protocol.Examples.Commits.{manifest}

-- From 0 to 10, and one of 1 and 4.
abbrev range : ParameterConstraint
range = record {
  kind = integer_range;
  exact_value = null;
  allowed_values = none;
  min_int = some (pos 0);
  max_int = some (pos 10);
  currency = none;
  min_amount = none;
  max_amount = none;
}

abbrev choice : ParameterConstraint
choice = record range {
  kind = enum;
  allowed_values = some (int (pos 1) ∷ int (pos 4) ∷ []);
  min_int = none;
  max_int = none;
}

-- The parameter 60 lies in the range, and no other is known.
abbrev parent : DecisionEnvelope
parent = record {
  envelope_id = 1;
  effect_type = 30;
  adapter = record { adapter_id = 20; adapter_version = 1 };
  target_resources = 10 ∷ 11 ∷ [];
  parameter_constraints = (60, range) ∷ [];
  forbid_unknown_parameters = true;
  require_all_constrained_parameters = true;
  max_estimated_cost = some (record { currency = 9; minor_units = 500 });
  causal_graph_hash = none;
  issuer = person;
  created_at = 100;
  not_before = 100;
  expires_at = 200;
  nonce = 0;
  key_id = 5;
  algorithm = ed25519;
  signature = none;
}

abbrev child : DecisionEnvelope
child = record parent {
  envelope_id = 2;
  target_resources = 10 ∷ [];
  parameter_constraints = (60, choice) ∷ [];
  expires_at = 150;
}

abbrev chosen : EffectManifest
chosen = record manifest { parameters = (60, int (pos 4)) ∷ [] }

is_narrower : assert_envelope_narrower_or_equal child parent ≡ ok tt
unfolding assert_envelope_narrower_or_equal assert_cap_narrower narrower_all
    assert_constraint_narrower_or_equal narrower_kinds assert_each_accepted accepts_each accepts
    accepts_int get
is_narrower = refl

fits_child : assert_manifest_fits_envelope chosen child ≡ ok tt
unfolding assert_manifest_fits_envelope accepts_all accepts accepts_enum is_in eq_value assert_cost
    get
fits_child = refl

no_bool_if : (b : Bool) → IsNotBoolIf (if b then some (int (pos 4)) else none)
no_bool_if true = tt
no_bool_if false = tt

no_bool : HasNoBool chosen.parameters
unfolding get
no_bool k = no_bool_if (60 == k)

envelope_narrower_sound_example : assert_manifest_fits_envelope chosen parent ≡ ok tt
envelope_narrower_sound_example =
    envelope_narrower_sound child parent chosen no_bool refl is_narrower fits_child

is_narrower_than_itself : assert_envelope_narrower_or_equal parent parent ≡ ok tt
unfolding assert_envelope_narrower_or_equal assert_cap_narrower narrower_all
    assert_constraint_narrower_or_equal narrower_kinds assert_int_bounds_narrower get
is_narrower_than_itself = refl

-- The manifest has a parameter 61, which the parent does not know.
abbrev further : EffectManifest
further = record manifest { parameters = (60, int (pos 4)) ∷ (61, int (pos 1)) ∷ [] }

narrower_admits_unknown_example :
    (assert_envelope_narrower_or_equal (constrain 61 range parent) parent ≡ ok tt)
    × (assert_manifest_fits_envelope further parent ≢ ok tt)
narrower_admits_unknown_example =
    narrower_admits_unknown 61 range parent further is_narrower_than_itself refl refl refl
