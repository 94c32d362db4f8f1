-- ===== src/Envelope/Narrowing.antt =====
-- envelope/constraints.py: an accepted narrowing of constraints narrows the accepted values, but for
-- booleans.
use chitragupta_protocol.Base.{
  ◌≡◌, ◌≢◌, refl, true, Option, none, some, List, arith, eq_option_iff, subst,
}
use chitragupta_protocol.Base.Int.{pos}
use chitragupta_protocol.Errors.{ok}
use chitragupta_protocol.Envelope.{
  ParameterValue, int, bool, eq_value, ConstraintKind, exact, enum, integer_range, monetary_range,
  ParameterConstraint, accepts_enum, accepts_int, accepts_kind, accepts,
  assert_money_bounds_narrower, assert_subset, assert_each_accepted, narrower_kinds,
  assert_constraint_narrower_or_equal,
}
use chitragupta_protocol.Envelope.Values.{
  IsNotBool, eq_value_sym, accepts_equal, each_accepted, subset_accepted, int_bounds, money_bounds,
}

enum_subset :
    (co po : Option (List ParameterValue)) (v : ParameterValue)
    → assert_subset co po ≡ ok tt
    → accepts_enum co v ≡ ok tt
    → accepts_enum po v ≡ ok tt
unfolding assert_subset accepts_enum
enum_subset none po v h a = cc
enum_subset (some cs) none v h a = cc
enum_subset (some cs) (some ps) v h a = ground (arith, subset_accepted cs ps v)

enum_each :
    (co : Option (List ParameterValue)) (p : ParameterConstraint) (v : ParameterValue)
    → IsNotBool v
    → assert_each_accepted co p ≡ ok tt
    → accepts_enum co v ≡ ok tt
    → accepts p v ≡ ok tt
unfolding assert_each_accepted accepts_enum
enum_each none p v n h a = cc
enum_each (some vs) p v n h a = each_accepted p vs v n h (ground arith)

as_kind :
    (q : ConstraintKind) (p : ParameterConstraint) (v : ParameterValue)
    → p.kind ≡ q
    → accepts p v ≡ ok tt
    → accepts_kind q p v ≡ ok tt
as_kind q p v e a = subst (λ k. accepts_kind k p v ≡ ok tt) e (unfold accepts in a)

narrow :
    (k q : ConstraintKind) (c p : ParameterConstraint) (v : ParameterValue)
    → IsNotBool v
    → p.kind ≡ q
    → narrower_kinds k q c p ≡ ok tt
    → accepts_kind k c v ≡ ok tt
    → accepts_kind q p v ≡ ok tt
unfolding narrower_kinds
narrow exact q c p v n e h a =
    let accepted : accepts_kind q p c.exact_value ≡ ok tt = rw (← e) (unfold accepts in h) in
    accepts_equal q p c.exact_value v n accepted
      (eq_value_sym v c.exact_value (unfold accepts_kind in ground arith))
narrow enum exact c p v n e h a = absurd (ground arith)
narrow enum enum c p v n e h a =
    unfold accepts_kind in enum_subset c.allowed_values p.allowed_values v h a
narrow enum integer_range c p v n e h a =
    as_kind integer_range p v e (enum_each c.allowed_values p v n h (unfold accepts_kind in a))
narrow enum monetary_range c p v n e h a =
    as_kind monetary_range p v e (enum_each c.allowed_values p v n h (unfold accepts_kind in a))
narrow integer_range exact c p v n e h a = absurd (ground arith)
narrow integer_range enum c p v n e h a = absurd (ground arith)
narrow integer_range integer_range c p v n e h a = unfold accepts_kind in int_bounds c p v h a
narrow integer_range monetary_range c p v n e h a = absurd (ground arith)
narrow monetary_range exact c p v n e h a = absurd (ground arith)
narrow monetary_range enum c p v n e h a = absurd (ground arith)
narrow monetary_range integer_range c p v n e h a = absurd (ground arith)
narrow monetary_range monetary_range c p v n e h a =
    let same_currency : c.currency ≡ p.currency =
      ground (arith, eq_option_iff c.currency p.currency) in
    let within : assert_money_bounds_narrower c p ≡ ok tt = ground arith in
    unfold accepts_kind in money_bounds c p v same_currency within a

-- If a child constraint is accepted as narrower than its parent, then every value that is no
-- boolean and that the child accepts, the parent accepts.
pub constraint_narrower_sound :
    (c p : ParameterConstraint) (v : ParameterValue)
    → IsNotBool v
    → assert_constraint_narrower_or_equal c p ≡ ok tt
    → accepts c v ≡ ok tt
    → accepts p v ≡ ok tt
unfolding assert_constraint_narrower_or_equal accepts
constraint_narrower_sound c p v n h a = narrow c.kind p.kind c p v n refl h a

-- For the booleans it is not so: a child that is exactly the integer 1 is accepted under every
-- parent that is an integer range with 1 in it; the child accepts `True`, and no such parent does.
pub narrower_bool :
    (c p : ParameterConstraint)
    → c.kind ≡ exact
    → c.exact_value ≡ int (pos 1)
    → p.kind ≡ integer_range
    → accepts p (int (pos 1)) ≡ ok tt
    → (assert_constraint_narrower_or_equal c p ≡ ok tt)
      × (accepts c (bool true) ≡ ok tt)
      × (accepts p (bool true) ≢ ok tt)
narrower_bool c p k e q a = (
  unfold assert_constraint_narrower_or_equal in unfold narrower_kinds in rw (k, e) a,
  unfold accepts in unfold accepts_kind in unfold eq_value in ground (arith, k, e),
  unfold accepts in unfold accepts_kind in unfold accepts_int in ground (arith, q),
)
