-- ===== src/Envelope/Values.antt =====
-- envelope/constraints.py: Python's equality of parameter values, and what it keeps of acceptance.
use chitragupta_protocol.Base.{
  ◌≡◌, true, List, [], ◌∷◌, arith, all_of, Option-cases, Bool-cases, inl, inr,
}
use chitragupta_protocol.Base.Int.{ℤ, eq_ℤ_iff}
use chitragupta_protocol.Errors.{ok, Result-cases}
use chitragupta_protocol.Envelope.{
  ParameterValue, text, int, bool, null, eq_value, ConstraintKind, exact, enum, integer_range,
  monetary_range, ParameterConstraint, is_in, accepts_enum, accepts_int, accepts_money,
  accepts_kind, accepts, accepts_each, assert_int_bounds_narrower, assert_money_bounds_narrower,
}

eq_value_trans :
    (u v w : ParameterValue) → eq_value u v ≡ true → eq_value v w ≡ true → eq_value u w ≡ true
unfolding eq_value
eq_value_trans u v w h k = ground arith

pub eq_value_sym : (u v : ParameterValue) → eq_value u v ≡ true → eq_value v u ≡ true
unfolding eq_value
eq_value_sym u v h = ground arith

is_in_eq :
    (u v : ParameterValue) (ws : List ParameterValue)
    → eq_value u v ≡ true
    → is_in u ws ≡ true
    → is_in v ws ≡ true
unfolding is_in
is_in_eq u v [] e h = cc
is_in_eq u v (w ∷ ws) e h = ground (arith, eq_value_trans w u v, is_in_eq u v ws)

abbrev pub IsNotBool : ParameterValue → Type 0
IsNotBool (bool b) = ⊥
IsNotBool _ = Unit

int_same : (a : ℤ) (v : ParameterValue) → IsNotBool v → eq_value (int a) v ≡ true → v ≡ int a
unfolding eq_value
int_same a (text t) n h = cc
int_same a (int b) n h = ground (arith, eq_ℤ_iff a b)
int_same a (bool b) n h = absurd n
int_same a null n h = cc

int_of_accepts_int :
    (c : ParameterConstraint) (w v : ParameterValue)
    → IsNotBool v
    → accepts_int c w ≡ ok tt
    → eq_value w v ≡ true
    → accepts_int c v ≡ ok tt
int_of_accepts_int c (text t) v n h e = absurd (unfold accepts_int in cc)
int_of_accepts_int c (int a) v n h e = rw (int_same a v n e) h
int_of_accepts_int c (bool b) v n h e = absurd (unfold accepts_int in cc)
int_of_accepts_int c null v n h e = absurd (unfold accepts_int in cc)

money_of_accepts_money :
    (c : ParameterConstraint) (w v : ParameterValue)
    → IsNotBool v
    → accepts_money c w ≡ ok tt
    → eq_value w v ≡ true
    → accepts_money c v ≡ ok tt
money_of_accepts_money c (text t) v n h e = absurd (unfold accepts_money in cc)
money_of_accepts_money c (int a) v n h e = rw (int_same a v n e) h
money_of_accepts_money c (bool b) v n h e = absurd (unfold accepts_money in cc)
money_of_accepts_money c null v n h e = absurd (unfold accepts_money in cc)

-- A constraint that accepts a value accepts what equals it, but for a boolean.
pub accepts_equal :
    (k : ConstraintKind) (c : ParameterConstraint) (w v : ParameterValue)
    → IsNotBool v
    → accepts_kind k c w ≡ ok tt
    → eq_value w v ≡ true
    → accepts_kind k c v ≡ ok tt
unfolding accepts_kind accepts_enum
accepts_equal exact c w v n h e = ground (arith, eq_value_sym w v, eq_value_trans v w c.exact_value)
accepts_equal enum c w v n h e = elim (Option-cases c.allowed_values) [
  | inl f ↦ ground arith
  | inr (ws, f) ↦ ground (arith, is_in_eq w v ws)
]
accepts_equal integer_range c w v n h e = int_of_accepts_int c w v n h e
accepts_equal monetary_range c w v n h e = money_of_accepts_money c w v n h e

pub each_accepted :
    (p : ParameterConstraint) (vs : List ParameterValue) (v : ParameterValue)
    → IsNotBool v
    → accepts_each p vs ≡ ok tt
    → is_in v vs ≡ true
    → accepts p v ≡ ok tt
unfolding accepts_each is_in
each_accepted p [] v n h m = cc
each_accepted p (w ∷ vs) v n h m =
    let first : accepts p w ≡ ok tt = ground (arith, Result-cases (accepts p w)) in
    let later : accepts_each p vs ≡ ok tt = ground (arith, first) in
    elim (Bool-cases (eq_value w v)) [
      | inl e ↦ unfold accepts in accepts_equal p.kind p w v n first e
      | inr e ↦ each_accepted p vs v n later (ground arith)
    ]

pub subset_accepted :
    (cs ps : List ParameterValue) (v : ParameterValue)
    → all_of (λ w. is_in w ps) cs ≡ true
    → is_in v cs ≡ true
    → is_in v ps ≡ true
unfolding is_in
subset_accepted [] ps v h m = cc
subset_accepted (c ∷ cs) ps v h m = ground (arith, is_in_eq c v ps, subset_accepted cs ps v)

pub int_bounds :
    (c p : ParameterConstraint) (v : ParameterValue)
    → assert_int_bounds_narrower c p ≡ ok tt
    → accepts_int c v ≡ ok tt
    → accepts_int p v ≡ ok tt
unfolding assert_int_bounds_narrower accepts_int
int_bounds c p v h k = ground arith

pub money_bounds :
    (c p : ParameterConstraint) (v : ParameterValue)
    → c.currency ≡ p.currency
    → assert_money_bounds_narrower c p ≡ ok tt
    → accepts_money c v ≡ ok tt
    → accepts_money p v ≡ ok tt
unfolding assert_money_bounds_narrower accepts_money
money_bounds c p v e h k = ground (arith, e)
