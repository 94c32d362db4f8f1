-- ===== src/Envelope/Decision/Fitting.antt =====
-- envelope/model.py: what narrowing an envelope keeps, and where it widens.
use chitragupta_protocol.Base.{
  ℕ, ◌≡◌, ◌≢◌, refl, true, false, Option, none, some, List, [], ◌∷◌, arith, contains, is_subset,
  not, ◌&&◌, contains_of_subset, subset_of_contains, ◌==◌, Option-cases, Bool-cases, subst, inl,
  inr,
}
use chitragupta_protocol.Base.Dict.{Dict, get}
use chitragupta_protocol.Domain.{MonetaryAmount}
use chitragupta_protocol.Envelope.{
  ParameterValue, ParameterConstraint, assert_constraint_narrower_or_equal,
}
use chitragupta_protocol.Envelope.Narrowing.{constraint_narrower_sound}
use chitragupta_protocol.Envelope.Values.{IsNotBool}
use chitragupta_protocol.Errors.{ok, Result-cases}
use chitragupta_protocol.Manifest.{EffectManifest}
use chitragupta_protocol.Envelope.Decision.{
  DecisionEnvelope, keys_of, accepts_found, accepts_all, assert_cost, assert_manifest_fits_envelope,
  assert_cap_narrower, narrower_all, assert_envelope_narrower_or_equal,
}

get-contains {ℓ} :
    {V : Type ℓ} (k : ℕ) (v : V) (d : Dict V) → get k d ≡ some v → contains (keys_of d) k ≡ true
unfolding get
get-contains k v [] h = absurd (ground arith)
get-contains k v ((j, w) ∷ d) h = ground (arith, get-contains k v d)

-- A constraint of the list accepts the parameter of its key.
accepts-get :
    (cs : Dict ParameterConstraint) (params : Dict ParameterValue) (k : ℕ) (c : ParameterConstraint)
    → accepts_all cs params ≡ ok tt
    → get k cs ≡ some c
    → accepts_found c (get k params) ≡ ok tt
unfolding accepts_all get
accepts-get [] params k c h g = absurd (ground arith)
accepts-get ((j, d) ∷ cs) params k c h g = elim (Result-cases (accepts_found d (get j params))) [
  | inr (e, q) ↦ absurd (ground arith)
  | inl (u, q) ↦ elim (Bool-cases (j == k)) [
    | inl b ↦
        let same_key : j ≡ k = ground arith in
        let same_value : d ≡ c = ground arith in
        subst (λ (x : ParameterConstraint). accepts_found x (get k params) ≡ ok tt) same_value
          (subst (λ (x : ℕ). accepts_found d (get x params) ≡ ok tt) same_key q)
    | inr b ↦ accepts-get cs params k c (ground arith) (ground arith)
  ]
]

abbrev pub IsNotBoolIf : Option ParameterValue → Type 0
IsNotBoolIf none = Unit
IsNotBoolIf (some v) = IsNotBool v

accepts_found-narrower :
    (c p : ParameterConstraint) (o : Option ParameterValue)
    → IsNotBoolIf o
    → assert_constraint_narrower_or_equal c p ≡ ok tt
    → accepts_found c o ≡ ok tt
    → accepts_found p o ≡ ok tt
accepts_found-narrower c p none n h a = refl
accepts_found-narrower c p (some v) n h a = constraint_narrower_sound c p v n h a

-- No parameter of a manifest is a boolean.
abbrev pub HasNoBool : Dict ParameterValue → Type 0
HasNoBool params = (k : ℕ) → IsNotBoolIf (get k params)

accepts_all-narrower :
    (child parents : Dict ParameterConstraint) (params : Dict ParameterValue)
    → HasNoBool params
    → narrower_all child parents ≡ ok tt
    → accepts_all child params ≡ ok tt
    → accepts_all parents params ≡ ok tt
unfolding narrower_all accepts_all
accepts_all-narrower child [] params n h a = refl
accepts_all-narrower child ((k, p) ∷ parents) params n h a = elim (Option-cases (get k child)) [
  | inl e ↦ absurd (ground arith)
  | inr (c, e) ↦ elim (Result-cases (assert_constraint_narrower_or_equal c p)) [
    | inr (x, q) ↦ absurd (ground arith)
    | inl (u, q) ↦
        let rest : narrower_all child parents ≡ ok tt = ground arith in
        ground (
          arith,
          accepts_found-narrower c p (get k params) (n k) (ground arith)
              (accepts-get child params k c a e),
          accepts_all-narrower child parents params n rest a,
        )
  ]
]

cost-narrower :
    (child parent cost : Option MonetaryAmount)
    → assert_cap_narrower child parent ≡ ok tt
    → assert_cost child cost ≡ ok tt
    → assert_cost parent cost ≡ ok tt
unfolding assert_cap_narrower assert_cost
cost-narrower child none cost h a = refl
cost-narrower none (some p) cost h a = absurd (ground arith)
cost-narrower (some c) (some p) none h a = absurd (ground arith)
cost-narrower (some c) (some p) (some x) h a = ground arith

-- What the comparison of two envelopes tests, of a child that it accepts.
pub record IsNarrower (child parent : DecisionEnvelope) : Type 0 where
  pub effect_type : child.effect_type ≡ parent.effect_type
  pub adapter_id : child.adapter.adapter_id ≡ parent.adapter.adapter_id
  pub adapter_version : child.adapter.adapter_version ≡ parent.adapter.adapter_version
  pub targets : is_subset child.target_resources parent.target_resources ≡ true
  pub cost : assert_cap_narrower child.max_estimated_cost parent.max_estimated_cost ≡ ok tt
  pub forbids : parent.forbid_unknown_parameters ≡ true → child.forbid_unknown_parameters ≡ true
  pub required :
      parent.require_all_constrained_parameters ≡ true
      → child.require_all_constrained_parameters ≡ true
  pub keys :
      is_subset (keys_of parent.parameter_constraints) (keys_of child.parameter_constraints) ≡ true
  pub constraints : narrower_all child.parameter_constraints parent.parameter_constraints ≡ ok tt

accepted-IsNarrower :
    (child parent : DecisionEnvelope)
    → assert_envelope_narrower_or_equal child parent ≡ ok tt
    → IsNarrower child parent
unfolding assert_envelope_narrower_or_equal
accepted-IsNarrower child parent h = record {
  effect_type = ground arith;
  adapter_id = ground arith;
  adapter_version = ground arith;
  targets = ground arith;
  cost =
      elim (Result-cases (assert_cap_narrower child.max_estimated_cost parent.max_estimated_cost)) [
        | inl (u, q) ↦ q
        | inr (x, q) ↦ absurd (ground arith)
      ];
  forbids = λ r. ground arith;
  required = λ r. ground arith;
  keys = ground arith;
  constraints =
      elim (Result-cases (narrower_all child.parameter_constraints parent.parameter_constraints)) [
        | inl (u, q) ↦ q
        | inr (x, q) ↦ absurd (ground arith)
      ];
}

-- What it takes to fit an envelope.
pub record FitsEnvelope (m : EffectManifest) (e : DecisionEnvelope) : Type 0 where
  pub effect_type : m.effect_type ≡ e.effect_type
  pub adapter_id : m.adapter.adapter_id ≡ e.adapter.adapter_id
  pub adapter_version : m.adapter.adapter_version ≡ e.adapter.adapter_version
  pub target : contains e.target_resources m.target_resource ≡ true
  pub known :
      (e.forbid_unknown_parameters
        && not (is_subset (keys_of m.parameters) (keys_of e.parameter_constraints)))
      ≡ false
  pub required :
      (e.require_all_constrained_parameters
        && not (is_subset (keys_of e.parameter_constraints) (keys_of m.parameters)))
      ≡ false
  pub accepted : accepts_all e.parameter_constraints m.parameters ≡ ok tt
  pub cost : assert_cost e.max_estimated_cost m.estimated_cost ≡ ok tt

pub fitting-FitsEnvelope :
    (m : EffectManifest) (e : DecisionEnvelope)
    → assert_manifest_fits_envelope m e ≡ ok tt
    → FitsEnvelope m e
unfolding assert_manifest_fits_envelope
fitting-FitsEnvelope m e h = record {
  effect_type = ground arith;
  adapter_id = ground arith;
  adapter_version = ground arith;
  target = ground arith;
  known = ground arith;
  required = ground arith;
  accepted = elim (Result-cases (accepts_all e.parameter_constraints m.parameters)) [
    | inl (u, q) ↦ q
    | inr (x, q) ↦ absurd (ground arith)
  ];
  cost = elim (Result-cases (assert_cost e.max_estimated_cost m.estimated_cost)) [
    | inl (u, q) ↦ q
    | inr (x, q) ↦ absurd (ground arith)
  ];
}

FitsEnvelope-fitting :
    (m : EffectManifest) (e : DecisionEnvelope)
    → FitsEnvelope m e
    → assert_manifest_fits_envelope m e ≡ ok tt
unfolding assert_manifest_fits_envelope
FitsEnvelope-fitting m e f = ground arith

subset_trans :
    (xs ys zs : List ℕ) → is_subset xs ys ≡ true → is_subset ys zs ≡ true → is_subset xs zs ≡ true
subset_trans xs ys zs h k =
    subset_of_contains xs zs (λ a m. contains_of_subset ys zs a k (contains_of_subset xs ys a h m))

-- If a child envelope is accepted as narrower than its parent and constrains no further parameter
-- where the parent forbids unknown ones, then a manifest without booleans among its parameters that
-- fits the child fits the parent.
pub envelope_narrower_sound :
    (child parent : DecisionEnvelope) (m : EffectManifest)
    → HasNoBool m.parameters
    → (parent.forbid_unknown_parameters
        && not (
            is_subset (keys_of child.parameter_constraints) (keys_of parent.parameter_constraints)))
      ≡ false
    → assert_envelope_narrower_or_equal child parent ≡ ok tt
    → assert_manifest_fits_envelope m child ≡ ok tt
    → assert_manifest_fits_envelope m parent ≡ ok tt
envelope_narrower_sound child parent m n adds h f =
    let w = accepted-IsNarrower child parent h in
    let g = fitting-FitsEnvelope m child f in
    FitsEnvelope-fitting m parent record {
      effect_type = ground arith;
      adapter_id = ground arith;
      adapter_version = ground arith;
      target =
          contains_of_subset child.target_resources parent.target_resources m.target_resource
            w.targets g.target;
      known = ground (
        arith,
        w.forbids,
        subset_trans (keys_of m.parameters) (keys_of child.parameter_constraints)
            (keys_of parent.parameter_constraints),
      );
      required = ground (
        arith,
        w.required,
        subset_trans (keys_of parent.parameter_constraints) (keys_of child.parameter_constraints)
            (keys_of m.parameters),
      );
      accepted =
          accepts_all-narrower child.parameter_constraints parent.parameter_constraints m.parameters
            n w.constraints g.accepted;
      cost =
          cost-narrower child.max_estimated_cost parent.max_estimated_cost m.estimated_cost w.cost
            g.cost;
    }

narrower_all-extended :
    (k : ℕ) (c : ParameterConstraint) (child parents : Dict ParameterConstraint)
    → contains (keys_of parents) k ≡ false
    → narrower_all child parents ≡ ok tt
    → narrower_all ((k, c) ∷ child) parents ≡ ok tt
unfolding narrower_all get
narrower_all-extended k c child [] f h = refl
narrower_all-extended k c child ((j, p) ∷ parents) f h = elim (Option-cases (get j child)) [
  | inl e ↦ absurd (ground arith)
  | inr (d, e) ↦ elim (Result-cases (assert_constraint_narrower_or_equal d p)) [
    | inr (x, q) ↦ absurd (ground arith)
    | inl (u, q) ↦ ground (arith, narrower_all-extended k c child parents)
  ]
]

subset-extended : (k : ℕ) (xs ys : List ℕ) → is_subset xs ys ≡ true → is_subset xs (k ∷ ys) ≡ true
subset-extended k xs ys h =
    subset_of_contains xs (k ∷ ys) (λ a m. ground (arith, contains_of_subset xs ys a h m))

-- The envelope with one more constraint.
abbrev pub constrain : ℕ → ParameterConstraint → DecisionEnvelope → DecisionEnvelope
constrain k c e = record e { parameter_constraints = (k, c) ∷ e.parameter_constraints }

-- Where an envelope that is accepted as narrower than itself forbids unknown parameters, adding a
-- constraint on a parameter that it does not know makes a child that is accepted as narrower, and no
-- manifest that has this parameter fits the parent.
pub narrower_admits_unknown :
    (k : ℕ) (c : ParameterConstraint) (parent : DecisionEnvelope) (m : EffectManifest)
    → assert_envelope_narrower_or_equal parent parent ≡ ok tt
    → parent.forbid_unknown_parameters ≡ true
    → contains (keys_of parent.parameter_constraints) k ≡ false
    → contains (keys_of m.parameters) k ≡ true
    → (assert_envelope_narrower_or_equal (constrain k c parent) parent ≡ ok tt)
      × (assert_manifest_fits_envelope m parent ≢ ok tt)
unfolding assert_envelope_narrower_or_equal
narrower_admits_unknown k c parent m h forbids fresh has =
    let w = accepted-IsNarrower parent parent h in
    (
      ground (
        arith,
        narrower_all-extended k c parent.parameter_constraints parent.parameter_constraints fresh
            w.constraints,
        subset-extended k (keys_of parent.parameter_constraints)
            (keys_of parent.parameter_constraints) w.keys,
      ),
      λ f.
          let g = fitting-FitsEnvelope m parent f in
          ground (
            arith,
            contains_of_subset (keys_of m.parameters) (keys_of parent.parameter_constraints) k,
          ),
    )
