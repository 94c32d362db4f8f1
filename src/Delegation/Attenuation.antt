-- ===== src/Delegation/Attenuation.antt =====
-- delegation/attenuation.py: the comparison of grants is sound for what the grants allow, and it is
-- a preorder.
use chitragupta_protocol.Base.{
  ℕ, ◌≤◌, ◌≡◌, ◌⊎◌, inl, inr, refl, true, Option, none, some, List, arith, contains, is_subset,
  contains_of_subset, subset_of_contains,
}
use chitragupta_protocol.Domain.{MonetaryAmount}
use chitragupta_protocol.Errors.{ok}
use chitragupta_protocol.Grants.{ExecutionGrant}
use chitragupta_protocol.Delegation.{
  assert_allow_list, assert_amount, assert_scope_narrower_or_equal, assert_budget,
  assert_grant_narrower_or_equal,
}

-- One use of authority: what is done to what, by which adapter, for how much, when, and on which
-- budget.
pub record Request : Type 0 where
  pub resource : ℕ
  pub recipient : ℕ
  pub amount : MonetaryAmount
  pub field_name : ℕ
  pub environment : ℕ
  pub adapter_id : ℕ
  pub effect_type : ℕ
  pub time : ℕ

abbrev pub Lists : Option (List ℕ) → ℕ → Type 0
Lists none a = Unit
Lists (some xs) a = contains xs a ≡ true

abbrev pub Caps : Option MonetaryAmount → MonetaryAmount → Type 0
Caps none a = Unit
Caps (some cap) a = (a.currency ≡ cap.currency) × (a.minor_units ≤ cap.minor_units)

pub record Allows (g : ExecutionGrant) (r : Request) : Type 0 where
  pub resource : Lists g.scope.target_resources r.resource
  pub recipient : Lists g.scope.recipients r.recipient
  pub amount : Caps g.scope.max_amount r.amount
  pub field_name : Lists g.scope.allowed_fields r.field_name
  pub environment : Lists g.scope.environments r.environment
  pub adapter : contains g.audience r.adapter_id ≡ true
  pub effect : contains g.allowed_effect_types r.effect_type ≡ true
  pub started : g.not_before ≤ r.time
  pub unexpired : r.time ≤ g.expires_at

allow_list-Lists :
    (c p : Option (List ℕ)) (a : ℕ) → assert_allow_list c p ≡ ok tt → Lists c a → Lists p a
unfolding assert_allow_list
allow_list-Lists c none a h k = tt
allow_list-Lists none (some p) a h k = cc
allow_list-Lists (some c) (some p) a h k = ground (arith, contains_of_subset c p a)

amount-Caps :
    (c p : Option MonetaryAmount) (a : MonetaryAmount)
    → assert_amount c p ≡ ok tt
    → Caps c a
    → Caps p a
unfolding assert_amount
amount-Caps c none a h k = tt
amount-Caps none (some p) a h k = cc
amount-Caps (some c) (some p) a h k = ground arith

pub budget_kept : (c p : Option ℕ) → assert_budget c p ≡ ok tt → (p ≡ none) ⊎ (c ≡ p)
unfolding assert_budget
budget_kept c none h = inl refl
budget_kept none (some p) h = cc
budget_kept (some c) (some p) h = inr (ground arith)

-- What an accepted comparison consists of.
pub record IsNarrower (child parent : ExecutionGrant) : Type 0 where
  pub expiry : child.expires_at ≤ parent.expires_at
  pub start : parent.not_before ≤ child.not_before
  pub uses : child.max_uses ≤ parent.max_uses
  pub audience : assert_allow_list (some child.audience) (some parent.audience) ≡ ok tt
  pub effects :
      assert_allow_list (some child.allowed_effect_types) (some parent.allowed_effect_types) ≡ ok tt
  pub resources :
      assert_allow_list child.scope.target_resources parent.scope.target_resources ≡ ok tt
  pub recipients : assert_allow_list child.scope.recipients parent.scope.recipients ≡ ok tt
  pub amount : assert_amount child.scope.max_amount parent.scope.max_amount ≡ ok tt
  pub fields : assert_allow_list child.scope.allowed_fields parent.scope.allowed_fields ≡ ok tt
  pub environments : assert_allow_list child.scope.environments parent.scope.environments ≡ ok tt
  pub budget : assert_budget child.authority_budget_id parent.authority_budget_id ≡ ok tt

pub accepted-IsNarrower :
    (c p : ExecutionGrant) → assert_grant_narrower_or_equal c p ≡ ok tt → IsNarrower c p
unfolding assert_grant_narrower_or_equal assert_scope_narrower_or_equal
accepted-IsNarrower c p h = ground arith

narrower_of_IsNarrower :
    (c p : ExecutionGrant) → IsNarrower c p → assert_grant_narrower_or_equal c p ≡ ok tt
unfolding assert_grant_narrower_or_equal assert_scope_narrower_or_equal
narrower_of_IsNarrower c p n = ground arith

IsNarrower-Allows : (c p : ExecutionGrant) (r : Request) → IsNarrower c p → Allows c r → Allows p r
IsNarrower-Allows c p r n a = record {
  resource = allow_list-Lists _ _ r.resource n.resources a.resource;
  recipient = allow_list-Lists _ _ r.recipient n.recipients a.recipient;
  amount = amount-Caps _ _ r.amount n.amount a.amount;
  field_name = allow_list-Lists _ _ r.field_name n.fields a.field_name;
  environment = allow_list-Lists _ _ r.environment n.environments a.environment;
  adapter = allow_list-Lists (some c.audience) (some p.audience) r.adapter_id n.audience a.adapter;
  effect =
      allow_list-Lists (some c.allowed_effect_types) (some p.allowed_effect_types) r.effect_type
        n.effects a.effect;
  started = omega arith;
  unexpired = omega arith;
}

-- If the comparison accepts a child grant, every request that the child allows its parent allows
-- too, the child has no more uses, and a budget that binds the parent binds the child.
pub narrower_sound :
    (c p : ExecutionGrant) (r : Request)
    → assert_grant_narrower_or_equal c p ≡ ok tt
    → Allows c r
    → Allows p r
      × (c.max_uses ≤ p.max_uses)
      × ((p.authority_budget_id ≡ none) ⊎ (c.authority_budget_id ≡ p.authority_budget_id))
narrower_sound c p r h a =
    let n : IsNarrower c p = accepted-IsNarrower c p h in
    (
      IsNarrower-Allows c p r n a,
      n.uses,
      budget_kept c.authority_budget_id p.authority_budget_id n.budget,
    )

allow_list_refl : (o : Option (List ℕ)) → assert_allow_list o o ≡ ok tt
unfolding assert_allow_list
allow_list_refl none = refl
allow_list_refl (some xs) = ground (arith, subset_of_contains xs xs (λ a h. h))

allow_list_trans :
    (a b c : Option (List ℕ))
    → assert_allow_list a b ≡ ok tt
    → assert_allow_list b c ≡ ok tt
    → assert_allow_list a c ≡ ok tt
unfolding assert_allow_list
allow_list_trans a b none h k = refl
allow_list_trans a none (some c) h k = cc
allow_list_trans none (some b) (some c) h k = cc
allow_list_trans (some a) (some b) (some c) h k =
    let ab : is_subset a b ≡ true = ground arith in
    let bc : is_subset b c ≡ true = ground arith in
    rw (subset_of_contains a c (λ x m. contains_of_subset b c x bc (contains_of_subset a b x ab m)))
      refl

amount_refl : (o : Option MonetaryAmount) → assert_amount o o ≡ ok tt
unfolding assert_amount
amount_refl none = refl
amount_refl (some a) = ground arith

amount_trans :
    (a b c : Option MonetaryAmount)
    → assert_amount a b ≡ ok tt
    → assert_amount b c ≡ ok tt
    → assert_amount a c ≡ ok tt
unfolding assert_amount
amount_trans a b none h k = refl
amount_trans a none (some c) h k = cc
amount_trans none (some b) (some c) h k = cc
amount_trans (some a) (some b) (some c) h k = ground arith

budget_refl : (o : Option ℕ) → assert_budget o o ≡ ok tt
unfolding assert_budget
budget_refl none = refl
budget_refl (some a) = ground arith

budget_trans :
    (a b c : Option ℕ)
    → assert_budget a b ≡ ok tt
    → assert_budget b c ≡ ok tt
    → assert_budget a c ≡ ok tt
unfolding assert_budget
budget_trans a b none h k = refl
budget_trans a none (some c) h k = cc
budget_trans none (some b) (some c) h k = cc
budget_trans (some a) (some b) (some c) h k = ground arith

-- Every grant is accepted as its own child.
pub narrower_refl : (g : ExecutionGrant) → assert_grant_narrower_or_equal g g ≡ ok tt
narrower_refl g = narrower_of_IsNarrower g g (record {
  expiry = omega arith;
  start = omega arith;
  uses = omega arith;
  audience = allow_list_refl _;
  effects = allow_list_refl _;
  resources = allow_list_refl _;
  recipients = allow_list_refl _;
  amount = amount_refl _;
  fields = allow_list_refl _;
  environments = allow_list_refl _;
  budget = budget_refl _;
})

-- An accepted child of an accepted child is accepted against the grandparent: attenuation composes
-- over any number of hops.
pub narrower_trans :
    (a b c : ExecutionGrant)
    → assert_grant_narrower_or_equal a b ≡ ok tt
    → assert_grant_narrower_or_equal b c ≡ ok tt
    → assert_grant_narrower_or_equal a c ≡ ok tt
narrower_trans a b c h k =
    let n : IsNarrower a b = accepted-IsNarrower a b h in
    let m : IsNarrower b c = accepted-IsNarrower b c k in
    narrower_of_IsNarrower a c (record {
      expiry = omega arith;
      start = omega arith;
      uses = omega arith;
      audience = allow_list_trans _ _ _ n.audience m.audience;
      effects = allow_list_trans _ _ _ n.effects m.effects;
      resources = allow_list_trans _ _ _ n.resources m.resources;
      recipients = allow_list_trans _ _ _ n.recipients m.recipients;
      amount = amount_trans _ _ _ n.amount m.amount;
      fields = allow_list_trans _ _ _ n.fields m.fields;
      environments = allow_list_trans _ _ _ n.environments m.environments;
      budget = budget_trans _ _ _ n.budget m.budget;
    })
