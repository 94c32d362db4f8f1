-- ===== src/Grants/Issuer.antt =====
-- grants/issuer.py and the validators of grants/model.py: how a grant is issued. Times are aware of
-- their zone, so `ensure_utc` keeps them.
use chitragupta_protocol.Base.{
  ℕ, Bool, false, Option, none, some, List, [], ◌∷◌, ltb, leb, ◌!=◌, ◌&&◌, not, is_none,
}
use chitragupta_protocol.Crypto.{SigningKey, Signing}
use chitragupta_protocol.Domain.{
  Principal, is_agent, SchemaVersion, version, Texts, is_sized, dedupe_sorted, ed25519,
}
use chitragupta_protocol.Errors.{
  grant_issuer_not_authorized_error, value_error, Result, ok, err, raise_if, ◌>>=◌, ◌>>◌,
}
use chitragupta_protocol.Grants.{ScopeConstraints, ExecutionGrant}

-- The arguments of `issue_grant` less the key and the clock.
pub record GrantTerms : Type 0 where
  pub grant_id : ℕ
  pub issuer : Principal
  pub subject : Principal
  pub audience : List ℕ
  pub allowed_effect_types : List ℕ
  pub scope : ScopeConstraints
  pub not_before : ℕ
  pub expires_at : ℕ
  pub nonce : ℕ
  pub manifest_hash : Option ℕ
  pub policy_bundle_hash : Option ℕ
  pub approval_set_hash : Option ℕ
  pub decision_envelope_hash : Option ℕ
  pub causal_graph_hash : Option ℕ
  pub authority_budget_id : Option ℕ
  pub max_uses : ℕ
  pub parent_grant_id : Option ℕ

-- "1.0", `CURRENT_SCHEMA_VERSION`
abbrev pub current_schema_version : SchemaVersion
current_schema_version = version 1 0

-- `_validate_hash_fields`, of one field: true where it is refused
unfoldable pub is_bad_hash : Texts → Option ℕ → Bool
is_bad_hash texts none = false
is_bad_hash texts (some h) = not (texts.is_digest h)

-- `_validate_budget_id`
unfoldable pub is_bad_budget_id : Texts → Option ℕ → Bool
is_bad_budget_id texts none = false
is_bad_budget_id texts (some b) = not (is_sized texts 128 b)

-- `_validate_nonempty_tuples`
unfoldable pub nonempty_tuple : List ℕ → Result (List ℕ)
nonempty_tuple [] = err value_error
nonempty_tuple (x ∷ xs) = ok (dedupe_sorted (x ∷ xs))

-- The validators of the fields; which of them raises makes no difference, as all raise `ValueError`.
unfoldable pub validate_fields : Texts → ExecutionGrant → Result (Unit {0})
validate_fields texts g = do
  raise_if (not (is_sized texts 128 g.grant_id)) value_error
  raise_if (is_bad_hash texts g.manifest_hash) value_error
  raise_if (is_bad_hash texts g.policy_bundle_hash) value_error
  raise_if (is_bad_hash texts g.approval_set_hash) value_error
  raise_if (is_bad_hash texts g.decision_envelope_hash) value_error
  raise_if (is_bad_hash texts g.causal_graph_hash) value_error
  raise_if (is_bad_budget_id texts g.authority_budget_id) value_error
  raise_if (ltb g.max_uses 1) value_error
  raise_if (not (is_sized texts 128 g.nonce)) value_error
  raise_if (not (is_sized texts 128 g.key_id)) value_error
  raise_if (g.algorithm != ed25519) value_error

-- The validators of the whole: `_validate_time_window` and `_validate_plan_binding_exclusivity`.
unfoldable pub validate_whole : ExecutionGrant → Result (Unit {0})
validate_whole g = do
  raise_if (leb g.expires_at g.not_before) value_error
  raise_if (not (is_none g.decision_envelope_hash) && not (is_none g.causal_graph_hash)) value_error

-- `ExecutionGrant(...)`: the grant as it is validated and put in order.
unfoldable pub new_grant : Texts → ExecutionGrant → Result ExecutionGrant
new_grant texts g = do
  validate_fields texts g
  audience ← nonempty_tuple g.audience
  allowed_effect_types ← nonempty_tuple g.allowed_effect_types
  validate_whole g
  ok (record g { audience = audience; allowed_effect_types = allowed_effect_types })

-- The fields of the grant before its signature.
abbrev pub unsigned : GrantTerms → SigningKey → ℕ → ExecutionGrant
unsigned t signing_key now = record {
  schema_version = current_schema_version;
  grant_id = t.grant_id;
  manifest_hash = t.manifest_hash;
  policy_bundle_hash = t.policy_bundle_hash;
  approval_set_hash = t.approval_set_hash;
  decision_envelope_hash = t.decision_envelope_hash;
  causal_graph_hash = t.causal_graph_hash;
  authority_budget_id = t.authority_budget_id;
  issuer = t.issuer;
  subject = t.subject;
  audience = t.audience;
  allowed_effect_types = t.allowed_effect_types;
  scope = t.scope;
  issued_at = now;
  not_before = t.not_before;
  expires_at = t.expires_at;
  max_uses = t.max_uses;
  nonce = t.nonce;
  parent_grant_id = t.parent_grant_id;
  key_id = signing_key.key_id;
  algorithm = signing_key.algorithm;
  signature = none;
}

unfoldable pub issue_grant :
    Texts → (ExecutionGrant → ℕ) → Signing → GrantTerms → SigningKey → ℕ → Result ExecutionGrant
issue_grant texts grant_hash sign t signing_key now = do
  raise_if (is_agent t.issuer.principal_type) grant_issuer_not_authorized_error
  g ← new_grant texts (unsigned t signing_key now)
  ok (record g { signature = some (sign signing_key.private_key (grant_hash g)) })
