-- ===== src/Causal.antt =====
-- causal/link.py, causal/graph.py and envelope/plan.py: signed links between manifests, the graph of
-- them, and the test that a manifest is a node of the presented plan. `link_digest` stands for the
-- digest of a link's signing payload (every field but the signature), `graph_hash` for
-- `CausalEffectGraph.canonical_hash`.
use chitragupta_protocol.Base.{ℕ, List, [], ◌∷◌, ◌!=◌, not, contains}
use chitragupta_protocol.Crypto.{Keyring, SignatureCheck, SigningKey, Signing, verify}
use chitragupta_protocol.Errors.{atomic_plan_error, Result, ok, err, raise_if, ◌>>◌}

pub data Relation : Type 0 where
  causes depends_on compensates verifies : Relation

pub record CausalLink : Type 0 where
  pub link_id : ℕ
  pub parent_manifest_hash : ℕ
  pub child_manifest_hash : ℕ
  pub relation : Relation
  pub created_at : ℕ
  pub key_id : ℕ
  pub signature : ℕ

pub record CausalEffectGraph : Type 0 where
  pub graph_id : ℕ
  pub node_manifest_hashes : List ℕ
  pub links : List CausalLink

module _ (link_digest : CausalLink → ℕ) where
  -- `sign_causal_link`, of the link as it is to be
  unfoldable pub sign_causal_link : Signing → CausalLink → SigningKey → CausalLink
  sign_causal_link sign unsigned signing_key =
      let keyed = record unsigned { key_id = signing_key.key_id } in
      record keyed { signature = sign signing_key.private_key (link_digest keyed) }

  unfoldable pub verify_causal_link : SignatureCheck → CausalLink → Keyring → Result (Unit {0})
  verify_causal_link check link keys =
      verify check keys link.key_id (link_digest link) link.signature

  -- The loop of `CausalEffectGraph.verify`
  unfoldable pub verify_causal_links :
      SignatureCheck → List CausalLink → Keyring → Result (Unit {0})
  verify_causal_links check [] keys = ok tt
  verify_causal_links check (link ∷ links) keys = do
    verify_causal_link check link keys
    verify_causal_links check links keys

  unfoldable pub verify_graph : SignatureCheck → CausalEffectGraph → Keyring → Result (Unit {0})
  verify_graph check g keys = verify_causal_links check g.links keys

-- `except Exception as exc: raise AtomicPlanError`
abbrev pub as_plan_error : Result (Unit {0}) → Result (Unit {0})
as_plan_error (ok u) = ok u
as_plan_error (err e) = err atomic_plan_error

-- With a keyring, as the engine calls it.
unfoldable pub assert_manifest_in_plan :
    (CausalLink → ℕ) → SignatureCheck → ℕ → CausalEffectGraph → Keyring → Result (Unit {0})
assert_manifest_in_plan link_digest check manifest_hash g keys = do
  as_plan_error (verify_graph link_digest check g keys)
  raise_if (not (contains g.node_manifest_hashes manifest_hash)) atomic_plan_error

unfoldable pub require_matching_plan_hash :
    (CausalEffectGraph → ℕ) → CausalEffectGraph → ℕ → Result (Unit {0})
require_matching_plan_hash graph_hash g expected_hash =
    raise_if (graph_hash g != expected_hash) atomic_plan_error
