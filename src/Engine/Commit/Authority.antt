-- ===== src/Engine/Commit/Authority.antt =====
-- engine/core.py: what was checked when `commit` calls an adapter.
use chitragupta_protocol.Base.{
  ℕ, ◌≡◌, ◌≢◌, refl, Bool, true, false, some, List, ◌⊎◌, arith, inl, inr, not, contains,
  eq_option_iff,
}
use chitragupta_protocol.Delegation.{assert_no_revoked_ancestors, max_delegation_depth}
use chitragupta_protocol.Domain.{AdapterIdentity}
use chitragupta_protocol.Envelope.Decision.{differs}
use chitragupta_protocol.Engine.{Engine, transition_to, get_record}
use chitragupta_protocol.Engine.Checks.{
  Context, Request, Checked, passes, denies, raises, attempt, deny_if, check_ancestors,
  policy_check, envelope_check, binding_checks, standing_checks, commit_checks,
}
use chitragupta_protocol.Engine.Checks.Bindings.{
  PolicyHolds, policy-PolicyHolds, EnvelopeHolds, envelope-EnvelopeHolds, PlanHolds, plan-PlanHolds,
  TrustHolds, trusted-TrustHolds,
}
use chitragupta_protocol.Engine.Checks.Signed.{bind-passes, attempt-passes, deny_if-passes}
use chitragupta_protocol.Engine.Control.{Control, continue, checked, ◌>>◌}
use chitragupta_protocol.Engine.Commit.{commit, execute, note_ancestors, committing_event}
use chitragupta_protocol.Engine.Commit.Settling.{Taken, grant-Taken}
use chitragupta_protocol.Engine.Commit.Endings.{
  Cleared, reports_success, Ending, kept, replayed, performs, Return,
}
use chitragupta_protocol.Engine.Commit.Accounts.{commit_ends}
use chitragupta_protocol.Engine.WriteThrough.{legal_move}
use chitragupta_protocol.Lifecycle.Graph.{gate}
use chitragupta_protocol.Errors.{Result, ok, err, is_ok, Result-cases}
use chitragupta_protocol.Grants.{verify_grant}
use chitragupta_protocol.GrantStore.{GrantStore, is_revoked}
use chitragupta_protocol.GrantStore
use chitragupta_protocol.Lifecycle.{authorized, committing, transition}
use chitragupta_protocol.Manifest.{verify_seal}

-- What the checks establish.
pub record IsChecked (c : Context) (q : Request) (store : GrantStore) : Type 0 where
  pub seal : verify_seal c.manifest_hash c.check q.sealed c.keyring ≡ ok tt
  pub grant : verify_grant c.check c.grant_hash q.grant c.keyring c.now_grant c.leeway ≡ ok tt
  pub bound : q.grant.manifest_hash ≡ some q.sealed.seal.manifest_hash
  pub policy : PolicyHolds c q.grant.policy_bundle_hash q.policy_bundle
  pub envelope :
      EnvelopeHolds c q.sealed.manifest q.grant.decision_envelope_hash q.decision_envelope
  pub plan : PlanHolds c q.sealed.seal.manifest_hash q.grant.causal_graph_hash q.causal_graph
  pub audience : contains q.grant.audience q.adapter.identity.adapter_id ≡ true
  pub adapter_id : q.sealed.manifest.adapter.adapter_id ≡ q.adapter.identity.adapter_id
  pub adapter_version :
      q.sealed.manifest.adapter.adapter_version ≡ q.adapter.identity.adapter_version
  pub trusted : TrustHolds c.adapter_registry q.adapter.identity q.sealed.manifest.effect_type
  pub effect_type : contains q.grant.allowed_effect_types q.sealed.manifest.effect_type ≡ true
  pub unrevoked : is_revoked q.grant.grant_id store ≡ false
  pub ancestors :
      (found : List ℕ) × (assert_no_revoked_ancestors q.grant store max_delegation_depth ≡ ok found)

-- Inversion of the search of the ancestors.
check_ancestors-passes :
    (r : Result (List ℕ)) {found : List ℕ} → check_ancestors r ≡ passes found → r ≡ ok found
check_ancestors-passes (ok found) h = ground arith
check_ancestors-passes (err e) h = absurd (ground arith)

of_not : (b : Bool) → not b ≡ false → b ≡ true
of_not true h = refl
of_not false h = absurd (ground arith)

same_adapter :
    (a b : AdapterIdentity)
    → differs a b ≡ false
    → (a.adapter_id ≡ b.adapter_id) × (a.adapter_version ≡ b.adapter_version)
same_adapter a b h = (ground arith, ground arith)

commit_checks-IsChecked :
    (c : Context) (q : Request) (store : GrantStore) {found : List ℕ}
    → commit_checks c q store ≡ passes found
    → IsChecked c q store
unfolding commit_checks binding_checks standing_checks
commit_checks-IsChecked c q store {found} h =
    let (_, bindings, standings) =
      bind-passes (binding_checks c q) (λ _. standing_checks c q store) h in
    let (_, sealed, h1) = bind-passes (attempt _ _) _ bindings in
    let (_, granted, h2) = bind-passes (attempt _ _) _ h1 in
    let (_, bound, h3) = bind-passes (deny_if _ _ _) _ h2 in
    let (_, policy, h4) =
      bind-passes (policy_check c q.grant.policy_bundle_hash q.policy_bundle) _ h3 in
    let (_, envelope, plan) =
      bind-passes
        (envelope_check c q.sealed.manifest q.grant.decision_envelope_hash q.decision_envelope) _
        h4 in
    let (_, audience, h5) = bind-passes (deny_if _ _ _) _ standings in
    let (_, identity, h6) = bind-passes (deny_if _ _ _) _ h5 in
    let (_, trusted, h7) = bind-passes (attempt _ _) _ h6 in
    let (_, effect, h8) = bind-passes (deny_if _ _ _) _ h7 in
    let (_, unrevoked, ancestors) = bind-passes (deny_if _ _ _) _ h8 in
    record {
      seal = attempt-passes _ _ sealed;
      grant = attempt-passes _ _ granted;
      bound = (eq_option_iff _ _).0 (of_not _ (deny_if-passes _ _ _ bound));
      policy = policy-PolicyHolds c q.grant.policy_bundle_hash q.policy_bundle policy;
      envelope =
          envelope-EnvelopeHolds c q.sealed.manifest q.grant.decision_envelope_hash
            q.decision_envelope envelope;
      plan =
          plan-PlanHolds c q.sealed.seal.manifest_hash q.grant.causal_graph_hash q.causal_graph
            plan;
      audience = of_not _ (deny_if-passes _ _ _ audience);
      adapter_id = (same_adapter _ _ (deny_if-passes _ _ _ identity)).0;
      adapter_version = (same_adapter _ _ (deny_if-passes _ _ _ identity)).1;
      trusted =
          trusted-TrustHolds c.adapter_registry q.adapter q.sealed.manifest.effect_type
            (attempt-passes _ _ trusted);
      effect_type = of_not _ (deny_if-passes _ _ _ effect);
      unrevoked = deny_if-passes _ _ _ unrevoked;
      ancestors = (found, check_ancestors-passes _ ancestors);
    }

-- What holds whenever `commit` calls an adapter, of the state in which it began.
pub record IsAuthorized (c : Context) (q : Request) (w : Control) : Type 0 where
  pub checks : IsChecked c q w.grant_store
  pub slot :
      Taken q.grant.grant_id q.grant.max_uses w.grant_store
        (GrantStore.reserve q.grant.grant_id q.grant.max_uses w.grant_store).1
  pub state : (get_record q.sealed.manifest.manifest_id w.engine).state ≡ authorized
  pub satisfied : q.adapter.validate_preconditions q.sealed.manifest ≡ ok true

pub moved-authorized :
    (m event now : ℕ) (e : Engine)
    → is_ok (transition_to m committing event now e).0 ≡ true
    → (get_record m e).state ≡ authorized
unfolding transition_to
moved-authorized m event now e h =
    elim (Result-cases (transition (get_record m e) committing now)) [
      | inr (x, q) ↦ absurd (ground arith)
      | inl (after, q) ↦
          gate (get_record m e).state committing authorized
            (legal_move (get_record m e) after committing now q).0 refl
    ]

ending-Cleared :
    (c : Context) (q : Request) (w : Control) (r : Return)
    → Ending c q w r
    → r.1.performed ≢ w.performed
    → Cleared c q w
ending-Cleared c q w r (kept k) h = elim k.calls [ inl s ↦ absurd (h s) | inr (a, s) ↦ a ]
ending-Cleared c q w r (replayed k) h = absurd (h k.not_performed)
ending-Cleared c q w r (performs budget charged k) h = k.cleared

-- A commit that is not checked is refused, and calls no adapter.
abbrev pub IsTurnedDown : Control → Return → Type 0
IsTurnedDown w r = (r.1.performed ≡ w.performed) × (reports_success r.0 ≡ false)

checked-IsChecked :
    (c : Context) (q : Request) (w : Control) (r : Checked (List ℕ))
    → commit_checks c q w.grant_store ≡ r
    → IsChecked c q w.grant_store
      ⊎ IsTurnedDown w
          (continue (checked r w) (λ ancestors. note_ancestors ancestors >> execute c q))
checked-IsChecked c q w (passes found) e = inl (commit_checks-IsChecked c q w.grant_store e)
checked-IsChecked c q w (denies event x) e = inr (refl, refl)
checked-IsChecked c q w (raises x) e = inr (refl, refl)

pub commit_checks_or_refuses :
    (c : Context) (q : Request) (w : Control)
    → IsChecked c q w.grant_store ⊎ IsTurnedDown w (commit c q w)
unfolding commit
commit_checks_or_refuses c q w = checked-IsChecked c q w (commit_checks c q w.grant_store) refl

-- If a commit calls an adapter, then before it did: the seal and the grant verified, and the grant is
-- bound to the manifest's hash; the policy bundle that the grant names was presented, has that hash, is
-- signed by a trusted key, in effect and of the engine's tenant, and where the grant names none, one that
-- is presented to an engine with a tenant is of that tenant; the decision envelope that it names was
-- presented, has that hash, is signed by a trusted key and in effect, and the manifest fits it; the
-- causal graph that it names was presented, has that hash, the manifest among its nodes and signed
-- links only; the adapter is in the audience and the manifest's, and a registry that is configured lists
-- it unrevoked for the effect type; the effect type is allowed, neither the grant nor a recorded ancestor
-- was revoked, the grant had an unspent and unreserved use, the lifecycle was AUTHORIZED, and the adapter
-- found the preconditions satisfied.
pub commit-IsAuthorized :
    (c : Context) (q : Request) (w : Control)
    → (commit c q w).1.performed ≢ w.performed
    → IsAuthorized c q w
commit-IsAuthorized c q w h =
    let a = ending-Cleared c q w (commit c q w) (commit_ends c q w) h in
    record {
      checks = elim (commit_checks_or_refuses c q w) [
        | inl i ↦ i
        | inr (same, _) ↦ absurd (h same)
      ];
      slot = grant-Taken q.grant.grant_id q.grant.max_uses w.grant_store a.reserved;
      state =
          moved-authorized q.sealed.manifest.manifest_id committing_event c.now_transition w.engine
            a.moved;
      satisfied = a.satisfied;
    }

ending-moved :
    (c : Context) (q : Request) (w : Control) (r : Return)
    → Ending c q w r
    → reports_success r.0 ≡ true
    → is_ok
        (transition_to q.sealed.manifest.manifest_id committing committing_event c.now_transition
          w.engine).0
      ≡ true
ending-moved c q w r (kept k) h = absurd (ground (arith, k.unsuccessful))
ending-moved c q w r (replayed k) h = k.moved
ending-moved c q w r (performs budget charged k) h = k.cleared.moved

-- A commit that reports success, a replay included, found the manifest's lifecycle AUTHORIZED.
pub success_was_authorized :
    (c : Context) (q : Request) (w : Control)
    → reports_success (commit c q w).0 ≡ true
    → (get_record q.sealed.manifest.manifest_id w.engine).state ≡ authorized
success_was_authorized c q w h =
    moved-authorized q.sealed.manifest.manifest_id committing_event c.now_transition w.engine
      (ending-moved c q w (commit c q w) (commit_ends c q w) h)
