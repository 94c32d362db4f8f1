-- ===== src/Approval.antt =====
-- approval/model.py, approval/policy.py, approval/signing.py and approval/quorum.py: signed approvals of
-- a manifest and the evaluation of a quorum. Reasons are messages and are left out, as are the
-- validators of the pydantic model.
pub mod Quorum
use chitragupta_protocol.Base.{
  ℕ, ◌+◌, ◌*◌, Bool, true, false, Option, none, some, List, [], ◌∷◌, ◌++◌, map, ltb, leb, ◌==◌,
  ◌!=◌, ◌&&◌, ◌||◌, not, is_none, contains, length, if◌then◌else◌,
}
use chitragupta_protocol.Base.Dict.{Dict, get, put}
use chitragupta_protocol.Crypto.{Keyring, SignatureCheck, verify}
use chitragupta_protocol.Domain.{
  Principal, is_agent, SchemaVersion, assert_supported_schema_version, assert_supported_algorithm,
  dedupe_sorted,
}
use chitragupta_protocol.Errors.{
  Error, invalid_signature_error, approval_expired_error, approval_batch_too_large_error, Result,
  ok, err, or_raise, raise_if, is_ok, ◌>>=◌, ◌>>◌,
}

-- `Decision`
pub data Vote : Type 0 where
  approve dissent : Vote

abbrev pub is_approve : Vote → Bool
is_approve approve = true
is_approve dissent = false

pub record ApprovalStatement : Type 0 where
  pub schema_version : SchemaVersion
  pub statement_id : ℕ
  pub manifest_hash : ℕ
  pub approval_policy_bundle_hash : ℕ
  pub approver : Principal
  pub role : Option ℕ
  pub decision : Vote
  pub signed_at : ℕ
  pub expires_at : ℕ
  pub nonce : ℕ
  pub key_id : ℕ
  pub algorithm : ℕ
  pub signature : Option ℕ

pub record ApprovalPolicy : Type 0 where
  pub policy_id : ℕ
  pub policy_version : ℕ
  pub required_approvals : ℕ
  pub required_roles : List ℕ
  pub forbid_proposer_as_approver : Bool
  pub forbid_subject_as_approver : Bool
  pub veto_on_any_dissent : Bool
  pub cooling_off_seconds : ℕ
  pub max_statements_considered : ℕ

-- `cooling_off_remaining` is used in a message only.
pub record QuorumResult : Type 0 where
  pub satisfied : Bool
  pub approving_count : ℕ
  pub approving_principal_ids : List ℕ
  pub dissenting_principal_ids : List ℕ
  pub missing_roles : List ℕ
  pub rejected : List ℕ
  pub approval_set_hash : ℕ

-- The arguments of an evaluation less the statements and the policy, the signature check, and the
-- digests of a statement and of a list of digests.
pub record Ballot : Type 0 where
  pub check : SignatureCheck
  pub statement_hash : ApprovalStatement → ℕ
  pub set_hash : List ℕ → ℕ
  pub manifest_hash : ℕ
  pub approval_policy_bundle_hash : ℕ
  pub keyring : Keyring
  pub proposer : Principal
  pub subject : Principal
  pub now : ℕ

unfoldable pub verify_approval_statement_signature : Ballot → ApprovalStatement → Result (Unit {0})
verify_approval_statement_signature b s = do
  assert_supported_schema_version s.schema_version
  assert_supported_algorithm s.algorithm
  signature ← or_raise s.signature invalid_signature_error
  verify b.check b.keyring s.key_id (b.statement_hash s) signature

unfoldable pub verify_approval_statement_time_window : ApprovalStatement → ℕ → Result (Unit {0})
verify_approval_statement_time_window s now = raise_if (ltb s.expires_at now) approval_expired_error

-- `_reject_reason(...) is not None`. What the two verifications raise is a `KarmaSakshiError`.
unfoldable pub is_rejected : Ballot → ApprovalPolicy → ApprovalStatement → Bool
is_rejected b policy s =
    s.manifest_hash != b.manifest_hash
    || s.approval_policy_bundle_hash != b.approval_policy_bundle_hash
    || is_agent s.approver.principal_type
    || (policy.forbid_proposer_as_approver && s.approver.principal_id == b.proposer.principal_id)
    || (policy.forbid_subject_as_approver && s.approver.principal_id == b.subject.principal_id)
    || not (
        is_ok (
          verify_approval_statement_signature b s >> verify_approval_statement_time_window s b.now))

unfoldable pub survivors_of :
    Ballot → ApprovalPolicy → List ApprovalStatement → List ApprovalStatement
survivors_of b policy [] = []
survivors_of b policy (s ∷ ss) =
    let rest = survivors_of b policy ss in if is_rejected b policy s then rest else s ∷ rest

unfoldable pub rejected_of : Ballot → ApprovalPolicy → List ApprovalStatement → List ℕ
rejected_of b policy [] = []
rejected_of b policy (s ∷ ss) =
    let rest = rejected_of b policy ss in
    if is_rejected b policy s then s.statement_id ∷ rest else rest

-- `max` by the key (signed_at, statement_id), of which the first of equals is kept.
abbrev pub is_later : ApprovalStatement → ApprovalStatement → Bool
is_later s w =
    ltb w.signed_at s.signed_at || (w.signed_at == s.signed_at && ltb w.statement_id s.statement_id)

abbrev pub winner : Option ApprovalStatement → ApprovalStatement → ApprovalStatement
winner none s = s
winner (some w) s = if is_later s w then s else w

-- `_select_authoritative`, in one pass: the latest statement of each approver so far.
unfoldable pub select_authoritative :
    List ApprovalStatement → Dict ApprovalStatement → Dict ApprovalStatement
select_authoritative [] d = d
select_authoritative (s ∷ ss) d =
    select_authoritative ss
      (put s.approver.principal_id (winner (get s.approver.principal_id d) s) d)

-- The statements of an approver other than its winner.
unfoldable pub superseded_in : ℕ → ℕ → List ApprovalStatement → List ℕ
superseded_in principal_id kept [] = []
superseded_in principal_id kept (s ∷ ss) =
    let rest = superseded_in principal_id kept ss in
    if s.approver.principal_id == principal_id && s.statement_id != kept
    then s.statement_id ∷ rest
    else rest

unfoldable pub superseded_of : Dict ApprovalStatement → List ApprovalStatement → List ℕ
superseded_of [] ss = []
superseded_of ((p, w) ∷ d) ss = superseded_in p w.statement_id ss ++ superseded_of d ss

-- `sorted(..., key=principal_id)`, of the statements with a decision
unfoldable pub insert_by_approver :
    ApprovalStatement → List ApprovalStatement → List ApprovalStatement
insert_by_approver s [] = s ∷ []
insert_by_approver s (t ∷ ts) =
    let rest = insert_by_approver s ts in
    if leb s.approver.principal_id t.approver.principal_id then s ∷ t ∷ ts else t ∷ rest

unfoldable pub voting : Bool → Dict ApprovalStatement → List ApprovalStatement
voting approves [] = []
voting approves ((p, s) ∷ d) =
    let rest = voting approves d in
    if is_approve s.decision && approves || not (is_approve s.decision) && not approves
    then insert_by_approver s rest
    else rest

abbrev pub approver_ids : List ApprovalStatement → List ℕ
approver_ids ss = map (λ s. s.approver.principal_id) ss

unfoldable pub roles_of : List ApprovalStatement → List ℕ
roles_of [] = []
roles_of (s ∷ ss) = elim s.role [ none ↦ roles_of ss | some r ↦ r ∷ roles_of ss ]

unfoldable pub missing_roles_of : List ℕ → List ℕ → List ℕ
missing_roles_of [] present = []
missing_roles_of (r ∷ rs) present =
    let rest = missing_roles_of rs present in if contains present r then rest else r ∷ rest

-- `sorted(...)` of digests
unfoldable pub insert_digest : ℕ → List ℕ → List ℕ
insert_digest a [] = a ∷ []
insert_digest a (x ∷ xs) = let rest = insert_digest a xs in if leb a x then a ∷ x ∷ xs else x ∷ rest

unfoldable pub sorted_digests : (ApprovalStatement → ℕ) → List ApprovalStatement → List ℕ
sorted_digests hash [] = []
sorted_digests hash (s ∷ ss) = insert_digest (hash s) (sorted_digests hash ss)

-- `min(s.signed_at for s in approving)`
unfoldable pub earliest_of : ApprovalStatement → List ApprovalStatement → ℕ
earliest_of s [] = s.signed_at
earliest_of s (t ∷ ts) =
    let rest = earliest_of t ts in if ltb s.signed_at rest then s.signed_at else rest

-- A second in the microseconds of the model's times.
abbrev pub second : ℕ
second = 1000000

-- The cooling-off period is not over.
unfoldable pub is_cooling : ℕ → ℕ → List ApprovalStatement → Bool
is_cooling seconds now [] = false
is_cooling seconds now (s ∷ ss) =
    not (seconds == 0) && ltb now (earliest_of s ss + seconds * second)

abbrev pub has_none {ℓ} : {A : Type ℓ} → List A → Bool
has_none [] = true
has_none (x ∷ xs) = false

-- `satisfied`, of the approving and dissenting statements
unfoldable pub is_met : ApprovalPolicy → ℕ → List ApprovalStatement → List ApprovalStatement → Bool
is_met policy now approving dissenting =
    leb policy.required_approvals (length approving)
    && has_none (missing_roles_of policy.required_roles (roles_of approving))
    && not (policy.veto_on_any_dissent && not (has_none dissenting))
    && not (is_cooling policy.cooling_off_seconds now approving)

-- The result, of the authoritative statements.
unfoldable pub quorum_of :
    Ballot → ApprovalPolicy → List ApprovalStatement → Dict ApprovalStatement → QuorumResult
quorum_of b policy statements d = record {
  satisfied = is_met policy b.now (voting true d) (voting false d);
  approving_count = length (voting true d);
  approving_principal_ids = approver_ids (voting true d);
  dissenting_principal_ids = approver_ids (voting false d);
  missing_roles = dedupe_sorted (missing_roles_of policy.required_roles (roles_of (voting true d)));
  rejected = rejected_of b policy statements ++ superseded_of d (survivors_of b policy statements);
  approval_set_hash = b.set_hash (sorted_digests b.statement_hash (voting true d));
}

unfoldable pub evaluate_quorum :
    Ballot → ApprovalPolicy → List ApprovalStatement → Result QuorumResult
evaluate_quorum b policy statements = do
  raise_if (ltb policy.max_statements_considered (length statements)) approval_batch_too_large_error
  ok (quorum_of b policy statements (select_authoritative (survivors_of b policy statements) []))
