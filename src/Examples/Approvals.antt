-- ===== src/Examples/Approvals.antt =====
-- approval/quorum.py: two approvals and a later dissent of a third principal, and the theorem at them.
use chitragupta_protocol.Base.{
  ℕ, ◌≡◌, ◌≤◌, ◌⊎◌, refl, true, false, some, List, [], ◌∷◌, All, length,
}
use chitragupta_protocol.Base.Dict.{get, put}
use chitragupta_protocol.Approval.{
  Vote, approve, dissent, ApprovalStatement, ApprovalPolicy, QuorumResult, Ballot,
  verify_approval_statement_signature, verify_approval_statement_time_window, is_rejected,
  survivors_of, rejected_of, select_authoritative, superseded_in, superseded_of, insert_by_approver,
  voting, roles_of, missing_roles_of, insert_digest, sorted_digests, earliest_of, is_cooling,
  is_met, quorum_of, evaluate_quorum,
}
use chitragupta_protocol.Approval.Quorum.{IsBacked, satisfied_sound}
use chitragupta_protocol.Crypto.{verify}
use chitragupta_protocol.Domain.{
  human, version, ed25519, parse_major, assert_supported_schema_version, assert_supported_algorithm,
  dedupe_sorted,
}
use chitragupta_protocol.Errors.{ok}
use chitragupta_protocol.Examples.{person, check, keys}
use chitragupta_protocol.Saga.{is_unique}

abbrev statement : ℕ → ℕ → Vote → ℕ → ApprovalStatement
statement statement_id principal_id decision signed_at = record {
  schema_version = version 1 0;
  statement_id = statement_id;
  manifest_hash = 77;
  approval_policy_bundle_hash = 90;
  approver = record { principal_id = principal_id; principal_type = human };
  role = some 12;
  decision = decision;
  signed_at = signed_at;
  expires_at = 300;
  nonce = 0;
  key_id = 5;
  algorithm = ed25519;
  signature = some statement_id;
}

abbrev policy : ApprovalPolicy
policy = record {
  policy_id = 1;
  policy_version = 2;
  required_approvals = 2;
  required_roles = 12 ∷ [];
  forbid_proposer_as_approver = true;
  forbid_subject_as_approver = true;
  veto_on_any_dissent = true;
  cooling_off_seconds = 0;
  max_statements_considered = 10;
}

-- Principal 1 proposes and executes.
abbrev ballot : Ballot
ballot = record {
  check = check;
  statement_hash = λ s. s.statement_id;
  set_hash = λ hashes. length hashes;
  manifest_hash = 77;
  approval_policy_bundle_hash = 90;
  keyring = keys;
  proposer = person;
  subject = person;
  now = 200;
}

-- Principal 3 dissents first and approves later; principal 1 is not counted.
abbrev statements : List ApprovalStatement
statements =
    statement 31 3 dissent 100
    ∷ statement 32 2 approve 110
    ∷ statement 33 3 approve 120
    ∷ statement 34 1 approve 130
    ∷ []

abbrev outcome : QuorumResult
outcome = record {
  satisfied = true;
  approving_count = 2;
  approving_principal_ids = 2 ∷ 3 ∷ [];
  dissenting_principal_ids = [];
  missing_roles = [];
  rejected = 34 ∷ 31 ∷ [];
  approval_set_hash = 2;
}

evaluates : evaluate_quorum ballot policy statements ≡ ok outcome
unfolding evaluate_quorum quorum_of survivors_of rejected_of is_rejected
    verify_approval_statement_signature verify_approval_statement_time_window
    assert_supported_schema_version parse_major assert_supported_algorithm verify get put
    select_authoritative superseded_in superseded_of insert_by_approver voting roles_of
    missing_roles_of insert_digest sorted_digests earliest_of is_cooling is_met dedupe_sorted
evaluates = refl

satisfied_sound_example :
    (2 ≤ 2)
    × (is_unique outcome.approving_principal_ids ≡ true)
    × All (IsBacked ballot policy statements) outcome.approving_principal_ids
    × ((policy.veto_on_any_dissent ≡ false) ⊎ (outcome.dissenting_principal_ids ≡ []))
satisfied_sound_example = satisfied_sound ballot policy statements outcome evaluates refl
