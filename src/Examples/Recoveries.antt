-- ===== src/Examples/Recoveries.antt =====
-- engine/core.py: a recovery and a revocation, and the theorems on them.
use chitragupta_protocol.Base.{◌≡◌, refl, true, false, some, [], ◌∷◌}
use chitragupta_protocol.Base.Dict.{get}
use chitragupta_protocol.Engine.{get_record}
use chitragupta_protocol.Engine.Control.{Control}
use chitragupta_protocol.Engine.Commit.{commit}
use chitragupta_protocol.Engine.Commit.Authority.{IsTurnedDown}
use chitragupta_protocol.Engine.Commit.Endings.{reports_success}
use chitragupta_protocol.Engine.Commit.Once.{calls_with, commits}
use chitragupta_protocol.Engine.Recovery.{recover_ambiguous_commit, revoke_grant}
use chitragupta_protocol.Engine.Recovery.Evidence.{recovered_effect_is_not_repeated}
use chitragupta_protocol.Engine.Recovery.Refusal.{recovered_commit_is_refused}
use chitragupta_protocol.Engine.Recovery.Revocation.{revoked_grant_is_refused}
use chitragupta_protocol.Lifecycle.{failed}
use chitragupta_protocol.Examples.{root_grant}
use chitragupta_protocol.Examples.Commits.{manifest, context, adapter, request, control}

-- The manifest has failed with an ambiguous outcome.
abbrev ambiguous : Control
ambiguous = record control {
  engine = record control.engine {
    records = (7, record { manifest_id = 7; state = failed; history = [] }) ∷ [];
  };
}

recovered_effect_is_not_repeated_example :
    calls_with 40
      (commits
        ((context, request) ∷ [])
        (recover_ambiguous_commit context manifest adapter ambiguous).1).performed
    ≡ calls_with 40 ambiguous.performed
recovered_effect_is_not_repeated_example =
    recovered_effect_is_not_repeated context manifest adapter ambiguous
      (record { matched_expected = true; observed_after_state_digest = some 9 })
      ((context, request) ∷ []) refl refl

has_failed : (get_record 7 ambiguous.engine).state ≡ failed
unfolding get_record get
has_failed = refl

recovered_commit_is_refused_example :
    reports_success
      (commit context request (recover_ambiguous_commit context manifest adapter ambiguous).1).0
    ≡ false
recovered_commit_is_refused_example =
    recovered_commit_is_refused context context manifest adapter ambiguous request has_failed refl

revoked_grant_is_refused_example :
    IsTurnedDown (commits ((context, request) ∷ []) (revoke_grant context root_grant 7 control).1) (
      commit context request
        (commits ((context, request) ∷ []) (revoke_grant context root_grant 7 control).1))
revoked_grant_is_refused_example =
    revoked_grant_is_refused context context root_grant 7 control ((context, request) ∷ []) request
      refl
