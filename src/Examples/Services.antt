-- ===== src/Examples/Services.antt =====
-- audit/ and protection/: the theorems on a journal of two events and on a limiter of two requests.
use chitragupta_protocol.Base.{
  ℕ, ◌+◌, ◌*◌, ◌≡◌, ◌≤◌, ◌⊎◌, refl, none, some, List, [], ◌∷◌, arith, All,
}
use chitragupta_protocol.Base.Dict.{get}
use chitragupta_protocol.Errors.{ok}
use chitragupta_protocol.Audit.{
  AuditEvent, Draft, verify_from, verify_event_chain, record_all, record_event, chained_event,
  compute_event_hash, last_event, hash_of,
}
use chitragupta_protocol.Audit.Chain.{Collision, tamper_evident}
use chitragupta_protocol.Audit.Journal.{journal_verifies}
use chitragupta_protocol.Protection.{RateLimiter, check, open_window}
use chitragupta_protocol.Protection.Windows.{Request, passed, IsInWindow, window_holds_limit}

abbrev digest : AuditEvent → ℕ
digest e = e.sequence * 100 + e.event_id

abbrev draft : Draft
draft = record {
  event_id = 4;
  timestamp = 9;
  manifest_id = some 7;
  manifest_hash = none;
  grant_id = none;
  actor_id = none;
  event_type = 1;
  from_state = none;
  to_state = none;
  decision = 2;
  metadata = [];
}

abbrev journal : List AuditEvent
journal = record_all digest [] (draft ∷ record draft { event_id = 5; manifest_id = some 8 } ∷ [])

empty_verifies : verify_event_chain digest [] ≡ ok tt
unfolding verify_event_chain verify_from
empty_verifies = refl

verified_journal : verify_event_chain digest journal ≡ ok tt
verified_journal =
    journal_verifies digest [] (draft ∷ record draft { event_id = 5; manifest_id = some 8 } ∷ [])
      empty_verifies

-- The first event with another decision, which the digest does not see.
abbrev altered : List AuditEvent
altered =
    record_all digest []
      (record draft { decision = 3 } ∷ record draft { event_id = 5; manifest_id = some 8 } ∷ [])

verified_altered : verify_event_chain digest altered ≡ ok tt
verified_altered =
    journal_verifies digest []
      (record draft { decision = 3 } ∷ record draft { event_id = 5; manifest_id = some 8 } ∷ [])
      empty_verifies

same_end : hash_of (last_event journal) ≡ hash_of (last_event altered)
unfolding record_all record_event chained_event compute_event_hash last_event
same_end = refl

tamper_evident_example : (journal ≡ altered) ⊎ Collision digest journal altered
tamper_evident_example =
    tamper_evident digest journal altered verified_journal verified_altered same_end

abbrev limiter : RateLimiter
limiter = record { limit = 2; buckets = [] }

abbrev requests : List Request
requests =
    record { client_key = 3; now = 11 }
    ∷ record { client_key = 4; now = 90 }
    ∷ record { client_key = 3; now = 69 }
    ∷ []

opens : check 3 10 limiter ≡ (ok tt, open_window 3 10 limiter)
unfolding check get
opens = refl

in_window : All (IsInWindow 3 10) requests
in_window = (omega arith, (tt, (omega arith, tt)))

window_holds_limit_example : 1 + passed 3 (check 3 10 limiter).1 requests ≤ 2
window_holds_limit_example = window_holds_limit 3 10 limiter requests (omega arith) opens in_window
