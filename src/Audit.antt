-- ===== src/Audit.antt =====
-- audit/events.py and audit/journal.py: events chained by hashes, over the in-memory backend. The lock
-- of the journal makes each `record` one step. The validators of events and the failure of another
-- backend to append are left out.
pub mod Chain
pub mod Journal
use chitragupta_protocol.Base.{
  ℕ, ◌+◌, Bool, true, false, Option, none, some, List, [], ◌∷◌, ◌++◌, leb, ◌!=◌, eq_option, not,
  if◌then◌else◌,
}
use chitragupta_protocol.Errors.{
  Error, audit_tampered_error, Result, ok, err, raise_if, ◌>>=◌, ◌>>◌,
}

pub record AuditEvent : Type 0 where
  pub sequence : ℕ
  pub event_id : ℕ
  pub previous_hash : Option ℕ
  pub event_hash : ℕ
  pub timestamp : ℕ
  pub manifest_id : Option ℕ
  pub manifest_hash : Option ℕ
  pub grant_id : Option ℕ
  pub actor_id : Option ℕ
  pub event_type : ℕ
  pub from_state : Option ℕ
  pub to_state : Option ℕ
  pub decision : ℕ
  pub metadata : List (ℕ × ℕ)

-- What a caller gives of an event, with the identifier and the time drawn for it.
pub record Draft : Type 0 where
  pub event_id : ℕ
  pub timestamp : ℕ
  pub manifest_id : Option ℕ
  pub manifest_hash : Option ℕ
  pub grant_id : Option ℕ
  pub actor_id : Option ℕ
  pub event_type : ℕ
  pub from_state : Option ℕ
  pub to_state : Option ℕ
  pub decision : ℕ
  pub metadata : List (ℕ × ℕ)

abbrev pub tampered : Error
tampered = audit_tampered_error

-- The event without its own hash: with the empty one.
abbrev pub without_hash : AuditEvent → AuditEvent
without_hash e = record e { event_hash = 0 }

-- `self._events[-1] if self._events else None`
unfoldable pub last_event : List AuditEvent → Option AuditEvent
last_event [] = none
last_event (e ∷ es) = elim (last_event es) [ none ↦ some e | some l ↦ some l ]

abbrev pub hash_of : Option AuditEvent → Option ℕ
hash_of none = none
hash_of (some e) = some e.event_hash

abbrev pub next_sequence : Option AuditEvent → ℕ
next_sequence none = 1
next_sequence (some e) = e.sequence + 1

unfoldable pub events_for_manifest : ℕ → List AuditEvent → List AuditEvent
events_for_manifest id [] = []
events_for_manifest id (e ∷ es) =
    let rest = events_for_manifest id es in
    if eq_option e.manifest_id (some id) then e ∷ rest else rest

-- `digest` stands for the hash of an event's JSON without the field `event_hash`.
module _ (digest : AuditEvent → ℕ) where
  unfoldable pub compute_event_hash : AuditEvent → ℕ
  compute_event_hash e = digest (without_hash e)

  -- The loop of `verify_event_chain`, from the expected previous hash and sequence.
  unfoldable pub verify_from : Option ℕ → ℕ → List AuditEvent → Result (Unit {0})
  verify_from previous sequence [] = ok tt
  verify_from previous sequence (e ∷ es) = do
    raise_if (e.sequence != sequence) tampered
    raise_if (not (eq_option e.previous_hash previous)) tampered
    raise_if (compute_event_hash e != e.event_hash) tampered
    verify_from (some e.event_hash) (sequence + 1) es

  unfoldable pub verify_event_chain : List AuditEvent → Result (Unit {0})
  verify_event_chain events = verify_from none 1 events

  -- `previous_sequence is not None and event.sequence <= previous_sequence`
  abbrev pub is_out_of_order : Option ℕ → ℕ → Bool
  is_out_of_order none sequence = false
  is_out_of_order (some previous) sequence = leb sequence previous

  unfoldable pub consistent_from : Option ℕ → List AuditEvent → Result (Unit {0})
  consistent_from previous [] = ok tt
  consistent_from previous (e ∷ es) = do
    raise_if (is_out_of_order previous e.sequence) tampered
    raise_if (compute_event_hash e != e.event_hash) tampered
    consistent_from (some e.sequence) es

  unfoldable pub verify_event_self_consistency : List AuditEvent → Result (Unit {0})
  verify_event_self_consistency events = consistent_from none events

  unfoldable pub chained_event : Draft → Option AuditEvent → AuditEvent
  chained_event d previous =
      let event : AuditEvent = record {
        sequence = next_sequence previous;
        event_id = d.event_id;
        previous_hash = hash_of previous;
        event_hash = 0;
        timestamp = d.timestamp;
        manifest_id = d.manifest_id;
        manifest_hash = d.manifest_hash;
        grant_id = d.grant_id;
        actor_id = d.actor_id;
        event_type = d.event_type;
        from_state = d.from_state;
        to_state = d.to_state;
        decision = d.decision;
        metadata = d.metadata;
      } in
      record event { event_hash = compute_event_hash event }

  -- `AuditJournal.record`: the events of the backend after it.
  unfoldable pub record_event : Draft → List AuditEvent → List AuditEvent
  record_event d events = events ++ chained_event d (last_event events) ∷ []

  unfoldable pub record_all : List AuditEvent → List Draft → List AuditEvent
  record_all events [] = events
  record_all events (d ∷ ds) = record_all (record_event d events) ds
