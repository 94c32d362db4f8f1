-- ===== src/Outbox/Progress.antt =====
-- outbox/memory.py: what calls on an outbox make of an entry.
use chitragupta_protocol.Base.{
  ℕ, ◌≡◌, ◌≢◌, refl, ◌∙◌, true, some, List, [], ◌∷◌, arith, ◌==◌, Option-cases, Bool-cases, inl,
  inr, subst,
}
use chitragupta_protocol.Base.Dict.{get, put, get-put, get-put_self}
use chitragupta_protocol.Errors.{Result, ok, err, Result-cases}
use chitragupta_protocol.Outbox.{
  OutboxStatus, pending, confirmed, abandoned, OutboxEntry, is_pending, Outbox, record_pending,
  mark_confirmed, mark_abandoned, confirm, abandon,
}

pub data Call : Type 0 where
  records : OutboxEntry → Call
  confirms : ℕ → ℕ → Call
  abandons : ℕ → Call

unfoldable pub call : Call → Outbox → Result Outbox
call (records entry) box = record_pending entry box
call (confirms key outcome) box = mark_confirmed key outcome box
call (abandons key) box = mark_abandoned key box

-- A call that raises leaves the store as it is.
unfoldable pub run : Outbox → List Call → Outbox
run box [] = box
run box (c ∷ cs) = elim (call c box) [ ok after ↦ run after cs | err e ↦ run box cs ]

-- What an entry may become: itself, or, when pending, the same with an outcome or abandoned.
pub data Becomes (e e' : OutboxEntry) : Type 0 where
  stays : e' ≡ e → Becomes e e'
  gets_confirmed :
      (o : ℕ)
      → e.status ≡ pending
      → e' ≡ record e { status = confirmed; outcome_ref = some o }
      → Becomes e e'
  gets_abandoned : e.status ≡ pending → e' ≡ record e { status = abandoned } → Becomes e e'

Becomes-trans : (a b c : OutboxEntry) → Becomes a b → Becomes b c → Becomes a c
Becomes-trans a b c (stays p) (stays q) = stays (q ∙ p)
Becomes-trans a b c (stays p) (gets_confirmed o h q) =
    gets_confirmed o (ground arith) (ground arith)
Becomes-trans a b c (stays p) (gets_abandoned h q) = gets_abandoned (ground arith) (ground arith)
Becomes-trans a b c (gets_confirmed o k p) (stays q) = gets_confirmed o k (q ∙ p)
Becomes-trans a b c (gets_confirmed o k p) (gets_confirmed r h q) = absurd (ground arith)
Becomes-trans a b c (gets_confirmed o k p) (gets_abandoned h q) = absurd (ground arith)
Becomes-trans a b c (gets_abandoned k p) (stays q) = gets_abandoned k (q ∙ p)
Becomes-trans a b c (gets_abandoned k p) (gets_confirmed r h q) = absurd (ground arith)
Becomes-trans a b c (gets_abandoned k p) (gets_abandoned h q) = absurd (ground arith)

-- The entry under `k` after a call on the same store, which found `e` there.
abbrev Later : ℕ → OutboxEntry → Outbox → Type 0
Later k e after = (e' : OutboxEntry) × (get k after ≡ some e') × Becomes e e'

put-Later :
    (key k : ℕ) (a b e : OutboxEntry) (box : Outbox)
    → get key box ≡ some a
    → Becomes a b
    → get k box ≡ some e
    → Later k e (put key b box)
put-Later key k a b e box f s g = elim (Bool-cases (key == k)) [
  | inl h ↦
      let is_same : a ≡ e = ground (arith) in
      (b, ground (arith, get-put k key b box), subst (λ x. Becomes x b) is_same s)
  | inr h ↦ (e, ground (arith, get-put k key b box), stays refl)
]

confirm-Later :
    (s : OutboxStatus) (key outcome k : ℕ) (a e : OutboxEntry) (box after : Outbox)
    → get key box ≡ some a
    → a.status ≡ s
    → confirm s key outcome a box ≡ ok after
    → get k box ≡ some e
    → Later k e after
unfolding confirm
confirm-Later pending key outcome k a e box after f q h g =
    let is_after : put key (record a { status = confirmed; outcome_ref = some outcome }) box
        ≡ after =
      ground arith in
    subst (Later k e) is_after (
      put-Later key k a (record a { status = confirmed; outcome_ref = some outcome }) e box f
        (gets_confirmed outcome q refl) g)
confirm-Later confirmed key outcome k a e box after f q h g = (e, ground arith, stays refl)
confirm-Later abandoned key outcome k a e box after f q h g = absurd (ground arith)

abandon-Later :
    (s : OutboxStatus) (key k : ℕ) (a e : OutboxEntry) (box after : Outbox)
    → get key box ≡ some a
    → a.status ≡ s
    → abandon s key a box ≡ ok after
    → get k box ≡ some e
    → Later k e after
unfolding abandon
abandon-Later pending key k a e box after f q h g =
    let is_after : put key (record a { status = abandoned }) box ≡ after = ground arith in
    subst (Later k e) is_after
      (put-Later key k a (record a { status = abandoned }) e box f (gets_abandoned q refl) g)
abandon-Later abandoned key k a e box after f q h g = (e, ground arith, stays refl)
abandon-Later confirmed key k a e box after f q h g = absurd (ground arith)

record-Later :
    (entry : OutboxEntry) (k : ℕ) (e : OutboxEntry) (box after : Outbox)
    → record_pending entry box ≡ ok after
    → get k box ≡ some e
    → Later k e after
unfolding record_pending
record-Later entry k e box after h g = elim (Option-cases (get entry.idempotency_key box)) [
  | inl f ↦ (e, ground (arith, get-put k entry.idempotency_key entry box), stays refl)
  | inr (x, f) ↦ (e, ground (arith), stays refl)
]

call-Later :
    (c : Call) (k : ℕ) (e : OutboxEntry) (box after : Outbox)
    → call c box ≡ ok after
    → get k box ≡ some e
    → Later k e after
unfolding call mark_confirmed mark_abandoned
call-Later (records entry) k e box after h g = record-Later entry k e box after h g
call-Later (confirms key o) k e box after h g = elim (Option-cases (get key box)) [
  | inl f ↦ absurd (ground arith)
  | inr (a, f) ↦ confirm-Later a.status key o k a e box after f refl (ground arith) g
]
call-Later (abandons key) k e box after h g = elim (Option-cases (get key box)) [
  | inl f ↦ absurd (ground arith)
  | inr (a, f) ↦ abandon-Later a.status key k a e box after f refl (ground arith) g
]

-- Whatever calls follow, an entry that the outbox holds keeps its key and its identity, and is as it
-- was, or was pending and is now confirmed with an outcome or abandoned: a confirmed or abandoned entry
-- never changes again.
pub intent_is_kept :
    (cs : List Call) (k : ℕ) (e : OutboxEntry) (box : Outbox)
    → get k box ≡ some e
    → (e' : OutboxEntry) × (get k (run box cs) ≡ some e') × Becomes e e'
unfolding run
intent_is_kept [] k e box g = (e, g, stays refl)
intent_is_kept (c ∷ cs) k e box g = elim (Result-cases (call c box)) [
  | inl (after, h) ↦
      let (e', g', s) = call-Later c k e box after h g in
      let (e'', g'', t) = intent_is_kept cs k e' after g' in
      (e'', ground arith, Becomes-trans e e' e'' s t)
  | inr (x, h) ↦ let (e', g', s) = intent_is_kept cs k e box g in (e', ground arith, s)
]

status_of : (s : OutboxStatus) → is_pending s ≡ true → s ≡ pending
status_of pending h = refl
status_of confirmed h = absurd (ground arith)
status_of abandoned h = absurd (ground arith)

-- When an intent is accepted, the store holds under its key a pending intent of the same grant and
-- manifest hash.
pub record_pending_sound :
    (entry : OutboxEntry) (box after : Outbox)
    → record_pending entry box ≡ ok after
    → (e : OutboxEntry) × (get entry.idempotency_key after ≡ some e)
      × (e.status ≡ pending)
      × (e.grant_id ≡ entry.grant_id)
      × (e.manifest_hash ≡ entry.manifest_hash)
unfolding record_pending
record_pending_sound entry box after h = elim (Option-cases (get entry.idempotency_key box)) [
  | inl f ↦ (
    entry,
    ground (arith, get-put_self entry.idempotency_key entry box),
    status_of entry.status (ground arith),
    refl,
    refl,
  )
  | inr (e, f) ↦ (e, ground arith, status_of e.status (ground arith), ground arith, ground arith)
]

found_pending :
    (entry e : OutboxEntry) (box after : Outbox)
    → record_pending entry box ≡ ok after
    → get entry.idempotency_key box ≡ some e
    → e.status ≡ pending
unfolding record_pending
found_pending entry e box after h g = status_of e.status (ground arith)

-- Once an intent is confirmed or abandoned, no call can record an intent under its key again,
-- whatever calls come between.
pub no_second_intent :
    (cs : List Call) (entry e : OutboxEntry) (box after : Outbox)
    → get entry.idempotency_key box ≡ some e
    → e.status ≢ pending
    → record_pending entry (run box cs) ≢ ok after
no_second_intent cs entry e box after g n h =
    let (e', g', s) = intent_is_kept cs entry.idempotency_key e box g in
    let settled : e'.status ≢ pending = elim s [
      | stays q ↦ λ p. n (ground arith)
      | gets_confirmed o p q ↦ absurd (n p)
      | gets_abandoned p q ↦ absurd (n p)
    ] in
    settled (found_pending entry e' (run box cs) after h g')
