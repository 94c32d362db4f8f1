-- ===== src/Engine/Recovery/Revocation.antt =====
-- engine/core.py: what a revocation means for later commits.
use chitragupta_protocol.Base.{
  ℕ, ◌+◌, ◌≡◌, refl, sym, subst, ap, ◌∙◌, Bool, true, false, Option, none, some, List, [], ◌∷◌,
  arith, inl, inr,
}
use chitragupta_protocol.Base.Dict.{get, get-put, get-put_self}
use chitragupta_protocol.Engine.{transition_to}
use chitragupta_protocol.Engine.Checks.{Context, Request}
use chitragupta_protocol.Engine.Control.{Control, move}
use chitragupta_protocol.Engine.Commit.{commit, outcome_of}
use chitragupta_protocol.Engine.Commit.Authority.{commit_checks_or_refuses, IsTurnedDown}
use chitragupta_protocol.Engine.Commit.Endings.{Ending, kept, replayed, performs, Return}
use chitragupta_protocol.Engine.Commit.Accounts.{commit_ends}
use chitragupta_protocol.Engine.Commit.Once.{commits}
use chitragupta_protocol.Engine.Commit.Settling.{slot_of, touched, used}
use chitragupta_protocol.Engine.Recovery.{revoked_event, read_record, revoke_at, revoke_grant}
use chitragupta_protocol.Errors.{Result-cases}
use chitragupta_protocol.Grants.{ExecutionGrant}
use chitragupta_protocol.GrantStore.{
  Slot, slot_or, fresh_slot, GrantStore, get_idempotent_outcome, record_idempotent_outcome,
  is_revoked,
}
use chitragupta_protocol.GrantStore
use chitragupta_protocol.Lifecycle.{revoked}

-- What is_revoked reads of a slot.
abbrev revoked_slot : Option Slot → Bool
revoked_slot none = false
revoked_slot (some slot) = slot.revoked

abbrev IsRevoked : ℕ → GrantStore → Type 0
IsRevoked g st = revoked_slot (get g st.slots) ≡ true

touched-IsRevoked : (g h m : ℕ) (st : GrantStore) → IsRevoked g st → IsRevoked g (touched h m st)
touched-IsRevoked g h m st r = ground (arith, get-put g h (slot_of h m st) st.slots)

used-IsRevoked :
    (g h m key outcome : ℕ) (st : GrantStore)
    → IsRevoked g st
    → IsRevoked g (used h m key outcome st)
used-IsRevoked g h m key outcome st r =
    let slot : Slot = slot_of h m st in
    ground (arith, get-put g h (record slot { uses = slot.uses + 1 }) st.slots)

ending-IsRevoked :
    (c : Context) (q : Request) (w : Control) (r : Return) (g : ℕ)
    → Ending c q w r
    → IsRevoked g w.grant_store
    → IsRevoked g r.1.grant_store
ending-IsRevoked c q w r g (kept k) h = elim k.store [
  | inl e ↦ ap (λ (x : GrantStore). revoked_slot (get g x.slots)) e ∙ h
  | inr e ↦
      ap (λ (x : GrantStore). revoked_slot (get g x.slots)) e
      ∙ touched-IsRevoked g q.grant.grant_id q.grant.max_uses w.grant_store h
]
ending-IsRevoked c q w r g (replayed k) h =
    ap (λ (x : GrantStore). revoked_slot (get g x.slots)) k.store
    ∙ used-IsRevoked g q.grant.grant_id q.grant.max_uses q.sealed.manifest.idempotency_key k.outcome
        w.grant_store h
ending-IsRevoked c q w r g (performs budget charged k) h =
    ap (λ (x : GrantStore). revoked_slot (get g x.slots)) k.store
    ∙ used-IsRevoked g q.grant.grant_id q.grant.max_uses q.sealed.manifest.idempotency_key
        (outcome_of k.answer.provider_reference) w.grant_store h

commits-IsRevoked :
    (cs : List (Context × Request)) (w : Control) (g : ℕ)
    → IsRevoked g w.grant_store
    → IsRevoked g (commits cs w).grant_store
unfolding commits
commits-IsRevoked [] w g h = h
commits-IsRevoked ((c, q) ∷ cs) w g h =
    commits-IsRevoked cs (commit c q w).1 g
      (ending-IsRevoked c q w (commit c q w) g (commit_ends c q w) h)

revoke-IsRevoked : (g : ℕ) (st : GrantStore) → IsRevoked g (GrantStore.revoke g st)
unfolding GrantStore.revoke
revoke-IsRevoked g st =
    rw
      (get-put_self g (record (slot_or (get g st.slots) (fresh_slot 0)) { revoked = true })
        st.slots)
      refl

revoke_at-store :
    (c : Context) (m : ℕ) (b : Bool) (w : Control)
    → (revoke_at c m b w).1.grant_store ≡ w.grant_store
unfolding move
revoke_at-store c m true w =
    elim (Result-cases (transition_to m revoked revoked_event c.now_transition w.engine).0) [
      | inl (r, e) ↦ rw e refl
      | inr (x, e) ↦ rw e refl
    ]
revoke_at-store c m false w = refl

-- Once a grant is revoked, whatever commits follow, a commit with it calls no adapter and does not
-- report success.
pub revoked_grant_is_refused :
    (c c' : Context) (g : ExecutionGrant) (manifest_id : ℕ) (w : Control)
    (cs : List (Context × Request)) (q : Request)
    → q.grant.grant_id ≡ g.grant_id
    → IsTurnedDown
        (commits cs (revoke_grant c g manifest_id w).1)
        (commit c' q (commits cs (revoke_grant c g manifest_id w).1))
unfolding revoke_grant read_record is_revoked
revoked_grant_is_refused c c' g manifest_id w cs q same =
    let w1 : Control = (revoke_grant c g manifest_id w).1 in
    let revoked_now : IsRevoked g.grant_id w1.grant_store =
      subst (IsRevoked g.grant_id) (sym (revoke_at-store c manifest_id _ _))
        (revoke-IsRevoked g.grant_id w.grant_store) in
    let still : IsRevoked g.grant_id (commits cs w1).grant_store =
      commits-IsRevoked cs w1 g.grant_id revoked_now in
    elim (commit_checks_or_refuses c' q (commits cs w1)) [
      | inr r ↦ r
      | inl i ↦ absurd (ground (arith, i.unrevoked))
    ]
