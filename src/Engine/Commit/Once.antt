-- ===== src/Engine/Commit/Once.antt =====
-- engine/core.py: reservations after a `commit`, and sequences of commits.
use chitragupta_protocol.Base.{
  ℕ, ◌+◌, ◌≡◌, ◌≢◌, refl, ap, ◌∙◌, Bool, true, false, Option, none, some, List, [], ◌∷◌, ◌++◌,
  arith, Option-cases, inl, inr, ◌==◌, if◌then◌else◌,
}
use chitragupta_protocol.Base.Dict.{get, get-put, get-put_self}
use chitragupta_protocol.Budget.{BudgetLedger}
use chitragupta_protocol.Engine.Checks.{Context, Request}
use chitragupta_protocol.Engine.Control.{Control}
use chitragupta_protocol.Engine.Commit.{outcome_of, commit}
use chitragupta_protocol.Engine.Commit.Settling.{slot_of, touched, used}
use chitragupta_protocol.Engine.Commit.Holding.{spent}
use chitragupta_protocol.Engine.Commit.Endings.{
  Cleared, Ending, kept, replayed, performs, reports_success, Return,
}
use chitragupta_protocol.Engine.Commit.Accounts.{commit_ends}
use chitragupta_protocol.GrantStore.{Slot, GrantStore, get_idempotent_outcome}

-- Whether a use of the grant is reserved.
abbrev pub is_held : Option Slot → Bool
is_held none = false
is_held (some slot) = slot.reserved

-- The amount that is reserved of a budget.
abbrev pub reserved_of : ℕ → Option BudgetLedger → Option ℕ
reserved_of id none = none
reserved_of id (some l) = get id l.reserved

touched-held :
    (j g m : ℕ) (st : GrantStore)
    → is_held (get j (touched g m st).slots) ≡ is_held (get j st.slots)
touched-held j g m st = ground (arith, get-put j g (slot_of g m st) st.slots)

used-held :
    (j g m key outcome : ℕ) (st : GrantStore)
    → is_held (get j (used g m key outcome st).slots) ≡ is_held (get j st.slots)
used-held j g m key outcome st =
    let slot : Slot = slot_of g m st in
    ground (arith, get-put j g (record slot { uses = slot.uses + 1 }) st.slots)

spent-reserved :
    (id : ℕ) (budget : Option (ℕ × ℕ)) (ledger : Option BudgetLedger)
    → reserved_of id (spent budget ledger) ≡ reserved_of id ledger
spent-reserved id none ledger = refl
spent-reserved id (some (b, amount)) none = refl
spent-reserved id (some (b, amount)) (some l) = elim (Option-cases (get b l.consumed)) [
  | inl e ↦ rw e refl
  | inr (x, e) ↦ rw e refl
]

ending-settled :
    (c : Context) (q : Request) (w : Control) (r : Return) (grant_id budget_id : ℕ)
    → Ending c q w r
    → (is_held (get grant_id r.1.grant_store.slots) ≡ is_held (get grant_id w.grant_store.slots))
      × (reserved_of budget_id r.1.budget_ledger ≡ reserved_of budget_id w.budget_ledger)
ending-settled c q w r j b (kept k) = (
  elim k.store [
    | inl e ↦ ap (λ (x : GrantStore). is_held (get j x.slots)) e
    | inr e ↦
        ap (λ (x : GrantStore). is_held (get j x.slots)) e
        ∙ touched-held j q.grant.grant_id q.grant.max_uses w.grant_store
  ],
  ap (reserved_of b) k.ledger,
)
ending-settled c q w r j b (replayed k) = (
  ap (λ (x : GrantStore). is_held (get j x.slots)) k.store
      ∙ used-held j q.grant.grant_id q.grant.max_uses q.sealed.manifest.idempotency_key k.outcome
          w.grant_store,
  ap (reserved_of b) k.ledger,
)
ending-settled c q w r j b (performs budget charged k) = (
  ap (λ (x : GrantStore). is_held (get j x.slots)) k.store
      ∙ used-held j q.grant.grant_id q.grant.max_uses q.sealed.manifest.idempotency_key
          (outcome_of k.answer.provider_reference) w.grant_store,
  ap (reserved_of b) k.ledger ∙ spent-reserved b budget w.budget_ledger,
)

-- However a commit ends, by a return or an exception, every grant is reserved exactly if it was before,
-- and of every budget as much is reserved as before: no reservation leaks, and no one else's is lost.
pub commit_leaves_no_reservation :
    (c : Context) (q : Request) (w : Control) (grant_id budget_id : ℕ)
    → (is_held (get grant_id (commit c q w).1.grant_store.slots)
        ≡ is_held (get grant_id w.grant_store.slots))
      × (reserved_of budget_id (commit c q w).1.budget_ledger
          ≡ reserved_of budget_id w.budget_ledger)
commit_leaves_no_reservation c q w j b = ending-settled c q w (commit c q w) j b (commit_ends c q w)

-- Commits, one after the other.
unfoldable pub commits : List (Context × Request) → Control → Control
commits [] w = w
commits ((c, q) ∷ cs) w = commits cs (commit c q w).1

-- How often an adapter's `commit` was called with the key.
unfoldable pub calls_with : ℕ → List ℕ → ℕ
calls_with key [] = 0
calls_with key (k ∷ ks) = (if k == key then 1 else 0) + calls_with key ks

calls_with-other :
    (key k : ℕ) (ks : List ℕ) → k ≢ key → calls_with key (ks ++ k ∷ []) ≡ calls_with key ks
unfolding calls_with
calls_with-other key k [] h = ground arith
calls_with-other key k (x ∷ ks) h = ground (arith, calls_with-other key k ks)

-- The outcome of the key is known, and the adapter was called so often with it.
abbrev pub IsSettled : ℕ → ℕ → Control → Type 0
IsSettled key n w =
    ((outcome : ℕ) × (get_idempotent_outcome key w.grant_store ≡ some outcome))
    × (calls_with key w.performed ≡ n)

used-known :
    (key g m k outcome : ℕ) (st : GrantStore) {o : ℕ}
    → get_idempotent_outcome key st ≡ some o
    → (o' : ℕ) × (get_idempotent_outcome key (used g m k outcome st) ≡ some o')
unfolding get_idempotent_outcome
used-known key g m k outcome st {o} h =
    (if k == key then outcome else o, ground (arith, get-put key k outcome st.idempotency))

-- A call of the adapter, which is only made where no outcome is known, is not made with the key.
Cleared-other :
    (c : Context) (q : Request) (w : Control) (key n o : ℕ) (performed : List ℕ)
    → Cleared c q w
    → performed ≡ w.performed ++ q.sealed.manifest.idempotency_key ∷ []
    → get_idempotent_outcome key w.grant_store ≡ some o
    → calls_with key w.performed ≡ n
    → calls_with key performed ≡ n
Cleared-other c q w key n o performed a s h e =
    let other : q.sealed.manifest.idempotency_key ≢ key =
      λ (x : q.sealed.manifest.idempotency_key ≡ key).
        let known : get_idempotent_outcome q.sealed.manifest.idempotency_key w.grant_store
            ≡ some o =
          rw x h in
        ground (arith, a.unknown) in
    ap (calls_with key) s
    ∙ calls_with-other key q.sealed.manifest.idempotency_key w.performed other
    ∙ e

ending-IsSettled :
    (c : Context) (q : Request) (w : Control) (r : Return) (key n : ℕ)
    → Ending c q w r
    → IsSettled key n w
    → IsSettled key n r.1
unfolding get_idempotent_outcome
ending-IsSettled c q w r key n (kept k) ((o, h), e) = (
  (
    o,
    elim k.store [
      | inl s ↦ ap (λ (x : GrantStore). get key x.idempotency) s ∙ h
      | inr s ↦ ap (λ (x : GrantStore). get key x.idempotency) s ∙ h
    ],
  ),
  elim k.calls [
    | inl s ↦ ap (calls_with key) s ∙ e
    | inr (a, s) ↦ Cleared-other c q w key n o r.1.performed a s h e
  ],
)
ending-IsSettled c q w r key n (replayed k) ((o, h), e) =
    let (o', h') =
      used-known key q.grant.grant_id q.grant.max_uses q.sealed.manifest.idempotency_key k.outcome
        w.grant_store h in
    (
      (o', ap (λ (x : GrantStore). get key x.idempotency) k.store ∙ h'),
      ap (calls_with key) k.not_performed ∙ e,
    )
ending-IsSettled c q w r key n (performs budget charged k) ((o, h), e) =
    let (o', h') =
      used-known key q.grant.grant_id q.grant.max_uses q.sealed.manifest.idempotency_key
        (outcome_of k.answer.provider_reference) w.grant_store h in
    (
      (o', ap (λ (x : GrantStore). get key x.idempotency) k.store ∙ h'),
      Cleared-other c q w key n o r.1.performed k.cleared k.once h e,
    )

pub commits-IsSettled :
    (cs : List (Context × Request)) (w : Control) (key n : ℕ)
    → IsSettled key n w
    → IsSettled key n (commits cs w)
unfolding commits
commits-IsSettled [] w key n s = s
commits-IsSettled ((c, q) ∷ cs) w key n s =
    commits-IsSettled cs (commit c q w).1 key n
      (ending-IsSettled c q w (commit c q w) key n (commit_ends c q w) s)

success-known :
    (c : Context) (q : Request) (w : Control) (r : Return)
    → Ending c q w r
    → reports_success r.0 ≡ true
    → (o : ℕ) × (get_idempotent_outcome q.sealed.manifest.idempotency_key r.1.grant_store ≡ some o)
unfolding get_idempotent_outcome
success-known c q w r (kept k) h = absurd (ground (arith, k.unsuccessful))
success-known c q w r (replayed k) h = (
  k.outcome,
  ap (λ (x : GrantStore). get q.sealed.manifest.idempotency_key x.idempotency) k.store
      ∙ get-put_self q.sealed.manifest.idempotency_key k.outcome w.grant_store.idempotency,
)
success-known c q w r (performs budget charged k) h = (
  outcome_of k.answer.provider_reference,
  ap (λ (x : GrantStore). get q.sealed.manifest.idempotency_key x.idempotency) k.store
      ∙ get-put_self q.sealed.manifest.idempotency_key (outcome_of k.answer.provider_reference)
          w.grant_store.idempotency,
)

-- Once a commit under an idempotency key has reported success, no adapter is called with that key
-- again, whatever commits follow, with whatever grants, manifests, adapters and contexts.
pub effect_at_most_once :
    (c : Context) (q : Request) (w : Control) (cs : List (Context × Request))
    → reports_success (commit c q w).0 ≡ true
    → calls_with q.sealed.manifest.idempotency_key (commits cs (commit c q w).1).performed
      ≡ calls_with q.sealed.manifest.idempotency_key (commit c q w).1.performed
effect_at_most_once c q w cs h =
    (commits-IsSettled cs (commit c q w).1 q.sealed.manifest.idempotency_key
      (calls_with q.sealed.manifest.idempotency_key (commit c q w).1.performed)
      (success-known c q w (commit c q w) (commit_ends c q w) h, refl)).1
