-- ===== src/Approval/Quorum.antt =====
-- approval/quorum.py: what a satisfied quorum means.
use chitragupta_protocol.Base.{
  In, ℕ, ◌≡◌, ◌≤◌, ◌⊎◌, refl, sym, subst, ◌∙◌, Bool, true, false, ◌||◌, ◌==◌, some, List, [], ◌∷◌,
  map, arith, leb, contains, length, All, Option-cases, Bool-cases, inl, inr,
}
use chitragupta_protocol.Base.Dict.{Dict, get, put}
use chitragupta_protocol.Errors.{ok}
use chitragupta_protocol.Saga.{is_unique}
use chitragupta_protocol.Approval.{
  is_approve, ApprovalStatement, ApprovalPolicy, QuorumResult, Ballot, is_rejected, survivors_of,
  is_later, winner, select_authoritative, insert_by_approver, voting, approver_ids, has_none,
  is_met, quorum_of, evaluate_quorum,
}

-- An approver is counted for a statement that was given, is not rejected, and approves.
pub record IsBacked (b : Ballot) (policy : ApprovalPolicy) (ss : List ApprovalStatement) (p : ℕ)
    : Type 0 where
  pub statement : ApprovalStatement
  pub given : In statement ss
  pub accepted : is_rejected b policy statement ≡ false
  pub approver : statement.approver.principal_id ≡ p
  pub approves : is_approve statement.decision ≡ true

abbrev keys_of : Dict ApprovalStatement → List ℕ
keys_of d = map (λ e. e.0) d

put-contains :
    (k j : ℕ) (s : ApprovalStatement) (d : Dict ApprovalStatement)
    → contains (keys_of (put k s d)) j ≡ (k == j || contains (keys_of d) j)
unfolding put
put-contains k j s [] = refl
put-contains k j s ((i, t) ∷ d) = ground (arith, put-contains k j s d)

put-is_unique :
    (k : ℕ) (s : ApprovalStatement) (d : Dict ApprovalStatement)
    → is_unique (keys_of d) ≡ true
    → is_unique (keys_of (put k s d)) ≡ true
unfolding put
put-is_unique k s [] h = refl
put-is_unique k s ((i, t) ∷ d) h = ground (arith, put-is_unique k s d, put-contains k i s d)

module _ (Q : ApprovalStatement → Type 0) where
  -- Each entry stands under its approver and is of the kind.
  Filed : Dict ApprovalStatement → Type 0
  Filed d = All (λ e. (e.1.approver.principal_id ≡ e.0) × Q e.1) d

  put-Filed :
      (s : ApprovalStatement) (d : Dict ApprovalStatement)
      → Q s
      → Filed d
      → Filed (put s.approver.principal_id s d)
  unfolding put Filed
  put-Filed s [] q f = ((refl, q), tt)
  put-Filed s ((i, t) ∷ d) q f = elim (Bool-cases (i == s.approver.principal_id)) [
    | inl e ↦ rw e ((refl, q), f.1)
    | inr e ↦ rw e (f.0, put-Filed s d q f.1)
  ]

  get-Filed :
      (k : ℕ) (s : ApprovalStatement) (d : Dict ApprovalStatement)
      → Filed d
      → get k d ≡ some s
      → (s.approver.principal_id ≡ k) × Q s
  unfolding get Filed
  get-Filed k s [] f h = absurd (ground arith)
  get-Filed k s ((i, t) ∷ d) f h = elim (Bool-cases (i == k)) [
    | inr e ↦ get-Filed k s d f.1 (ground arith)
    | inl e ↦
        let same : t ≡ s = ground arith in
        let key : i ≡ k = ground arith in rw (sym same) (f.0.0 ∙ key, f.0.1)
  ]

  -- The winner stands under the approver of the new statement.
  winner-Filed :
      (s : ApprovalStatement) (d : Dict ApprovalStatement)
      → Q s
      → Filed d
      → Filed (put s.approver.principal_id (winner (get s.approver.principal_id d) s) d)
  winner-Filed s d q f = elim (Option-cases (get s.approver.principal_id d)) [
    | inl e ↦ rw e (put-Filed s d q f)
    | inr (w, e) ↦
        let (key, kept) = get-Filed s.approver.principal_id w d f e in
        elim (Bool-cases (is_later s w)) [
          | inl l ↦ rw (e, l) (put-Filed s d q f)
          | inr l ↦ rw (e, l) (subst (λ k. Filed (put k w d)) key (put-Filed w d kept f))
        ]
  ]

  select-Filed :
      (ss : List ApprovalStatement) (d : Dict ApprovalStatement)
      → All Q ss
      → Filed d
      → Filed (select_authoritative ss d)
  unfolding select_authoritative
  select-Filed [] d a f = f
  select-Filed (s ∷ ss) d a f = select-Filed ss _ a.1 (winner-Filed s d a.0 f)

  insert_keeps :
      (s : ApprovalStatement) (ts : List ApprovalStatement)
      → Q s
      → All Q ts
      → All Q (insert_by_approver s ts)
  unfolding insert_by_approver
  insert_keeps s [] q a = (q, tt)
  insert_keeps s (t ∷ ts) q a =
      elim (Bool-cases (leb s.approver.principal_id t.approver.principal_id)) [
        | inl e ↦ rw e (q, a)
        | inr e ↦ rw e (a.0, insert_keeps s ts q a.1)
      ]

select-is_unique :
    (ss : List ApprovalStatement) (d : Dict ApprovalStatement)
    → is_unique (keys_of d) ≡ true
    → is_unique (keys_of (select_authoritative ss d)) ≡ true
unfolding select_authoritative
select-is_unique [] d h = h
select-is_unique (s ∷ ss) d h = select-is_unique ss _ (put-is_unique _ _ d h)

insert-contains :
    (s : ApprovalStatement) (ts : List ApprovalStatement) (j : ℕ)
    → contains (approver_ids (insert_by_approver s ts)) j
      ≡ (s.approver.principal_id == j || contains (approver_ids ts) j)
unfolding insert_by_approver
insert-contains s [] j = refl
insert-contains s (t ∷ ts) j = ground (arith, insert-contains s ts j)

insert-is_unique :
    (s : ApprovalStatement) (ts : List ApprovalStatement)
    → contains (approver_ids ts) s.approver.principal_id ≡ false
    → is_unique (approver_ids ts) ≡ true
    → is_unique (approver_ids (insert_by_approver s ts)) ≡ true
unfolding insert_by_approver
insert-is_unique s [] n h = refl
insert-is_unique s (t ∷ ts) n h =
    ground (arith, insert-is_unique s ts, insert-contains s ts t.approver.principal_id)

weaken :
    {P R : ApprovalStatement → Type 0} (ss : List ApprovalStatement)
    → ((s : ApprovalStatement) → P s → R s)
    → All P ss
    → All R ss
weaken [] f a = tt
weaken (s ∷ ss) f a = (f s a.0, weaken ss f a.1)

-- The statement was given and is not rejected.
Accepted : Ballot → ApprovalPolicy → List ApprovalStatement → ApprovalStatement → Type 0
Accepted b policy ss s = In s ss × (is_rejected b policy s ≡ false)

survivors-All :
    (b : Ballot) (policy : ApprovalPolicy) (ss : List ApprovalStatement)
    → All (Accepted b policy ss) (survivors_of b policy ss)
unfolding survivors_of Accepted
survivors-All b policy [] = tt
survivors-All b policy (s ∷ ss) =
    let rest : All (Accepted b policy (s ∷ ss)) (survivors_of b policy ss) =
      weaken (survivors_of b policy ss) (λ t a. (inr a.0, a.1)) (survivors-All b policy ss) in
    elim (Bool-cases (is_rejected b policy s)) [
      | inl e ↦ rw e rest
      | inr e ↦ rw e ((inl refl, e), rest)
    ]

module _ (Q : ApprovalStatement → Type 0) where
  approving-All :
      (d : Dict ApprovalStatement)
      → Filed Q d
      → All (λ s. Q s × (is_approve s.decision ≡ true)) (voting true d)
  unfolding voting Filed
  approving-All [] f = tt
  approving-All ((p, s) ∷ d) f = elim (Bool-cases (is_approve s.decision)) [
    | inl e ↦ rw e (
        insert_keeps (λ t. Q t × (is_approve t.decision ≡ true)) s (voting true d) (f.0.1, e)
          (approving-All d f.1))
    | inr e ↦ rw e (approving-All d f.1)
  ]

  unheld :
      (v : Bool) (d : Dict ApprovalStatement) (j : ℕ)
      → Filed Q d
      → contains (keys_of d) j ≡ false
      → contains (approver_ids (voting v d)) j ≡ false
  unfolding voting Filed
  unheld v [] j f h = refl
  unheld v ((p, s) ∷ d) j f h =
      ground (arith, f.0.0, unheld v d j f.1, insert-contains s (voting v d) j)

  voting-is_unique :
      (v : Bool) (d : Dict ApprovalStatement)
      → Filed Q d
      → is_unique (keys_of d) ≡ true
      → is_unique (approver_ids (voting v d)) ≡ true
  unfolding voting Filed
  voting-is_unique v [] f h = refl
  voting-is_unique v ((p, s) ∷ d) f h =
      ground
        (arith, f.0.0, voting-is_unique v d f.1, unheld v d p f.1, insert-is_unique s (voting v d))

approvers-All :
    (b : Ballot) (policy : ApprovalPolicy) (ss ts : List ApprovalStatement)
    → All (λ s. Accepted b policy ss s × (is_approve s.decision ≡ true)) ts
    → All (IsBacked b policy ss) (approver_ids ts)
unfolding Accepted
approvers-All b policy ss [] a = tt
approvers-All b policy ss (t ∷ ts) a = (
  record { statement = t; given = a.0.0.0; accepted = a.0.0.1; approver = refl; approves = a.0.1 },
  approvers-All b policy ss ts a.1,
)

length-ids : (ts : List ApprovalStatement) → length (approver_ids ts) ≡ length ts
length-ids [] = refl
length-ids (t ∷ ts) = ground (arith, length-ids ts)

nobody : (ts : List ApprovalStatement) → has_none ts ≡ true → approver_ids ts ≡ []
nobody [] h = refl
nobody (t ∷ ts) h = absurd (ground arith)

-- When an evaluation is satisfied, it counts at least as many approvers as the policy requires, no
-- two of them the same, and each for a statement that was given, is not rejected and approves; and
-- if any dissent is a veto, nobody dissents.
pub satisfied_sound :
    (b : Ballot) (policy : ApprovalPolicy) (ss : List ApprovalStatement) (r : QuorumResult)
    → evaluate_quorum b policy ss ≡ ok r
    → r.satisfied ≡ true
    → (policy.required_approvals ≤ length r.approving_principal_ids)
      × (is_unique r.approving_principal_ids ≡ true)
      × All (IsBacked b policy ss) r.approving_principal_ids
      × ((policy.veto_on_any_dissent ≡ false) ⊎ (r.dissenting_principal_ids ≡ []))
unfolding evaluate_quorum quorum_of is_met
satisfied_sound b policy ss r h met =
    let d = select_authoritative (survivors_of b policy ss) [] in
    let filed : Filed (Accepted b policy ss) d =
      select-Filed (Accepted b policy ss) (survivors_of b policy ss) [] (survivors-All b policy ss)
        (unfold Filed in tt) in
    let unique : is_unique (keys_of d) ≡ true =
      select-is_unique (survivors_of b policy ss) [] refl in
    let same : r ≡ quorum_of b policy ss d = ground arith in
    let reached : is_met policy b.now (voting true d) (voting false d) ≡ true = ground arith in
    rw same (
      ground (arith, length-ids (voting true d)),
      voting-is_unique (Accepted b policy ss) true d filed unique,
      approvers-All b policy ss (voting true d) (approving-All (Accepted b policy ss) d filed),
      elim (Bool-cases policy.veto_on_any_dissent) [
        | inr e ↦ inl e
        | inl e ↦ inr (nobody (voting false d) (ground arith))
      ],
    )
