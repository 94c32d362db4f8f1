-- ===== src/Delegation/Revocation.antt =====
-- delegation/revocation.py: the walk up the recorded lineage finds every revoked ancestor.
use chitragupta_protocol.Base.{
  ℕ, zero, suc, ◌≤◌, ◌≡◌, ◌≢◌, refl, ◌∙◌, subst, true, false, Option, none, some, List, [], ◌∷◌,
  ◌++◌, arith, length, contains, Option-cases, inl, inr,
}
use mathlib.Core.List.{append-nil, append_assoc}
use chitragupta_protocol.Base.Dict.{get}
use chitragupta_protocol.Errors.{ok}
use chitragupta_protocol.Grants.{ExecutionGrant}
use chitragupta_protocol.GrantStore.{GrantStore, is_revoked, get_parent_grant_id, has_lineage}
use chitragupta_protocol.Delegation.{walk, assert_no_revoked_ancestors}

-- The grants above a given parent pointer, by the recorded lineage.
pub data Above (store : GrantStore) : Option ℕ → ℕ → Type 0 where
  here : (g : ℕ) → Above store (some g) g
  up : (g : ℕ) {a : ℕ} → Above store (get_parent_grant_id g store) a → Above store (some g) a

-- The list is the whole line from a parent pointer up to a grant without a parent pointer, and no one
-- in it is revoked.
abbrev pub IsClearLine : GrantStore → Option ℕ → List ℕ → Type 0
IsClearLine store none [] = Unit
IsClearLine store none (x ∷ xs) = ⊥
IsClearLine store (some g) [] = ⊥
IsClearLine store (some g) (x ∷ xs) =
    (x ≡ g) × (is_revoked g store ≡ false) × IsClearLine store (get_parent_grant_id g store) xs

-- The lineage of each of the grants is recorded.
abbrev pub IsRecorded : GrantStore → List ℕ → Type 0
IsRecorded store [] = Unit
IsRecorded store (x ∷ xs) = (has_lineage x store ≡ true) × IsRecorded store xs

line-Above :
    (store : GrantStore) {o : Option ℕ} {a : ℕ}
    → Above store o a
    → (xs : List ℕ) → IsClearLine store o xs
    → is_revoked a store ≡ false
line-Above store (here g) [] c = absurd c
line-Above store (here g) (x ∷ xs) c = c.1
line-Above store (up g r) [] c = absurd c
line-Above store (up g r) (x ∷ xs) c = line-Above store r xs c.2

walk_line :
    (store : GrantStore) (left : ℕ) (o : Option ℕ) (seen checked found : List ℕ)
    → walk store left o seen checked ≡ ok found
    → (xs : List ℕ) × (found ≡ checked ++ xs)
      × IsClearLine store o xs
      × IsRecorded store xs
      × (length xs ≤ left)
unfolding walk get_parent_grant_id has_lineage
walk_line store left none seen checked found h =
    ([], ground (arith, append-nil checked), tt, tt, omega arith)
walk_line store zero (some g) seen checked found h = absurd (ground arith)
walk_line store (suc left) (some g) seen checked found h =
    let rest : walk store left (get_parent_grant_id g store) (g ∷ seen) (checked ++ g ∷ [])
        ≡ ok found =
      ground arith in
    let known : has_lineage g store ≡ true = elim (Option-cases (get g store.lineage)) [
      | inl q ↦ absurd (ground arith)
      | inr (p, q) ↦ rw q refl
    ] in
    let (xs, e, line, recorded, short) =
      walk_line store left (get_parent_grant_id g store) (g ∷ seen) (checked ++ g ∷ []) found
        rest in
    (
      g ∷ xs,
      e ∙ append_assoc checked (g ∷ []) xs,
      (refl, ground arith, line),
      (known, recorded),
      omega arith,
    )

-- If the search passes, the ancestors that it returns are the whole recorded line from the grant's
-- parent up to a grant without a parent, the lineage of each of them is on record and none is revoked,
-- and there are at most `max_depth` of them, which is at most 16.
pub no_revoked_ancestors_sound :
    (g : ExecutionGrant) (store : GrantStore) (max_depth : ℕ) {found : List ℕ}
    → assert_no_revoked_ancestors g store max_depth ≡ ok found
    → IsClearLine store g.parent_grant_id found
      × IsRecorded store found
      × (length found ≤ max_depth)
      × (max_depth ≤ 16)
unfolding assert_no_revoked_ancestors
no_revoked_ancestors_sound g store max_depth {found} h =
    let passed : walk store max_depth g.parent_grant_id (g.grant_id ∷ []) [] ≡ ok found =
      ground arith in
    let (xs, e, line, recorded, short) =
      walk_line store max_depth g.parent_grant_id (g.grant_id ∷ []) [] found passed in
    let clear : IsClearLine store g.parent_grant_id found = rw e line in
    (clear, rw e recorded, rw e short, ground arith)

-- If a grant that the recorded lineage puts above a grant, at any distance, is revoked, the search
-- passes for no depth and no result.
pub revoked_ancestor_blocks :
    (g : ExecutionGrant) (store : GrantStore) (a max_depth : ℕ) (found : List ℕ)
    → Above store g.parent_grant_id a
    → is_revoked a store ≡ true
    → assert_no_revoked_ancestors g store max_depth ≢ ok found
revoked_ancestor_blocks g store a max_depth found r v h =
    let (clear, recorded, short, low) = no_revoked_ancestors_sound g store max_depth h in
    ground (arith, line-Above store r found clear)

-- No grant met twice: not in `seen`, and none of the list again.
abbrev pub IsFresh : List ℕ → List ℕ → Type 0
IsFresh seen [] = Unit
IsFresh seen (x ∷ xs) = (contains seen x ≡ false) × IsFresh (x ∷ seen) xs

walk_passes :
    (store : GrantStore) (left : ℕ) (o : Option ℕ) (seen checked xs : List ℕ)
    → IsClearLine store o xs
    → IsFresh seen xs
    → IsRecorded store xs
    → length xs ≤ left
    → walk store left o seen checked ≡ ok (checked ++ xs)
unfolding walk
walk_passes store left none seen checked [] c f r h = ground (arith, append-nil checked)
walk_passes store left none seen checked (x ∷ xs) c f r h = absurd c
walk_passes store left (some g) seen checked [] c f r h = absurd c
walk_passes store zero (some g) seen checked (x ∷ xs) c f r h = absurd (omega arith)
walk_passes store (suc left) (some g) seen checked (x ∷ xs) c f r h =
    let fresh : IsFresh (g ∷ seen) xs = subst (λ y. IsFresh (y ∷ seen) xs) c.0 f.1 in
    ground (
      arith,
      walk_passes store left (get_parent_grant_id g store) (g ∷ seen) (checked ++ g ∷ []) xs c.2
          fresh r.1,
      append_assoc checked (g ∷ []) xs,
    )

-- The search passes whenever the recorded line from the grant's parent to a root is recorded for
-- every grant of it, names no revoked grant, meets no grant twice and is no longer than `max_depth`.
pub no_revoked_ancestors_complete :
    (g : ExecutionGrant) (store : GrantStore) (max_depth : ℕ) (xs : List ℕ)
    → 1 ≤ max_depth
    → max_depth ≤ 16
    → IsClearLine store g.parent_grant_id xs
    → IsFresh (g.grant_id ∷ []) xs
    → IsRecorded store xs
    → length xs ≤ max_depth
    → assert_no_revoked_ancestors g store max_depth ≡ ok xs
unfolding assert_no_revoked_ancestors
no_revoked_ancestors_complete g store max_depth xs low high c f r h =
    ground (arith, walk_passes store max_depth g.parent_grant_id (g.grant_id ∷ []) [] xs c f r h)
