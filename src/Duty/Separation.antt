-- ===== src/Duty/Separation.antt =====
-- duty/enforcement.py and duty/roles.py: the check of the forbidden pairs of roles, and the roles
-- after a merge.
use chitragupta_protocol.Base.{
  ℕ, ◌≡◌, ◌≢◌, ◌↔◌, refl, sym, ◌∙◌, true, ◌||◌, ◌==◌, List, [], ◌∷◌, ◌++◌, map, arith, contains,
}
use chitragupta_protocol.Domain.{insert_text, dedupe_sorted}
use chitragupta_protocol.Duty.{
  same_pair, has_pair, insert_pair, sorted_pairs, RoleAssignment, holders, principals_for,
  SeparationOfDutyPolicy, SeparationOfDutyViolation, common, violations_of, no_violation,
  check_separation_of_duty,
}

-- The principal holds the role.
abbrev pub Holds : RoleAssignment → ℕ → ℕ → Type 0
Holds a role p = has_pair (role, p) a.assignments ≡ true

insert-contains :
    (a b : ℕ) (xs : List ℕ) → contains (insert_text a xs) b ≡ (a == b || contains xs b)
unfolding insert_text
insert-contains a b [] = ground arith
insert-contains a b (x ∷ xs) = ground (arith, insert-contains a b xs)

dedupe-contains : (b : ℕ) (xs : List ℕ) → contains (dedupe_sorted xs) b ≡ contains xs b
unfolding dedupe_sorted
dedupe-contains b [] = refl
dedupe-contains b (a ∷ xs) =
    ground (arith, insert-contains a b (dedupe_sorted xs), dedupe-contains b xs)

holders-contains :
    (role p : ℕ) (es : List (ℕ × ℕ)) → contains (holders role es) p ≡ has_pair (role, p) es
unfolding holders
holders-contains role p [] = refl
holders-contains role p ((r, q) ∷ es) = ground (arith, holders-contains role p es)

pub principals-contains :
    (role p : ℕ) (a : RoleAssignment)
    → contains (principals_for role a) p ≡ has_pair (role, p) a.assignments
unfolding principals_for
principals-contains role p a =
    dedupe-contains p (holders role a.assignments) ∙ holders-contains role p a.assignments

common_holds :
    (xs ys : List ℕ) (p : ℕ)
    → no_violation (common xs ys) ≡ true
    → contains xs p ≡ true
    → contains ys p ≢ true
unfolding common
common_holds [] ys p h k l = absurd (ground arith)
common_holds (x ∷ xs) ys p h k l = ground (arith, common_holds xs ys p)

common_empty :
    (xs ys : List ℕ)
    → ((p : ℕ) → contains xs p ≡ true → contains ys p ≢ true)
    → no_violation (common xs ys) ≡ true
unfolding common
common_empty [] ys h = refl
common_empty (x ∷ xs) ys h = ground (arith, h x, common_empty xs ys (λ p k. h p (ground arith)))

append-no_violation :
    (f : ℕ → SeparationOfDutyViolation) (xs : List ℕ) (vs : List SeparationOfDutyViolation)
    → (no_violation (map f xs ++ vs) ≡ true) ↔ ((no_violation xs ≡ true) × (no_violation vs ≡ true))
append-no_violation f [] vs = ground arith
append-no_violation f (x ∷ xs) vs = ground arith

-- No principal holds both roles of a pair of the list.
abbrev pub IsSeparated : RoleAssignment → List (ℕ × ℕ) → Type 0
IsSeparated a pairs =
    (role_a role_b p : ℕ)
    → has_pair (role_a, role_b) pairs ≡ true
    → Holds a role_a p
    → has_pair (role_b, p) a.assignments ≢ true

forth :
    (a : RoleAssignment) (pairs : List (ℕ × ℕ))
    → no_violation (violations_of a pairs) ≡ true
    → IsSeparated a pairs
unfolding violations_of
forth a [] h role_a role_b p m k l = absurd (ground arith)
forth a ((x, y) ∷ pairs) h role_a role_b p m k l =
    let (here, there) =
      (append-no_violation _ (common (principals_for x a) (principals_for y a))
          (violations_of a pairs)).0
        h in
    ground (
      arith,
      forth a pairs there role_a role_b p,
      common_holds (principals_for x a) (principals_for y a) p here,
      principals-contains x p a,
      principals-contains y p a,
    )

back :
    (a : RoleAssignment) (pairs : List (ℕ × ℕ))
    → IsSeparated a pairs
    → no_violation (violations_of a pairs) ≡ true
unfolding violations_of
back a [] s = refl
back a ((x, y) ∷ pairs) s =
    (append-no_violation _ (common (principals_for x a) (principals_for y a))
        (violations_of a pairs)).1
      (
        common_empty (principals_for x a) (principals_for y a) (λ p k l.
            s x y p (ground arith) (sym (principals-contains x p a) ∙ k)
              (sym (principals-contains y p a) ∙ l)),
        back a pairs (λ v w p m. s v w p (ground arith)),
      )

-- The check of an assignment is satisfied exactly if no principal holds both roles of a forbidden
-- pair of the policy.
pub satisfied_iff :
    (a : RoleAssignment) (policy : SeparationOfDutyPolicy)
    → ((check_separation_of_duty a policy).satisfied ≡ true)
      ↔ IsSeparated a policy.forbidden_role_pairs
unfolding check_separation_of_duty
satisfied_iff a policy =
    (λ h. forth a policy.forbidden_role_pairs h, λ s. back a policy.forbidden_role_pairs s)

insert-has_pair :
    (e f : ℕ × ℕ) (es : List (ℕ × ℕ))
    → has_pair f (insert_pair e es) ≡ (same_pair e f || has_pair f es)
unfolding insert_pair
insert-has_pair (a, b) (c, d) [] = refl
insert-has_pair (a, b) (c, d) ((x, y) ∷ es) = ground (arith, insert-has_pair (a, b) (c, d) es)

pub sorted-has_pair : (f : ℕ × ℕ) (es : List (ℕ × ℕ)) → has_pair f (sorted_pairs es) ≡ has_pair f es
unfolding sorted_pairs
sorted-has_pair f [] = refl
sorted-has_pair f (e ∷ es) =
    ground (arith, insert-has_pair e f (sorted_pairs es), sorted-has_pair f es)

pub append-has_pair :
    (f : ℕ × ℕ) (es fs : List (ℕ × ℕ)) → has_pair f es ≡ true → has_pair f (es ++ fs) ≡ true
append-has_pair f [] fs h = absurd (ground arith)
append-has_pair f (e ∷ es) fs h = ground (arith, append-has_pair f es fs)
