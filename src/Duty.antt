-- ===== src/Duty.antt =====
-- duty/roles.py, duty/policy.py and duty/enforcement.py: who held which role for a manifest, and the
-- pairs of roles that no principal may hold together. A role is its text; messages are left out.
pub mod Separation
use chitragupta_protocol.Base.{
  ℕ, Bool, true, false, Option, none, some, List, [], ◌∷◌, ◌++◌, map, ltb, leb, ◌==◌, ◌!=◌, ◌&&◌,
  ◌||◌, not, contains, length, if◌then◌else◌,
}
use chitragupta_protocol.Domain.{Texts, is_sized, dedupe_sorted}
use chitragupta_protocol.Errors.{
  role_assignment_error, value_error, Result, ok, err, raise_if, ◌>>=◌, ◌>>◌,
}

abbrev pub max_role_assignments : ℕ
max_role_assignments = 256

-- The texts of `ProtocolRole`, numbered in their alphabetical order.
abbrev pub approver_role : ℕ
approver_role = 101

abbrev pub assessor_role : ℕ
assessor_role = 102

abbrev pub auditor_role : ℕ
auditor_role = 103

abbrev pub compensator_role : ℕ
compensator_role = 104

abbrev pub executor_role : ℕ
executor_role = 105

abbrev pub proposer_role : ℕ
proposer_role = 106

abbrev pub resolver_role : ℕ
resolver_role = 107

abbrev pub sealer_role : ℕ
sealer_role = 108

abbrev pub verifier_role : ℕ
verifier_role = 109

abbrev pub witness_role : ℕ
witness_role = 110

abbrev pub valid_roles : List ℕ
valid_roles =
    proposer_role ∷ resolver_role ∷ assessor_role ∷ sealer_role ∷ approver_role ∷ executor_role
    ∷ verifier_role ∷ witness_role ∷ compensator_role ∷ auditor_role ∷ []

-- An entry of an assignment is a role and a principal; a pair of a policy is two roles.
abbrev pub same_pair : ℕ × ℕ → ℕ × ℕ → Bool
same_pair (a, b) (c, d) = a == c && b == d

abbrev pub lt_pair : ℕ × ℕ → ℕ × ℕ → Bool
lt_pair (a, b) (c, d) = ltb a c || (a == c && ltb b d)

abbrev pub has_pair : ℕ × ℕ → List (ℕ × ℕ) → Bool
has_pair e [] = false
has_pair e (f ∷ fs) = same_pair f e || has_pair e fs

-- `tuple(sorted(set(pairs)))`
unfoldable pub insert_pair : ℕ × ℕ → List (ℕ × ℕ) → List (ℕ × ℕ)
insert_pair e [] = e ∷ []
insert_pair e (f ∷ fs) =
    let rest = insert_pair e fs in
    if same_pair e f then f ∷ fs else if lt_pair e f then e ∷ f ∷ fs else f ∷ rest

unfoldable pub sorted_pairs : List (ℕ × ℕ) → List (ℕ × ℕ)
sorted_pairs [] = []
sorted_pairs (e ∷ es) = insert_pair e (sorted_pairs es)

pub record RoleAssignment : Type 0 where
  pub manifest_hash : ℕ
  pub assignments : List (ℕ × ℕ)

-- The loop of `RoleAssignment.__post_init__`.
unfoldable pub validate_entries : Texts → List (ℕ × ℕ) → List (ℕ × ℕ) → Result (Unit {0})
validate_entries texts seen [] = ok tt
validate_entries texts seen ((role, principal_id) ∷ es) = do
  raise_if (not (contains valid_roles role)) role_assignment_error
  raise_if (not (is_sized texts 256 principal_id)) role_assignment_error
  raise_if (has_pair (role, principal_id) seen) role_assignment_error
  validate_entries texts ((role, principal_id) ∷ seen) es

-- The construction of a `RoleAssignment`, `__post_init__` included.
unfoldable pub new_role_assignment : Texts → ℕ → List (ℕ × ℕ) → Result RoleAssignment
new_role_assignment texts manifest_hash assignments = do
  raise_if (not (texts.is_digest manifest_hash)) role_assignment_error
  raise_if (ltb max_role_assignments (length assignments)) role_assignment_error
  validate_entries texts [] assignments
  ok (record { manifest_hash = manifest_hash; assignments = assignments })

unfoldable pub holders : ℕ → List (ℕ × ℕ) → List ℕ
holders role [] = []
holders role ((r, principal_id) ∷ es) =
    let rest = holders role es in if r == role then principal_id ∷ rest else rest

unfoldable pub principals_for : ℕ → RoleAssignment → List ℕ
principals_for role a = dedupe_sorted (holders role a.assignments)

unfoldable pub merge : Texts → RoleAssignment → Option RoleAssignment → Result RoleAssignment
merge texts a none = ok a
merge texts a (some other) = do
  raise_if (other.manifest_hash != a.manifest_hash) role_assignment_error
  new_role_assignment texts a.manifest_hash (sorted_pairs (a.assignments ++ other.assignments))

unfoldable pub base_role_assignment : Texts → ℕ → ℕ → ℕ → List ℕ → Result RoleAssignment
base_role_assignment texts manifest_hash proposer_id executor_id approver_ids =
    new_role_assignment texts manifest_hash (
      sorted_pairs (
        (proposer_role, proposer_id)
        ∷ (executor_role, executor_id)
        ∷ map (λ approver_id. (approver_role, approver_id)) approver_ids))

abbrev pub max_forbidden_role_pairs : ℕ
max_forbidden_role_pairs = 64

pub record SeparationOfDutyPolicy : Type 0 where
  pub policy_id : ℕ
  pub policy_version : ℕ
  pub forbidden_role_pairs : List (ℕ × ℕ)

-- `_canonical_pair`
abbrev pub canonical_pair : ℕ × ℕ → ℕ × ℕ
canonical_pair (a, b) = if leb a b then (a, b) else (b, a)

-- The loop of `SeparationOfDutyPolicy.__post_init__`.
unfoldable pub validate_pairs : List (ℕ × ℕ) → List (ℕ × ℕ) → Result (Unit {0})
validate_pairs canonicalized [] = ok tt
validate_pairs canonicalized ((role_a, role_b) ∷ pairs) = do
  raise_if (not (contains valid_roles role_a) || not (contains valid_roles role_b)) value_error
  raise_if (role_a == role_b) value_error
  raise_if (has_pair (canonical_pair (role_a, role_b)) canonicalized) value_error
  validate_pairs (canonical_pair (role_a, role_b) ∷ canonicalized) pairs

-- `SeparationOfDutyPolicy.__post_init__`
unfoldable pub validate_separation_policy : Texts → SeparationOfDutyPolicy → Result (Unit {0})
validate_separation_policy texts policy = do
  raise_if (not (is_sized texts 128 policy.policy_id)) value_error
  raise_if (not (texts.has_dot policy.policy_version)) value_error
  raise_if (ltb max_forbidden_role_pairs (length policy.forbidden_role_pairs)) value_error
  validate_pairs [] policy.forbidden_role_pairs

pub record SeparationOfDutyViolation : Type 0 where
  pub role_a : ℕ
  pub role_b : ℕ
  pub principal_id : ℕ

pub record SeparationOfDutyResult : Type 0 where
  pub satisfied : Bool
  pub violations : List SeparationOfDutyViolation

-- `principals_a & principals_b`, in order
unfoldable pub common : List ℕ → List ℕ → List ℕ
common [] ys = []
common (x ∷ xs) ys = let rest = common xs ys in if contains ys x then x ∷ rest else rest

unfoldable pub violations_of : RoleAssignment → List (ℕ × ℕ) → List SeparationOfDutyViolation
violations_of a [] = []
violations_of a ((role_a, role_b) ∷ pairs) =
    map (λ principal_id. record { role_a = role_a; role_b = role_b; principal_id = principal_id })
      (common (principals_for role_a a) (principals_for role_b a))
    ++ violations_of a pairs

abbrev pub no_violation {ℓ} : {A : Type ℓ} → List A → Bool
no_violation [] = true
no_violation (x ∷ xs) = false

unfoldable pub check_separation_of_duty :
    RoleAssignment → SeparationOfDutyPolicy → SeparationOfDutyResult
check_separation_of_duty a policy =
    let violations = violations_of a policy.forbidden_role_pairs in
    record { satisfied = no_violation violations; violations = violations }
