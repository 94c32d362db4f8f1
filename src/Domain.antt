-- ===== src/Domain.antt =====
-- domain/enums.py, domain/common.py and protocol/versioning.py: the values that manifests, grants and
-- budgets share. Texts (identifiers, digests, currencies) are only compared, so a text is a number,
-- and the number 0 is the empty text.
use chitragupta_protocol.Base.{
  ℕ, Bool, true, false, List, [], ◌∷◌, ◌!=◌, ◌==◌, ltb, leb, ◌&&◌, if◌then◌else◌,
}
use chitragupta_protocol.Errors.{
  schema_version_error, unsupported_algorithm_error, Result, ok, err, raise_if, ◌>>=◌,
}

pub data PrincipalType : Type 0 where
  human service agent : PrincipalType

pub PrincipalType-discrete : Discrete PrincipalType
PrincipalType-discrete = hlevel

-- `display_name` is shown to people only.
pub record Principal : Type 0 where
  pub principal_id : ℕ
  pub principal_type : PrincipalType

abbrev pub is_agent : PrincipalType → Bool
is_agent agent = true
is_agent _ = false

pub record AdapterIdentity : Type 0 where
  pub adapter_id : ℕ
  pub adapter_version : ℕ

-- Integer minor units, validated to be at least 0.
pub record MonetaryAmount : Type 0 where
  pub currency : ℕ
  pub minor_units : ℕ

-- A `schema_version` text: one that is not MAJOR.MINOR with digits only, or its two parts.
pub data SchemaVersion : Type 0 where
  malformed : SchemaVersion
  version : ℕ → ℕ → SchemaVersion

-- The text "1", the one member of `SUPPORTED_MAJOR_VERSIONS`.
abbrev pub supported_major : ℕ
supported_major = 1

unfoldable pub parse_major : SchemaVersion → Result ℕ
parse_major malformed = err schema_version_error
parse_major (version major minor) = ok major

unfoldable pub assert_supported_schema_version : SchemaVersion → Result (Unit {0})
unfolding parse_major
assert_supported_schema_version v = do
  major ← parse_major v
  raise_if (major != supported_major) schema_version_error

-- The text "ed25519", the one member of `SUPPORTED_ALGORITHMS`.
abbrev pub ed25519 : ℕ
ed25519 = 25519

unfoldable pub assert_supported_algorithm : ℕ → Result (Unit {0})
assert_supported_algorithm algorithm = raise_if (algorithm != ed25519) unsupported_algorithm_error

-- What Python tells of a text: its length, whether it is `sha256:` and 64 characters, and whether it
-- has a dot.
pub record Texts : Type 0 where
  pub length : ℕ → ℕ
  pub is_digest : ℕ → Bool
  pub has_dot : ℕ → Bool

-- `1 <= len(text) <= most`
abbrev pub is_sized : Texts → ℕ → ℕ → Bool
is_sized texts most a = leb 1 (texts.length a) && leb (texts.length a) most

-- `tuple(sorted(set(values)))`. The texts of a run are numbered in their order.
unfoldable pub insert_text : ℕ → List ℕ → List ℕ
insert_text a [] = a ∷ []
insert_text a (x ∷ xs) =
    let rest = insert_text a xs in
    if a == x then x ∷ xs else if ltb a x then a ∷ x ∷ xs else x ∷ rest

unfoldable pub dedupe_sorted : List ℕ → List ℕ
dedupe_sorted [] = []
dedupe_sorted (a ∷ xs) = insert_text a (dedupe_sorted xs)
