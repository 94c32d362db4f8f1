-- ===== src/Crypto.antt =====
-- crypto/keyring.py and crypto/keys.py: the trusted keys and the verification of a signature. The
-- Ed25519 check itself, with the decoding of the signature's base64, is the `cryptography`
-- library's and Python's: a parameter, which takes the public key, the signed digest and the
-- signature.
use chitragupta_protocol.Base.{ℕ, ◌≡◌, Bool, true, not, [], ◌∷◌, ◌==◌, if◌then◌else◌, is_none}
use chitragupta_protocol.Base.Dict.{Dict, get, put}
use chitragupta_protocol.Errors.{
  unknown_key_error, invalid_signature_error, Result, or_raise, raise_if, ◌>>=◌,
}

pub record VerificationKey : Type 0 where
  pub key_id : ℕ
  pub algorithm : ℕ
  pub public_key : ℕ

abbrev pub SignatureCheck : Type 0
SignatureCheck = ℕ → ℕ → ℕ → Bool

-- The private part is a parameter's business: only `Signing` reads it.
pub record SigningKey : Type 0 where
  pub key_id : ℕ
  pub algorithm : ℕ
  pub private_key : ℕ

-- `SigningKey.sign`: of the private key and the digest.
abbrev pub Signing : Type 0
Signing = ℕ → ℕ → ℕ

-- What Ed25519 documents of a key pair: a signature by the private key verifies under the public one.
abbrev pub IsKeyPair : SignatureCheck → Signing → SigningKey → VerificationKey → Type 0
IsKeyPair check sign signer key =
    (digest : ℕ) → check key.public_key digest (sign signer.private_key digest) ≡ true

abbrev pub Keyring : Type 0
Keyring = Dict VerificationKey

unfoldable pub add_key : VerificationKey → Keyring → Keyring
add_key key keys = put key.key_id key keys

-- `self._keys.pop(key_id, None)`
unfoldable pub remove_key : ℕ → Keyring → Keyring
remove_key key_id [] = []
remove_key key_id ((k, key) ∷ keys) =
    let rest = remove_key key_id keys in if k == key_id then rest else (k, key) ∷ rest

unfoldable pub has_key : ℕ → Keyring → Bool
has_key key_id keys = not (is_none (get key_id keys))

unfoldable pub verify : SignatureCheck → Keyring → ℕ → ℕ → ℕ → Result (Unit {0})
verify check keys key_id digest signature = do
  key ← or_raise (get key_id keys) unknown_key_error
  raise_if (not (check key.public_key digest signature)) invalid_signature_error
