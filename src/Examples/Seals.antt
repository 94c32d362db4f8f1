-- ===== src/Examples/Seals.antt =====
-- protocol/sealing.py, policy/sealing.py, envelope/sealing.py and adapters/registry.py: what is sealed
-- verifies, and a registry after a few calls.
use chitragupta_protocol.Base.{ℕ, ◌*◌, ◌≡◌, ◌↔◌, refl, none, some, List, [], ◌∷◌, arith}
use chitragupta_protocol.Base.Dict.{get}
use chitragupta_protocol.Adapters.{require_adapter}
use chitragupta_protocol.Adapters.Trust.{Call, registers, revokes, run, promise, registry_refines}
use chitragupta_protocol.Crypto.{SigningKey, VerificationKey, Signing, IsKeyPair}
use chitragupta_protocol.Domain.{AdapterIdentity, ed25519}
use chitragupta_protocol.Errors.{ok, or_raise, untrusted_adapter_error}
use chitragupta_protocol.Manifest.{EffectManifest, seal_manifest, verify_seal}
use chitragupta_protocol.Manifest.Sealing.{seal-verify}
use chitragupta_protocol.Examples.{check, keys}
use chitragupta_protocol.Examples.Commits.{manifest}

abbrev signer : SigningKey
signer = record { key_id = 5; algorithm = ed25519; private_key = 56 }

abbrev public_part : VerificationKey
public_part = record { key_id = 5; algorithm = ed25519; public_key = 55 }

-- A signature is the digest.
abbrev sign : Signing
sign key digest = digest

is_pair : IsKeyPair check sign signer public_part
is_pair digest = ground arith

is_held : get 5 keys ≡ some public_part
unfolding get
is_held = refl

abbrev digest_of : EffectManifest → ℕ
digest_of m = m.manifest_id * 11

abbrev altered : EffectManifest
altered = record manifest { target_resource = 99 }

seal-verify_example :
    (verify_seal digest_of check
        (record (seal_manifest digest_of sign manifest signer 110) { manifest = altered })
        keys
      ≡ ok tt)
    ↔ (digest_of altered ≡ digest_of manifest)
seal-verify_example =
    seal-verify check sign digest_of keys signer public_part 110 manifest altered is_pair is_held

abbrev mailer : AdapterIdentity
mailer = record { adapter_id = 20; adapter_version = 1 }

abbrev calls_made : List Call
calls_made =
    registers (record { identity = mailer; supported_effect_types = 30 ∷ []; environments = [] })
    ∷ revokes mailer 160
    ∷ []

registry_refines_example :
    require_adapter mailer (run [] calls_made)
    ≡ or_raise (promise (λ _. none) calls_made mailer) untrusted_adapter_error
registry_refines_example = registry_refines calls_made mailer
