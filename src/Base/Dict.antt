-- ===== src/Base/Dict.antt =====
-- A Python dict whose keys are numbers (identifiers are only compared): its entries in the order
-- of their first insertion.
use mathlib.Core.Logic.{◌≢◌}
use Prim.Native.Nat.{ℕ}
use mathlib.Core.Path.{◌≡◌, refl}
use mathlib.Core.Option.{Option, none, some}
use mathlib.Core.List.{List, [], ◌∷◌}
use native.Mathlib.Omega.{arith}
use chitragupta_protocol.Base.Tests.{◌==◌, if◌then◌else◌}

abbrev pub Dict {ℓ} : Type ℓ → Type ℓ
Dict V = List (ℕ × V)

module _ {ℓ} {V : Type ℓ} where
  -- `d.get(key)`
  unfoldable pub get : ℕ → Dict V → Option V
  get key [] = none
  get key ((k, v) ∷ d) = if k == key then some v else get key d

  -- `d[key] = v`
  unfoldable pub put : ℕ → V → Dict V → Dict V
  put key v [] = (key, v) ∷ []
  put key v ((k, w) ∷ d) = if k == key then (key, v) ∷ d else (k, w) ∷ put key v d

  pub get-put :
      (j key : ℕ) (v : V) (d : Dict V)
      → get j (put key v d) ≡ (if key == j then some v else get j d)
  unfolding get put
  get-put j key v [] = refl
  get-put j key v ((k, w) ∷ d) = ground (arith, get-put j key v d)

  pub get-put_self : (key : ℕ) (v : V) (d : Dict V) → get key (put key v d) ≡ some v
  get-put_self key v d = ground (arith, get-put key key v d)

  pub get-put_ne : (j key : ℕ) (v : V) (d : Dict V) → j ≢ key → get j (put key v d) ≡ get j d
  get-put_ne j key v d h = ground (arith, get-put j key v d)

  pub get-empty : (key : ℕ) → get key [] ≡ none
  unfolding get
  get-empty key = refl

  pub put-put : (key : ℕ) (v w : V) (d : Dict V) → put key v (put key w d) ≡ put key v d
  unfolding put
  put-put key v w [] = ground arith
  put-put key v w ((k, x) ∷ d) = ground (arith, put-put key v w d)

  -- To write what is there already changes nothing.
  pub put_present : (key : ℕ) (v : V) (d : Dict V) → get key d ≡ some v → put key v d ≡ d
  unfolding get put
  put_present key v [] h = absurd (ground arith)
  put_present key v ((k, x) ∷ d) h = ground (arith, put_present key v d)
