-- ===== src/Base/Lists.antt =====
-- Lists measured and indexed by native numbers, membership tests and predicates on all elements.
use Prim.Native.Nat.{ℕ, zero, suc, ◌+◌}
use mathlib.Core.Path.{◌≡◌, refl, ap}
use mathlib.Core.Logic.{ite, ◌⊎◌, inl, inr}
use mathlib.Core.Bool.{Bool, true, false, ◌||◌, ◌&&◌}
use mathlib.Core.List.{List, [], ◌∷◌, ◌++◌}
use mathlib.Core.Option.{Option, none, some}
use native.Mathlib.Omega.{arith}
use chitragupta_protocol.Base.Tests.{◌==◌}

module _ {ℓ} {A : Type ℓ} where
  abbrev pub length : List A → ℕ
  length [] = 0
  length (x ∷ xs) = suc (length xs)

  abbrev pub get_elem? : List A → ℕ → Option A
  get_elem? [] i = none
  get_elem? (x ∷ xs) zero = some x
  get_elem? (x ∷ xs) (suc i) = get_elem? xs i

  -- A write out of bounds changes nothing.
  abbrev pub set : List A → ℕ → A → List A
  set [] i v = []
  set (x ∷ xs) zero v = v ∷ xs
  set (x ∷ xs) (suc i) v = x ∷ set xs i v

  pub length-append : (xs ys : List A) → length (xs ++ ys) ≡ length xs + length ys
  length-append [] ys = omega arith
  length-append (x ∷ xs) ys = omega (arith, length-append xs ys)

  pub length-set : (xs : List A) (i : ℕ) (v : A) → length (set xs i v) ≡ length xs
  length-set [] i v = refl
  length-set (x ∷ xs) zero v = refl
  length-set (x ∷ xs) (suc i) v = ap suc (length-set xs i v)

  abbrev pub all_of : (A → Bool) → List A → Bool
  all_of p [] = true
  all_of p (x ∷ xs) = p x && all_of p xs

  abbrev pub any_of : (A → Bool) → List A → Bool
  any_of p [] = false
  any_of p (x ∷ xs) = p x || any_of p xs

  -- Every element satisfies the predicate.
  abbrev pub All {κ} : (A → Type κ) → List A → Type κ
  All P [] = Unit
  All P (x ∷ xs) = P x × All P xs

-- The element is in the list.
abbrev pub In : {A : Type 0} → A → List A → Type 0
In x [] = ⊥
In x (y ∷ ys) = (x ≡ y) ⊎ In x ys

pub In-append_self : {A : Type 0} (x : A) (xs : List A) → In x (xs ++ x ∷ [])
In-append_self x [] = inl refl
In-append_self x (y ∷ xs) = inr (In-append_self x xs)

pub In-append : {A : Type 0} (x : A) (xs ys : List A) → In x xs → In x (xs ++ ys)
In-append x [] ys h = absurd h
In-append x (y ∷ xs) ys (inl e) = inl e
In-append x (y ∷ xs) ys (inr h) = inr (In-append x xs ys h)

-- A list is empty or has a last element.
pub last-cases {ℓ} :
    {A : Type ℓ} (xs : List A) → (xs ≡ []) ⊎ ((ys : List A) × (y : A) × (xs ≡ ys ++ y ∷ []))
last-cases [] = inl refl
last-cases (x ∷ xs) = elim (last-cases xs) [
  | inl e ↦ inr ([], x, ap (λ zs. x ∷ zs) e)
  | inr (ys, y, e) ↦ inr (x ∷ ys, y, ap (λ zs. x ∷ zs) e)
]

-- `x in xs`, on numbers, and `set(xs).issubset(ys)`.
abbrev pub contains : List ℕ → ℕ → Bool
contains [] a = false
contains (x ∷ xs) a = x == a || contains xs a

abbrev pub is_subset : List ℕ → List ℕ → Bool
is_subset xs ys = all_of (contains ys) xs

pub contains_of_subset :
    (xs ys : List ℕ) (a : ℕ) → is_subset xs ys ≡ true → contains xs a ≡ true → contains ys a ≡ true
contains_of_subset [] ys a h k = cc
contains_of_subset (x ∷ xs) ys a h k = ground (arith, contains_of_subset xs ys a)

pub subset_of_contains :
    (xs ys : List ℕ)
    → ((a : ℕ) → contains xs a ≡ true → contains ys a ≡ true)
    → is_subset xs ys ≡ true
subset_of_contains [] ys h = refl
subset_of_contains (x ∷ xs) ys h =
    ground (arith, h x, subset_of_contains xs ys (λ a k. h a (ground arith)))

-- A decision as a Boolean: `a == b`, by a decision of equality.
abbrev pub same {ℓ} : {A : Type ℓ} → Discrete A → A → A → Bool
same dec a b = ite (dec a b) true false

-- `x in xs`, by a decision of equality.
abbrev pub member {ℓ} : {A : Type ℓ} → Discrete A → A → List A → Bool
member dec a [] = false
member dec a (x ∷ xs) = ite (dec a x) true (member dec a xs)
