-- ===== src/Saga/Split.antt =====
-- saga/machine.py: a list of steps split at one of them: reads, writes and searches.
use chitragupta_protocol.Base.{
  ℕ, suc, ◌+◌, ◌≡◌, refl, ap, inl, inr, Bool, true, false, not, some, List, [], ◌∷◌, ◌++◌, arith,
  length, length-append, get_elem?, set, all_of, contains, leb, ◌==◌, Bool-cases,
}
use chitragupta_protocol.Errors.{ok}
use chitragupta_protocol.Saga.{SagaStepStatus, SagaStepRecord, SagaRun, authorized, is_unique}
use chitragupta_protocol.Saga.Machine.{
  find_step, replace_step, is_done, done_indices, max_of, done_below,
}
use chitragupta_protocol.Saga.Session.{reopen}

pub set_at {ℓ} :
    {A : Type ℓ} (xs : List A) (y z : A) (zs : List A)
    → set (xs ++ y ∷ zs) (length xs) z ≡ xs ++ z ∷ zs
set_at [] y z zs = refl
set_at (x ∷ xs) y z zs = ap (λ l. x ∷ l) (set_at xs y z zs)

pub get_at {ℓ} :
    {A : Type ℓ} (xs : List A) (y : A) (zs : List A) → get_elem? (xs ++ y ∷ zs) (length xs) ≡ some y
get_at [] y zs = refl
get_at (x ∷ xs) y zs = get_at xs y zs

pub in_bounds {ℓ} :
    {A : Type ℓ} (xs : List A) (y : A) (zs : List A)
    → leb (length (xs ++ y ∷ zs)) (length xs) ≡ false
in_bounds xs y zs = ground (arith, length-append xs (y ∷ zs))

pub replace_at :
    (run : SagaRun) (xs : List SagaStepRecord) (y z : SagaStepRecord) (zs : List SagaStepRecord)
    → run.steps ≡ xs ++ y ∷ zs
    → replace_step run (length xs) z ≡ ok (record run { steps = xs ++ z ∷ zs })
unfolding replace_step
replace_at run xs y z zs e = ground (arith, e, in_bounds xs y zs, set_at xs y z zs)

-- The steps count from `i`.
abbrev pub IsIndexed : ℕ → List SagaStepRecord → Type 0
IsIndexed i [] = Unit
IsIndexed i (s ∷ ss) = (s.index ≡ i) × IsIndexed (suc i) ss

abbrev pub hashes_of : List SagaStepRecord → List ℕ
hashes_of [] = []
hashes_of (s ∷ ss) = s.manifest_hash ∷ hashes_of ss

pub index_at :
    (i : ℕ) (xs : List SagaStepRecord) (y : SagaStepRecord) (zs : List SagaStepRecord)
    → IsIndexed i (xs ++ y ∷ zs)
    → y.index ≡ i + length xs
index_at i [] y zs h = omega (arith, h.0)
index_at i (x ∷ xs) y zs h = omega (arith, index_at (suc i) xs y zs h.1)

pub set-IsIndexed :
    (i : ℕ) (xs : List SagaStepRecord) (y z : SagaStepRecord) (zs : List SagaStepRecord)
    → z.index ≡ y.index
    → IsIndexed i (xs ++ y ∷ zs)
    → IsIndexed i (xs ++ z ∷ zs)
set-IsIndexed i [] y z zs e h = (omega (arith, e, h.0), h.1)
set-IsIndexed i (x ∷ xs) y z zs e h = (h.0, set-IsIndexed (suc i) xs y z zs e h.1)

pub hashes_of-set :
    (xs : List SagaStepRecord) (y z : SagaStepRecord) (zs : List SagaStepRecord)
    → z.manifest_hash ≡ y.manifest_hash
    → hashes_of (xs ++ z ∷ zs) ≡ hashes_of (xs ++ y ∷ zs)
hashes_of-set [] y z zs e = ap (λ h. h ∷ hashes_of zs) e
hashes_of-set (x ∷ xs) y z zs e = ap (λ l. x.manifest_hash ∷ l) (hashes_of-set xs y z zs e)

contains-middle :
    (xs : List SagaStepRecord) (y : SagaStepRecord) (zs : List SagaStepRecord)
    → contains (hashes_of (xs ++ y ∷ zs)) y.manifest_hash ≡ true
contains-middle [] y zs = ground arith
contains-middle (x ∷ xs) y zs = ground (arith, contains-middle xs y zs)

-- With distinct hashes, a step is the first with its hash.
pub find_unique :
    (xs : List SagaStepRecord) (y : SagaStepRecord) (zs : List SagaStepRecord)
    → is_unique (hashes_of (xs ++ y ∷ zs)) ≡ true
    → find_step (xs ++ y ∷ zs) y.manifest_hash ≡ some y
find_unique [] y zs u = ground arith
find_unique (x ∷ xs) y zs u =
    ground (arith, contains-middle xs y zs, find_unique xs y zs (ground arith))

-- A search result stands where its index says.
pub find_at :
    (i : ℕ) (ss : List SagaStepRecord) (h : ℕ) (s : SagaStepRecord)
    → IsIndexed i ss
    → find_step ss h ≡ some s
    → (j : ℕ) × (s.index ≡ i + j) × (get_elem? ss j ≡ some s)
find_at i [] h s x f = absurd (ground arith)
find_at i (y ∷ ss) h s x f = elim (Bool-cases (y.manifest_hash == h)) [
  | inl e ↦ (0, ground (arith, x.0), ground arith)
  | inr e ↦
      let (j, p, q) = find_at (suc i) ss h s x.1 (ground arith) in (suc j, omega (arith, p), q)
]

-- No step of the list has a status with the property.
abbrev pub is_clear : (SagaStepStatus → Bool) → List SagaStepRecord → Bool
is_clear p ss = all_of (λ s. not (p s.status)) ss

pub is_clear-append :
    (p : SagaStepStatus → Bool) (xs ys : List SagaStepRecord)
    → is_clear p xs ≡ true
    → is_clear p ys ≡ true
    → is_clear p (xs ++ ys) ≡ true
is_clear-append p [] ys h k = k
is_clear-append p (x ∷ xs) ys h k = ground (arith, is_clear-append p xs ys)

pub find-clear :
    (p : SagaStepStatus → Bool) (ss : List SagaStepRecord) (h : ℕ) (s : SagaStepRecord)
    → is_clear p ss ≡ true
    → find_step ss h ≡ some s
    → p s.status ≡ false
find-clear p [] h s c f = absurd (ground arith)
find-clear p (x ∷ ss) h s c f = ground (arith, find-clear p ss h s)

-- A search result with the property, in a list with one step that may have it, is that step.
pub find_current :
    (p : SagaStepStatus → Bool) (xs : List SagaStepRecord) (y : SagaStepRecord)
    (zs : List SagaStepRecord) (h : ℕ) (s : SagaStepRecord)
    → is_clear p xs ≡ true
    → is_clear p zs ≡ true
    → p s.status ≡ true
    → find_step (xs ++ y ∷ zs) h ≡ some s
    → s ≡ y
find_current p [] y zs h s c d q f = ground (arith, find-clear p zs h s d)
find_current p (x ∷ xs) y zs h s c d q f = ground (arith, find_current p xs y zs h s)

pub reopen_absent :
    (h : ℕ) (ss : List SagaStepRecord) → contains (hashes_of ss) h ≡ false → reopen h ss ≡ ss
unfolding reopen
reopen_absent h [] n = refl
reopen_absent h (s ∷ ss) n = ground (arith, reopen_absent h ss)

pub reopen_at :
    (xs : List SagaStepRecord) (y : SagaStepRecord) (zs : List SagaStepRecord)
    → is_unique (hashes_of (xs ++ y ∷ zs)) ≡ true
    → reopen y.manifest_hash (xs ++ y ∷ zs)
      ≡ xs ++ record y { status = authorized; is_ambiguous = false } ∷ zs
unfolding reopen
reopen_at [] y zs u = ground (arith, reopen_absent y.manifest_hash zs)
reopen_at (x ∷ xs) y zs u =
    ground (arith, contains-middle xs y zs, reopen_at xs y zs (ground arith))

pub done_indices-clear :
    (ss : List SagaStepRecord) → is_clear is_done ss ≡ true → done_indices ss ≡ []
unfolding done_indices
done_indices-clear [] c = refl
done_indices-clear (s ∷ ss) c = ground (arith, done_indices-clear ss)

-- The last of the done steps, when all before it are done and none after it.
pub max_done :
    (i : ℕ) (xs : List SagaStepRecord) (y : SagaStepRecord) (zs : List SagaStepRecord)
    → IsIndexed i (xs ++ y ∷ zs)
    → is_done y.status ≡ true
    → is_clear is_done zs ≡ true
    → max_of (done_indices (xs ++ y ∷ zs)) ≡ some (i + length xs)
unfolding done_indices max_of
max_done i [] y zs x d c = ground (arith, done_indices-clear zs c, x.0)
max_done i (s ∷ xs) y zs x d c = ground (arith, max_done (suc i) xs y zs x.1 d c, x.0)

pub done_below-clear :
    (i : ℕ) (ss : List SagaStepRecord) → is_clear is_done ss ≡ true → done_below i ss ≡ []
unfolding done_below
done_below-clear i [] c = refl
done_below-clear i (s ∷ ss) c = ground (arith, done_below-clear i ss)

pub max_below :
    (i k : ℕ) (xs : List SagaStepRecord) (y : SagaStepRecord) (zs : List SagaStepRecord)
    → IsIndexed i (xs ++ y ∷ zs)
    → is_done y.status ≡ true
    → is_clear is_done zs ≡ true
    → k ≡ i + suc (length xs)
    → max_of (done_below k (xs ++ y ∷ zs)) ≡ some (i + length xs)
unfolding done_below max_of
max_below i k [] y zs x d c e = ground (arith, done_below-clear k zs c, x.0)
max_below i k (s ∷ xs) y zs x d c e = ground (arith, max_below (suc i) k xs y zs x.1 d c, x.0)
