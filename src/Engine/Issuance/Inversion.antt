-- ===== src/Engine/Issuance/Inversion.antt =====
-- engine/core.py (`authorize`, `delegate`): what has happened when a sequence of steps returns.
use chitragupta_protocol.Base.{◌≡◌, refl, List, arith}
use chitragupta_protocol.Engine.Checks.{EventType, Checked, passes, denies, raises, attempt, lift}
use chitragupta_protocol.Engine.Checks.Signed.{attempt-passes}
use chitragupta_protocol.Engine.Control.{Control, JournalEntry, M, continue, checked}
use chitragupta_protocol.Errors.{Result, ok, err}

-- The state with another journal.
abbrev pub journaled : Control → List JournalEntry → Control
journaled w j = record w { journal = j }

pub continue-ok :
    {A B : Type 0} (r : Result A × Control) (f : A → M B) {b : B} {w : Control}
    → continue r f ≡ (ok b, w)
    → (a : A) × (v : Control) × (r ≡ (ok a, v)) × (f a v ≡ (ok b, w))
continue-ok (ok a, v) f h = (a, v, refl, h)
continue-ok (err e, v) f h = absurd (ground arith)

pub checked-ok :
    {A : Type 0} (m : Checked A) (w : Control) {a : A} {v : Control}
    → checked m w ≡ (ok a, v)
    → (m ≡ passes a) × (v ≡ w)
checked-ok (passes a) w h = (ground arith, ground arith)
checked-ok (denies event e) w h = absurd (ground arith)
checked-ok (raises e) w h = absurd (ground arith)

pub lift-passes : {A : Type 0} (r : Result A) {a : A} → lift r ≡ passes a → r ≡ ok a
lift-passes (ok a) h = ground arith
lift-passes (err e) h = absurd (ground arith)

-- A sequence that begins with a check: the check passed, and the rest ran on the same state.
pub checked_then :
    {A B : Type 0} (m : Checked A) (f : A → M B) (w : Control) {b : B} {v : Control}
    → continue (checked m w) f ≡ (ok b, v)
    → (a : A) × (m ≡ passes a) × (f a w ≡ (ok b, v))
checked_then (passes a) f w h = (a, refl, h)
checked_then (denies event e) f w h = absurd (ground arith)
checked_then (raises e) f w h = absurd (ground arith)

pub lift_then :
    {A B : Type 0} (r : Result A) (f : A → M B) (w : Control) {b : B} {v : Control}
    → continue (checked (lift r) w) f ≡ (ok b, v)
    → (a : A) × (r ≡ ok a) × (f a w ≡ (ok b, v))
lift_then (ok a) f w h = (a, refl, h)
lift_then (err e) f w h = absurd (ground arith)

pub attempt_then :
    {A B : Type 0} (event : EventType) (r : Result A) (f : A → M B) (w : Control) {b : B}
    {v : Control}
    → continue (checked (attempt event r) w) f ≡ (ok b, v)
    → (a : A) × (r ≡ ok a) × (f a w ≡ (ok b, v))
attempt_then event r f w h =
    let (a, p, k) = checked_then (attempt event r) f w h in (a, attempt-passes event r p, k)
