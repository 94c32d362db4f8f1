-- ===== src/Protection.antt =====
-- protection/limits.py: the ceiling on a request's length and the fixed-window rate limiter. A time is
-- a number of seconds on the monotonic clock; the lock makes each `check` one step.
pub mod Windows
use chitragupta_protocol.Base.{
  ℕ, ◌+◌, ◌-◌, Bool, true, false, Option, none, some, List, [], ◌∷◌, ltb, leb, if◌then◌else◌,
}
use chitragupta_protocol.Base.Dict.{Dict, get, put}
use chitragupta_protocol.Base.Int.{ℤ, pos, negsuc}
use chitragupta_protocol.Errors.{
  request_too_large_error, rate_limit_exceeded_error, value_error, Result, ok, err, raise_if,
}

unfoldable pub enforce_content_length : Option ℤ → ℕ → Result (Unit {0})
enforce_content_length none max_bytes = ok tt
enforce_content_length (some (negsuc n)) max_bytes = err request_too_large_error
enforce_content_length (some (pos n)) max_bytes = raise_if (ltb max_bytes n) request_too_large_error

abbrev pub window_seconds : ℕ
window_seconds = 60

pub record Window : Type 0 where
  pub window_start : ℕ
  pub count : ℕ

pub record RateLimiter : Type 0 where
  pub limit : ℕ
  pub buckets : Dict Window

unfoldable pub rate_limiter : ℕ → Result RateLimiter
rate_limiter limit_per_minute =
    if ltb limit_per_minute 1
    then err value_error
    else ok (record { limit = limit_per_minute; buckets = [] })

unfoldable pub reset : RateLimiter → RateLimiter
reset limiter = record limiter { buckets = [] }

-- A new window for the client.
abbrev pub open_window : ℕ → ℕ → RateLimiter → RateLimiter
open_window client_key now limiter = record limiter {
  buckets = put client_key (record { window_start = now; count = 1 }) limiter.buckets;
}

-- `check` with a bucket found
unfoldable pub check_bucket : ℕ → ℕ → Window → RateLimiter → Result (Unit {0}) × RateLimiter
check_bucket client_key now bucket limiter =
    if leb window_seconds (now - bucket.window_start)
    then (ok tt, open_window client_key now limiter)
    else if leb limiter.limit bucket.count
    then (err rate_limit_exceeded_error, limiter)
    else (
      ok tt,
      record limiter {
        buckets = put client_key (record bucket { count = bucket.count + 1 }) limiter.buckets;
      },
    )

unfoldable pub check : ℕ → ℕ → RateLimiter → Result (Unit {0}) × RateLimiter
check client_key now limiter = elim (get client_key limiter.buckets) [
  | none ↦ (ok tt, open_window client_key now limiter)
  | some bucket ↦ check_bucket client_key now bucket limiter
]
