-- ===== src/Protection/Windows.antt =====
-- protection/limits.py: how many requests of a client pass in one window.
use chitragupta_protocol.Base.{
  ℕ, ◌+◌, ◌≤◌, ◌<◌, ◌≡◌, ◌⊎◌, ◌∙◌, true, false, some, List, [], ◌∷◌, arith, All, leb, ◌==◌,
  if◌then◌else◌, Option-cases, Bool-cases, inl, inr,
}
use chitragupta_protocol.Base.Dict.{get, get-put, get-put_self}
use chitragupta_protocol.Errors.{ok, is_ok}
use chitragupta_protocol.Protection.{
  Window, RateLimiter, open_window, check_bucket, check, window_seconds,
}

-- A request: whose, and when.
pub record Request : Type 0 where
  pub client_key : ℕ
  pub now : ℕ

-- The requests of the client that pass, of a sequence.
unfoldable pub passed : ℕ → RateLimiter → List Request → ℕ
passed key limiter [] = 0
passed key limiter (r ∷ rs) =
    (if r.client_key == key
      then (if is_ok (check r.client_key r.now limiter).0 then 1 else 0)
      else 0)
    + passed key (check r.client_key r.now limiter).1 rs

-- The client's requests come before the window that opened at `start` is over.
abbrev pub IsInWindow : ℕ → ℕ → Request → Type 0
IsInWindow key start r = if r.client_key == key then r.now < start + window_seconds else Unit

-- A request in the window either passes and is counted, or is refused and changes nothing.
own_check :
    (key now start c : ℕ) (limiter : RateLimiter)
    → get key limiter.buckets ≡ some (record { window_start = start; count = c })
    → now < start + window_seconds
    → ((is_ok (check key now limiter).0 ≡ true)
        × (c < limiter.limit)
        × ((check key now limiter).1.limit ≡ limiter.limit)
        × (get key (check key now limiter).1.buckets
            ≡ some (record { window_start = start; count = c + 1 })))
      ⊎ ((is_ok (check key now limiter).0 ≡ false) × ((check key now limiter).1 ≡ limiter))
unfolding check check_bucket
own_check key now start c limiter g t = elim (Bool-cases (leb limiter.limit c)) [
  | inl e ↦ inr (ground (arith, g, e), ground (arith, g, e))
  | inr e ↦
      let counted : Window = record { window_start = start; count = c + 1 } in
      inl (
        ground (arith, g, e),
        ground (arith, e),
        ground (arith, g, e),
        ground (arith, g, e, get-put key key counted limiter.buckets),
      )
]

-- A request of another client leaves the bucket as it is.
other_check :
    (key other now : ℕ) (limiter : RateLimiter)
    → (other == key) ≡ false
    → (get key (check other now limiter).1.buckets ≡ get key limiter.buckets)
      × ((check other now limiter).1.limit ≡ limiter.limit)
unfolding check check_bucket
other_check key other now limiter n = elim (Option-cases (get other limiter.buckets)) [
  | inl g ↦
      let opened : Window = record { window_start = now; count = 1 } in
      (ground (arith, g, get-put key other opened limiter.buckets), ground (arith, g))
  | inr (w, g) ↦
      let opened : Window = record { window_start = now; count = 1 } in
      let counted : Window = record w { count = w.count + 1 } in
      (
        ground (
          arith,
          g,
          get-put key other opened limiter.buckets,
          get-put key other counted limiter.buckets,
        ),
        ground (arith, g),
      )
]

window_bounded :
    (key start c : ℕ) (limiter : RateLimiter) (rs : List Request)
    → get key limiter.buckets ≡ some (record { window_start = start; count = c })
    → c ≤ limiter.limit
    → All (IsInWindow key start) rs
    → c + passed key limiter rs ≤ limiter.limit
unfolding passed
window_bounded key start c limiter [] g b a = omega (arith, b)
window_bounded key start c limiter (r ∷ rs) g b a = elim (Bool-cases (r.client_key == key)) [
  | inl e ↦
      let mine : r.client_key ≡ key = ground (arith, e) in
      let early : r.now < start + window_seconds = ground (arith, e, a.0) in
      elim (own_check r.client_key r.now start c limiter (rw mine g) early) [
        | inl (k, f, l, h) ↦
            let next : RateLimiter = (check r.client_key r.now limiter).1 in
            let rest : (c + 1) + passed key next rs ≤ next.limit =
              window_bounded key start (c + 1) next rs (rw (← mine) h) (omega (arith, f, l)) a.1 in
            ground (arith, e, k, l, rest)
        | inr (k, same) ↦
            let rest : c + passed key limiter rs ≤ limiter.limit =
              window_bounded key start c limiter rs g b a.1 in
            ground (arith, e, k, same, rest)
      ]
  | inr e ↦
      let next : RateLimiter = (check r.client_key r.now limiter).1 in
      let (h, l) = other_check key r.client_key r.now limiter e in
      let rest : c + passed key next rs ≤ next.limit =
        window_bounded key start c next rs (h ∙ g) (omega (arith, b, l)) a.1 in
      ground (arith, e, l, rest)
]

-- When a request of a client opens a window, it and those of the client's requests that pass before
-- the window is over, whatever other clients do between, are at most `limit` many, if that is at
-- least 1.
pub window_holds_limit :
    (key start : ℕ) (limiter : RateLimiter) (rs : List Request)
    → 1 ≤ limiter.limit
    → check key start limiter ≡ (ok tt, open_window key start limiter)
    → All (IsInWindow key start) rs
    → 1 + passed key (check key start limiter).1 rs ≤ limiter.limit
window_holds_limit key start limiter rs b o a = rw o (
    window_bounded key start 1 (open_window key start limiter) rs
      (get-put_self key (record { window_start = start; count = 1 }) limiter.buckets) b a)
