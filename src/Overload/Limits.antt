-- ===== src/Overload/Limits.antt =====
-- The tokens of src/infra/rateLimiter.cpp.
use hc_tcp_im_server.Common.{
  ℕ, ◌≡◌, ◌∙◌, refl, false, ◌||◌, List, [], ◌∷◌, arith, inl, inr, Bool-cases,
}
use hc_tcp_im_server.Overload.{Double, Limiter, min_of, max_of, new_limiter, refill, allow}

module _ (d : Double) where
  open d use {less, less-asym, less-sub, one, at_most, sub, mul, div, add, thousand, from_ms}

  abbrev IsBounded : Limiter d → Type 0
  IsBounded l = less l.burst l.tokens ≡ false

  -- `allow` at each reading of the clock.
  unfoldable pub run : Limiter d → List ℕ → Limiter d
  run l [] = l
  run l (now ∷ times) = run (allow d l now).0 times

  less_irrefl : (a : d.Number) → less a a ≡ false
  less_irrefl a = elim (Bool-cases (less a a)) [ inl e ↦ less-asym a a e | inr e ↦ e ]

  min_of-IsBounded : (a b : d.Number) → less a (min_of d a b) ≡ false
  min_of-IsBounded a b = elim (Bool-cases (less b a)) [
    | inl e ↦ rw (min_of, e) (less-asym a b e)
    | inr e ↦ rw (min_of, e) (less_irrefl a)
  ]

  refill-IsBounded : (l : Limiter d) (now : ℕ) → IsBounded l → IsBounded (refill d l now)
  unfolding refill
  refill-IsBounded l now v =
      let filled = add l.tokens (mul (sub (from_ms now) l.last_refill_ms) (div l.rate thousand)) in
      elim (Bool-cases
        (at_most (sub (from_ms now) l.last_refill_ms) d.zero || at_most l.rate d.zero)) [
          | inl e ↦ rw (refill, e) v
          | inr e ↦ rw (refill, e) (min_of-IsBounded l.burst filled)
        ]

  allow-IsBounded : (l : Limiter d) (now : ℕ) → IsBounded l → IsBounded (allow d l now).0
  unfolding allow
  allow-IsBounded l now v =
      let r = refill-IsBounded l now v in
      elim (Bool-cases (less (refill d l now).tokens one)) [
        | inl e ↦ rw (allow, e) r
        | inr e ↦ rw (allow, e) (less-sub _ _ r)
      ]

  run-keeps : (times : List ℕ) (l : Limiter d) → IsBounded l → IsBounded (run l times)
  unfolding run
  run-keeps [] l v = v
  run-keeps (now ∷ times) l v = run-keeps times (allow d l now).0 (allow-IsBounded l now v)

  run-burst : (times : List ℕ) (l : Limiter d) → (run l times).burst ≡ l.burst
  unfolding run allow refill
  run-burst [] l = refl
  run-burst (now ∷ times) l = run-burst times (allow d l now).0 ∙ (ground arith)

  -- A new limiter has been asked any number of times, whatever the clock read: it never holds more
  -- tokens than its burst, which is the configured one but at least one.
  pub run-IsBounded :
      (rate burst : d.Number) (start : ℕ) (times : List ℕ)
      → let l = run (new_limiter d rate burst start) times in
        (less l.burst l.tokens ≡ false) × (l.burst ≡ max_of d one burst)
  unfolding new_limiter
  run-IsBounded rate burst start times = (
    run-keeps times (new_limiter d rate burst start) (less_irrefl (max_of d one burst)),
    run-burst times (new_limiter d rate burst start),
  )
