-- ===== src/Auth/Availability/Throttling.antt =====
-- `throttle`, backend/src/features/auth/availability/availability_service.py.
use gamely.Base.{
  ℕ, ◌≡◌, refl, Bool, true, false, Text, leb, arith, zero, suc, none, ap, ◌∙◌, if◌then◌else◌,
}
use gamely.Errors.{
  Exception, Outcome, returns, raises, cancelled, application, make_error, service_unavailable,
  too_many_requests,
}
use gamely.RateLimiter.{hit}
use gamely.RateLimiter.Window.{after_hits, hit-after_hits}
use gamely.Redis.Documented.{Documented}
use gamely.Auth.Availability.{throttle, throttle_key}
use gamely.Outside.{Outside, World}
use gamely.Settings.{Settings}

abbrev pub unavailable : Exception
unavailable = application (make_error service_unavailable none)

abbrev pub too_many : Exception
too_many = application (make_error too_many_requests none)

-- How `_throttle` ends, by how the limiter ends.
unfoldable pub throttled : Outcome Bool → Outcome (Unit {0})
throttled (returns true) = returns tt
throttled (returns false) = raises too_many
throttled (raises _) = raises unavailable
throttled cancelled = cancelled

throttled-if : (b : Bool) → throttled (returns b) ≡ (if b then returns tt else raises too_many)
unfolding throttled
throttled-if true = refl
throttled-if false = refl

module _ (o : Outside) (settings : Settings) (address scope : Text) (limit : ℕ) where
  abbrev key : Text
  key = throttle_key o settings address scope

  abbrev window : ℕ
  window = settings.auth_throttle_window_seconds

  -- Whatever Redis does, `throttle` passes a request exactly if the limiter returns true. It raises
  -- the error of status 429 if the limiter returns false, and that of 503 if the limiter raises
  -- anything.
  pub throttle-throttled :
      (w : World o)
      → (throttle o settings address scope limit w).0 ≡ throttled (hit o key limit window w).0
  unfolding throttle throttled
  throttle-throttled w = ground arith

  pub throttle-hit :
      (w : World o) → (throttle o settings address scope limit w).1 ≡ (hit o key limit window w).1
  unfolding throttle
  throttle-hit w = ground arith

  -- The world after a number of requests of this address.
  unfoldable pub after_requests : ℕ → World o → World o
  after_requests zero w = w
  after_requests (suc n) w = (throttle o settings address scope limit (after_requests n w)).1

  after_requests-hits :
      (D : Documented o.redis) (n : ℕ) (w : World o)
      → after_requests n w ≡ after_hits o D key limit window n w
  unfolding after_requests after_hits
  after_requests-hits D zero w = refl
  after_requests-hits D (suc n) w =
      throttle-hit (after_requests n w)
      ∙ ap (λ v. (hit o key limit window v).1) (after_requests-hits D n w)

  -- On a documented Redis, in a window that has not begun, an address passes `throttle` as often as
  -- the limit says, and every request after those raises the error of status 429.
  pub throttle-after_requests :
      (D : Documented o.redis) (n : ℕ) (w : World o)
      → D.view w.server key ≡ none
      → (throttle o settings address scope limit (after_requests n w)).0
        ≡ (if leb (suc n) limit then returns tt else raises too_many)
  throttle-after_requests D n w h =
      let (r, counter) = hit-after_hits o D key limit window n w h in
      throttle-throttled (after_requests n w)
      ∙ rw (after_requests-hits D n w, r) (throttled-if (leb (suc n) limit))
