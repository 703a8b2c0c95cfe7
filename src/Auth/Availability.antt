-- ===== src/Auth/Availability.antt =====
-- backend/src/features/auth/availability/availability_service.py
pub mod Throttling
use gamely.Base.{
  ℕ, Bool, true, false, Option, none, some, List, ◌∷◌, ◌++◌, Text, codes, take, if◌then◌else◌,
}
use gamely.Errors.{
  Exec, pure, lift, try_except, raise_default, service_unavailable, too_many_requests, ◌>>=◌, ◌>>◌,
}
use gamely.Auth.EmailAddress.{normalize_email}
use gamely.Auth.Filter.{might_exist}
use gamely.Auth.Repository.{by_email}
use gamely.Database.{User}
use gamely.Outside.{Outside, World}
use gamely.RateLimiter.{hit}
use gamely.Settings.{Settings}

abbrev is_none : Option User → Bool
is_none none = true
is_none (some _) = false

module _ (o : Outside) (settings : Settings) where
  -- `_digest`, the first 32 characters
  unfoldable pub address_digest : Text → Text
  address_digest client_address = take 32 (o.hmac_hex settings.auth_jwt_secret client_address)

  unfoldable pub throttle_key : Text → Text → Text
  unfolding address_digest
  throttle_key client_address scope =
      codes "auth:throttle:" ++ (scope ++ (b':' ∷ address_digest client_address))

  unfoldable pub throttle : Text → Text → ℕ → Exec (World o) (Unit {0})
  throttle client_address scope limit = do
    allowed ←
        try_except
          (hit o (throttle_key client_address scope) limit settings.auth_throttle_window_seconds)
          (λ _. raise_default service_unavailable)
    if allowed then pure tt else raise_default too_many_requests

  unfoldable pub is_available : Text → Text → Exec (World o) Bool
  is_available email client_address = do
    throttle client_address (codes "availability") settings.auth_availability_limit
    address ← lift (normalize_email email)
    exists ← might_exist o settings address
    if exists then (do user ← by_email o address; pure (is_none user)) else pure true
