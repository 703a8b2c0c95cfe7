-- ===== src/Api/Routes/Refusals.antt =====
-- backend/src/features/auth/auth_controller.py: what the routes refuse, and what they leave alone then.
use gamely.Base.{ℕ, suc, ◌≤◌, ◌≡◌, refl, ◌∙◌, ap, true, none, [], Text, codes, lt→leb, arith}
use gamely.Errors.{
  Exec, pure, Exception, raises, dispatch, ErrorResponse, error_response, status_code, error_code,
  default_message, message_or_default, ◌>>=◌,
}
use gamely.Redis.Documented.{Documented}
use gamely.RateLimiter.{hit}
use gamely.Outside.{Outside, World}
use gamely.Settings.{Settings}
use gamely.Auth.Availability.{throttle, throttle_key}
use gamely.Auth.Availability.Throttling.{
  after_requests, throttle-after_requests, throttle-hit, too_many,
}
use gamely.Auth.Service.{signup}
use gamely.Api.Address.{IpAddresses, client_address}
use gamely.Api.Controller.{signup_endpoint}
use gamely.Api.Dto.{CredentialsRequest, is_valid_credentials}
use gamely.Api.Exchange.{Request, Exchange, on_world}
use gamely.Api.Routes.{refused, answer_of, serve, post_signup}

module _ (o : Outside) where
  -- An endpoint whose first call raises ends there.
  pub serve-raises :
      {A B : Type 0} (m : Exec (World o) A) (f : A → Exec (Exchange o) B) (status : ℕ) (w : World o)
      (e : Exception)
      → (m w).0 ≡ raises e
      → serve o status (on_world o m >>= f) w ≡ (answer_of status [] (dispatch (raises e)), (m w).1)
  unfolding serve
  serve-raises m f status w e h =
      ap (λ r. serve o status (on_world o (λ _. (r, (m w).1)) >>= f) w) h

  throttle-session :
      (settings : Settings) (address scope : Text) (limit : ℕ) (w : World o)
      → let w' = (throttle o settings address scope limit w).1 in
        (w'.session ≡ w.session) × (w'.connection ≡ w.connection)
  unfolding hit
  throttle-session settings address scope limit w =
      let e = throttle-hit o settings address scope limit w in
      (ap World.session e ∙ ground arith, ap World.connection e ∙ ground arith)

abbrev pub limited : ErrorResponse
limited = error_response 429 "too_many_requests" "Too many requests. Please try again later."

module _ (o : Outside) (ip : IpAddresses) (settings : Settings) (D : Documented o.redis)
    (request : Request) (n : ℕ) (w : World o) where
  abbrev pub after : Text → World o
  after scope =
      after_requests o settings (client_address ip request.client) scope settings.auth_signup_limit
        n w

  over_limit :
      (scope : Text)
      → D.view w.server (throttle_key o settings (client_address ip request.client) scope) ≡ none
      → settings.auth_signup_limit ≤ n
      → (throttle o settings
          (client_address ip request.client)
          scope
          settings.auth_signup_limit
          (after scope)).0
        ≡ raises too_many
  over_limit scope fresh enough =
      throttle-after_requests o settings (client_address ip request.client) scope
        settings.auth_signup_limit D n w fresh
      ∙ rw (lt→leb (suc n) settings.auth_signup_limit (omega arith)) refl

  -- Once a client has asked to sign up as often as the limit says in a window that then began, every
  -- valid sign-up of it is answered with 429, and neither the database nor the message broker is asked
  -- anything.
  pub post_signup-limited :
      (body : CredentialsRequest)
      → is_valid_credentials body ≡ true
      → D.view w.server
          (throttle_key o settings (client_address ip request.client) (codes "signup"))
        ≡ none
      → settings.auth_signup_limit ≤ n
      → let (answer, w') = post_signup o ip settings body request (after (codes "signup")) in
        (answer ≡ refused limited)
        × (w'.session ≡ (after (codes "signup")).session)
        × (w'.connection ≡ (after (codes "signup")).connection)
  unfolding post_signup signup_endpoint dispatch error_response status_code error_code
      default_message message_or_default
  post_signup-limited body valid fresh enough =
      let w' = after (codes "signup") in
      let m =
        throttle o settings (client_address ip request.client) (codes "signup")
          settings.auth_signup_limit in
      let e : post_signup o ip settings body request w' ≡ (refused limited, (m w').1) = rw valid (
        serve-raises o m
          (λ _. on_world o (signup o settings body.email body.password) >>= λ _.
            pure "verification_sent")
          202 w' too_many (over_limit (codes "signup") fresh enough)) in
      let (s, c) =
        throttle-session o settings (client_address ip request.client) (codes "signup")
          settings.auth_signup_limit w' in
      (ap (λ p. p.0) e, ap (λ p. p.1.session) e ∙ s, ap (λ p. p.1.connection) e ∙ c)
