-- ===== src/Api/Routes.antt =====
-- backend/src/features/auth/auth_controller.py: the routes, on a body that may be invalid, with the
-- answer that the middlewares make of how the endpoint ended.
pub mod Sessions
pub mod Refusals
pub mod Guards
pub mod Ending
use Prim.Native.String.{String}
use gamely.Base.{ℕ, Bool, Option, none, some, List, [], ◌∷◌, Text, if◌then◌else◌}
use gamely.Errors.{
  Exec, Outcome, HttpResult, response, failure, aborted, ErrorResponse, dispatch,
  handle_validation_error,
}
use gamely.Outside.{Outside, World}
use gamely.Settings.{Settings}
use gamely.Api.Address.{IpAddresses}
use gamely.Api.Controller.{
  Profile, email_available_endpoint, signup_endpoint, login_endpoint, verify_email_endpoint,
  resend_verification_endpoint, forgot_password_endpoint, reset_password_endpoint,
  change_password_endpoint, refresh_endpoint, logout_endpoint, logout_all_endpoint, me_endpoint,
  oauth_challenge_endpoint, oauth_login_endpoint,
}
use gamely.Api.Dto.{
  CredentialsRequest, EmailRequest, VerifyEmailRequest, ResetPasswordRequest, ChangePasswordRequest,
  OauthTokenRequest, EmailAvailabilityResponse, TokenResponse, is_valid_credentials, is_valid_email,
  is_valid_verify, is_valid_reset, is_valid_change, is_valid_oauth,
}
use gamely.Api.Exchange.{
  Change, set_header, set_cookie, delete_cookie, set_status, Request, Exchange,
}

-- A status with the changes of the response and a body, an error, or no answer at all. The changes are
-- lost where the endpoint raises.
pub data Answer (B : Type 0) : Type 0 where
  answered : ℕ → List Change → B → Answer B
  refused : ErrorResponse → Answer B
  dropped : Answer B

-- `response.status_code`, or the status of the route.
abbrev pub final_status : ℕ → List Change → ℕ
final_status status [] = status
final_status status (set_status s ∷ cs) = final_status s cs
final_status status (_ ∷ cs) = final_status status cs

abbrev pub answer_of : {B : Type 0} → ℕ → List Change → HttpResult B → Answer B
answer_of status changes (response b) = answered (final_status status changes) changes b
answer_of status changes (failure e) = refused e
answer_of status changes aborted = dropped

module _ (o : Outside) where
  -- An endpoint with the status of its route, behind the error middleware.
  unfoldable pub serve : {B : Type 0} → ℕ → Exec (Exchange o) B → World o → Answer B × World o
  serve status endpoint w =
      let (r, x) = endpoint (record { world = w; response = [] }) in
      (answer_of status x.response (dispatch r), x.world)

  -- A body that is not valid is answered before the endpoint is called.
  abbrev pub validated :
      {B : Type 0} → Bool → (World o → Answer B × World o) → World o → Answer B × World o
  validated valid route w = if valid then route w else (refused handle_validation_error, w)

module _ (o : Outside) (ip : IpAddresses) (settings : Settings) where
  unfoldable pub post_email_availability :
      EmailRequest → Request → World o → Answer EmailAvailabilityResponse × World o
  post_email_availability body request =
      validated o (is_valid_email body)
        (serve o 200 (email_available_endpoint o ip settings body request))

  unfoldable pub post_signup : CredentialsRequest → Request → World o → Answer String × World o
  post_signup body request =
      validated o (is_valid_credentials body)
        (serve o 202 (signup_endpoint o ip settings body request))

  unfoldable pub post_login : CredentialsRequest → World o → Answer TokenResponse × World o
  post_login body =
      validated o (is_valid_credentials body) (serve o 200 (login_endpoint o ip settings body))

  unfoldable pub post_verify_email :
      (ℕ → Bool) → VerifyEmailRequest → World o → Answer String × World o
  post_verify_email is_decimal body =
      validated o (is_valid_verify is_decimal body)
        (serve o 200 (verify_email_endpoint o ip settings body))

  unfoldable pub post_resend_verification : EmailRequest → World o → Answer String × World o
  post_resend_verification body =
      validated o (is_valid_email body)
        (serve o 202 (resend_verification_endpoint o ip settings body))

  unfoldable pub post_forgot_password : EmailRequest → Request → World o → Answer String × World o
  post_forgot_password body request =
      validated o (is_valid_email body)
        (serve o 202 (forgot_password_endpoint o ip settings body request))

  unfoldable pub post_reset_password :
      (ℕ → Bool) → ResetPasswordRequest → World o → Answer String × World o
  post_reset_password is_decimal body =
      validated o (is_valid_reset is_decimal body)
        (serve o 200 (reset_password_endpoint o ip settings body))

  unfoldable pub post_change_password :
      ChangePasswordRequest → Request → World o → Answer String × World o
  post_change_password body request =
      validated o (is_valid_change body)
        (serve o 200 (change_password_endpoint o ip settings body request))

  unfoldable pub post_refresh : Request → World o → Answer TokenResponse × World o
  post_refresh request = serve o 200 (refresh_endpoint o ip settings request)

  unfoldable pub post_logout : Request → World o → Answer (Unit {0}) × World o
  post_logout request = serve o 204 (logout_endpoint o ip settings request)

  unfoldable pub post_logout_all : Request → World o → Answer (Unit {0}) × World o
  post_logout_all request = serve o 204 (logout_all_endpoint o ip settings request)

  unfoldable pub get_me : Request → World o → Answer Profile × World o
  get_me request = serve o 200 (me_endpoint o ip settings request)

  unfoldable pub post_oauth_challenge : Text → World o → Answer Text × World o
  post_oauth_challenge provider = serve o 200 (oauth_challenge_endpoint o ip settings provider)

  unfoldable pub post_oauth_login :
      Text → OauthTokenRequest → World o → Answer TokenResponse × World o
  post_oauth_login provider body =
      validated o (is_valid_oauth body)
        (serve o 200 (oauth_login_endpoint o ip settings provider body))
