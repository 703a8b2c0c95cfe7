-- ===== src/Api/Controller.antt =====
-- backend/src/features/auth/auth_controller.py: the methods of `AuthController`.
use Prim.Native.String.{String}
use gamely.Base.{
  ℕ, zero, suc, Bool, true, Option, none, some, [], ◌∷◌, Text, codes, starts_with, if◌then◌else◌,
}
use gamely.Base.Uuid.{Uuid, uuid_text}
use gamely.Errors.{Exec, unauthorized, pure, raise_message, raise_default, ◌>>=◌, ◌>>◌}
use gamely.Outside.{Outside, World}
use gamely.Settings.{Settings}
use gamely.Database.{User}
use gamely.Auth.Availability.{throttle, is_available}
use gamely.Auth.Oauth.{create_challenge, oauth_login}
use gamely.Auth.Service.{
  signup, login, send_verification, verify_email, forgot_password, reset_password, change_password,
  refresh, require_user, is_verified, Session,
}
use gamely.Auth.Token.{decode_access, revoke_refresh, revoke_all, refresh_seconds}
use gamely.Api.Address.{IpAddresses, client_address}
use gamely.Api.Dto.{
  CredentialsRequest, EmailRequest, VerifyEmailRequest, ResetPasswordRequest, ChangePasswordRequest,
  OauthTokenRequest, EmailAvailabilityResponse, TokenResponse,
}
use gamely.Api.Exchange.{
  Cookie, set_header, set_cookie, delete_cookie, set_status, Request, Exchange, on_world, change,
}

-- The answer of `me`.
pub record Profile : Type 0 where
  pub id : Text
  pub email : Text
  pub email_verified : Bool

-- `header[n:]`
abbrev pub drop_chars : ℕ → Text → Text
drop_chars zero value = value
drop_chars (suc n) [] = []
drop_chars (suc n) (c ∷ cs) = drop_chars n cs

abbrev pub header_or_empty : Option Text → Text
header_or_empty none = []
header_or_empty (some h) = h

-- `if not value`: no cookie, or an empty one.
abbrev pub present : Option Text → Option Text
present (some (c ∷ cs)) = some (c ∷ cs)
present _ = none

module _ (o : Outside) (ip : IpAddresses) (settings : Settings) where
  -- `_current_user`
  unfoldable pub current_user : Request → Exec (World o) Uuid
  current_user request =
      let header = header_or_empty request.authorization in
      if starts_with header (codes "Bearer ")
      then decode_access o settings (drop_chars 7 header)
      else raise_default unauthorized

  abbrev pub refresh_cookie : Text → Cookie
  refresh_cookie value = record {
    key = settings.auth_refresh_cookie_name;
    value = value;
    httponly = true;
    secure = settings.auth_refresh_cookie_secure;
    samesite = settings.auth_refresh_cookie_samesite;
    domain = settings.auth_refresh_cookie_domain;
    path = settings.auth_refresh_cookie_path;
    max_age = refresh_seconds settings;
  }

  -- `_set_refresh`
  abbrev pub set_refresh : Text → Exec (Exchange o) (Unit {0})
  set_refresh value = change o (set_cookie (refresh_cookie value))

  -- `_clear_refresh`
  abbrev pub clear_refresh : Exec (Exchange o) (Unit {0})
  clear_refresh = change o (
      delete_cookie settings.auth_refresh_cookie_name settings.auth_refresh_cookie_domain
        settings.auth_refresh_cookie_path)

  -- The last lines of the three endpoints that open a session.
  abbrev pub answer_session : Session → Exec (Exchange o) TokenResponse
  answer_session (user, access, value) = do
    set_refresh value
    pure (record { access_token = access })

  unfoldable pub email_available_endpoint :
      EmailRequest → Request → Exec (Exchange o) EmailAvailabilityResponse
  email_available_endpoint body request = do
    change o (set_header "Cache-Control" "no-store")
    available ← on_world o (is_available o settings body.email (client_address ip request.client))
    pure (record { available = available })

  unfoldable pub signup_endpoint : CredentialsRequest → Request → Exec (Exchange o) String
  signup_endpoint body request = do
    on_world o (
        throttle o settings (client_address ip request.client) (codes "signup")
          settings.auth_signup_limit)
    on_world o (signup o settings body.email body.password)
    pure "verification_sent"

  unfoldable pub login_endpoint : CredentialsRequest → Exec (Exchange o) TokenResponse
  login_endpoint body = on_world o (login o settings body.email body.password) >>= answer_session

  unfoldable pub verify_email_endpoint : VerifyEmailRequest → Exec (Exchange o) String
  verify_email_endpoint body = do
    on_world o (verify_email o settings body.email body.code)
    pure "verified"

  unfoldable pub resend_verification_endpoint : EmailRequest → Exec (Exchange o) String
  resend_verification_endpoint body = do
    on_world o (send_verification o settings body.email)
    pure "verification_sent"

  unfoldable pub forgot_password_endpoint : EmailRequest → Request → Exec (Exchange o) String
  forgot_password_endpoint body request = do
    on_world o (
        throttle o settings (client_address ip request.client) (codes "forgot-password")
          settings.auth_signup_limit)
    on_world o (forgot_password o settings body.email)
    pure "reset_sent"

  unfoldable pub reset_password_endpoint : ResetPasswordRequest → Exec (Exchange o) String
  reset_password_endpoint body = do
    on_world o (reset_password o settings body.email body.code body.password)
    pure "password_reset"

  unfoldable pub change_password_endpoint :
      ChangePasswordRequest → Request → Exec (Exchange o) String
  change_password_endpoint body request = do
    user_id ← on_world o (current_user request)
    on_world o (change_password o settings user_id body.current_password body.new_password)
    clear_refresh
    pure "password_changed"

  abbrev pub refresh_with : Option Text → Exec (Exchange o) TokenResponse
  refresh_with none = raise_message unauthorized "A refresh token is required."
  refresh_with (some value) = on_world o (refresh o settings value) >>= answer_session

  unfoldable pub refresh_endpoint : Request → Exec (Exchange o) TokenResponse
  refresh_endpoint request = refresh_with (present request.refresh_cookie)

  abbrev pub revoke_present : Option Text → Exec (World o) (Unit {0})
  revoke_present none = pure tt
  revoke_present (some value) = revoke_refresh o settings value

  unfoldable pub logout_endpoint : Request → Exec (Exchange o) (Unit {0})
  logout_endpoint request = do
    on_world o (revoke_present (present request.refresh_cookie))
    clear_refresh
    change o (set_status 204)

  unfoldable pub logout_all_endpoint : Request → Exec (Exchange o) (Unit {0})
  logout_all_endpoint request = do
    user_id ← on_world o (current_user request)
    on_world o (revoke_all o settings user_id)
    clear_refresh
    change o (set_status 204)

  abbrev profile_of : User → Profile
  profile_of user = record {
    id = uuid_text user.id;
    email = user.email;
    email_verified = is_verified user;
  }

  unfoldable pub me_endpoint : Request → Exec (Exchange o) Profile
  me_endpoint request = do
    user_id ← on_world o (current_user request)
    user ← on_world o (require_user o settings user_id)
    pure (profile_of user)

  -- The answer's field `nonce`.
  unfoldable pub oauth_challenge_endpoint : Text → Exec (Exchange o) Text
  oauth_challenge_endpoint provider = on_world o (create_challenge o settings provider)

  unfoldable pub oauth_login_endpoint : Text → OauthTokenRequest → Exec (Exchange o) TokenResponse
  oauth_login_endpoint provider body =
      on_world o (oauth_login o settings provider body.id_token body.nonce) >>= answer_session
