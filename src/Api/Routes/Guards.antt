-- ===== src/Api/Routes/Guards.antt =====
-- backend/src/features/auth/auth_controller.py: `_current_user`, and the endpoints without a cookie.
use Prim.Native.String.{String}
use gamely.Base.{
  ℕ, ◌≡◌, refl, ◌∙◌, ap, ◌⊎◌, inl, inr, true, false, Option, none, some, [], ◌∷◌, codes,
  starts_with, Bool-cases,
}
use gamely.Base.Uuid.{Uuid}
use gamely.Errors.{
  Exec, unauthorized, application, make_error, raises, dispatch, ErrorResponse, error_response,
  status_code, error_code, message_or_default, ◌>>=◌,
}
use gamely.Outside.{Outside, World}
use gamely.Settings.{Settings}
use gamely.Auth.Token.{decode_access}
use gamely.Api.Address.{IpAddresses}
use gamely.Api.Controller.{
  change_password_endpoint, logout_all_endpoint, me_endpoint, refresh_endpoint, logout_endpoint,
  current_user, header_or_empty, drop_chars, present,
}
use gamely.Api.Dto.{ChangePasswordRequest, is_valid_change}
use gamely.Api.Exchange.{delete_cookie, set_status, Request, Exchange, on_world}
use gamely.Api.Routes.{
  Answer, answered, refused, serve, post_change_password, post_logout_all, get_me, post_refresh,
  post_logout,
}
use gamely.Api.Routes.Refusals.{serve-raises}

module _ (o : Outside) (ip : IpAddresses) (settings : Settings) (request : Request)
    (w : World o) where
  -- No header that begins with `Bearer `, or one whose token does not verify now.
  abbrev pub IsAnonymous : Type 0
  IsAnonymous =
      let header = header_or_empty request.authorization in
      (starts_with header (codes "Bearer ") ≡ false)
      ⊎ (o.jwt_decode settings.auth_jwt_secret settings.auth_jwt_issuer settings.auth_jwt_audience
            w.now (drop_chars 7 header)
          ≡ none)

  -- An answer with status 401.
  abbrev pub IsRefused : {B : Type 0} → Answer B × World o → Type 0
  IsRefused p = (e : ErrorResponse) × (p ≡ (refused e, w)) × (e.status ≡ 401)

  anonymous-raises :
      IsAnonymous
      → (m : Option String) × (current_user o ip settings request w
          ≡ (raises (application (make_error unauthorized m)), w))
  unfolding current_user decode_access
  anonymous-raises (inl h) = (none, rw h refl)
  anonymous-raises (inr h) =
      elim (Bool-cases (starts_with (header_or_empty request.authorization) (codes "Bearer "))) [
        | inl bearer ↦ (some "The access token is invalid or expired.", rw (bearer, h) refl)
        | inr other ↦ (none, rw other refl)
      ]

  serve-anonymous :
      {B : Type 0} (f : Uuid → Exec (Exchange o) B) (status : ℕ)
      → IsAnonymous
      → IsRefused (serve o status (on_world o (current_user o ip settings request) >>= f) w)
  unfolding dispatch error_response status_code error_code
  serve-anonymous f status h =
      let (m, e) = anonymous-raises h in
      (
        error_response 401 "unauthorized" (make_error unauthorized m).message,
        serve-raises o (current_user o ip settings request) f status w
              (application (make_error unauthorized m)) (ap (λ p. p.0) e)
            ∙ ap
                (λ p. (
                  refused (error_response 401 "unauthorized" (make_error unauthorized m).message),
                  p.1,
                ))
                e,
        refl,
      )

  -- The endpoints for a user answer a request with no access token, or with one that does not
  -- verify, with 401, and change nothing: neither a password nor a session.
  pub anonymous-IsRefused :
      (body : ChangePasswordRequest)
      → is_valid_change body ≡ true
      → IsAnonymous
      → IsRefused (post_change_password o ip settings body request w)
        × IsRefused (post_logout_all o ip settings request w)
        × IsRefused (get_me o ip settings request w)
  unfolding post_change_password post_logout_all get_me change_password_endpoint logout_all_endpoint
      me_endpoint
  anonymous-IsRefused body valid h =
      (rw valid (serve-anonymous _ 200 h), serve-anonymous _ 204 h, serve-anonymous _ 200 h)

  -- Without a refresh cookie, or with an empty one, a refresh is answered with 401 and a logout
  -- still deletes the cookie and is answered with 204; neither changes anything else.
  pub no_cookie_lem :
      present request.refresh_cookie ≡ none
      → (post_refresh o ip settings request w
          ≡ (refused (error_response 401 "unauthorized" "A refresh token is required."), w))
        × (post_logout o ip settings request w ≡ (
          answered 204
              (delete_cookie settings.auth_refresh_cookie_name settings.auth_refresh_cookie_domain
                  settings.auth_refresh_cookie_path
                ∷ set_status 204
                ∷ [])
              tt,
          w,
        ))
  unfolding post_refresh post_logout refresh_endpoint logout_endpoint serve dispatch error_response
      status_code error_code message_or_default
  no_cookie_lem h = (rw h refl, rw h refl)
