-- ===== src/Api/Routes/Sessions.antt =====
-- backend/src/features/auth/auth_controller.py: the routes that open and end sessions.
use gamely.Base.{ℕ, ◌*◌, ◌≡◌, refl, true, some, [], ◌∷◌, Text}
use gamely.Errors.{Exec, Outcome, returns, raises, cancelled, dispatch, ◌>>=◌, ◌>>◌}
use gamely.Outside.{Outside, World}
use gamely.Settings.{Settings}
use gamely.Auth.Service.{login, refresh, Session}
use gamely.Auth.Oauth.{oauth_login}
use gamely.Api.Address.{IpAddresses}
use gamely.Api.Controller.{
  answer_session, clear_refresh, login_endpoint, refresh_endpoint, oauth_login_endpoint, present,
  logout_endpoint, revoke_present,
}
use gamely.Api.Dto.{
  CredentialsRequest, OauthTokenRequest, TokenResponse, is_valid_credentials, is_valid_oauth,
}
use gamely.Api.Exchange.{Cookie, set_cookie, delete_cookie, set_status, Request, on_world, change}
use gamely.Api.Routes.{
  Answer, answered, dropped, answer_of, serve, post_login, post_refresh, post_oauth_login,
  post_logout,
}

module _ (o : Outside) (ip : IpAddresses) (settings : Settings) where
  -- A cookie that scripts do not see, for as many seconds as the days of a refresh token have.
  abbrev pub session_cookie : Text → Cookie
  session_cookie value = record {
    key = settings.auth_refresh_cookie_name;
    value = value;
    httponly = true;
    secure = settings.auth_refresh_cookie_secure;
    samesite = settings.auth_refresh_cookie_samesite;
    domain = settings.auth_refresh_cookie_domain;
    path = settings.auth_refresh_cookie_path;
    max_age = settings.auth_refresh_token_days * 86400;
  }

  -- The answer that a session, or a failure to open one, gets.
  abbrev pub session_answer : Outcome Session → Answer TokenResponse
  session_answer (returns (user, access, value)) =
      answered 200 (set_cookie (session_cookie value) ∷ []) (record { access_token = access })
  session_answer (raises e) = answer_of 200 [] (dispatch (raises e))
  session_answer cancelled = dropped

  abbrev pub opened : Exec (World o) Session → World o → Answer TokenResponse × World o
  opened m w = let (r, w') = m w in (session_answer r, w')

  pub serve-session :
      (m : Exec (World o) Session) (w : World o)
      → serve o 200 (on_world o m >>= answer_session o ip settings) w ≡ opened m w
  unfolding serve dispatch
  serve-session m w = by_outcome (m w).0 (m w).1
    where
      by_outcome :
          (r : Outcome Session) (w' : World o)
          → serve o 200 (on_world o (λ _. (r, w')) >>= answer_session o ip settings) w
            ≡ opened (λ _. (r, w')) w
      by_outcome (returns s) w' = refl
      by_outcome (raises e) w' = refl
      by_outcome cancelled w' = refl

  -- The routes that open a session, on valid bodies and a cookie that is not empty: where the service
  -- gives a session, the answer is 200 with its access token, and its only change sets the refresh
  -- cookie to the session's refresh token, hidden from scripts and for as long as the token lives;
  -- where the service raises, the answer is the error's, with no cookie; and the route does
  -- to the world what the service does.
  pub sessions_answered :
      (body : CredentialsRequest) (request : Request) (c : ℕ) (cs : Text) (provider : Text)
      (proof : OauthTokenRequest) (w : World o)
      → is_valid_credentials body ≡ true
      → request.refresh_cookie ≡ some (c ∷ cs)
      → is_valid_oauth proof ≡ true
      → (post_login o ip settings body w ≡ opened (login o settings body.email body.password) w)
        × (post_refresh o ip settings request w ≡ opened (refresh o settings (c ∷ cs)) w)
        × (post_oauth_login o ip settings provider proof w
            ≡ opened (oauth_login o settings provider proof.id_token proof.nonce) w)
  unfolding post_login post_refresh post_oauth_login login_endpoint refresh_endpoint
      oauth_login_endpoint
  sessions_answered body request c cs provider proof w valid cookie valid_proof = (
    rw valid (serve-session (login o settings body.email body.password) w),
    rw cookie (serve-session (refresh o settings (c ∷ cs)) w),
    rw valid_proof (serve-session (oauth_login o settings provider proof.id_token proof.nonce) w),
  )

  -- The answer to a logout.
  abbrev logged_out : Outcome (Unit {0}) → Answer (Unit {0})
  logged_out (returns _) =
      answered 204
        (delete_cookie settings.auth_refresh_cookie_name settings.auth_refresh_cookie_domain
            settings.auth_refresh_cookie_path
          ∷ set_status 204
          ∷ [])
        tt
  logged_out (raises e) = answer_of 204 [] (dispatch (raises e))
  logged_out cancelled = dropped

  pub post_logout_lem :
      (request : Request) (w : World o)
      → let (r, w') = revoke_present o ip settings (present request.refresh_cookie) w in
        post_logout o ip settings request w ≡ (logged_out r, w')
  unfolding post_logout logout_endpoint serve dispatch
  post_logout_lem request w = by_outcome (revoked w).0 (revoked w).1
    where
      revoked : Exec (World o) (Unit {0})
      revoked = revoke_present o ip settings (present request.refresh_cookie)

      by_outcome :
          (r : Outcome (Unit {0})) (w' : World o)
          → serve o 204
              (do on_world o (λ _. (r, w')); clear_refresh o ip settings; change o (set_status 204))
              w
            ≡ (logged_out r, w')
      by_outcome (returns _) w' = refl
      by_outcome (raises e) w' = refl
      by_outcome cancelled w' = refl
