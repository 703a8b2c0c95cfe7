-- ===== src/Api/Routes/Ending.antt =====
-- backend/src/features/auth/auth_controller.py: what a logout leaves of a user's sessions.
use mathlib.Core.Path.{subst}
use gamely.Base.{
  ℕ, ◌≡◌, ◌≢◌, refl, sym, ◌∙◌, ap, Option, none, some, List, [], ◌∷◌, ◌++◌, Text, codes, arith,
}
use gamely.Base.Uuid.{Uuid, parse_uuid}
use gamely.Errors.{
  Exec, Outcome, returns, raises, cancelled, dispatch, Exception, application, integrity_error,
  value_error, key_error, type_error, runtime_error, recipient_refused, redis_error, other, ◌>>=◌,
}
use gamely.Redis.Documented.{Documented}
use gamely.Outside.{Outside, World}
use gamely.Settings.{Settings}
use gamely.Auth.Service.{refresh, Session}
use gamely.Auth.Token.{
  session_value, refresh_key, token_digest, rotate_refresh, revoke_all, decode_access,
}
use gamely.Auth.Token.Dead.{Fails, continue-Fails, rotate_refresh-Fails}
use gamely.Auth.Token.Histories.{TokenSteps, empty_keys, revoke_all-ends_every}
use gamely.Auth.Token.Rotation.{text_entry}
use gamely.Api.Address.{IpAddresses}
use gamely.Api.Controller.{current_user, clear_refresh, logout_all_endpoint, refresh_endpoint}
use gamely.Api.Dto.{TokenResponse}
use gamely.Api.Exchange.{Change, delete_cookie, set_status, Request, Exchange, on_world, change}
use gamely.Api.Routes.{Answer, answered, answer_of, serve, post_logout_all, post_refresh}
use gamely.Api.Routes.Sessions.{session_answer, serve-session}

-- An answer that is an error or none.
abbrev pub IsUnanswered : {B : Type 0} → Answer B → Type 0
IsUnanswered {B} a = (status : ℕ) (changes : List Change) (b : B) → a ≢ answered status changes b

raised-IsUnanswered :
    {B : Type 0} (n : ℕ) (x : Exception)
    → IsUnanswered {B = B} (answer_of n [] (dispatch (raises x)))
unfolding dispatch
raised-IsUnanswered n (application a) status changes b e = ground arith
raised-IsUnanswered n integrity_error status changes b e = ground arith
raised-IsUnanswered n value_error status changes b e = ground arith
raised-IsUnanswered n key_error status changes b e = ground arith
raised-IsUnanswered n type_error status changes b e = ground arith
raised-IsUnanswered n runtime_error status changes b e = ground arith
raised-IsUnanswered n recipient_refused status changes b e = ground arith
raised-IsUnanswered n (redis_error m) status changes b e = ground arith
raised-IsUnanswered n (other m) status changes b e = ground arith

module _ (o : Outside) (ip : IpAddresses) (settings : Settings) where
  failed-IsUnanswered :
      (r : Outcome Session) → Fails r → IsUnanswered (session_answer o ip settings r)
  unfolding dispatch
  failed-IsUnanswered (returns s) h status changes b e = h s refl
  failed-IsUnanswered (raises x) h status changes b e = raised-IsUnanswered 200 x status changes b e
  failed-IsUnanswered cancelled h status changes b e = ground arith

  dead-IsUnanswered :
      (D : Documented o.redis) (request : Request) (c : ℕ) (cs : Text) (w : World o)
      → request.refresh_cookie ≡ some (c ∷ cs)
      → D.view w.server (refresh_key (token_digest o settings (c ∷ cs))) ≡ none
      → IsUnanswered (post_refresh o ip settings request w).0
  unfolding post_refresh refresh_endpoint refresh
  dead-IsUnanswered D request c cs w cookie gone = rw cookie (
      subst (λ (p : Answer TokenResponse × World o). IsUnanswered p.0)
        (sym (serve-session o ip settings (refresh o settings (c ∷ cs)) w))
        (failed-IsUnanswered (refresh o settings (c ∷ cs) w).0 (
          continue-Fails _ (rotate_refresh o settings (c ∷ cs) w).0
            (rotate_refresh o settings (c ∷ cs) w).1
            (rotate_refresh-Fails o settings D (c ∷ cs) w gone))))

  bearer_user :
      (request : Request) (token sub : Text) (u : Uuid) (w : World o)
      → request.authorization ≡ some (codes "Bearer " ++ token)
      → o.jwt_decode settings.auth_jwt_secret settings.auth_jwt_issuer settings.auth_jwt_audience
          w.now token
        ≡ some (some sub)
      → parse_uuid sub ≡ some u
      → current_user o ip settings request w ≡ (returns u, w)
  unfolding current_user decode_access
  bearer_user request token sub u w bearer decodes parses = rw (bearer, decodes, parses) refl

  abbrev end_all : Uuid → Exec (Exchange o) (Unit {0})
  end_all u = on_world o (revoke_all o settings u) >>= λ _.
      clear_refresh o ip settings >>= λ _. change o (set_status 204)

  abbrev logged_out_all : Answer (Unit {0})
  logged_out_all =
      answered 204
        (delete_cookie settings.auth_refresh_cookie_name settings.auth_refresh_cookie_domain
            settings.auth_refresh_cookie_path
          ∷ set_status 204
          ∷ [])
        tt

  post_logout_all-eq :
      (request : Request) (u : Uuid) (w : World o)
      → current_user o ip settings request w ≡ (returns u, w)
      → (revoke_all o settings u w).0 ≡ returns tt
      → post_logout_all o ip settings request w ≡ (logged_out_all, (revoke_all o settings u w).1)
  unfolding post_logout_all logout_all_endpoint serve dispatch
  post_logout_all-eq request u w user ended =
      ap (λ p. serve o 204 (on_world o (λ _. p) >>= end_all) w) user
      ∙ ap
          (λ r.
            serve o 204
              (on_world o (λ _. (r, (revoke_all o settings u w).1)) >>= λ _.
                clear_refresh o ip settings >>= λ _. change o (set_status 204))
              w)
          ended

  module _ (D : Documented o.redis) (request later : Request) (w : World o) where
    -- On a documented Redis whose keys came from none by any `TokenSteps` of the user, a logout everywhere
    -- with a valid access token is answered with 204 and deletes the cookie; and no refresh token of the
    -- user that was live before it gets a session from the refresh route then.
    pub post_logout_all-ends :
        (token sub : Text) (u : Uuid) (f : Text) (left : Option ℕ) (c : ℕ) (cs : Text)
        → request.authorization ≡ some (codes "Bearer " ++ token)
        → o.jwt_decode settings.auth_jwt_secret settings.auth_jwt_issuer settings.auth_jwt_audience
            w.now token
          ≡ some (some sub)
        → parse_uuid sub ≡ some u
        → TokenSteps u D.collides settings empty_keys (D.view w.server)
        → D.view w.server (refresh_key (token_digest o settings (c ∷ cs)))
          ≡ some (text_entry (session_value u f) left)
        → later.refresh_cookie ≡ some (c ∷ cs)
        → let (answer, w') = post_logout_all o ip settings request w in
          (answer
            ≡ answered 204
                (delete_cookie settings.auth_refresh_cookie_name settings.auth_refresh_cookie_domain
                    settings.auth_refresh_cookie_path
                  ∷ set_status 204
                  ∷ [])
                tt)
          × IsUnanswered (post_refresh o ip settings later w').0
    post_logout_all-ends token sub u f left c cs bearer decodes parses steps live cookie =
        let (ended, dead) = revoke_all-ends_every o D settings u w steps in
        let user = bearer_user request token sub u w bearer decodes parses in
        let e = post_logout_all-eq request u w user ended in
        let gone = dead (token_digest o settings (c ∷ cs)) f left live in
        (
          ap (λ p. p.0) e,
          subst
              (λ (p : Answer (Unit {0}) × World o).
                IsUnanswered (post_refresh o ip settings later p.1).0)
              (sym e) (dead-IsUnanswered D later c cs (revoke_all o settings u w).1 cookie gone),
        )
