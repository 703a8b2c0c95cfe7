-- ===== src/Auth/Service/Login.antt =====
-- `login` and `issue_access`, backend/src/features/auth.
use gamely.Base.{◌≡◌, refl, ◌∙◌, Bool, true, false, Option, none, some, Text, ltb, leb, ℕ, ◌+◌, ◌*◌}
use gamely.Base.Uuid.{Uuid, IsUuid, parse_uuid-uuid_text}
use gamely.Errors.{Exception, returns, raises, application, make_error, unauthorized}
use gamely.Database.{User, Statement}
use gamely.Database.Documented.{Documented, find_user, user_rows}
use gamely.Auth.EmailAddress.{normalize_email}
use gamely.Auth.Repository.{by_email, user_of}
use gamely.Auth.Token.{issue_access, decode_access}
use gamely.Auth.Service.{login, login_user, matches}
use gamely.Outside.{Outside, World, Claims}
use gamely.Settings.{Settings}

abbrev pub incorrect : Exception
incorrect =
    application (make_error unauthorized (some "The email address or password is incorrect."))

module _ (o : Outside) (settings : Settings) where
  -- An account without a password is opened by none.
  abbrev pub verifies : Text → Option Text → Bool
  verifies password none = false
  verifies password (some hashed) = o.verify_password password hashed

  verifies-matches :
      (password : Text) (hashed : Option Text)
      → matches o settings password hashed ≡ verifies password hashed
  verifies-matches password none = refl
  verifies-matches password (some hashed) = refl

  -- Whether the password opens the account, if there is one.
  abbrev pub opens : Text → Option User → Bool
  opens password none = false
  opens password (some user) = verifies password user.password_hash

  login_user-refused :
      (password : Text) (found : Option User) (w : World o)
      → opens password found ≡ false
      → login_user o settings password (user_of (user_rows found)) w ≡ (raises incorrect, w)
  login_user-refused password none w h = refl
  login_user-refused password (some user) w h =
      rw (verifies-matches password user.password_hash ∙ h) refl

  -- On a documented database, where the address is one, `login` answers an address with no account,
  -- an account with no password and a wrong password with one and the same exception, and reaches
  -- no other service: Redis, the broker and the random draws are as they were.
  pub login-refused :
      (D : Documented o.database) (value email password : Text) (w : World o)
      → normalize_email value ≡ returns email
      → opens password (find_user email (D.view w.session).current.users) ≡ false
      → let (r, w') = login o settings value password w in
        (r ≡ raises incorrect)
        × (w'.server ≡ w.server)
        × (w'.connection ≡ w.connection)
        × (w'.draws ≡ w.draws)
  unfolding login by_email
  login-refused D value email password w valid refused =
      rw (valid, D.run_lem)
        (rw
          (login_user-refused password (find_user email (D.view w.session).current.users)
            (record w { session = D.after (Statement.select_user_by_email email) w.session })
            refused)
          (refl, refl, refl, refl))

  -- What `jwt.encode` signs, `jwt.decode` verifies with the same secret, issuer and audience, while
  -- the token has not expired and was not issued in the future, and gives its `sub`.
  pub record JwtDocumented : Type 0 where
    pub decode-encode :
        (secret : Text) (c : Claims) (now : ℕ)
        → leb c.iat now ≡ true
        → ltb now c.exp ≡ true
        → o.jwt_decode secret c.iss c.aud now (o.jwt_encode secret c) ≡ some (some c.sub)

  -- Where `jwt.decode` verifies what `jwt.encode` signs, an access token names its user to
  -- `decode_access` from then on until the minutes of the settings have passed, whatever else has happened in
  -- the world.
  pub decode_access-issue_access :
      (J : JwtDocumented) (u : Uuid) (email : Text) (verified : Bool) (w later : World o)
      → IsUuid u
      → leb w.now later.now ≡ true
      → ltb later.now (w.now + settings.auth_access_token_minutes * 60) ≡ true
      → (token : Text) × ((issue_access o settings u email verified w).0 ≡ returns token)
        × ((decode_access o settings token later).0 ≡ returns u)
  unfolding issue_access decode_access
  decode_access-issue_access J u email verified w later hu after fresh =
      (_, refl, rw (J.decode-encode _ _ _ after fresh) (rw (parse_uuid-uuid_text u hu)))
