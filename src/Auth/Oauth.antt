-- ===== src/Auth/Oauth.antt =====
-- backend/src/features/auth/oauth/oauth_service.py. The cache of key clients is not modelled: fetching
-- a provider's keys and verifying a token by them is `provider_decode`.
pub mod Proof
use Prim.Native.String.{String}
use gamely.Base.{
  ℕ, Bool, true, false, not, ◌&&◌, ◌||◌, Option, none, some, List, [], ◌∷◌, ◌++◌, Text, codes,
  text_eq, contains, has_char, lower, length, ltb, leb, ◌==◌, if◌then◌else◌,
}
use gamely.Errors.{
  Exec, Outcome, returns, raises, application, make_error, bad_request, unauthorized, pure, lift,
  raise_message, ◌>>=◌, ◌>>◌,
}
use gamely.Database.{User, OauthIdentity}
use gamely.Redis.{Command, Reply, SetMode}
use gamely.Auth.EmailAddress.{strip}
use gamely.Auth.Filter.{remember}
use gamely.Auth.Repository.{by_email, by_identity, create_user, add_identity, write_user, commit}
use gamely.Auth.Service.{Session, is_verified, require_user, open_session}
use gamely.Outside.{Outside, ProviderClaims, World, command, draw, time_now}
use gamely.Settings.{Settings}

unfoldable pub nonce_key : Text → Text → Text
nonce_key provider nonce = codes "auth:oauth-nonce:" ++ (provider ++ (b':' ∷ nonce))

pub record ProviderConfig : Type 0 where
  pub client_id : Text
  pub issuers : List Text
  pub jwks_url : Text

-- `_configured`, with its message for the provider
abbrev configured : String → Text → List Text → Text → Outcome ProviderConfig
configured message [] issuers jwks_url =
    raises (application (make_error bad_request (some message)))
configured message (c ∷ cs) issuers jwks_url =
    returns (record { client_id = c ∷ cs; issuers = issuers; jwks_url = jwks_url })

abbrev microsoft_config : Text → Text → Outcome ProviderConfig
microsoft_config [] client_id =
    raises (application (make_error bad_request (some "The OAuth provider is not configured.")))
microsoft_config (c ∷ cs) client_id =
    let tenant = c ∷ cs in
    let base = codes "https://login.microsoftonline.com/" in
    configured "The microsoft OAuth provider is not configured." client_id
      ((base ++ (tenant ++ codes "/v2.0")) ∷ []) (base ++ (tenant ++ codes "/discovery/v2.0/keys"))

-- `_provider_config`
unfoldable pub provider_config : Settings → Text → Outcome ProviderConfig
provider_config settings provider =
    if text_eq provider (codes "google")
    then configured "The google OAuth provider is not configured." settings.google_client_id
        (codes "https://accounts.google.com" ∷ codes "accounts.google.com" ∷ [])
        (codes "https://www.googleapis.com/oauth2/v3/certs")
    else if text_eq provider (codes "apple")
    then configured "The apple OAuth provider is not configured." settings.apple_client_id
        (codes "https://appleid.apple.com" ∷ []) (codes "https://appleid.apple.com/auth/keys")
    else if text_eq provider (codes "microsoft")
    then microsoft_config settings.microsoft_tenant_id settings.microsoft_client_id
    else raises (application (make_error bad_request (some "The OAuth provider is unsupported.")))

-- `claims.get(name, "")`
abbrev pub text_or_empty : Option Text → Text
text_or_empty none = []
text_or_empty (some t) = t

-- `a or b or ""`
abbrev pub first_text : Option Text → Option Text → Text
first_text (some (c ∷ cs)) b = c ∷ cs
first_text _ b = text_or_empty b

-- `_email_claim`
unfoldable pub email_claim : Text → ProviderClaims → Text
email_claim provider claims =
    if text_eq provider (codes "microsoft")
    then first_text claims.email claims.preferred_username
    else text_or_empty claims.email

-- `_email_address`
unfoldable pub provider_email : Text → Outcome Text
unfolding strip
provider_email value =
    let email = lower (strip value) in
    if not (has_char b'@' email) || ltb 320 (length email)
    then raises (
        application
          (make_error unauthorized (some "The provider did not supply a valid email address.")))
    else returns email

-- The conditions of the two guards of `login`.
unfoldable pub comes_from : ProviderConfig → Text → ProviderClaims → Bool
comes_from config nonce claims =
    contains config.issuers (text_or_empty claims.iss) && text_eq (text_or_empty claims.nonce) nonce

unfoldable pub names_verified_user : Text → ProviderClaims → Bool
names_verified_user provider claims =
    not (length (text_or_empty claims.sub) == 0)
    && (text_eq provider (codes "microsoft") || claims.email_verified)

-- The reply of DEL: the number of keys.
abbrev pub was_deleted : Reply → Bool
was_deleted (Reply.int n) = not (n == 0)
was_deleted _ = false

module _ (o : Outside) (settings : Settings) where
  unfoldable pub create_challenge : Text → Exec (World o) Text
  create_challenge provider = do
    lift (provider_config settings provider)
    nonce ← draw o (o.token_urlsafe 32)
    command o (Command.set (nonce_key provider nonce) (codes "1") (some 300) SetMode.always)
    pure nonce

  abbrev pub decoded : Option ProviderClaims → Exec (World o) ProviderClaims
  decoded none = raise_message unauthorized "The provider token is invalid."
  decoded (some claims) = pure claims

  unfoldable pub check_origin : ProviderConfig → Text → ProviderClaims → Exec (World o) (Unit {0})
  check_origin config nonce claims =
      if comes_from config nonce claims
      then pure tt
      else raise_message unauthorized "The provider token could not be verified."

  unfoldable pub check_email : Text → ProviderClaims → Exec (World o) (Unit {0})
  check_email provider claims =
      if names_verified_user provider claims
      then pure tt
      else raise_message unauthorized "The provider did not supply a verified email address."

  -- The account of the address: a new one, or the one that exists, which is then verified.
  abbrev pub owner_of : Text → Option User → Exec (World o) User
  owner_of email none = do
    user ← create_user o email none true
    remember o settings email
    pure user
  owner_of email (some user) = if is_verified user then pure user else (do
    now ← time_now o
    let verified : User = record user { email_verified_at = some now }
    write_user o verified
    pure verified)

  abbrev pub account_of : Text → Text → Text → Option OauthIdentity → Exec (World o) User
  account_of provider subject email (some identity) = require_user o settings identity.user_id
  account_of provider subject email none = do
    existing ← by_email o email
    user ← owner_of email existing
    add_identity o user provider subject
    commit o
    pure user

  -- `login` once the challenge is taken
  unfoldable pub login_challenged : Text → Text → Text → Exec (World o) Session
  login_challenged provider id_token nonce = do
    config ← lift (provider_config settings provider)
    now ← time_now o
    claims ← decoded (o.provider_decode config.jwks_url config.client_id now id_token)
    check_origin config nonce claims
    email ← lift (provider_email (email_claim provider claims))
    check_email provider claims
    identity ← by_identity o provider (text_or_empty claims.sub)
    user ← account_of provider (text_or_empty claims.sub) email identity
    open_session o settings user none

  unfoldable pub oauth_login : Text → Text → Text → Exec (World o) Session
  oauth_login provider id_token nonce = do
    deleted ← command o (Command.del (nonce_key provider nonce ∷ []))
    if was_deleted deleted
        then login_challenged provider id_token nonce
        else raise_message unauthorized "The OAuth challenge is invalid or expired."
