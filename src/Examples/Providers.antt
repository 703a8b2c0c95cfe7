-- ===== src/Examples/Providers.antt =====
-- Login by a provider's token.
use gamely.Base.{◌≡◌, refl, some, [], ◌∷◌, Text, codes}
use gamely.Base.Decimal.{decimal}
use gamely.Base.Uuid.{uuid_text}
use gamely.Errors.{Exception, raises}
use gamely.Redis.Documented.{Keyspace, put, drop, str, local_redis-Documented}
use gamely.Settings.{Settings, default_settings}
use gamely.Auth.Oauth.{
  ProviderConfig, nonce_key, provider_config, provider_email, email_claim, comes_from,
  names_verified_user, check_origin, check_email, login_challenged, oauth_login,
}
use gamely.Auth.Oauth.Proof.{Proven, oauth_login-Proven, oauth_login-unproven}
use gamely.Auth.Repository.{by_identity, by_email, add_identity, write_user, commit}
use gamely.Auth.Service.{Session, open_session}
use gamely.Auth.Token.{
  issue_access, issue_refresh, issue_pipeline, refresh_key, family_key, sessions_key,
}
use gamely.Examples.{local, world, no_keys, one_account, some_id, ann_account}

abbrev apple : Text
apple = codes "apple"

abbrev apple_settings : Settings
apple_settings = record default_settings { apple_client_id = codes "games" }

abbrev apple_config : ProviderConfig
apple_config = record {
  client_id = codes "games";
  issuers = codes "https://appleid.apple.com" ∷ [];
  jwks_url = codes "https://appleid.apple.com/auth/keys";
}

abbrev nonce : Text
nonce = codes "n1"

abbrev challenged : Keyspace
challenged =
    put (nonce_key apple nonce) (record { value = str (codes "1"); left = some 300 }) no_keys

abbrev session : Session
session = (
  record ann_account { email_verified_at = some 1000 },
  uuid_text some_id,
  local.token_urlsafe 48 0,
)

oauth_login-Proven_example : Proven local apple_settings apple nonce nonce 1000
unfolding oauth_login login_challenged nonce_key provider_config check_origin comes_from
    provider_email email_claim check_email names_verified_user by_identity by_email add_identity
    write_user commit open_session issue_access issue_refresh issue_pipeline refresh_key family_key
    sessions_key uuid_text decimal
oauth_login-Proven_example =
    oauth_login-Proven local apple_settings apple nonce nonce (world challenged one_account) session
      refl

-- A token for another challenge.
oauth_login-unproven_example :
    let w = world challenged one_account in
    let (r, w') = oauth_login local apple_settings apple (codes "n2") nonce w in
    ((x : Exception) × (r ≡ raises x))
    × (w'.server ≡ drop (nonce_key apple nonce) challenged)
    × (w'.session ≡ w.session)
unfolding nonce_key provider_config comes_from
oauth_login-unproven_example =
    oauth_login-unproven local apple_settings apple (codes "n2") nonce local_redis-Documented
      (world challenged one_account) apple_config
      (record { value = str (codes "1"); left = some 300 }) refl refl refl
