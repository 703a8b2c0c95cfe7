-- ===== src/Examples/Tokens.antt =====
-- Refresh tokens, access tokens and their session texts.
use gamely.Base.{
  List, text_eq_sound, ◌≡◌, ◌≢◌, refl, true, false, Option, ℕ, none, some, [], ◌∷◌, ◌++◌, Text,
  codes, text_eq, contains, ◌||◌, if◌then◌else◌, arith,
}
use gamely.Base.Uuid.{uuid_text, parse_uuid}
use gamely.Errors.{returns}
use mathlib.Core.Path.{subst}
use gamely.Redis.{Reply}
use gamely.Redis.Documented.{
  perform, on_smembers, Keyspace, Entry, put, members, local_redis-Documented,
}
use gamely.Settings.{default_settings}
use gamely.Auth.Token.{
  revoke_all, refresh_key, reuse_key, family_key, sessions_key, session_value, rotate_refresh,
  token_digest, refresh_seconds, issue_pipeline, issue_access, decode_access,
}
use gamely.Auth.Token.Histories.{
  TokenSteps, begin, then_step, issue, empty_keys, revoke_all-ends_every,
}
use gamely.Auth.Token.Rotation.{
  rotate_refresh-live, rotate_refresh-reused, text_entry, already_used,
}
use gamely.Api.Address.{IpAddresses}
use gamely.Api.Exchange.{Request, delete_cookie, set_status}
use gamely.Api.Routes.{answered, post_logout_all, post_refresh}
use gamely.Api.Routes.Ending.{IsUnanswered, post_logout_all-ends}
use gamely.Auth.Service.{set_password}
use gamely.Auth.Service.Keeps.{tables}
use gamely.Auth.Service.Password.{set_password-ends_sessions}
use gamely.Database.Documented.{local_database-Documented}
use gamely.Auth.Service.Login.{JwtDocumented, decode_access-issue_access}
use gamely.Examples.{
  ann_account, local, empty_world, world, no_keys, one_account, some_id, some_id-IsUuid, ann,
}

abbrev family : Text
family = codes "fam"

family_ne : family ≢ []
family_ne e = ground (arith, e)

-- This token is live.
abbrev live_token : Text
live_token = codes "live"

abbrev live_keys : Keyspace
live_keys =
    put (refresh_key (token_digest local default_settings live_token))
      (text_entry (session_value some_id family) (some 5)) no_keys

abbrev set_of : Text → Entry
set_of x = record { value = members (x ∷ []); left = some 9 }

abbrev used_keys : Keyspace
used_keys =
    put (reuse_key (token_digest local default_settings live_token))
      (text_entry (session_value some_id family) (some 5))
      (put (family_key some_id family) (set_of (token_digest local default_settings live_token))
        (put (sessions_key some_id) (set_of family) no_keys))

rotate_refresh-live_example :
    let w = world live_keys one_account in
    let (r, w') = rotate_refresh local default_settings live_token w in
    let d = token_digest local default_settings live_token in
    (r ≡ returns (some_id, family))
    × (w'.server (refresh_key d) ≡ (
        if text_eq (reuse_key d) (refresh_key d)
        then some
            (text_entry (session_value some_id family) (some (refresh_seconds default_settings)))
        else if text_eq (refresh_key d) (refresh_key d)
        then none
        else w.server (refresh_key d)))
unfolding refresh_key token_digest
rotate_refresh-live_example =
    rotate_refresh-live local local_redis-Documented default_settings live_token
      (world live_keys one_account) some_id family (some 5)
      (refresh_key (token_digest local default_settings live_token)) some_id-IsUuid family_ne refl

rotate_refresh-reused_example :
    let w = world used_keys one_account in
    let d = token_digest local default_settings live_token in
    let ds = d ∷ [] in
    let (r, w') = rotate_refresh local default_settings live_token w in
    (r ≡ already_used)
    × (w'.server (refresh_key d) ≡ (if contains ds d then none else w.server (refresh_key d)))
    × (w'.server (reuse_key d)
        ≡ (if contains ds d || text_eq d d then none else w.server (reuse_key d)))
    × (w'.server (family_key some_id family) ≡ none)
unfolding refresh_key reuse_key family_key sessions_key token_digest uuid_text
rotate_refresh-reused_example =
    rotate_refresh-reused local local_redis-Documented default_settings live_token
      (world used_keys one_account) some_id family (some 5)
      (token_digest local default_settings live_token ∷ []) (family ∷ [])
      (token_digest local default_settings live_token) some_id-IsUuid family_ne
      (record { digests = refl; families = refl }) refl refl

local-JwtDocumented : JwtDocumented local default_settings
local-JwtDocumented = record { decode-encode = λ secret c now i h. refl }

decode_access-issue_access_example :
    (token : Text) × ((issue_access local default_settings some_id ann true empty_world).0
      ≡ returns token)
    × ((decode_access local default_settings token (record empty_world { now = 1200 })).0
        ≡ returns some_id)
decode_access-issue_access_example =
    decode_access-issue_access local default_settings local-JwtDocumented some_id ann true
      empty_world (record empty_world { now = 1200 }) some_id-IsUuid refl refl

-- A live token whose family is the user's only one.
abbrev digest : Text
digest = token_digest local default_settings live_token

abbrev one_session : Keyspace
one_session = put (refresh_key digest) (text_entry (session_value some_id family) (some 5)) (
    put (family_key some_id family) (set_of digest)
      (put (sessions_key some_id) (set_of family) no_keys))

one_family :
    (f : Text)
    → contains (family ∷ []) f ≡ true
    → (ds : List Text) × (on_smembers (one_session (family_key some_id f)) ≡ Reply.array ds)
unfolding refresh_key family_key sessions_key token_digest uuid_text
one_family f h =
    let e : family ≡ f = text_eq_sound family f (ground (arith, h)) in
    subst
      (λ g. (ds : List Text) × (on_smembers (one_session (family_key some_id g)) ≡ Reply.array ds))
      e (digest ∷ [], refl)

set_password-ends_sessions_example :
    let w = world one_session one_account in
    let (r, w') = set_password local default_settings ann_account (codes "new password") w in
    (r ≡ returns tt)
    × (tables local local_database-Documented w' ≡ record one_account {
      users = record ann_account { password_hash = some (codes "new password") } ∷ [];
    })
    × (w'.server (refresh_key digest) ≡ none)
    × (w'.server (sessions_key some_id) ≡ none)
unfolding refresh_key family_key sessions_key token_digest uuid_text
set_password-ends_sessions_example =
    set_password-ends_sessions local local_database-Documented default_settings ann_account
      (codes "new password") (world one_session one_account) local_redis-Documented (family ∷ [])
      family (digest ∷ []) digest refl (record { family = one_family; user = (family ∷ [], refl) })
      refl refl refl

-- A logout everywhere with the access token of that user, and a later refresh.
abbrev no_addresses : IpAddresses
no_addresses = record { ip_address = λ t. none; v4_text = λ n. []; v6_text = λ n. [] }

abbrev logout_request : Request
logout_request = record {
  client = none;
  authorization = some (codes "Bearer " ++ uuid_text some_id);
  refresh_cookie = none;
}

abbrev refresh_request : Request
refresh_request = record { client = none; authorization = none; refresh_cookie = some live_token }

-- The user got one token, on a server that held nothing.
abbrev issued_keys : Keyspace
issued_keys =
    (perform (λ _ _. false) (issue_pipeline default_settings some_id family digest) empty_keys).1

one_step : TokenSteps some_id (λ _ _. false) default_settings empty_keys issued_keys
one_step =
    then_step empty_keys empty_keys issued_keys (begin empty_keys) (issue empty_keys family digest)

revoke_all-ends_every_example :
    let w = world issued_keys one_account in
    let (r, w') = revoke_all local default_settings some_id w in
    (r ≡ returns tt)
    × ((d f : Text) (left : Option ℕ)
        → issued_keys (refresh_key d) ≡ some (text_entry (session_value some_id f) left)
        → w'.server (refresh_key d) ≡ none)
revoke_all-ends_every_example =
    revoke_all-ends_every local local_redis-Documented default_settings some_id
      (world issued_keys one_account) one_step

post_logout_all-ends_example :
    let (answer, w') =
      post_logout_all local no_addresses default_settings logout_request
        (world issued_keys one_account) in
    (answer ≡ answered 204 (delete_cookie "games_refresh" none "/auth" ∷ set_status 204 ∷ []) tt)
    × IsUnanswered (post_refresh local no_addresses default_settings refresh_request w').0
unfolding refresh_key family_key sessions_key token_digest uuid_text parse_uuid issue_pipeline
post_logout_all-ends_example =
    post_logout_all-ends local no_addresses default_settings local_redis-Documented logout_request
      refresh_request (world issued_keys one_account) (uuid_text some_id) (uuid_text some_id)
      some_id family (some (refresh_seconds default_settings)) b'l' (codes "ive") refl refl refl
      one_step refl refl
