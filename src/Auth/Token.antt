-- ===== src/Auth/Token.antt =====
-- backend/src/features/auth/token/token_service.py
pub mod Keys
pub mod Revocation
pub mod Rotation
pub mod Everywhere
pub mod Dead
pub mod Tracked
pub mod Kept
pub mod Histories
use gamely.Base.{
  ℕ, ◌+◌, ◌*◌, Bool, Option, none, some, List, [], ◌∷◌, ◌++◌, Text, codes, split_once, text_eq,
  if◌then◌else◌,
}
use gamely.Base.Uuid.{Uuid, uuid_text, parse_uuid}
use gamely.Errors.{
  Exec, Outcome, returns, raises, pure, lift, unauthorized, raise_message, application, make_error,
  ◌>>=◌, ◌>>◌,
}
use gamely.Redis.{Command, Reply, Script, SetMode, checked, pipeline}
use gamely.Outside.{Outside, World, redis, command, draw, time_now}
use gamely.Settings.{Settings}

unfoldable pub refresh_key : Text → Text
refresh_key digest = codes "auth:refresh:" ++ digest

unfoldable pub reuse_key : Text → Text
reuse_key digest = codes "auth:reuse:" ++ digest

unfoldable pub sessions_key : Uuid → Text
sessions_key user_id = codes "auth:sessions:" ++ uuid_text user_id

-- `_family_key`
unfoldable pub family_key : Uuid → Text → Text
family_key user_id family_id = codes "auth:session:" ++ (uuid_text user_id ++ (b':' ∷ family_id))

-- `_session_value`
unfoldable pub session_value : Uuid → Text → Text
session_value user_id family_id = uuid_text user_id ++ (b':' ∷ family_id)

-- `_ROTATE_REFRESH`
abbrev pub rotate_reused : Text → Reply → Script
rotate_reused k2 (Reply.bulk session) =
    Script.ask (Command.del (k2 ∷ []))
      λ _. Script.finish (Reply.array (codes "reused" ∷ session ∷ []))
rotate_reused k2 (Reply.error m) = Script.finish (Reply.error m)
rotate_reused k2 _ = Script.finish (Reply.array (codes "missing" ∷ [] ∷ []))

abbrev pub rotate_session : Text → Text → ℕ → Reply → Script
rotate_session k1 k2 seconds (Reply.bulk session) = Script.ask (Command.del (k1 ∷ [])) λ _.
    Script.ask (Command.set k2 session (some seconds) SetMode.always)
      λ _. Script.finish (Reply.array (codes "rotated" ∷ session ∷ []))
rotate_session k1 k2 seconds (Reply.error m) = Script.finish (Reply.error m)
rotate_session k1 k2 seconds _ = Script.ask (Command.get k2) (rotate_reused k2)

unfoldable pub rotate_script : Text → Text → ℕ → Script
rotate_script k1 k2 seconds = Script.ask (Command.get k1) (rotate_session k1 k2 seconds)

abbrev pub invalid_refresh : {S A : Type 0} → Exec S A
invalid_refresh = raise_message unauthorized "The refresh token is invalid or expired."

-- `_result_pair`: a reply of another shape counts as missing, and so does an empty status.
abbrev status_or_missing : Text → Text
status_or_missing [] = codes "missing"
status_or_missing (c ∷ cs) = c ∷ cs

unfoldable pub result_pair : Reply → Text × Text
result_pair (Reply.array (status ∷ session ∷ [])) = (status_or_missing status, session)
result_pair _ = (codes "missing", [])

-- `_parse_session`
abbrev pair_with : Text → Option Uuid → Outcome (Uuid × Text)
pair_with family_id none =
    raises (application (make_error unauthorized (some "The refresh token is invalid or expired.")))
pair_with family_id (some u) = returns (u, family_id)

abbrev checked_parts : Text → Option Text → Outcome (Uuid × Text)
checked_parts u (some (c ∷ cs)) = pair_with (c ∷ cs) (parse_uuid u)
checked_parts u _ =
    raises (application (make_error unauthorized (some "The refresh token is invalid or expired.")))

unfoldable pub parse_session : Text → Outcome (Uuid × Text)
parse_session value = let (u, rest) = split_once b':' value in checked_parts u rest

-- The reply of SMEMBERS, and of GET, as the client hands them on.
abbrev pub members_of : Reply → List Text
members_of (Reply.array xs) = xs
members_of _ = []

abbrev pub text_of : Reply → Option Text
text_of (Reply.bulk t) = some t
text_of _ = none

abbrev pub revoke_digests : List Text → List Command
revoke_digests [] = []
revoke_digests (d ∷ ds) =
    Command.del (refresh_key d ∷ []) ∷ Command.del (reuse_key d ∷ []) ∷ revoke_digests ds

-- The lifetime of a refresh token in seconds.
abbrev pub refresh_seconds : Settings → ℕ
refresh_seconds settings = settings.auth_refresh_token_days * 86400

unfoldable pub issue_pipeline : Settings → Uuid → Text → Text → Script
issue_pipeline settings user_id family_id digest = pipeline (
    Command.set (refresh_key digest) (session_value user_id family_id)
      (some (refresh_seconds settings)) SetMode.always
    ∷ Command.sadd (family_key user_id family_id) digest
    ∷ Command.expire (family_key user_id family_id) (refresh_seconds settings)
    ∷ Command.sadd (sessions_key user_id) family_id
    ∷ Command.expire (sessions_key user_id) (refresh_seconds settings)
    ∷ [])

unfoldable pub revoke_pipeline : Uuid → Text → List Text → Script
revoke_pipeline user_id family_id digests = pipeline (
    revoke_digests digests
    ++ (Command.del (family_key user_id family_id ∷ [])
        ∷ Command.srem (sessions_key user_id) family_id
        ∷ []))

module _ (o : Outside) (settings : Settings) where
  -- `_digest`
  unfoldable pub token_digest : Text → Text
  token_digest value = o.hmac_hex settings.auth_jwt_secret value

  unfoldable pub issue_access : Uuid → Text → Bool → Exec (World o) Text
  issue_access user_id email verified = do
    now ← time_now o
    pure (
        o.jwt_encode settings.auth_jwt_secret (record {
          sub = uuid_text user_id;
          email = email;
          verified = verified;
          iss = settings.auth_jwt_issuer;
          aud = settings.auth_jwt_audience;
          iat = now;
          exp = now + settings.auth_access_token_minutes * 60;
        }))

  abbrev invalid_access : {A : Type 0} → Exec (World o) A
  invalid_access = raise_message unauthorized "The access token is invalid or expired."

  abbrev uuid_or_invalid : Option Uuid → Exec (World o) Uuid
  uuid_or_invalid none = invalid_access
  uuid_or_invalid (some u) = pure u

  -- A token that does not verify, one with no `sub`, and one whose `sub` is no UUID.
  abbrev subject_of : Option (Option Text) → Exec (World o) Uuid
  subject_of none = invalid_access
  subject_of (some none) = invalid_access
  subject_of (some (some sub)) = uuid_or_invalid (parse_uuid sub)

  unfoldable pub decode_access : Text → Exec (World o) Uuid
  decode_access value = do
    now ← time_now o
    subject_of (
        o.jwt_decode settings.auth_jwt_secret settings.auth_jwt_issuer settings.auth_jwt_audience
          now value)

  -- `family_id or secrets.token_urlsafe(24)`
  abbrev family_or_new : Option Text → Exec (World o) Text
  family_or_new (some (c ∷ cs)) = pure (c ∷ cs)
  family_or_new _ = draw o (o.token_urlsafe 24)

  unfoldable pub issue_refresh : Uuid → Option Text → Exec (World o) Text
  unfolding token_digest
  issue_refresh user_id family_id = do
    value ← draw o (o.token_urlsafe 48)
    family ← family_or_new family_id
    reply ← redis o (issue_pipeline settings user_id family (token_digest value))
    checked reply
    pure value

  -- `_revoke_family`
  unfoldable pub revoke_family : Uuid → Text → Exec (World o) (Unit {0})
  revoke_family user_id family_id = do
    found ← command o (Command.smembers (family_key user_id family_id))
    reply ← redis o (revoke_pipeline user_id family_id (members_of found))
    checked reply
    pure tt

  abbrev finish_rotation : Text → Uuid × Text → Exec (World o) (Uuid × Text)
  finish_rotation status (user_id, family_id) =
      if text_eq status (codes "reused")
      then (do
        revoke_family user_id family_id
        raise_message unauthorized "The refresh token has already been used.")
      else if text_eq status (codes "rotated")
      then pure (user_id, family_id)
      else invalid_refresh

  abbrev parse_rotation : Text × Text → Exec (World o) (Uuid × Text)
  parse_rotation (status, session) =
      if text_eq status (codes "missing")
      then invalid_refresh
      else (do parsed ← lift (parse_session session); finish_rotation status parsed)

  unfoldable pub rotate_refresh : Text → Exec (World o) (Uuid × Text)
  unfolding token_digest
  rotate_refresh value = do
    let digest = token_digest value
    reply ←
        redis o (rotate_script (refresh_key digest) (reuse_key digest) (refresh_seconds settings))
    result ← checked reply
    parse_rotation (result_pair result)

  abbrev revoke_session : Option Text → Exec (World o) (Unit {0})
  revoke_session none = pure tt
  revoke_session (some session) = do
    parsed ← lift (parse_session session)
    let (user_id, family_id) = parsed
    revoke_family user_id family_id

  unfoldable pub revoke_refresh : Text → Exec (World o) (Unit {0})
  unfolding token_digest
  revoke_refresh value = do
    found ← command o (Command.get (refresh_key (token_digest value)))
    revoke_session (text_of found)

  unfoldable pub revoke_families : Uuid → List Text → Exec (World o) (Unit {0})
  revoke_families user_id [] = pure tt
  revoke_families user_id (family_id ∷ rest) = do
    revoke_family user_id family_id
    revoke_families user_id rest

  unfoldable pub revoke_all : Uuid → Exec (World o) (Unit {0})
  unfolding revoke_families
  revoke_all user_id = do
    found ← command o (Command.smembers (sessions_key user_id))
    revoke_families user_id (members_of found)
    command o (Command.del (sessions_key user_id ∷ []))
    pure tt
