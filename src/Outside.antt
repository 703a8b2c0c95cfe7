-- ===== src/Outside.antt =====
-- What the backend calls and does not contain, as one value: Redis, the SQL session, the random
-- and cryptographic functions. And the world that a handler runs in.
use gamely.Base.{ℕ, suc, Bool, Option, Text}
use gamely.Base.Uuid.{Uuid}
use gamely.Errors.{Exec, Outcome, returns, ◌>>=◌}
use gamely.Redis.{Redis, Reply, Script, Command, checked, single}
use gamely.Database.{Database, Statement, Rows}
use gamely.Broker.{Broker, Action, Mailer, MailMessage}

-- The claims of an access token, `issue_access`.
pub record Claims : Type 0 where
  pub sub : Text
  pub email : Text
  pub verified : Bool
  pub iss : Text
  pub aud : Text
  pub iat : ℕ
  pub exp : ℕ

-- The claims of a provider's identity token, which are texts or absent. `email_verified` says whether
-- that claim is `True` or `"true"`.
pub record ProviderClaims : Type 0 where
  pub iss : Option Text
  pub nonce : Option Text
  pub sub : Option Text
  pub email : Option Text
  pub preferred_username : Option Text
  pub email_verified : Bool

pub record Outside : Type 1 where
  pub redis : Redis
  pub database : Database
  pub broker : Broker
  pub mailer : Mailer
  -- `secrets.token_urlsafe(n)`, `secrets.randbelow(n)` and `uuid4()` at the k-th draw
  pub token_urlsafe : ℕ → ℕ → Text
  pub randbelow : ℕ → ℕ → ℕ
  pub uuid4 : ℕ → Uuid
  -- `datetime.isoformat` of a time in seconds
  pub isoformat : ℕ → Text
  -- `hashlib.sha256(m).hexdigest()` and `hmac.new(key, m, sha256).hexdigest()`
  pub sha256_hex : Text → Text
  pub hmac_hex : Text → Text → Text
  -- `PasswordHash.hash` with the salt of the k-th draw, and `PasswordHash.verify`
  pub hash_password : ℕ → Text → Text
  pub verify_password : Text → Text → Bool
  -- `jwt.encode` with a secret. `jwt.decode` with secret, issuer, audience and the time: `none` for
  -- the `PyJWTError` of a token that does not verify, or the claim `sub`, if the token has one
  pub jwt_encode : Text → Claims → Text
  pub jwt_decode : Text → Text → Text → ℕ → Text → Option (Option Text)
  -- `jwt.decode` with the signing key that `PyJWKClient` finds at a URL, for a client and the time:
  -- `none` for any exception of the two
  pub provider_decode : Text → Text → ℕ → Text → Option ProviderClaims

-- The services that a handler reaches, the number of draws so far, and the time in seconds.
pub record World (o : Outside) : Type 0 where
  pub server : o.redis.Server
  pub session : o.database.Session
  pub connection : o.broker.Connection
  pub mail_server : o.mailer.Server
  pub draws : ℕ
  pub now : ℕ

module _ (o : Outside) where
  abbrev keep_server : World o → Outcome Reply × o.redis.Server → Outcome Reply × World o
  keep_server w (r, s) = (r, record w { server = s })

  -- One script or pipeline, atomic on the server.
  abbrev pub redis : Script → Exec (World o) Reply
  redis sc w = keep_server w (o.redis.run sc w.server)

  -- One command, where an error reply is raised by the client.
  abbrev pub command : Command → Exec (World o) Reply
  command c = redis (single c) >>= checked

  abbrev keep_session : World o → Outcome Rows × o.database.Session → Outcome Rows × World o
  keep_session w (r, s) = (r, record w { session = s })

  abbrev pub sql : Statement → Exec (World o) Rows
  sql c w = keep_session w (o.database.run c w.session)

  abbrev keep_broker :
      World o → Outcome (Unit {0}) × o.broker.Connection → Outcome (Unit {0}) × World o
  keep_broker w (r, s) = (r, record w { connection = s })

  abbrev pub amqp : Action → Exec (World o) (Unit {0})
  amqp a w = keep_broker w (o.broker.run a w.connection)

  abbrev keep_mailer : World o → Outcome (Unit {0}) × o.mailer.Server → Outcome (Unit {0}) × World o
  keep_mailer w (r, s) = (r, record w { mail_server = s })

  abbrev pub smtp : MailMessage → Exec (World o) (Unit {0})
  smtp m w = keep_mailer w (o.mailer.send m w.mail_server)

  -- A draw of a random value.
  abbrev pub draw : {A : Type 0} → (ℕ → A) → Exec (World o) A
  draw f w = (returns (f w.draws), record w { draws = suc w.draws })

  abbrev pub time_now : Exec (World o) ℕ
  time_now w = (returns w.now, w)
