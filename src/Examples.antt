-- ===== src/Examples.antt =====
-- A concrete environment, and one run of each main result in it.
mod Tokens
mod Codes
mod Filters
mod Mail
mod Accounts
mod Providers
mod Containers
mod Endpoints
mod Layers
use gamely.Base.{
  true, ℕ, zero, suc, ◌%◌, ◌+◌, ◌<◌, Option, none, some, List, [], ◌∷◌, ◌++◌, Text, codes, text_eq,
  arith, refl,
}
use gamely.Base.Decimal.{decimal}
use gamely.Base.Uuid.{Uuid, HexDigits, IsUuid}
use gamely.Broker.{Mailer, MailMessage}
use gamely.Broker.Documented.{local_broker}
use gamely.Database.{User}
use gamely.Database.Documented.{Tables, local_database}
use gamely.Errors.{returns}
use gamely.Outside.{Outside, ProviderClaims, World}
use gamely.Redis.Documented.{Keyspace, local_redis}
use gamely.Settings.{Settings, default_settings}

abbrev mailer : Mailer
mailer = record { Server = List MailMessage; send = λ m sent. (returns tt, m ∷ sent) }

abbrev sevens : ℕ → Uuid
sevens zero = []
sevens (suc n) = 7 ∷ sevens n

abbrev pub some_id : Uuid
some_id = sevens 32

sevens-HexDigits : (n : ℕ) → HexDigits (sevens n)
sevens-HexDigits zero = tt
sevens-HexDigits (suc n) = (omega arith, sevens-HexDigits n)

pub some_id-IsUuid : IsUuid some_id
some_id-IsUuid = (refl, sevens-HexDigits 32)

-- A token of any provider is the text of its nonce, for `ann`.
abbrev provider_claims : Text → Option ProviderClaims
provider_claims t = some (record {
  iss = some (codes "https://appleid.apple.com");
  nonce = some t;
  sub = some (codes "s1");
  email = some (codes "Ann@X.org");
  preferred_username = none;
  email_verified = true;
})

-- The random functions count, and the cryptographic ones mark their argument.
abbrev pub local : Outside
local = record {
  redis = local_redis;
  database = local_database;
  broker = local_broker;
  mailer = mailer;
  token_urlsafe = λ n k. codes "token" ++ decimal k;
  randbelow = λ n k. k % n;
  uuid4 = λ k. some_id;
  isoformat = decimal;
  sha256_hex = λ m. b'd' ∷ m;
  hmac_hex = λ key m. b'm' ∷ m;
  hash_password = λ k p. p;
  verify_password = text_eq;
  jwt_encode = λ secret c. c.sub;
  jwt_decode = λ secret iss aud now t. some (some t);
  provider_decode = λ url client now t. provider_claims t;
}

abbrev pub ann : Text
ann = codes "ann@x.org"

abbrev pub no_keys : Keyspace
no_keys k = none

abbrev pub ann_account : User
ann_account = record {
  id = some_id;
  email = ann;
  password_hash = some (codes "correct horse");
  email_verified_at = none;
}

abbrev no_tables : Tables
no_tables = record { users = []; identities = [] }

abbrev pub one_account : Tables
one_account = record { users = ann_account ∷ []; identities = [] }

-- A world with these keys and these accounts.
abbrev pub world : Keyspace → Tables → World local
world ks t = record {
  server = ks;
  session = record { committed = t; current = t };
  connection = [];
  mail_server = [];
  draws = 0;
  now = 1000;
}

abbrev pub empty_world : World local
empty_world = world no_keys no_tables

abbrev pub mail_settings : Settings
mail_settings = record default_settings { smtp_host = codes "localhost"; smtp_from = codes "a@b.c" }
