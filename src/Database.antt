-- ===== src/Database.antt =====
-- backend/src/features/auth/auth_model.py, and the SQLAlchemy session that the repository uses, as
-- an interface: a theorem that relies on what the statements do takes `Documented`.
pub mod Documented
use gamely.Base.{ℕ, Option, Text}
use gamely.Base.Uuid.{Uuid}
use gamely.Errors.{Outcome}

-- `User`. The columns `created_at` and `updated_at` are written by the database alone.
pub record User : Type 0 where
  pub id : Uuid
  pub email : Text
  pub password_hash : Option Text
  pub email_verified_at : Option ℕ

-- `OAuthIdentity`
pub record OauthIdentity : Type 0 where
  pub user_id : Uuid
  pub provider : Text
  pub subject : Text

-- What the repository asks of its session. `write_user` is an assignment to a loaded user's
-- attributes, which the session flushes with the next statement.
pub data Statement : Type 0 where
  select_user_by_email : Text → Statement
  get_user : Uuid → Statement
  select_identity : Text → Text → Statement
  add_user : User → Statement
  add_identity : OauthIdentity → Statement
  write_user : User → Statement
  commit rollback : Statement

pub data Rows : Type 0 where
  no_row : Rows
  user_row : User → Rows
  identity_row : OauthIdentity → Rows

pub record Database : Type 1 where
  pub Session : Type 0
  -- Any statement can raise, and nothing is known of the session then.
  pub run : Statement → Session → Outcome Rows × Session
