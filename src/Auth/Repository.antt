-- ===== src/Auth/Repository.antt =====
-- backend/src/features/auth/auth_repository.py. The stream of addresses is not modelled: the warmer
-- takes the batches as an argument.
use gamely.Base.{Bool, Option, none, some, Text, if◌then◌else◌}
use gamely.Base.Uuid.{Uuid}
use gamely.Errors.{Exec, pure, ◌>>=◌, ◌>>◌}
use gamely.Database.{User, OauthIdentity, Statement, Rows}
use gamely.Outside.{Outside, World, sql, draw, time_now}

abbrev pub user_of : Rows → Option User
user_of (Rows.user_row u) = some u
user_of _ = none

abbrev pub identity_of : Rows → Option OauthIdentity
identity_of (Rows.identity_row i) = some i
identity_of _ = none

module _ (o : Outside) where
  unfoldable pub by_email : Text → Exec (World o) (Option User)
  by_email email = do rows ← sql o (Statement.select_user_by_email email); pure (user_of rows)

  unfoldable pub by_id : Uuid → Exec (World o) (Option User)
  by_id user_id = do rows ← sql o (Statement.get_user user_id); pure (user_of rows)

  unfoldable pub by_identity : Text → Text → Exec (World o) (Option OauthIdentity)
  by_identity provider subject = do
    rows ← sql o (Statement.select_identity provider subject)
    pure (identity_of rows)

  -- The id is drawn by the column's default, `uuid4`.
  unfoldable pub create_user : Text → Option Text → Bool → Exec (World o) User
  create_user email password_hash verified = do
    now ← time_now o
    id ← draw o o.uuid4
    let user : User = record {
      id = id;
      email = email;
      password_hash = password_hash;
      email_verified_at = if verified then some now else none;
    }
    sql o (Statement.add_user user)
    pure user

  -- The session writes the row with the next statement, which is a commit.
  unfoldable pub add_identity : User → Text → Text → Exec (World o) (Unit {0})
  add_identity user provider subject = do
    sql o (
        Statement.add_identity
          (record { user_id = user.id; provider = provider; subject = subject }))
    pure tt

  -- An assignment to the attributes of a loaded user.
  unfoldable pub write_user : User → Exec (World o) (Unit {0})
  write_user user = do sql o (Statement.write_user user); pure tt

  unfoldable pub rollback : Exec (World o) (Unit {0})
  rollback = do sql o Statement.rollback; pure tt

  unfoldable pub commit : Exec (World o) (Unit {0})
  commit = do sql o Statement.commit; pure tt
