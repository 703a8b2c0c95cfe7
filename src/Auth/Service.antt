-- ===== src/Auth/Service.antt =====
-- backend/src/features/auth/auth_service.py: the methods of `AuthService`.
pub mod Keeps
pub mod Atomic
pub mod Login
pub mod Verification
pub mod Password
use Prim.Native.String.{String}
use gamely.Base.{
  ℕ, Bool, true, false, not, Option, none, some, List, [], ◌∷◌, Text, length, ltb, if◌then◌else◌,
}
use gamely.Base.Uuid.{Uuid}
use gamely.Errors.{
  Exec, Exception, integrity_error, bad_request, unauthorized, conflict, pure, raise, lift,
  raise_message, raise_default, try_except, ◌>>=◌, ◌>>◌,
}
use gamely.Auth.EmailAddress.{normalize_email}
use gamely.Auth.Codes.{send_code, consume_code, verify_purpose, reset_purpose}
use gamely.Auth.Filter.{might_exist, remember}
use gamely.Auth.Repository.{by_email, by_id, create_user, write_user, commit, rollback}
use gamely.Auth.Token.{issue_access, issue_refresh, rotate_refresh, revoke_all}
use gamely.Database.{User}
use gamely.Outside.{Outside, World, draw, time_now}
use gamely.Settings.{Settings}

abbrev pub is_verified : User → Bool
is_verified user = elim user.email_verified_at [ none ↦ false | some _ ↦ true ]

abbrev pub exists_user : Option User → Bool
exists_user none = false
exists_user (some _) = true

-- The user, an access token and a refresh token.
abbrev pub Session : Type 0
Session = User × Text × Text

module _ (o : Outside) (settings : Settings) where
  -- `_check_password`
  unfoldable pub check_password : Text → Exec (World o) (Unit {0})
  check_password value =
      if ltb (length value) 12
      then raise_message bad_request "Passwords must be at least 12 characters long."
      else pure tt

  abbrev already_exists : {A : Type 0} → Exec (World o) A
  already_exists = raise_message conflict "An account already exists for this email address."

  -- `might_exist(email) and by_email(email)`: the database is asked only after a hit.
  unfoldable pub is_taken : Text → Exec (World o) Bool
  is_taken email = do
    maybe ← might_exist o settings email
    if maybe then (do user ← by_email o email; pure (exists_user user)) else pure false

  -- The body of the `try` in `signup`.
  unfoldable pub create_account : Text → Text → Exec (World o) (Unit {0})
  create_account email password = do
    hashed ← draw o (λ salt. o.hash_password salt password)
    create_user o email (some hashed) false
    remember o settings email
    send_code o settings email verify_purpose
    commit o

  -- Its two handlers.
  unfoldable pub abandon_account : Text → Exception → Exec (World o) (Unit {0})
  abandon_account email integrity_error = do rollback o; remember o settings email; already_exists
  abandon_account email e = do rollback o; raise e

  unfoldable pub signup : Text → Text → Exec (World o) (Unit {0})
  signup value password = do
    email ← lift (normalize_email value)
    check_password password
    taken ← is_taken email
    if taken
        then already_exists
        else try_except (create_account email password) (abandon_account email)

  -- The tokens of a user who has shown a password, a refresh token or a provider's token.
  unfoldable pub open_session : User → Option Text → Exec (World o) Session
  open_session user family_id = do
    access ← issue_access o settings user.id user.email (is_verified user)
    refresh ← issue_refresh o settings user.id family_id
    pure (user, access, refresh)

  abbrev pub matches : Text → Option Text → Bool
  matches password none = false
  matches password (some hashed) = o.verify_password password hashed

  abbrev pub login_user : Text → Option User → Exec (World o) Session
  login_user password none =
      raise_message unauthorized "The email address or password is incorrect."
  login_user password (some user) =
      if matches password user.password_hash
      then open_session user none
      else raise_message unauthorized "The email address or password is incorrect."

  unfoldable pub login : Text → Text → Exec (World o) Session
  login value password = do
    email ← lift (normalize_email value)
    user ← by_email o email
    login_user password user

  -- A code for a user who is not verified; any failure of the sending is passed over.
  abbrev resend : Option User → Exec (World o) (Unit {0})
  resend none = pure tt
  resend (some user) =
      if is_verified user
      then pure tt
      else try_except (send_code o settings user.email verify_purpose) (λ _. pure tt)

  unfoldable pub send_verification : Text → Exec (World o) (Unit {0})
  send_verification value = do
    email ← lift (normalize_email value)
    user ← by_email o email
    resend user

  -- `user is None or not await self._consume_code(…)` raises, and otherwise the user goes on.
  unfoldable pub require_code : Option User → Text → Text → String → Exec (World o) User
  require_code none purpose code message = raise_message bad_request message
  require_code (some user) purpose code message = do
    accepted ← consume_code o settings user.email purpose code
    if accepted then pure user else raise_message bad_request message

  unfoldable pub verify_email : Text → Text → Exec (World o) (Unit {0})
  verify_email value code = do
    email ← lift (normalize_email value)
    found ← by_email o email
    user ← require_code found verify_purpose code "The verification code is invalid or expired."
    now ← time_now o
    write_user o (record user { email_verified_at = some now })
    commit o

  abbrev has_password : User → Bool
  has_password user = elim user.password_hash [ none ↦ false | some _ ↦ true ]

  abbrev send_reset : Option User → Exec (World o) (Unit {0})
  send_reset none = pure tt
  send_reset (some user) =
      if has_password user
      then try_except (send_code o settings user.email reset_purpose) (λ _. pure tt)
      else pure tt

  unfoldable pub forgot_password : Text → Exec (World o) (Unit {0})
  forgot_password value = do
    email ← lift (normalize_email value)
    user ← by_email o email
    send_reset user

  -- The new hash is committed before the sessions are revoked.
  unfoldable pub set_password : User → Text → Exec (World o) (Unit {0})
  set_password user password = do
    hashed ← draw o (λ salt. o.hash_password salt password)
    write_user o (record user { password_hash = some hashed })
    commit o
    revoke_all o settings user.id

  unfoldable pub reset_password : Text → Text → Text → Exec (World o) (Unit {0})
  reset_password value code password = do
    check_password password
    email ← lift (normalize_email value)
    found ← by_email o email
    user ← require_code found reset_purpose code "The reset code is invalid or expired."
    set_password user password

  -- `_require_user`
  unfoldable pub require_user : Uuid → Exec (World o) User
  require_user user_id = do
    found ← by_id o user_id
    elim found [ none ↦ raise_default unauthorized | some user ↦ pure user ]

  unfoldable pub change_password : Uuid → Text → Text → Exec (World o) (Unit {0})
  change_password user_id current new = do
    check_password new
    user ← require_user user_id
    if matches current user.password_hash
        then set_password user new
        else raise_message unauthorized "The current password is incorrect."

  unfoldable pub refresh : Text → Exec (World o) Session
  refresh value = do
    session ← rotate_refresh o settings value
    let (user_id, family_id) = session
    user ← require_user user_id
    open_session user (some family_id)
