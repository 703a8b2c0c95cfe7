-- ===== src/Auth/Service/Verification.antt =====
-- `verify_email`, backend/src/features/auth/auth_service.py, over the committed tables.
use Prim.Native.String.{String}
use gamely.Base.{◌≡◌, refl, Option, none, some, Text, ℕ, Bool, true, false, leb, text_eq}
use gamely.Errors.{Exception, raises}
use gamely.Database.{User, Statement}
use gamely.Database.Documented.{Documented}
use gamely.Auth.EmailAddress.{normalize_email}
use gamely.Auth.Codes.{
  consume_code, check_stored, judge, delete_code, count_attempt, parse_payload, code_key, text_of,
  verify_purpose,
}
use gamely.Auth.Repository.{write_user}
use gamely.Auth.Service.{verify_email, require_code}
use gamely.Auth.Service.Keeps.{
  tables, Keeps, pure-Keeps, raise-Keeps, lift-Keeps, time_now-Keeps, bind-Keeps, if-Keeps,
  command-Keeps, sql-Keeps, by_email-Keeps,
}
use gamely.Auth.Service.Atomic.{Undone, bind-Undone, commit-Undone}
use gamely.Outside.{Outside, World, time_now}
use gamely.Settings.{Settings}

module _ (o : Outside) (D : Documented o.database) (settings : Settings) where
  delete_code-Keeps : (key : Text) (b : Bool) → Keeps D (delete_code o settings key b)
  unfolding delete_code
  delete_code-Keeps key b = bind-Keeps D _ _ (command-Keeps D _) (λ reply. pure-Keeps D _)

  count_attempt-Keeps :
      (key digest : Text) (n : ℕ) → Keeps D (count_attempt o settings key digest n)
  unfolding count_attempt
  count_attempt-Keeps key digest n =
      bind-Keeps D _ _ (command-Keeps D _)
        (λ left. bind-Keeps D _ _ (command-Keeps D _) (λ reply. pure-Keeps D _))

  judge-Keeps : (key code : Text) (parts : Text × ℕ) → Keeps D (judge o settings key code parts)
  judge-Keeps key code (digest, n) = if-Keeps D (leb 4 n) _ _ (delete_code-Keeps key false) (
      if-Keeps D (text_eq digest (o.sha256_hex code)) _ _ (delete_code-Keeps key true)
        (count_attempt-Keeps key digest n))

  check_stored-Keeps :
      (key code : Text) (found : Option Text) → Keeps D (check_stored o settings key code found)
  check_stored-Keeps key code none = pure-Keeps D _
  check_stored-Keeps key code (some stored) =
      bind-Keeps D _ _ (lift-Keeps D (parse_payload stored)) (judge-Keeps key code)

  consume_code-Keeps :
      (email purpose code : Text) → Keeps D (consume_code o settings email purpose code)
  unfolding consume_code
  consume_code-Keeps email purpose code =
      bind-Keeps D _ _ (command-Keeps D _)
        (λ reply. check_stored-Keeps (code_key purpose email) code (text_of reply))

  require_code-Keeps :
      (found : Option User) (purpose code : Text) (m : String)
      → Keeps D (require_code o settings found purpose code m)
  unfolding require_code
  require_code-Keeps none purpose code m = raise-Keeps D _
  require_code-Keeps (some user) purpose code m =
      bind-Keeps D _ _ (consume_code-Keeps user.email purpose code)
        (λ accepted. if-Keeps D accepted _ _ (pure-Keeps D user) (raise-Keeps D _))

  write_user-Keeps : (user : User) → Keeps D (write_user o user)
  unfolding write_user
  write_user-Keeps user =
      bind-Keeps D _ _ (sql-Keeps D (Statement.write_user user) (λ t. refl))
        (λ rows. pure-Keeps D tt)

  verify_email-Undone : (value code : Text) → Undone o D (verify_email o settings value code)
  unfolding verify_email
  verify_email-Undone value code =
      bind-Undone o D _ _ (lift-Keeps D (normalize_email value)) (λ email.
        bind-Undone o D _ _ (by_email-Keeps D email) (λ found.
          bind-Undone o D _ _ (require_code-Keeps found verify_purpose code _) (λ user.
            bind-Undone o D (time_now o) _ (time_now-Keeps D) (λ now.
              bind-Undone o D _ _ (write_user-Keeps (record user { email_verified_at = some now }))
                (λ done. commit-Undone o D)))))

  -- On a documented database, a `verify_email` that raises has committed nothing, whatever raised and
  -- whatever Redis did meanwhile.
  pub verify_email-undone :
      (value code : Text) (x : Exception) (w : World o)
      → (verify_email o settings value code w).0 ≡ raises x
      → tables o D (verify_email o settings value code w).1 ≡ tables o D w
  verify_email-undone value code x w raised = (verify_email-Undone value code).undone x w raised
