-- ===== src/Examples/Accounts.antt =====
-- Signing up and logging in.
use gamely.Base.{◌≡◌, refl, some, [], codes}
use gamely.Errors.{Exception, raises, application, make_error, bad_request, conflict}
use gamely.Database.Documented.{local_database-Documented}
use gamely.Settings.{default_settings}
use gamely.Auth.EmailAddress.{normalize_email}
use gamely.Auth.Service.{signup, login, verify_email, require_code, check_password, is_taken}
use gamely.Auth.Filter.{might_exist, ask_filter, build_email_filter}
use gamely.Auth.Repository.{by_email}
use gamely.Cuckoo.{contains_if_ready}
use gamely.Auth.Service.Keeps.{tables}
use gamely.Auth.Service.Atomic.{signup-undone}
use gamely.Auth.Codes.{consume_code}
use gamely.Auth.Service.Verification.{verify_email-undone}
use gamely.Auth.Service.Login.{incorrect, login-refused}
use gamely.Examples.{local, world, no_keys, one_account, ann}

login-refused_example :
    let (r, w') =
      login local default_settings ann (codes "wrong password") (world no_keys one_account) in
    (r ≡ raises incorrect) × (w'.server ≡ no_keys) × (w'.connection ≡ []) × (w'.draws ≡ 0)
unfolding normalize_email
login-refused_example =
    login-refused local default_settings local_database-Documented ann ann (codes "wrong password")
      (world no_keys one_account) refl refl

-- The account exists already.
abbrev taken : Exception
taken = application (make_error conflict (some "An account already exists for this email address."))

signup-undone_example :
    tables local local_database-Documented
      (signup local default_settings ann (codes "correct horse") (world no_keys one_account)).1
    ≡ one_account
unfolding signup normalize_email check_password is_taken might_exist ask_filter contains_if_ready
    build_email_filter by_email
signup-undone_example =
    signup-undone local local_database-Documented default_settings ann (codes "correct horse") taken
      (world no_keys one_account) refl

-- No code is stored for the account.
abbrev no_code : Exception
no_code = application (make_error bad_request (some "The verification code is invalid or expired."))

verify_email-undone_example :
    tables local local_database-Documented
      (verify_email local default_settings ann (codes "424242") (world no_keys one_account)).1
    ≡ one_account
unfolding verify_email normalize_email by_email require_code consume_code
verify_email-undone_example =
    verify_email-undone local local_database-Documented default_settings ann (codes "424242")
      no_code (world no_keys one_account) refl
