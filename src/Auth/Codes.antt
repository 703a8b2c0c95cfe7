-- ===== src/Auth/Codes.antt =====
-- backend/src/features/auth/auth_service.py: the one-time codes, `_send_code` and `_consume_code`.
pub mod Guessing
pub mod Bound
pub mod Digits
pub mod Sending
use gamely.Base.{
  ℕ, zero, suc, ◌+◌, ◌-◌, ◌*◌, Bool, true, false, Option, none, some, List, [], ◌∷◌, ◌++◌, Text,
  codes, split_once, text_eq, length, leb, max, if◌then◌else◌,
}
use gamely.Base.Decimal.{decimal, parse_int}
use gamely.Errors.{
  Exec, Exception, Outcome, returns, raises, value_error, bad_request, pure, raise, lift,
  raise_message, try_except, ◌>>=◌, ◌>>◌,
}
use gamely.Redis.{Command, Reply, SetMode}
use gamely.Broker.{Json}
use gamely.Email.{EmailJob, make_job, publish}
use gamely.Outside.{Outside, World, command, draw, time_now}
use gamely.Settings.{Settings}

abbrev pub verify_purpose : Text
verify_purpose = codes "verify"

abbrev pub reset_purpose : Text
reset_purpose = codes "reset"

unfoldable pub cooldown_key : Text → Text → Text
cooldown_key purpose email = codes "auth:code:cooldown:" ++ (purpose ++ (b':' ∷ email))

unfoldable pub code_key : Text → Text → Text
code_key purpose email = codes "auth:code:" ++ (purpose ++ (b':' ∷ email))

abbrev pub zeros : ℕ → Text
zeros zero = []
zeros (suc n) = b'0' ∷ zeros n

-- `f"{n:06d}"`
unfoldable pub six_digits : ℕ → Text
six_digits n = let digits = decimal n in zeros (6 - length digits) ++ digits

-- `f"{digest}:{attempts}"`
unfoldable pub payload : Text → ℕ → Text
payload digest attempts = digest ++ (b':' ∷ decimal attempts)

-- The replies of SET with NX, GET and TTL, as the code reads them.
abbrev pub was_set : Reply → Bool
was_set Reply.ok = true
was_set _ = false

abbrev pub text_of : Reply → Option Text
text_of (Reply.bulk t) = some t
text_of _ = none

-- `max(ttl, 1)`: the negative answers mean that the key is absent or does not expire.
abbrev pub at_least_one : Reply → ℕ
at_least_one (Reply.int n) = max n 1
at_least_one _ = 1

-- `digest, attempts = stored.split(":", 1)` and `int(attempts)`
abbrev with_attempts : Text → Option ℕ → Outcome (Text × ℕ)
with_attempts digest none = raises value_error
with_attempts digest (some n) = returns (digest, n)

abbrev with_rest : Text → Option Text → Outcome (Text × ℕ)
with_rest digest none = raises value_error
with_rest digest (some rest) = with_attempts digest (parse_int rest)

unfoldable pub parse_payload : Text → Outcome (Text × ℕ)
parse_payload stored = let (digest, rest) = split_once b':' stored in with_rest digest rest

module _ (o : Outside) (settings : Settings) where
  -- The body of the `try`. The constructor of the job can raise too.
  unfoldable pub store_and_publish : Text → Text → Text → ℕ → Exec (World o) (Unit {0})
  store_and_publish email purpose code expires_at = do
    command o (
        Command.set (code_key purpose email) (payload (o.sha256_hex code) 0)
          (some (settings.auth_code_minutes * 60)) SetMode.always)
    job ← lift (
        make_job (record {
          recipient = Json.text email;
          template = purpose;
          code = code;
          expires_at = some expires_at;
          attempts = 0;
          part = none;
          id = Json.text [];
        }))
    publish o job

  unfoldable pub forget_code : Text → Text → Exception → Exec (World o) (Unit {0})
  forget_code email purpose e = do
    command o (Command.del (cooldown_key purpose email ∷ code_key purpose email ∷ []))
    raise e

  -- `_send_code` once the cooldown is taken
  unfoldable pub send_new_code : Text → Text → Exec (World o) (Unit {0})
  send_new_code email purpose = do
    code ← draw o (λ n. six_digits (o.randbelow 1000000 n))
    now ← time_now o
    try_except (store_and_publish email purpose code (now + settings.auth_code_minutes * 60))
        (forget_code email purpose)

  unfoldable pub send_code : Text → Text → Exec (World o) (Unit {0})
  send_code email purpose = do
    reply ← command o (Command.set (cooldown_key purpose email) (codes "1") (some 60) SetMode.nx)
    if was_set reply
        then send_new_code email purpose
        else raise_message bad_request "Please wait before requesting another code."

  -- A wrong code counts as an attempt, and the code keeps the time that it has left.
  unfoldable pub count_attempt : Text → Text → ℕ → Exec (World o) Bool
  count_attempt key digest attempts = do
    left ← command o (Command.ttl key)
    command o
        (Command.set key (payload digest (attempts + 1)) (some (at_least_one left)) SetMode.always)
    pure false

  unfoldable pub delete_code : Text → Bool → Exec (World o) Bool
  delete_code key result = do command o (Command.del (key ∷ [])); pure result

  abbrev pub judge : Text → Text → Text × ℕ → Exec (World o) Bool
  judge key code (digest, attempts) =
      if leb 4 attempts
      then delete_code key false
      else if text_eq digest (o.sha256_hex code)
      then delete_code key true
      else count_attempt key digest attempts

  abbrev pub check_stored : Text → Text → Option Text → Exec (World o) Bool
  check_stored key code none = pure false
  check_stored key code (some stored) = do parts ← lift (parse_payload stored); judge key code parts

  -- `_consume_code`
  unfoldable pub consume_code : Text → Text → Text → Exec (World o) Bool
  consume_code email purpose code = do
    reply ← command o (Command.get (code_key purpose email))
    check_stored (code_key purpose email) code (text_of reply)
