-- ===== src/Examples/Codes.antt =====
-- One-time codes, the throttle and the rate limiter.
use gamely.Base.{
  arith, ◌≡◌, refl, true, false, ◌||◌, none, some, [], ◌∷◌, List, Text, codes, text_eq,
  if◌then◌else◌,
}
use gamely.Base.Decimal.{decimal}
use gamely.Errors.{returns, raises, application, make_error, service_unavailable}
use gamely.Redis.Documented.{Keyspace, put, drop, str, local_redis-Documented}
use gamely.Settings.{default_settings}
use gamely.Email.{publish, is_valid_job}
use gamely.Auth.Codes.{code_key, cooldown_key, verify_purpose, consume_code, send_code, six_digits}
use gamely.Auth.Codes.Guessing.{code_entry}
use gamely.Auth.Codes.Bound.{all_wrong, after_guesses, consume_code-bounded, consume_code-once}
use gamely.Auth.Codes.Digits.{Sendable}
use gamely.Auth.Codes.Sending.{send_code-sent, send_code-unsent}
use gamely.Outside.{Outside, World}
use gamely.Examples.{local, empty_world, world, no_keys, one_account, ann}

-- The code `424242` is stored for `ann`, and four others are guessed.
abbrev right : Text
right = codes "424242"

abbrev coded : Keyspace
coded = put (code_key verify_purpose ann) (code_entry (b'd' ∷ right) 0 (some 600)) no_keys

abbrev guesses : List Text
guesses = codes "000000" ∷ codes "111111" ∷ codes "222222" ∷ codes "333333" ∷ []

consume_code-bounded_example :
    (consume_code local default_settings ann verify_purpose right (
      after_guesses local local_redis-Documented default_settings ann verify_purpose
        (b'd' ∷ right)
        refl
        guesses
        (world coded one_account))).0
    ≡ returns false
unfolding code_key all_wrong
consume_code-bounded_example =
    consume_code-bounded local local_redis-Documented default_settings ann verify_purpose
      (b'd' ∷ right) refl guesses right (some 600) (world coded one_account) refl refl refl

consume_code-once_example :
    let (r, w') =
      consume_code local default_settings ann verify_purpose right (world coded one_account) in
    let (r', w'') = consume_code local default_settings ann verify_purpose right w' in
    (r ≡ returns true)
    × (r' ≡ returns false)
    × (w''.server ≡ drop (code_key verify_purpose ann) coded)
unfolding code_key
consume_code-once_example =
    consume_code-once local local_redis-Documented default_settings ann verify_purpose
      (b'd' ∷ right) refl right right 0 (some 600) (world coded one_account) refl refl refl

ann-Sendable : Sendable ann verify_purpose 0
ann-Sendable = record { has_at = refl; fits = refl; is_purpose = refl; below = omega arith }

abbrev cooling_keys : Keyspace
cooling_keys =
    put (cooldown_key verify_purpose ann) (record { value = str (codes "1"); left = some 30 })
      no_keys

send_code-sent_example :
    let (r, w') = send_code local default_settings ann verify_purpose empty_world in
    (r ≡ returns tt)
    × (w'.server (cooldown_key verify_purpose ann)
        ≡ some (record { value = str (codes "1"); left = some 60 }))
    × ((consume_code local default_settings ann verify_purpose (six_digits 0) w').0 ≡ returns true)
unfolding is_valid_job publish six_digits decimal
send_code-sent_example =
    send_code-sent local local_redis-Documented default_settings ann verify_purpose empty_world refl
      ann-Sendable refl refl

-- The same, with a broker that is not connected.
abbrev cut_off : Outside
cut_off = record local {
  broker = record {
    Connection = Unit {0};
    is_connected = λ c. false;
    run = λ a c. (returns tt, c);
  };
}

abbrev cut_off_world : World cut_off
cut_off_world = record {
  server = no_keys;
  session = empty_world.session;
  connection = tt;
  mail_server = [];
  draws = 0;
  now = 1000;
}

send_code-unsent_example :
    let x =
      application
        (make_error service_unavailable (some "Email delivery is temporarily unavailable.")) in
    let (r, w') = send_code cut_off default_settings ann verify_purpose cut_off_world in
    (r ≡ raises x)
    × (w'.server (code_key verify_purpose ann) ≡ (
        if text_eq (cooldown_key verify_purpose ann) (code_key verify_purpose ann)
          || text_eq (code_key verify_purpose ann) (code_key verify_purpose ann)
        then none
        else none))
unfolding is_valid_job publish six_digits decimal
send_code-unsent_example =
    send_code-unsent cut_off local_redis-Documented default_settings ann verify_purpose
      cut_off_world
      (application
        (make_error service_unavailable (some "Email delivery is temporarily unavailable.")))
      (code_key verify_purpose ann) refl ann-Sendable refl
