-- ===== src/Examples/Filters.antt =====
-- The filter of registered addresses and its rebuild.
use gamely.Base.{◌≡◌, refl, true, false, none, some, [], ◌∷◌, Text, codes, contains}
use gamely.Base.Decimal.{decimal}
use gamely.Errors.{returns, raises, runtime_error}
use gamely.Redis.Documented.{Keyspace, put, filter, str, local_redis-Documented}
use gamely.Settings.{default_settings}
use gamely.Cuckoo.{fingerprint, contains_if_ready}
use gamely.Auth.EmailAddress.{normalize_email}
use gamely.Auth.Filter.{
  email_filter_key, email_filter_meta_key, build_email_filter, ask_filter, might_exist, remember,
}
use gamely.Auth.Filter.Trust.{is_safe, is_trusted, covers, items, might_exist-absent}
use gamely.Auth.Filter.Memory.{remember-is_safe}
use gamely.Auth.Warmer.{Stream, ended, batch, rebuild, warm, normalize_all, email_filter_lock_key}
use gamely.Auth.Warmer.Rebuild.{rebuild_complete}
use gamely.Auth.Warmer.Lock.{warm-completes, warm-locked_out, warm-refused}
use gamely.Examples.{local, empty_world, world, no_keys, one_account, ann}

-- A filter that is marked as complete and holds `ann`.
abbrev trusted : Keyspace
trusted =
    put email_filter_meta_key
      (record { value = str (fingerprint (build_email_filter default_settings)); left = none })
      (put email_filter_key (record { value = filter (ann ∷ []) 0; left = none }) no_keys)

abbrev bob : Text
bob = codes "bob@x.org"

might_exist-absent_example : contains (ann ∷ []) bob ≡ false
unfolding build_email_filter fingerprint decimal might_exist ask_filter contains_if_ready
might_exist-absent_example =
    might_exist-absent local local_redis-Documented default_settings bob (world trusted one_account)
      (ann ∷ []) refl refl

remember-is_safe_example :
    is_safe default_settings
      (remember local default_settings bob (world trusted one_account)).1.server
      (bob ∷ ann ∷ [])
    ≡ true
unfolding build_email_filter fingerprint decimal
remember-is_safe_example =
    remember-is_safe local local_redis-Documented default_settings bob (world trusted one_account)
      (ann ∷ []) refl refl

abbrev batches : Stream
batches = batch (codes "Ann@X.org" ∷ bob ∷ []) (batch [] (ended (returns tt)))

rebuild_complete_example :
    let (r, w') = rebuild local default_settings batches empty_world in
    (r ≡ returns tt)
    × (is_trusted default_settings w'.server ≡ true)
    × (covers (items (w'.server email_filter_key)) (ann ∷ bob ∷ []) ≡ true)
unfolding normalize_all normalize_email
rebuild_complete_example =
    rebuild_complete local local_redis-Documented default_settings batches (ann ∷ bob ∷ [])
      empty_world refl

-- The database fails after the first batch.
abbrev broken : Stream
broken = batch (ann ∷ []) (ended (raises runtime_error))

warm-completes_example :
    let (r, w') = warm local default_settings true batches empty_world in
    (r ≡ returns tt)
    × (is_trusted default_settings w'.server ≡ true)
    × (covers (items (w'.server email_filter_key)) (ann ∷ bob ∷ []) ≡ true)
    × (w'.server email_filter_lock_key
        ≡ some (record {
          value = str (local.token_urlsafe 16 0);
          left = some default_settings.auth_email_filter_lock_seconds;
        }))
unfolding normalize_all normalize_email
warm-completes_example =
    warm-completes local local_redis-Documented default_settings empty_world true batches
      (ann ∷ bob ∷ []) refl refl refl

abbrev locked : Keyspace
locked = put email_filter_lock_key (record { value = str (codes "theirs"); left = some 9 }) no_keys

warm-locked_out_example :
    (warm local default_settings true batches (world locked one_account)).1.server ≡ locked
warm-locked_out_example =
    warm-locked_out local local_redis-Documented default_settings (world locked one_account)
      (record { value = str (codes "theirs"); left = some 9 }) true batches refl

warm-refused_example :
    let ks' = (warm local default_settings true broken (world trusted one_account)).1.server in
    (ks' email_filter_lock_key ≡ none) × (ks' email_filter_meta_key ≡ none)
unfolding normalize_all normalize_email
warm-refused_example =
    warm-refused local local_redis-Documented default_settings (world trusted one_account) true
      broken runtime_error refl refl refl
