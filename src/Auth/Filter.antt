-- ===== src/Auth/Filter.antt =====
-- backend/src/features/auth/availability/email_filter.py. Log lines are not modelled.
pub mod Trust
pub mod Memory
use gamely.Base.{Bool, true, Option, none, some, Text, codes, if◌then◌else◌}
use gamely.Errors.{Exec, pure, try_except, ◌>>=◌, ◌>>◌}
use gamely.Cuckoo.{CuckooFilter, contains_if_ready, add, mark_unready}
use gamely.Outside.{Outside, World}
use gamely.Settings.{Settings}

abbrev pub email_filter_key : Text
email_filter_key = codes "auth:email:filter"

abbrev pub email_filter_meta_key : Text
email_filter_meta_key = codes "auth:email:filter:meta"

unfoldable pub build_email_filter : Settings → CuckooFilter
build_email_filter settings = record {
  key = email_filter_key;
  meta_key = email_filter_meta_key;
  capacity = settings.auth_email_filter_capacity;
  bucket_size = settings.auth_email_filter_bucket_size;
  expansion = settings.auth_email_filter_expansion;
  max_iterations = settings.auth_email_filter_max_iterations;
}

-- `True if hit is None else hit`
abbrev pub true_if_none : Option Bool → Bool
true_if_none none = true
true_if_none (some hit) = hit

module _ (o : Outside) (settings : Settings) where
  -- The bodies of the two `try` blocks.
  unfoldable pub ask_filter : Text → Exec (World o) Bool
  ask_filter email = do
    hit ← contains_if_ready o (build_email_filter settings) email
    pure (true_if_none hit)

  unfoldable pub add_address : Text → Exec (World o) (Unit {0})
  add_address email = do add o (build_email_filter settings) email; pure tt

  unfoldable pub might_exist : Text → Exec (World o) Bool
  might_exist email =
      if settings.auth_email_filter_enabled
      then try_except (ask_filter email) (λ _. pure true)
      else pure true

  -- `_withdraw_trust`
  unfoldable pub withdraw_trust : Exec (World o) (Unit {0})
  withdraw_trust = try_except (mark_unready o (build_email_filter settings)) (λ _. pure tt)

  unfoldable pub remember : Text → Exec (World o) (Unit {0})
  remember email =
      if settings.auth_email_filter_enabled
      then try_except (add_address email) (λ _. withdraw_trust)
      else pure tt
