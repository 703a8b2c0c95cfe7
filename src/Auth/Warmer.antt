-- ===== src/Auth/Warmer.antt =====
-- backend/src/features/auth/availability/email_filter_warmer.py. Log lines are not modelled.
pub mod Loop
pub mod Rebuild
pub mod Lock
use gamely.Base.{
  ℕ, Bool, true, false, Option, none, some, List, [], ◌∷◌, Text, codes, text_eq, if◌then◌else◌,
}
use gamely.Errors.{
  Exec, Exception, Outcome, returns, raises, cancelled, other, pure, raise, lift, try_except, ◌>>=◌,
  ◌>>◌,
}
use gamely.Redis.{Command, Reply, Script, SetMode, checked}
use gamely.Cuckoo.{CuckooFilter, drop_filter, reserve, add_many, mark_ready}
use gamely.Auth.EmailAddress.{normalize_email}
use gamely.Auth.Filter.{build_email_filter}
use gamely.Outside.{Outside, World, redis, command, draw}
use gamely.Settings.{Settings}

abbrev pub email_filter_lock_key : Text
email_filter_lock_key = codes "auth:email:filter:rebuild"

-- `_RELEASE_LOCK`
abbrev pub delete_if_owned : Text → Text → Reply → Script
delete_if_owned key token (Reply.bulk held) =
    if text_eq held token
    then Script.ask (Command.del (key ∷ [])) Script.finish
    else Script.finish (Reply.int 0)
delete_if_owned key token (Reply.error m) = Script.finish (Reply.error m)
delete_if_owned key token _ = Script.finish (Reply.int 0)

unfoldable pub release_lock : Text → Text → Script
release_lock key token = Script.ask (Command.get key) (delete_if_owned key token)

-- `if not await redis.set(…, nx=True)`: the client gives None for a nil reply.
abbrev pub was_set : Reply → Bool
was_set Reply.ok = true
was_set _ = false

-- `[normalize_email(email) for email in batch]`, which raises at the first that is no address.
abbrev cons_outcome : Outcome Text → Outcome (List Text) → Outcome (List Text)
cons_outcome (returns e) (returns es) = returns (e ∷ es)
cons_outcome (returns e) (raises x) = raises x
cons_outcome (returns e) cancelled = cancelled
cons_outcome (raises x) _ = raises x
cons_outcome cancelled _ = cancelled

unfoldable pub normalize_all : List Text → Outcome (List Text)
normalize_all [] = returns []
normalize_all (e ∷ es) = cons_outcome (normalize_email e) (normalize_all es)

-- What a session of the database gives to `iter_email_batches`: some batches, and how the session
-- ends, which an exception of opening, reading or closing it, or a cancellation, may do at any point.
pub data Stream : Type 0 where
  ended : Outcome (Unit {0}) → Stream
  batch : List Text → Stream → Stream

module _ (o : Outside) (settings : Settings) where
  -- The loop over the batches that the database streams.
  unfoldable pub add_batches : Stream → Exec (World o) (Unit {0})
  add_batches (ended r) = lift r
  add_batches (batch addresses rest) = do
    emails ← lift (normalize_all addresses)
    add_many o (build_email_filter settings) emails
    add_batches rest

  -- `_rebuild`, over the batches of registered addresses that `iter_email_batches` yields
  unfoldable pub rebuild : Stream → Exec (World o) (Unit {0})
  unfolding add_batches
  rebuild batches = do
    drop_filter o (build_email_filter settings)
    reserve o (build_email_filter settings)
    add_batches batches
    mark_ready o (build_email_filter settings)

  -- The lock is freed, and the exception raised again.
  unfoldable pub give_up : Text → Exception → Exec (World o) (Unit {0})
  give_up token e = do
    released ← redis o (release_lock email_filter_lock_key token)
    checked released
    raise e

  -- `_warm`
  unfoldable pub warm_locked : Stream → Exec (World o) (Unit {0})
  warm_locked batches = do
    token ← draw o (o.token_urlsafe 16)
    reply ← command o (
        Command.set email_filter_lock_key token (some settings.auth_email_filter_lock_seconds)
          SetMode.nx)
    if was_set reply then try_except (rebuild batches) (give_up token) else pure tt

  -- `asyncio.wait_for`: the timeout cancels the call inside, and is raised as `TimeoutError`; a
  -- cancellation from outside stays one. `is_timeout` says which of the two a cancellation is.
  abbrev timed_out : Bool → Outcome (Unit {0}) → Outcome (Unit {0})
  timed_out is_timeout (returns a) = returns a
  timed_out is_timeout (raises e) = raises e
  timed_out true cancelled = raises (other "TimeoutError")
  timed_out false cancelled = cancelled

  abbrev pub wait_for : Bool → Exec (World o) (Unit {0}) → Exec (World o) (Unit {0})
  wait_for is_timeout m w = let (r, w') = m w in (timed_out is_timeout r, w')

  unfoldable pub warm : Bool → Stream → Exec (World o) (Unit {0})
  warm is_timeout batches =
      if settings.auth_email_filter_enabled
      then try_except (wait_for is_timeout (warm_locked batches)) (λ _. pure tt)
      else pure tt
