-- ===== src/RateLimiter.antt =====
-- backend/src/infrastructure/redis/rate_limiter.py
pub mod Window
use gamely.Base.{ℕ, Bool, true, false, Option, some, none, Text, leb, ◌==◌, if◌then◌else◌}
use gamely.Base.Decimal.{parse_int}
use gamely.Errors.{Exec, pure, ◌>>=◌}
use gamely.Redis.{Command, Reply, Script, checked}
use gamely.Outside.{Outside, World, redis}

-- `_FIXED_WINDOW`
abbrev pub expire_first : Text → ℕ → Reply → Script
expire_first key window (Reply.int hits) =
    let again = Script.finish (Reply.int hits) in
    if hits == 1
    then Script.ask (Command.expire key window) (λ _. Script.finish (Reply.int hits))
    else again
expire_first key window r = Script.finish r

unfoldable pub fixed_window : Text → ℕ → Script
fixed_window key window = Script.ask (Command.incr key) (expire_first key window)

-- `_count`: the number of a reply. A negative number stands below every limit, as 0 does.
unfoldable pub count : Reply → Option ℕ
count (Reply.int n) = some n
count (Reply.minus n) = some 0
count (Reply.bulk t) = parse_int t
count _ = none

-- `hits is not None and hits <= limit`
abbrev pub within : Option ℕ → ℕ → Bool
within none limit = false
within (some hits) limit = leb hits limit

module _ (o : Outside) where
  unfoldable pub hit : Text → ℕ → ℕ → Exec (World o) Bool
  unfolding count
  hit key limit window_seconds = do
    reply ← redis o (fixed_window key window_seconds)
    result ← checked reply
    pure (within (count result) limit)
