-- ===== src/RateLimiter/Window.antt =====
-- One window of the counter, backend/src/infrastructure/redis/rate_limiter.py.
use gamely.Base.{
  ℕ, zero, suc, ◌+◌, ◌≡◌, refl, ◌∙◌, ap, Option, none, some, List, Bool, false, Text, leb, ◌==◌,
  text_eq_refl, arith, if◌then◌else◌,
}
use gamely.Base.Decimal.{decimal, parse_int-decimal}
use gamely.Errors.{returns}
use gamely.Redis.{Reply, Script, Command}
use gamely.Redis.Documented.{
  Documented, Keyspace, Entry, str, put, perform, on_incr, on_expire, count_up,
}
use gamely.Outside.{Outside, World}
use gamely.RateLimiter.{fixed_window, expire_first, hit}

-- A counter at `n`.
abbrev pub counter : ℕ → Option ℕ → Entry
counter n left = record { value = str (decimal n); left = left }

module _ (collides : List Text → Text → Bool) (key : Text) (window : ℕ) (ks : Keyspace) where
  abbrev go_on : Reply × Keyspace → Reply × Keyspace
  go_on (r, ks') = perform collides (expire_first key window r) ks'

  fixed_window-first :
      ks key ≡ none
      → perform collides (fixed_window key window) ks
        ≡ (Reply.int 1, put key (counter 1 (some window)) (put key (counter 1 none) ks))
  unfolding fixed_window
  fixed_window-first h =
      let ks1 = put key (counter 1 none) ks in
      ap (λ e. go_on (on_incr key e ks)) h
      ∙ ap
          (λ (b : Bool). (
            Reply.int 1,
            (on_expire key window (if b then some (counter 1 none) else ks key) ks1).1,
          ))
          (text_eq_refl key)

  not_first : (n : ℕ) → (suc n + 1 == 1) ≡ false
  not_first n = ground arith

  fixed_window-again :
      (n : ℕ) (left : Option ℕ)
      → ks key ≡ some (counter (suc n) left)
      → perform collides (fixed_window key window) ks
        ≡ (Reply.int (suc n + 1), put key (counter (suc n + 1) left) ks)
  unfolding fixed_window
  fixed_window-again n left h =
      let ks1 = put key (counter (suc n + 1) left) ks in
      ap (λ e. go_on (on_incr key e ks)) h
      ∙ ap (λ m. go_on (count_up key left m ks)) (parse_int-decimal (suc n))
      ∙ ap
          (λ (b : Bool).
            perform collides
              (if b
                then Script.ask (Command.expire key window)
                    (λ _. Script.finish (Reply.int (suc n + 1)))
                else Script.finish (Reply.int (suc n + 1)))
              ks1)
          (not_first n)

module _ (o : Outside) (D : Documented o.redis) (key : Text) (limit window : ℕ) where
  -- One request in a window that has not begun, and in one that counts already.
  hit-first :
      (w : World o)
      → D.view w.server key ≡ none
      → let (r, w') = hit o key limit window w in
        (r ≡ returns (leb 1 limit)) × (D.view w'.server key ≡ some (counter 1 (some window)))
  unfolding hit
  hit-first w h =
      let e = fixed_window-first D.collides key window (D.view w.server) h in
      rw (D.run_lem, e) (refl, rw (D.view-after, e, text_eq_refl))

  hit-again :
      (n : ℕ) (left : Option ℕ) (w : World o)
      → D.view w.server key ≡ some (counter (suc n) left)
      → let (r, w') = hit o key limit window w in
        (r ≡ returns (leb (suc n + 1) limit))
        × (D.view w'.server key ≡ some (counter (suc n + 1) left))
  unfolding hit
  hit-again n left w h =
      let e = fixed_window-again D.collides key window (D.view w.server) n left h in
      rw (D.run_lem, e) (refl, rw (D.view-after, e, text_eq_refl))

  -- The world after a number of requests.
  unfoldable pub after_hits : ℕ → World o → World o
  after_hits zero w = w
  after_hits (suc n) w = (hit o key limit window (after_hits n w)).1

  -- On a documented Redis, in a window that has not begun, request number n + 1 passes exactly if n
  -- + 1 is within the limit, and after it the counter is at n + 1 with the expiry that the first
  -- request has set.
  pub hit-after_hits :
      (n : ℕ) (w : World o)
      → D.view w.server key ≡ none
      → let (r, w') = hit o key limit window (after_hits n w) in
        (r ≡ returns (leb (suc n) limit))
        × (D.view w'.server key ≡ some (counter (suc n) (some window)))
  unfolding after_hits
  hit-after_hits zero w h = hit-first w h
  hit-after_hits (suc n) w h =
      let e : suc n + 1 ≡ suc (suc n) = omega arith in
      let next = hit-again n (some window) (after_hits (suc n) w) (hit-after_hits n w h).1 in
      rw e at next
