-- ===== src/Start/Lifespan.antt =====
-- backend/src/main.py: `lifespan`, `request_scope` and the health endpoints.
use Prim.Native.String.{String}
use gamely.Base.{ℕ, ◌≡◌, refl, Bool, true, false, [], ◌++◌, if◌then◌else◌}
use gamely.Errors.{
  Exec, Outcome, Exception, returns, raises, cancelled, pure, try_except, try_finally, ◌>>◌,
}
use gamely.Ioc.{Store, close_scope, create_scope, reverse}
use gamely.Ioc.Dict.{values}
use gamely.Ioc.Closing.{AllReturn, calls_back, calls_all-reverse, close_scope-returns}

-- A `JSONResponse` with the field `status` of its content.
pub record JsonResponse : Type 0 where
  pub status : ℕ
  pub content : String

module _ {S : Type 0} where
  -- `lifespan`: what runs before the application serves, and around it.
  unfoldable pub lifespan :
      Bool
      → Exec S (Unit {0})
      → Exec S (Unit {0})
      → Exec S (Unit {0})
      → Exec S (Unit {0})
      → Exec S (Unit {0})
  lifespan is_infrastructure connect warm serve close = do
    connect
    if is_infrastructure then warm else pure tt
    try_finally serve close

  abbrev unavailable : Exception → Exec S JsonResponse
  unavailable e = pure (record { status = 503; content = "unavailable" })

  -- `readiness`, over `get_services` and its `ready`
  unfoldable pub readiness : Exec S (Unit {0}) → Exec S JsonResponse
  readiness ready =
      try_except (do ready; pure (record { status = 200; content = "ok" })) unavailable

-- `request_scope`, over `call_next`
unfoldable pub request_scope : {A : Type 0} → Exec Store A → Exec Store A
request_scope call_next s = try_finally call_next close_scope (create_scope s)

abbrev probed : Outcome (Unit {0}) → Outcome JsonResponse
probed (returns _) = returns (record { status = 200; content = "ok" })
probed (raises _) = returns (record { status = 503; content = "unavailable" })
probed cancelled = cancelled

pub readiness_lem :
    {S : Type 0} (probe : Exec S (Unit {0})) (s : S)
    → readiness probe s ≡ (probed (probe s).0, (probe s).1)
unfolding readiness
readiness_lem {S = S} probe s = by_outcome (probe s).0 (probe s).1
  where
    by_outcome : (r : Outcome (Unit {0})) (t : S) → readiness (λ _. (r, t)) s ≡ (probed r, t)
    by_outcome (returns _) t = refl
    by_outcome (raises _) t = refl
    by_outcome cancelled t = refl

module _ {A : Type 0} (call_next : Exec Store A) (s : Store) where
  -- However the handler of a request ends, by a result, an exception or a cancellation, the objects
  -- that its scope holds then are disposed of once each, by `aclose` where they have it and else by
  -- `close`, the latest first, its outcome is the
  -- request's, and the scope is left empty and closed; where the disposals return.
  pub request_scope-disposes :
      let t = (call_next (create_scope s)).1 in
      t.closed ≡ false
      → AllReturn (reverse (values t.scoped))
      → request_scope call_next s ≡ (
        (call_next (create_scope s)).0,
        record t {
          closed = true;
          scoped = [];
          disposed = t.disposed ++ calls_back (values t.scoped);
        },
      )
  unfolding request_scope
  request_scope-disposes opened all =
      rw (close_scope-returns (call_next (create_scope s)).1 opened all)
        (rw (calls_all-reverse (values (call_next (create_scope s)).1.scoped)) refl)
