-- ===== src/Ioc.antt =====
-- backend/src/application/ioc/container.py: the service collection, the provider and the scope.
-- A class is a number, and a dict is the list of its entries in the order of insertion.
pub mod Dict
pub mod Caching
pub mod Closing
pub mod Lifetimes
pub mod Identity
pub mod Validation
use Prim.Native.String.{String}
use gamely.Base.{
  ℕ, zero, suc, Bool, true, false, Option, none, some, List, [], ◌∷◌, ◌++◌, map, if◌then◌else◌,
}
use gamely.Errors.{
  Exec, Outcome, Exception, value_error, runtime_error, other, pure, raise, lift, gets, ◌>>=◌, ◌>>◌,
}
use gamely.Ioc.Dict.{Entries, lookup, has_key, set_entry, values}

pub data ServiceLifetime : Type 0 where
  singleton scoped transient : ServiceLifetime

pub data DisposalMethod : Type 0 where
  aclose close : DisposalMethod

-- An object: its identity, the identities of what it was built from, and how its methods `aclose`
-- and `close` end, where it has them.
pub record Instance : Type 0 where
  pub identity : ℕ
  pub parts : List ℕ
  pub aclose : Option (Outcome (Unit {0}))
  pub close : Option (Outcome (Unit {0}))

-- A factory: it asks the resolver for services and goes on with what it gets, and at last gives an
-- object that it holds, builds a new one, or raises.
pub data Factory : Type 0 where
  give : Instance → Factory
  build : List ℕ → Option (Outcome (Unit {0})) → Option (Outcome (Unit {0})) → Factory
  fail : Exception → Factory
  ask : ℕ → (Instance → Factory) → Factory

-- `ServiceDescriptor`; its `service_type` is the key it is stored under.
pub record Descriptor : Type 0 where
  pub factory : Factory
  pub lifetime : ServiceLifetime

-- `ServiceCollection._add`
unfoldable pub add_descriptor : ℕ → Descriptor → Exec (Entries Descriptor) (Unit {0})
add_descriptor t d ds = if has_key t ds then raise value_error ds else pure tt (set_entry t d ds)

unfoldable pub add_singleton : ℕ → Factory → Exec (Entries Descriptor) (Unit {0})
add_singleton t f = add_descriptor t (record { factory = f; lifetime = singleton })

unfoldable pub add_scoped : ℕ → Factory → Exec (Entries Descriptor) (Unit {0})
add_scoped t f = add_descriptor t (record { factory = f; lifetime = scoped })

unfoldable pub add_transient : ℕ → Factory → Exec (Entries Descriptor) (Unit {0})
add_transient t f = add_descriptor t (record { factory = f; lifetime = transient })

unfoldable pub add_instance : ℕ → Instance → Exec (Entries Descriptor) (Unit {0})
add_instance t i = add_singleton t (give i)

-- The root's cache, the cache of one scope and its flag, the number of objects built so far, and
-- the disposal methods called so far.
pub record Store : Type 0 where
  pub singletons : Entries Instance
  pub scoped : Entries Instance
  pub closed : Bool
  pub made : ℕ
  pub disposed : List (ℕ × DisposalMethod)

-- Whose cache it is.
pub data Owner : Type 0 where
  root scope : Owner

abbrev pub cache : Owner → Store → Entries Instance
cache root s = s.singletons
cache scope s = s.scoped

abbrev pub put : Owner → ℕ → Instance → Store → Store
put root t i s = record s { singletons = set_entry t i s.singletons }
put scope t i s = record s { scoped = set_entry t i s.scoped }

-- A call of a factory, with the resolver's `get`.
unfoldable pub call : (ℕ → Exec Store Instance) → Factory → Exec Store Instance
call get (give i) s = pure i s
call get (build parts a c) s =
    pure (record { identity = s.made; parts = parts; aclose = a; close = c })
      (record s { made = suc s.made })
call get (fail e) s = raise e s
call get (ask t k) s = (get t >>= λ i. call get (k i)) s

-- `cache[t] = …` and `return cache[t]`
abbrev pub store_instance : Owner → ℕ → Instance → Exec Store Instance
store_instance who t i s = pure i (put who t i s)

-- `if t not in cache: cache[t] = factory(resolver)` and `return cache[t]`
abbrev pub cached : Owner → ℕ → Exec Store Instance → Option Instance → Exec Store Instance
cached who t make (some i) = pure i
cached who t make none = make >>= store_instance who t

-- `ServiceProvider._resolve`
unfoldable pub resolve : Owner → ℕ → ServiceLifetime → Exec Store Instance → Exec Store Instance
resolve who t transient make s = make s
resolve who t _ make s = cached who t make (lookup t (cache who s)) s

module _ (descriptors : Entries Descriptor) where
  abbrev pub registered : Option Descriptor → Exec Store Descriptor
  registered none = raise (other "ServiceNotRegisteredError")
  registered (some d) = pure d

  -- `_get_descriptor`, whose `KeyError` becomes a `ServiceNotRegisteredError`
  abbrev pub get_descriptor : ℕ → Exec Store Descriptor
  get_descriptor t = registered (lookup t descriptors)

  -- The interpreter's bound on nested calls, as a number of nested factories.
  abbrev too_deep : Exec Store Instance
  too_deep = raise (other "RecursionError")

  abbrev pub root_resolve :
      (ℕ → Exec Store Instance) → ℕ → ServiceLifetime → Factory → Exec Store Instance
  root_resolve get t scoped f = raise runtime_error
  root_resolve get t l f = resolve root t l (call get f)

  -- `ServiceProvider.get`
  unfoldable pub root_get : ℕ → ℕ → Exec Store Instance
  root_get zero t = too_deep
  root_get (suc n) t = do d ← get_descriptor t; root_resolve (root_get n) t d.lifetime d.factory

  abbrev pub scope_resolve :
      Exec Store Instance
      → (ℕ → Exec Store Instance)
      → ℕ
      → ServiceLifetime
      → Factory
      → Exec Store Instance
  scope_resolve from_root get t scoped f = resolve scope t scoped (call get f)
  scope_resolve from_root get t _ f = from_root

  abbrev pub open_get : Exec Store Instance → (ℕ → Exec Store Instance) → ℕ → Exec Store Instance
  open_get from_root get t = do
    d ← get_descriptor t
    scope_resolve from_root get t d.lifetime d.factory

  -- `ServiceScope.get`
  unfoldable pub scope_get : ℕ → ℕ → Exec Store Instance
  scope_get zero t = too_deep
  scope_get (suc n) t = do
    shut ← gets Store.closed
    if shut then raise runtime_error else open_get (root_get (suc n) t) (scope_get n) t

-- `ServiceProvider.create_scope`: a new scope of the same root.
unfoldable pub create_scope : Store → Store
create_scope s = record s { scoped = []; closed = false }

abbrev note_call : Instance → DisposalMethod → Exec Store (Unit {0})
note_call i m s = pure tt (record s { disposed = s.disposed ++ (i.identity, m) ∷ [] })

-- The first of the two methods that the object has, and how a call of it ends.
abbrev pub disposal_method : Instance → Option (DisposalMethod × Outcome (Unit {0}))
disposal_method i = elim i.aclose [
  | some r ↦ some (aclose, r)
  | none ↦ elim i.close [ some r ↦ some (close, r) | none ↦ none ]
]

abbrev pub call_method :
    Instance → Option (DisposalMethod × Outcome (Unit {0})) → Exec Store (Unit {0})
call_method i none = pure tt
call_method i (some (m, r)) = note_call i m >> lift r

-- `_dispose`
unfoldable pub dispose : Instance → Exec Store (Unit {0})
dispose i = call_method i (disposal_method i)

unfoldable pub dispose_all : List Instance → Exec Store (Unit {0})
dispose_all [] = pure tt
dispose_all (i ∷ is) = dispose i >>= λ _. dispose_all is

abbrev pub shut_scope : Exec Store (Unit {0})
shut_scope s = pure tt (record s { closed = true })

abbrev pub clear_scope : Exec Store (Unit {0})
clear_scope s = pure tt (record s { scoped = [] })

-- `reversed(list(…))`
unfoldable pub reverse : List Instance → List Instance
reverse [] = []
reverse (i ∷ is) = reverse is ++ i ∷ []

abbrev pub dispose_and_clear : Exec Store (Unit {0})
dispose_and_clear = do
  shut_scope
  instances ← gets (λ s. values s.scoped)
  dispose_all (reverse instances)
  clear_scope

-- `ServiceScope.close`
unfoldable pub close_scope : Exec Store (Unit {0})
close_scope = do shut ← gets Store.closed; if shut then pure tt else dispose_and_clear
