-- ===== src/Ioc/Caching.antt =====
-- backend/src/application/ioc/container.py: the caches along `get`.
use gamely.Base.{
  ℕ, zero, suc, ◌≡◌, refl, sym, ◌∙◌, ap, ◌⊎◌, ==_iff, inl, inr, Bool, true, false, Option, none,
  some, Bool-cases, ◌==◌, if◌then◌else◌, arith,
}
use gamely.Errors.{
  Exec, gets, Outcome, Exception, runtime_error, returns, raises, cancelled, raise, other, ◌>>=◌,
  continue,
}
use gamely.Ioc.{
  ServiceLifetime, singleton, scoped, transient, Instance, Factory, give, build, fail, ask,
  Descriptor, Store, Owner, root, scope, cache, put, call, store_instance, cached, resolve,
  registered, root_get, root_resolve, scope_get, scope_resolve,
}
use gamely.Ioc.Dict.{Entries, lookup, set_entry, lookup-set_other}

abbrev pub lifetime_of : Owner → ServiceLifetime
lifetime_of root = singleton
lifetime_of scope = scoped

-- A cache of this owner holds only services that are registered with its lifetime.
unfoldable pub IsProper : Entries Descriptor → Owner → Entries Instance → Type 0
IsProper ds who es =
    (t : ℕ) (i : Instance)
    → lookup t es ≡ some i
    → (f : Factory) × (lookup t ds ≡ some (record { factory = f; lifetime = lifetime_of who }))

-- What a `get` may do to a store: every cached instance stays, a new one stands in the cache of its
-- lifetime, and nothing is closed.
pub record Grows (ds : Entries Descriptor) (s s' : Store) : Type 0 where
  pub kept :
      (who : Owner) (u : ℕ) (b : Instance)
      → lookup u (cache who s) ≡ some b
      → lookup u (cache who s') ≡ some b
  pub proper : (who : Owner) → IsProper ds who (cache who s) → IsProper ds who (cache who s')
  pub same_closed : s'.closed ≡ s.closed

module _ (ds : Entries Descriptor) where
  pub Grows-refl : (s : Store) → Grows ds s s
  Grows-refl s = record { kept = λ who u b h. h; proper = λ who p. p; same_closed = refl }

  pub Grows-trans : {s t u : Store} → Grows ds s t → Grows ds t u → Grows ds s u
  Grows-trans g h = record {
    kept = λ who v b e. h.kept who v b (g.kept who v b e);
    proper = λ who p. h.proper who (g.proper who p);
    same_closed = h.same_closed ∙ g.same_closed;
  }

  pub record Growing {A : Type 0} (m : Exec Store A) : Type 0 where
    pub grows : (s : Store) → Grows ds s (m s).1

  continue-Grows :
      {A : Type 0} (f : A → Exec Store Instance) (r : Outcome A) (s t : Store)
      → Grows ds s t
      → ((a : A) → Growing (f a))
      → Grows ds s (continue f r t).1
  continue-Grows f (returns a) s t g h = Grows-trans g ((h a).grows t)
  continue-Grows f (raises e) s t g h = g
  continue-Grows f cancelled s t g h = g

  pub bind-Growing :
      {A : Type 0} {m : Exec Store A} {f : A → Exec Store Instance}
      → Growing m
      → ((a : A) → Growing (f a))
      → Growing (m >>= f)
  bind-Growing {A} {m} {f} g h = record {
    grows = λ s. continue-Grows f (m s).0 s (m s).1 (g.grows s) h;
  }

  raise-Growing : {A : Type 0} (e : Exception) → Growing (raise {A = A} e)
  raise-Growing e = record { grows = λ s. Grows-refl s }

  -- Building an object touches no cache.
  made-Grows : (s : Store) (n : ℕ) → Grows ds s (record s { made = n })
  unfolding IsProper
  made-Grows s n = record { kept = same; proper = proper; same_closed = refl }
    where
      same :
          (who : Owner) (u : ℕ) (b : Instance)
          → lookup u (cache who s) ≡ some b
          → lookup u (cache who (record s { made = n })) ≡ some b
      same root u b h = h
      same scope u b h = h

      proper :
          (who : Owner)
          → IsProper ds who (cache who s)
          → IsProper ds who (cache who (record s { made = n }))
      proper root p = p
      proper scope p = p

  pub call-Growing :
      (get : ℕ → Exec Store Instance) (f : Factory)
      → ((t : ℕ) → Growing (get t))
      → Growing (call get f)
  unfolding call
  call-Growing get (give i) g = record { grows = λ s. Grows-refl s }
  call-Growing get (build parts a c) g = record { grows = λ s. made-Grows s (suc s.made) }
  call-Growing get (fail e) g = raise-Growing e
  call-Growing get (ask t k) g = record {
    grows = (bind-Growing (g t) (λ i. call-Growing get (k i) g)).grows;
  }

set-kept :
    (t u : ℕ) (i b : Instance) (es es' : Entries Instance)
    → lookup t es ≡ none
    → lookup u es ≡ some b
    → lookup u es' ≡ some b
    → lookup u (set_entry t i es') ≡ some b
set-kept t u i b es es' absent old new = elim (Bool-cases (t == u)) [
  | inl e ↦ ground arith
  | inr e ↦ ground (arith, lookup-set_other t u i es')
]

-- A key of the dict after a set was there before, or is the new one.
set-cases :
    (t u : ℕ) (i b : Instance) (es : Entries Instance)
    → lookup u (set_entry t i es) ≡ some b
    → (t ≡ u) ⊎ (lookup u es ≡ some b)
set-cases t u i b es h = elim (Bool-cases (t == u)) [
  | inl e ↦ inl ((==_iff t u).0 e)
  | inr e ↦ inr (ground (arith, lookup-set_other t u i es))
]

module _ (ds : Entries Descriptor) (t : ℕ) (i : Instance) (s s' : Store) (f : Factory) where
  put-Grows :
      (who : Owner)
      → lookup t ds ≡ some (record { factory = f; lifetime = lifetime_of who })
      → lookup t (cache who s) ≡ none
      → Grows ds s s'
      → Grows ds s (put who t i s')
  unfolding IsProper
  put-Grows root found absent g = record {
    kept = kept;
    proper = λ who p. proper who (g.proper who p);
    same_closed = g.same_closed;
  }
    where
      kept :
          (who : Owner) (u : ℕ) (b : Instance)
          → lookup u (cache who s) ≡ some b
          → lookup u (cache who (put root t i s')) ≡ some b
      kept root u b h = set-kept t u i b s.singletons s'.singletons absent h (g.kept root u b h)
      kept scope u b h = g.kept scope u b h

      proper :
          (who : Owner)
          → IsProper ds who (cache who s')
          → IsProper ds who (cache who (put root t i s'))
      proper root p u b h = elim (set-cases t u i b s'.singletons h) [
        | inl e ↦ (f, ap (λ v. lookup v ds) (sym e) ∙ found)
        | inr e ↦ p u b e
      ]
      proper scope p u b h = p u b h
  put-Grows scope found absent g = record {
    kept = kept;
    proper = λ who p. proper who (g.proper who p);
    same_closed = g.same_closed;
  }
    where
      kept :
          (who : Owner) (u : ℕ) (b : Instance)
          → lookup u (cache who s) ≡ some b
          → lookup u (cache who (put scope t i s')) ≡ some b
      kept root u b h = g.kept root u b h
      kept scope u b h = set-kept t u i b s.scoped s'.scoped absent h (g.kept scope u b h)

      proper :
          (who : Owner)
          → IsProper ds who (cache who s')
          → IsProper ds who (cache who (put scope t i s'))
      proper scope p u b h = elim (set-cases t u i b s'.scoped h) [
        | inl e ↦ (f, ap (λ v. lookup v ds) (sym e) ∙ found)
        | inr e ↦ p u b e
      ]
      proper root p u b h = p u b h

module _ (ds : Entries Descriptor) (t : ℕ) (f : Factory) (who : Owner)
    (found : lookup t ds ≡ some (record { factory = f; lifetime = lifetime_of who })) where
  store-Grows :
      (r : Outcome Instance) (s s' : Store)
      → lookup t (cache who s) ≡ none
      → Grows ds s s'
      → Grows ds s (continue (store_instance who t) r s').1
  store-Grows (returns i) s s' absent g = put-Grows ds t i s s' f who found absent g
  store-Grows (raises e) s s' absent g = g
  store-Grows cancelled s s' absent g = g

  cached-Grows :
      (make : Exec Store Instance) (s : Store) (o : Option Instance)
      → lookup t (cache who s) ≡ o
      → Growing ds make
      → Grows ds s (cached who t make o s).1
  cached-Grows make s (some i) e g = Grows-refl ds s
  cached-Grows make s none e g = store-Grows (make s).0 s (make s).1 e (g.grows s)

module _ (ds : Entries Descriptor) (t : ℕ) where
  found-Growing :
      {f : Descriptor → Exec Store Instance} (o : Option Descriptor)
      → lookup t ds ≡ o
      → ((d : Descriptor) → lookup t ds ≡ some d → Growing ds (f d))
      → Growing ds (registered ds o >>= f)
  found-Growing none e h = raise-Growing ds (other "ServiceNotRegisteredError")
  found-Growing (some d) e h = record { grows = (h d e).grows }

  root_resolve-Growing :
      (get : ℕ → Exec Store Instance) (f : Factory) (l : ServiceLifetime)
      → lookup t ds ≡ some (record { factory = f; lifetime = l })
      → ((u : ℕ) → Growing ds (get u))
      → Growing ds (root_resolve ds get t l f)
  unfolding resolve
  root_resolve-Growing get f scoped e g = raise-Growing ds runtime_error
  root_resolve-Growing get f singleton e g = record {
    grows = λ s.
        cached-Grows ds t f root e (call get f) s (lookup t s.singletons) refl
          (call-Growing ds get f g);
  }
  root_resolve-Growing get f transient e g = record { grows = (call-Growing ds get f g).grows }

  scope_resolve-Growing :
      {from_root : Exec Store Instance} (get : ℕ → Exec Store Instance) (f : Factory)
      (l : ServiceLifetime)
      → lookup t ds ≡ some (record { factory = f; lifetime = l })
      → Growing ds from_root
      → ((u : ℕ) → Growing ds (get u))
      → Growing ds (scope_resolve ds from_root get t l f)
  unfolding resolve
  scope_resolve-Growing get f scoped e r g = record {
    grows = λ s.
        cached-Grows ds t f scope e (call get f) s (lookup t s.scoped) refl
          (call-Growing ds get f g);
  }
  scope_resolve-Growing get f singleton e r g = r
  scope_resolve-Growing get f transient e r g = r

module _ (ds : Entries Descriptor) where
  pub root_get-Growing : (n t : ℕ) → Growing ds (root_get ds n t)
  unfolding root_get
  root_get-Growing zero t = raise-Growing ds (other "RecursionError")
  root_get-Growing (suc n) t = found-Growing ds t (lookup t ds) refl (λ d e.
      root_resolve-Growing ds t (root_get ds n) d.factory d.lifetime e (λ u. root_get-Growing n u))

  open_or_raise-Growing :
      {m : Exec Store Instance} (shut : Bool)
      → Growing ds m
      → Growing ds (if shut then raise runtime_error else m)
  open_or_raise-Growing true g = raise-Growing ds runtime_error
  open_or_raise-Growing false g = g

  pub scope_get-Growing : (n t : ℕ) → Growing ds (scope_get ds n t)
  unfolding scope_get
  scope_get-Growing zero t = raise-Growing ds (other "RecursionError")
  scope_get-Growing (suc n) t =
      bind-Growing ds {m = gets Store.closed} (record { grows = λ s. Grows-refl ds s })
        (λ shut. open_or_raise-Growing shut (
          found-Growing ds t (lookup t ds) refl (λ d e.
            scope_resolve-Growing ds t (scope_get ds n) d.factory d.lifetime e
              (root_get-Growing (suc n) t) (λ u. scope_get-Growing n u))))
