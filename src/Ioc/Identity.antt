-- ===== src/Ioc/Identity.antt =====
-- backend/src/application/ioc/container.py: which object a `get` returns, over the life of a scope.
use mathlib.Core.Path.{subst}
use gamely.Base.{
  ℕ, zero, suc, ◌≡◌, refl, sym, ◌∙◌, ap, true, false, Bool-cases, inl, inr, Option, none, some,
  arith,
}
use gamely.Errors.{Exec, Outcome, runtime_error, returns, raises, cancelled, ◌>>=◌, continue}
use gamely.Ioc.{
  singleton, scoped, Instance, Factory, Descriptor, Store, Owner, root, scope, cache, put, call,
  store_instance, cached, resolve, registered, root_get, root_resolve, scope_get, close_scope,
}
use gamely.Ioc.Dict.{Entries, lookup, lookup-set_same}
use gamely.Ioc.Lifetimes.{
  Steps, Steps-scoped, Steps-singletons, Steps-closed, enter, close_scope-shut,
}

put-lookup :
    (who : Owner) (t : ℕ) (i : Instance) (s : Store) → lookup t (cache who (put who t i s)) ≡ some i
put-lookup root t i s = lookup-set_same t i s.singletons
put-lookup scope t i s = lookup-set_same t i s.scoped

result : Outcome Instance → Option Instance
result (returns i) = some i
result _ = none

nothing_returned : {A : Type 0} {i : Instance} → none ≡ some i → A
nothing_returned e = ground arith

returns_inj : {i j : Instance} → returns j ≡ returns i → some j ≡ some i
unfolding result
returns_inj h = ap result h

stored-lookup :
    (who : Owner) (t : ℕ) (i : Instance) (r : Outcome Instance) (s : Store)
    → (continue (store_instance who t) r s).0 ≡ returns i
    → lookup t (cache who (continue (store_instance who t) r s).1) ≡ some i
unfolding result
stored-lookup who t i (returns j) s h = put-lookup who t j s ∙ returns_inj h
stored-lookup who t i (raises e) s h = nothing_returned (ap result h)
stored-lookup who t i cancelled s h = nothing_returned (ap result h)

cached-lookup :
    (who : Owner) (t : ℕ) (i : Instance) (make : Exec Store Instance) (s : Store)
    (o : Option Instance)
    → lookup t (cache who s) ≡ o
    → (cached who t make o s).0 ≡ returns i
    → lookup t (cache who (cached who t make o s).1) ≡ some i
cached-lookup who t i make s (some j) e h = e ∙ returns_inj h
cached-lookup who t i make s none e h = stored-lookup who t i (make s).0 (make s).1 h

module _ (ds : Entries Descriptor) (t : ℕ) (f : Factory) where
  -- What a `get` of an open scope does for a service, by its lifetime.
  pub scope-singleton :
      (n : ℕ) (s : Store)
      → lookup t ds ≡ some (record { factory = f; lifetime = singleton })
      → s.closed ≡ false
      → scope_get ds (suc n) t s ≡ root_get ds (suc n) t s
  unfolding scope_get
  scope-singleton n s found opened = rw (opened, found) refl

  pub scope-scoped :
      (n : ℕ) (s : Store)
      → lookup t ds ≡ some (record { factory = f; lifetime = scoped })
      → s.closed ≡ false
      → scope_get ds (suc n) t s ≡ cached scope t (call (scope_get ds n) f) (lookup t s.scoped) s
  unfolding scope_get resolve
  scope-scoped n s found opened = rw (opened, found) refl

module _ (ds : Entries Descriptor) (t : ℕ) (f : Factory) (i : Instance) where
  root-lookup :
      (n : ℕ) (s : Store)
      → lookup t ds ≡ some (record { factory = f; lifetime = singleton })
      → (root_get ds n t s).0 ≡ returns i
      → lookup t (root_get ds n t s).1.singletons ≡ some i
  unfolding root_get resolve result
  root-lookup zero s found = λ h. nothing_returned (ap result h)
  root-lookup (suc n) s found =
      subst
        (λ o.
          let p =
            (registered ds o >>= λ d. root_resolve ds (root_get ds n) t d.lifetime d.factory) s in
          p.0 ≡ returns i → lookup t p.1.singletons ≡ some i)
        (sym found) (cached-lookup root t i (call (root_get ds n) f) s (lookup t s.singletons) refl)

  root-hit :
      (n : ℕ) (s : Store)
      → lookup t ds ≡ some (record { factory = f; lifetime = singleton })
      → lookup t s.singletons ≡ some i
      → root_get ds (suc n) t s ≡ (returns i, s)
  unfolding root_get resolve
  root-hit n s found hit = rw (found, hit) refl

  scope-closed :
      (n : ℕ) (s : Store) → s.closed ≡ true → scope_get ds (suc n) t s ≡ (raises runtime_error, s)
  unfolding scope_get
  scope-closed n s shut = rw shut refl

  opened_by : (n : ℕ) (s : Store) → (scope_get ds (suc n) t s).0 ≡ returns i → s.closed ≡ false
  unfolding result
  opened_by n s h = elim (Bool-cases s.closed) [
    | inl shut ↦ nothing_returned (sym (ap (λ p. result p.0) (scope-closed n s shut)) ∙ ap result h)
    | inr opened ↦ opened
  ]

  -- The cache that a `get` through a scope leaves, for the two lifetimes that are cached.
  singleton-lookup :
      (n : ℕ) (s : Store)
      → lookup t ds ≡ some (record { factory = f; lifetime = singleton })
      → (scope_get ds n t s).0 ≡ returns i
      → lookup t (scope_get ds n t s).1.singletons ≡ some i
  unfolding scope_get result
  singleton-lookup zero s found h = nothing_returned (ap result h)
  singleton-lookup (suc n) s found h =
      let same = scope-singleton ds t f n s found (opened_by n s h) in
      ap (λ p. lookup t p.1.singletons) same
      ∙ root-lookup (suc n) s found (sym (ap (λ p. p.0) same) ∙ h)

  scoped-lookup :
      (n : ℕ) (s : Store)
      → lookup t ds ≡ some (record { factory = f; lifetime = scoped })
      → (scope_get ds n t s).0 ≡ returns i
      → lookup t (scope_get ds n t s).1.scoped ≡ some i
  unfolding scope_get result
  scoped-lookup zero s found h = nothing_returned (ap result h)
  scoped-lookup (suc n) s found h =
      let same = scope-scoped ds t f n s found (opened_by n s h) in
      ap (λ p. lookup t p.1.scoped) same
      ∙ cached-lookup scope t i (call (scope_get ds n) f) s (lookup t s.scoped) refl
          (sym (ap (λ p. p.0) same) ∙ h)

  singleton-hit :
      (n : ℕ) (s : Store)
      → lookup t ds ≡ some (record { factory = f; lifetime = singleton })
      → s.closed ≡ false
      → lookup t s.singletons ≡ some i
      → scope_get ds (suc n) t s ≡ (returns i, s)
  singleton-hit n s found opened hit =
      scope-singleton ds t f n s found opened ∙ root-hit n s found hit

  scoped-hit :
      (n : ℕ) (s : Store)
      → lookup t ds ≡ some (record { factory = f; lifetime = scoped })
      → s.closed ≡ false
      → lookup t s.scoped ≡ some i
      → scope_get ds (suc n) t s ≡ (returns i, s)
  scoped-hit n s found opened hit =
      scope-scoped ds t f n s found opened
      ∙ ap (λ o. cached scope t (call (scope_get ds n) f) o s) hit

module _ (ds : Entries Descriptor) (n m t : ℕ) (f : Factory) (i : Instance) (s s' : Store) where
  -- Where a `get` of a scoped service has returned an object, every later `get` of it returns that
  -- object and changes nothing, as long as the scope is not closed, whatever was done in between with
  -- the scope, the root and the other scopes.
  pub scoped_again :
      lookup t ds ≡ some (record { factory = f; lifetime = scoped })
      → (scope_get ds n t s).0 ≡ returns i
      → Steps ds (scope_get ds n t s).1 s'
      → s'.closed ≡ false
      → scope_get ds (suc m) t s' ≡ (returns i, s')
  scoped_again found h steps opened =
      scoped-hit ds t f i m s' found opened
        (Steps-scoped ds t i steps opened (scoped-lookup ds t f i n s found h))

  -- Where a `get` of a singleton through a scope has returned an object, every later `get` of it
  -- through any open scope of the root, with whatever cache of its own, returns that object and changes
  -- nothing, whatever was done in between, closings included.
  pub singleton_shared :
      (es : Entries Instance)
      → lookup t ds ≡ some (record { factory = f; lifetime = singleton })
      → (scope_get ds n t s).0 ≡ returns i
      → Steps ds (scope_get ds n t s).1 s'
      → scope_get ds (suc m) t (enter es false s') ≡ (returns i, enter es false s')
  singleton_shared es found h steps =
      singleton-hit ds t f i m (enter es false s') found refl
        (Steps-singletons ds t i steps (singleton-lookup ds t f i n s found h))

  -- Once a scope is closed, however its disposals ended, every later `get` of it raises and changes
  -- nothing.
  pub closed_for_good :
      Steps ds (close_scope s).1 s' → scope_get ds (suc m) t s' ≡ (raises runtime_error, s')
  closed_for_good steps = scope-closed ds t f i m s' (Steps-closed ds steps (close_scope-shut s))
