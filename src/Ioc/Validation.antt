-- ===== src/Ioc/Validation.antt =====
-- backend/src/application/ioc/container.py: collections whose services can all be resolved.
use mathlib.Core.Path.{subst}
use mathlib.Core.Bool.{true≢false}
use gamely.Base.{
  ℕ, zero, suc, ◌<◌, ◌≡◌, refl, sym, ◌∙◌, ap, ltb, ◌&&◌, Option-cases, Bool, true, false, Option,
  none, some, List, [], ◌∷◌, ◌==◌, Bool-cases, inl, inr, ==_iff, arith,
}
use gamely.Errors.{Exec, Outcome, returns, bind-returns}
use gamely.Ioc.{
  ServiceLifetime, singleton, scoped, transient, Instance, Factory, give, build, fail, ask,
  Descriptor, Store, Owner, root, scope, call, store_instance, cached, resolve, root_get, scope_get,
}
use gamely.Ioc.Dict.{Entries, lookup}
use gamely.Ioc.Identity.{scope-scoped, scope-singleton}
use gamely.Ioc.Caching.{scope_get-Growing}

-- Whether the factory of a service with the first lifetime may ask for one with the second: the root
-- resolves for all but the scoped ones, and refuses those.
abbrev pub may_ask : ServiceLifetime → ServiceLifetime → Bool
may_ask scoped _ = true
may_ask _ scoped = false
may_ask _ _ = true

-- A service that a factory may ask for: it is registered, with a lifetime that the asking one may
-- use and a lower rank.
pub record Resolvable (ds : Entries Descriptor) (rank : ℕ → ℕ) (l : ServiceLifetime) (r u : ℕ)
    : Type 0 where
  pub descriptor : Descriptor
  pub found : lookup u ds ≡ some descriptor
  pub allowed : may_ask l descriptor.lifetime ≡ true
  pub lower : rank u < r

-- A factory that does not fail and asks only for such services, whatever objects it gets.
pub data Answered (P : ℕ → Type 0) : Factory → Type 0 where
  gives : (i : Instance) → Answered P (give i)
  builds : (parts : List ℕ) (a c : Option (Outcome (Unit {0}))) → Answered P (build parts a c)
  asks :
      (t : ℕ) (k : Instance → Factory)
      → P t
      → ((i : Instance) → Answered P (k i))
      → Answered P (ask t k)

-- Every descriptor of the collection has such a factory.
pub data Valid (ds : Entries Descriptor) (rank : ℕ → ℕ) : Entries Descriptor → Type 0 where
  all_valid : Valid ds rank []
  and_valid :
      {t : ℕ} {f : Factory} {l : ServiceLifetime} {es : Entries Descriptor}
      → Answered (Resolvable ds rank l (rank t)) f
      → Valid ds rank es
      → Valid ds rank ((t, record { factory = f; lifetime = l }) ∷ es)

-- The test of it, where services have the ranks of their numbers.
abbrev pub is_resolvable : Entries Descriptor → ServiceLifetime → ℕ → ℕ → Bool
is_resolvable ds l r u = elim (lookup u ds) [
  | none ↦ false
  | some d ↦ may_ask l d.lifetime && ltb u r
]

pub is_resolvable-Resolvable :
    (ds : Entries Descriptor) (l : ServiceLifetime) (r u : ℕ)
    → is_resolvable ds l r u ≡ true
    → Resolvable ds (λ t. t) l r u
is_resolvable-Resolvable ds l r u h = elim (Option-cases (lookup u ds)) [
  | inl missing ↦ elim (true≢false (sym h ∙ missed missing)) [ ]
  | inr (d, e) ↦ record { descriptor = d; found = e; allowed = ground arith; lower = ground arith }
]
  where
    missed : lookup u ds ≡ none → is_resolvable ds l r u ≡ false
    missed e = rw (e, is_resolvable) refl

abbrev Returns : Exec Store Instance → Store → Type 0
Returns m s = (i : Instance) × ((m s).0 ≡ returns i)

module _ (P : ℕ → Type 0) (IsFit : Store → Type 0) (get : ℕ → Exec Store Instance)
    (answers : (u : ℕ) (s : Store) → P u → IsFit s → Returns (get u) s)
    (stays : (u : ℕ) (s : Store) → IsFit s → IsFit (get u s).1) where
  call-Returns : (f : Factory) (s : Store) → Answered P f → IsFit s → Returns (call get f) s
  unfolding call
  call-Returns (give _) s (gives i) h = (i, refl)
  call-Returns (build _ _ _) s (builds parts a c) h =
      (record { identity = s.made; parts = parts; aclose = a; close = c }, refl)
  call-Returns (fail _) s x h = elim x [ ]
  call-Returns (ask _ _) s (asks t k p rest) h =
      let (i, e) = answers t s p h in
      let (j, e') = call-Returns (k i) (get t s).1 (rest i) (stays t s h) in
      (j, ap (λ q. q.0) (bind-returns (get t) (λ i. call get (k i)) s i e) ∙ e')

cached-Returns :
    (who : Owner) (t : ℕ) (make : Exec Store Instance) (o : Option Instance) (s : Store)
    → Returns make s
    → Returns (cached who t make o) s
cached-Returns who t make (some i) s h = (i, refl)
cached-Returns who t make none s (i, e) =
    (i, ap (λ q. q.0) (bind-returns make (store_instance who t) s i e))

nothing_found : {A : Type 0} {d : Descriptor} → none ≡ some d → A
nothing_found e = ground arith

the_descriptor : Descriptor → Option Descriptor → Descriptor
the_descriptor d none = d
the_descriptor d (some e) = e

module _ (ds : Entries Descriptor) (rank : ℕ → ℕ) (t : ℕ) (d : Descriptor) where
  here-Answered :
      (u : ℕ) (f : Factory) (l : ServiceLifetime)
      → u ≡ t
      → some (record { factory = f; lifetime = l }) ≡ some d
      → Answered (Resolvable ds rank l (rank u)) f
      → Answered (Resolvable ds rank d.lifetime (rank t)) d.factory
  unfolding the_descriptor
  here-Answered u f l same eq a =
      subst (λ (x : Descriptor). Answered (Resolvable ds rank x.lifetime (rank t)) x.factory)
        (ap (the_descriptor d) eq) (subst (λ v. Answered (Resolvable ds rank l (rank v)) f) same a)

  valid-Answered :
      (es : Entries Descriptor)
      → Valid ds rank es
      → lookup t es ≡ some d
      → Answered (Resolvable ds rank d.lifetime (rank t)) d.factory
  valid-Answered [] all_valid h = nothing_found h
  valid-Answered ((u, _) ∷ es) (and_valid {f = f} {l = l} a rest) h = elim (Bool-cases (u == t)) [
    | inl e ↦ here-Answered u f l ((==_iff u t).0 e) (rw e at h) a
    | inr e ↦ valid-Answered es rest (rw e at h)
  ]

module _ (ds : Entries Descriptor) (rank : ℕ → ℕ) (valid : Valid ds rank ds) where
  answered :
      (t : ℕ) (f : Factory) (l : ServiceLifetime)
      → lookup t ds ≡ some (record { factory = f; lifetime = l })
      → Answered (Resolvable ds rank l (rank t)) f
  answered t f l found =
      valid-Answered ds rank t (record { factory = f; lifetime = l }) ds valid found

  -- A service of a valid collection that is not scoped is resolved by the root, whatever its cache
  -- holds.
  pub root_get-Returns :
      (n t : ℕ) (f : Factory) (l : ServiceLifetime) (s : Store)
      → lookup t ds ≡ some (record { factory = f; lifetime = l })
      → may_ask transient l ≡ true
      → rank t < n
      → Returns (root_get ds n t) s
  unfolding root_get resolve
  root_get-Returns zero t f l s found allowed enough = ground arith
  root_get-Returns (suc n) t f scoped s found allowed enough = ground arith
  root_get-Returns (suc n) t f singleton s found allowed enough = rw found (
      cached-Returns root t (call (root_get ds n) f) (lookup t s.singletons) s (
        call-Returns (Resolvable ds rank singleton (rank t)) (λ _. Unit {0}) (root_get ds n)
          (λ u s r _.
            root_get-Returns n u r.descriptor.factory r.descriptor.lifetime s r.found r.allowed
              (omega (arith, r.lower, enough)))
          (λ u s x. x) f s (answered t f singleton found) tt))
  root_get-Returns (suc n) t f transient s found allowed enough = rw found (
      call-Returns (Resolvable ds rank transient (rank t)) (λ _. Unit {0}) (root_get ds n)
        (λ u s r _.
          root_get-Returns n u r.descriptor.factory r.descriptor.lifetime s r.found r.allowed
            (omega (arith, r.lower, enough)))
        (λ u s x. x) f s (answered t f transient found) tt)

  unscoped_get :
      (n t : ℕ) (f : Factory) (s : Store)
      → lookup t ds ≡ some (record { factory = f; lifetime = transient })
      → s.closed ≡ false
      → scope_get ds (suc n) t s ≡ root_get ds (suc n) t s
  unfolding scope_get
  unscoped_get n t f s found opened = rw (opened, found) refl

  -- Every service of a valid collection is resolved by an open scope, with any caches, where the bound
  -- on nested calls is above the rank of the service: no `get` raises or runs out of depth.
  pub scope_get-returns :
      (n t : ℕ) (f : Factory) (l : ServiceLifetime) (s : Store)
      → lookup t ds ≡ some (record { factory = f; lifetime = l })
      → s.closed ≡ false
      → rank t < n
      → (i : Instance) × ((scope_get ds n t s).0 ≡ returns i)
  scope_get-returns zero t f l s found opened enough = ground arith
  scope_get-returns (suc n) t f scoped s found opened enough =
      rw (scope-scoped ds t f n s found opened) (
        cached-Returns scope t (call (scope_get ds n) f) (lookup t s.scoped) s (
          call-Returns (Resolvable ds rank scoped (rank t)) (λ s. s.closed ≡ false) (scope_get ds n)
            (λ u s r h.
              scope_get-returns n u r.descriptor.factory r.descriptor.lifetime s r.found h
                (omega (arith, r.lower, enough)))
            (λ u s h. ((scope_get-Growing ds n u).grows s).same_closed ∙ h) f s
            (answered t f scoped found) opened))
  scope_get-returns (suc n) t f singleton s found opened enough =
      let (i, e) = root_get-Returns (suc n) t f singleton s found refl enough in
      (i, ap (λ p. p.0) (scope-singleton ds t f n s found opened) ∙ e)
  scope_get-returns (suc n) t f transient s found opened enough =
      let (i, e) = root_get-Returns (suc n) t f transient s found refl enough in
      (i, ap (λ p. p.0) (unscoped_get n t f s found opened) ∙ e)
