-- ===== src/Start/Resolved.antt =====
-- backend/src/main.py: the services of `build_container`.
use gamely.Base.{
  ℕ, ◌≤◌, ◌<◌, ◌≡◌, refl, ◌∙◌, ap, ◌&&◌, Bool, true, false, none, some, List, [], ◌∷◌, arith,
}
use gamely.Errors.{returns}
use gamely.Ioc.{
  ServiceLifetime, singleton, scoped, transient, Instance, Factory, give, build, fail, ask,
  Descriptor, Store, scope_get, add_descriptor, add_singleton, add_scoped, add_transient,
  add_instance,
}
use gamely.Ioc.Dict.{Entries, lookup, set_entry}
use gamely.Ioc.Validation.{
  is_resolvable, is_resolvable-Resolvable, Resolvable, Answered, gives, builds, asks, Valid,
  all_valid, and_valid, scope_get-returns,
}
use gamely.Start.Container.{
  SessionMethods, built_from, needs_repository, needs_services, needs_redis_and_settings,
  needs_warmer, needs_availability, needs_auth, needs_oauth, needs_controller, build_container,
  descriptors, settings_class, application_services, async_session, auth_repository, token_service,
  email_publisher, email_filter, redis_rate_limiter, email_filter_warmer,
  email_availability_service, auth_service, oauth_service, auth_controller,
}

-- A factory that asks for nothing and does not raise.
abbrev pub Makes : Factory → Type 0
Makes f = Answered (λ _. ⊥) f

abbrev all_resolvable : Entries Descriptor → ServiceLifetime → ℕ → List ℕ → Bool
all_resolvable ds l r [] = true
all_resolvable ds l r (t ∷ ts) = is_resolvable ds l r t && all_resolvable ds l r ts

built_from-Answered :
    (ds : Entries Descriptor) (l : ServiceLifetime) (r : ℕ) (parts ts : List ℕ)
    → all_resolvable ds l r ts ≡ true
    → Answered (Resolvable ds (λ t. t) l r) (built_from parts ts)
built_from-Answered ds l r parts [] h = builds parts none none
built_from-Answered ds l r parts (t ∷ ts) h =
    asks t (λ i. built_from (i.identity ∷ parts) ts)
      (is_resolvable-Resolvable ds l r t (ground arith))
      (λ i. built_from-Answered ds l r (i.identity ∷ parts) ts (ground arith))

any_Answered : {P : ℕ → Type 0} (f : Factory) → Makes f → Answered P f
any_Answered (give _) (gives i) = gives i
any_Answered (build _ _ _) (builds parts a c) = builds parts a c
any_Answered (fail _) x = elim x [ ]
any_Answered (ask _ _) (asks t k p rest) = elim p [ ]

module _ (session : SessionMethods) (settings : Instance)
    (services_factory : Instance → Factory) where
  registers :
      build_container session settings services_factory []
      ≡ (returns tt, descriptors session settings services_factory)
  unfolding build_container descriptors add_instance add_singleton add_scoped add_transient
      add_descriptor set_entry
  registers = refl

  valid :
      ((i : Instance) → Makes (services_factory i))
      → Valid
          (descriptors session settings services_factory)
          (λ t. t)
          (descriptors session settings services_factory)
  unfolding build_container descriptors add_instance add_singleton add_scoped add_transient
      add_descriptor set_entry
  valid makes =
      let ds = descriptors session settings services_factory in
      and_valid (gives settings) (
        and_valid
          (asks 0 services_factory (is_resolvable-Resolvable ds singleton 1 0 refl)
            (λ i. any_Answered (services_factory i) (makes i)))
          (and_valid
            (asks 1 (λ i. build (i.identity ∷ []) session.aclose session.close)
              (is_resolvable-Resolvable ds scoped 2 1 refl)
              (λ i. builds (i.identity ∷ []) session.aclose session.close))
            (and_valid (built_from-Answered ds scoped 3 [] needs_repository refl) (
              and_valid (built_from-Answered ds transient 4 [] needs_redis_and_settings refl) (
                and_valid (built_from-Answered ds transient 5 [] needs_services refl) (
                  and_valid (built_from-Answered ds transient 6 [] needs_redis_and_settings refl) (
                    and_valid (built_from-Answered ds transient 7 [] needs_services refl) (
                      and_valid (built_from-Answered ds transient 8 [] needs_warmer refl) (
                        and_valid (built_from-Answered ds scoped 9 [] needs_availability refl) (
                          and_valid (built_from-Answered ds scoped 10 [] needs_auth refl) (
                            and_valid (built_from-Answered ds scoped 11 [] needs_oauth refl) (
                              and_valid (built_from-Answered ds scoped 12 [] needs_controller refl)
                                all_valid))))))))))))

  -- The classes of main.py and their lifetimes, in the order of their registration.
  abbrev pub classes : List (ℕ × ServiceLifetime)
  classes =
      (settings_class, singleton)
      ∷ (application_services, singleton)
      ∷ (async_session, scoped)
      ∷ (auth_repository, scoped)
      ∷ (token_service, transient)
      ∷ (email_publisher, transient)
      ∷ (email_filter, transient)
      ∷ (redis_rate_limiter, transient)
      ∷ (email_filter_warmer, transient)
      ∷ (email_availability_service, scoped)
      ∷ (auth_service, scoped)
      ∷ (oauth_service, scoped)
      ∷ (auth_controller, scoped)
      ∷ []

  -- What a collection registers.
  abbrev pub registered_in : Entries Descriptor → List (ℕ × ServiceLifetime)
  registered_in [] = []
  registered_in ((t, d) ∷ rest) = (t, d.lifetime) ∷ registered_in rest

  all_classes : registered_in (descriptors session settings services_factory) ≡ classes
  unfolding build_container descriptors add_instance add_singleton add_scoped add_transient
      add_descriptor set_entry
  all_classes = refl

  -- The application's container: `build_container` registers each of the thirteen classes once, with
  -- its lifetime, and raises nothing,
  -- and an open scope of its provider, whatever its caches hold, resolves each registered class where
  -- thirteen nested factories fit the interpreter's stack, if the factory of the infrastructure raises
  -- nothing.
  pub build_container-resolves :
      ((i : Instance) → Makes (services_factory i))
      → (n t : ℕ) (f : Factory) (l : ServiceLifetime) (s : Store) → 13 ≤ n
      → t < 13
      → lookup t (descriptors session settings services_factory)
        ≡ some (record { factory = f; lifetime = l })
      → s.closed ≡ false
      → (build_container session settings services_factory []
          ≡ (returns tt, descriptors session settings services_factory))
        × (registered_in (build_container session settings services_factory []).1 ≡ classes)
        × ((i : Instance) × ((scope_get (descriptors session settings services_factory) n t s).0
              ≡ returns i))
  build_container-resolves makes n t f l s deep registered found opened = (
    registers,
    ap (λ p. registered_in p.1) registers ∙ all_classes,
    scope_get-returns (descriptors session settings services_factory) (λ t. t) (valid makes) n t f l
        s found opened (omega arith),
  )
