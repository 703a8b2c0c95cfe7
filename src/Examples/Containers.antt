-- ===== src/Examples/Containers.antt =====
-- A small container, the application's own, and requests in them.
use gamely.Base.{◌≡◌, refl, arith, true, false, none, some, [], ◌∷◌}
use gamely.Errors.{returns}
use gamely.Ioc.{
  DisposalMethod, Instance, Factory, give, build, ask, Descriptor, singleton, scoped, Store, scope,
  scope_get, root_get, close_scope, create_scope, call, resolve, reverse, add_instance,
  add_singleton, add_scoped, add_transient, add_descriptor,
}
use gamely.Ioc.Dict.{Entries, set_entry}
use gamely.Ioc.Closing.{none_left, one_more}
use gamely.Ioc.Lifetimes.{
  new_store, done, next, elsewhere, closing, here, leave, enter, caches-IsProper,
}
use gamely.Ioc.Caching.{IsProper}
use gamely.Ioc.Identity.{scoped_again, singleton_shared}
use gamely.Ioc.Validation.{
  Valid, all_valid, and_valid, gives, builds, asks, scope_get-returns, is_resolvable-Resolvable,
}
use gamely.Start.Container.{
  SessionMethods, descriptors, build_container, auth_controller, needs_controller, built_from,
}
use gamely.Start.Resolved.{classes, registered_in, build_container-resolves}
use gamely.Start.Lifespan.{request_scope, request_scope-disposes}

abbrev held : Instance
held = record { identity = 70; parts = []; aclose = none; close = none }

-- A singleton, and a scoped session that asks for it and has to be closed.
abbrev new_session : Factory
new_session = ask 0 (λ i. build (i.identity ∷ []) none (some (returns tt)))

abbrev small : Entries Descriptor
small =
    (0, record { factory = give held; lifetime = singleton })
    ∷ (1, record { factory = new_session; lifetime = scoped })
    ∷ []

abbrev session : Instance
session = record { identity = 0; parts = 70 ∷ []; aclose = none; close = some (returns tt) }

abbrev first : Store
first = (scope_get small 2 1 new_store).1

-- Another scope gets its own session, and this one is asked for it again.
abbrev second : Store
second = leave first (scope_get small 2 1 (enter [] false first)).1

scoped_again_example : scope_get small 5 1 second ≡ (returns session, second)
unfolding scope_get root_get call resolve set_entry
scoped_again_example =
    scoped_again small 2 4 1 new_session session new_store second refl refl
      (next (elsewhere [] false 2 1 first) (done second)) refl

abbrev closed_store : Store
closed_store = (close_scope second).1

singleton_shared_example :
    scope_get small 5 0 (enter [] false closed_store) ≡ (returns held, enter [] false closed_store)
unfolding scope_get root_get call resolve set_entry
singleton_shared_example =
    singleton_shared small 2 4 0 (give held) held second closed_store [] refl refl
      (next (closing (scope_get small 2 0 second).1) (done closed_store))

caches-IsProper_example : IsProper small scope closed_store.scoped
caches-IsProper_example = caches-IsProper small closed_store scope (
    next (here 2 1 new_store)
      (next (elsewhere [] false 2 1 first) (next (closing second) (done closed_store))))

small-Valid : Valid small (λ t. t) small
small-Valid = and_valid (gives held) (
    and_valid
      (asks 0 (λ i. build (i.identity ∷ []) none (some (returns tt)))
        (is_resolvable-Resolvable small scoped 1 0 refl)
        (λ i. builds (i.identity ∷ []) none (some (returns tt))))
      all_valid)

scope_get-returns_example : (i : Instance) × ((scope_get small 2 1 new_store).0 ≡ returns i)
scope_get-returns_example =
    scope_get-returns small (λ t. t) small-Valid 2 1 new_session scoped new_store refl refl
      (omega arith)

request_scope-disposes_example : request_scope (scope_get small 2 1) new_store ≡ (
  returns session,
  record first { closed = true; scoped = []; disposed = (0, DisposalMethod.close) ∷ [] },
)
unfolding scope_get root_get call resolve set_entry reverse create_scope
request_scope-disposes_example =
    request_scope-disposes (scope_get small 2 1) new_store refl (one_more refl none_left)

abbrev methods : SessionMethods
methods = record { aclose = some (returns tt); close = some (returns tt) }

abbrev new_services : Instance → Factory
new_services i = build (i.identity ∷ []) none (some (returns tt))

build_container-resolves_example :
    (build_container methods held new_services []
      ≡ (returns tt, descriptors methods held new_services))
    × (registered_in methods held new_services (build_container methods held new_services []).1
        ≡ classes methods held new_services)
    × ((i : Instance) × ((scope_get
            (descriptors methods held new_services)
            13
            auth_controller
            new_store).0
          ≡ returns i))
unfolding descriptors build_container add_instance add_singleton add_scoped add_transient
    add_descriptor set_entry
build_container-resolves_example =
    build_container-resolves methods held new_services
      (λ i. builds (i.identity ∷ []) none (some (returns tt))) 13 auth_controller
      (built_from [] needs_controller) scoped new_store (omega arith) (omega arith) refl refl
