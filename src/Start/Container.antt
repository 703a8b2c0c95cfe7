-- ===== src/Start/Container.antt =====
-- backend/src/main.py: `build_container`.
use gamely.Base.{ℕ, Option, none, List, [], ◌∷◌}
use gamely.Errors.{Exec, Outcome, ◌>>◌}
use gamely.Ioc.{
  Instance, Factory, build, ask, Descriptor, add_singleton, add_scoped, add_transient, add_instance,
}
use gamely.Ioc.Dict.{Entries}

-- The classes, in the order in which they are registered.
abbrev pub settings_class : ℕ
settings_class = 0

abbrev pub application_services : ℕ
application_services = 1

abbrev pub async_session : ℕ
async_session = 2

abbrev pub auth_repository : ℕ
auth_repository = 3

abbrev pub token_service : ℕ
token_service = 4

abbrev pub email_publisher : ℕ
email_publisher = 5

abbrev pub email_filter : ℕ
email_filter = 6

abbrev pub redis_rate_limiter : ℕ
redis_rate_limiter = 7

abbrev pub email_filter_warmer : ℕ
email_filter_warmer = 8

abbrev pub email_availability_service : ℕ
email_availability_service = 9

abbrev pub auth_service : ℕ
auth_service = 10

abbrev pub oauth_service : ℕ
oauth_service = 11

abbrev pub auth_controller : ℕ
auth_controller = 12

-- How the methods `aclose` and `close` of a new `AsyncSession` end, where it has them.
pub record SessionMethods : Type 0 where
  pub aclose : Option (Outcome (Unit {0}))
  pub close : Option (Outcome (Unit {0}))

-- A constructor whose arguments are the objects of these services, or are taken from them, asked for
-- in the order of the arguments; the objects have no method that a scope would call.
abbrev pub built_from : List ℕ → List ℕ → Factory
built_from parts [] = build parts none none
built_from parts (t ∷ ts) = ask t (λ i. built_from (i.identity ∷ parts) ts)

-- What the constructors are called with.
abbrev pub needs_repository : List ℕ
needs_repository = async_session ∷ []

abbrev pub needs_services : List ℕ
needs_services = application_services ∷ []

abbrev pub needs_redis_and_settings : List ℕ
needs_redis_and_settings = application_services ∷ settings_class ∷ []

abbrev pub needs_warmer : List ℕ
needs_warmer = application_services ∷ application_services ∷ settings_class ∷ []

abbrev pub needs_availability : List ℕ
needs_availability = auth_repository ∷ email_filter ∷ redis_rate_limiter ∷ settings_class ∷ []

abbrev pub needs_auth : List ℕ
needs_auth =
    auth_repository ∷ token_service ∷ application_services ∷ email_publisher ∷ email_filter
    ∷ settings_class ∷ []

abbrev pub needs_oauth : List ℕ
needs_oauth =
    auth_repository ∷ token_service ∷ application_services ∷ email_filter ∷ settings_class ∷ []

abbrev pub needs_controller : List ℕ
needs_controller =
    auth_service ∷ oauth_service ∷ token_service ∷ email_availability_service ∷ settings_class ∷ []

module _ (session : SessionMethods) (settings : Instance)
    (services_factory : Instance → Factory) where
  abbrev new_session : Factory
  new_session = ask application_services (λ i. build (i.identity ∷ []) session.aclose session.close)

  -- `build_container`
  unfoldable pub build_container : Exec (Entries Descriptor) (Unit {0})
  build_container = do
    add_instance settings_class settings
    add_singleton application_services (ask settings_class services_factory)
    add_scoped async_session new_session
    add_scoped auth_repository (built_from [] needs_repository)
    add_transient token_service (built_from [] needs_redis_and_settings)
    add_transient email_publisher (built_from [] needs_services)
    add_transient email_filter (built_from [] needs_redis_and_settings)
    add_transient redis_rate_limiter (built_from [] needs_services)
    add_transient email_filter_warmer (built_from [] needs_warmer)
    add_scoped email_availability_service (built_from [] needs_availability)
    add_scoped auth_service (built_from [] needs_auth)
    add_scoped oauth_service (built_from [] needs_oauth)
    add_scoped auth_controller (built_from [] needs_controller)

  -- What `build_provider` copies.
  unfoldable pub descriptors : Entries Descriptor
  unfolding build_container
  descriptors = (build_container []).1
