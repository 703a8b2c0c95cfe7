-- ===== src/Lib.antt =====
-- Verification of the Gamely backend (backend/src): sign-up and login, one-time codes, refresh tokens,
-- login by other providers, the filter of registered addresses, throttling, the delivery of mail, the
-- routes in front of them, the container of services, and the layers of the configuration.
--
-- How the parts interact. `AuthService` asks `EmailFilter` and the repository for an address, writes
-- the account, stores a code in Redis and publishes an `EmailJob` to RabbitMQ. The worker process
-- takes the job, sends the mail, and publishes it again for a later attempt or for the dead queue
-- where that fails. `TokenService` keeps refresh tokens and their families in Redis. At start
-- `EmailFilterWarmer` rebuilds the filter from the table of users. `EmailAvailabilityService` throttles
-- the callers of the open endpoints. Exceptions reach the client by one middleware.
-- `AuthController` stands between HTTP and these services: it reads the bearer token, the refresh
-- cookie and the client's address, and sets or deletes the cookie. `build_container` registers the
-- classes, and each request gets its services from a scope that is closed when it ends. The settings
-- come from arguments, the environment, a dotenv file and two YAML layers, in that order of precedence.
--
-- The files, with what they model:
--   Errors          backend/src/shared/exceptions/application_error.py, the middleware of
--                   backend/src/shared/middlewares/error_handling.py, and the effect of every call:
--                   a state, and a result, an exception or a cancellation
--   Settings        the fields of `Settings` in backend/src/application/environment/environment_manager.py
--   Config          the rest of that file, and yaml_source.py beside it: Placeholders has `_interpolate`,
--                   Layer `_flatten`, `_expand`, `load_layer` and the merge, Sources the stage, the order
--                   of the sources, the validators and the origins
--   Ioc             `ServiceCollection`, `ServiceProvider`, `ServiceScope`, `_dispose`,
--                   backend/src/application/ioc/container.py
--   Start           `build_container`, `lifespan`, `request_scope` and `readiness`, backend/src/main.py, and
--                   `InfrastructureServices`, backend/src/infrastructure/services.py
--   Api             Controller and Routes are backend/src/features/auth/auth_controller.py, Dto is auth_dto.py
--                   beside it, Address is backend/src/shared/requests/client_address.py, Middlewares is
--                   backend/src/shared/middlewares/http.py, Exchange is what a route does to its response
--   Cuckoo          `RedisCuckooFilter`, backend/src/infrastructure/redis/cuckoo.py
--   RateLimiter     `RedisRateLimiter`, backend/src/infrastructure/redis/rate_limiter.py
--   Email           `EmailJob`, `declare_topology`, `EmailPublisher`, backend/src/infrastructure/email/jobs.py
--   Worker          `message_for`, `send`, `handle_message`, backend/src/workers/email_worker.py
--   Database        `User` and `OAuthIdentity`, backend/src/features/auth/auth_model.py
--   Auth            backend/src/features/auth:
--     EmailAddress  `normalize_email`, email_address.py
--     Token         `TokenService` with its Lua script, token/token_service.py
--     Filter        `EmailFilter`, availability/email_filter.py
--     Warmer        `EmailFilterWarmer` with its Lua script, availability/email_filter_warmer.py
--     Availability  `EmailAvailabilityService`, availability/availability_service.py
--     Repository    `AuthRepository`, auth_repository.py
--     Codes         `_send_code` and `_consume_code`, auth_service.py
--     Service       the other methods of `AuthService`, auth_service.py
--     Oauth         `OAuthService`, oauth/oauth_service.py
--   Base            texts as lists of code points, decimal numbers, UUIDs, Boolean tests
--   Redis, Database, Broker, Outside
--                   what the backend calls and does not contain, as records of operations
--   Examples        a concrete environment, and each main result in it
-- A definition has the name of its method, a private one without the underscore; a method of the
-- controller ends in `_endpoint`, and its route has the name of its verb and path. A child module holds
-- the lemmas about its parent.
--
-- Code outside the repository. Redis, the SQL session, RabbitMQ, SMTP, jwt, hashing and the random
-- functions are fields of `Outside`. Any call of them may raise. A result that relies on what a server
-- does takes `Documented` of that interface: the server is up and has the documented effect of each
-- command, written as a function on keys, tables or messages. A key map, a pair of tables and a list of
-- messages are themselves such servers. A script, a single command and a transaction pipeline are
-- atomic. Commands are uninterrupted by other clients within one call of a handler, and no key runs out
-- of time within it; a theorem about a later call states the keys that it finds.
-- `TokenSteps` takes the revocation of a family as one step, and the sets of a user do not run out of time
-- along it; `Retries` takes each delivery in a world of its own.
--
-- Bounds. The container's `get` takes the number of nested factories that the interpreter's stack
-- allows; a number above the rank of a service in an acyclic collection is enough, and thirteen is for
-- the application. The digits of a decimal number take as fuel the number plus one, which is more than
-- its digits. All other loops are structural: over texts, documents, layers, the batches of addresses,
-- the families of a user, the digests of a family. Numbers are unbounded, as Python's are.
--
-- Not modelled. Texts are ASCII: `lower`, `strip` and `isdigit` treat further code points, and
-- Python's `int` and `UUID` read further spellings than those that the program writes (signs, spaces,
-- underscores; braces, `urn:uuid:`). A filter has room for its items. The JSON library is a parameter in
-- so far as a body is the object that it holds, another value, or malformed; an array or an object in it
-- is its size and whether "@" is in it; NaN, the infinities and a nesting that exhausts the stack are left
-- out. `asyncio.wait_for` may end any call inside. The session from which the warmer streams is a
-- `Stream`: its batches, and how it ends. A factory of a service is a
-- tree of `get` calls that ends in an object, and a scope is got from by one request. The parser of
-- YAML gives texts, other scalars, sequences and mappings; the parser of addresses gives their numbers,
-- without scope ids; the sources of pydantic are tables; FastAPI's reading of a request is the validity
-- of its body. Log lines, the columns `created_at` and `updated_at`, the SMTP credentials, the cache of
-- key clients in `OAuthService`, the registration of middlewares and routes, the constructors of client
-- libraries and the migrations are left out, which only call other code. The claims of
-- a provider's token are texts or absent.
pub mod Base
pub mod Errors
pub mod Redis
pub mod Database
pub mod Broker
pub mod Ioc
pub mod Outside
pub mod Settings
pub mod Start
pub mod Worker
pub mod Email
pub mod Cuckoo
pub mod RateLimiter
pub mod Auth
pub mod Api
pub mod Config
pub mod Examples
