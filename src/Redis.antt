-- ===== src/Redis.antt =====
-- The Redis server as the backend uses it: an interface. The server is not part of the repository,
-- so a program takes a value of `Redis`, and a theorem that relies on what the commands do takes
-- `Documented` (in the child module) as a hypothesis.
pub mod Documented
pub mod Sets
pub mod Removal
use Prim.Native.String.{String}
use gamely.Base.{ℕ, Text, Option, List, [], ◌∷◌}
use gamely.Errors.{Exec, Outcome, returns, raises, redis_error, ◌>>=◌}

-- Whether SET writes always, or only a key that is absent.
pub data SetMode : Type 0 where
  always nx : SetMode

-- The commands that backend/src sends.
pub data Command : Type 0 where
  -- SET key value [EX seconds] [NX]
  set : Text → Text → Option ℕ → SetMode → Command
  get ttl smembers incr exists : Text → Command
  del : List Text → Command
  expire : Text → ℕ → Command
  sadd srem : Text → Text → Command
  -- CF.RESERVE, CF.INSERT, CF.EXISTS, CF.DEL and CF.INFO
  -- key, capacity, expansion, bucket size and iterations; key, capacity and items
  cf_reserve : Text → ℕ → ℕ → ℕ → ℕ → Command
  cf_insert : Text → ℕ → List Text → Command
  cf_exists cf_del : Text → Text → Command
  cf_info : Text → Command

-- A reply of the server. `error` is an error reply, which the client raises as `ResponseError`.
pub data Reply : Type 0 where
  nil ok : Reply
  int minus : ℕ → Reply
  bulk : Text → Reply
  array : List Text → Reply
  ints : List ℕ → Reply
  -- inserted and deleted items of a filter
  info : ℕ → ℕ → Reply
  error : String → Reply

-- One atomic unit of work: a single command, a transaction pipeline, or a Lua script, which may
-- choose its next command by the replies so far.
pub data Script : Type 0 where
  finish : Reply → Script
  ask : Command → (Reply → Script) → Script

pub record Redis : Type 1 where
  pub Server : Type 0
  -- Any call can raise, and nothing is known of the server then.
  pub run : Script → Server → Outcome Reply × Server

-- The client raises an error reply.
abbrev pub checked : {S : Type 0} → Reply → Exec S Reply
checked (error m) s = (raises (redis_error m), s)
checked nil s = (returns nil, s)
checked r s = (returns r, s)

abbrev pub single : Command → Script
single c = ask c finish

abbrev pub first_error : Reply → Reply → Reply
first_error (error m) r = error m
first_error _ (error m) = error m
first_error _ _ = ok

-- The commands of a `pipeline()` with `transaction=True`, the default, in their order. Each is
-- run, and the client raises the first error reply among theirs.
abbrev pub pipeline_from : List Command → Reply → Script
pipeline_from [] acc = finish acc
pipeline_from (c ∷ rest) acc = ask c (λ r. pipeline_from rest (first_error acc r))

abbrev pub pipeline : List Command → Script
pipeline commands = pipeline_from commands ok
