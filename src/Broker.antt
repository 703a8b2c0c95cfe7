-- ===== src/Broker.antt =====
-- RabbitMQ and SMTP as the backend uses them: interfaces, with what travels through them.
pub mod Documented
use Prim.Native.String.{String}
use gamely.Base.{ℕ, Bool, Option, List, Text}
use gamely.Errors.{Outcome}

-- A value in the JSON object that is a message's body. A timestamp is a text that `fromisoformat`
-- reads, with its seconds if it has a timezone. A float that is not negative is its whole part and
-- the rest, which is 0 where it is whole. Of an array or an object within the body the program can tell
-- the number of its items or keys, and whether the text "@" is one of them.
pub data Json : Type 0 where
  text : Text → Json
  number negative : ℕ → Json
  float : ℕ → ℕ → Json
  negative_float null : Json
  bool : Bool → Json
  timestamp : Option ℕ → Json
  array object : ℕ → Bool → Json

-- A body: a JSON object with its fields, another JSON value, or no JSON text.
pub data Body : Type 0 where
  malformed not_object : Body
  fields : List (String × Json) → Body

-- What the program asks of a connection, its channel and a delivered message.
pub data Action : Type 0 where
  open_channel close_channel : Action
  declare_exchange : Text → Action
  -- queue, and its arguments: time to live in milliseconds, dead letter exchange and routing key
  declare_queue : Text → Option ℕ → Option (Text × Text) → Action
  bind_queue : Text → Text → Text → Action
  -- exchange, body, routing key; every message is persistent
  publish : Text → Body → Text → Action
  ack : Action
  -- requeue
  reject : Bool → Action

pub record Broker : Type 1 where
  pub Connection : Type 0
  -- whether `connect` has given the application a connection
  pub is_connected : Connection → Bool
  pub run : Action → Connection → Outcome (Unit {0}) × Connection

pub record MailMessage : Type 0 where
  pub sender : Text
  pub recipient : Text
  pub subject : String
  pub content : Text

-- The SMTP server.
pub record Mailer : Type 1 where
  pub Server : Type 0
  pub send : MailMessage → Server → Outcome (Unit {0}) × Server
