-- ===== src/Email.antt =====
-- backend/src/infrastructure/email/jobs.py
pub mod RoundTrip
pub mod Parsing
use Prim.Native.String.{String}
use text.Mathlib.Text.{◌==◌ as str_eq}
use gamely.Base.{
  ℕ, ◌*◌, Bool, true, false, ◌&&◌, ◌||◌, not, Option, none, some, List, [], ◌∷◌, ◌++◌, Text, codes,
  has_char, length, ltb, leb, ◌==◌, text_eq, if◌then◌else◌,
}
use gamely.Base.Decimal.{decimal, all_digits}
use gamely.Base.Uuid.{uuid_text}
use gamely.Errors.{
  Exec, Outcome, Exception, other, returns, raises, cancelled, value_error, key_error, type_error,
  pure, raise, raise_message, service_unavailable, try_finally, ◌>>=◌, ◌>>◌,
}
use gamely.Broker.{Json, Body, Action}
use gamely.Outside.{Outside, World, amqp, draw, time_now}

abbrev pub exchange_name : Text
exchange_name = codes "auth.email"

abbrev pub queue_name : Text
queue_name = codes "auth.email.primary"

abbrev pub dead_queue : Text
dead_queue = codes "auth.email.dead"

-- The constructor checks no types. A recipient may be an array or an object with "@", an id is any
-- value, and the attempts may be a float: `attempts` is its whole part then, and `part` the rest.
-- `expires_at` has no seconds where it has no timezone.
pub record EmailJob : Type 0 where
  pub recipient : Json
  pub template : Text
  pub code : Text
  pub expires_at : Option ℕ
  pub attempts : ℕ
  pub part : Option ℕ
  pub id : Json

abbrev pub attribute_error : Exception
attribute_error = other "AttributeError"

abbrev valid_or : {A : Type 0} → Bool → A → Outcome A
valid_or true a = returns a
valid_or false a = raises value_error

-- `__post_init__`, check by check, on whatever the fields hold. `"@" not in recipient` raises on a
-- value that is no text, array or object.
abbrev pub check_recipient : Json → Outcome (Unit {0})
check_recipient (Json.text t) = valid_or (has_char b'@' t && leb (length t) 320) tt
check_recipient (Json.array n at) = valid_or (at && leb n 320) tt
check_recipient (Json.object n at) = valid_or (at && leb n 320) tt
check_recipient (Json.timestamp _) = raises value_error
check_recipient _ = raises type_error

abbrev pub is_template : Text → Bool
is_template t = text_eq t (codes "verify") || text_eq t (codes "reset")

-- An array or an object cannot be looked up in a set.
abbrev pub check_template : Json → Outcome Text
check_template (Json.text t) = valid_or (is_template t) t
check_template (Json.array _ _) = raises type_error
check_template (Json.object _ _) = raises type_error
check_template _ = raises value_error

-- An array or an object has a length and no `isdigit`. A text that is a timestamp is longer than 6.
abbrev pub six_items : ℕ → Outcome Text
six_items n = if n == 6 then raises attribute_error else raises value_error

abbrev pub check_code : Json → Outcome Text
check_code (Json.text t) = valid_or (length t == 6 && all_digits t) t
check_code (Json.array n _) = six_items n
check_code (Json.object n _) = six_items n
check_code (Json.timestamp _) = raises value_error
check_code _ = raises type_error

abbrev pub check_timezone : Option ℕ → Outcome (Unit {0})
check_timezone none = raises value_error
check_timezone (some _) = returns tt

-- A Boolean is a number of Python.
abbrev pub check_attempts : Json → Outcome (ℕ × Option ℕ)
check_attempts (Json.number n) = returns (n, none)
check_attempts (Json.bool false) = returns (0, none)
check_attempts (Json.bool true) = returns (1, none)
check_attempts (Json.float n part) = returns (n, some part)
check_attempts (Json.negative _) = raises value_error
check_attempts Json.negative_float = raises value_error
check_attempts _ = raises type_error

abbrev pub then_outcome : {A B : Type 0} → Outcome A → (A → Outcome B) → Outcome B
then_outcome (returns a) f = f a
then_outcome (raises e) f = raises e
then_outcome cancelled f = cancelled

-- The constructor on arguments of any type.
abbrev pub construct : Json → Json → Json → Option ℕ → Json → Json → Outcome EmailJob
construct recipient template code expires attempts id =
    then_outcome (check_recipient recipient) λ _.
      then_outcome (check_template template) λ template_text.
        then_outcome (check_code code) λ code_text. then_outcome (check_timezone expires) λ _.
          then_outcome (check_attempts attempts) λ count. returns (record {
            recipient = recipient;
            template = template_text;
            code = code_text;
            expires_at = expires;
            attempts = count.0;
            part = count.1;
            id = id;
          })

abbrev pub attempts_json : ℕ → Option ℕ → Json
attempts_json n none = Json.number n
attempts_json n (some part) = Json.float n part

-- The constructor on the fields of a record.
unfoldable pub make_job : EmailJob → Outcome EmailJob
make_job job =
    construct job.recipient (Json.text job.template) (Json.text job.code) job.expires_at
      (attempts_json job.attempts job.part) job.id

abbrev pub is_recipient : Json → Bool
is_recipient (Json.text t) = has_char b'@' t && leb (length t) 320
is_recipient (Json.array n at) = at && leb n 320
is_recipient (Json.object n at) = at && leb n 320
is_recipient _ = false

abbrev pub has_timezone : Option ℕ → Bool
has_timezone none = false
has_timezone (some _) = true

-- What holds of a job that was constructed.
unfoldable pub is_valid_job : EmailJob → Bool
is_valid_job job =
    is_recipient job.recipient
    && is_template job.template
    && (length job.code == 6 && all_digits job.code)
    && has_timezone job.expires_at

-- `self.id or str(uuid4())`
abbrev pub is_truthy : Json → Bool
is_truthy (Json.text t) = not (length t == 0)
is_truthy (Json.number n) = not (n == 0)
is_truthy (Json.negative n) = true
is_truthy (Json.float n part) = not (n == 0 && part == 0)
is_truthy Json.negative_float = true
is_truthy Json.null = false
is_truthy (Json.bool b) = b
is_truthy (Json.timestamp _) = true
is_truthy (Json.array n _) = not (n == 0)
is_truthy (Json.object n _) = not (n == 0)

abbrev pub id_or : Json → Text → Json
id_or id fresh = if is_truthy id then id else Json.text fresh

-- `to_bytes`, with the text of the UUID that a job without an id draws.
unfoldable pub to_body : EmailJob → Text → Body
to_body job fresh = Body.fields (
    ("recipient", job.recipient)
    ∷ ("template", Json.text job.template)
    ∷ ("code", Json.text job.code)
    ∷ ("expires_at", Json.timestamp job.expires_at)
    ∷ ("attempts", attempts_json job.attempts job.part)
    ∷ ("id", id_or job.id fresh)
    ∷ [])

abbrev pub field : String → List (String × Json) → Option Json
field k [] = none
field k ((j, v) ∷ rest) = if str_eq j k then some v else field k rest

-- The arguments that the constructor takes; another name is a `TypeError`.
abbrev is_argument : String → Bool
is_argument k =
    str_eq k "recipient"
    || str_eq k "template"
    || str_eq k "code"
    || str_eq k "expires_at"
    || str_eq k "attempts"
    || str_eq k "id"

abbrev pub all_arguments : List (String × Json) → Bool
all_arguments [] = true
all_arguments ((k, v) ∷ rest) = is_argument k && all_arguments rest

abbrev pub expires_of : Option Json → Outcome (Option ℕ)
expires_of none = raises key_error
expires_of (some (Json.timestamp t)) = returns t
expires_of (some (Json.text t)) = raises value_error
expires_of (some _) = raises type_error

-- A field that has to be there, and one with a default.
abbrev pub required : Option Json → Outcome Json
required none = raises type_error
required (some j) = returns j

abbrev pub or_default : Option Json → Json → Json
or_default none d = d
or_default (some j) d = j

abbrev pub job_of : List (String × Json) → Option ℕ → Outcome EmailJob
job_of fields expires = then_outcome (required (field "recipient" fields)) λ recipient.
    then_outcome (required (field "template" fields)) λ template.
      then_outcome (required (field "code" fields)) λ code.
        construct recipient template code expires
          (or_default (field "attempts" fields) (Json.number 0))
          (or_default (field "id" fields) (Json.text []))

-- `from_bytes`: `data["expires_at"]` is read first, then the constructor is called.
unfoldable pub from_body : Body → Outcome EmailJob
from_body Body.malformed = raises value_error
from_body Body.not_object = raises type_error
from_body (Body.fields fields) =
    then_outcome (expires_of (field "expires_at" fields))
      λ expires. if all_arguments fields then job_of fields expires else raises type_error

-- `expired`; a job always has a timezone.
abbrev pub is_past : ℕ → Option ℕ → Bool
is_past now none = false
is_past now (some t) = leb t now

abbrev retry_queue : ℕ → Text
retry_queue delay = codes "auth.email.retry." ++ decimal delay

abbrev pub retry_route : ℕ → Text
retry_route delay = codes "retry." ++ decimal delay

module _ (o : Outside) where
  unfoldable pub expired : EmailJob → Exec (World o) Bool
  expired job = do now ← time_now o; pure (is_past now job.expires_at)

  -- `job.to_bytes()`
  unfoldable pub to_bytes : EmailJob → Exec (World o) Body
  unfolding to_body
  to_bytes job = do
    fresh ← if is_truthy job.id then pure [] else draw o (λ n. uuid_text (o.uuid4 n))
    pure (to_body job fresh)

  abbrev declare_retries : List ℕ → Exec (World o) (Unit {0})
  declare_retries [] = pure tt
  declare_retries (delay ∷ rest) = do
    amqp o (
        Action.declare_queue (retry_queue delay) (some (delay * 1000))
          (some (exchange_name, codes "send")))
    amqp o (Action.bind_queue (retry_queue delay) exchange_name (retry_route delay))
    declare_retries rest

  unfoldable pub declare_topology : Exec (World o) (Unit {0})
  declare_topology = do
    amqp o (Action.declare_exchange exchange_name)
    amqp o (Action.declare_queue dead_queue none none)
    amqp o (Action.bind_queue dead_queue exchange_name (codes "dead"))
    amqp o (Action.declare_queue queue_name none (some (exchange_name, codes "dead")))
    amqp o (Action.bind_queue queue_name exchange_name (codes "send"))
    declare_retries (30 ∷ 60 ∷ 120 ∷ 240 ∷ [])

  abbrev publish_job : EmailJob → Exec (World o) (Unit {0})
  publish_job job = do
    declare_topology
    body ← to_bytes job
    amqp o (Action.publish exchange_name body (codes "send"))

  abbrev publish_connected : EmailJob → Exec (World o) (Unit {0})
  publish_connected job = do
    amqp o Action.open_channel
    try_finally (publish_job job) (amqp o Action.close_channel)

  unfoldable pub publish : EmailJob → Exec (World o) (Unit {0})
  unfolding declare_topology to_bytes
  publish job w =
      if o.broker.is_connected w.connection
      then publish_connected job w
      else raise_message service_unavailable "Email delivery is temporarily unavailable." w
