-- ===== src/Errors.antt =====
-- backend/src/shared/exceptions/application_error.py, backend/src/shared/middlewares/error_handling.py
-- and the effect that every handler runs in: state, and an exception or a result.
use Prim.Native.String.{String}
use text.Mathlib.Text.{◌==◌ as str_eq}
use gamely.Base.{ℕ, ◌≡◌, ap, Option, none, some, if◌then◌else◌}

-- `ApplicationError` and its subclasses.
pub data ErrorClass : Type 0 where
  application_error bad_request unauthorized forbidden not_found : ErrorClass
  conflict too_many_requests service_unavailable : ErrorClass

-- The class attributes `status_code`, `code` and `message`.
unfoldable pub status_code : ErrorClass → ℕ
status_code application_error = 500
status_code bad_request = 400
status_code unauthorized = 401
status_code forbidden = 403
status_code not_found = 404
status_code conflict = 409
status_code too_many_requests = 429
status_code service_unavailable = 503

unfoldable pub error_code : ErrorClass → String
error_code application_error = "internal_error"
error_code bad_request = "bad_request"
error_code unauthorized = "unauthorized"
error_code forbidden = "forbidden"
error_code not_found = "not_found"
error_code conflict = "conflict"
error_code too_many_requests = "too_many_requests"
error_code service_unavailable = "service_unavailable"

unfoldable pub default_message : ErrorClass → String
default_message application_error = "An unexpected error occurred."
default_message bad_request = "The request could not be processed."
default_message unauthorized = "Authentication is required to access this resource."
default_message forbidden = "You do not have permission to access this resource."
default_message not_found = "The requested resource was not found."
default_message conflict = "The request conflicts with the current resource state."
default_message too_many_requests = "Too many requests. Please try again later."
default_message service_unavailable = "The service is temporarily unavailable."

-- An instance: its class, and the message that `__init__` leaves on it.
pub record ApplicationError : Type 0 where
  pub error_class : ErrorClass
  pub message : String

-- `message or self.message`: the default also replaces an empty message.
unfoldable pub message_or_default : ErrorClass → Option String → String
message_or_default c none = default_message c
message_or_default c (some m) = if str_eq m "" then default_message c else m

-- `ApplicationError.__init__`
abbrev pub make_error : ErrorClass → Option String → ApplicationError
make_error c m = record { error_class = c; message = message_or_default c m }

-- What a call can raise: an application error, the database's `IntegrityError`, or anything else,
-- of which only its kind matters to the program.
pub data Exception : Type 0 where
  application : ApplicationError → Exception
  integrity_error : Exception
  value_error key_error type_error runtime_error : Exception
  recipient_refused : Exception
  redis_error : String → Exception
  other : String → Exception

-- How a call ends. `cancelled` is asyncio's `CancelledError`, which no `except Exception` catches.
pub data Outcome {ℓ} (A : Type ℓ) : Type ℓ where
  returns : A → Outcome A
  raises : Exception → Outcome A
  cancelled : Outcome A

-- A call: what was written before an exception stays written, so the state comes back with it.
abbrev pub Exec {ℓ} : Type ℓ → Type ℓ → Type ℓ
Exec S A = S → Outcome A × S

module _ {ℓ} {S A : Type ℓ} where
  abbrev pub pure : A → Exec S A
  pure a s = (returns a, s)

  abbrev pub raise : Exception → Exec S A
  raise e s = (raises e, s)

  abbrev pub gets : (S → A) → Exec S A
  gets f s = (returns (f s), s)

  abbrev pub lift : Outcome A → Exec S A
  lift r s = (r, s)

  abbrev pub handle : (Exception → Exec S A) → Outcome A → Exec S A
  handle h (returns a) s = (returns a, s)
  handle h (raises e) s = h e s
  handle h cancelled s = (cancelled, s)

  -- `try: m` and `except Exception as e: h e`
  abbrev pub try_except : Exec S A → (Exception → Exec S A) → Exec S A
  try_except m h s = let (r, s') = m s in handle h r s'

module _ {ℓ} {S A : Type ℓ} (m : Exec S A) (h : Exception → Exec S A) (s : S) where
  -- The handler is not reached where the body returns, and is where it raises.
  pub try_except-returns : (a : A) → (m s).0 ≡ returns a → try_except m h s ≡ (returns a, (m s).1)
  try_except-returns a e = ap (λ r. handle h r (m s).1) e

  pub try_except-raises : (x : Exception) → (m s).0 ≡ raises x → try_except m h s ≡ h x (m s).1
  try_except-raises x e = ap (λ r. handle h r (m s).1) e

module _ {ℓ} {S A B : Type ℓ} where
  abbrev pub continue : (A → Exec S B) → Outcome A → Exec S B
  continue f (returns a) s = f a s
  continue f (raises e) s = (raises e, s)
  continue f cancelled s = (cancelled, s)

  infixl 5 ◌>>=◌ ◌>>◌
  abbrev pub ◌>>=◌ : Exec S A → (A → Exec S B) → Exec S B
  ◌>>=◌ m f s = let (r, s') = m s in continue f r s'

  abbrev pub ◌>>◌ : Exec S A → Exec S B → Exec S B
  m >> k = m >>= λ _. k

module _ {ℓ} {A B : Type ℓ} where
  -- What `finally` ends with: an exception of its own replaces the outcome of the body.
  abbrev after_finally : Outcome A → Outcome B → Outcome A
  after_finally r (returns _) = r
  after_finally r (raises e) = raises e
  after_finally r cancelled = cancelled

  -- `try: m` and `finally: k`
  abbrev pub try_finally : {S : Type ℓ} → Exec S A → Exec S B → Exec S A
  try_finally m k s = let (r, s') = m s in let (q, s'') = k s' in (after_finally r q, s'')

module _ {ℓ} {S A B : Type ℓ} (m : Exec S A) (f : A → Exec S B) (s : S) where
  pub bind-returns : (a : A) → (m s).0 ≡ returns a → (m >>= f) s ≡ f a (m s).1
  bind-returns a e = ap (λ r. continue f r (m s).1) e

  pub bind-raises : (x : Exception) → (m s).0 ≡ raises x → (m >>= f) s ≡ (raises x, (m s).1)
  bind-raises x e = ap (λ r. continue f r (m s).1) e

-- `raise X(message)` and `raise X()`.
abbrev pub raise_message : {S A : Type 0} → ErrorClass → String → Exec S A
raise_message c m = raise (application (make_error c (some m)))

abbrev pub raise_default : {S A : Type 0} → ErrorClass → Exec S A
raise_default c = raise (application (make_error c none))

-- `error_response`: the status and the body of the JSON answer.
pub record ErrorResponse : Type 0 where
  pub status : ℕ
  pub code : String
  pub text : String

unfoldable pub error_response : ℕ → String → String → ErrorResponse
error_response s c m = record { status = s; code = c; text = m }

pub data HttpResult {ℓ} (A : Type ℓ) : Type ℓ where
  response : A → HttpResult A
  failure : ErrorResponse → HttpResult A
  aborted : HttpResult A

-- `ExceptionHandlingMiddleware.dispatch`, on how the inner call ended.
unfoldable pub dispatch {ℓ} : {A : Type ℓ} → Outcome A → HttpResult A
unfolding error_response status_code error_code
dispatch (returns a) = response a
dispatch (raises (application e)) =
    failure (error_response (status_code e.error_class) (error_code e.error_class) e.message)
dispatch cancelled = aborted
dispatch (raises _) = failure (error_response 500 "internal_error" "An unexpected error occurred.")

-- `handle_http_error`: the detail is shown only where it is a text.
unfoldable pub handle_http_error : ℕ → Option String → ErrorResponse
unfolding error_response
handle_http_error s (some detail) = error_response s "http_error" detail
handle_http_error s none = error_response s "http_error" "The request could not be processed."

-- `handle_validation_error`
unfoldable pub handle_validation_error : ErrorResponse
unfolding error_response
handle_validation_error = error_response 422 "validation_error" "The request data is invalid."
