-- ===== src/Email/Parsing.antt =====
-- `EmailJob.from_bytes` on any body, backend/src/infrastructure/email/jobs.py.
use Prim.Native.String.{String}
use gamely.Base.{
  ℕ, ◌≡◌, refl, ◌&&◌, ◌==◌, Bool, true, false, Option, none, some, List, [], Text, Bool-cases, inl,
  inr, arith, length,
}
use gamely.Base.Decimal.{all_digits}
use gamely.Errors.{
  Outcome, Exception, returns, raises, cancelled, value_error, key_error, type_error,
}
use gamely.Broker.{Json, Body}
use gamely.Email.{
  EmailJob, is_valid_job, from_body, then_outcome, expires_of, job_of, all_arguments, field,
  construct, check_recipient, check_template, check_code, check_timezone, check_attempts, six_items,
  is_recipient, is_template, has_timezone, required, or_default,
}

-- An array or an object with six items where the code should be.
abbrev is_odd : Option Json → Bool
is_odd (some (Json.array n _)) = n == 6
is_odd (some (Json.object n _)) = n == 6
is_odd _ = false

abbrev pub has_odd_code : Body → Bool
has_odd_code (Body.fields fields) = is_odd (field "code" fields)
has_odd_code _ = false

-- One of the three exceptions that the worker rejects a message for, or where `odd` another.
abbrev is_foreseen : Bool → Exception → Bool
is_foreseen odd value_error = true
is_foreseen odd key_error = true
is_foreseen odd type_error = true
is_foreseen odd _ = odd

-- Returned with what `P` demands, or a foreseen exception.
abbrev is_checked : {A : Type 0} → Bool → (A → Bool) → Outcome A → Bool
is_checked odd P (returns a) = P a
is_checked odd P (raises e) = is_foreseen odd e
is_checked odd P cancelled = false

abbrev pub is_proper : Bool → Outcome EmailJob → Bool
is_proper odd r = is_checked odd is_valid_job r

then_outcome-is_proper :
    {A : Type 0} (odd : Bool) (P : A → Bool) (r : Outcome A) (f : A → Outcome EmailJob)
    → is_checked odd P r ≡ true
    → ((a : A) → P a ≡ true → is_proper odd (f a) ≡ true)
    → is_proper odd (then_outcome r f) ≡ true
then_outcome-is_proper odd P (returns a) f h k = k a h
then_outcome-is_proper odd P (raises e) f h k = h
then_outcome-is_proper odd P cancelled f h k = cc

module _ (odd : Bool) where
  check_recipient-is_checked :
      (j : Json) → is_checked odd (λ _. is_recipient j) (check_recipient j) ≡ true
  check_recipient-is_checked (Json.text t) = ground arith
  check_recipient-is_checked (Json.array n at) = ground arith
  check_recipient-is_checked (Json.object n at) = ground arith
  check_recipient-is_checked _ = refl

  check_template-is_checked : (j : Json) → is_checked odd is_template (check_template j) ≡ true
  check_template-is_checked (Json.text t) = ground arith
  check_template-is_checked _ = refl

  check_timezone-is_checked :
      (e : Option ℕ) → is_checked odd (λ _. has_timezone e) (check_timezone e) ≡ true
  check_timezone-is_checked none = refl
  check_timezone-is_checked (some t) = refl

  check_attempts-is_checked : (j : Json) → is_checked odd (λ _. true) (check_attempts j) ≡ true
  check_attempts-is_checked (Json.bool true) = refl
  check_attempts-is_checked (Json.bool false) = refl
  check_attempts-is_checked _ = refl

  required-is_checked : (o : Option Json) → is_checked odd (λ _. true) (required o) ≡ true
  required-is_checked none = refl
  required-is_checked (some j) = refl

  expires_of-is_checked : (o : Option Json) → is_checked odd (λ _. true) (expires_of o) ≡ true
  expires_of-is_checked none = refl
  expires_of-is_checked (some (Json.timestamp t)) = refl
  expires_of-is_checked (some (Json.text t)) = refl
  expires_of-is_checked (some _) = refl

abbrev is_code : Text → Bool
is_code c = length c == 6 && all_digits c

six_items-is_checked : (n : ℕ) → is_checked (n == 6) is_code (six_items n) ≡ true
six_items-is_checked n = elim (Bool-cases (n == 6)) [
  | inl six ↦ rw six refl
  | inr other_size ↦ rw other_size refl
]

check_code-is_checked : (j : Json) → is_checked (is_odd (some j)) is_code (check_code j) ≡ true
check_code-is_checked (Json.text t) = ground arith
check_code-is_checked (Json.array n _) = six_items-is_checked n
check_code-is_checked (Json.object n _) = six_items-is_checked n
check_code-is_checked _ = refl

constructed-is_valid_job :
    (r : Json) (template code : Text) (e : Option ℕ) (count : ℕ × Option ℕ) (i : Json)
    → is_recipient r ≡ true
    → is_template template ≡ true
    → is_code code ≡ true
    → has_timezone e ≡ true
    → is_valid_job (record {
      recipient = r;
      template = template;
      code = code;
      expires_at = e;
      attempts = count.0;
      part = count.1;
      id = i;
    })
      ≡ true
unfolding is_valid_job
constructed-is_valid_job r template code e count i hr ht hc he = rw (hr, ht, hc, he) refl

construct-is_proper :
    (r t c : Json) (e : Option ℕ) (a i : Json)
    → is_proper (is_odd (some c)) (construct r t c e a i) ≡ true
construct-is_proper r t c e a i =
    let odd = is_odd (some c) in
    then_outcome-is_proper odd (λ _. is_recipient r) (check_recipient r) _
      (check_recipient-is_checked odd r)
      λ _ hr.
        then_outcome-is_proper odd is_template (check_template t) _
          (check_template-is_checked odd t)
          λ template ht.
            then_outcome-is_proper odd is_code (check_code c) _ (check_code-is_checked c) λ code hc.
              then_outcome-is_proper odd (λ _. has_timezone e) (check_timezone e) _
                (check_timezone-is_checked odd e)
                λ _ he.
                  then_outcome-is_proper odd (λ _. true) (check_attempts a) _
                    (check_attempts-is_checked odd a)
                    λ count _. constructed-is_valid_job r template code e count i hr ht hc he

job_of-is_proper :
    (fields : List (String × Json)) (e : Option ℕ)
    → is_proper (is_odd (field "code" fields)) (job_of fields e) ≡ true
job_of-is_proper fields e =
    let odd = is_odd (field "code" fields) in
    then_outcome-is_proper odd (λ _. true) (required (field "recipient" fields)) _
      (required-is_checked odd (field "recipient" fields))
      λ r _.
        then_outcome-is_proper odd (λ _. true) (required (field "template" fields)) _
          (required-is_checked odd (field "template" fields))
          λ t _. by_code r t (field "code" fields)
  where
    by_code :
        (r t : Json) (code : Option Json)
        → is_proper (is_odd code) (
            then_outcome (required code) λ c.
              construct r t c e
                (or_default (field "attempts" fields) (Json.number 0))
                (or_default (field "id" fields) (Json.text [])))
          ≡ true
    by_code r t none = refl
    by_code r t (some c) = construct-is_proper r t c e _ _

pub from_body-is_proper : (body : Body) → is_proper (has_odd_code body) (from_body body) ≡ true
unfolding from_body
from_body-is_proper Body.malformed = refl
from_body-is_proper Body.not_object = refl
from_body-is_proper (Body.fields fields) =
    let odd = is_odd (field "code" fields) in
    then_outcome-is_proper odd (λ _. true) (expires_of (field "expires_at" fields)) _
      (expires_of-is_checked odd (field "expires_at" fields))
      λ t _. elim (Bool-cases (all_arguments fields)) [
        | inl all ↦ rw all (job_of-is_proper fields t)
        | inr wrong ↦ rw wrong refl
      ]
