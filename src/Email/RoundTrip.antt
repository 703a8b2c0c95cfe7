-- ===== src/Email/RoundTrip.antt =====
-- `to_bytes` and `from_bytes` of `EmailJob`, backend/src/infrastructure/email/jobs.py.
use gamely.Base.{
  arith, ℕ, Bool, false, ◌&&◌, Option, none, some, ◌≡◌, refl, ◌∙◌, true, [], Text, length, ◌==◌,
  Bool-cases, inl, inr, if◌then◌else◌,
}
use gamely.Base.Decimal.{all_digits}
use gamely.Base.Uuid.{uuid_text}
use gamely.Outside.{Outside, World}
use gamely.Errors.{returns}
use gamely.Broker.{Json}
use gamely.Email.{
  check_recipient, check_template, check_code, check_timezone, check_attempts, attempts_json,
  is_recipient, is_template, is_truthy, has_timezone, EmailJob, is_valid_job, to_body, from_body,
  make_job, id_or, to_bytes,
}

-- Each check accepts what a valid job has.
check_recipient-valid : (r : Json) → is_recipient r ≡ true → check_recipient r ≡ returns tt
check_recipient-valid (Json.text t) h = rw h refl
check_recipient-valid (Json.array n at) h = rw h refl
check_recipient-valid (Json.object n at) h = rw h refl
check_recipient-valid _ h = cc

check_template-valid : (t : Text) → is_template t ≡ true → check_template (Json.text t) ≡ returns t
check_template-valid t h = rw h refl

check_code-valid :
    (c : Text) → (length c == 6 && all_digits c) ≡ true → check_code (Json.text c) ≡ returns c
check_code-valid c h = rw h refl

check_timezone-valid : (e : Option ℕ) → has_timezone e ≡ true → check_timezone e ≡ returns tt
check_timezone-valid none h = cc
check_timezone-valid (some t) h = refl

check_attempts-attempts_json :
    (n : ℕ) (part : Option ℕ) → check_attempts (attempts_json n part) ≡ returns (n, part)
check_attempts-attempts_json n none = refl
check_attempts-attempts_json n (some p) = refl

and-inv : (a b : Bool) → (a && b) ≡ true → (a ≡ true) × (b ≡ true)
and-inv true b h = (refl, h)
and-inv false b h = ground arith

pub make_job-valid : (job : EmailJob) → is_valid_job job ≡ true → make_job job ≡ returns job
unfolding make_job is_valid_job
make_job-valid job h =
    let code = length job.code == 6 && all_digits job.code in
    let r0 = is_recipient job.recipient in
    let t0 = is_template job.template in
    let (h1, e) = and-inv (r0 && t0 && code) (has_timezone job.expires_at) h in
    let (h2, c) = and-inv (r0 && t0) code h1 in
    let (r, t) = and-inv r0 t0 h2 in
    rw
      (
        check_recipient-valid job.recipient r,
        check_template-valid job.template t,
        check_code-valid job.code c,
        check_timezone-valid job.expires_at e,
        check_attempts-attempts_json job.attempts job.part,
      )
      refl

pub is_valid_job-id :
    (job : EmailJob) (i : Json)
    → is_valid_job job ≡ true
    → is_valid_job (record job { id = i }) ≡ true
unfolding is_valid_job
is_valid_job-id job i h = h

from_body-make_job :
    (job : EmailJob) (fresh : Text)
    → from_body (to_body job fresh) ≡ make_job (record job { id = id_or job.id fresh })
unfolding from_body to_body make_job
from_body-make_job job fresh = refl

-- A valid job is read back from its own bytes: every field as it was, the attempts included, but
-- for the id, which is the one that was drawn where the job had none.
pub from_body-to_body :
    (job : EmailJob) (fresh : Text)
    → is_valid_job job ≡ true
    → from_body (to_body job fresh) ≡ returns (record job { id = id_or job.id fresh })
from_body-to_body job fresh h =
    from_body-make_job job fresh
    ∙ make_job-valid (record job { id = id_or job.id fresh })
        (is_valid_job-id job (id_or job.id fresh) h)

pub is_valid_job-attempts :
    (job : EmailJob) (n : ℕ)
    → is_valid_job job ≡ true
    → is_valid_job (record job { attempts = n }) ≡ true
unfolding is_valid_job
is_valid_job-attempts job n h = h

-- The text that `to_bytes` draws for a job with no id.
abbrev pub fresh_id : (o : Outside) → EmailJob → World o → Text
fresh_id o job w = if is_truthy job.id then [] else uuid_text (o.uuid4 w.draws)

pub to_bytes-eq :
    (o : Outside) (job : EmailJob) (w : World o)
    → let (r, w') = to_bytes o job w in
      (r ≡ returns (to_body job (fresh_id o job w))) × (w'.connection ≡ w.connection)
unfolding to_bytes
to_bytes-eq o job w = elim (Bool-cases (is_truthy job.id)) [
  | inl none_yet ↦ rw none_yet (refl, refl)
  | inr given ↦ rw given (refl, refl)
]
