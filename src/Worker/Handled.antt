-- ===== src/Worker/Handled.antt =====
-- What one delivery publishes and settles, in every case, backend/src/workers/email_worker.py.
use mathlib.Core.Path.{subst}
use native.Mathlib.Decide.{dec_lt}
use gamely.Base.{
  Option, none, some, Bool, ℕ, ◌+◌, ◌<◌, ◌≡◌, ◌≢◌, refl, sym, ◌∙◌, ap, true, false, List, [], ◌∷◌,
  Text, codes, Bool-cases, inl, inr, arith, length,
}
use gamely.Errors.{
  Exception, Outcome, returns, raises, cancelled, recipient_refused, value_error, key_error,
  type_error, try_except, try_except-raises, try_except-returns,
}
use gamely.Broker.{Json, Body, Action}
use gamely.Broker.Documented.{Documented}
use gamely.Email.{
  EmailJob, exchange_name, is_valid_job, from_body, to_body, is_past, retry_route, expired, id_or,
}
use gamely.Email.RoundTrip.{is_valid_job-attempts, fresh_id, from_body-to_body}
use gamely.Email.Parsing.{is_proper}
use gamely.Worker.{retry_delays, get_or, send, reroute, deliver, finish, on_failure, handle_job}
use gamely.Worker.Routing.{send-connection, reroute-dead, reroute-retry, reroute-float}
use gamely.Outside.{Outside, World, amqp}
use gamely.Settings.{Settings}

-- The job with more attempts, and the id that was drawn where it had none.
abbrev pub attempted : EmailJob → ℕ → Json → EmailJob
attempted job n i = record job { attempts = job.attempts + n; id = i }

-- What a message's handling adds to the history of the connection.
pub data Handled (body : Body) (r : Outcome EmailJob) (before after : List Action) : Type 0 where
  untouched : after ≡ before → Handled body r before after
  settled : (a : Action) → after ≡ a ∷ before → Handled body r before after
  died :
      after ≡ Action.ack ∷ Action.publish exchange_name body (codes "dead") ∷ before
      → Handled body r before after
  retried :
      (job : EmailJob) (again : Body) (i : Json) (delay : ℕ)
      → r ≡ returns job
      → job.attempts < 4
      → from_body again ≡ returns (attempted job 1 i)
      → after ≡ Action.ack ∷ Action.publish exchange_name again (retry_route delay) ∷ before
      → Handled body r before after

abbrev pub two : Body → ℕ → List Action → List Action
two again delay before =
    Action.ack ∷ Action.publish exchange_name again (retry_route delay) ∷ before

-- A job that is read from one message, with fewer than four attempts, and from the other with one more.
abbrev pub Next : Outcome EmailJob → Body → Type 0
Next r again =
    (job : EmailJob) × (i : Json) × (r ≡ returns job)
    × (job.attempts < 4)
    × (from_body again ≡ returns (attempted job 1 i))

published : List Action → Text
published (a ∷ Action.publish exchange body route ∷ rest) = route
published _ = []

published_body : List Action → Body
published_body (a ∷ Action.publish exchange body route ∷ rest) = body
published_body _ = Body.malformed

dead_ne : (delay : ℕ) → codes "dead" ≢ retry_route delay
dead_ne delay e = ground (arith, e)

module _ (body : Body) (r : Outcome EmailJob) (before after : List Action) (again : Body)
    (delay : ℕ) where
  pub Handled-Next : Handled body r before after → after ≡ two again delay before → Next r again
  unfolding published published_body
  Handled-Next (untouched e) h = absurd (omega (arith, ap length (sym e ∙ h)))
  Handled-Next (settled a e) h = absurd (omega (arith, ap length (sym e ∙ h)))
  Handled-Next (died e) h = absurd (dead_ne delay (ap published (sym e ∙ h)))
  Handled-Next (retried job again' i delay' reads few read_again e) h =
      (job, i, reads, few, sym (ap from_body (ap published_body (sym e ∙ h))) ∙ read_again)

module _ (o : Outside) (B : Documented o.broker) (settings : Settings) where
  abbrev history : World o → List Action
  history w = B.history w.connection

  abbrev After : Body → Outcome EmailJob → World o → Outcome (Unit {0}) × World o → Type 0
  After body r w p = Handled body r (history w) (history p.1)

  ack-After :
      (body : Body) (r : Outcome EmailJob) (w : World o) → After body r w (amqp o Action.ack w)
  ack-After body r w = rw B.run_lem (settled Action.ack (B.history-after Action.ack w.connection))

  reject-After :
      (body : Body) (r : Outcome EmailJob) (w : World o)
      → After body r w (amqp o (Action.reject false) w)
  reject-After body r w =
      rw B.run_lem
        (settled (Action.reject false) (B.history-after (Action.reject false) w.connection))

  few-After :
      (body : Body) (job : EmailJob) (w : World o) (part : Option ℕ)
      → job.attempts < 4
      → job.part ≡ part
      → is_valid_job job ≡ true
      → After body
          (returns job)
          w
          (try_except (reroute o settings body job) (λ _. amqp o (Action.reject false)) w)
  few-After body job w none few whole valid =
      let retry : EmailJob = record job { attempts = job.attempts + 1 } in
      let fresh = fresh_id o retry w in
      let (ok, done) = reroute-retry o B settings body job w few whole valid in
      rw (try_except-returns (reroute o settings body job) _ w tt ok) (
        retried job (to_body retry fresh) (id_or job.id fresh) (get_or retry_delays job.attempts 0)
          refl few
          (from_body-to_body retry fresh (is_valid_job-attempts job (job.attempts + 1) valid)) done)
  few-After body job w (some p) few float valid =
      let (failed, same) = reroute-float o B settings body job w p few float valid in
      rw (try_except-raises (reroute o settings body job) _ w type_error failed) (
        subst
          (λ l.
            Handled body (returns job) l
              (history (amqp o (Action.reject false) (reroute o settings body job w).1).1))
          same (reject-After body (returns job) (reroute o settings body job w).1))

  reroute-After :
      (body : Body) (job : EmailJob) (w : World o)
      → is_valid_job job ≡ true
      → After body
          (returns job)
          w
          (try_except (reroute o settings body job) (λ _. amqp o (Action.reject false)) w)
  reroute-After body job w valid = elim (dec_lt job.attempts 4) [
    | yes few ↦ few-After body job w job.part few refl valid
    | no many ↦
        let (ok, done) = reroute-dead o B settings body job w (omega arith) in
        rw (try_except-returns (reroute o settings body job) _ w tt ok) (died done)
  ]

  on_failure-After :
      (body : Body) (job : EmailJob) (e : Exception) (w : World o)
      → is_valid_job job ≡ true
      → After body (returns job) w (on_failure o settings body job e w)
  on_failure-After body job recipient_refused w valid = reject-After body (returns job) w
  on_failure-After body job _ w valid = reroute-After body job w valid

  finish-After :
      (body : Body) (job : EmailJob) (r : Outcome (Unit {0})) (w : World o)
      → is_valid_job job ≡ true
      → After body (returns job) w (finish o settings body job r w)
  finish-After body job (returns _) w valid = ack-After body (returns job) w
  finish-After body job (raises e) w valid = on_failure-After body job e w valid
  finish-After body job cancelled w valid = untouched refl

  deliver-After :
      (body : Body) (job : EmailJob) (w : World o)
      → is_valid_job job ≡ true
      → After body (returns job) w (deliver o settings body job w)
  deliver-After body job w valid =
      unfold deliver in
      subst
        (λ c. Handled body (returns job) (B.history c) (
          history
            (finish o settings body job (send o settings job w).0 (send o settings job w).1).1))
        (send-connection o B settings job w)
        (finish-After body job (send o settings job w).0 (send o settings job w).1 valid)

  pub handle_job-After :
      (odd : Bool) (body : Body) (r : Outcome EmailJob) (w : World o)
      → is_proper odd r ≡ true
      → After body r w (handle_job o settings body r w)
  handle_job-After odd body (returns job) w valid =
      unfold expired in
      elim (Bool-cases (is_past w.now job.expires_at)) [
        | inl past ↦ rw past (ack-After body (returns job) w)
        | inr due ↦ rw due (deliver-After body job w valid)
      ]
  handle_job-After odd body (raises value_error) w h = reject-After body (raises value_error) w
  handle_job-After odd body (raises key_error) w h = reject-After body (raises key_error) w
  handle_job-After odd body (raises type_error) w h = reject-After body (raises type_error) w
  handle_job-After odd body (raises _) w h = untouched refl
  handle_job-After odd body cancelled w h = untouched refl
