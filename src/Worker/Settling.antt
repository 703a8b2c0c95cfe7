-- ===== src/Worker/Settling.antt =====
-- How `handle_message` settles its message, backend/src/workers/email_worker.py.
use gamely.Base.{
  ◌∙◌, ap, ◌<◌, ℕ, Option, none, some, ℕ, suc, ◌≡◌, ◌≢◌, refl, true, false, List, [], ◌∷◌,
  Bool-cases, inl, inr, arith,
}
use native.Mathlib.Decide.{dec_lt}
use mathlib.Core.Path.{subst}
use gamely.Errors.{
  Exception, Outcome, returns, raises, cancelled, recipient_refused, value_error, key_error,
  type_error, try_except, try_except-returns, try_except-raises,
}
use gamely.Broker.{Body, Action}
use gamely.Broker.Documented.{Documented}
use gamely.Email.{EmailJob, is_valid_job, from_body, is_past, expired}
use gamely.Email.Parsing.{has_odd_code, is_proper, from_body-is_proper}
use gamely.Worker.{send, reroute, deliver, finish, on_failure, handle_job, handle_message}
use gamely.Outside.{Outside, World, amqp}
use gamely.Settings.{Settings}
use gamely.Worker.Routing.{send-connection, reroute-dead, reroute-retry, reroute-float}

-- Acknowledged or rejected.
abbrev pub settlements : List Action → ℕ
settlements [] = 0
settlements (Action.ack ∷ rest) = suc (settlements rest)
settlements (Action.reject _ ∷ rest) = suc (settlements rest)
settlements (_ ∷ rest) = settlements rest

module _ (o : Outside) (B : Documented o.broker) (settings : Settings) where
  abbrev history : World o → List Action
  history w = B.history w.connection

  -- One settlement more than before.
  abbrev Settles : World o → Outcome (Unit {0}) × World o → Type 0
  Settles w r = settlements (history r.1) ≡ suc (settlements (history w))

  ack-Settles : (w : World o) → Settles w (amqp o Action.ack w)
  ack-Settles w = rw (B.run_lem, B.history-after)

  reject-Settles : (w : World o) → Settles w (amqp o (Action.reject false) w)
  reject-Settles w = rw (B.run_lem, B.history-after)

  few-Settles :
      (body : Body) (job : EmailJob) (w : World o) (part : Option ℕ)
      → job.attempts < 4
      → job.part ≡ part
      → is_valid_job job ≡ true
      → Settles w (try_except (reroute o settings body job) (λ _. amqp o (Action.reject false)) w)
  few-Settles body job w none few whole valid =
      let (ok, done) = reroute-retry o B settings body job w few whole valid in
      rw (try_except-returns (reroute o settings body job) _ w tt ok) (rw done)
  few-Settles body job w (some p) few float valid =
      let (failed, same) = reroute-float o B settings body job w p few float valid in
      rw (try_except-raises (reroute o settings body job) _ w type_error failed)
        (reject-Settles (reroute o settings body job w).1 ∙ ap (λ l. suc (settlements l)) same)

  reroute-Settles :
      (body : Body) (job : EmailJob) (w : World o)
      → is_valid_job job ≡ true
      → Settles w (try_except (reroute o settings body job) (λ _. amqp o (Action.reject false)) w)
  reroute-Settles body job w valid = elim (dec_lt job.attempts 4) [
    | yes few ↦ few-Settles body job w job.part few refl valid
    | no many ↦
        let (ok, done) = reroute-dead o B settings body job w (omega arith) in
        rw (try_except-returns (reroute o settings body job) _ w tt ok) (rw done)
  ]

  on_failure-Settles :
      (body : Body) (job : EmailJob) (e : Exception) (w : World o)
      → is_valid_job job ≡ true
      → Settles w (on_failure o settings body job e w)
  on_failure-Settles body job recipient_refused w valid = reject-Settles w
  on_failure-Settles body job _ w valid = reroute-Settles body job w valid

  finish-Settles :
      (body : Body) (job : EmailJob) (r : Outcome (Unit {0})) (w : World o)
      → is_valid_job job ≡ true
      → r ≢ cancelled
      → Settles w (finish o settings body job r w)
  finish-Settles body job (returns _) w valid h = ack-Settles w
  finish-Settles body job (raises e) w valid h = on_failure-Settles body job e w valid
  finish-Settles body job cancelled w valid h = absurd (h refl)

  deliver-Settles :
      (body : Body) (job : EmailJob) (w : World o)
      → is_valid_job job ≡ true
      → (send o settings job w).0 ≢ cancelled
      → Settles w (deliver o settings body job w)
  deliver-Settles body job w valid h =
      unfold deliver in
      subst
        (λ c.
          settlements (
            history
              (finish o settings body job (send o settings job w).0 (send o settings job w).1).1)
          ≡ suc (settlements (B.history c)))
        (send-connection o B settings job w)
        (finish-Settles body job (send o settings job w).0 (send o settings job w).1 valid h)

  handle_job-Settles :
      (body : Body) (r : Outcome EmailJob) (w : World o)
      → is_proper false r ≡ true
      → ((job : EmailJob) → r ≡ returns job → (send o settings job w).0 ≢ cancelled)
      → Settles w (handle_job o settings body r w)
  handle_job-Settles body (returns job) w valid h =
      unfold expired in
      elim (Bool-cases (is_past w.now job.expires_at)) [
        | inl past ↦ rw past (ack-Settles w)
        | inr due ↦ rw due (deliver-Settles body job w valid (h job refl))
      ]
  handle_job-Settles body (raises value_error) w valid h = reject-Settles w
  handle_job-Settles body (raises key_error) w valid h = reject-Settles w
  handle_job-Settles body (raises type_error) w valid h = reject-Settles w
  handle_job-Settles body (raises _) w valid h = cc
  handle_job-Settles body cancelled w valid h = cc

  -- On a documented broker, whatever a message holds but a code that is an array or an object with six
  -- items, and however the delivery ends, unless the worker is cancelled in the delivery, the message is
  -- acknowledged or rejected exactly once.
  pub handle_message-settles_once :
      (body : Body) (w : World o)
      → has_odd_code body ≡ false
      → ((job : EmailJob) → from_body body ≡ returns job → (send o settings job w).0 ≢ cancelled)
      → settlements (B.history (handle_message o settings body w).1.connection)
        ≡ suc (settlements (B.history w.connection))
  handle_message-settles_once body w usual h =
      unfold handle_message in
      handle_job-Settles body (from_body body) w
        (subst (λ odd. is_proper odd (from_body body) ≡ true) usual (from_body-is_proper body)) h
