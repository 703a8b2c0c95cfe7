-- ===== src/Worker.antt =====
-- backend/src/workers/email_worker.py. `main`, which connects and waits, is not modelled.
pub mod Routing
pub mod Settling
pub mod Handled
pub mod Retries
use gamely.Base.{
  ℕ, zero, suc, ◌+◌, Bool, true, false, ◌||◌, Option, none, some, List, [], ◌∷◌, ◌++◌, Text, codes,
  length, ltb, leb, ◌==◌, text_eq, if◌then◌else◌,
}
use gamely.Errors.{
  Exec, Exception, Outcome, returns, raises, cancelled, runtime_error, recipient_refused,
  value_error, key_error, type_error, pure, raise, lift, try_except, ◌>>=◌, ◌>>◌,
}
use gamely.Broker.{Json, Body, Action, MailMessage}
use gamely.Email.{
  attribute_error, EmailJob, exchange_name, make_job, to_bytes, from_body, expired, retry_route,
}
use gamely.Outside.{Outside, World, amqp, smtp}
use gamely.Settings.{Settings}

abbrev pub retry_delays : List ℕ
retry_delays = 30 ∷ 60 ∷ 120 ∷ 240 ∷ []

abbrev pub get_or : List ℕ → ℕ → ℕ → ℕ
get_or [] i d = d
get_or (x ∷ xs) zero d = x
get_or (x ∷ xs) (suc i) d = get_or xs i d

module _ (o : Outside) (settings : Settings) where
  abbrev expiry_text : Option ℕ → Text
  expiry_text none = []
  expiry_text (some t) = o.isoformat t

  unfoldable pub message_for : EmailJob → Text → MailMessage
  message_for job recipient = record {
    sender = settings.smtp_from;
    recipient = recipient;
    subject =
        if text_eq job.template (codes "verify")
        then "Verify your Games account"
        else "Reset your Games password";
    content =
        codes "Your Games "
        ++ (job.template
            ++ (codes " code is: "
                ++ (job.code
                    ++ (codes "\nThis code expires at "
                        ++ (expiry_text job.expires_at ++ codes ".")))));
  }

  -- A header refuses a value that is no text.
  abbrev send_to : EmailJob → Json → Exec (World o) (Unit {0})
  send_to job (Json.text t) = smtp o (message_for job t)
  send_to job _ = raise attribute_error

  unfoldable pub send : EmailJob → Exec (World o) (Unit {0})
  unfolding message_for
  send job =
      if length settings.smtp_host == 0 || length settings.smtp_from == 0
      then raise runtime_error
      else send_to job job.recipient

  -- A float is no index of `RETRY_DELAYS`.
  abbrev pub retry_key : EmailJob → Option ℕ → Exec (World o) Text
  retry_key job none = pure (retry_route (get_or retry_delays job.attempts 0))
  retry_key job (some _) = raise type_error

  -- What the `except Exception` of the delivery does: one more attempt later, or the dead queue.
  unfoldable pub reroute : Body → EmailJob → Exec (World o) (Unit {0})
  reroute body job = do
    if leb (length retry_delays) job.attempts
        then amqp o (Action.publish exchange_name body (codes "dead"))
        else (do
          retry ← lift (make_job (record job { attempts = job.attempts + 1 }))
          again ← to_bytes o retry
          route ← retry_key job job.part
          amqp o (Action.publish exchange_name again route))
    amqp o Action.ack

  abbrev pub on_failure : Body → EmailJob → Exception → Exec (World o) (Unit {0})
  on_failure body job recipient_refused = amqp o (Action.reject false)
  on_failure body job _ = try_except (reroute body job) (λ _. amqp o (Action.reject false))

  -- The mail, by how its delivery ended: only the last `ack` stands after the `try`.
  abbrev pub finish : Body → EmailJob → Outcome (Unit {0}) → Exec (World o) (Unit {0})
  finish body job (returns _) = amqp o Action.ack
  finish body job (raises e) = on_failure body job e
  finish body job cancelled = lift cancelled

  unfoldable pub deliver : Body → EmailJob → Exec (World o) (Unit {0})
  unfolding send reroute
  deliver body job w = let (r, w') = send job w in finish body job r w'

  abbrev pub handle_job : Body → Outcome EmailJob → Exec (World o) (Unit {0})
  handle_job body (returns job) = do
    past ← expired o job
    if past then amqp o Action.ack else deliver body job
  handle_job body (raises value_error) = amqp o (Action.reject false)
  handle_job body (raises key_error) = amqp o (Action.reject false)
  handle_job body (raises type_error) = amqp o (Action.reject false)
  handle_job body (raises e) = raise e
  handle_job body cancelled = lift cancelled

  unfoldable pub handle_message : Body → Exec (World o) (Unit {0})
  unfolding deliver
  handle_message body = handle_job body (from_body body)
