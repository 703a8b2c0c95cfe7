-- ===== src/Worker/Routing.antt =====
-- What `handle_message` publishes where a delivery fails, backend/src/workers/email_worker.py.
use gamely.Base.{
  ℕ, Option, none, some, ◌+◌, ◌<◌, ◌≤◌, ◌≡◌, refl, ◌∙◌, ap, Bool, true, false, List, ◌∷◌, codes,
  lt→leb, le→leb, arith,
}
use gamely.Errors.{
  type_error, Exception, returns, raises, recipient_refused, try_except, try_except-returns,
}
use gamely.Broker.{Json, Body, Action}
use gamely.Broker.Documented.{Documented}
use gamely.Email.{EmailJob, exchange_name, is_valid_job, from_body, is_past, retry_route, expired}
use gamely.Email.{to_body}
use gamely.Email.RoundTrip.{
  make_job-valid, is_valid_job-attempts, fresh_id, to_bytes-eq, from_body-to_body,
}
use gamely.Email.{id_or}
use gamely.Email.Parsing.{from_body-is_proper}
use gamely.Worker.{
  retry_key, retry_delays, get_or, send, reroute, deliver, on_failure, handle_message,
}
use gamely.Outside.{Outside, World, amqp}
use gamely.Settings.{Settings}

-- Any failure of the delivery but a refused recipient.
abbrev pub is_refused : Exception → Bool
is_refused recipient_refused = true
is_refused _ = false

module _ (o : Outside) (B : Documented o.broker) (settings : Settings) where
  abbrev history : World o → List Action
  history w = B.history w.connection

  pub send-connection :
      (job : EmailJob) (w : World o) → (send o settings job w).1.connection ≡ w.connection
  unfolding send
  send-connection job w = ground arith

  pub reroute-dead :
      (body : Body) (job : EmailJob) (w : World o)
      → 4 ≤ job.attempts
      → let (r, w') = reroute o settings body job w in
        (r ≡ returns tt)
        × (history w' ≡ Action.ack ∷ Action.publish exchange_name body (codes "dead") ∷ history w)
  unfolding reroute
  reroute-dead body job w h =
      rw (le→leb 4 job.attempts h)
        (rw (B.run_lem, B.run_lem) (refl, rw (B.history-after, B.history-after)))

  retry_key-whole :
      (job : EmailJob) (part : Option ℕ)
      → part ≡ none
      → (w : World o)
      → retry_key o settings job part w
        ≡ (returns (retry_route (get_or retry_delays job.attempts 0)), w)
  retry_key-whole job none e w = refl
  retry_key-whole job (some p) e w = ground (arith, e)

  retry_key-float :
      (job : EmailJob) (part : Option ℕ) (p : ℕ)
      → part ≡ some p
      → (w : World o) → retry_key o settings job part w ≡ (raises type_error, w)
  retry_key-float job none p e w = ground (arith, e)
  retry_key-float job (some q) p e w = refl

  pub reroute-retry :
      (body : Body) (job : EmailJob) (w : World o)
      → job.attempts < 4
      → job.part ≡ none
      → is_valid_job job ≡ true
      → let (r, w') = reroute o settings body job w in
        let retry = record job { attempts = job.attempts + 1 } in
        let again = to_body retry (fresh_id o retry w) in
        (r ≡ returns tt)
        × (history w'
            ≡ Action.ack
              ∷ Action.publish exchange_name again
                  (retry_route (get_or retry_delays job.attempts 0))
              ∷ history w)
  unfolding reroute
  reroute-retry body job w h whole valid =
      let retry : EmailJob = record job { attempts = job.attempts + 1 } in
      let made = make_job-valid retry (is_valid_job-attempts job (job.attempts + 1) valid) in
      let (written, same) = to_bytes-eq o retry w in
      rw (lt→leb 4 job.attempts h) (
        rw (made, written, retry_key-whole job job.part whole)
          (rw (B.run_lem, B.run_lem) (refl, rw (B.history-after, B.history-after, same))))

  pub reroute-float :
      (body : Body) (job : EmailJob) (w : World o) (p : ℕ)
      → job.attempts < 4
      → job.part ≡ some p
      → is_valid_job job ≡ true
      → let (r, w') = reroute o settings body job w in
        (r ≡ raises type_error) × (history w' ≡ history w)
  unfolding reroute
  reroute-float body job w p h float valid =
      let retry : EmailJob = record job { attempts = job.attempts + 1 } in
      let made = make_job-valid retry (is_valid_job-attempts job (job.attempts + 1) valid) in
      let (written, same) = to_bytes-eq o retry w in
      rw (lt→leb 4 job.attempts h)
        (rw (made, written, retry_key-float job job.part p float) (refl, ap B.history same))

  on_failure-other :
      (body : Body) (job : EmailJob) (e : Exception)
      → is_refused e ≡ false
      → on_failure o settings body job e
        ≡ try_except (reroute o settings body job) (λ _. amqp o (Action.reject false))
  on_failure-other body job recipient_refused h = cc
  on_failure-other body job _ h = refl

  -- A message whose job is due, and whose delivery fails.
  pub record Fails (body : Body) (job : EmailJob) (e : Exception) (w : World o) : Type 0 where
    pub reads : from_body body ≡ returns job
    pub due : is_past w.now job.expires_at ≡ false
    pub failed : (send o settings job w).0 ≡ raises e
    pub kind : is_refused e ≡ false

  handle_message-failed :
      (body : Body) (job : EmailJob) (e : Exception) (w : World o)
      → Fails body job e w
      → (reroute o settings body job (send o settings job w).1).0 ≡ returns tt
      → handle_message o settings body w
        ≡ (returns tt, (reroute o settings body job (send o settings job w).1).1)
  unfolding handle_message expired deliver
  handle_message-failed body job e w f ok = rw f.reads (
      rw f.due (
        rw f.failed (
          rw (on_failure-other body job e f.kind) (
            try_except-returns (reroute o settings body job) (λ _. amqp o (Action.reject false))
              (send o settings job w).1 tt ok))))

  valid_of : (body : Body) (job : EmailJob) → from_body body ≡ returns job → is_valid_job job ≡ true
  valid_of body job h = rw h at (from_body-is_proper body)

  -- On a documented broker, where the delivery of a job that is not expired fails, not because the
  -- recipient is refused, and the job's attempts are an integer below four, the worker publishes one
  -- message for the retry queue of that attempt, from which the same job with one more attempt is
  -- read back, and then acknowledges the old message. It does nothing else on the connection.
  pub handle_message-retried :
      (body : Body) (job : EmailJob) (e : Exception) (w : World o)
      → Fails body job e w
      → job.attempts < 4
      → job.part ≡ none
      → (again : Body) × (i : Json) × (B.history (handle_message o settings body w).1.connection
          ≡ Action.ack
            ∷ Action.publish exchange_name again (retry_route (get_or retry_delays job.attempts 0))
            ∷ B.history w.connection)
        × (from_body again ≡ returns (record job { attempts = job.attempts + 1; id = i }))
  handle_message-retried body job e w f few whole =
      let retry : EmailJob = record job { attempts = job.attempts + 1 } in
      let w1 = (send o settings job w).1 in
      let valid = valid_of body job f.reads in
      let fresh = fresh_id o retry w1 in
      let (ok, done) = reroute-retry body job w1 few whole valid in
      (
        to_body retry fresh,
        id_or job.id fresh,
        rw (handle_message-failed body job e w f ok) (
            done
            ∙ ap
                (λ c.
                  Action.ack
                  ∷ Action.publish exchange_name (to_body retry fresh)
                      (retry_route (get_or retry_delays job.attempts 0))
                  ∷ B.history c)
                (send-connection job w)),
        from_body-to_body retry fresh (is_valid_job-attempts job (job.attempts + 1) valid),
      )

  -- On a documented broker, where the delivery of a job that is not expired fails, not because the
  -- recipient is refused, and the job has had four attempts or more, the worker publishes the body
  -- that it received for the dead queue and then acknowledges the message, and does nothing else on
  -- the connection.
  pub handle_message-dead :
      (body : Body) (job : EmailJob) (e : Exception) (w : World o)
      → Fails body job e w
      → 4 ≤ job.attempts
      → B.history (handle_message o settings body w).1.connection
        ≡ Action.ack ∷ Action.publish exchange_name body (codes "dead") ∷ B.history w.connection
  handle_message-dead body job e w f many =
      let (ok, done) = reroute-dead body job (send o settings job w).1 many in
      rw (handle_message-failed body job e w f ok) (
        done
        ∙ ap (λ c. Action.ack ∷ Action.publish exchange_name body (codes "dead") ∷ B.history c)
            (send-connection job w))
