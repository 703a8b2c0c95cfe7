-- ===== src/Worker/Retries.antt =====
-- How often a message is retried, backend/src/workers/email_worker.py.
use mathlib.Core.Path.{subst}
use gamely.Base.{ℕ, suc, ◌+◌, ◌<◌, ◌≤◌, ◌≡◌, refl, sym, ◌∙◌, ◌∷◌, inl, inr, ◌⊎◌, arith}
use gamely.Errors.{Outcome, returns}
use gamely.Broker.{Json, Body, Action}
use gamely.Broker.Documented.{Documented}
use gamely.Email.{EmailJob, exchange_name, from_body, retry_route}
use gamely.Email.Parsing.{has_odd_code, from_body-is_proper}
use gamely.Worker.{handle_message}
use gamely.Outside.{Outside, World}
use gamely.Settings.{Settings}
use gamely.Worker.Handled.{attempted, Next, Handled-Next, handle_job-After}

module _ (o : Outside) (B : Documented o.broker) (settings : Settings) where
  -- The message `again` is what the handling of `body` publishes for a retry queue.
  pub record Retried (body again : Body) : Type 0 where
    pub world : World o
    pub delay : ℕ
    pub done :
        B.history (handle_message o settings body world).1.connection
        ≡ Action.ack
          ∷ Action.publish exchange_name again (retry_route delay)
          ∷ B.history world.connection

  -- A message that comes from another by a number of retries, each in any world.
  pub data Retries : Body → Body → ℕ → Type 0 where
    first : (body : Body) → Retries body body 0
    retry :
        (body again last : Body) (n : ℕ)
        → Retried body again
        → Retries again last n
        → Retries body last (suc n)

  Retried-Next : (body again : Body) → Retried body again → Next (from_body body) again
  Retried-Next body again t =
      Handled-Next body (from_body body) (B.history t.world.connection) _ again t.delay
        (handle_job-After o B settings (has_odd_code body) body (from_body body) t.world
          (from_body-is_proper body))
        (unfold handle_message in t.done)

  same_read : (r : Outcome EmailJob) (a b : EmailJob) → r ≡ returns a → r ≡ returns b → a ≡ b
  same_read r a b e e' = ground (arith, sym e ∙ e')

  one_more : (m k : ℕ) → k < 4 → (m ≡ 0) ⊎ (m + (k + 1) ≤ 4) → suc m + k ≤ 4
  one_more m k few (inl e) = omega (arith, few, e)
  one_more m k few (inr h) = omega (arith, h)

  later :
      (last : Body) (job : EmailJob) (i : Json) (m : ℕ) (j : Json)
      → from_body last ≡ returns (attempted (attempted job 1 i) m j)
      → from_body last ≡ returns (attempted job (suc m) j)
  later last job i m j e =
      let sum : job.attempts + 1 + m ≡ job.attempts + suc m = omega arith in
      subst (λ k. from_body last ≡ returns (record job { attempts = k; id = j })) sum e

  counted :
      (body last : Body) (n : ℕ) (job : EmailJob)
      → Retries body last n
      → from_body body ≡ returns job
      → ((n ≡ 0) ⊎ (n + job.attempts ≤ 4))
        × ((i : Json) × (from_body last ≡ returns (attempted job n i)))
  counted _ _ _ job (first body) reads = (
    inl refl,
    (
      job.id,
      subst (λ k. from_body body ≡ returns (record job { attempts = k })) (omega arith) reads,
    ),
  )
  counted _ _ _ job (retry body again last m t rest) reads =
      let (job', i, reads', few, again_reads) = Retried-Next body again t in
      let same = same_read (from_body body) job' job reads' reads in
      let (bound, (j, last_reads)) = counted again last m (attempted job' 1 i) rest again_reads in
      subst
        (λ a.
          ((suc m ≡ 0) ⊎ (suc m + a.attempts ≤ 4))
          × ((k : Json) × (from_body last ≡ returns (attempted a (suc m) k))))
        same (inr (one_more m job'.attempts few bound), (j, later last job' i m j last_reads))

  at_most_of : (n k : ℕ) → (n ≡ 0) ⊎ (n + k ≤ 4) → n ≤ 4
  at_most_of n k (inl e) = omega (arith, e)
  at_most_of n k (inr h) = omega (arith, h)

  at_most : (body last : Body) (n : ℕ) → Retries body last n → n ≤ 4
  at_most _ _ _ (first body) = omega arith
  at_most _ _ _ (retry body again last m t rest) =
      let (job, i, reads, few, again_reads) = Retried-Next body again t in
      at_most_of (suc m) job.attempts
        (counted body last (suc m) job (retry body again last m t rest) reads).0

  -- On a documented broker, whatever a message holds and however the deliveries end, a message that comes
  -- from it by retries, each published by the handling of the one before, comes by four retries at most;
  -- and where a job is read from the first message, the same job is read from the last one, with as many
  -- attempts more as there were retries, but for the id.
  pub retries-bounded :
      (body last : Body) (n : ℕ)
      → Retries body last n
      → (n ≤ 4)
        × ((job : EmailJob)
            → from_body body ≡ returns job
            → (i : Json) × (from_body last
                ≡ returns (record job { attempts = job.attempts + n; id = i })))
  retries-bounded body last n steps =
      (at_most body last n steps, λ job reads. (counted body last n job steps reads).1)
