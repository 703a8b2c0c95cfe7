-- ===== src/Examples/Mail.antt =====
-- Email jobs and the worker.
use gamely.Base.{none, false, ◌≡◌, refl, some, [], ◌∷◌, codes, suc, ◌+◌, ◌≤◌, arith}
use gamely.Errors.{returns, raises, runtime_error}
use gamely.Broker.{Body, Action}
use gamely.Broker.Documented.{local_broker-Documented}
use gamely.Settings.{default_settings}
use gamely.Broker.{Json}
use gamely.Email.{
  attribute_error, EmailJob, is_valid_job, to_body, from_body, expired, to_bytes, make_job,
  exchange_name, retry_route,
}
use gamely.Email.RoundTrip.{from_body-to_body}
use gamely.Worker.{deliver, reroute, send, handle_message, get_or, retry_delays}
use gamely.Worker.Routing.{handle_message-retried}
use gamely.Worker.Settling.{settlements, handle_message-settles_once}
use gamely.Worker.Retries.{Retries, Retried, first, retry, retries-bounded}
use gamely.Examples.{local, empty_world, ann, mail_settings}

abbrev job : EmailJob
job = record {
  recipient = Json.text ann;
  template = codes "verify";
  code = codes "424242";
  expires_at = some 5000;
  attempts = 1;
  part = none;
  id = Json.text (codes "1");
}

abbrev last_job : EmailJob
last_job = record job { attempts = 4 }

from_body-to_body_example : from_body (to_body job []) ≡ returns job
unfolding is_valid_job
from_body-to_body_example = from_body-to_body job [] refl

-- A body whose code is an array with six items.
abbrev odd_body : Body
odd_body = Body.fields (
    ("recipient", Json.text ann)
    ∷ ("template", Json.text (codes "verify"))
    ∷ ("code", Json.array 6 false)
    ∷ ("expires_at", Json.timestamp (some 5000))
    ∷ [])

from_body-odd : from_body odd_body ≡ raises attribute_error
unfolding from_body
from_body-odd = refl

-- The worker does not settle it.
handle_message-odd :
    handle_message local mail_settings odd_body empty_world ≡ (raises attribute_error, empty_world)
unfolding handle_message from_body
handle_message-odd = refl

handle_message-settles_once_example :
    settlements (handle_message local mail_settings (to_body job []) empty_world).1.connection
    ≡ suc (settlements empty_world.connection)
unfolding send to_body
handle_message-settles_once_example =
    handle_message-settles_once local local_broker-Documented mail_settings (to_body job [])
      empty_world refl (λ j e c. ground (arith, c))

-- No mail server is configured, so that every delivery fails.
handle_message-retried_example :
    (again : Body) × (i : Json) × ((handle_message local default_settings
        (to_body job [])
        empty_world).1.connection
      ≡ Action.ack
        ∷ Action.publish exchange_name again (retry_route (get_or retry_delays 1 0))
        ∷ [])
    × (from_body again ≡ returns (record job { attempts = 1 + 1; id = i }))
unfolding is_valid_job from_body to_body make_job send
handle_message-retried_example =
    handle_message-retried local local_broker-Documented default_settings (to_body job []) job
      runtime_error empty_world (record { reads = refl; due = refl; failed = refl; kind = refl })
      (omega arith) refl

-- The job is retried after its second attempt, and after its third.
abbrev second_job : EmailJob
second_job = record job { attempts = 2 }

abbrev third_job : EmailJob
third_job = record job { attempts = 3 }

once-Retried :
    Retried local local_broker-Documented default_settings (to_body job []) (to_body second_job [])
unfolding handle_message deliver send reroute from_body to_body to_bytes make_job expired
once-Retried = record { world = empty_world; delay = 60; done = refl }

twice-Retried :
    Retried local local_broker-Documented default_settings
      (to_body second_job [])
      (to_body third_job [])
unfolding handle_message deliver send reroute from_body to_body to_bytes make_job expired
twice-Retried = record { world = empty_world; delay = 120; done = refl }

two_retries :
    Retries local local_broker-Documented default_settings (to_body job []) (to_body third_job []) 2
two_retries = retry (to_body job []) (to_body second_job []) (to_body third_job []) 1 once-Retried (
    retry (to_body second_job []) (to_body third_job []) (to_body third_job []) 0 twice-Retried
      (first (to_body third_job [])))

retries-bounded_example :
    (2 ≤ 4)
    × ((j : EmailJob)
        → from_body (to_body job []) ≡ returns j
        → (i : Json) × (from_body (to_body third_job [])
            ≡ returns (record j { attempts = j.attempts + 2; id = i })))
retries-bounded_example =
    retries-bounded local local_broker-Documented default_settings (to_body job [])
      (to_body third_job []) 2 two_retries
