-- ===== src/Auth/Codes/Sending.antt =====
-- `_send_code`, backend/src/features/auth/auth_service.py.
use gamely.Base.{
  ℕ, suc, ◌+◌, ◌*◌, ◌≡◌, refl, ◌∙◌, ap, true, false, Option, none, some, [], codes, Text, text_eq,
  text_eq_refl, text_eq_sound, has_char, if◌then◌else◌, arith, Bool-cases, inl, inr, ◌||◌,
}
use gamely.Errors.{
  Exec, Exception, Outcome, returns, raises, try_except, application, make_error, bad_request,
  try_except-raises, try_except-returns,
}
use gamely.Redis.{Reply, Command, SetMode, single}
use gamely.Redis.Documented.{Documented, Keyspace, Entry, str, put, drop, on_set}
use gamely.Broker.{Json}
use gamely.Email.RoundTrip.{make_job-valid}
use gamely.Email.{EmailJob, publish, is_valid_job, declare_topology, to_bytes}
use gamely.Auth.Codes.{
  cooldown_key, code_key, payload, six_digits, send_code, send_new_code, store_and_publish,
  forget_code, consume_code,
}
use gamely.Auth.Codes.Digits.{Sendable, Sendable-is_valid_job}
use gamely.Auth.Codes.Guessing.{code_entry, consume_code-right}
use gamely.Settings.{Settings}
use gamely.Outside.{Outside, World}

-- A call that publishes does not reach Redis.
publish-server :
    (o : Outside) (job : EmailJob) (w : World o) → (publish o job w).1.server ≡ w.server
unfolding publish declare_topology to_bytes
publish-server o job w = ground arith

is_template :
    (job : EmailJob)
    → is_valid_job job ≡ true
    → (text_eq job.template (codes "verify") || text_eq job.template (codes "reset")) ≡ true
unfolding is_valid_job
is_template job h = ground arith

keys_differ_for :
    (email purpose : Text)
    → (text_eq purpose (codes "verify") || text_eq purpose (codes "reset")) ≡ true
    → text_eq (code_key purpose email) (cooldown_key purpose email) ≡ false
unfolding code_key cooldown_key
keys_differ_for email purpose h = elim (Bool-cases (text_eq purpose (codes "verify"))) [
  | inl verify ↦ rw (text_eq_sound purpose (codes "verify") verify) refl
  | inr other ↦ rw (text_eq_sound purpose (codes "reset") (rw other at h)) refl
]

-- A job's purpose is one of two, so that its code does not stand under the name of a cooldown.
keys_differ :
    (email purpose : Text) (job : EmailJob)
    → job.template ≡ purpose
    → is_valid_job job ≡ true
    → text_eq (code_key purpose email) (cooldown_key purpose email) ≡ false
keys_differ email purpose job e h = keys_differ_for email purpose (rw e at (is_template job h))

abbrev pub cooling : Exception
cooling = application (make_error bad_request (some "Please wait before requesting another code."))

module _ (o : Outside) (D : Documented o.redis) (settings : Settings) (email purpose : Text) where
  abbrev pub cooldown : Text
  cooldown = cooldown_key purpose email

  abbrev pub key : Text
  key = code_key purpose email

  abbrev pub take_cooldown : Command
  take_cooldown = Command.set cooldown (codes "1") (some 60) SetMode.nx

  abbrev taken : Keyspace → Option Entry → Reply × Keyspace
  taken ks e = on_set cooldown (codes "1") (some 60) SetMode.nx e ks

  -- On a documented Redis, while the cooldown of an address and purpose runs, `_send_code` refuses
  -- with its message, changes no key, and publishes nothing: the connection is as it was.
  pub send_code-cooling :
      (running : Entry) (w : World o)
      → D.view w.server cooldown ≡ some running
      → let (r, w') = send_code o settings email purpose w in
        (r ≡ raises cooling) × (D.view w'.server ≡ D.view w.server) × (w'.connection ≡ w.connection)
  unfolding send_code
  send_code-cooling running w h =
      let done = ap (taken (D.view w.server)) h in
      rw (D.run_lem, done)
        (
          refl,
          D.view-after (single take_cooldown) w.server ∙ ap (λ (p : Reply × Keyspace). p.1) done,
          refl,
        )

  -- The code of this draw, and the job that carries it.
  abbrev pub new_code : World o → Text
  new_code w = six_digits (o.randbelow 1000000 w.draws)

  abbrev pub minutes : ℕ
  minutes = settings.auth_code_minutes * 60

  abbrev pub new_job : World o → EmailJob
  new_job w = record {
    recipient = Json.text email;
    template = purpose;
    code = new_code w;
    expires_at = some (w.now + minutes);
    attempts = 0;
    part = none;
    id = Json.text [];
  }

  -- The world when the body of the `try` begins.
  abbrev pub begun : World o → World o
  begun w = record w { server = D.after (single take_cooldown) w.server; draws = suc w.draws }

  abbrev pub new_entry : World o → Entry
  new_entry w = code_entry (o.sha256_hex (new_code w)) 0 (some minutes)

  abbrev body : World o → Exec (World o) (Unit {0})
  body w = store_and_publish o settings email purpose (new_code w) (w.now + minutes)

  abbrev pub stored : World o → World o
  stored w = record (begun w) {
    server =
        D.after
          (single
            (Command.set key (payload (o.sha256_hex (new_code w)) 0) (some minutes) SetMode.always))
          (begun w).server;
  }

  module _ (w : World o) where
    send_code-free :
        D.view w.server cooldown ≡ none
        → send_code o settings email purpose w
          ≡ try_except (body w) (forget_code o settings email purpose) (begun w)
    unfolding send_code send_new_code
    send_code-free h = let done = ap (taken (D.view w.server)) h in rw (D.run_lem, done) refl

    begun-view :
        D.view w.server cooldown ≡ none
        → D.view (begun w).server
          ≡ put cooldown (record { value = str (codes "1"); left = some 60 }) (D.view w.server)
    begun-view h =
        D.view-after (single take_cooldown) w.server
        ∙ ap (λ (p : Reply × Keyspace). p.1) (ap (taken (D.view w.server)) h)

    stored-view : D.view (stored w).server ≡ put key (new_entry w) (D.view (begun w).server)
    stored-view = D.view-after _ (begun w).server

    new_job-valid :
        Sendable email purpose (o.randbelow 1_000_000 w.draws) → is_valid_job (new_job w) ≡ true
    new_job-valid =
        Sendable-is_valid_job email purpose (o.randbelow 1_000_000 w.draws) (w.now + minutes)

    body-valid :
        is_valid_job (new_job w) ≡ true → body w (begun w) ≡ publish o (new_job w) (stored w)
    unfolding store_and_publish
    body-valid h = rw D.run_lem (rw (make_job-valid (new_job w) h) refl)

    forget_code-eq :
        (x : Exception) (v : World o)
        → let (r, v') = forget_code o settings email purpose x v in
          (r ≡ raises x) × (D.view v'.server ≡ drop key (drop cooldown (D.view v.server)))
    unfolding forget_code
    forget_code-eq x v = rw D.run_lem (refl, D.view-after _ v.server)

    undone :
        (e e' : Entry) (ks : Keyspace) (k : Text)
        → drop key (drop cooldown (put key e (put cooldown e' ks))) k
          ≡ (if text_eq cooldown k || text_eq key k then none else ks k)
    undone e e' ks k = ground arith

    published-view :
        D.view w.server cooldown ≡ none
        → D.view (publish o (new_job w) (stored w)).1.server
          ≡ put key
              (new_entry w)
              (put cooldown (record { value = str (codes "1"); left = some 60 }) (D.view w.server))
    published-view free =
        ap D.view (publish-server o (new_job w) (stored w))
        ∙ stored-view
        ∙ ap (put key (new_entry w)) (begun-view free)

    -- On a documented Redis, where no cooldown runs, the address holds an `@` and is at most 320
    -- long, the purpose is one of the two, the draw is below a million, and publishing the job
    -- raises an exception, `_send_code` raises that exception. The code and the cooldown are then
    -- both gone, so that the next request is not refused, and every other key holds what it held.
    pub send_code-unsent :
        (x : Exception) (k : Text)
        → D.view w.server cooldown ≡ none
        → Sendable email purpose (o.randbelow 1_000_000 w.draws)
        → (publish o (new_job w) (stored w)).0 ≡ raises x
        → let (r, w') = send_code o settings email purpose w in
          (r ≡ raises x)
          × (D.view w'.server k
              ≡ (if text_eq cooldown k || text_eq key k then none else D.view w.server k))
    send_code-unsent x k free sendable fails =
        let valid = new_job-valid sendable in
        let sent = body-valid valid in
        let v = (publish o (new_job w) (stored w)).1 in
        let whole =
          send_code-free free
          ∙ try_except-raises (body w) (forget_code o settings email purpose) (begun w) x
              (ap (λ (p : Outcome (Unit {0}) × World o). p.0) sent ∙ fails)
          ∙ ap (λ (p : Outcome (Unit {0}) × World o). forget_code o settings email purpose x p.1)
              sent in
        let (r, kept) = forget_code-eq x v in
        rw whole (
          r,
          ap (λ (ks : Keyspace). ks k)
                (kept ∙ ap (λ ks. drop key (drop cooldown ks)) (published-view free))
              ∙ undone (new_entry w) _ (D.view w.server) k,
        )

    -- On a documented Redis, where no cooldown runs, the address holds an `@` and is at most 320
    -- long, the purpose is one of the two, the draw is below a million, the job is published, and
    -- the digest of the code has no colon, `_send_code` returns, the cooldown is set for 60
    -- seconds, and `_consume_code` then accepts the code of the message for this address and
    -- purpose.
    pub send_code-sent :
        D.view w.server cooldown ≡ none
        → Sendable email purpose (o.randbelow 1_000_000 w.draws)
        → (publish o (new_job w) (stored w)).0 ≡ returns tt
        → has_char b':' (o.sha256_hex (new_code w)) ≡ false
        → let (r, w') = send_code o settings email purpose w in
          (r ≡ returns tt)
          × (D.view w'.server cooldown ≡ some (record { value = str (codes "1"); left = some 60 }))
          × ((consume_code o settings email purpose (new_code w) w').0 ≡ returns true)
    send_code-sent free sendable sends h =
        let valid = new_job-valid sendable in
        let sent = body-valid valid in
        let v = (publish o (new_job w) (stored w)).1 in
        let whole =
          send_code-free free
          ∙ try_except-returns (body w) (forget_code o settings email purpose) (begun w) tt
              (ap (λ (p : Outcome (Unit {0}) × World o). p.0) sent ∙ sends)
          ∙ ap (λ (p : Outcome (Unit {0}) × World o). (returns tt, p.1)) sent in
        let view = published-view free in
        let there = ap (λ (ks : Keyspace). ks key) view ∙ rw (text_eq_refl key) refl in
        rw whole (
          refl,
          ap (λ (ks : Keyspace). ks cooldown) view
              ∙ rw (keys_differ email purpose (new_job w) refl valid) (rw (text_eq_refl cooldown)),
          (consume_code-right o D settings email purpose (new_code w) v (o.sha256_hex (new_code w))
              0 (some minutes) h there refl (text_eq_refl (o.sha256_hex (new_code w)))).0,
        )
