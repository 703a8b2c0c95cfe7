-- ===== src/Auth/Service/Keeps.antt =====
-- The calls of backend/src/features/auth/auth_service.py over the committed tables.
use gamely.Base.{
  ◌≡◌, refl, ◌∙◌, ap, Bool, true, false, Option, none, some, Text, arith, ℕ, suc, ◌+◌, ◌*◌,
  if◌then◌else◌,
}
use gamely.Errors.{
  Exec, pure, raise, lift, Exception, Outcome, returns, raises, cancelled, integrity_error,
  continue, handle, ◌>>=◌, try_except,
}
use gamely.Database.Documented.{Documented, Tables, Transaction, step, flush_user, find_user}
use gamely.Database.{User, Statement, Rows}
use gamely.Outside.{Outside, World, sql, draw, time_now, command}
use gamely.Auth.Filter.{might_exist, remember, ask_filter, add_address, withdraw_trust}
use gamely.Auth.Repository.{by_email, create_user, rollback, commit}
use gamely.Cuckoo.{CuckooFilter, contains_if_ready, add, add_many, mark_unready}
use gamely.Email.{EmailJob, publish, declare_topology, to_bytes}
use gamely.Redis.{Command}
use gamely.Auth.Codes.{
  send_code, send_new_code, store_and_publish, forget_code, six_digits, was_set,
}
use gamely.Auth.Service.{abandon_account, is_taken}
use gamely.Settings.{Settings}

flush_user-Keeps :
    (u : User) (found : Option User) (t : Transaction)
    → (flush_user u found t).1.committed ≡ t.committed
flush_user-Keeps u none t = refl
flush_user-Keeps u (some v) t = refl

module _ (o : Outside) (D : Documented o.database) where
  abbrev pub tables : World o → Tables
  tables w = (D.view w.session).committed

module _ {o : Outside} (D : Documented o.database) where
  -- A call that commits nothing.
  pub record Keeps {A : Type 0} (m : Exec (World o) A) : Type 0 where
    pub kept : (w : World o) → tables o D (m w).1 ≡ tables o D w

  pub pure-Keeps : {A : Type 0} (a : A) → Keeps (pure a)
  pure-Keeps a = record { kept = λ w. refl }

  pub raise-Keeps : {A : Type 0} (x : Exception) → Keeps (raise {A = A} x)
  raise-Keeps x = record { kept = λ w. refl }

  pub lift-Keeps : {A : Type 0} (r : Outcome A) → Keeps (lift r)
  lift-Keeps r = record { kept = λ w. refl }

  pub time_now-Keeps : Keeps (time_now o)
  time_now-Keeps = record { kept = λ w. refl }

  pub continue-Keeps :
      {A B : Type 0} (f : A → Exec (World o) B) (r : Outcome A) (s : World o)
      → ((a : A) → Keeps (f a))
      → tables o D (continue f r s).1 ≡ tables o D s
  continue-Keeps f (returns a) s h = (h a).kept s
  continue-Keeps f (raises e) s h = refl
  continue-Keeps f cancelled s h = refl

  pub bind-Keeps :
      {A B : Type 0} (m : Exec (World o) A) (f : A → Exec (World o) B)
      → Keeps m
      → ((a : A) → Keeps (f a))
      → Keeps (m >>= f)
  bind-Keeps m f hm hf = record { kept = λ w. continue-Keeps f (m w).0 (m w).1 hf ∙ hm.kept w }

  pub handle-Keeps :
      {A : Type 0} (h : Exception → Exec (World o) A) (r : Outcome A) (s : World o)
      → ((x : Exception) → Keeps (h x))
      → tables o D (handle h r s).1 ≡ tables o D s
  handle-Keeps h (returns a) s k = refl
  handle-Keeps h (raises e) s k = (k e).kept s
  handle-Keeps h cancelled s k = refl

  pub try_except-Keeps :
      {A : Type 0} (m : Exec (World o) A) (h : Exception → Exec (World o) A)
      → Keeps m
      → ((x : Exception) → Keeps (h x))
      → Keeps (try_except m h)
  try_except-Keeps m h hm hh = record { kept = λ w. handle-Keeps h (m w).0 (m w).1 hh ∙ hm.kept w }

  pub if-Keeps :
      {A : Type 0} (b : Bool) (m n : Exec (World o) A)
      → Keeps m
      → Keeps n
      → Keeps (if b then m else n)
  if-Keeps true m n hm hn = hm
  if-Keeps false m n hm hn = hn

  pub command-Keeps : (c : Command) → Keeps (command o c)
  command-Keeps c = record { kept = λ w. ground arith }

  pub contains_if_ready-Keeps : (c : CuckooFilter) (x : Text) → Keeps (contains_if_ready o c x)
  unfolding contains_if_ready
  contains_if_ready-Keeps c x = record { kept = λ w. ground arith }

  pub add-Keeps : (c : CuckooFilter) (x : Text) → Keeps (add o c x)
  unfolding add add_many
  add-Keeps c x = record { kept = λ w. ground arith }

  pub mark_unready-Keeps : (c : CuckooFilter) → Keeps (mark_unready o c)
  unfolding mark_unready
  mark_unready-Keeps c = record { kept = λ w. ground arith }

  pub publish-Keeps : (job : EmailJob) → Keeps (publish o job)
  unfolding publish declare_topology to_bytes
  publish-Keeps job = record { kept = λ w. ground arith }

  pub draw-Keeps : {A : Type 0} (f : ℕ → A) → Keeps (draw o f)
  draw-Keeps f = record { kept = λ w. refl }

  pub sql-Keeps :
      (c : Statement) → ((t : Transaction) → (step c t).1.committed ≡ t.committed) → Keeps (sql o c)
  sql-Keeps c h = record {
    kept = λ w.
        ap (λ (r : Outcome Rows × o.database.Session). (D.view r.1).committed)
          (D.run_lem c w.session)
        ∙ ap (λ (t : Transaction). t.committed) (D.view-after c w.session)
        ∙ h (D.view w.session);
  }

  pub by_email-Keeps : (email : Text) → Keeps (by_email o email)
  unfolding by_email
  by_email-Keeps email = bind-Keeps _ _ (sql-Keeps _ (λ t. refl)) (λ rows. pure-Keeps _)

  pub add_user-Keeps : (u : User) → Keeps (sql o (Statement.add_user u))
  add_user-Keeps u = sql-Keeps _ (λ t. flush_user-Keeps u (find_user u.email t.current.users) t)

  pub create_user-Keeps :
      (email : Text) (h : Option Text) (v : Bool) → Keeps (create_user o email h v)
  unfolding create_user
  create_user-Keeps email h v = record {
    kept = λ w.
        let user : User = record {
          id = o.uuid4 w.draws;
          email = email;
          password_hash = h;
          email_verified_at = if v then some w.now else none;
        } in
        (bind-Keeps (sql o (Statement.add_user user)) (λ _. pure user) (add_user-Keeps user)
            (λ rows. pure-Keeps user)).kept
          (record w { draws = suc w.draws });
  }

  pub rollback-Keeps : Keeps (rollback o)
  unfolding rollback
  rollback-Keeps = bind-Keeps _ _ (sql-Keeps _ (λ t. refl)) (λ rows. pure-Keeps _)

  pub commit-returns : (w : World o) → (commit o w).0 ≡ returns tt
  unfolding commit
  commit-returns w = rw D.run_lem

  module _ (settings : Settings) where
    pub might_exist-Keeps : (x : Text) → Keeps (might_exist o settings x)
    unfolding might_exist ask_filter
    might_exist-Keeps x =
        if-Keeps settings.auth_email_filter_enabled _ _
          (try_except-Keeps _ _ (bind-Keeps _ _ (contains_if_ready-Keeps _ x) (λ hit. pure-Keeps _))
            (λ e. pure-Keeps _))
          (pure-Keeps _)

    pub remember-Keeps : (x : Text) → Keeps (remember o settings x)
    unfolding remember add_address withdraw_trust
    remember-Keeps x =
        if-Keeps settings.auth_email_filter_enabled _ _
          (try_except-Keeps _ _ (bind-Keeps _ _ (add-Keeps _ x) (λ added. pure-Keeps _))
            (λ e. try_except-Keeps _ _ (mark_unready-Keeps _) (λ e. pure-Keeps _)))
          (pure-Keeps _)

    pub store_and_publish-Keeps :
        (email purpose code : Text) (t : ℕ)
        → Keeps (store_and_publish o settings email purpose code t)
    unfolding store_and_publish
    store_and_publish-Keeps email purpose code t =
        bind-Keeps _ _ (command-Keeps _) (λ reply. bind-Keeps _ _ (lift-Keeps _) publish-Keeps)

    pub forget_code-Keeps :
        (email purpose : Text) (x : Exception) → Keeps (forget_code o settings email purpose x)
    unfolding forget_code
    forget_code-Keeps email purpose x = bind-Keeps _ _ (command-Keeps _) (λ reply. raise-Keeps _)

    pub send_new_code-Keeps :
        (email purpose : Text) → Keeps (send_new_code o settings email purpose)
    unfolding send_new_code
    send_new_code-Keeps email purpose =
        bind-Keeps (draw o (λ n. six_digits (o.randbelow 1000000 n))) _ (draw-Keeps _) (λ code.
          bind-Keeps (time_now o) _ time_now-Keeps (λ now.
            try_except-Keeps _ _
              (store_and_publish-Keeps email purpose code (now + settings.auth_code_minutes * 60))
              (forget_code-Keeps email purpose)))

    pub send_code-Keeps : (email purpose : Text) → Keeps (send_code o settings email purpose)
    unfolding send_code
    send_code-Keeps email purpose =
        bind-Keeps _ _ (command-Keeps _) (λ reply.
          if-Keeps (was_set reply) _ _ (send_new_code-Keeps email purpose) (raise-Keeps _))

    pub is_taken-Keeps : (email : Text) → Keeps (is_taken o settings email)
    unfolding is_taken
    is_taken-Keeps email = bind-Keeps _ _ (might_exist-Keeps email) (λ maybe.
        if-Keeps maybe _ _ (bind-Keeps _ _ (by_email-Keeps email) (λ u. pure-Keeps _))
          (pure-Keeps _))

    pub abandon_account-Keeps :
        (email : Text) (x : Exception) → Keeps (abandon_account o settings email x)
    unfolding abandon_account
    abandon_account-Keeps email integrity_error =
        bind-Keeps _ _ rollback-Keeps
          (λ done. bind-Keeps _ _ (remember-Keeps email) (λ done. raise-Keeps _))
    abandon_account-Keeps email _ = bind-Keeps _ _ rollback-Keeps (λ done. raise-Keeps _)
