-- ===== src/Auth/Warmer/Lock.antt =====
-- `warm` and its lock, backend/src/features/auth/availability/email_filter_warmer.py.
use gamely.Base.{
  ℕ, ◌≡◌, refl, ◌∙◌, ap, Option, none, some, List, Bool, true, Text, text_eq_refl, Bool-cases, inl,
  inr, suc,
}
use gamely.Errors.{Exception, returns, raises, try_except-raises, try_except-returns}
use gamely.Redis.{Reply, Command, SetMode, single}
use gamely.Redis.Documented.{Documented, Keyspace, Entry, str, drop, perform, on_set, on_get}
use gamely.Auth.Filter.{email_filter_key, email_filter_meta_key}
use gamely.Auth.Filter.Trust.{items, is_trusted, covers}
use gamely.Auth.Warmer.{
  Stream, email_filter_lock_key, rebuild, warm, warm_locked, release_lock, give_up, delete_if_owned,
}
use gamely.Auth.Warmer.Loop.{all_addresses}
use gamely.Auth.Warmer.Rebuild.{rebuild-refused, rebuild-ends}
use gamely.Outside.{Outside, World}
use gamely.Settings.{Settings}

module _ (collides : List Text → Text → Bool) (token : Text) (left : Option ℕ) (ks : Keyspace) where
  release_lock-own :
      ks email_filter_lock_key ≡ some (record { value = str token; left = left })
      → perform collides (release_lock email_filter_lock_key token) ks
        ≡ (Reply.int 1, drop email_filter_lock_key ks)
  unfolding release_lock
  release_lock-own h =
      ap (λ e. perform collides (delete_if_owned email_filter_lock_key token (on_get e)) ks) h
      ∙ rw (text_eq_refl token) (rw h)

module _ (o : Outside) (D : Documented o.redis) (settings : Settings) (w : World o) where
  -- The token of this replica, and its attempt to take the lock.
  abbrev token : Text
  token = o.token_urlsafe 16 w.draws

  abbrev take_lock : Command
  take_lock =
      Command.set email_filter_lock_key token (some settings.auth_email_filter_lock_seconds)
        SetMode.nx

  abbrev taken : Option Entry → Reply × Keyspace
  taken e =
      on_set email_filter_lock_key token (some settings.auth_email_filter_lock_seconds) SetMode.nx e
        (D.view w.server)

  -- On a documented Redis, while the lock is held, `warm` changes no key.
  pub warm-locked_out :
      (held : Entry) (is_timeout : Bool) (batches : Stream)
      → D.view w.server email_filter_lock_key ≡ some held
      → D.view (warm o settings is_timeout batches w).1.server ≡ D.view w.server
  unfolding warm warm_locked
  warm-locked_out held is_timeout batches h = elim (Bool-cases settings.auth_email_filter_enabled) [
    | inr off ↦ simp off
    | inl on ↦
        let done : perform D.collides (single take_lock) (D.view w.server)
            ≡ (Reply.nil, D.view w.server) =
          ap taken h in
        simp on (
          rw (D.run_lem, done)
            (D.view-after (single take_lock) w.server ∙ ap (λ (p : Reply × Keyspace). p.1) done))
  ]

  give_up-own :
      (t : Text) (left : Option ℕ) (x : Exception)
      → D.view w.server email_filter_lock_key ≡ some (record { value = str t; left = left })
      → let (r, w') = give_up o settings t x w in
        (r ≡ raises x) × (D.view w'.server ≡ drop email_filter_lock_key (D.view w.server))
  unfolding give_up
  give_up-own t left x h =
      let done = release_lock-own D.collides t left (D.view w.server) h in
      rw (D.run_lem, done) (refl, D.view-after _ w.server ∙ ap (λ (p : Reply × Keyspace). p.1) done)

module _ (o : Outside) (D : Documented o.redis) (settings : Settings) (w : World o) where
  abbrev w1 : World o
  w1 = record w {
    draws = suc w.draws;
    server = D.after (single (take_lock o D settings w)) w.server;
  }

  -- On a documented Redis, where the filter is enabled, the lock is free and the first failure of the
  -- rebuild is that `normalize_email` refuses an address or that the database raises, the lock is free again after `warm`, and the filter has no marker.
  pub warm-refused :
      (is_timeout : Bool) (batches : Stream) (x : Exception)
      → settings.auth_email_filter_enabled ≡ true
      → D.view w.server email_filter_lock_key ≡ none
      → all_addresses batches ≡ raises x
      → let ks' = D.view (warm o settings is_timeout batches w).1.server in
        (ks' email_filter_lock_key ≡ none) × (ks' email_filter_meta_key ≡ none)
  unfolding warm warm_locked
  warm-refused is_timeout batches x on free refused =
      let done = ap (taken o D settings w) free in
      let view1 =
        D.view-after (single (take_lock o D settings w)) w.server
        ∙ ap (λ (p : Reply × Keyspace). p.1) done in
      let (ended, unmarked, kept) = rebuild-refused o D settings batches x w1 refused in
      let w2 = (rebuild o settings batches w1).1 in
      let held = kept ∙ ap (λ (ks : Keyspace). ks email_filter_lock_key) view1 in
      let (raised, left) = give_up-own o D settings w2 (token o D settings w) _ x held in
      let whole =
        try_except-raises (rebuild o settings batches) (give_up o settings (token o D settings w))
          w1 x ended in
      simp on (
        rw (D.run_lem, done)
          (rw (whole, raised)
            (
              ap (λ (ks : Keyspace). ks email_filter_lock_key) left,
              ap (λ (ks : Keyspace). ks email_filter_meta_key) left ∙ unmarked,
            )))

  -- On a documented Redis, where the filter is enabled, the lock is free, the database streams all
  -- addresses and `normalize_email` accepts them, `warm` returns, the filter is marked as complete for
  -- these settings and holds every address, and this replica holds the lock, which expires.
  pub warm-completes :
      (is_timeout : Bool) (batches : Stream) (es : List Text)
      → settings.auth_email_filter_enabled ≡ true
      → D.view w.server email_filter_lock_key ≡ none
      → all_addresses batches ≡ returns es
      → let (r, w') = warm o settings is_timeout batches w in
        (r ≡ returns tt)
        × (is_trusted settings (D.view w'.server) ≡ true)
        × (covers (items (D.view w'.server email_filter_key)) es ≡ true)
        × (D.view w'.server email_filter_lock_key
            ≡ some (record {
              value = str (o.token_urlsafe 16 w.draws);
              left = some settings.auth_email_filter_lock_seconds;
            }))
  unfolding warm warm_locked
  warm-completes is_timeout batches es on free complete =
      let done = ap (taken o D settings w) free in
      let view1 =
        D.view-after (single (take_lock o D settings w)) w.server
        ∙ ap (λ (p : Reply × Keyspace). p.1) done in
      let (ended, trusted, held, kept) = rebuild-ends o D settings batches es w1 complete in
      let whole =
        try_except-returns (rebuild o settings batches) (give_up o settings (token o D settings w))
          w1 tt ended in
      simp on (
        rw (D.run_lem, done)
          (rw whole
            (refl, trusted, held, kept ∙ ap (λ (ks : Keyspace). ks email_filter_lock_key) view1)))
